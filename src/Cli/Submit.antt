-- ===== src/Cli/Submit.antt =====
-- The message of `submit_task_command` of peerq/cli.py at a node that receives it.
use peer_q.Prelude.{
  ℕ, ◌<◌, ◌≡◌, refl, sym, Str, Bytes, Bool, true, false, Option, none, some, arith, codes, length,
  ltb, ==_self, str_ordered, option_ordered,
}
use peer_q.Prelude.Int.{ℤ, pos, pos_part, int_ordered}
use peer_q.Prelude.Dict.{lookup, insert, lookup-insert}
use peer_q.Errors.{Error, ok}
use peer_q.Json.{Codec, obj, field, end, Fields, fetch, count_fields}
use peer_q.Crypto.{
  Ed25519, PeerKeyRing, sign_task, verify_task_authorization, verify_task_signature, owns_claim,
}
use peer_q.Crypto.Laws.{verify_task_signature-sign_task}
use peer_q.Consensus.Record.{TaskRecord}
use peer_q.Consensus.Wire.{to_dict}
use peer_q.Consensus.Wire.RoundTrip.{IsWire, from_dict-to_dict}
use peer_q.Transport.Message.{Message}
use peer_q.Transport.Freshness.{fresh_message, window}
use peer_q.Node.{
  Node, Received, stop_at, receive_gossip, receive_record, accepts, keep_merged, handle_gossip,
}
use peer_q.Node.Table.{enqueue-tasks}
use peer_q.Node.Receive.{Peer, receive, dispatch, gossiped, authenticated}
use peer_q.Node.Sent.{IsTaken, receive-signed}
use peer_q.Cli.{submitted_record, sealed_record, task_message, submit_message}

module _ (ed : Ed25519) (codec : Codec) where
  -- What the target has, for a task that it takes.
  pub record IsOpen (key : Bytes) (sender task_id : Str) (p : Peer) : Type 0 where
    pub known : lookup sender p.node.keyring ≡ some (ed.public_key key)
    pub fresh : lookup task_id p.node.tasks ≡ none
    pub room : length p.node.tasks < p.node.max_tasks
    pub gossip : 0 < pos_part p.security.max_gossip_tasks

  -- A record without a claim is authorized by its signature.
  unclaimed-authorized :
      (t : TaskRecord) (ring : PeerKeyRing)
      → t.claimed_by ≡ none
      → verify_task_signature ed codec t ring ≡ true
      → verify_task_authorization ed codec t ring ≡ true
  unfolding verify_task_authorization owns_claim
  unclaimed-authorized t ring c h = ground (arith, c, h)

  accepts-signed :
      (sender task_id : Str) (t : TaskRecord) (n : Node)
      → t.task_id ≡ task_id
      → t.signer_id ≡ some sender
      → verify_task_authorization ed codec t n.keyring ≡ true
      → length n.tasks < n.max_tasks
      → accepts ed codec sender task_id t n ≡ true
  unfolding accepts
  accepts-signed sender task_id t n same signer authorized room =
      ground (arith, same, signer, authorized, ==_self task_id, ==_self (some sender))

  accepts-sealed :
      (key : Bytes) (sender task_id : Str) (payload : Bytes) (n : Node)
      → lookup sender n.keyring ≡ some (ed.public_key key)
      → length n.tasks < n.max_tasks
      → accepts ed codec sender task_id (sealed_record ed codec false key sender task_id payload) n
        ≡ true
  unfolding sealed_record sign_task
  accepts-sealed key sender task_id payload n known room =
      let r = submitted_record ed codec sender task_id payload in
      let t = sealed_record ed codec false key sender task_id payload in
      let signature = verify_task_signature-sign_task ed codec key r sender n.keyring known in
      accepts-signed sender task_id t n refl refl (unclaimed-authorized t n.keyring refl signature)
        room

  keep_merged-stored :
      (locked : Bool) (task_id : Str) (r : TaskRecord) (n : Node)
      → lookup task_id (keep_merged ed codec locked task_id r n (ok r)).tasks ≡ some r
  keep_merged-stored locked task_id r n =
      let stored = record n { tasks = insert task_id r n.tasks } in
      let (same, _, _) = enqueue-tasks ed codec locked task_id (pos 0) r stored in
      rw same (ground (arith, lookup-insert task_id task_id r n.tasks, ==_self task_id))

  -- An accepted record of a new task is stored.
  receive_record-stored :
      (locked : Bool) (sender task_id : Str) (r : TaskRecord) (n : Node)
      → IsWire r
      → accepts ed codec sender task_id r n ≡ true
      → lookup task_id n.tasks ≡ none
      → let got = receive_record ed codec locked sender task_id (obj (to_dict r)) n in
        (lookup task_id got.node.tasks ≡ some r) × (got.escaped ≡ none)
  unfolding receive_record
  receive_record-stored locked sender task_id r n wire taken fresh =
      rw (from_dict-to_dict r wire, taken, fresh) (keep_merged-stored locked task_id r n, refl)

  stop-quiet :
      (k : Str) (r : TaskRecord) (first : Received) (o : Option Error)
      → o ≡ none
      → lookup k first.node.tasks ≡ some r
      → let got = stop_at o first (record { node = first.node; escaped = none }) in
        (lookup k got.node.tasks ≡ some r) × (got.escaped ≡ none)
  stop-quiet k r first none e h = (h, refl)
  stop-quiet k r first (some x) e h = ground (arith, e)

  handle_gossip-stored :
      (limit : ℕ) (locked : Bool) (sender task_id : Str) (r : TaskRecord) (n : Node)
      → 0 < limit
      → IsWire r
      → accepts ed codec sender task_id r n ≡ true
      → lookup task_id n.tasks ≡ none
      → let got =
          handle_gossip ed codec limit locked sender
            (obj (field task_id (obj (to_dict r)) end))
            n in
        (lookup task_id got.node.tasks ≡ some r) × (got.escaped ≡ none)
  unfolding handle_gossip receive_gossip count_fields
  handle_gossip-stored limit locked sender task_id r n some_room wire taken fresh =
      let few : ltb limit 1 ≡ false = ground arith in
      let first = receive_record ed codec locked sender task_id (obj (to_dict r)) n in
      let (stored, quiet) = receive_record-stored locked sender task_id r n wire taken fresh in
      rw few (stop-quiet task_id r first first.escaped quiet stored)

  dispatch-gossip :
      (now : ℤ) (locked : Bool) (sender : Str) (m : Message) (p : Peer) (fields : Fields)
      → m.msg_type ≡ codes "gossip"
      → m.payload ≡ fields
      → dispatch ed codec now locked sender m p
        ≡ gossiped ed codec
            (handle_gossip ed codec
              (pos_part p.security.max_gossip_tasks)
              locked
              sender
              (fetch (codes "tasks") fields)
              p.node)
            p
  unfolding dispatch
  dispatch-gossip now locked sender m p fields kind content = rw (kind, content) refl

  -- A task that is submitted from the command line in secure mode reaches the table of its target: where
  -- the sealed record is within the limits of `from_dict`, a node, in secure mode or not, that speaks the
  -- same version of the protocol, knows the sender's key, has room, takes gossip and has no such task
  -- takes the message, if it comes within the window and its nonce is new, and stores the record as it
  -- was signed.
  pub submit_message-received :
      (version : ℤ) (key : Bytes) (sender task_id : Str) (payload : Bytes) (sent : ℤ) (nonce : Str)
      (m : Message) (wall now : ℤ) (locked : Bool) (p : Peer)
      → submit_message ed codec version false key sender task_id payload sent nonce ≡ ok m
      → IsWire (sealed_record ed codec false key sender task_id payload)
      → p.security.protocol_version ≡ version
      → IsOpen key sender task_id p
      → (fresh_message sender wall (window p.security) (some sent) (some nonce) p.message_replay).0
        ≡ true
      → let got = receive ed codec wall now locked sender m p in
        (lookup task_id got.peer.node.tasks
          ≡ some (sealed_record ed codec false key sender task_id payload))
        × (got.escaped ≡ none)
  unfolding submit_message fetch
  submit_message-received version key sender task_id payload sent nonce m wall now locked p h wire
        same open_ fresh =
      let r = sealed_record ed codec false key sender task_id payload in
      let plain = task_message ed codec version sender task_id r in
      let taken : IsTaken ed codec key plain wall sent nonce p = record {
        kind = refl;
        version = sym same;
        known = open_.known;
        fresh = fresh;
      } in
      let (kind, content, handled) =
        receive-signed ed codec key plain m wall now sent nonce locked p h taken in
      let q = record p { message_replay = (authenticated ed codec wall sender m p).1 } in
      rw (handled, dispatch-gossip now locked sender m q plain.payload kind content)
        (handle_gossip-stored (pos_part p.security.max_gossip_tasks) locked sender task_id r p.node
          open_.gossip wire
          (accepts-sealed key sender task_id payload p.node open_.known open_.room) open_.fresh)
