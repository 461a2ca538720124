-- ===== src/Node.antt =====
-- The task table of `PeerNode` of peerq/node.py: how a submission and a gossiped record change it,
-- on a node without a log. Messages, timers and metrics stay outside.
pub mod Create
pub mod Fence
pub mod Gossip
pub mod Growth
pub mod Loop
pub mod Lease
pub mod Reach
pub mod Submit
pub mod Messages
pub mod Receive
pub mod Sent
pub mod Table
pub mod Recovery
pub mod Worker
use peer_q.Prelude.{
  true, false, ℕ, Str, Bytes, Bool, not, ◌&&◌, ◌||◌, Option, none, some, List, ◌∷◌, if◌then◌else◌,
  leb, ltb, length, ◌==◌, str_ordered, nat_ordered, pair_ordered, option_ordered,
}
use peer_q.Prelude.Int.{ℤ, pos}
use peer_q.Prelude.Dict.{Dict, lookup, has, insert, member}
use peer_q.Errors.{Error, type_error, Result, ok, err, value_error, queue_full, ◌>>◌, check}
use peer_q.Json.{null, obj, count_fields, Json, Codec, Fields, end, field}
use peer_q.Security.{max_task_id_length, max_task_payload}
use peer_q.Crypto.{Ed25519, PeerKeyRing, sign_task, verify_task_authorization, is_empty}
use peer_q.Consensus.Clock
use peer_q.Consensus.Clock.{VectorClock}
use peer_q.Consensus.Record.{TaskState, pending, TaskRecord, task_record}
use peer_q.Consensus.Merge.{merge_records}
use peer_q.Consensus.Wire.{from_dict}
use peer_q.Queue.{Queue, put_nowait}

pub record Node : Type 0 where
  pub node_id : Str
  pub identity : Bytes
  pub keyring : PeerKeyRing
  pub security_enabled : Bool
  pub max_tasks : ℕ
  pub tasks : Dict Str TaskRecord
  pub queue : Queue Str
  pub queued_task_ids : List Str
  pub vector_clock : VectorClock

-- The node after a message, and an exception that the receive loop does not catch.
pub record Received : Type 0 where
  pub node : Node
  pub escaped : Option Error

-- An exception ends the handler there.
abbrev pub stop_at : Option Error → Received → Received → Received
stop_at none first more = more
stop_at (some e) first more = first

module _ (ed : Ed25519) (codec : Codec) where
  -- `_seal_record`
  unfoldable pub seal_record : Node → TaskRecord → TaskRecord
  seal_record n r = if n.security_enabled then sign_task ed codec n.identity r n.node_id else r

  -- `keyring=self.keyring if self.security.enabled else None`
  abbrev pub merge_ring : Node → Option PeerKeyRing
  merge_ring n = if n.security_enabled then some n.keyring else none

  abbrev pub ticked : Node → Node
  ticked n = record n { vector_clock = Clock.increment n.vector_clock n.node_id }

  abbrev pub new_record : Str → Bytes → Node → TaskRecord
  new_record task_id payload n = record (task_record task_id pending payload) {
    vector_clock = n.vector_clock;
    updated_by = n.node_id;
  }

  -- `submit_task` up to the call of the queue: the new record replaces what the table has.
  unfoldable pub submit_record : Str → Bytes → Node → Result Node
  submit_record task_id payload n = do
    check (not (is_empty task_id) && leb (length task_id) max_task_id_length) value_error
    check (leb (length payload) max_task_payload) value_error
    check (has task_id n.tasks || ltb (length n.tasks) n.max_tasks) queue_full
    let m = ticked n
    ok (record m { tasks = insert task_id (seal_record n (new_record task_id payload m)) n.tasks })

  abbrev pub added : Str → Node → Node
  added task_id n = record n {
    queued_task_ids =
        if member task_id n.queued_task_ids then n.queued_task_ids else task_id ∷ n.queued_task_ids;
  }

  abbrev pub queued : Str → Node → Result (Queue Str) → Node
  queued task_id n (ok q) = added task_id (record n { queue = q })
  queued task_id n (err e) = n

  abbrev pub enqueue_in : TaskState → Bool → Str → ℤ → Node → Node
  enqueue_in pending locked task_id priority n =
      if member task_id n.queued_task_ids
      then n
      else queued task_id n (put_nowait locked task_id priority n.queue)
  enqueue_in _ locked task_id priority n = n

  -- A pending task that is not queued is put into the queue, if there is room.
  unfoldable pub enqueue_pending : Bool → Str → ℤ → TaskRecord → Node → Node
  enqueue_pending locked task_id priority r n = enqueue_in r.state locked task_id priority n

  -- What the gossip handler does with the entry of the table, and whether it keeps the record.
  abbrev pub settle_entry : Str → TaskRecord → Node → Option TaskRecord → Result TaskRecord
  settle_entry task_id remote n none = ok remote
  settle_entry task_id remote n (some r) = merge_records ed codec r remote (merge_ring n)

  abbrev pub keep_merged : Bool → Str → TaskRecord → Node → Result TaskRecord → Node
  keep_merged locked task_id remote n (err e) = n
  keep_merged locked task_id remote n (ok merged) =
      let stored = record n { tasks = insert task_id merged n.tasks } in
      let m = enqueue_pending locked task_id (pos 0) merged stored in
      record m { vector_clock = Clock.merge n.vector_clock remote.vector_clock }

  -- The checks on a decoded record.
  unfoldable pub accepts : Str → Str → TaskRecord → Node → Bool
  accepts sender task_id remote n =
      remote.task_id == task_id
      && (not n.security_enabled
          || remote.signer_id == some sender && verify_task_authorization ed codec remote n.keyring)
      && (has task_id n.tasks || ltb (length n.tasks) n.max_tasks)

  -- The exceptions of `from_dict` that the handler catches.
  abbrev pub is_caught : Error → Bool
  is_caught value_error = true
  is_caught type_error = true
  is_caught _ = false

  abbrev pub receive_decoded : Bool → Str → Str → Node → Result TaskRecord → Received
  receive_decoded locked sender task_id n (err e) = record {
    node = n;
    escaped = if is_caught e then none else some e;
  }
  receive_decoded locked sender task_id n (ok remote) = record {
    node =
        if accepts sender task_id remote n
        then keep_merged locked task_id remote n
            (settle_entry task_id remote n (lookup task_id n.tasks))
        else n;
    escaped = none;
  }

  -- One entry of a gossip message.
  unfoldable pub receive_record : Bool → Str → Str → Json → Node → Received
  receive_record locked sender task_id raw n =
      receive_decoded locked sender task_id n (from_dict raw)

  -- The entries in their order, up to one that raises.
  unfoldable pub receive_gossip : Bool → Str → Fields → Node → Received
  receive_gossip locked sender end n = record { node = n; escaped = none }
  receive_gossip locked sender (field task_id raw rest) n =
      let first = receive_record locked sender task_id raw n in
      let more = receive_gossip locked sender rest first.node in stop_at first.escaped first more

  -- The payload's tasks: no more than the limit, and an object.
  unfoldable pub handle_gossip : ℕ → Bool → Str → Json → Node → Received
  handle_gossip max_gossip_tasks locked sender null n = record { node = n; escaped = none }
  handle_gossip max_gossip_tasks locked sender (obj tasks) n =
      if ltb max_gossip_tasks (count_fields tasks)
      then record { node = n; escaped = none }
      else receive_gossip locked sender tasks n
  handle_gossip max_gossip_tasks locked sender _ n = record { node = n; escaped = none }
