-- ===== src/Node/Sent.antt =====
-- The messages that a node signs, `_signed_message` of peerq/node.py, at a node that receives them; the
-- heartbeat of `_heartbeat_loop` is one of them.
use peer_q.Prelude.{
  ◌≡◌, refl, sym, ap, subst, ◌∙◌, Str, Bytes, Bool, true, false, some, none, arith, codes, ==_self,
  str_ordered,
}
use peer_q.Prelude.Int.{ℤ, int_ordered}
use peer_q.Prelude.Dict.{lookup, has-lookup-some}
use peer_q.Errors.{Result, ok, value_error, check-inverse, ok-injective}
use peer_q.Json.{Codec, Fields, field, end, float, finite}
use peer_q.Crypto.{Ed25519, PeerKeyRing, has_peer}
use peer_q.Security.ReplayCache.{ReplayCache}
use peer_q.Failure.{phi, calm}
use peer_q.Failure.Windows.{phi-calm}
use peer_q.Transport.Message.{Message, signed, is_bounded, verify_signature}
use peer_q.Transport.Message.RoundTrip.{verify_signature-signed}
use peer_q.Transport.Freshness.{fresh_message, window}
use peer_q.Node.Messages.{authenticate_message, is_message_type}
use peer_q.Node.Receive.{Peer, receive, dispatch, judged, authenticated}

abbrev pub plain_message : ℤ → Str → Str → Fields → Message
plain_message version sender msg_type payload = record {
  msg_type = msg_type;
  sender_id = sender;
  payload = payload;
  timestamp = none;
  nonce = none;
  signature = none;
  protocol_version = version;
}

module _ (ed : Ed25519) (codec : Codec) where
  -- `_signed_message`, at the wall clock `sent` and with the nonce that `signed` chose.
  unfoldable pub signed_message : ℤ → Bytes → Str → Str → Fields → ℤ → Str → Result Message
  signed_message version key sender msg_type payload sent nonce =
      signed ed codec key sent nonce (plain_message version sender msg_type payload)

  -- The heartbeat of a node whose clock is at `ts`.
  unfoldable pub heartbeat_message : ℤ → Bytes → Str → ℤ → ℤ → Str → Result Message
  heartbeat_message version key sender ts sent nonce =
      signed_message version key sender (codes "heartbeat")
        (field (codes "ts") (float (finite ts)) end) sent nonce

  -- A message that the peer takes: it is of a known type, from a sender whose key the peer has, in its
  -- version, of its time, and with a nonce that it has not seen.
  pub record IsTaken (key : Bytes) (plain : Message) (wall sent : ℤ) (nonce : Str) (p : Peer)
      : Type 0 where
    pub kind : is_message_type plain.msg_type ≡ true
    pub version : plain.protocol_version ≡ p.security.protocol_version
    pub known : lookup plain.sender_id p.node.keyring ≡ some (ed.public_key key)
    pub fresh :
        (fresh_message plain.sender_id wall
          (window p.security)
          (some sent)
          (some nonce)
          p.message_replay).0
        ≡ true

  authenticated-taken :
      (wall : ℤ) (sender : Str) (t : ℤ) (nonce : Str) (m : Message) (p : Peer)
      → is_message_type m.msg_type ≡ true
      → m.sender_id ≡ sender
      → m.protocol_version ≡ p.security.protocol_version
      → m.timestamp ≡ some t
      → m.nonce ≡ some nonce
      → has_peer ed p.node.keyring sender ≡ true
      → verify_signature ed codec m p.node.keyring ≡ true
      → (fresh_message sender wall (window p.security) (some t) (some nonce) p.message_replay).0
        ≡ true
      → (authenticated ed codec wall sender m p).0 ≡ true
  unfolding authenticate_message
  authenticated-taken wall sender t nonce m p kind from same time once known verified fresh =
      ground (
        arith,
        kind,
        from,
        same,
        time,
        once,
        known,
        verified,
        fresh,
        ==_self sender,
        ==_self p.security.protocol_version,
      )

  known_peer :
      (sender : Str) (ring : PeerKeyRing) (k : Bytes)
      → lookup sender ring ≡ some k
      → has_peer ed ring sender ≡ true
  unfolding has_peer
  known_peer sender ring k h = has-lookup-some sender ring k h

  judged-taken :
      (now : ℤ) (locked : Bool) (sender : Str) (m : Message) (p : Peer) (r : Bool × ReplayCache)
      → r.0 ≡ true
      → judged ed codec now locked sender m p r
        ≡ dispatch ed codec now locked sender m (record p { message_replay = r.1 })
  judged-taken now locked sender m p (true, seen) h = refl
  judged-taken now locked sender m p (false, seen) h = ground (arith, h)

  -- A signed message that the peer takes goes to the handler of its type, as it was sent.
  pub receive-signed :
      (key : Bytes) (plain m : Message) (wall now sent : ℤ) (nonce : Str) (locked : Bool) (p : Peer)
      → signed ed codec key sent nonce plain ≡ ok m
      → IsTaken key plain wall sent nonce p
      → (m.msg_type ≡ plain.msg_type)
        × (m.payload ≡ plain.payload)
        × (receive ed codec wall now locked plain.sender_id m p
            ≡ dispatch ed codec now locked plain.sender_id m
                (record p { message_replay = (authenticated ed codec wall plain.sender_id m p).1 }))
  unfolding receive signed
  receive-signed key plain m wall now sent nonce locked p h taken =
      let (_, built) = check-inverse (is_bounded 128 nonce) value_error _ h in
      let e = ok-injective built in
      let kind : m.msg_type ≡ plain.msg_type = ap (λ x. x.msg_type) (sym e) in
      let verified =
        verify_signature-signed ed codec key sent nonce plain m p.node.keyring h taken.known in
      (
        kind,
        ap (λ x. x.payload) (sym e),
        judged-taken now locked plain.sender_id m p
            (authenticated ed codec wall plain.sender_id m p)
            (authenticated-taken wall plain.sender_id sent nonce m p
              (subst (λ t. is_message_type t ≡ true) (sym kind) taken.kind)
              (ap (λ x. x.sender_id) (sym e)) (ap (λ x. x.protocol_version) (sym e) ∙ taken.version)
              (ap (λ x. x.timestamp) (sym e)) (ap (λ x. x.nonce) (sym e))
              (known_peer plain.sender_id p.node.keyring (ed.public_key key) taken.known) verified
              taken.fresh),
      )

  -- A heartbeat that a peer takes silences its suspicion of the sender at that time, and leaves its
  -- tasks and credits alone.
  pub heartbeat_message-received :
      (version : ℤ) (key : Bytes) (sender : Str) (ts sent : ℤ) (nonce : Str) (m : Message)
      (wall now : ℤ) (locked : Bool) (p : Peer)
      → heartbeat_message version key sender ts sent nonce ≡ ok m
      → IsTaken key
          (plain_message version sender
            (codes "heartbeat")
            (field (codes "ts") (float (finite ts)) end))
          wall
          sent
          nonce
          p
      → let got = (receive ed codec wall now locked sender m p).peer in
        (phi sender now got.failure_detector ≡ calm)
        × (got.node ≡ p.node)
        × (got.flow_controller ≡ p.flow_controller)
  unfolding heartbeat_message signed_message dispatch
  heartbeat_message-received version key sender ts sent nonce m wall now locked p h taken =
      let plain =
        plain_message version sender (codes "heartbeat")
          (field (codes "ts") (float (finite ts)) end) in
      let (kind, _, handled) = receive-signed key plain m wall now sent nonce locked p h taken in
      rw (handled, kind) (phi-calm sender now p.failure_detector, refl, refl)
