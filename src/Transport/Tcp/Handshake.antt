-- ===== src/Transport/Tcp/Handshake.antt =====
-- The two sides of the handshake of peerq/transport.py: the hello of `_handle_client`, and the
-- acknowledgement that `_get_or_connect` waits for.
use peer_q.Prelude.{
  ◌≡◌, refl, Str, Bytes, Bool, true, false, Option, none, some, arith, codes, ==_iff, str_ordered,
  if_split, and_split, inl, inr, subst,
}
use peer_q.Json.{Codec, fetch}
use peer_q.Errors.{Result, ok, err}
use peer_q.Crypto.{Ed25519, has_peer}
use peer_q.Transport.Message.{Message, verify_signature}
use peer_q.Transport.Tcp.{
  Tcp, Tick, receiving, Served, on_hello, is_opening, verify_message, answered, write_signed,
  next_round, acknowledged, read_frame, is_version,
}
use peer_q.Transport.Tcp.Dial.{Attempt, judged, acked, greeted, handshake}
use peer_q.Transport.Tcp.Extension.{verify_message-verified}

module _ (ed : Ed25519) (codec : Codec) where
  next_round-phase :
      (sender : Option Str) (s : Str) (t : Tcp)
      → (next_round (some s) t).phase ≡ receiving sender
      → sender ≡ some s
  next_round-phase sender s t h =
      elim (if_split (λ (s : Served). s.phase ≡ receiving sender) t.closed h) [
        | inl (_, e) ↦ ground (arith, e)
        | inr (_, e) ↦ ground (arith, e)
      ]

  answered-phase :
      (k : Tick) (sender : Option Str) (s : Str) (r : Bool × Tcp)
      → (answered ed codec k s r).phase ≡ receiving sender
      → (r.0 ≡ true) × (sender ≡ some s)
  answered-phase k sender s (false, t) h = ground arith
  answered-phase k sender s (true, t) h =
      (refl, go (write_signed ed codec k (codes "hello_ack") t) h)
    where
      go :
          (w : Result Bytes)
          → (acknowledged ed codec s t w).phase ≡ receiving sender
          → sender ≡ some s
      go (err e) h = ground arith
      go (ok bytes) h = next_round-phase sender s t h

  -- Where security is enabled, a connection receives messages only behind a hello whose sender is
  -- in the ring and whose signature verifies, and only messages of that sender.
  pub on_hello-authorizes :
      (k : Tick) (hello : Message) (t : Tcp) (sender : Option Str)
      → t.security.enabled ≡ true
      → (on_hello ed codec k hello t).phase ≡ receiving sender
      → (sender ≡ some hello.sender_id)
        × (hello.msg_type ≡ codes "hello")
        × (has_peer ed t.keyring hello.sender_id ≡ true)
        × (verify_signature ed codec hello t.keyring ≡ true)
  unfolding on_hello
  on_hello-authorizes k hello t sender on h =
      elim (if_split (λ (s : Served). s.phase ≡ receiving sender)
        (is_opening ed codec (codes "hello") hello t) h) [
          | inl (opening, h1) ↦
              let (good, same) =
                answered-phase k sender hello.sender_id (verify_message ed codec k.now hello none t)
                  h1 in
              let (_, known, verified) =
                verify_message-verified ed codec k.now hello none t on good in
              (
                same,
                (==_iff hello.msg_type (codes "hello")).0 (and_split _ _ opening).0,
                known,
                verified,
              )
          | inr (_, h1) ↦ ground (arith, h1)
        ]

  -- An acknowledgement that verifies, of the same version and from the peer that was dialed.
  pub record IsAck (peer_id : Str) (t : Tcp) (stream : Bytes) : Type 0 where
    pub ack : Message
    pub rest : Bytes
    pub frame : read_frame codec t.security stream ≡ ok (ack, rest)
    pub msg_type : ack.msg_type ≡ codes "hello_ack"
    pub version :
        is_version (fetch (codes "protocol_version") ack.payload) t.security.protocol_version ≡ true
    pub sender_id : ack.sender_id ≡ peer_id
    pub known : has_peer ed t.keyring peer_id ≡ true
    pub verified : verify_signature ed codec ack t.keyring ≡ true

  acked-IsAck :
      (k : Tick) (peer_id : Str) (hello stream : Bytes) (t : Tcp) (r : Result (Message × Bytes))
      → t.security.enabled ≡ true
      → read_frame codec t.security stream ≡ r
      → (acked ed codec k peer_id hello t r).error ≡ none
      → IsAck peer_id t stream
  acked-IsAck k peer_id hello stream t (err e) on f h = ground arith
  acked-IsAck k peer_id hello stream t (ok (ack, rest)) on f h =
      elim (if_split (λ (a : Attempt). a.error ≡ none)
        (is_opening ed codec (codes "hello_ack") ack t) h) [
          | inl (opening, h1) ↦
              let (kind, version) = and_split _ _ opening in
              let v =
                verify_message-verified ed codec k.now ack (some peer_id) t on
                  (accepted (verify_message ed codec k.now ack (some peer_id) t) h1) in
              let same : ack.sender_id ≡ peer_id = (==_iff ack.sender_id peer_id).0 v.0 in
              record {
                ack = ack;
                rest = rest;
                frame = f;
                msg_type = (==_iff ack.msg_type (codes "hello_ack")).0 kind;
                version = version;
                sender_id = same;
                known = subst (λ s. has_peer ed t.keyring s ≡ true) same v.1;
                verified = v.2;
              }
          | inr (_, h1) ↦ ground (arith, h1)
        ]
    where
      accepted : (r : Bool × Tcp) → (judged ed codec peer_id hello r).error ≡ none → r.0 ≡ true
      accepted (true, u) h = refl
      accepted (false, u) h = ground arith

  -- Where security is enabled, dialing a peer succeeds only where the peer answers with an
  -- "hello_ack" of its own, for the same version of the protocol, whose signature verifies.
  pub handshake-IsAck :
      (k : Tick) (peer_id : Str) (stream : Bytes) (t : Tcp)
      → t.security.enabled ≡ true
      → (handshake ed codec k peer_id stream t).error ≡ none
      → IsAck peer_id t stream
  unfolding handshake
  handshake-IsAck k peer_id stream t on h =
      elim (if_split (λ (a : Attempt). a.error ≡ none) t.security.enabled h) [
        | inl (_, h1) ↦ go (write_signed ed codec k (codes "hello") t) h1
        | inr (off, _) ↦ absurd (ground (arith, on, off))
      ]
    where
      go :
          (w : Result Bytes)
          → (greeted ed codec k peer_id stream t w).error ≡ none
          → IsAck peer_id t stream
      go (err e) h = ground arith
      go (ok hello) h =
          acked-IsAck k peer_id hello stream t (read_frame codec t.security stream) on refl h
