-- ===== src/Node/Messages.antt =====
-- `_authenticate_message` of peerq/node.py.
use peer_q.Prelude.{
  Str, Bool, true, false, not, ◌||◌, codes, if◌then◌else◌, ◌==◌, str_ordered, nat_ordered,
}
use peer_q.Prelude.Int.{int_ordered, ℤ}
use peer_q.Json.{Codec}
use peer_q.Crypto.{Ed25519, PeerKeyRing, has_peer}
use peer_q.Transport.Message.{Message, verify_signature}
use peer_q.Security.ReplayCache.{ReplayCache}
use peer_q.Transport.Freshness.{fresh_message}

abbrev pub is_message_type : Str → Bool
is_message_type t = t == codes "heartbeat" || (t == codes "gossip" || t == codes "credit")

module _ (ed : Ed25519) (codec : Codec) where
  -- `_authenticate_message`: whether the message is taken, and the cache of nonces behind it.
  unfoldable pub authenticate_message :
      Bool → ℤ → ℤ → ℤ → PeerKeyRing → Str → Message → ReplayCache → Bool × ReplayCache
  authenticate_message enabled version window now ring sender m seen =
      if not enabled
      then (true, seen)
      else if not (sender == m.sender_id)
          || (not (m.protocol_version == version) || not (is_message_type m.msg_type))
      then (false, seen)
      else if not (has_peer ed ring sender) || not (verify_signature ed codec m ring)
      then (false, seen)
      else fresh_message sender now window m.timestamp m.nonce seen
