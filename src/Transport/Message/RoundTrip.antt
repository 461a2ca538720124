-- ===== src/Transport/Message/RoundTrip.antt =====
-- `to_bytes` and `from_bytes` of `Message`, and `signed` and `verify_signature`, of
-- peerq/transport.py.
use peer_q.Prelude.{
  ◌<◌, ◌^◌, ◌≡◌, ◌++◌, refl, Str, Bytes, true, false, Option, none, some, arith, le→leb, length,
  drop, ltb, subst, str_ordered,
}
use peer_q.Prelude.Int.{ℤ, pos, ◌≤ℤ◌, ltb_ℤ}
use peer_q.Prelude.Dict.{lookup}
use peer_q.Json.{obj, fetch, Codec}
use peer_q.Json.Hex.{hex, fromhex-hex, length-hex, AreBytes}
use peer_q.Errors.{ok, >>=-inverse, ok-injective, value_error, check-inverse}
use peer_q.Security.{max_peer_id_length}
use peer_q.Security.Config.{SecurityConfig}
use peer_q.Consensus.Wire.RoundTrip.{IfSome}
use peer_q.Crypto.{Ed25519, PeerKeyRing, verify_peer, verify_key}
use peer_q.Wal.{u32}
use peer_q.Transport.Message.{
  Message, max_message_type_length, is_bounded, config_limits, validated, payload_limits,
  time_or_null, nonce_or_null, signature_or_null, unsigned_document, wire_fields, wire_bytes,
  to_bytes, from_bytes, from_parsed, read_envelope, read_text, read_timestamp, read_nonce,
  read_signature, signed, stamped, verify_signature, canonical_bytes,
}

-- The limits of `from_bytes` on the optional fields of an envelope.
pub record IsEnvelope (m : Message) : Type 0 where
  pub nonce : IfSome (λ s. is_bounded 128 s ≡ true) m.nonce
  pub signature : IfSome (λ b. AreBytes b × (length b ≡ 64)) m.signature

timestamp-trip : (o : Option ℤ) → read_timestamp (time_or_null o) ≡ ok o
unfolding read_timestamp
timestamp-trip none = refl
timestamp-trip (some t) = refl

nonce-trip :
    (o : Option Str) → IfSome (λ s. is_bounded 128 s ≡ true) o → read_nonce (nonce_or_null o) ≡ ok o
unfolding read_nonce
nonce-trip none h = refl
nonce-trip (some s) h = rw h

signature-trip :
    (o : Option Bytes)
    → IfSome (λ b. AreBytes b × (length b ≡ 64)) o
    → read_signature (signature_or_null o) ≡ ok o
unfolding read_signature
signature-trip none h = refl
signature-trip (some b) h = ground (
  arith,
  fromhex-hex b h.0,
  length-hex b,
  h.1,
  le→leb (length (hex b)) 128,
  le→leb 128 (length (hex b)),
)

-- The envelope's fields read back, where the tree is valid and the two names are within limits.
from_parsed-wire_fields :
    (c : SecurityConfig) (m : Message)
    → IsEnvelope m
    → is_bounded max_message_type_length m.msg_type ≡ true
    → is_bounded max_peer_id_length m.sender_id ≡ true
    → validated (config_limits c) (obj (wire_fields m)) ≡ ok tt
    → from_parsed c (some (obj (wire_fields m))) ≡ ok m
unfolding from_parsed read_envelope wire_fields fetch read_text
from_parsed-wire_fields c m w type sender valid = rw valid (
    rw (
      type,
      sender,
      timestamp-trip m.timestamp,
      nonce-trip m.nonce w.nonce,
      signature-trip m.signature w.signature,
    ))

module _ (codec : Codec) where
  -- What a frame that was built says of its message.
  pub record IsFrame (max_size : ℤ) (m : Message) (packed : Bytes) : Type 0 where
    pub msg_type : is_bounded max_message_type_length m.msg_type ≡ true
    pub sender_id : is_bounded max_peer_id_length m.sender_id ≡ true
    pub fits : pos (length (wire_bytes codec m)) ≤ℤ max_size
    pub small : length (wire_bytes codec m) < 2 ^ 32
    pub frame : u32 (length (wire_bytes codec m)) ++ wire_bytes codec m ≡ packed

  pub to_bytes-IsFrame :
      (max_size : ℤ) (m : Message) (frame : Bytes)
      → to_bytes codec max_size m ≡ ok frame
      → IsFrame max_size m frame
  unfolding to_bytes
  to_bytes-IsFrame max_size m frame h =
      let bytes : Bytes = wire_bytes codec m in
      let (type, h1) = check-inverse _ _ _ h in
      let (sender, h2) = check-inverse _ _ _ h1 in
      let (u, _, h3) = >>=-inverse (validated payload_limits (obj m.payload)) _ h2 in
      let (fits, h4) = check-inverse _ _ _ h3 in
      let (small, h5) = check-inverse (ltb (length bytes) (2 ^ 32)) _ _ h4 in
      record {
        msg_type = type;
        sender_id = sender;
        fits = ground (arith, fits);
        small = ground (arith, small);
        frame = ok-injective h5;
      }

  -- The body of a frame that `to_bytes` built is read back as the message it was built from.
  pub from_bytes-to_bytes :
      (c : SecurityConfig) (m : Message) (frame : Bytes)
      → to_bytes codec c.max_frame_size m ≡ ok frame
      → IsEnvelope m
      → codec.loads (wire_bytes codec m) ≡ some (obj (wire_fields m))
      → validated (config_limits c) (obj (wire_fields m)) ≡ ok tt
      → from_bytes codec c (drop 4 frame) ≡ ok m
  unfolding from_bytes
  from_bytes-to_bytes c m frame h w reads valid =
      let f : IsFrame c.max_frame_size m frame = to_bytes-IsFrame c.max_frame_size m frame h in
      let bytes : Bytes = wire_bytes codec m in
      let body : drop 4 frame ≡ bytes = subst (λ x. drop 4 x ≡ bytes) f.frame refl in
      let size : ltb_ℤ c.max_frame_size (pos (length bytes)) ≡ false = ground (arith, f.fits) in
      rw body (rw size (rw reads (from_parsed-wire_fields c m w f.msg_type f.sender_id valid)))

module _ (ed : Ed25519) (codec : Codec) where
  -- A message that was signed is accepted by every ring that has the signer's key for its sender.
  pub verify_signature-signed :
      (key : Bytes) (t : ℤ) (nonce : Str) (m sent : Message) (ring : PeerKeyRing)
      → signed ed codec key t nonce m ≡ ok sent
      → lookup m.sender_id ring ≡ some (ed.public_key key)
      → verify_signature ed codec sent ring ≡ true
  unfolding signed verify_signature verify_peer verify_key canonical_bytes unsigned_document
  verify_signature-signed key t nonce m sent ring h k =
      let bytes : Bytes = canonical_bytes codec (stamped t nonce m) in
      let built : Message = record (stamped t nonce m) { signature = some (ed.sign key bytes) } in
      let (_, returned) = check-inverse (is_bounded 128 nonce) value_error (ok built) h in
      let e : built ≡ sent = ok-injective returned in
      subst (λ x. verify_signature ed codec x ring ≡ true) e
        (ground (arith, k, ed.verify-sign key bytes, ed.length-sign key bytes))
