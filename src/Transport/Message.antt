-- ===== src/Transport/Message.antt =====
-- `Message` of peerq/transport.py: the envelope of all network messages, its signature, and its
-- frame on the wire. A time is in whole microseconds.
pub mod RoundTrip
use peer_q.Prelude.{
  ℕ, ◌^◌, Str, Bytes, Bool, true, false, not, ◌&&◌, ◌||◌, Option, none, some, codes, if◌then◌else◌,
  leb, ltb, length, ◌==◌, ◌++◌, str_ordered,
}
use peer_q.Prelude.Int.{ℤ, pos, pos_part, ltb_ℤ}
use peer_q.Json.{
  Json, null, int, str, float, Float, finite, non_finite, obj, Fields, end, field, fetch, to_float,
  Codec,
}
use peer_q.Json.Hex.{hex, fromhex}
use peer_q.Errors.{Result, ok, err, decode_error, value_error, struct_error, ◌>>=◌, ◌>>◌, check}
use peer_q.Security.{max_peer_id_length}
use peer_q.Security.Config.{SecurityConfig}
use peer_q.Security.JsonTree.{Limits, validate_json_tree}
use peer_q.Crypto.{Ed25519, PeerKeyRing, verify_peer, is_empty}
use peer_q.Wal.{u32}

abbrev pub max_message_type_length : ℕ
max_message_type_length = 32

pub record Message : Type 0 where
  pub msg_type : Str
  pub sender_id : Str
  pub payload : Fields
  pub timestamp : Option ℤ
  pub nonce : Option Str
  pub signature : Option Bytes
  pub protocol_version : ℤ

abbrev pub time_or_null : Option ℤ → Json
time_or_null none = null
time_or_null (some t) = float (finite t)

abbrev pub nonce_or_null : Option Str → Json
nonce_or_null none = null
nonce_or_null (some s) = str s

-- `signature.hex() if signature is not None else None`
abbrev pub signature_or_null : Option Bytes → Json
signature_or_null none = null
signature_or_null (some b) = str (hex b)

-- `_unsigned_document`
unfoldable pub unsigned_document : Message → Json
unsigned_document m = obj (
    field (codes "msg_type") (str m.msg_type) (
      field (codes "nonce") (nonce_or_null m.nonce) (
        field (codes "payload") (obj m.payload) (
          field (codes "protocol_version") (int m.protocol_version) (
            field (codes "sender_id") (str m.sender_id)
              (field (codes "timestamp") (time_or_null m.timestamp) end))))))

-- `{**self._unsigned_document(), "signature": …}`, its keys in the order of the text.
unfoldable pub wire_fields : Message → Fields
wire_fields m = field (codes "msg_type") (str m.msg_type) (
    field (codes "nonce") (nonce_or_null m.nonce) (
      field (codes "payload") (obj m.payload) (
        field (codes "protocol_version") (int m.protocol_version) (
          field (codes "sender_id") (str m.sender_id) (
            field (codes "signature") (signature_or_null m.signature)
              (field (codes "timestamp") (time_or_null m.timestamp) end))))))

-- A text that is not empty and not longer than the limit.
abbrev pub is_bounded : ℕ → Str → Bool
is_bounded limit s = not (is_empty s) && leb (length s) limit

-- The limits of the payload that is sent.
abbrev pub payload_limits : Limits
payload_limits = record { max_depth = 16; max_items = 10000; max_string_length = 262144 }

-- The limits of the tree that is received; the check of the configuration keeps them positive.
abbrev pub config_limits : SecurityConfig → Limits
config_limits c = record {
  max_depth = pos_part c.max_json_depth;
  max_items = pos_part c.max_json_items;
  max_string_length = pos_part c.max_string_length;
}

-- `validate_json_tree`, whose walk always ends.
unfoldable pub validated : Limits → Json → Result (Unit {0})
validated l value = elim (validate_json_tree l value) [ none ↦ err decode_error | some r ↦ r ]

unfoldable pub read_text : ℕ → Json → Result Str
read_text limit (str s) = do check (is_bounded limit s) decode_error; ok s
read_text limit _ = err decode_error

abbrev pub read_object : Json → Result Fields
read_object (obj fs) = ok fs
read_object _ = err decode_error

abbrev pub read_version : Json → Result ℤ
read_version (int n) = ok n
read_version _ = err decode_error

abbrev finite_time : Float → Result (Option ℤ)
finite_time (finite t) = ok (some t)
finite_time non_finite = err decode_error

-- `isfinite(float(timestamp))`: the conversion of a huge int raises OverflowError.
unfoldable pub read_timestamp : Json → Result (Option ℤ)
read_timestamp null = ok none
read_timestamp (int n) = do f ← to_float n; finite_time f
read_timestamp (float f) = finite_time f
read_timestamp _ = err decode_error

unfoldable pub read_nonce : Json → Result (Option Str)
read_nonce null = ok none
read_nonce (str s) = do check (is_bounded 128 s) decode_error; ok (some s)
read_nonce _ = err decode_error

abbrev read_hex : Option Bytes → Result (Option Bytes)
read_hex none = err decode_error
read_hex (some b) = ok (some b)

unfoldable pub read_signature : Json → Result (Option Bytes)
read_signature null = ok none
read_signature (str s) = do
  check (leb (length s) 128 && leb 128 (length s)) decode_error
  read_hex (fromhex s)
read_signature _ = err decode_error

-- The fields of the envelope: a required key that is not there reads as null, which is refused
-- with the same exception.
unfoldable pub read_envelope : Json → Json → Json → Json → Json → Json → Json → Result Message
unfolding read_text read_timestamp read_nonce read_signature
read_envelope msg_type sender_id payload version timestamp nonce sig = do
  msg_type' ← read_text max_message_type_length msg_type
  sender_id' ← read_text max_peer_id_length sender_id
  payload' ← read_object payload
  version' ← read_version version
  timestamp' ← read_timestamp timestamp
  nonce' ← read_nonce nonce
  signature' ← read_signature sig
  ok (record {
    msg_type = msg_type';
    sender_id = sender_id';
    payload = payload';
    timestamp = timestamp';
    nonce = nonce';
    signature = signature';
    protocol_version = version';
  })

-- `from_bytes` behind the decoder: the limits of the tree come before its fields.
unfoldable pub from_parsed : SecurityConfig → Option Json → Result Message
from_parsed c none = err decode_error
from_parsed c (some (obj d)) = do
  validated (config_limits c) (obj d)
  read_envelope (fetch (codes "msg_type") d) (fetch (codes "sender_id") d)
      (fetch (codes "payload") d) (fetch (codes "protocol_version") d) (fetch (codes "timestamp") d)
      (fetch (codes "nonce") d) (fetch (codes "signature") d)
from_parsed c (some j) = do validated (config_limits c) j; err decode_error

module _ (codec : Codec) where
  unfoldable pub canonical_bytes : Message → Bytes
  canonical_bytes m = codec.dumps (unsigned_document m)

  unfoldable pub wire_bytes : Message → Bytes
  wire_bytes m = codec.dumps (obj (wire_fields m))

  unfoldable pub to_bytes : ℤ → Message → Result Bytes
  to_bytes max_size m = do
    check (is_bounded max_message_type_length m.msg_type) decode_error
    check (is_bounded max_peer_id_length m.sender_id) decode_error
    validated payload_limits (obj m.payload)
    check (not (ltb_ℤ max_size (pos (length (wire_bytes m))))) decode_error
    check (ltb (length (wire_bytes m)) (2 ^ 32)) struct_error
    ok (u32 (length (wire_bytes m)) ++ wire_bytes m)

  unfoldable pub from_bytes : SecurityConfig → Bytes → Result Message
  from_bytes c bytes = do
    check (not (ltb_ℤ c.max_frame_size (pos (length bytes)))) decode_error
    from_parsed c (codec.loads bytes)

abbrev pub stamped : ℤ → Str → Message → Message
stamped timestamp nonce m = record m {
  timestamp = some timestamp;
  nonce = some nonce;
  signature = none;
}

module _ (ed : Ed25519) (codec : Codec) where
  -- `signed` with the nonce that was chosen, by the caller or by `secrets`; the time is finite.
  unfoldable pub signed : Bytes → ℤ → Str → Message → Result Message
  signed key timestamp nonce m = do
    check (is_bounded 128 nonce) value_error
    ok (record (stamped timestamp nonce m) {
      signature = some (ed.sign key (canonical_bytes codec (stamped timestamp nonce m)));
    })

  -- `Message.verify_signature` on the three parts that must be there.
  unfoldable pub verify_signature : Message → PeerKeyRing → Bool
  verify_signature m ring = elim m.signature [
    | none ↦ false
    | some signature ↦ elim m.nonce [
      | none ↦ false
      | some nonce ↦ elim m.timestamp [
        | none ↦ false
        | some t ↦ verify_peer ed ring m.sender_id signature (canonical_bytes codec m)
      ]
    ]
  ]
