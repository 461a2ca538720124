-- ===== src/Tests/Wires.antt =====
-- An acknowledgement that bob signs, as the one document that a codec reads, and transports that
-- alice has.
use peer_q.Prelude.{
  ℕ, ◌<◌, ◌≡◌, ◌⊎◌, refl, Str, Bytes, Bool, true, false, not, ◌&&◌, ◌||◌, Option, none, some, List,
  [], ◌∷◌, ◌++◌, arith, codes, length, drop, str_ordered,
}
use peer_q.Prelude.Int.{ℤ, pos}
use peer_q.Prelude.Dict.{lookup, has}
use peer_q.Json.{obj, Codec, fetch}
use peer_q.Json.Hex.{hex}
use peer_q.Errors.{ok}
use peer_q.Security.Config.{default_config}
use peer_q.Transport.Message.{
  Message, wire_fields, wire_bytes, to_bytes, from_bytes, from_parsed, validated, config_limits,
  signed, verify_signature,
}
use peer_q.Transport.Message.RoundTrip.{IsEnvelope}
use peer_q.Transport.Tcp.{
  Tcp, Tick, version_field, read_frame, write_signed, handle_client, verify_message,
}
use peer_q.Transport.Tcp.Delivery.{FromOne, handle_client-IsExtended}
use peer_q.Transport.Tcp.Dial.{handshake, judged}
use peer_q.Transport.Tcp.Handshake.{IsAck, handshake-IsAck}
use peer_q.Transport.Tcp.Frames.{read_frame-to_bytes}
use peer_q.Tests.Samples.{sum_ed, zeros, alice, bob, key_of_alice, both_keys}

abbrev ack : Message
ack = record {
  msg_type = codes "hello_ack";
  sender_id = bob;
  payload = version_field (pos 2);
  timestamp = some (pos 9);
  nonce = some (codes "n");
  signature = some (5 ∷ zeros 63);
  protocol_version = pos 2;
}

-- Writes two bytes for every value, and reads the acknowledgement from any.
abbrev ack_codec : Codec
ack_codec = record {
  dumps = λ _. 1 ∷ 2 ∷ [];
  loads = λ _. some (obj (wire_fields ack));
  fixed6 = λ _. [];
}

abbrev tcp_of_alice : Tcp
tcp_of_alice = record {
  node_id = alice;
  identity = key_of_alice;
  keyring = both_keys;
  security = default_config;
  replay_cache = record { max_entries = 4; entries = [] };
  inbox = [];
  incoming = 0;
  closed = false;
  peer_addresses = (bob, (codes "h", 1)) ∷ [];
  connections = [];
}

abbrev tick : Tick
tick = record { now = pos 10; nonce = codes "m"; drains = true }

abbrev ack_frame : Bytes
ack_frame = 0 ∷ 0 ∷ 0 ∷ 2 ∷ 1 ∷ 2 ∷ []

frame_written : to_bytes ack_codec default_config.max_frame_size ack ≡ ok ack_frame
unfolding to_bytes validated wire_bytes peer_q.Security.JsonTree.validate_json_tree
    peer_q.Security.JsonTree.walk peer_q.Security.JsonTree.visit peer_q.Json.count_fields
    peer_q.Security.JsonTree.weight peer_q.Security.JsonTree.push_values
    peer_q.Security.JsonTree.push_keys peer_q.Security.JsonTree.utf8_length
frame_written = refl

ack_valid : validated (config_limits default_config) (obj (wire_fields ack)) ≡ ok tt
unfolding validated peer_q.Security.JsonTree.validate_json_tree peer_q.Security.JsonTree.walk
    peer_q.Security.JsonTree.visit peer_q.Json.count_fields wire_fields
    peer_q.Security.JsonTree.weight peer_q.Security.JsonTree.push_values
    peer_q.Security.JsonTree.utf8_length hex peer_q.Security.JsonTree.push_keys
ack_valid = refl

ack-IsEnvelope : IsEnvelope ack
ack-IsEnvelope = record { nonce = refl; signature = (ground arith, refl) }

two_bytes : 0 < length (wire_bytes ack_codec ack)
unfolding wire_bytes
two_bytes = omega arith

read_frame-to_bytes_example :
    read_frame ack_codec default_config (ack_frame ++ 9 ∷ []) ≡ ok (ack, 9 ∷ [])
read_frame-to_bytes_example =
    read_frame-to_bytes ack_codec default_config ack ack_frame (9 ∷ []) frame_written ack-IsEnvelope
      two_bytes refl ack_valid

handle_client-IsExtended_example :
    FromOne sum_ed ack_codec tcp_of_alice
      (handle_client sum_ed ack_codec (tick ∷ tick ∷ []) (ack_frame ++ ack_frame) tcp_of_alice)
handle_client-IsExtended_example =
    handle_client-IsExtended sum_ed ack_codec (tick ∷ tick ∷ []) (ack_frame ++ ack_frame)
      tcp_of_alice refl

ack_read : read_frame ack_codec default_config ack_frame ≡ ok (ack, [])
ack_read =
    read_frame-to_bytes ack_codec default_config ack ack_frame [] frame_written ack-IsEnvelope
      two_bytes refl ack_valid

hello_written : write_signed sum_ed ack_codec tick (codes "hello") tcp_of_alice ≡ ok ack_frame
unfolding write_signed signed to_bytes wire_bytes validated
    peer_q.Security.JsonTree.validate_json_tree peer_q.Security.JsonTree.walk
    peer_q.Security.JsonTree.visit peer_q.Json.count_fields peer_q.Security.JsonTree.weight
    peer_q.Security.JsonTree.push_values peer_q.Security.JsonTree.push_keys
    peer_q.Security.JsonTree.utf8_length
hello_written = refl

ack_verified : (verify_message sum_ed ack_codec (pos 10) ack (some bob) tcp_of_alice).0 ≡ true
unfolding verify_message verify_signature peer_q.Crypto.has_peer has peer_q.Crypto.verify_peer
    lookup peer_q.Transport.Message.canonical_bytes peer_q.Transport.Freshness.fresh_message
    peer_q.Prelude.Int.◌-ℤ◌ peer_q.Security.ReplayCache.check_and_remember
    peer_q.Security.ReplayCache.expire
ack_verified = refl

judged_error :
    (r : Bool × Tcp) → r.0 ≡ true → (judged sum_ed ack_codec bob ack_frame r).error ≡ none
judged_error (true, t) h = refl
judged_error (false, t) h = ground arith

bob_answers : (handshake sum_ed ack_codec tick bob ack_frame tcp_of_alice).error ≡ none
unfolding handshake fetch
bob_answers = rw hello_written (
    rw ack_read (
      judged_error (verify_message sum_ed ack_codec (pos 10) ack (some bob) tcp_of_alice)
        ack_verified))

handshake-IsAck_example : IsAck sum_ed ack_codec bob tcp_of_alice ack_frame
handshake-IsAck_example =
    handshake-IsAck sum_ed ack_codec tick bob ack_frame tcp_of_alice refl bob_answers
