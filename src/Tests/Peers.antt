-- ===== src/Tests/Peers.antt =====
-- Bob's heartbeat and bob's beacon, as alice hears them.
use peer_q.Prelude.{
  ℕ, ◌<◌, ◌≡◌, ◌⊎◌, refl, Str, Bytes, Bool, true, false, Option, none, some, List, [], ◌∷◌, arith,
  codes, All, length, ◌==◌, str_ordered, nat_ordered,
}
use peer_q.Prelude.Int.{pos, ◌-ℤ◌}
use peer_q.Prelude.Dict.{has, lookup}
use peer_q.Json.{obj, str, int, field, end, Codec}
use peer_q.Errors.{ok}
use peer_q.Security.Config.{default_config}
use peer_q.Security.ReplayCache.{ReplayCache}
use peer_q.Crypto.{has_peer}
use peer_q.Flow.{new_flow}
use peer_q.Failure.{new_detector}
use peer_q.Queue.{new_queue, reject_on_full}
use peer_q.Transport.Message.{
  Message, wire_fields, wire_bytes, to_bytes, from_bytes, validated, config_limits,
  verify_signature,
}
use peer_q.Transport.Message.RoundTrip.{from_bytes-to_bytes}
use peer_q.Transport.Freshness.{fresh_message}
use peer_q.Transport.Freshness.Replay.{empty_cache}
use peer_q.Node.Messages.{authenticate_message, is_message_type}
use peer_q.Node.Receive.{Peer, receive, IsIgnored, receive-IsIgnored, authenticate_message_once}
use peer_q.Discovery.{
  PeerDiscovery, DiscoveredPeer, Heard, hear, listen, expire_peers, get_active_peers, is_active,
}
use peer_q.Discovery.Directory.{IsDirectory, listen-IsDirectory, listen-IsAnnounced}
use peer_q.Tests.Samples.{sum_ed, zeros, alice, bob, key_of_alice, both_keys}

abbrev from_bob : Str → Message
from_bob msg_type = record {
  msg_type = msg_type;
  sender_id = bob;
  payload = field (codes "cluster_id") (str (codes "c")) (
      field (codes "host") (str (codes "h"))
        (field (codes "node_id") (str bob) (field (codes "port") (int (pos 7)) end)));
  timestamp = some (pos 9);
  nonce = some (codes "n");
  signature = some (5 ∷ zeros 63);
  protocol_version = pos 2;
}

-- Writes two bytes for every value, and reads the beacon from any.
abbrev beacon_codec : Codec
beacon_codec = record {
  dumps = λ _. 1 ∷ 2 ∷ [];
  loads = λ _. some (obj (wire_fields (from_bob (codes "discovery"))));
  fixed6 = λ _. [];
}

abbrev beat : Message
beat = from_bob (codes "heartbeat")

beat_taken :
    (authenticate_message sum_ed beacon_codec true
      (pos 2)
      (pos 30)
      (pos 10)
      both_keys
      bob
      beat
      (empty_cache 4)).0
    ≡ true
unfolding authenticate_message has_peer has verify_signature peer_q.Crypto.verify_peer lookup
    peer_q.Transport.Message.canonical_bytes fresh_message ◌-ℤ◌
    peer_q.Security.ReplayCache.check_and_remember peer_q.Security.ReplayCache.expire
beat_taken = refl

authenticate_message_once_example :
    (authenticate_message sum_ed beacon_codec true
      (pos 2)
      (pos 30)
      (pos 20)
      both_keys
      bob
      beat
      (authenticate_message sum_ed beacon_codec true
        (pos 2)
        (pos 30)
        (pos 10)
        both_keys
        bob
        beat
        (empty_cache 4)).1).0
    ≡ false
unfolding ◌-ℤ◌
authenticate_message_once_example =
    authenticate_message_once sum_ed beacon_codec (pos 2) (pos 30) (pos 10) (pos 20) both_keys bob
      beat (empty_cache 4) (omega arith) (omega arith) beat_taken

abbrev pub secure_peer : Peer
secure_peer = record {
  node = record {
    node_id = alice;
    identity = key_of_alice;
    keyring = both_keys;
    security_enabled = true;
    max_tasks = 2;
    tasks = [];
    queue = new_queue (pos 5) reject_on_full;
    queued_task_ids = [];
    vector_clock = record { clock = [] };
  };
  security = default_config;
  message_replay = empty_cache 4;
  failure_detector = new_detector 10 3;
  flow_controller = new_flow (pos 5);
}

receive-IsIgnored_example :
    ((alice ≡ beat.sender_id)
      × (is_message_type beat.msg_type ≡ true)
      × (has_peer sum_ed both_keys alice ≡ true)
      × (verify_signature sum_ed beacon_codec beat both_keys ≡ true))
    ⊎ IsIgnored sum_ed beacon_codec secure_peer
        (receive sum_ed beacon_codec (pos 10) (pos 10) true alice beat secure_peer).peer
receive-IsIgnored_example =
    receive-IsIgnored sum_ed beacon_codec (pos 10) (pos 10) true alice beat secure_peer refl

abbrev is_blank : ℕ → Bool
is_blank c = c == 32

abbrev directory : PeerDiscovery
directory = record {
  node_id = alice;
  tcp_host = codes "h";
  tcp_port = 5;
  cluster_id = codes "c";
  peer_ttl = pos 3;
  identity = key_of_alice;
  keyring = both_keys;
  security = default_config;
  replay_cache = empty_cache 4;
  peers = [];
}

abbrev bob_found : DiscoveredPeer
bob_found = record {
  node_id = bob;
  host = codes "h";
  port = 7;
  cluster_id = codes "c";
  last_seen = pos 1;
}

directory-IsDirectory : IsDirectory sum_ed beacon_codec is_blank directory
directory-IsDirectory = record { entries = tt; size = omega arith }

listen-IsDirectory_example :
    IsDirectory sum_ed beacon_codec is_blank
      (listen sum_ed beacon_codec is_blank (pos 10) (pos 1) [] (1 ∷ 2 ∷ []) directory).0
listen-IsDirectory_example =
    listen-IsDirectory sum_ed beacon_codec is_blank (pos 10) (pos 1) [] (1 ∷ 2 ∷ []) directory
      directory-IsDirectory

abbrev beacon : Message
beacon = from_bob (codes "discovery")

beacon_written :
    to_bytes beacon_codec default_config.max_frame_size beacon ≡ ok (0 ∷ 0 ∷ 0 ∷ 2 ∷ 1 ∷ 2 ∷ [])
unfolding to_bytes validated wire_bytes peer_q.Security.JsonTree.validate_json_tree
    peer_q.Security.JsonTree.walk peer_q.Security.JsonTree.visit peer_q.Json.count_fields
    peer_q.Security.JsonTree.weight peer_q.Security.JsonTree.push_values
    peer_q.Security.JsonTree.utf8_length peer_q.Security.JsonTree.push_keys
beacon_written = refl

beacon_valid : validated (config_limits default_config) (obj (wire_fields beacon)) ≡ ok tt
unfolding validated peer_q.Security.JsonTree.validate_json_tree peer_q.Security.JsonTree.walk
    peer_q.Security.JsonTree.visit peer_q.Json.count_fields wire_fields
    peer_q.Security.JsonTree.weight peer_q.Security.JsonTree.push_values
    peer_q.Security.JsonTree.utf8_length peer_q.Json.Hex.hex peer_q.Security.JsonTree.push_keys
beacon_valid = refl

beacon_read : from_bytes beacon_codec default_config (1 ∷ 2 ∷ []) ≡ ok beacon
beacon_read =
    from_bytes-to_bytes beacon_codec default_config beacon (0 ∷ 0 ∷ 0 ∷ 2 ∷ 1 ∷ 2 ∷ [])
      beacon_written (record { nonce = refl; signature = (ground arith, refl) }) refl beacon_valid

bob_announced :
    (listen sum_ed beacon_codec is_blank (pos 10) (pos 1) [] (1 ∷ 2 ∷ []) directory).1
    ≡ some bob_found
unfolding listen hear fresh_message peer_q.Discovery.announce verify_signature
    peer_q.Crypto.verify_peer lookup peer_q.Transport.Message.canonical_bytes ◌-ℤ◌
    peer_q.Security.ReplayCache.check_and_remember has peer_q.Security.ReplayCache.expire
    peer_q.Discovery.own_beacon peer_q.Discovery.get_field peer_q.Discovery.read_beacon
    peer_q.Prelude.every peer_q.Discovery.is_welcome has_peer
bob_announced = rw beacon_read refl

listen-IsAnnounced_example :
    (m : Message) × (from_bytes beacon_codec default_config (1 ∷ 2 ∷ []) ≡ ok m)
    × (verify_signature sum_ed beacon_codec m both_keys ≡ true)
    × (m.sender_id ≡ bob)
    × (has_peer sum_ed both_keys bob ≡ true)
listen-IsAnnounced_example =
    listen-IsAnnounced sum_ed beacon_codec is_blank (pos 10) (pos 1) [] (1 ∷ 2 ∷ []) directory
      bob_found refl bob_announced
