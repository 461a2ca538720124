-- ===== src/Tests/Commands.antt =====
-- Options of the command line, and a task that alice submits to bob's node.
use peer_q.Prelude.{
  ℕ, ◌≡◌, refl, sym, subst, Str, Bytes, true, false, Option, none, some, List, map, [], ◌∷◌, ◌++◌,
  arith, codes, length, ◌==◌, ==_self, str_ordered,
}
use peer_q.Prelude.Int.{pos, int_ordered}
use peer_q.Prelude.Dict.{lookup, has, insert}
use peer_q.Errors.{ok}
use peer_q.Crypto.{Ed25519, sign_task}
use peer_q.Consensus.Clock.{vector_clock}
use peer_q.Consensus.Wire.RoundTrip.{IsWire}
use peer_q.Transport.Message.{Message}
use peer_q.Transport.Freshness.{fresh_message, window}
use peer_q.Consensus.Record.{TaskRecord, task_record, pending}
use peer_q.Node.Receive.{receive}
use peer_q.Json.{field, end, float, finite}
use peer_q.Failure.{phi, calm, new_detector}
use peer_q.Node.Sent.{
  plain_message, signed_message, heartbeat_message, IsTaken, heartbeat_message-received,
}
use peer_q.Cli.{
  Startup, start_node, has_keys, validate_status_binding, add_keys, split, split_from,
  parse_peer_keys, parse_peer_addresses, submitted_record, sealed_record, task_message,
  submit_message,
}
use peer_q.Json.Hex.{hex, AreBytes, fromhex-hex}
use peer_q.Crypto.{has_peer, from_hex, from_bytes, add_peer, parse_key}
use peer_q.Transport.Http.{lstrip, rstrip, split_at}
use peer_q.Exporter.Html.{join, decimal, digits}
use peer_q.Cli.Peers.{Entry, entry_text, gathered, parse_peer_addresses-join}
use peer_q.Cli.Keys.{IsSecured, start_node-IsSecured}
use peer_q.Cli.Submit.{IsOpen, submit_message-received}
use peer_q.Tests.Samples.{zeros, alice, bob, key_of_alice, small_codec}
use peer_q.Tests.Peers.{secure_peer}
use peer_q.Tests.Pages.{plain_text, token}
use peer_q.Node.Create.{Created, new_node, usual_lease}
use peer_q.Node.Create.Ready.{IsReady, new_node-IsReady}
use peer_q.Queue.{new_queue, reject_on_full}
use peer_q.Security.Config.{default_config}

-- A signature is the first byte of the key.
abbrev key_sign : Bytes → Bytes → Bytes
key_sign [] message = 0 ∷ zeros 63
key_sign (b ∷ bs) message = b ∷ zeros 63

key_sign-length : (key message : Bytes) → length (key_sign key message) ≡ 64
key_sign-length [] message = refl
key_sign-length (b ∷ bs) message = refl

abbrev key_ed : Ed25519
key_ed = record {
  public_key = λ key. key;
  sign = key_sign;
  verify = λ key signature message. signature == key_sign key message;
  loads_key = λ _. true;
  verify-sign = λ key message. ==_self (key_sign key message);
  length-sign = key_sign-length;
}

abbrev sealed : TaskRecord
sealed = record (task_record (codes "t") pending (7 ∷ [])) {
  vector_clock = record { clock = (alice, 1) ∷ [] };
  updated_by = alice;
  signature = some (1 ∷ zeros 63);
  signer_id = some alice;
}

sealed_so : sealed_record key_ed small_codec false key_of_alice alice (codes "t") (7 ∷ []) ≡ sealed
unfolding sealed_record sign_task vector_clock
sealed_so = refl

sealed-IsWire : IsWire sealed
sealed-IsWire = record {
  task_id = refl;
  payload = ground arith;
  payload_size = ground arith;
  result = tt;
  error = tt;
  claimed_by = tt;
  updated_by = refl;
  signer_id = refl;
  token = ground arith;
  clock_size = ground arith;
  clock_peers = (refl, tt);
  clock_positive = ground arith;
  signature = ground arith;
}

abbrev sent : Message
sent = record (task_message key_ed small_codec (pos 2) alice (codes "t") sealed) {
  timestamp = some (pos 9);
  nonce = some (codes "n");
  signature = some (1 ∷ zeros 63);
}

sent_so :
    submit_message key_ed small_codec
      (pos 2)
      false
      key_of_alice
      alice
      (codes "t")
      (7 ∷ [])
      (pos 9)
      (codes "n")
    ≡ ok sent
unfolding submit_message peer_q.Transport.Message.signed sealed_record sign_task vector_clock
sent_so = refl

secure_peer-IsOpen : IsOpen key_ed small_codec key_of_alice alice (codes "t") secure_peer
unfolding lookup
secure_peer-IsOpen = record { known = refl; fresh = refl; room = omega arith; gossip = omega arith }

fresh_there :
    (fresh_message alice
      (pos 10)
      (window secure_peer.security)
      (some (pos 9))
      (some (codes "n"))
      secure_peer.message_replay).0
    ≡ true
unfolding fresh_message peer_q.Prelude.Int.◌-ℤ◌ peer_q.Security.ReplayCache.check_and_remember has
    peer_q.Security.ReplayCache.expire
fresh_there = refl

submit_message-received_example :
    let got = receive key_ed small_codec (pos 10) (pos 50) true alice sent secure_peer in
    (lookup (codes "t") got.peer.node.tasks
      ≡ some (sealed_record key_ed small_codec false key_of_alice alice (codes "t") (7 ∷ [])))
    × (got.escaped ≡ none)
submit_message-received_example =
    submit_message-received key_ed small_codec (pos 2) key_of_alice alice (codes "t") (7 ∷ [])
      (pos 9) (codes "n") sent (pos 10) (pos 50) true secure_peer sent_so
      (subst IsWire (sym sealed_so) sealed-IsWire) refl secure_peer-IsOpen fresh_there

-- `--id a --peers "b=h:9" --peer-keys "b=00…"`
abbrev key_option : Str
key_option = codes "b=" ++ hex (zeros 32)

zeros-AreBytes : AreBytes (zeros 32)
zeros-AreBytes = ground arith

key_read : from_hex key_ed (hex (zeros 32)) ≡ ok (zeros 32)
unfolding from_hex from_bytes
key_read = rw (fromhex-hex (zeros 32) zeros-AreBytes, from_hex) refl

bob_listed : parse_peer_keys plain_text key_ed key_option ≡ ok ((bob, zeros 32) ∷ [])
unfolding parse_peer_keys hex add_keys add_peer parse_key split split_from lstrip rstrip split_at
    peer_q.Prelude.Dict.member insert
bob_listed = rw key_read refl

address_listed :
    parse_peer_addresses plain_text (codes "b=h:9") ≡ ok ((bob, (codes "h", pos 0)) ∷ [])
unfolding parse_peer_addresses rstrip lstrip peer_q.Cli.add_entries split split_from
    peer_q.Prelude.Dict.member split_at insert
address_listed = refl

abbrev started : Startup
started = record {
  peer_addresses = (bob, (codes "h", pos 0)) ∷ [];
  keyring = (bob, zeros 32) ∷ (alice, key_of_alice) ∷ [];
}

started_so :
    start_node plain_text key_ed alice key_of_alice false
      (some false)
      (some token)
      (codes "b=h:9")
      key_option
    ≡ ok started
unfolding start_node add_peer parse_key insert has_keys has_peer has validate_status_binding
started_so = rw (address_listed, bob_listed) refl

start_node-IsSecured_example : IsSecured key_ed alice key_of_alice started
start_node-IsSecured_example =
    start_node-IsSecured key_ed plain_text alice key_of_alice (some false) (some token)
      (codes "b=h:9") key_option started started_so

abbrev two_entries : List Entry
two_entries = (alice, (codes "h", pos 0)) ∷ (bob, (codes "i", pos 0)) ∷ []

parse_peer_addresses-join_example :
    parse_peer_addresses plain_text (join (44 ∷ []) (map entry_text two_entries))
    ≡ ok (gathered two_entries [])
unfolding decimal digits
parse_peer_addresses-join_example =
    parse_peer_addresses-join plain_text (λ c low high. ground arith) two_entries (ground arith)

two_read : codes "a=h:0,b=i:0" ≡ join (44 ∷ []) (map entry_text two_entries)
unfolding join decimal digits
two_read = refl

-- Alice's heartbeat at that node.
abbrev plain_beat : Message
plain_beat =
    plain_message (pos 2) alice (codes "heartbeat")
      (field (codes "ts") (float (finite (pos 8))) end)

abbrev beat : Message
beat = record plain_beat {
  timestamp = some (pos 9);
  nonce = some (codes "n");
  signature = some (1 ∷ zeros 63);
}

beat_so :
    heartbeat_message key_ed small_codec (pos 2) key_of_alice alice (pos 8) (pos 9) (codes "n")
    ≡ ok beat
unfolding heartbeat_message signed_message peer_q.Transport.Message.signed
beat_so = refl

beat-IsTaken :
    IsTaken key_ed small_codec key_of_alice plain_beat (pos 10) (pos 9) (codes "n") secure_peer
unfolding lookup
beat-IsTaken = record { kind = refl; version = refl; known = refl; fresh = fresh_there }

heartbeat_message-received_example :
    let got = (receive key_ed small_codec (pos 10) (pos 50) true alice beat secure_peer).peer in
    (phi alice (pos 50) got.failure_detector ≡ calm)
    × (got.node ≡ secure_peer.node)
    × (got.flow_controller ≡ secure_peer.flow_controller)
heartbeat_message-received_example =
    heartbeat_message-received key_ed small_codec (pos 2) key_of_alice alice (pos 8) (pos 9)
      (codes "n") beat (pos 10) (pos 50) true secure_peer beat_so beat-IsTaken

-- A new node of alice, to whom the list of peers names herself and bob twice.
abbrev named_peers : List Str
named_peers = bob ∷ alice ∷ bob ∷ []

abbrev fresh_node : Created
fresh_node = record {
  peer = record {
    node = record {
      node_id = alice;
      identity = key_of_alice;
      keyring = (alice, key_of_alice) ∷ [];
      security_enabled = true;
      max_tasks = 2;
      tasks = [];
      queue = new_queue (pos 5) reject_on_full;
      queued_task_ids = [];
      vector_clock = vector_clock ((alice, 0) ∷ []);
    };
    security = default_config;
    message_replay = record { max_entries = 4096; entries = [] };
    failure_detector = new_detector 1000 5;
    flow_controller = record {
      default_initial_credits = pos 20;
      credits = (bob, pos 20) ∷ [];
      waiters = (bob, []) ∷ [];
    };
  };
  peers = bob ∷ [];
  lease_duration = usual_lease;
}

fresh_node_so :
    new_node key_ed alice named_peers none none
      (pos 5)
      (pos 20)
      key_of_alice
      []
      default_config
      (pos 2)
    ≡ ok fresh_node
unfolding new_node insert lookup peer_q.Prelude.every peer_q.Node.Create.peers_of
    peer_q.Node.Create.unique peer_q.Prelude.select peer_q.Prelude.Dict.member add_peer
    peer_q.Security.ReplayCache.new_cache peer_q.Node.Create.chosen_lease
    peer_q.Node.Create.init_peers peer_q.Flow.init_peer parse_key has
fresh_node_so = refl

new_node-IsReady_example : IsReady key_ed alice key_of_alice named_peers (pos 20) fresh_node
new_node-IsReady_example =
    new_node-IsReady key_ed alice named_peers none none (pos 5) (pos 20) key_of_alice []
      default_config (pos 2) fresh_node fresh_node_so
