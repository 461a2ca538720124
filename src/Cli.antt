-- ===== src/Cli.antt =====
-- peerq/cli.py: the values of the options that name hosts, peers and keys, the checks before a node
-- starts, and the message of `submit_task_command`. argparse, the event loop and the sockets are
-- outside; Python's text operations are the parameters of the HTTP server.
pub mod Keys
pub mod Submit
pub mod Peers
use peer_q.Prelude.{
  ℕ, Str, Bytes, Bool, true, false, not, ◌&&◌, ◌||◌, Option, none, some, List, [], ◌∷◌, ◌++◌, codes,
  if◌then◌else◌, ltb, length, ◌==◌, str_ordered, nat_ordered,
}
use peer_q.Prelude.Int.{ℤ}
use peer_q.Prelude.Dict.{Dict, insert, member, keys}
use peer_q.Errors.{Result, ok, err, value_error, ◌>>=◌, ◌>>◌, check}
use peer_q.Json.{Fields, field, end, obj, Codec}
use peer_q.Crypto.{
  Ed25519, PeerKeyRing, KeyArg, wrapper, text, add_peer, has_peer, sign_task, is_empty,
}
use peer_q.Consensus.Clock.{vector_clock}
use peer_q.Consensus.Record.{pending, TaskRecord, task_record}
use peer_q.Consensus.Wire.{to_dict}
use peer_q.Transport.Message.{Message, signed}
use peer_q.Transport.Http.{Text, is_short, is_missing, split_at, strip, or_empty}

-- `_is_loopback_host`: `is_loopback` is that of the ipaddress module, `none` where the text is no
-- address.
unfoldable pub is_loopback_host : (Str → Str) → (Str → Option Bool) → Str → Bool
is_loopback_host lower is_loopback host =
    if lower host == codes "localhost"
    then true
    else elim (is_loopback host) [ none ↦ false | some b ↦ b ]

unfoldable pub validate_status_binding : Bool → Option Str → Result (Unit {0})
validate_status_binding loopback status_token = do
  check (not (is_short status_token)) value_error
  check (loopback || not (is_missing status_token)) value_error

-- `s.split(ch)`: the part before the first character, and those behind it.
unfoldable pub split_from : ℕ → Str → Str × List Str
split_from ch [] = ([], [])
split_from ch (c ∷ cs) =
    let (first, rest) = split_from ch cs in
    if c == ch then ([], first ∷ rest) else (c ∷ first, rest)

unfoldable pub split : ℕ → Str → List Str
split ch s = let (first, rest) = split_from ch s in first ∷ rest

abbrev pub Addresses : Type 0
Addresses = Dict Str (Str × ℤ)

-- The static peers of a node and its ring.
pub record Startup : Type 0 where
  pub peer_addresses : Addresses
  pub keyring : PeerKeyRing

module _ (ed : Ed25519) where
  -- Whether every static peer has a key.
  unfoldable pub has_keys : PeerKeyRing → List Str → Bool
  has_keys ring [] = true
  has_keys ring (p ∷ ps) = has_peer ed ring p && has_keys ring ps

-- The checks on the status address, where there is to be one.
abbrev pub status_check : Option Bool → Option Str → Result (Unit {0})
status_check none status_token = ok tt
status_check (some loopback) status_token = validate_status_binding loopback status_token

module _ (txt : Text) where
  -- `int(port_str.strip())`
  abbrev pub port_from : Str → Result ℤ
  port_from s = elim (txt.to_int (strip txt s)) [ none ↦ err value_error | some n ↦ ok n ]

  -- `host, port_str = addr.split(":", 1)`
  abbrev pub with_address : Str → Str × Option Str → Addresses → Result Addresses
  with_address nid (host, none) peer_map = err value_error
  with_address nid (host, some port_str) peer_map = do
    port ← port_from port_str
    ok (insert (strip txt nid) (strip txt host, port) peer_map)

  -- `nid, addr = entry.split("=", 1)`
  abbrev pub with_entry : Str × Option Str → Addresses → Result Addresses
  with_entry (nid, none) peer_map = err value_error
  with_entry (nid, some addr) peer_map = with_address nid (split_at 58 addr) peer_map

  abbrev pub add_entry : Str → Addresses → Result Addresses
  add_entry entry peer_map = if is_empty entry then ok peer_map else (do
    check (member 61 entry && member 58 entry) value_error
    with_entry (split_at 61 entry) peer_map)

  -- The loop over the entries, on the addresses so far.
  unfoldable pub add_entries : List Str → Addresses → Result Addresses
  add_entries [] peer_map = ok peer_map
  add_entries (e ∷ es) peer_map = do next ← add_entry (strip txt e) peer_map; add_entries es next

  unfoldable pub parse_peer_addresses : Str → Result Addresses
  parse_peer_addresses peers =
      if is_empty (strip txt peers) then ok [] else add_entries (split 44 peers) []

  module _ (ed : Ed25519) where
    abbrev pub with_key : Str × Option Str → PeerKeyRing → Result PeerKeyRing
    with_key (peer_id, none) ring = err value_error
    with_key (peer_id, some public_key) ring =
        add_peer ed ring (strip txt peer_id) (text (strip txt public_key))

    unfoldable pub add_keys : List Str → PeerKeyRing → Result PeerKeyRing
    add_keys [] ring = ok ring
    add_keys (e ∷ es) ring = do
      check (not (is_empty (strip txt e)) && member 61 (strip txt e)) value_error
      next ← with_key (split_at 61 (strip txt e)) ring
      add_keys es next

    unfoldable pub parse_peer_keys : Str → Result PeerKeyRing
    parse_peer_keys keys_str =
        if is_empty (strip txt keys_str) then ok [] else add_keys (split 44 keys_str) []

    -- `run_node_command` up to the transport, with the public key of the pair that is given or made.
    unfoldable pub start_node :
        Str → Bytes → Bool → Option Bool → Option Str → Str → Str → Result Startup
    start_node node_id public_key insecure status_loopback status_token peers_str peer_keys_str = do
      status_check status_loopback status_token
      addresses ← parse_peer_addresses peers_str
      known ← parse_peer_keys peer_keys_str
      ring ← add_peer ed known node_id (wrapper public_key)
      check (insecure || has_keys ed ring (keys addresses)) value_error
      ok (record { peer_addresses = addresses; keyring = ring })

module _ (ed : Ed25519) (codec : Codec) where
  abbrev pub submitted_record : Str → Str → Bytes → TaskRecord
  submitted_record sender_id task_id payload = record (task_record task_id pending payload) {
    vector_clock = vector_clock ((sender_id, 1) ∷ []);
    updated_by = sender_id;
  }

  -- The record of `submit_task_command`.
  unfoldable pub sealed_record : Bool → Bytes → Str → Str → Bytes → TaskRecord
  sealed_record insecure key sender_id task_id payload =
      if insecure
      then submitted_record sender_id task_id payload
      else sign_task ed codec key (submitted_record sender_id task_id payload) sender_id

  abbrev pub task_message : ℤ → Str → Str → TaskRecord → Message
  task_message protocol_version sender_id task_id r = record {
    msg_type = codes "gossip";
    sender_id = sender_id;
    payload = field (codes "tasks") (obj (field task_id (obj (to_dict r)) end)) end;
    timestamp = none;
    nonce = none;
    signature = none;
    protocol_version = protocol_version;
  }

  abbrev pub with_target : PeerKeyRing → Bool → Option Str → Str → Result PeerKeyRing
  with_target ring true target_key_hex target_id = ok ring
  with_target ring false target_key_hex target_id = do
    check (not (is_missing target_key_hex)) value_error
    add_peer ed ring target_id (text (or_empty [] target_key_hex))

  -- The ring of the command, whose keys are checked before anything is sent.
  unfoldable pub submit_ring : Bool → Bytes → Str → Option Str → Str → Result PeerKeyRing
  submit_ring insecure public_key sender_id target_key_hex target_id = do
    ring ← add_peer ed [] sender_id (wrapper public_key)
    with_target ring insecure target_key_hex target_id

  -- The message that is sent, at the wall clock `now` and with the nonce that `signed` chose.
  unfoldable pub submit_message : ℤ → Bool → Bytes → Str → Str → Bytes → ℤ → Str → Result Message
  submit_message protocol_version insecure key sender_id task_id payload now nonce =
      let m =
        task_message protocol_version sender_id task_id
          (sealed_record insecure key sender_id task_id payload) in
      if insecure then ok m else signed ed codec key now nonce m
