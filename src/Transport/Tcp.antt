-- ===== src/Transport/Tcp.antt =====
-- `TcpTransport` of peerq/transport.py: the frames of a connection, the handshake and the loop of
-- `_handle_client`, and `send` with `_get_or_connect`. A connection is the bytes that it will still
-- yield; the sockets below it are outside.
pub mod Extension
pub mod Delivery
pub mod Frames
pub mod Handshake
pub mod Dial
use peer_q.Prelude.{
  ℕ, ◌+◌, ◌-◌, Str, Bytes, Bool, true, false, not, ◌&&◌, ◌||◌, Option, none, some, List, [], ◌∷◌,
  ◌++◌, codes, if◌then◌else◌, leb, ltb, length, take, drop, ◌==◌, str_ordered,
}
use peer_q.Prelude.Int.{ℤ, pos, ltb_ℤ, leb_ℤ, int_ordered}
use peer_q.Prelude.Dict.{Dict, lookup, has, insert, remove}
use peer_q.Json.{
  Json, null, bool, int, float, str, arr, obj, finite, non_finite, seconds, Fields, end, field,
  fetch, Codec,
}
use peer_q.Errors.{
  Result, ok, err, decode_error, value_error, connection_error, permission_error, runtime_error,
  ◌>>=◌, ◌>>◌, check,
}
use peer_q.Security.Config.{SecurityConfig}
use peer_q.Security.ReplayCache.{ReplayCache}
use peer_q.Crypto.{Ed25519, PeerKeyRing, has_peer}
use peer_q.Wal.{from_u32}
use peer_q.Transport.Message.{Message, verify_signature, from_bytes, signed, to_bytes}
use peer_q.Transport.Freshness.{fresh_message, window, is_apart}

pub record Tcp : Type 0 where
  pub node_id : Str
  pub identity : Bytes
  pub keyring : PeerKeyRing
  pub security : SecurityConfig
  pub replay_cache : ReplayCache
  pub inbox : List (Str × Message)
  -- `len(_incoming_writers)`
  pub incoming : ℕ
  pub closed : Bool
  pub peer_addresses : Dict Str (Str × ℕ)
  -- `_connections`, and whether the writer of each is closing.
  pub connections : Dict Str Bool

-- `reader.readexactly(4)` and the length that it holds: fewer bytes, or a timeout, end in the same
-- exception.
unfoldable pub read_length : SecurityConfig → Bytes → Result (ℕ × Bytes)
read_length c (a ∷ b ∷ d ∷ e ∷ rest) = do
  check (ltb 0 (from_u32 a b d e)) decode_error
  check (not (ltb_ℤ c.max_frame_size (pos (from_u32 a b d e)))) decode_error
  ok (from_u32 a b d e, rest)
read_length c _ = err decode_error

module _ (codec : Codec) where
  -- `_read_frame`: the message, and the bytes behind it.
  unfoldable pub read_frame : SecurityConfig → Bytes → Result (Message × Bytes)
  read_frame c stream = do
    (size, rest) ← read_length c stream
    check (leb size (length rest)) decode_error
    m ← from_bytes codec c (take size rest)
    ok (m, drop size rest)

-- `payload.get("protocol_version") == version`, by Python's `==` of numbers.
abbrev pub is_version : Json → ℤ → Bool
is_version (int n) version = n == version
is_version (bool true) version = version == pos 1
is_version (bool false) version = version == pos 0
is_version (float (finite t)) version = t == seconds version
is_version _ version = false

abbrev pub version_field : ℤ → Fields
version_field version = field (codes "protocol_version") (int version) end

-- `authorized_sender`, as far as the connection has come.
pub data Phase : Type 0 where
  awaiting_hello ended : Phase
  receiving : Option Str → Phase

abbrev pub is_sender : Option Str → Str → Bool
is_sender none sender = true
is_sender (some expected) sender = sender == expected

-- What a connection leads to: where it stands, the transport, and the bytes that were written.
pub record Served : Type 0 where
  pub phase : Phase
  pub transport : Tcp
  pub sent : Bytes

-- The clock's time, a new nonce, and whether `drain` ends in time, at one round of a connection.
pub record Tick : Type 0 where
  pub now : ℤ
  pub nonce : Str
  pub drains : Bool

abbrev pub silent : Phase → Tcp → Served
silent phase t = record { phase = phase; transport = t; sent = [] }

-- `finally`: the writer leaves the set.
abbrev pub finish : Tcp → Served
finish t = silent ended (record t { incoming = t.incoming - 1 })

-- `if not self._inbox.full()`
unfoldable pub deliver : Message → Tcp → Tcp
deliver m t =
    if ltb_ℤ (pos (length t.inbox)) t.security.max_inbox_size
    then record t { inbox = t.inbox ++ (m.sender_id, m) ∷ [] }
    else t

-- `while not self._closed`
abbrev pub next_round : Option Str → Tcp → Served
next_round sender t = if t.closed then finish t else silent (receiving sender) t

abbrev pub after_bytes : Bytes → Served → Served
after_bytes bytes s = record s { sent = bytes ++ s.sent }

abbrev pub is_handshake : Str → Bool
is_handshake t = t == codes "hello" || t == codes "hello_ack"

module _ (ed : Ed25519) (codec : Codec) where
  -- `_verify_message`, on the clock's time: whether it is taken, and the transport behind it.
  unfoldable pub verify_message : ℤ → Message → Option Str → Tcp → Bool × Tcp
  verify_message now m expected t =
      if not t.security.enabled
      then (true, t)
      else if not (m.protocol_version == t.security.protocol_version)
          || not (is_sender expected m.sender_id)
      then (false, t)
      else if not (has_peer ed t.keyring m.sender_id) || not (verify_signature ed codec m t.keyring)
      then (false, t)
      else let (fresh, seen) =
          fresh_message m.sender_id now (window t.security) m.timestamp m.nonce t.replay_cache in
        (fresh, record t { replay_cache = seen })

  unfoldable pub verify_local_message : ℤ → Message → Tcp → Bool
  verify_local_message now m t =
      m.sender_id == t.node_id
      && (m.protocol_version == t.security.protocol_version
          && (in_window m.timestamp && verify_signature ed codec m t.keyring))
    where
      in_window : Option ℤ → Bool
      in_window none = false
      in_window (some s) = not (is_apart now s (window t.security))

  -- `_signed_message`, and `_write_frame` of it.
  unfoldable pub write_signed : Tick → Str → Tcp → Result Bytes
  write_signed k msg_type t = do
    m ← signed ed codec t.identity k.now k.nonce (record {
      msg_type = msg_type;
      sender_id = t.node_id;
      payload = version_field t.security.protocol_version;
      timestamp = none;
      nonce = none;
      signature = none;
      protocol_version = t.security.protocol_version;
    })
    bytes ← to_bytes codec t.security.max_frame_size m
    check k.drains decode_error
    ok bytes

  -- The hello is acknowledged, and its sender is authorized from here on.
  abbrev pub acknowledged : Str → Tcp → Result Bytes → Served
  acknowledged sender t (err e) = finish t
  acknowledged sender t (ok bytes) = after_bytes bytes (next_round (some sender) t)

  abbrev pub answered : Tick → Str → Bool × Tcp → Served
  answered k sender (true, t) = acknowledged sender t (write_signed k (codes "hello_ack") t)
  answered k sender (false, t) = finish t

  -- The type of a handshake message, and the version in its payload.
  abbrev pub is_opening : Str → Message → Tcp → Bool
  is_opening msg_type m t =
      m.msg_type == msg_type
      && is_version (fetch (codes "protocol_version") m.payload) t.security.protocol_version

  unfoldable pub on_hello : Tick → Message → Tcp → Served
  on_hello k hello t =
      if is_opening (codes "hello") hello t
      then answered k hello.sender_id (verify_message k.now hello none t)
      else finish t

  abbrev pub taken : Option Str → Message → Bool × Tcp → Served
  taken sender m (true, t) = next_round sender (deliver m t)
  taken sender m (false, t) = finish t

  unfoldable pub on_message : Tick → Option Str → Message → Tcp → Served
  on_message k sender m t =
      if t.security.enabled && is_handshake m.msg_type
      then finish t
      else taken sender m (verify_message k.now m sender t)

  -- The rounds of `_handle_client`, one for each tick: the connection yields a frame, or ends.
  unfoldable pub serve : List Tick → Bytes → Phase → Tcp → Served
  serve [] stream phase t = silent phase t
  serve (k ∷ ks) stream ended t = silent ended t
  serve (k ∷ ks) stream awaiting_hello t = elim (read_frame codec t.security stream) [
    | err e ↦ finish t
    | ok (hello, rest) ↦
        let s = on_hello k hello t in after_bytes s.sent (serve ks rest s.phase s.transport)
  ]
  serve (k ∷ ks) stream (receiving sender) t = elim (read_frame codec t.security stream) [
    | err e ↦ finish t
    | ok (m, rest) ↦
        let s = on_message k sender m t in after_bytes s.sent (serve ks rest s.phase s.transport)
  ]

  -- `_handle_client`
  unfoldable pub handle_client : List Tick → Bytes → Tcp → Served
  handle_client ks stream t =
      if leb_ℤ t.security.max_connections (pos t.incoming)
      then silent ended t
      else let entered = record t { incoming = t.incoming + 1 } in
        if t.security.enabled
        then serve ks stream awaiting_hello entered
        else let s = next_round none entered in serve ks stream s.phase s.transport
