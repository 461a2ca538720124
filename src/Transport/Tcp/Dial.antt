-- ===== src/Transport/Tcp/Dial.antt =====
-- The dialing side of `TcpTransport` of peerq/transport.py: `_get_or_connect`, `send`, `recv` and
-- `close`. What a dialed peer answers with is a parameter, as bytes.
use peer_q.Prelude.{
  ℕ, Str, Bytes, Bool, true, false, not, ◌&&◌, Option, none, some, [], ◌∷◌, ◌++◌, codes,
  if◌then◌else◌, length, str_ordered,
}
use peer_q.Prelude.Int.{pos, leb_ℤ}
use peer_q.Prelude.Dict.{lookup, insert, remove}
use peer_q.Json.{Codec}
use peer_q.Errors.{
  Error, Result, ok, err, value_error, connection_error, permission_error, runtime_error,
  decode_error, ◌>>◌, check,
}
use peer_q.Crypto.{Ed25519}
use peer_q.Transport.Message.{Message, to_bytes}
use peer_q.Transport.Tcp.{
  Tcp, Tick, read_frame, is_opening, verify_message, verify_local_message, write_signed,
}

-- What a call leaves: the transport, the bytes that were written, and the exception.
pub record Attempt : Type 0 where
  pub transport : Tcp
  pub sent : Bytes
  pub error : Option Error

abbrev pub attempt : Tcp → Bytes → Option Error → Attempt
attempt t sent e = record { transport = t; sent = sent; error = e }

-- The connection that a message goes over: one that is open, or a new one to an address.
pub data Route : Type 0 where
  reuse : Route
  dial : Str × ℕ → Route

-- `_get_or_connect` up to the dialing.
abbrev pub dial_address : Option (Str × ℕ) → Tcp → Result Route
dial_address none t = err value_error
dial_address (some address) t = do
  check (not (leb_ℤ t.security.max_connections (pos (length t.connections)))) connection_error
  ok (dial address)

unfoldable pub route : Str → Tcp → Result Route
route peer_id t = elim (lookup peer_id t.connections) [
  | some false ↦ ok reuse
  | some true ↦ dial_address (lookup peer_id t.peer_addresses) t
  | none ↦ dial_address (lookup peer_id t.peer_addresses) t
]

abbrev pub connected : Str → Tcp → Tcp
connected peer_id t = record t { connections = insert peer_id false t.connections }

module _ (ed : Ed25519) (codec : Codec) where
  abbrev pub judged : Str → Bytes → Bool × Tcp → Attempt
  judged peer_id hello (true, t) = attempt (connected peer_id t) hello none
  judged peer_id hello (false, t) = attempt t hello (some permission_error)

  abbrev pub acked : Tick → Str → Bytes → Tcp → Result (Message × Bytes) → Attempt
  acked k peer_id hello t (err e) = attempt t hello (some e)
  acked k peer_id hello t (ok (ack, rest)) =
      if is_opening ed codec (codes "hello_ack") ack t
      then judged peer_id hello (verify_message ed codec k.now ack (some peer_id) t)
      else attempt t hello (some permission_error)

  abbrev pub greeted : Tick → Str → Bytes → Tcp → Result Bytes → Attempt
  greeted k peer_id stream t (err e) = attempt t [] (some e)
  greeted k peer_id stream t (ok hello) =
      acked k peer_id hello t (read_frame codec t.security stream)

  -- `_get_or_connect` behind the dialing, on the bytes that the peer answers with.
  unfoldable pub handshake : Tick → Str → Bytes → Tcp → Attempt
  handshake k peer_id stream t =
      if t.security.enabled
      then greeted k peer_id stream t (write_signed ed codec k (codes "hello") t)
      else attempt (connected peer_id t) [] none

  -- `_get_or_connect`; `none` is a connection that could not be made in time.
  abbrev pub dialed : Tick → Str → Option Bytes → Tcp → Result Route → Attempt
  dialed k peer_id stream t (err e) = attempt t [] (some e)
  dialed k peer_id stream t (ok reuse) = attempt t [] none
  dialed k peer_id none t (ok (dial address)) = attempt t [] (some connection_error)
  dialed k peer_id (some stream) t (ok (dial address)) = handshake k peer_id stream t

  unfoldable pub get_or_connect : Tick → Str → Option Bytes → Tcp → Attempt
  get_or_connect k peer_id stream t = dialed k peer_id stream t (route peer_id t)

  -- `_write_frame`, and the connection that a failure drops.
  abbrev pub written : Str → Bool → Bytes → Tcp → Result Bytes → Attempt
  written peer_id drains before t (err e) =
      attempt (record t { connections = remove peer_id t.connections }) before (some e)
  written peer_id true before t (ok bytes) = attempt t (before ++ bytes) none
  written peer_id false before t (ok bytes) =
      attempt (record t { connections = remove peer_id t.connections }) (before ++ bytes)
        (some decode_error)

  abbrev pub sent_over : Str → Bool → Message → Attempt → Attempt
  sent_over peer_id drains m a = elim a.error [
    | some e ↦ a
    | none ↦
        written peer_id drains a.sent a.transport
          (to_bytes codec a.transport.security.max_frame_size m)
  ]

  unfoldable pub send : Tick → Str → Message → Option Bytes → Tcp → Attempt
  send k peer_id m stream t =
      if t.closed
      then attempt t [] (some runtime_error)
      else if t.security.enabled && not (verify_local_message ed codec k.now m t)
      then attempt t [] (some permission_error)
      else sent_over peer_id k.drains m (get_or_connect k peer_id stream t)

-- `recv`: the oldest message, none while it waits, or an exception behind `close`.
unfoldable pub recv : Tcp → Result (Option (Str × Message) × Tcp)
recv t = elim t.inbox [
  | [] ↦ if t.closed then err runtime_error else ok (none, t)
  | e ∷ es ↦ ok (some e, record t { inbox = es })
]

unfoldable pub close : Tcp → Tcp
close t = record t { closed = true; connections = []; incoming = 0 }
