-- ===== src/Transport/Sim.antt =====
-- `SimNetwork`, `InMemoryTransport` and `SimBroadcastTransport` of peerq/transport.py, and the
-- datagrams of `_UdpProtocol`. A transport keeps its number when another one takes its name; the
-- random drop is a parameter.
pub mod Partition
use peer_q.Prelude.{
  ℕ, ◌+◌, Str, Bytes, Bool, true, false, not, ◌&&◌, ◌||◌, Option, none, some, List, [], ◌∷◌, ◌++◌,
  if◌then◌else◌, ltb, length, drop, map, select, ◌==◌, str_ordered, nat_ordered, pair_ordered,
}
use peer_q.Prelude.Int.{ℤ, pos, ltb_ℤ}
use peer_q.Prelude.Dict.{Dict, lookup, insert, remove, member}
use peer_q.Json.{Codec}
use peer_q.Errors.{Error, Result, ok, err, runtime_error, ◌>>=◌}
use peer_q.Security.Config.{SecurityConfig}
use peer_q.Security.RateLimiter.{RateLimiter, allow}
use peer_q.Transport.Message.{Message, to_bytes, from_bytes}

pub record InMemory : Type 0 where
  pub number : ℕ
  pub security : SecurityConfig
  pub inbox : List (Str × Message)
  pub closed : Bool

-- `_blocked_links` is a set of pairs of a source and a target.
pub record SimNetwork : Type 0 where
  pub transports : Dict Str InMemory
  pub blocked_links : List (Str × Str)

-- `set.add` and `set.discard`
abbrev pub add : Str × Str → List (Str × Str) → List (Str × Str)
add link links = if member link links then links else link ∷ links

abbrev pub discard : Str × Str → List (Str × Str) → List (Str × Str)
discard link links = select (λ l. not (l == link)) links

-- The inner loop of `partition`, over the nodes of the second group.
unfoldable pub block : Bool → Str → List Str → List (Str × Str) → List (Str × Str)
block symmetric a [] links = links
block symmetric a (b ∷ bs) links =
    block symmetric a bs (if symmetric then add (b, a) (add (a, b) links) else add (a, b) links)

unfoldable pub block_all : Bool → List Str → List Str → List (Str × Str) → List (Str × Str)
block_all symmetric [] group_b links = links
block_all symmetric (a ∷ more) group_b links =
    block_all symmetric more group_b (block symmetric a group_b links)

unfoldable pub partition : List Str → List Str → Bool → SimNetwork → SimNetwork
partition group_a group_b symmetric n = record n {
  blocked_links = block_all symmetric group_a group_b n.blocked_links;
}

-- The loops of `heal_partition`.
unfoldable pub unblock : Bool → Str → List Str → List (Str × Str) → List (Str × Str)
unblock symmetric a [] links = links
unblock symmetric a (b ∷ bs) links =
    unblock symmetric a bs
      (if symmetric then discard (b, a) (discard (a, b) links) else discard (a, b) links)

unfoldable pub unblock_all : Bool → List Str → List Str → List (Str × Str) → List (Str × Str)
unblock_all symmetric [] group_b links = links
unblock_all symmetric (a ∷ more) group_b links =
    unblock_all symmetric more group_b (unblock symmetric a group_b links)

unfoldable pub heal_partition : List Str → List Str → Bool → SimNetwork → SimNetwork
heal_partition group_a group_b symmetric n = record n {
  blocked_links = unblock_all symmetric group_a group_b n.blocked_links;
}

unfoldable pub heal_all : SimNetwork → SimNetwork
heal_all n = record n { blocked_links = [] }

unfoldable pub is_blocked : Str → Str → SimNetwork → Bool
is_blocked source target n = member (source, target) n.blocked_links

unfoldable pub register : Str → InMemory → SimNetwork → SimNetwork
register node_id t n = record n { transports = insert node_id t n.transports }

-- `close` of a transport: it leaves the network.
unfoldable pub unregister : Str → SimNetwork → SimNetwork
unregister node_id n = record n { transports = remove node_id n.transports }

-- A message that sleeps for the latency, on its way to the transport that the target had.
pub record Packet : Type 0 where
  pub source : Str
  pub target : Str
  pub number : ℕ
  pub message : Message

-- `route_message` up to the sleep: the packet that is under way.
unfoldable pub depart : Bool → Str → Str → Message → SimNetwork → Option Packet
depart dropped source target m n =
    if is_blocked source target n || dropped then none else elim (lookup target n.transports) [
      | none ↦ none
      | some t ↦ some (record { source = source; target = target; number = t.number; message = m })
    ]

module _ (codec : Codec) where
  -- `deliver_packet`: the message is serialized and read back; either may raise in the sender.
  unfoldable pub deliver_packet : Str → Message → InMemory → Result InMemory
  deliver_packet sender_id m t = if t.closed then ok t else do
    frame ← to_bytes codec t.security.max_frame_size m
    isolated ← from_bytes codec t.security (drop 4 frame)
    ok (
        if ltb_ℤ (pos (length t.inbox)) t.security.max_inbox_size
        then record t { inbox = t.inbox ++ (sender_id, isolated) ∷ [] }
        else t)

  abbrev pub replaced : Packet → SimNetwork → Result InMemory → SimNetwork × Option Error
  replaced p n (err e) = (n, some e)
  replaced p n (ok t) = (record n { transports = insert p.target t n.transports }, none)

  abbrev pub at_target : Packet → SimNetwork → Option InMemory → SimNetwork × Option Error
  at_target p n none = (n, none)
  at_target p n (some t) =
      if t.number == p.number then replaced p n (deliver_packet p.source p.message t) else (n, none)

  -- `route_message` behind the sleep: the link is looked at once more.
  unfoldable pub arrive : Packet → SimNetwork → SimNetwork × Option Error
  arrive p n =
      if is_blocked p.source p.target n
      then (n, none)
      else at_target p n (lookup p.target n.transports)

-- `SimBroadcastTransport.deliver`, on an inbox of 256 packets.
unfoldable pub deliver_datagram : Str → Bytes → List (Str × Bytes) → List (Str × Bytes)
deliver_datagram sender bytes inbox =
    if ltb (length inbox) 256 then inbox ++ (sender, bytes) ∷ [] else inbox

-- `deliver_broadcast`, over the inboxes of the other nodes.
unfoldable pub deliver_broadcast :
    Str → Bytes → SimNetwork → Dict Str (List (Str × Bytes)) → Dict Str (List (Str × Bytes))
deliver_broadcast sender bytes n [] = []
deliver_broadcast sender bytes n ((target, inbox) ∷ rest) =
    (
      target,
      if target == sender || is_blocked sender target n
          then inbox
          else deliver_datagram sender bytes inbox,
    )
    ∷ deliver_broadcast sender bytes n rest

-- `_UdpProtocol`: its inbox and its rate limiter.
pub record Udp : Type 0 where
  pub inbox : List (Str × Bytes)
  pub rate_limiter : RateLimiter
  pub max_datagram_size : ℤ
  pub max_inbox_size : ℤ

abbrev pub allowed : Str → Bytes → Udp → Bool × RateLimiter → Udp
allowed host bytes u (false, l) = record u { rate_limiter = l }
allowed host bytes u (true, l) = record u {
  rate_limiter = l;
  inbox =
      if ltb_ℤ (pos (length u.inbox)) u.max_inbox_size
      then u.inbox ++ (host, bytes) ∷ []
      else u.inbox;
}

unfoldable pub datagram_received : Bytes → Str → ℤ → Udp → Udp
datagram_received bytes host now u =
    if ltb_ℤ u.max_datagram_size (pos (length bytes))
    then u
    else allowed host bytes u (allow host now u.rate_limiter)
