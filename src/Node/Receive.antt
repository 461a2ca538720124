-- ===== src/Node/Receive.antt =====
-- One message in `_recv_loop` of peerq/node.py: authentication, and the handler of its type, on the
-- parts of the node that the handlers change. The counters of rejections stay outside.
use peer_q.Prelude.{
  ◌<◌, ◌≡◌, ◌⊎◌, refl, subst, Str, Bool, true, false, Option, none, some, arith, codes,
  if◌then◌else◌, Bool-cases, inl, inr, ◌==◌, ==_iff, str_ordered,
}
use peer_q.Prelude.Int.{ℤ, pos, pos_part, ◌-ℤ◌, ◌≤ℤ◌, leb_ℤ, int_ordered}
use peer_q.Json.{Json, int, fetch, Codec}
use peer_q.Errors.{Error}
use peer_q.Security.Config.{SecurityConfig}
use peer_q.Security.ReplayCache.{ReplayCache}
use peer_q.Crypto.{Ed25519, PeerKeyRing, has_peer}
use peer_q.Failure.{Detector, heartbeat}
use peer_q.Flow.{Flow, replenish}
use peer_q.Transport.Message.{Message, verify_signature}
use peer_q.Transport.Freshness.{window}
use peer_q.Transport.Freshness.Replay.{fresh_message_once}
use peer_q.Discovery.{get_field}
use peer_q.Node.{Node, Received, handle_gossip}
use peer_q.Node.Messages.{authenticate_message, is_message_type}

pub record Peer : Type 0 where
  pub node : Node
  pub security : SecurityConfig
  pub message_replay : ReplayCache
  pub failure_detector : Detector
  pub flow_controller : Flow

-- The peer behind a message, and an exception that the loop does not catch.
pub record Handled : Type 0 where
  pub peer : Peer
  pub escaped : Option Error

abbrev pub handled : Peer → Handled
handled p = record { peer = p; escaped = none }

-- The amount of a credit message: an int, no bool, from 0 to the limit; one where it is not there.
abbrev pub credited : Str → Option Json → Peer → Peer
credited sender (some (int (pos amount))) p =
    if leb_ℤ (pos amount) p.security.max_credit_amount
    then record p { flow_controller = (replenish sender (pos amount) p.flow_controller).1 }
    else p
credited sender _ p = p

module _ (ed : Ed25519) (codec : Codec) where
  abbrev pub gossiped : Received → Peer → Handled
  gossiped r p = record { peer = record p { node = r.node }; escaped = r.escaped }

  -- The handler of the message's type; `now` is the monotonic clock.
  unfoldable pub dispatch : ℤ → Bool → Str → Message → Peer → Handled
  dispatch now locked sender m p =
      if m.msg_type == codes "heartbeat"
      then handled (record p { failure_detector = heartbeat sender now p.failure_detector })
      else if m.msg_type == codes "gossip"
      then gossiped
          (handle_gossip ed codec (pos_part p.security.max_gossip_tasks) locked sender
            (fetch (codes "tasks") m.payload) p.node)
          p
      else if m.msg_type == codes "credit"
      then handled (credited sender (get_field (codes "amount") (some (int (pos 1))) m.payload) p)
      else handled p

  abbrev pub judged : ℤ → Bool → Str → Message → Peer → Bool × ReplayCache → Handled
  judged now locked sender m p (true, seen) =
      dispatch now locked sender m (record p { message_replay = seen })
  judged now locked sender m p (false, seen) = handled (record p { message_replay = seen })

  abbrev pub authenticated : ℤ → Str → Message → Peer → Bool × ReplayCache
  authenticated wall sender m p =
      authenticate_message ed codec p.node.security_enabled p.security.protocol_version
        (window p.security) wall p.node.keyring sender m p.message_replay

  -- One round of `_recv_loop`, on the wall clock for the message's age.
  unfoldable pub receive : ℤ → ℤ → Bool → Str → Message → Peer → Handled
  receive wall now locked sender m p = judged now locked sender m p (authenticated wall sender m p)

  -- Nothing but the cache of nonces differs.
  pub record IsIgnored (p q : Peer) : Type 0 where
    pub node : q.node ≡ p.node
    pub failure_detector : q.failure_detector ≡ p.failure_detector
    pub flow_controller : q.flow_controller ≡ p.flow_controller

  authenticate_message-verified :
      (version w wall : ℤ) (ring : PeerKeyRing) (sender : Str) (m : Message) (seen : ReplayCache)
      → (authenticate_message ed codec true version w wall ring sender m seen).0 ≡ true
      → (sender ≡ m.sender_id)
        × (is_message_type m.msg_type ≡ true)
        × (has_peer ed ring sender ≡ true)
        × (verify_signature ed codec m ring ≡ true)
  unfolding authenticate_message
  authenticate_message-verified version w wall ring sender m seen h =
      ground (arith, h, ==_iff sender m.sender_id)

  judged-IsIgnored :
      (now : ℤ) (locked : Bool) (sender : Str) (m : Message) (p : Peer) (r : Bool × ReplayCache)
      → r.0 ≡ false
      → IsIgnored p (judged now locked sender m p r).peer
  judged-IsIgnored now locked sender m p (true, seen) h = ground arith
  judged-IsIgnored now locked sender m p (false, seen) h = record {
    node = refl;
    failure_detector = refl;
    flow_controller = refl;
  }

  -- Where security is enabled, a message changes the table, the failure detector or the credits only
  -- if it names its sender, is of a known type, and has a signature that verifies under a ring that
  -- has the sender; any other message is ignored.
  pub receive-IsIgnored :
      (wall now : ℤ) (locked : Bool) (sender : Str) (m : Message) (p : Peer)
      → p.node.security_enabled ≡ true
      → ((sender ≡ m.sender_id)
          × (is_message_type m.msg_type ≡ true)
          × (has_peer ed p.node.keyring sender ≡ true)
          × (verify_signature ed codec m p.node.keyring ≡ true))
        ⊎ IsIgnored p (receive wall now locked sender m p).peer
  unfolding receive
  receive-IsIgnored wall now locked sender m p on =
      elim (Bool-cases (authenticated wall sender m p).0) [
        | inl good ↦ inl (
            authenticate_message-verified p.security.protocol_version (window p.security) wall
              p.node.keyring sender m p.message_replay
              (subst
                (λ b.
                  (authenticate_message ed codec b p.security.protocol_version (window p.security)
                    wall p.node.keyring sender m p.message_replay).0
                  ≡ true)
                on good))
        | inr bad ↦ inr (judged-IsIgnored now locked sender m p (authenticated wall sender m p) bad)
      ]

  -- Where security is enabled and the cache has room for an entry, a message that was taken is refused
  -- when it arrives again as the next message from anyone, while no more than the window has passed.
  pub authenticate_message_once :
      (version w wall later : ℤ) (ring : PeerKeyRing) (sender : Str) (m : Message)
      (seen : ReplayCache)
      → 0 < seen.max_entries
      → (later -ℤ w) ≤ℤ wall
      → (authenticate_message ed codec true version w wall ring sender m seen).0 ≡ true
      → (authenticate_message ed codec true version w later ring sender m
          (authenticate_message ed codec true version w wall ring sender m seen).1).0
        ≡ false
  unfolding authenticate_message
  authenticate_message_once version w wall later ring sender m seen room near h =
      ground (arith, h, fresh_message_once sender wall later w m.timestamp m.nonce seen room near)
