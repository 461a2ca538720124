-- ===== src/Node/Create.antt =====
-- `PeerNode.__init__` of peerq/node.py, on a node without a log. The environment variable, `float` of a
-- text and a generated key pair are arguments.
pub mod Ready
use peer_q.Prelude.{
  ℕ, zero, suc, ◌≤◌, ◌<◌, ◌≡◌, ◌≢◌, refl, sym, ap, subst, ◌∙◌, Str, Bytes, Bool, true, false, not,
  ◌&&◌, ◌||◌, Option, none, some, List, [], ◌∷◌, arith, length, select, every, All, if◌then◌else◌,
  if_cases, leb, ltb, Bool-cases, Option-cases, inl, inr, ◌==◌, ==_iff, ==_self, str_ordered,
  nat_ordered, option_ordered,
}
use peer_q.Prelude.Int.{ℤ, pos, negsuc, pos_part, int_ordered}
use peer_q.Prelude.Dict.{Dict, lookup, insert, member, lookup-insert}
use peer_q.Errors.{
  Result, ok, err, value_error, ◌>>=◌, ◌>>◌, check, >>=-inverse, check-inverse, ok-injective,
}
use peer_q.Json.{Float, finite}
use peer_q.Security.{max_peer_id_length}
use peer_q.Security.Config.{SecurityConfig}
use peer_q.Security.ReplayCache.{new_cache}
use peer_q.Crypto.{Ed25519, PeerKeyRing, wrapper, add_peer, is_empty}
use peer_q.Consensus.Clock.{vector_clock}
use peer_q.Queue.{new_queue, reject_on_full}
use peer_q.Flow.{Flow, new_flow, init_peer, get_credits}
use peer_q.Failure.{new_detector}
use peer_q.Node.{Node}
use peer_q.Node.Receive.{Peer}

-- The new node, its peers, and its lease duration.
pub record Created : Type 0 where
  pub peer : Peer
  pub peers : List Str
  pub lease_duration : Float

abbrev pub is_peer_id : Str → Bool
is_peer_id p = not (is_empty p) && leb (length p) max_peer_id_length

-- `dict.fromkeys(ps)`, behind the keys so far.
unfoldable pub unique : List Str → List Str → List Str
unique seen [] = []
unique seen (p ∷ ps) =
    let old = unique seen ps in
    let new = unique (p ∷ seen) ps in if member p seen then old else p ∷ new

unfoldable pub peers_of : Str → List Str → List Str
peers_of node_id ps = unique [] (select (λ p. not (p == node_id)) ps)

-- 5.0
abbrev pub usual_lease : Float
usual_lease = finite (pos 5000000)

abbrev pub is_usual : Float → Bool
is_usual (finite t) = t == pos 5000000
is_usual _ = false

-- What PEERQ_LEASE_DURATION says in place of a duration, if it is a number.
abbrev pub or_environment : Option Float → Option Float → Option Float
or_environment given none = given
or_environment given (some f) = some f

abbrev pub or_usual : Option Float → Float
or_usual none = usual_lease
or_usual (some f) = f

-- `env_lease` is the number that the variable holds.
unfoldable pub chosen_lease : Option Float → Option Float → Float
chosen_lease none env_lease = or_usual (or_environment none env_lease)
chosen_lease (some f) env_lease =
    if is_usual f then or_usual (or_environment (some f) env_lease) else f

unfoldable pub init_peers : ℤ → List Str → Flow → Flow
init_peers amount [] f = f
init_peers amount (p ∷ ps) f = init_peers amount ps (init_peer p (some amount) f)

module _ (ed : Ed25519) where
  -- The node's own key, which the ring has to agree with.
  abbrev pub own_key : Str → Bytes → PeerKeyRing → Option Bytes → Result PeerKeyRing
  own_key node_id identity ring none = add_peer ed ring node_id (wrapper (ed.public_key identity))
  own_key node_id identity ring (some k) = do
    check (k == ed.public_key identity) value_error
    ok ring

  unfoldable pub new_node :
      Str
      → List Str
      → Option Float
      → Option Float
      → ℤ
      → ℤ
      → Bytes
      → PeerKeyRing
      → SecurityConfig
      → ℤ
      → Result Created
  new_node node_id ps duration env_lease max_queue_size initial_credits identity ring security
        max_tasks =
      do
        check (is_peer_id node_id) value_error
        check (every is_peer_id (peers_of node_id ps)) value_error
        keyring ← own_key node_id identity ring (lookup node_id ring)
        check (ltb 0 (pos_part max_tasks)) value_error
        cache ← new_cache (pos_part security.replay_cache_size)
        ok (record {
          peer = record {
            node = record {
              node_id = node_id;
              identity = identity;
              keyring = keyring;
              security_enabled = security.enabled;
              max_tasks = pos_part max_tasks;
              tasks = [];
              queue = new_queue max_queue_size reject_on_full;
              queued_task_ids = [];
              vector_clock = vector_clock ((node_id, 0) ∷ []);
            };
            security = security;
            message_replay = cache;
            failure_detector = new_detector 1000 5;
            flow_controller =
                init_peers initial_credits (peers_of node_id ps) (new_flow initial_credits);
          };
          peers = peers_of node_id ps;
          lease_duration = chosen_lease duration env_lease;
        })
