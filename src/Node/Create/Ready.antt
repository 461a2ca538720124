-- ===== src/Node/Create/Ready.antt =====
-- What the constructor of `PeerNode` of peerq/node.py promises of a node that it makes.
use peer_q.Prelude.{
  ◌<◌, ◌≡◌, ◌⊎◌, refl, ap, subst, ◌∙◌, Str, Bytes, Bool, true, false, not, ◌&&◌, Option, none, some,
  List, [], ◌∷◌, arith, length, select, every, All, if_cases, ltb, Bool-cases, inl, inr, ◌==◌,
  ==_iff, ==_self, str_ordered, nat_ordered,
}
use peer_q.Prelude.Int.{ℤ, pos_part}
use peer_q.Prelude.Dict.{lookup, insert, member, lookup-insert}
use peer_q.Errors.{ok, value_error, ◌>>=◌, >>=-inverse, check-inverse, ok-injective}
use peer_q.Json.{Float}
use peer_q.Security.Config.{SecurityConfig}
use peer_q.Security.ReplayCache.{ReplayCache, new_cache}
use peer_q.Crypto.{Ed25519, PeerKeyRing, add_peer, parse_key}
use peer_q.Flow.{Flow, new_flow, init_peer, get_credits, or_default}
use peer_q.Node.Create.{Created, is_peer_id, unique, peers_of, init_peers, own_key, new_node}

-- No peer stands in the list twice.
abbrev pub Distinct : List Str → Type 0
Distinct [] = Unit
Distinct (p ∷ ps) = (member p ps ≡ false) × Distinct ps

member-unique :
    (p : Str) (seen ps : List Str)
    → member p (unique seen ps) ≡ (member p ps && not (member p seen))
unfolding unique member
member-unique p seen [] = refl
member-unique p seen (q ∷ ps) = ground (
  arith,
  ==_iff p q,
  Bool-cases (member q seen),
  member-unique p seen ps,
  member-unique p (q ∷ seen) ps,
)

own_absent : (q : Str) (seen ps : List Str) → member q (unique (q ∷ seen) ps) ≡ false
unfolding member
own_absent q seen ps = ground (arith, member-unique q (q ∷ seen) ps, ==_self q)

unique-Distinct : (seen ps : List Str) → Distinct (unique seen ps)
unfolding unique
unique-Distinct seen [] = tt
unique-Distinct seen (q ∷ ps) =
    if_cases Distinct (member q seen) (λ _. unique-Distinct seen ps)
      (λ _. (own_absent q seen ps, unique-Distinct (q ∷ seen) ps))

member-select :
    (test : Str → Bool) (p : Str) (ps : List Str)
    → member p (select test ps) ≡ (member p ps && test p)
unfolding select member
member-select test p [] = refl
member-select test p (q ∷ ps) =
    ground (arith, ==_iff p q, Bool-cases (test q), member-select test p ps)

member-peers_of :
    (node_id p : Str) (ps : List Str)
    → member p (peers_of node_id ps) ≡ (member p ps && not (p == node_id))
unfolding peers_of member
member-peers_of node_id p ps = ground (
  arith,
  member-unique p [] (select (λ q. not (q == node_id)) ps),
  member-select (λ q. not (q == node_id)) p ps,
)

peers_of-Distinct : (node_id : Str) (ps : List Str) → Distinct (peers_of node_id ps)
unfolding peers_of
peers_of-Distinct node_id ps = unique-Distinct [] (select (λ q. not (q == node_id)) ps)

get_credits-new_flow : (amount : ℤ) (p : Str) → get_credits (new_flow amount) p ≡ amount
unfolding get_credits lookup
get_credits-new_flow amount p = refl

init_peer-default :
    (amount : ℤ) (q : Str) (f : Flow)
    → (init_peer q (some amount) f).default_initial_credits ≡ f.default_initial_credits
unfolding init_peer
init_peer-default amount q f = refl

init_peer-credits :
    (amount : ℤ) (q p : Str) (f : Flow)
    → get_credits f p ≡ amount
    → get_credits (init_peer q (some amount) f) p ≡ amount
unfolding init_peer get_credits
init_peer-credits amount q p f h =
    rw (lookup-insert q p amount f.credits) (
      if_cases (λ o. or_default f.default_initial_credits o ≡ amount) (q == p) (λ _. refl) (λ _. h))

init_peers-credits :
    (amount : ℤ) (ps : List Str) (f : Flow) (p : Str)
    → f.default_initial_credits ≡ amount
    → get_credits f p ≡ amount
    → get_credits (init_peers amount ps f) p ≡ amount
unfolding init_peers
init_peers-credits amount [] f p h k = k
init_peers-credits amount (q ∷ ps) f p h k =
    init_peers-credits amount ps (init_peer q (some amount) f) p (init_peer-default amount q f ∙ h)
      (init_peer-credits amount q p f k)

every-All : (test : Str → Bool) (ps : List Str) → every test ps ≡ true → All (λ p. test p ≡ true) ps
unfolding every
every-All test [] h = tt
every-All test (p ∷ ps) h = (ground (arith, h), every-All test ps (ground (arith, h)))

module _ (ed : Ed25519) where
  own_key-known :
      (node_id : Str) (identity : Bytes) (ring new : PeerKeyRing) (o : Option Bytes)
      → lookup node_id ring ≡ o
      → own_key ed node_id identity ring o ≡ ok new
      → lookup node_id new ≡ some (ed.public_key identity)
  unfolding add_peer parse_key
  own_key-known node_id identity ring new none e h =
      let (_, made) =
        check-inverse (is_peer_id node_id) value_error
          (ok (ed.public_key identity) >>= λ k. ok (insert node_id k ring)) h in
      subst (λ r. lookup node_id r ≡ some (ed.public_key identity)) (ok-injective made)
        (ground
          (arith, lookup-insert node_id node_id (ed.public_key identity) ring, ==_self node_id))
  own_key-known node_id identity ring new (some k) e h =
      let (same, made) = check-inverse (k == ed.public_key identity) value_error (ok ring) h in
      subst (λ r. lookup node_id r ≡ some (ed.public_key identity)) (ok-injective made)
        (e ∙ ap some ((==_iff k (ed.public_key identity)).0 same))

  -- A node that is ready to start: it knows its own key, has each of the other peers once, the same
  -- credits for any peer, an empty table with room, and nothing in its queue.
  pub record IsReady (node_id : Str) (identity : Bytes) (ps : List Str) (amount : ℤ) (c : Created)
      : Type 0 where
    pub own : lookup node_id c.peer.node.keyring ≡ some (ed.public_key identity)
    pub peers : (p : Str) → member p c.peers ≡ (member p ps && not (p == node_id))
    pub distinct : Distinct c.peers
    pub bounded : All (λ p. is_peer_id p ≡ true) c.peers
    pub credits : (p : Str) → get_credits c.peer.flow_controller p ≡ amount
    pub tasks : c.peer.node.tasks ≡ []
    pub room : length c.peer.node.tasks < c.peer.node.max_tasks
    pub queue : c.peer.node.queue.heap ≡ []

  -- The node that the constructor of `PeerNode` returns, if it does, is ready to start: its ring has its
  -- own key under its id, its peers are the listed ones but itself, each once and under an id that is
  -- neither empty nor too long, it grants each peer the same credits, and its table has room.
  pub new_node-IsReady :
      (node_id : Str) (ps : List Str) (duration env_lease : Option Float)
      (max_queue_size amount : ℤ) (identity : Bytes) (ring : PeerKeyRing)
      (security : SecurityConfig) (max_tasks : ℤ) (c : Created)
      → new_node ed node_id ps duration env_lease max_queue_size amount identity ring security
          max_tasks
        ≡ ok c
      → IsReady node_id identity ps amount c
  unfolding new_node
  new_node-IsReady node_id ps duration env_lease max_queue_size amount identity ring security
        max_tasks c h =
      let (_, h1) = check-inverse (is_peer_id node_id) value_error _ h in
      let (all, h2) = check-inverse (every is_peer_id (peers_of node_id ps)) value_error _ h1 in
      let (keyring, known, h3) =
        >>=-inverse (own_key ed node_id identity ring (lookup node_id ring)) _ h2 in
      let (room, h4) = check-inverse (ltb 0 (pos_part max_tasks)) value_error _ h3 in
      let (cache, _, built) = >>=-inverse (new_cache (pos_part security.replay_cache_size)) _ h4 in
      subst (IsReady node_id identity ps amount) (ok-injective built) (record {
        own = own_key-known node_id identity ring keyring (lookup node_id ring) refl known;
        peers = λ p. member-peers_of node_id p ps;
        distinct = peers_of-Distinct node_id ps;
        bounded = every-All is_peer_id (peers_of node_id ps) all;
        credits = λ p.
            init_peers-credits amount (peers_of node_id ps) (new_flow amount) p refl
              (get_credits-new_flow amount p);
        tasks = refl;
        room = ground (arith, room);
        queue = refl;
      })

  own_key-returns :
      (node_id : Str) (identity : Bytes) (ring : PeerKeyRing) (o : Option Bytes)
      → is_peer_id node_id ≡ true
      → (o ≡ none) ⊎ (o ≡ some (ed.public_key identity))
      → (new : PeerKeyRing) × (own_key ed node_id identity ring o ≡ ok new)
  unfolding add_peer parse_key
  own_key-returns node_id identity ring none fit h =
      (insert node_id (ed.public_key identity) ring, rw fit refl)
  own_key-returns node_id identity ring (some k) fit (inl h) = cc
  own_key-returns node_id identity ring (some k) fit (inr h) =
      (ring, rw ((==_iff k (ed.public_key identity)).1 cc) refl)

  -- The constructor returns, where no id is empty or too long, the ring has no other key for the node,
  -- and the limits are positive.
  new_node_returns :
      (node_id : Str) (ps : List Str) (duration env_lease : Option Float)
      (max_queue_size amount : ℤ) (identity : Bytes) (ring : PeerKeyRing)
      (security : SecurityConfig) (max_tasks : ℤ)
      → is_peer_id node_id ≡ true
      → every is_peer_id (peers_of node_id ps) ≡ true
      → (lookup node_id ring ≡ none) ⊎ (lookup node_id ring ≡ some (ed.public_key identity))
      → ltb 0 (pos_part max_tasks) ≡ true
      → (cache : ReplayCache) → new_cache (pos_part security.replay_cache_size) ≡ ok cache
      → (c : Created) × (new_node ed node_id ps duration env_lease max_queue_size amount identity
            ring security max_tasks
          ≡ ok c)
  unfolding new_node
  new_node_returns node_id ps duration env_lease max_queue_size amount identity ring security
        max_tasks fit all own room cache made =
      let (keyring, known) = own_key-returns node_id identity ring (lookup node_id ring) fit own in
      rw (fit, all, known, room, made) (_, refl)
