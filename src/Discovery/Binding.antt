-- ===== src/Discovery/Binding.antt =====
-- `bind_node` of peerq/discovery.py: what a discovered peer changes on the bound node.
use peer_q.Prelude.{
  ℕ, ◌≡◌, Str, Bool, true, false, not, ◌&&◌, ◌||◌, Option, none, some, List, [], ◌∷◌, ◌++◌, arith,
  if◌then◌else◌, if_cases, and_split, length, length-append, All, All-append, ◌==◌, str_ordered,
}
use peer_q.Prelude.Int.{pos, ltb_ℤ, ◌≤ℤ◌}
use peer_q.Prelude.Dict.{Dict, insert, member}
use peer_q.Crypto.{Ed25519, PeerKeyRing, has_peer}
use peer_q.Flow.{Flow, init_peer}
use peer_q.Discovery.{DiscoveredPeer, PeerDiscovery}

-- The parts of a `PeerNode` that discovery changes, with `peer_addresses` where its transport is a
-- `TcpTransport`.
pub record Bound : Type 0 where
  pub peers : List Str
  pub keyring : PeerKeyRing
  pub flow : Flow
  pub peer_addresses : Option (Dict Str (Str × ℕ))

abbrev pub addressed : DiscoveredPeer → Option (Dict Str (Str × ℕ)) → Option (Dict Str (Str × ℕ))
addressed peer none = none
addressed peer (some d) = some (insert peer.node_id (peer.host, peer.port) d)

module _ (ed : Ed25519) where
  -- The guards of `_on_discovered`.
  unfoldable pub is_admitted : DiscoveredPeer → PeerDiscovery → Bound → Bool
  is_admitted peer d n =
      not (peer.node_id == d.node_id)
      && (not (d.security.enabled && not (has_peer ed n.keyring peer.node_id))
          && (member peer.node_id n.peers || ltb_ℤ (pos (length n.peers)) d.security.max_peers))

  abbrev pub listed : Str → Bound → Bound
  listed id n =
      if member id n.peers
      then n
      else record n { peers = n.peers ++ id ∷ []; flow = init_peer id (some (pos 20)) n.flow }

  -- `_on_discovered`
  unfoldable pub on_discovered : PeerDiscovery → DiscoveredPeer → Bound → Bound
  on_discovered d peer n =
      if is_admitted peer d n
      then record (listed peer.node_id n) { peer_addresses = addressed peer n.peer_addresses }
      else n

  -- The known peers of a node: within the limit, without the node itself, and authorized where
  -- security is enabled.
  pub record IsTopology (d : PeerDiscovery) (n : Bound) : Type 0 where
    pub size : pos (length n.peers) ≤ℤ d.security.max_peers
    pub others : All (λ id. (id == d.node_id) ≡ false) n.peers
    pub known : d.security.enabled ≡ true → All (λ id. has_peer ed n.keyring id ≡ true) n.peers

  listed-IsTopology :
      (d : PeerDiscovery) (peer : DiscoveredPeer) (n : Bound)
      → is_admitted peer d n ≡ true
      → IsTopology d n
      → IsTopology d (listed peer.node_id n)
  unfolding is_admitted
  listed-IsTopology d peer n h t =
      let id : Str = peer.node_id in
      let (other, h1) = and_split (not (id == d.node_id)) _ h in
      let (trusted, free) =
        and_split (not (d.security.enabled && not (has_peer ed n.keyring id))) _ h1 in
      if_cases (IsTopology d) (member id n.peers) (λ _. t)
        (λ new. record {
          size = ground (arith, free, new, length-append n.peers (id ∷ []));
          others = All-append _ n.peers (id ∷ []) t.others (ground (arith, other), tt);
          known =
              λ on. All-append _ n.peers (id ∷ []) (t.known on) (ground (arith, on, trusted), tt);
        })

  -- A discovered peer leaves the known peers of the node bounded, without the node itself, and
  -- authorized where security is enabled.
  pub on_discovered-IsTopology :
      (d : PeerDiscovery) (peer : DiscoveredPeer) (n : Bound)
      → IsTopology d n
      → IsTopology d (on_discovered d peer n)
  unfolding on_discovered
  on_discovered-IsTopology d peer n t =
      if_cases (IsTopology d) (is_admitted peer d n)
        (λ h.
          let m : IsTopology d (listed peer.node_id n) = listed-IsTopology d peer n h t in
          record { size = m.size; others = m.others; known = m.known })
        (λ _. t)
