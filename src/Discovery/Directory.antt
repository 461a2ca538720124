-- ===== src/Discovery/Directory.antt =====
-- The directory of peerq/discovery.py: what `_listen_loop` lets in, whatever datagrams arrive.
use peer_q.Prelude.{
  ℕ, ◌≤◌, ◌≡◌, refl, sym, subst, ◌∙◌, Str, Bytes, Bool, true, false, Option, some, arith, if_cases,
  if_split, length, All, ◌==◌, str_ordered, inl, inr,
}
use peer_q.Prelude.Int.{ℤ, pos, ◌≤ℤ◌}
use peer_q.Prelude.Dict.{has, length-insert, All-insert}
use peer_q.Json.{Codec}
use peer_q.Errors.{Result, ok, err}
use peer_q.Crypto.{Ed25519, has_peer, PeerKeyRing}
use peer_q.Transport.Message.{Message, verify_signature, from_bytes}
use peer_q.Discovery.Beacons.{IsBeacon, IsAnnounced, hear-IsBeacon}
use peer_q.Discovery.{
  DiscoveredPeer, PeerDiscovery, Beacon, Heard, hear, is_welcome, peer_at, announce, listen,
}

module _ (ed : Ed25519) (codec : Codec) (isspace : ℕ → Bool) where
  -- An entry of the directory: another peer of the cluster, with a port, in the ring where security
  -- is enabled.
  pub record IsEntry (home cluster_id : Str) (enabled : Bool) (ring : PeerKeyRing)
      (e : Str × DiscoveredPeer) : Type 0 where
    pub key : e.1.node_id ≡ e.0
    pub other : (e.0 == home) ≡ false
    pub cluster : (e.1.cluster_id == cluster_id) ≡ true
    pub port_low : 1 ≤ e.1.port
    pub port_high : e.1.port ≤ 65535
    pub known : enabled ≡ true → has_peer ed ring e.0 ≡ true

  abbrev pub EntryOf : PeerDiscovery → Str × DiscoveredPeer → Type 0
  EntryOf d = IsEntry d.node_id d.cluster_id d.security.enabled d.keyring

  pub record IsDirectory (d : PeerDiscovery) : Type 0 where
    pub entries : All (EntryOf d) d.peers
    pub size : pos (length d.peers) ≤ℤ d.security.max_peers

  welcome-IsEntry :
      (now : ℤ) (d : PeerDiscovery) (b : Beacon)
      → is_welcome ed codec isspace b d ≡ true
      → IsBeacon ed codec isspace b
      → EntryOf d (b.node_id, peer_at ed codec isspace now b)
  unfolding is_welcome
  welcome-IsEntry now d b h g = record {
    key = refl;
    other = ground (arith, h);
    cluster = ground (arith, h);
    port_low = g.port_low;
    port_high = g.port_high;
    known = λ on. ground (arith, h, on);
  }

  announce-IsDirectory :
      (now : ℤ) (d : PeerDiscovery) (r : Result Beacon)
      → ((b : Beacon) → r ≡ ok b → IsBeacon ed codec isspace b)
      → IsDirectory d
      → IsDirectory (announce ed codec isspace now d r).0
  unfolding announce is_welcome
  announce-IsDirectory now d (err e) good h = h
  announce-IsDirectory now d (ok b) good h =
      if_cases (λ (x : PeerDiscovery × Option DiscoveredPeer). IsDirectory x.0)
        (is_welcome ed codec isspace b d)
        (λ welcome. record {
          entries =
              All-insert (EntryOf d) b.node_id (peer_at ed codec isspace now b) d.peers
                (welcome-IsEntry now d b welcome (good b refl)) h.entries;
          size = ground (
            arith,
            welcome,
            h.size,
            length-insert b.node_id (peer_at ed codec isspace now b) d.peers,
          );
        })
        (λ _. h)

  -- Whatever datagrams arrive, the directory stays within its limit, and holds other peers of the
  -- own cluster only, with ports from 1 to 65535, in the ring where security is enabled.
  pub listen-IsDirectory :
      (wall now : ℤ) (sender_addr : Str) (raw : Bytes) (d : PeerDiscovery)
      → IsDirectory d
      → IsDirectory (listen ed codec isspace wall now sender_addr raw d).0
  unfolding listen
  listen-IsDirectory wall now sender_addr raw d h =
      let heard : Heard = hear ed codec isspace wall sender_addr raw d in
      announce-IsDirectory now (record d { replay_cache = heard.seen }) heard.beacon
        (λ b e. (hear-IsBeacon ed codec isspace wall sender_addr raw d b e).0)
        (record { entries = h.entries; size = h.size })

  announce-new :
      (now : ℤ) (d : PeerDiscovery) (r : Result Beacon) (peer : DiscoveredPeer)
      → (announce ed codec isspace now d r).1 ≡ some peer
      → (b : Beacon) × (r ≡ ok b)
        × (peer.node_id ≡ b.node_id)
        × (is_welcome ed codec isspace b d ≡ true)
  unfolding announce
  announce-new now d (err e) peer h = ground arith
  announce-new now d (ok b) peer h =
      elim (if_split (λ (x : PeerDiscovery × Option DiscoveredPeer). x.1 ≡ some peer)
        (is_welcome ed codec isspace b d) h) [
          | inl (welcome, h1) ↦
              elim (if_split (λ (x : Option DiscoveredPeer). x ≡ some peer) (has b.node_id d.peers)
                h1) [
                  | inl (_, h2) ↦ ground (arith, h2)
                  | inr (_, h2) ↦ (b, refl, ground (arith, h2), welcome)
                ]
          | inr (_, h1) ↦ ground (arith, h1)
        ]

  -- Where security is enabled, a peer is announced to the node only by a datagram that decodes to
  -- a message of that peer whose signature verifies under the ring, and the ring has the peer.
  pub listen-IsAnnounced :
      (wall now : ℤ) (sender_addr : Str) (raw : Bytes) (d : PeerDiscovery) (peer : DiscoveredPeer)
      → d.security.enabled ≡ true
      → (listen ed codec isspace wall now sender_addr raw d).1 ≡ some peer
      → (m : Message) × (from_bytes codec d.security raw ≡ ok m)
        × (verify_signature ed codec m d.keyring ≡ true)
        × (m.sender_id ≡ peer.node_id)
        × (has_peer ed d.keyring peer.node_id ≡ true)
  unfolding listen is_welcome
  listen-IsAnnounced wall now sender_addr raw d peer on h =
      let heard : Heard = hear ed codec isspace wall sender_addr raw d in
      let (b, e, same, welcome) =
        announce-new now (record d { replay_cache = heard.seen }) heard.beacon peer h in
      let from : IsAnnounced ed codec isspace d raw b =
        (hear-IsBeacon ed codec isspace wall sender_addr raw d b e).1 on in
      (
        from.message,
        from.decoded,
        from.verified,
        sym (same ∙ from.sender_id),
        subst (λ s. has_peer ed d.keyring s ≡ true) (sym same) (ground (arith, welcome, on)),
      )
