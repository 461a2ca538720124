-- ===== src/Discovery/Expiry.antt =====
-- `_ttl_loop` of peerq/discovery.py, beside `get_active_peers`.
use peer_q.Prelude.{
  ℕ, ◌≡◌, ap, Str, Bool, true, arith, map, select_idem, All, All-select, select-All,
  length-select-le,
}
use peer_q.Prelude.Int.{ℤ}
use peer_q.Json.{Codec}
use peer_q.Crypto.{Ed25519}
use peer_q.Discovery.{DiscoveredPeer, PeerDiscovery, is_active, get_active_peers, expire_peers}
use peer_q.Discovery.Directory.{IsDirectory, EntryOf}

module _ (ed : Ed25519) (codec : Codec) (isspace : ℕ → Bool) where
  -- Expiry keeps the directory well formed, changes nothing of the active peers, and leaves none
  -- that is past its time.
  pub expire_peers_lem :
      (now : ℤ) (d : PeerDiscovery)
      → IsDirectory ed codec isspace d
      → IsDirectory ed codec isspace (expire_peers now d).0
        × (get_active_peers now (expire_peers now d).0 ≡ get_active_peers now d)
        × All (λ e. is_active now d.peer_ttl e.1 ≡ true) (expire_peers now d).0.peers
  unfolding expire_peers get_active_peers
  expire_peers_lem now d h =
      let active : Str × DiscoveredPeer → Bool = λ e. is_active now d.peer_ttl e.1 in
      (
        record {
          entries = All-select (EntryOf ed codec isspace d) active d.peers h.entries;
          size = ground (arith, h.size, length-select-le active d.peers);
        },
        ap (map (λ e. (e.0, (e.1.host, e.1.port)))) (select_idem active d.peers),
        select-All active d.peers,
      )
