-- ===== src/Cli/Keys.antt =====
-- A node that `run_node_command` of peerq/cli.py starts in secure mode.
use peer_q.Prelude.{
  ◌≡◌, subst, Str, Bytes, Bool, true, false, not, ◌&&◌, ◌||◌, Option, some, [], ◌∷◌, arith, length,
  leb, Option-cases, inl, inr, ==_iff, ==_self, str_ordered,
}
use peer_q.Prelude.Dict.{lookup, has, insert, keys, lookup-insert, has-lookup-none}
use peer_q.Errors.{ok, value_error, ◌>>=◌, >>=-inverse, ok-injective, check-inverse}
use peer_q.Crypto.{Ed25519, PeerKeyRing, wrapper, add_peer, parse_key, has_peer, is_empty}
use peer_q.Security.{max_peer_id_length}
use peer_q.Transport.Http.{Text}
use peer_q.Cli.{
  Addresses, Startup, start_node, status_check, parse_peer_addresses, parse_peer_keys, has_keys,
}

module _ (ed : Ed25519) where
  has_keys-has :
      (ring : PeerKeyRing) (addresses : Addresses) (p : Str)
      → has_keys ed ring (keys addresses) ≡ true
      → has p addresses ≡ true
      → has_peer ed ring p ≡ true
  unfolding has_keys has
  has_keys-has ring [] p h k = ground arith
  has_keys-has ring ((q, a) ∷ rest) p h k =
      ground (arith, h, k, ==_iff q p, has_keys-has ring rest p)

  -- A wrapper goes into the ring as it is.
  add_peer-wrapper :
      (ring new : PeerKeyRing) (p : Str) (key : Bytes)
      → add_peer ed ring p (wrapper key) ≡ ok new
      → lookup p new ≡ some key
  unfolding add_peer parse_key
  add_peer-wrapper ring new p key h =
      let (_, made) =
        check-inverse (not (is_empty p) && leb (length p) max_peer_id_length) value_error
          (ok key >>= λ k. ok (insert p k ring)) h in
      subst (λ r. lookup p r ≡ some key) (ok-injective made)
        (ground (arith, lookup-insert p p key ring, ==_self p))

  -- A node whose ring has its own key, and a key for each static peer.
  pub record IsSecured (node_id : Str) (public_key : Bytes) (s : Startup) : Type 0 where
    pub own : lookup node_id s.keyring ≡ some public_key
    pub peers :
        (p : Str) → has p s.peer_addresses ≡ true → (key : Bytes) × (lookup p s.keyring ≡ some key)

  has_peer-key :
      (ring : PeerKeyRing) (p : Str)
      → has_peer ed ring p ≡ true
      → (key : Bytes) × (lookup p ring ≡ some key)
  unfolding has_peer
  has_peer-key ring p h = elim (Option-cases (lookup p ring)) [
    | inl n ↦ ground (arith, h, has-lookup-none p ring n)
    | inr found ↦ found
  ]

  -- Where `run_node_command` starts a node in secure mode, the ring has the node's own key under its
  -- id, and a key for every static peer: whatever the options were, a peer without a key stops the
  -- start.
  pub start_node-IsSecured :
      (txt : Text) (node_id : Str) (public_key : Bytes) (status_loopback : Option Bool)
      (status_token : Option Str) (peers_str peer_keys_str : Str) (s : Startup)
      → start_node txt ed node_id public_key false status_loopback status_token peers_str
          peer_keys_str
        ≡ ok s
      → IsSecured node_id public_key s
  unfolding start_node
  start_node-IsSecured txt node_id public_key loopback token peers_str peer_keys_str s h =
      let (_, _, h1) = >>=-inverse (status_check loopback token) _ h in
      let (addresses, _, h2) = >>=-inverse (parse_peer_addresses txt peers_str) _ h1 in
      let (known, _, h3) = >>=-inverse (parse_peer_keys txt ed peer_keys_str) _ h2 in
      let (ring, added, h4) = >>=-inverse (add_peer ed known node_id (wrapper public_key)) _ h3 in
      let (covered, built) =
        check-inverse (false || has_keys ed ring (keys addresses)) value_error _ h4 in
      subst (IsSecured node_id public_key) (ok-injective built) (record {
        own = add_peer-wrapper known ring node_id public_key added;
        peers = λ p k. has_peer-key ring p (has_keys-has ring addresses p covered k);
      })
