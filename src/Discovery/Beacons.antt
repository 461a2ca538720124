-- ===== src/Discovery/Beacons.antt =====
-- The guards of `_listen_loop` of peerq/discovery.py: what a datagram that passes them is.
use peer_q.Prelude.{
  ℕ, ◌≤◌, ◌≡◌, refl, subst, Str, Bytes, Bool, true, false, ◌&&◌, Option, none, some, [], arith,
  if_split, and_split, leb, length, ◌==◌, str_ordered, inl, inr, codes,
}
use peer_q.Prelude.Int.{ℤ, pos, ltb_ℤ}
use peer_q.Json.{Json, int, str, obj, Fields, Codec}
use peer_q.Errors.{Result, ok, err, value_error, >>=-inverse, ok-injective, check-inverse}
use peer_q.Security.{max_peer_id_length}
use peer_q.Security.ReplayCache.{ReplayCache}
use peer_q.Crypto.{Ed25519}
use peer_q.Transport.Message.{Message, verify_signature, from_bytes, is_bounded}
use peer_q.Discovery.{
  PeerDiscovery, Beacon, Heard, text_of, port_of, get_field, seen_host, is_host, read_beacon,
  is_announcement, own_beacon, fresh_beacon, hear_message, plain_beacon, hear,
}

module _ (ed : Ed25519) (codec : Codec) (isspace : ℕ → Bool) where
  -- What every beacon that passes the guards has.
  pub record IsBeacon (b : Beacon) : Type 0 where
    pub node_id : is_bounded max_peer_id_length b.node_id ≡ true
    pub host : is_host isspace b.host ≡ true
    pub port_low : 1 ≤ b.port
    pub port_high : b.port ≤ 65535

  port_of-range : (o : Option Json) (n : ℕ) → port_of o ≡ ok n → (1 ≤ n) × (n ≤ 65535)
  port_of-range (some (int (pos k))) n h =
      let (range, same) = check-inverse (leb 1 k && leb k 65535) value_error (ok k) h in
      ground (arith, range, same)
  port_of-range _ n h = ground (arith, h)

  read_beacon-IsBeacon :
      (sender_addr remote_id : Str) (fields : Fields) (b : Beacon)
      → read_beacon isspace sender_addr remote_id fields ≡ ok b
      → IsBeacon b × (b.node_id ≡ remote_id)
  unfolding read_beacon
  read_beacon-IsBeacon sender_addr remote_id fields b h =
      let (named, h1) = check-inverse (is_bounded max_peer_id_length remote_id) value_error _ h in
      let (host, _, h2) = >>=-inverse (text_of (get_field (codes "host") none fields)) _ h1 in
      let (_, h3) = check-inverse (is_bounded 253 host) value_error _ h2 in
      let (clean, h4) =
        check-inverse (is_host isspace (seen_host sender_addr host)) value_error _ h3 in
      let (port, ranged, h5) = >>=-inverse (port_of (get_field (codes "port") none fields)) _ h4 in
      let (cluster, _, h6) =
        >>=-inverse (text_of (get_field (codes "cluster_id") (some (str [])) fields)) _ h5 in
      let (_, h7) = check-inverse (leb (length cluster) 128) value_error _ h6 in
      let built : Beacon = record {
        node_id = remote_id;
        host = seen_host sender_addr host;
        port = port;
        cluster_id = cluster;
      } in
      let same : built ≡ b = ok-injective h7 in
      let range = port_of-range (get_field (codes "port") none fields) port ranged in
      subst (λ x. IsBeacon x × (x.node_id ≡ remote_id)) same
        (record { node_id = named; host = clean; port_low = range.0; port_high = range.1 }, refl)

  -- Where a datagram came from, as far as the loop can know: the message that it holds.
  pub record IsAnnounced (d : PeerDiscovery) (raw : Bytes) (b : Beacon) : Type 0 where
    pub message : Message
    pub decoded : from_bytes codec d.security raw ≡ ok message
    pub verified : verify_signature ed codec message d.keyring ≡ true
    pub sender_id : b.node_id ≡ message.sender_id

  own_beacon-IsBeacon :
      (sender_addr : Str) (m : Message) (b : Beacon)
      → own_beacon ed codec isspace sender_addr m ≡ ok b
      → IsBeacon b × (b.node_id ≡ m.sender_id)
  unfolding own_beacon
  own_beacon-IsBeacon sender_addr m b h =
      let (node_id, _, h1) =
        >>=-inverse (text_of (get_field (codes "node_id") none m.payload)) _ h in
      let (_, h2) = check-inverse (node_id == m.sender_id) value_error _ h1 in
      read_beacon-IsBeacon sender_addr m.sender_id m.payload b h2

  fresh_beacon-ok :
      (sender_addr : Str) (m : Message) (r : Bool × ReplayCache) (b : Beacon)
      → (fresh_beacon ed codec isspace sender_addr m r).beacon ≡ ok b
      → own_beacon ed codec isspace sender_addr m ≡ ok b
  fresh_beacon-ok sender_addr m (true, seen) b h = h
  fresh_beacon-ok sender_addr m (false, seen) b h = ground arith

  hear_message-IsAnnounced :
      (wall : ℤ) (sender_addr : Str) (raw : Bytes) (d : PeerDiscovery) (r : Result Message)
      (b : Beacon)
      → from_bytes codec d.security raw ≡ r
      → (hear_message ed codec isspace wall sender_addr d r).beacon ≡ ok b
      → IsBeacon b × IsAnnounced d raw b
  hear_message-IsAnnounced wall sender_addr raw d (err e) b f h = ground arith
  hear_message-IsAnnounced wall sender_addr raw d (ok m) b f h =
      elim (if_split (λ (x : Heard). x.beacon ≡ ok b) (is_announcement ed codec isspace m d) h) [
        | inl (signed, h1) ↦
            let (_, versioned) = and_split _ _ signed in
            let (_, verified) = and_split _ _ versioned in
            let (good, same) =
              own_beacon-IsBeacon sender_addr m b (fresh_beacon-ok sender_addr m _ b h1) in
            (good, record { message = m; decoded = f; verified = verified; sender_id = same })
        | inr (_, h1) ↦ ground (arith, h1)
      ]

  plain_beacon-IsBeacon :
      (sender_addr : Str) (o : Option Json) (b : Beacon)
      → plain_beacon ed codec isspace sender_addr o ≡ ok b
      → IsBeacon b
  plain_beacon-IsBeacon sender_addr (some (obj fields)) b h =
      let (remote_id, _, h1) =
        >>=-inverse (text_of (get_field (codes "node_id") none fields)) _ h in
      (read_beacon-IsBeacon sender_addr remote_id fields b h1).0
  plain_beacon-IsBeacon sender_addr _ b h = ground (arith, h)

  -- Every beacon that is heard is within its limits, and signed where security is enabled.
  pub hear-IsBeacon :
      (wall : ℤ) (sender_addr : Str) (raw : Bytes) (d : PeerDiscovery) (b : Beacon)
      → (hear ed codec isspace wall sender_addr raw d).beacon ≡ ok b
      → IsBeacon b × (d.security.enabled ≡ true → IsAnnounced d raw b)
  unfolding hear
  hear-IsBeacon wall sender_addr raw d b h =
      elim (if_split (λ (x : Heard). x.beacon ≡ ok b)
        (ltb_ℤ d.security.max_udp_payload (pos (length raw))) h) [
          | inl (_, h1) ↦ ground (arith, h1)
          | inr (_, h1) ↦ elim (if_split (λ (x : Heard). x.beacon ≡ ok b) d.security.enabled h1) [
            | inl (on, h2) ↦
                let (good, from) =
                  hear_message-IsAnnounced wall sender_addr raw d (from_bytes codec d.security raw)
                    b refl h2 in
                (good, λ _. from)
            | inr (off, h2) ↦ (
              plain_beacon-IsBeacon sender_addr (codec.loads raw) b h2,
              λ on. absurd (ground (arith, on, off)),
            )
          ]
        ]
