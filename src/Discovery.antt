-- ===== src/Discovery.antt =====
-- `PeerDiscovery` of peerq/discovery.py: beacons, the directory of peers, its expiry, and the node
-- that is bound to it. Times are whole microseconds; `str.isspace` of one character is a parameter.
pub mod Beacons
pub mod Binding
pub mod Directory
pub mod Expiry
use peer_q.Prelude.{
  ℕ, Str, Bytes, Bool, true, false, not, ◌&&◌, ◌||◌, Option, none, some, List, [], ◌∷◌, codes,
  if◌then◌else◌, leb, length, drop, map, select, every, ◌==◌, str_ordered, nat_ordered,
}
use peer_q.Prelude.Int.{ℤ, pos, ltb_ℤ, leb_ℤ, ◌-ℤ◌, int_ordered}
use peer_q.Prelude.Dict.{Dict, has, insert, member, keys}
use peer_q.Json.{Json, int, str, float, finite, obj, Fields, end, field, Codec}
use peer_q.Json.Hex.{hex}
use peer_q.Errors.{Result, ok, err, value_error, decode_error, ◌>>=◌, ◌>>◌, check}
use peer_q.Security.{max_peer_id_length}
use peer_q.Security.Config.{SecurityConfig}
use peer_q.Security.ReplayCache.{ReplayCache}
use peer_q.Crypto.{Ed25519, PeerKeyRing, has_peer, is_empty}
use peer_q.Transport.Message.{Message, verify_signature, from_bytes, to_bytes, signed, is_bounded}
use peer_q.Transport.Freshness.{fresh_message, window}

pub record DiscoveredPeer : Type 0 where
  pub node_id : Str
  pub host : Str
  pub port : ℕ
  pub cluster_id : Str
  pub last_seen : ℤ

pub record PeerDiscovery : Type 0 where
  pub node_id : Str
  pub tcp_host : Str
  pub tcp_port : ℕ
  pub cluster_id : Str
  pub peer_ttl : ℤ
  pub identity : Bytes
  pub keyring : PeerKeyRing
  pub security : SecurityConfig
  pub replay_cache : ReplayCache
  pub peers : Dict Str DiscoveredPeer

-- `now - peer.last_seen <= self.peer_ttl`
abbrev pub is_active : ℤ → ℤ → DiscoveredPeer → Bool
is_active now ttl peer = leb_ℤ (now -ℤ peer.last_seen) ttl

unfoldable pub get_active_peers : ℤ → PeerDiscovery → Dict Str (Str × ℕ)
get_active_peers now d =
    map (λ e. (e.0, (e.1.host, e.1.port))) (select (λ e. is_active now d.peer_ttl e.1) d.peers)

-- `data.get(key, default)`, and `data[key]` where the default is none.
unfoldable pub get_field : Str → Option Json → Fields → Option Json
get_field key default end = default
get_field key default (field k v rest) = if k == key then some v else get_field key default rest

-- What a beacon says of its sender.
pub record Beacon : Type 0 where
  pub node_id : Str
  pub host : Str
  pub port : ℕ
  pub cluster_id : Str

-- The guards of the loop, each of which skips the datagram: which exception stands for it is no
-- matter.
abbrev pub text_of : Option Json → Result Str
text_of (some (str s)) = ok s
text_of _ = err value_error

-- An int from 1 to 65535 that is no bool.
abbrev pub port_of : Option Json → Result ℕ
port_of (some (int (pos n))) = do check (leb 1 n && leb n 65535) value_error; ok n
port_of _ = err value_error

-- An address that names no host is replaced by the one that the datagram came from.
abbrev pub seen_host : Str → Str → Str
seen_host sender_addr host =
    if (host == codes "0.0.0.0" || host == codes "::") && not (is_empty sender_addr)
    then sender_addr
    else host

module _ (isspace : ℕ → Bool) where
  -- NUL, slash and backslash are no parts of a host.
  abbrev pub is_host_char : ℕ → Bool
  is_host_char ch = not (isspace ch || (ch == 0 || (ch == 47 || ch == 92)))

  abbrev pub is_host : Str → Bool
  is_host host = not (is_empty host) && every is_host_char host

  -- The fields of a beacon, behind its authentication.
  unfoldable pub read_beacon : Str → Str → Fields → Result Beacon
  read_beacon sender_addr remote_id fields = do
    check (is_bounded max_peer_id_length remote_id) value_error
    host ← text_of (get_field (codes "host") none fields)
    check (is_bounded 253 host) value_error
    check (is_host (seen_host sender_addr host)) value_error
    port ← port_of (get_field (codes "port") none fields)
    cluster_id ← text_of (get_field (codes "cluster_id") (some (str [])) fields)
    check (leb (length cluster_id) 128) value_error
    ok (record {
      node_id = remote_id;
      host = seen_host sender_addr host;
      port = port;
      cluster_id = cluster_id;
    })

-- What the loop reads out of a datagram, and the cache of nonces behind it.
pub record Heard : Type 0 where
  pub beacon : Result Beacon
  pub seen : ReplayCache

module _ (ed : Ed25519) (codec : Codec) (isspace : ℕ → Bool) where
  abbrev pub is_announcement : Message → PeerDiscovery → Bool
  is_announcement m d =
      m.msg_type == codes "discovery"
      && (m.protocol_version == d.security.protocol_version
          && verify_signature ed codec m d.keyring)

  -- `data.get("node_id") != remote_id`
  unfoldable pub own_beacon : Str → Message → Result Beacon
  own_beacon sender_addr m = do
    node_id ← text_of (get_field (codes "node_id") none m.payload)
    check (node_id == m.sender_id) value_error
    read_beacon isspace sender_addr m.sender_id m.payload

  abbrev pub fresh_beacon : Str → Message → Bool × ReplayCache → Heard
  fresh_beacon sender_addr m (true, seen) = record {
    beacon = own_beacon sender_addr m;
    seen = seen;
  }
  fresh_beacon sender_addr m (false, seen) = record { beacon = err value_error; seen = seen }

  -- A signed beacon: the signature comes before the nonce, the nonce before the fields.
  abbrev pub hear_message : ℤ → Str → PeerDiscovery → Result Message → Heard
  hear_message wall sender_addr d (err e) = record { beacon = err e; seen = d.replay_cache }
  hear_message wall sender_addr d (ok m) =
      if is_announcement m d
      then fresh_beacon sender_addr m
          (fresh_message m.sender_id wall (window d.security) m.timestamp m.nonce d.replay_cache)
      else record { beacon = err value_error; seen = d.replay_cache }

  -- `json.loads(raw_data.decode("utf-8"))`, without security.
  abbrev pub plain_beacon : Str → Option Json → Result Beacon
  plain_beacon sender_addr (some (obj fields)) = do
    remote_id ← text_of (get_field (codes "node_id") none fields)
    read_beacon isspace sender_addr remote_id fields
  plain_beacon sender_addr _ = err value_error

  unfoldable pub hear : ℤ → Str → Bytes → PeerDiscovery → Heard
  hear wall sender_addr raw d =
      if ltb_ℤ d.security.max_udp_payload (pos (length raw))
      then record { beacon = err decode_error; seen = d.replay_cache }
      else if d.security.enabled
      then hear_message wall sender_addr d (from_bytes codec d.security raw)
      else record { beacon = plain_beacon sender_addr (codec.loads raw); seen = d.replay_cache }

  -- The own beacon, a foreign cluster, a peer that is not in the ring, and a new one where the
  -- directory is full are ignored.
  unfoldable pub is_welcome : Beacon → PeerDiscovery → Bool
  is_welcome b d =
      not (b.node_id == d.node_id || not (b.cluster_id == d.cluster_id))
      && (not (d.security.enabled && not (has_peer ed d.keyring b.node_id))
          && (has b.node_id d.peers || ltb_ℤ (pos (length d.peers)) d.security.max_peers))

  abbrev pub peer_at : ℤ → Beacon → DiscoveredPeer
  peer_at now b = record {
    node_id = b.node_id;
    host = b.host;
    port = b.port;
    cluster_id = b.cluster_id;
    last_seen = now;
  }

  -- The directory, and the peer that `on_peer_discovered` is called with.
  unfoldable pub announce :
      ℤ → PeerDiscovery → Result Beacon → PeerDiscovery × Option DiscoveredPeer
  announce now d (err e) = (d, none)
  announce now d (ok b) =
      if is_welcome b d
      then (
        record d { peers = insert b.node_id (peer_at now b) d.peers },
        if has b.node_id d.peers then none else some (peer_at now b),
      )
      else (d, none)

  -- One round of `_listen_loop` on a datagram: the wall clock is for the beacon's age, the other
  -- for the directory.
  unfoldable pub listen :
      ℤ → ℤ → Str → Bytes → PeerDiscovery → PeerDiscovery × Option DiscoveredPeer
  listen wall now sender_addr raw d =
      let heard = hear wall sender_addr raw d in
      announce now (record d { replay_cache = heard.seen }) heard.beacon

module _ (ed : Ed25519) (codec : Codec) where
  abbrev pub beacon_message : PeerDiscovery → Message
  beacon_message d = record {
    msg_type = codes "discovery";
    sender_id = d.node_id;
    payload = field (codes "cluster_id") (str d.cluster_id) (
        field (codes "host") (str d.tcp_host) (
          field (codes "node_id") (str d.node_id) (
            field (codes "port") (int (pos d.tcp_port))
              (field (codes "public_key") (str (hex (ed.public_key d.identity))) end))));
    timestamp = none;
    nonce = none;
    signature = none;
    protocol_version = d.security.protocol_version;
  }

  abbrev pub plain_fields : ℤ → PeerDiscovery → Fields
  plain_fields now d = field (codes "cluster_id") (str d.cluster_id) (
      field (codes "host") (str d.tcp_host) (
        field (codes "node_id") (str d.node_id) (
          field (codes "port") (int (pos d.tcp_port))
            (field (codes "ts") (float (finite now)) end))))

  abbrev pub signed_beacon : ℤ → Str → PeerDiscovery → Result Bytes
  signed_beacon wall nonce d = do
    m ← signed ed codec d.identity wall nonce (beacon_message d)
    frame ← to_bytes codec d.security.max_udp_payload m
    ok (drop 4 frame)

  -- `_encode_beacon`
  unfoldable pub encode_beacon : ℤ → ℤ → Str → PeerDiscovery → Result Bytes
  encode_beacon wall now nonce d =
      if d.security.enabled
      then signed_beacon wall nonce d
      else ok (codec.dumps (obj (plain_fields now d)))

-- One round of `_ttl_loop`: the peers that stay, and those that `on_peer_lost` is called with.
unfoldable pub expire_peers : ℤ → PeerDiscovery → PeerDiscovery × List Str
expire_peers now d = (
  record d { peers = select (λ e. is_active now d.peer_ttl e.1) d.peers },
  keys (select (λ e. not (is_active now d.peer_ttl e.1)) d.peers),
)
