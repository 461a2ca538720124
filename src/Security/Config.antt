-- ===== src/Security/Config.antt =====
-- `SecurityConfig` of peerq/security.py, with the check of its values. A number of seconds is in
-- whole microseconds, or not finite.
use peer_q.Prelude.{◌≡◌, refl, Bool, true, false, List, [], ◌∷◌, every}
use peer_q.Prelude.Int.{ℤ, pos, ltb_ℤ}
use peer_q.Json.{Float, finite, non_finite}
use peer_q.Errors.{Result, ok, value_error, ◌>>◌, check}

pub record SecurityConfig : Type 0 where
  pub enabled : Bool
  pub protocol_version : ℤ
  pub max_frame_size : ℤ
  pub max_udp_payload : ℤ
  pub max_http_headers : ℤ
  pub max_http_body : ℤ
  pub max_tasks : ℤ
  pub max_peers : ℤ
  pub max_gossip_tasks : ℤ
  pub max_credit_amount : ℤ
  pub max_lease_duration_seconds : Float
  pub replay_cache_size : ℤ
  pub replay_window_seconds : Float
  pub max_connections : ℤ
  pub max_inbox_size : ℤ
  pub read_timeout_seconds : Float
  pub write_timeout_seconds : Float
  pub connect_timeout_seconds : Float
  pub udp_rate_limit : ℤ
  pub udp_rate_window_seconds : Float
  pub max_json_depth : ℤ
  pub max_json_items : ℤ
  pub max_string_length : ℤ

-- `SecurityConfig()`
abbrev pub default_config : SecurityConfig
default_config = record {
  enabled = true;
  protocol_version = pos 2;
  max_frame_size = pos 262144;
  max_udp_payload = pos 4096;
  max_http_headers = pos 8192;
  max_http_body = pos 65536;
  max_tasks = pos 10000;
  max_peers = pos 128;
  max_gossip_tasks = pos 128;
  max_credit_amount = pos 100000;
  max_lease_duration_seconds = finite (pos 3600000000);
  replay_cache_size = pos 4096;
  replay_window_seconds = finite (pos 30000000);
  max_connections = pos 64;
  max_inbox_size = pos 1024;
  read_timeout_seconds = finite (pos 10000000);
  write_timeout_seconds = finite (pos 10000000);
  connect_timeout_seconds = finite (pos 10000000);
  udp_rate_limit = pos 100;
  udp_rate_window_seconds = finite (pos 1000000);
  max_json_depth = pos 16;
  max_json_items = pos 10000;
  max_string_length = pos 262144;
}

abbrev pub is_positive_float : Float → Bool
is_positive_float (finite t) = ltb_ℤ (pos 0) t
is_positive_float non_finite = false

-- The fields that must be positive, in the order of their checks.
abbrev pub positive_ints : SecurityConfig → List ℤ
positive_ints c =
    c.protocol_version ∷ c.max_frame_size ∷ c.max_udp_payload ∷ c.max_http_headers ∷ c.max_http_body
    ∷ c.max_tasks ∷ c.max_peers ∷ c.max_gossip_tasks ∷ c.max_credit_amount ∷ c.replay_cache_size
    ∷ c.max_connections ∷ c.max_inbox_size ∷ c.udp_rate_limit ∷ c.max_json_depth ∷ c.max_json_items
    ∷ c.max_string_length ∷ []

abbrev pub positive_floats : SecurityConfig → List Float
positive_floats c =
    c.replay_window_seconds ∷ c.read_timeout_seconds ∷ c.write_timeout_seconds
    ∷ c.connect_timeout_seconds ∷ c.udp_rate_window_seconds ∷ c.max_lease_duration_seconds ∷ []

-- `__post_init__`: the first field that is out of range raises.
unfoldable pub post_init : SecurityConfig → Result SecurityConfig
post_init c = do
  check (every (λ n. ltb_ℤ (pos 0) n) (positive_ints c)) value_error
  check (every is_positive_float (positive_floats c)) value_error
  ok c

default_config_good : post_init default_config ≡ ok default_config
unfolding post_init every
default_config_good = refl
