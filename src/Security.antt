-- ===== src/Security.antt =====
-- peerq/security.py: the limits of the protocol, and the checks and caches below this module.
pub mod Config
pub mod JsonTree
pub mod RateLimiter
pub mod ReplayCache
use peer_q.Prelude.{ℕ, ◌*◌}

abbrev pub protocol_version : ℕ
protocol_version = 2

abbrev pub max_frame_size : ℕ
max_frame_size = 256 * 1024

abbrev pub max_task_payload : ℕ
max_task_payload = 64 * 1024

abbrev pub max_task_result : ℕ
max_task_result = 64 * 1024

abbrev pub max_task_id_length : ℕ
max_task_id_length = 128

abbrev pub max_peer_id_length : ℕ
max_peer_id_length = 128

abbrev pub max_error_length : ℕ
max_error_length = 4 * 1024
