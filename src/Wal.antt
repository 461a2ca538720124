-- ===== src/Wal.antt =====
-- `WriteAheadLog` of peerq/wal.py over the bytes of its file. The checksum of zlib and the JSON
-- codec are parameters. Flushing and fsync move no bytes of this model.
pub mod Recovery
pub mod Torn
pub mod Total
use peer_q.Prelude.{
  ℕ, zero, suc, ◌+◌, ◌*◌, ◌/◌, ◌%◌, ◌^◌, Str, Bytes, Bool, true, false, not, ◌&&◌, ◌||◌, Option,
  none, some, List, [], ◌∷◌, ◌++◌, if◌then◌else◌, ltb, leb, length, take, drop, ◌==◌, nat_ordered,
  str_ordered, codes,
}
use peer_q.Prelude.Dict.{Dict}
use peer_q.Json.{Json, null, bool, int, float, str, arr, obj, Fields, end, field, Codec}
use peer_q.Errors.{
  Error, Result, ok, err, wal_error, wal_corrupt, struct_error, value_error, ◌>>=◌, ◌>>◌, check,
}
use peer_q.Security.JsonTree.{Limits, is_valid_tree}
use peer_q.Consensus.Clock.{VectorClock}
use peer_q.Consensus.Record.{TaskRecord}
use peer_q.Consensus.Wire
use peer_q.Consensus.Wire.{clock_fields}

-- b"PQWL\x01\x00\x00\x00"
abbrev pub wal_magic : Bytes
wal_magic = 80 ∷ 81 ∷ 87 ∷ 76 ∷ 1 ∷ 0 ∷ 0 ∷ 0 ∷ []

abbrev pub record_task : ℕ
record_task = 1

abbrev pub record_clock : ℕ
record_clock = 2

abbrev pub record_checkpoint : ℕ
record_checkpoint = 3

abbrev pub is_known_type : ℕ → Bool
is_known_type t = t == record_task || (t == record_clock || t == record_checkpoint)

pub record WalRecord : Type 0 where
  pub offset : ℕ
  pub record_type : ℕ
  pub payload : Fields

-- The file at `path`, `none` where it does not exist, and whether `_file` is open.
pub record Wal : Type 0 where
  pub content : Option Bytes
  pub is_open : Bool
  pub max_record_bytes : ℕ

-- What `replay` yields, and the exception that ends it.
pub record Replay : Type 0 where
  pub records : List WalRecord
  pub error : Option Error

-- A big-endian uint32 of `struct.pack(">IIB", …)`.
abbrev pub u32 : ℕ → Bytes
u32 n = (n / 16777216) ∷ (n / 65536 % 256) ∷ (n / 256 % 256) ∷ (n % 256) ∷ []

unfoldable pub from_u32 : ℕ → ℕ → ℕ → ℕ → ℕ
from_u32 a b c d = a * 16777216 + b * 65536 + c * 256 + d

abbrev pub wal_limits : ℕ → Limits
wal_limits max_record_bytes = record {
  max_depth = 16;
  max_items = 10000;
  max_string_length = max_record_bytes;
}

-- `hdr[:4] == b"PQWL"` and version 1.
unfoldable pub has_magic : Bytes → Bool
has_magic hdr = take 4 hdr == 80 ∷ 81 ∷ 87 ∷ 76 ∷ [] && take 1 (drop 4 hdr) == 1 ∷ []

-- `_open` with `_verify_header`: a missing or empty file gets the header.
unfoldable pub open_content : Option Bytes → Result Bytes
open_content none = ok wal_magic
open_content (some []) = ok wal_magic
open_content (some (b ∷ bs)) = do
  check (leb 8 (length (b ∷ bs)) && has_magic (b ∷ bs)) wal_corrupt
  ok (b ∷ bs)

-- `WriteAheadLog(path, max_record_bytes=…)`
unfoldable pub open_wal : Option Bytes → ℕ → Result Wal
open_wal content max_record_bytes = do
  check (ltb 0 max_record_bytes) value_error
  bytes ← open_content content
  ok (record { content = some bytes; is_open = true; max_record_bytes = max_record_bytes })

-- The payload of a checkpoint.
unfoldable pub tasks_fields : Dict Str TaskRecord → Fields
tasks_fields [] = end
tasks_fields ((k, r) ∷ tasks) = field k (obj (Wire.to_dict r)) (tasks_fields tasks)

unfoldable pub checkpoint_payload : Dict Str TaskRecord → VectorClock → Json
checkpoint_payload tasks clock = obj (
    field (codes "tasks") (obj (tasks_fields tasks))
      (field (codes "vector_clock") (obj (clock_fields clock.clock)) end))

-- The payload of one frame, behind its header: nothing to read on, a bad log, or a record.
pub data Frame : Type 0 where
  torn corrupt : Frame
  good : Fields → Frame

abbrev pub decode : ℕ → Option Json → Frame
decode max_record_bytes (some (obj fs)) =
    if is_valid_tree (wal_limits max_record_bytes) (obj fs) then good fs else corrupt
decode max_record_bytes _ = corrupt

-- A torn tail ends the replay, and raises where it is strict.
abbrev pub at_tail : Bool → Replay
at_tail strict = record { records = []; error = if strict then some wal_corrupt else none }

abbrev pub then_replay : WalRecord → Option Replay → Option Replay
then_replay r none = none
then_replay r (some rest) = some (record rest { records = r ∷ rest.records })

abbrev pub bytes_of : Option Bytes → Bytes
bytes_of none = []
bytes_of (some b) = b

module _ (crc32 : Bytes → ℕ) (codec : Codec) where
  -- `zlib.crc32(bytes([record_type]) + payload_bytes) & 0xFFFFFFFF`
  abbrev pub checksum : ℕ → Bytes → ℕ
  checksum record_type payload = crc32 (record_type ∷ payload) % 2 ^ 32

  -- Header and payload of a record.
  unfoldable pub frame : ℕ → Bytes → Bytes
  frame record_type payload =
      u32 (length payload) ++ (u32 (checksum record_type payload) ++ record_type ∷ payload)

  -- The bytes that `append` and `checkpoint` write for a payload, with their common checks.
  unfoldable pub encode : ℕ → ℕ → Json → Result Bytes
  encode max_record_bytes record_type payload = do
    check (is_valid_tree (wal_limits max_record_bytes) payload) wal_error
    check (leb (length (codec.dumps payload)) max_record_bytes) wal_error
    check (ltb (length (codec.dumps payload)) (2 ^ 32)) struct_error
    ok (frame record_type (codec.dumps payload))

  -- The offset of the new record, and the log behind it.
  unfoldable pub append : Wal → ℕ → Json → Result (ℕ × Wal)
  append w record_type payload = do
    check w.is_open wal_error
    check (is_known_type record_type) wal_error
    bytes ← encode w.max_record_bytes record_type payload
    ok (length (bytes_of w.content), record w { content = some (bytes_of w.content ++ bytes) })

  unfoldable pub append_task : Wal → TaskRecord → Result (ℕ × Wal)
  append_task w r = append w record_task (obj (Wire.to_dict r))

  unfoldable pub append_clock : Wal → VectorClock → Result (ℕ × Wal)
  append_clock w c = append w record_clock (obj (clock_fields c.clock))

  -- The new file replaces the old one at once, and is opened.
  unfoldable pub checkpoint : Wal → Dict Str TaskRecord → VectorClock → Result Wal
  checkpoint w tasks clock = do
    bytes ← encode w.max_record_bytes record_checkpoint (checkpoint_payload tasks clock)
    ok (record w { content = some (wal_magic ++ bytes); is_open = true })

  unfoldable pub read_frame : ℕ → ℕ → ℕ → ℕ → Bytes → Frame
  read_frame max_record_bytes size expected_crc record_type rest =
      if not (is_known_type record_type)
      then corrupt
      else if ltb max_record_bytes size
      then corrupt
      else if ltb (length rest) size
      then torn
      else if not (checksum record_type (take size rest) == expected_crc)
      then corrupt
      else decode max_record_bytes (codec.loads (take size rest))

  -- The loop of `replay` on the bytes behind `offset`, on fuel.
  unfoldable pub scan : ℕ → Bool → ℕ → ℕ → Bytes → Option Replay
  scan zero strict max_record_bytes offset bytes = none
  scan (suc fuel) strict max_record_bytes offset [] = some (record { records = []; error = none })
  scan (suc fuel) strict max_record_bytes offset
        (a ∷ b ∷ c ∷ d ∷ e ∷ f ∷ g ∷ h ∷ record_type ∷ rest) =
      let size = from_u32 a b c d in
      elim (read_frame max_record_bytes size (from_u32 e f g h) record_type rest) [
        | torn ↦ some (at_tail strict)
        | corrupt ↦ some (record { records = []; error = some wal_corrupt })
        | good payload ↦
            then_replay (record { offset = offset; record_type = record_type; payload = payload })
              (scan fuel strict max_record_bytes (offset + (9 + size)) (drop size rest))
      ]
  scan (suc fuel) strict max_record_bytes offset _ = some (at_tail strict)

  unfoldable pub replay_content : Bool → ℕ → Option Bytes → Option Replay
  replay_content strict max_record_bytes none = some (record { records = []; error = none })
  replay_content strict max_record_bytes (some bytes) =
      if ltb (length bytes) 8
      then some (at_tail strict)
      else if not (has_magic bytes)
      then some (record { records = []; error = some wal_corrupt })
      else scan (suc (length bytes)) strict max_record_bytes 8 (drop 8 bytes)

  unfoldable pub replay : Bool → Wal → Option Replay
  replay strict w = replay_content strict w.max_record_bytes w.content

  -- `close`
  abbrev pub close : Wal → Wal
  close w = record w { is_open = false }
