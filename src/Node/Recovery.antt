-- ===== src/Node/Recovery.antt =====
-- `_recover_from_wal` of peerq/node.py: the table and the clock of a node from the records that the
-- log yields, and the queue behind them.
pub mod Durable
pub mod Crash
use peer_q.Prelude.{
  ℕ, zero, suc, Str, Bytes, Bool, true, false, not, ◌&&◌, ◌||◌, Option, none, some, List, [], ◌∷◌,
  codes, if◌then◌else◌, ltb, leb, length, ◌==◌, str_ordered, nat_ordered,
}
use peer_q.Prelude.Int.{ℤ, pos, negsuc}
use peer_q.Prelude.Dict.{Dict, lookup, has, insert}
use peer_q.Errors.{Error, attribute_error, type_error, Result, ok, err}
use peer_q.Json.{
  Json, null, bool, int, float, str, arr, obj, Items, nil, cons, Fields, end, field, Codec, Float,
  finite, non_finite,
}
use peer_q.Crypto.{Ed25519, verify_task_authorization}
use peer_q.Consensus.Clock
use peer_q.Consensus.Clock.{VectorClock, vector_clock}
use peer_q.Consensus.Record.{TaskRecord}
use peer_q.Consensus.Merge.{merge_records}
use peer_q.Consensus.Wire.{from_dict}
use peer_q.Wal.{WalRecord, record_task, record_clock, record_checkpoint, Replay}
use peer_q.Discovery.{get_field}
use peer_q.Node.{Node, is_caught, merge_ring, enqueue_pending}

-- How a recovery ends: with a node, or with an exception that `start` passes on; or it meets a clock
-- with a float for a counter, which the clocks of the model do not have and no code writes.
pub data Recovered : Type 0 where
  recovered : Node → Recovered
  raised : Error → Node → Recovered
  float_clock : Recovered

abbrev pub continue_with : Recovered → (Node → Recovered) → Recovered
continue_with (recovered n) rest = rest n
continue_with (raised e n) rest = raised e n
continue_with float_clock rest = float_clock

-- What `VectorClock(clock)` makes of a decoded value: counters, an exception, or a float among them.
pub data Counters : Type 0 where
  counters : Dict Str ℕ → Counters
  refused : Error → Counters
  floats : Counters

abbrev pub with_counter : Str → ℕ → Counters → Counters
with_counter k n (counters d) = counters ((k, n) ∷ d)
with_counter k n (refused e) = refused e
with_counter k n floats = floats

abbrev pub with_float : Counters → Counters
with_float (refused e) = refused e
with_float _ = floats

-- `v > 0` for each value: numbers and booleans compare, and only the positive ones stay.
unfoldable pub filter_counters : Fields → Counters
filter_counters end = counters []
filter_counters (field k (int (pos n)) rest) = with_counter k n (filter_counters rest)
filter_counters (field k (int (negsuc n)) rest) = filter_counters rest
filter_counters (field k (bool true) rest) = with_counter k 1 (filter_counters rest)
filter_counters (field k (bool false) rest) = filter_counters rest
filter_counters (field k (float f) rest) = with_float (filter_counters rest)
filter_counters (field k _ rest) = refused type_error

-- `(clock or {}).items()`: what is false counts as no counters, and only an object has items.
unfoldable pub clock_counters : Json → Counters
clock_counters (obj fs) = filter_counters fs
clock_counters null = counters []
clock_counters (bool false) = counters []
clock_counters (int (pos zero)) = counters []
clock_counters (str []) = counters []
clock_counters (arr nil) = counters []
clock_counters (float (finite (pos zero))) = counters []
clock_counters _ = refused attribute_error

module _ (ed : Ed25519) (codec : Codec) where
  abbrev pub merged_clock : Node → Counters → Recovered
  merged_clock n (counters d) =
      recovered (record n { vector_clock = Clock.merge n.vector_clock (vector_clock d) })
  merged_clock n (refused e) = if is_caught ed codec e then recovered n else raised e n
  merged_clock n floats = float_clock

  -- `merge_records` raises nothing but ValueError, which is suppressed.
  abbrev pub restored : Str → Node → Result TaskRecord → Node
  restored task_id n (ok m) = record n { tasks = insert task_id m n.tasks }
  restored task_id n (err e) = n

  abbrev pub settled : Str → TaskRecord → Node → Option TaskRecord → Node
  settled task_id t n none = record n { tasks = insert task_id t n.tasks }
  settled task_id t n (some r) =
      restored task_id n (merge_records ed codec r t (merge_ring ed codec n))

  abbrev pub is_trusted : TaskRecord → Node → Bool
  is_trusted t n = not n.security_enabled || verify_task_authorization ed codec t n.keyring

  abbrev pub has_room : Str → Node → Bool
  has_room task_id n = has task_id n.tasks || ltb (length n.tasks) n.max_tasks

  -- A RECORD_TASK.
  abbrev pub task_restored : Node → Result TaskRecord → Recovered
  task_restored n (err e) = if is_caught ed codec e then recovered n else raised e n
  task_restored n (ok t) =
      if is_trusted t n && has_room t.task_id n
      then recovered (settled t.task_id t n (lookup t.task_id n.tasks))
      else recovered n

  -- An entry of a checkpoint, which is stored under its key.
  abbrev pub snapshot_restored : Str → Node → Result TaskRecord → Recovered
  snapshot_restored task_id n (err e) = if is_caught ed codec e then recovered n else raised e n
  snapshot_restored task_id n (ok t) =
      if is_trusted t n
      then recovered (settled task_id t n (lookup task_id n.tasks))
      else recovered n

  abbrev pub restore_entry : Str → Json → Node → Recovered
  restore_entry task_id raw n =
      if has_room task_id n then snapshot_restored task_id n (from_dict raw) else recovered n

  unfoldable pub restore_entries : Fields → Node → Recovered
  restore_entries end n = recovered n
  restore_entries (field task_id raw rest) n =
      continue_with (restore_entry task_id raw n) (restore_entries rest)

  abbrev pub or_no_fields : Option Json → Json
  or_no_fields none = obj end
  or_no_fields (some j) = j

  -- A RECORD_CHECKPOINT whose tasks are no object is skipped, its clock too.
  abbrev pub checkpoint_restored : Fields → Node → Json → Recovered
  checkpoint_restored payload n (obj tasks) = continue_with (restore_entries tasks n) (λ m.
      merged_clock m
        (clock_counters (or_no_fields (get_field (codes "vector_clock") none payload))))
  checkpoint_restored payload n _ = recovered n

  unfoldable pub recover_record : WalRecord → Node → Recovered
  recover_record rec n =
      if rec.record_type == record_task
      then task_restored n (from_dict (obj rec.payload))
      else if rec.record_type == record_clock
      then merged_clock n (filter_counters rec.payload)
      else if rec.record_type == record_checkpoint
      then checkpoint_restored rec.payload n
          (or_no_fields (get_field (codes "tasks") none rec.payload))
      else recovered n

  unfoldable pub recover_records : List WalRecord → Node → Recovered
  recover_records [] n = recovered n
  recover_records (rec ∷ rest) n = continue_with (recover_record rec n) (recover_records rest)

  -- The pending tasks of the table go into the queue again, if there is room.
  unfoldable pub requeue : Bool → Dict Str TaskRecord → Node → Node
  requeue locked [] n = n
  requeue locked ((task_id, t) ∷ rest) n =
      requeue locked rest (enqueue_pending ed codec locked task_id (pos 0) t n)

  abbrev pub ended : Bool → Option Error → Node → Recovered
  ended locked none n = recovered (requeue locked n.tasks n)
  ended locked (some e) n = raised e n

  -- `_recover_from_wal` on what the log's `replay` yields.
  unfoldable pub recover_from_wal : Bool → Replay → Node → Recovered
  recover_from_wal locked log n =
      continue_with (recover_records log.records n) (ended locked log.error)
