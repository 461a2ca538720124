-- ===== src/Tests/Logs.antt =====
-- The write-ahead log: records whose payload is an object with one null.
use peer_q.Prelude.{
  ℕ, ◌+◌, ◌≡◌, refl, Str, Bytes, true, false, none, some, List, [], ◌∷◌, ◌++◌, arith, length, take,
  codes, All, ◌==◌, if◌then◌else◌, str_ordered, Option, ◌&&◌, leb,
}
use peer_q.Json.{null, arr, nil, cons, obj, field, end, count_fields, Json, str, fetch}
use peer_q.Errors.{Result, ok}
use peer_q.Security.JsonTree.{
  validate_json_tree, is_valid_tree, walk, visit, weight, push_values, push_keys, utf8_length,
}
use peer_q.Wal.{wal_magic, Wal, wal_limits, frame, append, replay, replay_content}
use peer_q.Wal.Recovery.{Entry, IsEntry, log_bytes, log_records, head_bytes}
use peer_q.Wal.Torn.{log_of, append_after_torn}
use peer_q.Wal.Total.{replay-total}
use peer_q.Wal.{Replay}
use peer_q.Json.{Codec}
use peer_q.Consensus.Wire.{to_dict}
use peer_q.Wal.Recovery.{entry_bytes}
use peer_q.Node.{Node}
use peer_q.Node.Recovery.{recover_from_wal}
use peer_q.Node.Recovery.Durable.{task_written, Kept, Goes}
use peer_q.Node.Recovery.Crash
use peer_q.Node.Recovery.Crash.{placed, recover_crash}
use peer_q.Tests.Samples.{small_codec, sum_ed, finished}
use peer_q.Tests.Records.{finished-IsWire}
use peer_q.Tests.Peers.{secure_peer}
use peer_q.Json.Sorted.{sort_keys, sort_fields, insert_field}
use peer_q.Security.JsonTree.Tree.{within, count_entries}
use peer_q.Security.JsonTree.Within.{validate_json_tree-within}

abbrev add_up : Bytes → ℕ
add_up [] = 0
add_up (b ∷ bs) = b + add_up bs

abbrev entry_of : Str → Entry
entry_of key = record {
  record_type = 1;
  written = obj (field key null end);
  payload = field key null end;
}

abbrev short : Entry
short = entry_of (97 ∷ [])

abbrev long : Entry
long = entry_of (codes "a task record that is longer")

valid_short : is_valid_tree (wal_limits 4096) short.written ≡ true
unfolding is_valid_tree validate_json_tree walk visit count_fields weight push_values push_keys
    utf8_length
valid_short = refl

valid_long : is_valid_tree (wal_limits 4096) long.written ≡ true
unfolding is_valid_tree validate_json_tree walk visit count_fields weight push_values push_keys
    utf8_length
valid_long = refl

short-IsEntry : IsEntry add_up small_codec 4096 short
short-IsEntry = record {
  known = refl;
  fits = ground arith;
  small = ground arith;
  reads = refl;
  valid = valid_short;
}

long-IsEntry : IsEntry add_up small_codec 4096 long
long-IsEntry = record {
  known = refl;
  fits = ground arith;
  small = ground arith;
  reads = refl;
  valid = valid_long;
}

abbrev entries : List Entry
entries = short ∷ long ∷ []

entries-IsEntry : All (IsEntry add_up small_codec 4096) entries
entries-IsEntry = (short-IsEntry, (long-IsEntry, tt))

append_after_torn_example :
    (w : Wal) × ((append add_up small_codec
          (log_of add_up small_codec 4096 (
            log_bytes add_up small_codec 4096 entries
              (head_bytes add_up small_codec 4096 long (take 3 (small_codec.dumps long.written)))))
          1
          short.written
        ≡ ok (
          length (
              wal_magic
              ++ log_bytes add_up small_codec 4096 entries (
                  head_bytes add_up small_codec 4096 long
                    (take 3 (small_codec.dumps long.written)))),
          w,
        ))
      × (replay add_up small_codec false w
          ≡ log_records add_up small_codec 4096 8 entries
              (some (record { records = []; error = none }))))
unfolding frame
append_after_torn_example =
    append_after_torn add_up small_codec 4096 entries long short 3 entries-IsEntry long-IsEntry
      short-IsEntry valid_short (ground arith)

abbrev nested : Json
nested = arr (cons null (cons (obj (field (codes "k") null end)) nil))

validate_json_tree-within_example :
    ((r : Result (Unit {0})) × (validate_json_tree (wal_limits 4096) nested ≡ some r))
    × (is_valid_tree (wal_limits 4096) nested ≡ (
        within (wal_limits 4096) 0 nested
        && leb (count_entries nested) (wal_limits 4096).max_items))
validate_json_tree-within_example = validate_json_tree-within (wal_limits 4096) nested

replay-total_example :
    (r : Replay) × (replay_content add_up small_codec false 4096
        (some (wal_magic ++ 0 ∷ 0 ∷ 0 ∷ []))
      ≡ some r)
replay-total_example =
    replay-total add_up small_codec false 4096 (some (wal_magic ++ 0 ∷ 0 ∷ 0 ∷ []))

-- Writes a task as its id, and reads the finished task from its id alone.
abbrev text_in : Json → Str
text_in (str s) = s
text_in _ = []

abbrev id_of : Json → Bytes
id_of (obj fs) = text_in (fetch (codes "task_id") fs)
id_of _ = []

abbrev read_id : Bytes → Option Json
read_id b = if b == finished.task_id then some (sort_keys (obj (to_dict finished))) else none

abbrev task_codec : Codec
task_codec = record { dumps = id_of; loads = read_id; fixed6 = λ _. [] }

valid_task : is_valid_tree (wal_limits 4096) (obj (sort_fields (to_dict finished))) ≡ true
unfolding is_valid_tree validate_json_tree walk visit count_fields weight push_values push_keys
    utf8_length to_dict peer_q.Json.Hex.hex sort_fields insert_field
    peer_q.Consensus.Wire.token_json
valid_task = refl

task-IsEntry : IsEntry add_up task_codec 4096 (Crash.entry_of (task_written finished))
unfolding to_dict fetch sort_fields
task-IsEntry = record {
  known = refl;
  fits = omega arith;
  small = omega arith;
  reads = refl;
  valid = valid_task;
}

abbrev open_node : Node
open_node = record secure_peer.node { security_enabled = false }

recover_crash_example :
    (log : Replay) × (replay_content add_up task_codec false 4096 (
        some (
          wal_magic
          ++ log_bytes add_up task_codec 4096 (Crash.entry_of (task_written finished) ∷ []) (
              take 5
                (entry_bytes add_up task_codec 4096 (Crash.entry_of (task_written finished))))))
      ≡ some log)
    × Goes sum_ed task_codec
        (λ q.
          All
            (λ w. Kept sum_ed task_codec w q)
            (placed add_up task_codec 4096 8 (task_written finished ∷ [])))
        open_node
        (recover_from_wal sum_ed task_codec true log open_node)
unfolding frame
recover_crash_example =
    recover_crash add_up task_codec 4096 sum_ed true (task_written finished ∷ [])
      (task_written finished) 5 open_node (task-IsEntry, tt) task-IsEntry (omega arith)
      (omega arith) (finished-IsWire, tt)
