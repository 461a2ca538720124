-- ===== src/Node/Recovery/Crash.antt =====
-- A node that crashed while it appended to its log, and starts again: `replay` of peerq/wal.py under
-- `_recover_from_wal` of peerq/node.py.
use peer_q.Prelude.{
  ℕ, ◌+◌, ◌<◌, ◌≡◌, refl, ap, ◌∙◌, Bytes, Bool, false, none, some, List, [], ◌∷◌, ◌++◌, map, take,
  length, All,
}
use peer_q.Json.{obj, Codec}
use peer_q.Crypto.{Ed25519}
use peer_q.Consensus.Wire.{to_dict, clock_fields}
use peer_q.Wal.{wal_magic, record_task, record_clock, Replay, then_replay, replay_content}
use peer_q.Json.Sorted.{sort_fields}
use peer_q.Wal.Recovery.{Entry, IsEntry, entry_bytes, log_bytes, log_records, replay-torn}
use peer_q.Node.{Node}
use peer_q.Node.Recovery.{recover_from_wal}
use peer_q.Node.Recovery.Durable.{
  Written, task_written, clock_written, as_record, IsWritten, Kept, Goes, recover_from_wal-Goes,
}

-- What `append_task` and `append_clock` append, and what `json.loads` makes of it.
abbrev pub entry_of : Written → Entry
entry_of (task_written r) = record {
  record_type = record_task;
  written = obj (to_dict r);
  payload = sort_fields (to_dict r);
}
entry_of (clock_written d) = record {
  record_type = record_clock;
  written = obj (clock_fields d);
  payload = sort_fields (clock_fields d);
}

module _ (crc32 : Bytes → ℕ) (codec : Codec) (max_record_bytes : ℕ) where
  -- What was written, at its offsets.
  abbrev pub placed : ℕ → List Written → List (ℕ × Written)
  placed offset [] = []
  placed offset (w ∷ ws) =
      (offset, w)
      ∷ placed (offset + length (entry_bytes crc32 codec max_record_bytes (entry_of w))) ws

  log_records-placed :
      (offset : ℕ) (ws : List Written)
      → log_records crc32 codec max_record_bytes offset
          (map entry_of ws)
          (some (record { records = []; error = none }))
        ≡ some (record { records = map as_record (placed offset ws); error = none })
  log_records-placed offset [] = refl
  log_records-placed offset (task_written r ∷ ws) =
      let size = length (entry_bytes crc32 codec max_record_bytes (entry_of (task_written r))) in
      ap (then_replay (as_record (offset, task_written r))) (log_records-placed (offset + size) ws)
  log_records-placed offset (clock_written d ∷ ws) =
      let size = length (entry_bytes crc32 codec max_record_bytes (entry_of (clock_written d))) in
      ap (then_replay (as_record (offset, clock_written d))) (log_records-placed (offset + size) ws)

  module _ (ed : Ed25519) where
    -- A crash in the middle of an append loses no earlier task: where the records before it are within
    -- the limits of the log and of the protocol, JSON reads each back as it was but with sorted keys, and
    -- the last one was cut after at least one byte, `replay` reads the records before it, and recovery
    -- ends without an exception in a node that has all it had before and every task among them that is
    -- authorized as it is read, unless the table is full.
    pub recover_crash :
        (locked : Bool) (ws : List Written) (last : Written) (k : ℕ) (n : Node)
        → All (IsEntry crc32 codec max_record_bytes) (map entry_of ws)
        → IsEntry crc32 codec max_record_bytes (entry_of last)
        → 0 < k
        → k < length (entry_bytes crc32 codec max_record_bytes (entry_of last))
        → All IsWritten (placed 8 ws)
        → (log : Replay) × (replay_content crc32 codec false max_record_bytes (
              some (
                wal_magic
                ++ log_bytes crc32 codec max_record_bytes
                    (map entry_of ws)
                    (take k (entry_bytes crc32 codec max_record_bytes (entry_of last)))))
            ≡ some log)
          × Goes ed codec
              (λ q. All (λ w. Kept ed codec w q) (placed 8 ws))
              n
              (recover_from_wal ed codec locked log n)
    recover_crash locked ws last k n written cut low high wire = (
      record { records = map as_record (placed 8 ws); error = none },
      replay-torn crc32 codec max_record_bytes false (map entry_of ws) (entry_of last) k written cut
            low high
          ∙ log_records-placed 8 ws,
      recover_from_wal-Goes ed codec locked (placed 8 ws) n wire,
    )
