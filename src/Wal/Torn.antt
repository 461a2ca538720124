-- ===== src/Wal/Torn.antt =====
-- What `append` adds to a log that `append` wrote, and to one whose last write a crash cut short:
-- `_open` checks the header and seeks the end, and truncates nothing.
use peer_q.Prelude.{
  ℕ, ◌+◌, ◌<◌, ◌^◌, ◌≡◌, refl, ap, Bytes, true, false, none, some, List, [], ◌∷◌, ◌++◌, arith, ltb,
  leb, length, append_assoc, append_nil, length-append, take, length-take, All,
}
use peer_q.Json.{Codec}
use peer_q.Errors.{ok}
use peer_q.Security.JsonTree.{is_valid_tree}
use peer_q.Wal.{wal_magic, Wal, wal_limits, encode, append, replay}
use peer_q.Wal.Recovery.{
  Entry, IsEntry, entry_bytes, log_bytes, log_records, log_end, head_bytes, replay_log, spare,
  scan_short,
}

module _ (crc32 : Bytes → ℕ) (codec : Codec) (max_record_bytes : ℕ) where
  -- An open log with these bytes behind its header.
  abbrev pub log_of : Bytes → Wal
  log_of bytes = record {
    content = some (wal_magic ++ bytes);
    is_open = true;
    max_record_bytes = max_record_bytes;
  }

  append_good :
      (bytes : Bytes) (e : Entry)
      → IsEntry crc32 codec max_record_bytes e
      → is_valid_tree (wal_limits max_record_bytes) e.written ≡ true
      → append crc32 codec (log_of bytes) e.record_type e.written
        ≡ ok (
          length (wal_magic ++ bytes),
          log_of (bytes ++ entry_bytes crc32 codec max_record_bytes e),
        )
  unfolding append encode
  append_good bytes e h valid =
      let fits : leb (length (codec.dumps e.written)) max_record_bytes ≡ true =
        ground (arith, h.fits) in
      let small : ltb (length (codec.dumps e.written)) (2 ^ 32) ≡ true = ground (arith, h.small) in
      rw (h.known, valid, fits, small) refl

  log_bytes_snoc :
      (es : List Entry) (rest last : Bytes)
      → log_bytes crc32 codec max_record_bytes es rest ++ last
        ≡ log_bytes crc32 codec max_record_bytes es (rest ++ last)
  log_bytes_snoc [] rest last = refl
  log_bytes_snoc (e ∷ es) rest last =
      rw
        (
          append_assoc (entry_bytes crc32 codec max_record_bytes e)
              (log_bytes crc32 codec max_record_bytes es rest) last,
          log_bytes_snoc es rest last,
        )
        refl

  log_bytes_last :
      (es : List Entry) (e : Entry) (rest : Bytes)
      → log_bytes crc32 codec max_record_bytes (es ++ e ∷ []) rest
        ≡ log_bytes crc32 codec max_record_bytes es
            (entry_bytes crc32 codec max_record_bytes e ++ rest)
  log_bytes_last [] e rest = refl
  log_bytes_last (d ∷ es) e rest =
      ap (λ t. entry_bytes crc32 codec max_record_bytes d ++ t) (log_bytes_last es e rest)

  -- `append` of a payload within the limits, which the codec writes in at most `max_record_bytes`
  -- and fewer than 2^32 bytes, to an open log of appended records returns the size of the file
  -- before it, and leaves the log of the old records and the new one.
  pub append-log :
      (es : List Entry) (e : Entry)
      → IsEntry crc32 codec max_record_bytes e
      → is_valid_tree (wal_limits max_record_bytes) e.written ≡ true
      → append crc32 codec
          (log_of (log_bytes crc32 codec max_record_bytes es []))
          e.record_type
          e.written
        ≡ ok (
          length (wal_magic ++ log_bytes crc32 codec max_record_bytes es []),
          log_of (log_bytes crc32 codec max_record_bytes (es ++ e ∷ []) []),
        )
  append-log es e h valid =
      rw
        (
          append_good (log_bytes crc32 codec max_record_bytes es []) e h valid,
          log_bytes_snoc es [] (entry_bytes crc32 codec max_record_bytes e),
          log_bytes_last es e [],
          append_nil (entry_bytes crc32 codec max_record_bytes e),
        )
        refl

  -- The payload of a frame that a crash cut after its header, followed by a whole frame that is
  -- shorter than what is missing: `append` to such a log succeeds, and a replay that is not strict
  -- returns the records before the cut frame alone, without an exception.
  pub append_after_torn :
      (es : List Entry) (torn e : Entry) (j : ℕ)
      → All (IsEntry crc32 codec max_record_bytes) es
      → IsEntry crc32 codec max_record_bytes torn
      → IsEntry crc32 codec max_record_bytes e
      → is_valid_tree (wal_limits max_record_bytes) e.written ≡ true
      → j + length (entry_bytes crc32 codec max_record_bytes e) < length (codec.dumps torn.written)
      → (w : Wal) × ((append crc32 codec
              (log_of (
                log_bytes crc32 codec max_record_bytes es (
                  head_bytes crc32 codec max_record_bytes torn
                    (take j (codec.dumps torn.written)))))
              e.record_type
              e.written
            ≡ ok (
              length (
                  wal_magic
                  ++ log_bytes crc32 codec max_record_bytes es (
                      head_bytes crc32 codec max_record_bytes torn
                        (take j (codec.dumps torn.written)))),
              w,
            ))
          × (replay crc32 codec false w
              ≡ log_records crc32 codec max_record_bytes 8 es
                  (some (record { records = []; error = none }))))
  unfolding replay
  append_after_torn es torn e j hs ht h valid less =
      let cut : Bytes = take j (codec.dumps torn.written) in
      let rest : Bytes = cut ++ entry_bytes crc32 codec max_record_bytes e in
      let tail : Bytes = head_bytes crc32 codec max_record_bytes torn rest in
      let short : length rest < length (codec.dumps torn.written) = ground (
        arith,
        length-append cut (entry_bytes crc32 codec max_record_bytes e),
        length-take j (codec.dumps torn.written),
      ) in
      (
        log_of (
            log_bytes crc32 codec max_record_bytes es
              (head_bytes crc32 codec max_record_bytes torn cut)
            ++ entry_bytes crc32 codec max_record_bytes e),
        (
          append_good
              (log_bytes crc32 codec max_record_bytes es
                (head_bytes crc32 codec max_record_bytes torn cut))
              e h valid,
          rw
              (log_bytes_snoc es (head_bytes crc32 codec max_record_bytes torn cut)
                (entry_bytes crc32 codec max_record_bytes e))
              (rw (replay_log crc32 codec max_record_bytes false es tail hs) (
                rw
                  (scan_short crc32 codec max_record_bytes false
                    (log_end crc32 codec max_record_bytes 8 es)
                    (spare crc32 codec max_record_bytes es tail) torn rest ht short)
                  refl)),
        ),
      )
