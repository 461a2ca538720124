-- ===== src/Wal/Recovery.antt =====
-- Replay of a log that `append` wrote: every record comes back, in order and at its offset, also
-- where a crash cut the last write short.
use peer_q.Prelude.{
  ℕ, zero, suc, ◌+◌, ◌/◌, ◌%◌, ◌^◌, ◌≤◌, ◌<◌, ◌-◌, ◌≡◌, refl, Bytes, Bool, true, false, Option,
  none, some, List, [], ◌∷◌, ◌++◌, arith, ltb, length, length-append, length-take, take,
  take_append, drop_append, All, ==_self, nat_ordered,
}
use peer_q.Json.{Json, obj, Fields, Codec}
use peer_q.Security.JsonTree.{is_valid_tree}
use peer_q.Wal.{
  wal_magic, is_known_type, Replay, u32, from_u32, wal_limits, torn, good, at_tail, then_replay,
  checksum, frame, read_frame, scan, replay_content, has_magic,
}

pub u32_trip :
    (n : ℕ) → n < 2 ^ 32 → from_u32 (n / 16777216) (n / 65536 % 256) (n / 256 % 256) (n % 256) ≡ n
unfolding from_u32
u32_trip n h = omega arith

-- A payload as it was appended, and as the codec reads it back (its keys are sorted then).
pub record Entry : Type 0 where
  pub record_type : ℕ
  pub written : Json
  pub payload : Fields

add_nine : (m n : ℕ) → m + (9 + n) ≡ m + suc (suc (suc (suc (suc (suc (suc (suc (suc n))))))))
add_nine m n = omega arith

module _ (crc32 : Bytes → ℕ) (codec : Codec) (max_record_bytes : ℕ) where
  -- What `append` and `replay` need of an entry.
  pub record IsEntry (e : Entry) : Type 0 where
    pub known : is_known_type e.record_type ≡ true
    pub fits : length (codec.dumps e.written) ≤ max_record_bytes
    pub small : length (codec.dumps e.written) < 2 ^ 32
    pub reads : codec.loads (codec.dumps e.written) ≡ some (obj e.payload)
    pub valid : is_valid_tree (wal_limits max_record_bytes) (obj e.payload) ≡ true

  abbrev pub entry_bytes : Entry → Bytes
  entry_bytes e = frame crc32 codec e.record_type (codec.dumps e.written)

  read_frame_good :
      (e : Entry) (rest : Bytes)
      → IsEntry e
      → read_frame crc32 codec max_record_bytes
          (length (codec.dumps e.written))
          (checksum crc32 codec e.record_type (codec.dumps e.written))
          e.record_type
          (codec.dumps e.written ++ rest)
        ≡ good e.payload
  unfolding read_frame
  read_frame_good e rest h =
      let b : Bytes = codec.dumps e.written in
      let size : ltb max_record_bytes (length b) ≡ false = ground (arith, h.fits) in
      let enough : ltb (length (b ++ rest)) (length b) ≡ false =
        ground (arith, length-append b rest) in
      rw (
        h.known,
        size,
        enough,
        take_append b rest,
        ==_self (checksum crc32 codec e.record_type b),
        h.reads,
        h.valid,
      )

  -- One entry at the head of the bytes is one round of the loop.
  scan_entry :
      (fuel : ℕ) (strict : Bool) (offset : ℕ) (e : Entry) (rest : Bytes)
      → IsEntry e
      → scan crc32 codec (suc fuel) strict max_record_bytes offset (entry_bytes e ++ rest)
        ≡ then_replay
            (record { offset = offset; record_type = e.record_type; payload = e.payload })
            (scan crc32 codec fuel strict max_record_bytes (offset + length (entry_bytes e)) rest)
  unfolding scan frame
  scan_entry fuel strict offset e rest h =
      let b : Bytes = codec.dumps e.written in
      let crc : ℕ = checksum crc32 codec e.record_type b in
      let in_range : crc < 2 ^ 32 = omega arith in
      rw (u32_trip (length b) h.small, scan, u32_trip crc in_range, read_frame_good e rest h)
        (rw (u32_trip (length b) h.small, drop_append b rest, add_nine offset (length b)))

  -- The entries of a log, before the bytes that follow them.
  abbrev pub log_bytes : List Entry → Bytes → Bytes
  log_bytes [] tail = tail
  log_bytes (e ∷ es) tail = entry_bytes e ++ log_bytes es tail

  -- Where the entries of a log that begins at the offset end.
  abbrev pub log_end : ℕ → List Entry → ℕ
  log_end offset [] = offset
  log_end offset (e ∷ es) = log_end (offset + length (entry_bytes e)) es

  -- The records of a log that begins at the offset, before those that follow.
  abbrev pub log_records : ℕ → List Entry → Option Replay → Option Replay
  log_records offset [] rest = rest
  log_records offset (e ∷ es) rest =
      then_replay (record { offset = offset; record_type = e.record_type; payload = e.payload })
        (log_records (offset + length (entry_bytes e)) es rest)

  pub scan_log :
      (strict : Bool) (offset : ℕ) (es : List Entry) (tail : Bytes) (fuel : ℕ)
      → All IsEntry es
      → scan crc32 codec (length es + fuel) strict max_record_bytes offset (log_bytes es tail)
        ≡ log_records offset es
            (scan crc32 codec fuel strict max_record_bytes (log_end offset es) tail)
  scan_log strict offset [] tail fuel h =
      let none_read : 0 + fuel ≡ fuel = omega arith in rw none_read refl
  scan_log strict offset (e ∷ es) tail fuel (h, hs) =
      let round : suc (length es) + fuel ≡ suc (length es + fuel) = omega arith in
      rw (round, scan_entry (length es + fuel) strict offset e (log_bytes es tail) h)
        (rw (scan_log strict (offset + length (entry_bytes e)) es tail fuel hs) refl)

  length-log_bytes :
      (es : List Entry) (tail : Bytes) → length es + length tail ≤ length (log_bytes es tail)
  unfolding frame
  length-log_bytes [] tail = omega arith
  length-log_bytes (e ∷ es) tail =
      ground
        (arith, length-log_bytes es tail, length-append (codec.dumps e.written) (log_bytes es tail))

  -- Room in the fuel that `replay_content` gives the loop for every entry.
  abbrev pub spare : List Entry → Bytes → ℕ
  spare es tail = length (wal_magic ++ log_bytes es tail) - length es

  enough_fuel :
      (es : List Entry) (tail : Bytes)
      → suc (length (wal_magic ++ log_bytes es tail)) ≡ length es + suc (spare es tail)
  enough_fuel es tail = ground (arith, length-log_bytes es tail)

  pub replay_log :
      (strict : Bool) (es : List Entry) (tail : Bytes)
      → All IsEntry es
      → replay_content crc32 codec strict max_record_bytes (some (wal_magic ++ log_bytes es tail))
        ≡ log_records 8 es
            (scan crc32 codec (suc (spare es tail)) strict max_record_bytes (log_end 8 es) tail)
  unfolding replay_content has_magic
  replay_log strict es tail h =
      let whole : ltb (length (wal_magic ++ log_bytes es tail)) 8 ≡ false = ground arith in
      rw (whole, enough_fuel es tail) (scan_log strict 8 es tail (suc (spare es tail)) h)

  -- The bytes of a frame up to its payload.
  abbrev pub head_bytes : Entry → Bytes → Bytes
  head_bytes e rest =
      u32 (length (codec.dumps e.written))
      ++ (u32 (checksum crc32 codec e.record_type (codec.dumps e.written)) ++ e.record_type ∷ rest)

  read_frame_torn :
      (e : Entry) (rest : Bytes)
      → IsEntry e
      → length rest < length (codec.dumps e.written)
      → read_frame crc32 codec max_record_bytes
          (length (codec.dumps e.written))
          (checksum crc32 codec e.record_type (codec.dumps e.written))
          e.record_type
          rest
        ≡ torn
  unfolding read_frame
  read_frame_torn e rest h less =
      let size : ltb max_record_bytes (length (codec.dumps e.written)) ≡ false =
        ground (arith, h.fits) in
      let short : ltb (length rest) (length (codec.dumps e.written)) ≡ true = ground arith in
      rw (h.known, size, short) refl

  -- Too few bytes behind the header of a frame end the loop.
  pub scan_short :
      (strict : Bool) (offset fuel : ℕ) (e : Entry) (rest : Bytes)
      → IsEntry e
      → length rest < length (codec.dumps e.written)
      → scan crc32 codec (suc fuel) strict max_record_bytes offset (head_bytes e rest)
        ≡ some (at_tail strict)
  unfolding scan
  scan_short strict offset fuel e rest h less =
      let crc : ℕ = checksum crc32 codec e.record_type (codec.dumps e.written) in
      let in_range : crc < 2 ^ 32 = omega arith in
      rw
        (
          u32_trip (length (codec.dumps e.written)) h.small,
          scan,
          u32_trip crc in_range,
          read_frame_torn e rest h less,
        )
        refl

  -- A cut frame ends the loop.
  scan_torn :
      (strict : Bool) (offset fuel : ℕ) (e : Entry) (k : ℕ)
      → IsEntry e
      → 0 < k
      → k < length (entry_bytes e)
      → scan crc32 codec (suc fuel) strict max_record_bytes offset (take k (entry_bytes e))
        ≡ some (at_tail strict)
  unfolding scan frame
  scan_torn strict offset fuel e zero h positive less = ground arith
  scan_torn strict offset fuel e (suc zero) h positive less = refl
  scan_torn strict offset fuel e (suc (suc zero)) h positive less = refl
  scan_torn strict offset fuel e (suc (suc (suc zero))) h positive less = refl
  scan_torn strict offset fuel e (suc (suc (suc (suc zero)))) h positive less = refl
  scan_torn strict offset fuel e (suc (suc (suc (suc (suc zero))))) h positive less = refl
  scan_torn strict offset fuel e (suc (suc (suc (suc (suc (suc zero)))))) h positive less = refl
  scan_torn strict offset fuel e (suc (suc (suc (suc (suc (suc (suc zero))))))) h positive less =
      refl
  scan_torn strict offset fuel e (suc (suc (suc (suc (suc (suc (suc (suc zero)))))))) h positive
        less =
      refl
  scan_torn strict offset fuel e (suc (suc (suc (suc (suc (suc (suc (suc (suc j))))))))) h positive
        less =
      let b : Bytes = codec.dumps e.written in
      let less' : length (take j b) < length b = ground (arith, length-take j b) in
      scan_short strict offset fuel e (take j b) h less'

  -- Replay of a log that ends with a whole record returns the records that were appended, in their
  -- order and each at its offset, and no exception.
  pub replay-log :
      (strict : Bool) (es : List Entry)
      → All IsEntry es
      → replay_content crc32 codec strict max_record_bytes (some (wal_magic ++ log_bytes es []))
        ≡ log_records 8 es (some (record { records = []; error = none }))
  unfolding scan
  replay-log strict es h = replay_log strict es [] h

  -- Where a crash cut the last record after at least one byte and before its last, replay returns
  -- the records before it, and raises `WALCorrupt` only where it is strict.
  pub replay-torn :
      (strict : Bool) (es : List Entry) (e : Entry) (k : ℕ)
      → All IsEntry es
      → IsEntry e
      → 0 < k
      → k < length (entry_bytes e)
      → replay_content crc32 codec strict max_record_bytes
          (some (wal_magic ++ log_bytes es (take k (entry_bytes e))))
        ≡ log_records 8 es (some (at_tail strict))
  replay-torn strict es e k h he positive less =
      rw (replay_log strict es (take k (entry_bytes e)) h) (
        rw
          (scan_torn strict (log_end 8 es) (spare es (take k (entry_bytes e))) e k he positive less)
          refl)
