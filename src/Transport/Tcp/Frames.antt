-- ===== src/Transport/Tcp/Frames.antt =====
-- `_write_frame` and `_read_frame` of peerq/transport.py, and the hello that authorizes a
-- connection.
use peer_q.Prelude.{
  ℕ, ◌<◌, ◌≡◌, ◌++◌, refl, subst, Bytes, true, false, some, arith, leb, ltb, length, length-append,
  drop, drop_append, take_append, str_ordered,
}
use peer_q.Prelude.Int.{pos, ltb_ℤ, ◌≤ℤ◌}
use peer_q.Json.{obj, Codec}
use peer_q.Errors.{ok}
use peer_q.Security.Config.{SecurityConfig}
use peer_q.Wal.{u32}
use peer_q.Wal.Recovery.{u32_trip}
use peer_q.Transport.Message.{
  Message, config_limits, validated, wire_fields, wire_bytes, to_bytes, from_bytes,
}
use peer_q.Transport.Message.RoundTrip.{IsEnvelope, IsFrame, to_bytes-IsFrame, from_bytes-to_bytes}
use peer_q.Transport.Tcp.{read_length, read_frame}

module _ (codec : Codec) where
  read_length-u32 :
      (c : SecurityConfig) (n : ℕ) (rest : Bytes)
      → 0 < n
      → n < 4294967296
      → pos n ≤ℤ c.max_frame_size
      → read_length c (u32 n ++ rest) ≡ ok (n, rest)
  unfolding read_length
  read_length-u32 c n rest positive small fits =
      let one : ltb 0 n ≡ true = ground arith in
      let size : ltb_ℤ c.max_frame_size (pos n) ≡ false = ground (arith, fits) in
      rw (u32_trip n small) (rw (one, size) refl)

  -- A frame that was written is read back as its message, and the bytes behind it are left, where
  -- the codec reads back the document that it wrote and the document is within the limits.
  pub read_frame-to_bytes :
      (c : SecurityConfig) (m : Message) (frame rest : Bytes)
      → to_bytes codec c.max_frame_size m ≡ ok frame
      → IsEnvelope m
      → 0 < length (wire_bytes codec m)
      → codec.loads (wire_bytes codec m) ≡ some (obj (wire_fields m))
      → validated (config_limits c) (obj (wire_fields m)) ≡ ok tt
      → read_frame codec c (frame ++ rest) ≡ ok (m, rest)
  unfolding read_frame
  read_frame-to_bytes c m frame rest h w positive reads valid =
      let f : IsFrame codec c.max_frame_size m frame =
        to_bytes-IsFrame codec c.max_frame_size m frame h in
      let bytes : Bytes = wire_bytes codec m in
      let n : ℕ = length bytes in
      let header : read_length c (u32 n ++ (bytes ++ rest)) ≡ ok (n, bytes ++ rest) =
        read_length-u32 c n (bytes ++ rest) positive f.small f.fits in
      let enough : leb n (length (bytes ++ rest)) ≡ true =
        ground (arith, length-append bytes rest) in
      let body : drop 4 frame ≡ bytes = subst (λ x. drop 4 x ≡ bytes) f.frame refl in
      let back : from_bytes codec c bytes ≡ ok m =
        subst (λ x. from_bytes codec c x ≡ ok m) body
          (from_bytes-to_bytes codec c m frame h w reads valid) in
      subst (λ x. read_frame codec c (x ++ rest) ≡ ok (m, rest)) f.frame
        (rw (header, enough) (rw (take_append bytes rest, back) (rw (drop_append bytes rest) refl)))
