-- ===== src/Tests/Pages.antt =====
-- A page server with a token and a request that has it, and a histogram
-- with one measurement.
use peer_q.Prelude.{
  ℕ, suc, ◌*◌, ◌≤◌, ◌<◌, ◌+◌, ◌^◌, ◌≡◌, ◌⊎◌, refl, Str, some, [], ◌∷◌, ◌++◌, arith, codes, max, min,
  take, str_ordered, ◌==◌, nat_ordered, ◌-◌, ◌/◌,
}
use peer_q.Prelude.Int.{pos}
use peer_q.Errors.{ok}
use peer_q.Security.Config.{default_config}
use peer_q.Transport.Http.{HttpServer, Input, eof, line, Text}
use peer_q.Metrics.{
  LogLinearHistogram, bucket_count, empty_histogram, value_to_index, index_to_twice, new_histogram,
  quantile, CeilProduct,
}
use peer_q.Metrics.Buckets.{index_to_twice-value_to_index}
use peer_q.Metrics.Counts.{
  IsHistogram, new_histogram-IsHistogram, record_value-IsHistogram, quantile_lem, total,
}

abbrev pub plain_text : Text
plain_text = record {
  decode = λ bytes. bytes;
  isspace = λ c. c == 32;
  lower = λ c. c;
  to_int = λ _. some (pos 0);
}

abbrev pub token : Str
token = codes "0123456789abcdef0123456789abcdef"

abbrev pub server : HttpServer
server = record { security = default_config; auth_token = some token }

abbrev pub request : Input
request =
    line (codes "GET /metrics HTTP/1.1")
      (line (codes "authorization: Bearer " ++ token) (line (13 ∷ 10 ∷ []) eof))

index_to_twice-value_to_index_example :
    (w : ℕ) × ((w ≡ 1) ⊎ (w * 2 ^ 3 ≤ 100))
    × (index_to_twice 3 (value_to_index 3 (bucket_count 3 1000) 100) ≤ 2 * 100 + w)
    × (2 * 100 ≤ index_to_twice 3 (value_to_index 3 (bucket_count 3 1000) 100) + w)
index_to_twice-value_to_index_example =
    index_to_twice-value_to_index 3 1000 100 (omega arith) (omega arith)

made : new_histogram 3 1000 ≡ ok (empty_histogram 3 1000)
unfolding new_histogram
made = refl

empty_histogram-IsHistogram : IsHistogram (empty_histogram 3 1000)
empty_histogram-IsHistogram = new_histogram-IsHistogram 3 1000 (empty_histogram 3 1000) made

abbrev five_measured : LogLinearHistogram
five_measured = (record_value-IsHistogram 5 (empty_histogram 3 1000) empty_histogram-IsHistogram).0

five_measured-IsHistogram : IsHistogram five_measured
five_measured-IsHistogram =
    (record_value-IsHistogram 5 (empty_histogram 3 1000) empty_histogram-IsHistogram).2

one_counted : 0 < five_measured.total_count
one_counted =
    omega
      (arith, (record_value-IsHistogram 5 (empty_histogram 3 1000) empty_histogram-IsHistogram).3)

-- The exact product.
abbrev exactly : CeilProduct
exactly n d c = (n * c + (d - 1)) / d

quantile_lem_example :
    (low k : ℕ) × (five_measured.min_value ≡ some low)
    × (quantile exactly (pos 1) 2 five_measured
        ≡ max
            (2 * low)
            (min (2 * five_measured.max_value) (index_to_twice five_measured.sub_bucket_bits k)))
    × (total (take k five_measured.counts) < exactly 1 2 five_measured.total_count)
    × (exactly 1 2 five_measured.total_count ≤ total (take (suc k) five_measured.counts))
quantile_lem_example =
    quantile_lem exactly 1 2 five_measured five_measured-IsHistogram one_counted (omega arith)
      (omega arith) (omega (arith, one_counted)) (omega (arith, one_counted))
