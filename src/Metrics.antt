-- ===== src/Metrics.antt =====
-- peerq/metrics.py: `LogLinearHistogram` and `MetricsCollector`. A measurement is a whole number, a
-- quantile's argument a fraction, and a representative value is counted in halves. The product that
-- `quantile` rounds up is a parameter; what else the source computes in floats is exact here.
pub mod Buckets
pub mod Counts
use peer_q.Prelude.{
  ℕ, zero, suc, ◌+◌, ◌-◌, ◌*◌, ◌/◌, ◌%◌, ◌^◌, max, min, Str, Bool, true, false, ◌&&◌, Option, none,
  some, List, [], ◌∷◌, if◌then◌else◌, ltb, leb, codes, str_ordered,
}
use peer_q.Prelude.Int.{ℤ, pos, negsuc, pos_part, ◌+ℤ◌, ltb_ℤ, leb_ℤ}
use peer_q.Prelude.Dict.{Dict, lookup, insert}
use peer_q.Errors.{Result, ok, err, value_error, index_error, ◌>>=◌, ◌>>◌, check}

-- `n.bit_length()`; the fuel `n` is enough.
unfoldable pub count_bits : ℕ → ℕ → ℕ
count_bits zero n = 0
count_bits (suc fuel) zero = 0
count_bits (suc fuel) (suc n) = suc (count_bits fuel (suc n / 2))

abbrev pub bit_length : ℕ → ℕ
bit_length n = count_bits n n

-- `math.ceil(math.log2(n))` of a positive number.
abbrev pub ceil_log2 : ℕ → ℕ
ceil_log2 n = bit_length (n - 1)

pub record LogLinearHistogram : Type 0 where
  pub sub_bucket_bits : ℕ
  pub total_buckets : ℕ
  pub counts : List ℕ
  pub total_count : ℕ
  pub sum : ℕ
  -- `none` is the initial infinity.
  pub min_value : Option ℕ
  pub max_value : ℕ

abbrev pub sub_bucket_count : ℕ → ℕ
sub_bucket_count bits = 2 ^ bits

unfoldable pub max_octave : ℕ → ℕ → ℕ
max_octave bits max_value =
    if ltb (sub_bucket_count bits) max_value then ceil_log2 max_value else bits

unfoldable pub bucket_count : ℕ → ℕ → ℕ
bucket_count bits max_value =
    sub_bucket_count bits + max 1 (max_octave bits max_value + 1 - bits) * sub_bucket_count bits

abbrev pub zeros : ℕ → List ℕ
zeros zero = []
zeros (suc n) = 0 ∷ zeros n

abbrev pub empty_histogram : ℕ → ℕ → LogLinearHistogram
empty_histogram bits max_value = record {
  sub_bucket_bits = bits;
  total_buckets = bucket_count bits max_value;
  counts = zeros (bucket_count bits max_value);
  total_count = 0;
  sum = 0;
  min_value = none;
  max_value = 0;
}

-- `LogLinearHistogram(sub_bucket_bits, max_value)`
unfoldable pub new_histogram : ℕ → ℕ → Result LogLinearHistogram
new_histogram bits max_value = do
  check (leb 1 bits && leb bits 16) value_error
  ok (empty_histogram bits max_value)

-- The bucket of a value outside of the linear range, before it is cut to the last one.
unfoldable pub octave_bucket : ℕ → ℕ → ℕ
octave_bucket bits value =
    let shift = bit_length value - 1 - bits in
    sub_bucket_count bits
    + shift * sub_bucket_count bits
    + value / 2 ^ shift % sub_bucket_count bits

unfoldable pub value_to_index : ℕ → ℕ → ℕ → ℕ
value_to_index bits total value =
    if ltb value (sub_bucket_count bits) then value else min (octave_bucket bits value) (total - 1)

-- Twice the representative value of a bucket: the middle of its range.
unfoldable pub index_to_twice : ℕ → ℕ → ℕ
index_to_twice bits index =
    if ltb index (sub_bucket_count bits)
    then 2 * index + 1
    else let offset = index - sub_bucket_count bits in
      let width = 2 ^ (offset / sub_bucket_count bits) in
      2 * (width * sub_bucket_count bits + offset % sub_bucket_count bits * width) + width

-- `counts[index] += 1`
unfoldable pub count_at : ℕ → List ℕ → Result (List ℕ)
count_at index [] = err index_error
count_at zero (c ∷ cs) = ok ((c + 1) ∷ cs)
count_at (suc index) (c ∷ cs) = do rest ← count_at index cs; ok (c ∷ rest)

abbrev pub lesser : Option ℕ → ℕ → ℕ
lesser none value = value
lesser (some m) value = min m value

unfoldable pub record_value : ℤ → LogLinearHistogram → Result LogLinearHistogram
record_value (negsuc n) h = err value_error
record_value (pos value) h = do
  counts ← count_at (value_to_index h.sub_bucket_bits h.total_buckets value) h.counts
  ok (record h {
    counts = counts;
    total_count = h.total_count + 1;
    sum = h.sum + value;
    min_value = some (lesser h.min_value value);
    max_value = max h.max_value value;
  })

-- The first bucket at which the counts so far reach the target.
unfoldable pub find_bucket : ℕ → ℕ → ℕ → List ℕ → Option ℕ
find_bucket target index so_far [] = none
find_bucket target index so_far (c ∷ cs) =
    let rest = find_bucket target (index + 1) (so_far + c) cs in
    if leb target (so_far + c) then some index else rest

abbrev pub clamped : ℕ → ℕ → ℕ → Option ℕ → ℕ
clamped bits low high none = 2 * high
clamped bits low high (some index) = max (2 * low) (min (2 * high) (index_to_twice bits index))

-- `count > 0`, and the least value then.
abbrev pub or_zero : Option ℕ → ℕ
or_zero none = 0
or_zero (some m) = m

-- `math.ceil(q * count)` for the float `q` that stands for a fraction, by its numerator and denominator:
-- the product is rounded, and so may be off by one from the exact one.
abbrev pub CeilProduct : Type 0
CeilProduct = (numerator denominator count : ℕ) → ℕ

-- Twice the estimate of the quantile `numerator / denominator`.
unfoldable pub quantile : CeilProduct → ℤ → ℕ → LogLinearHistogram → ℕ
quantile ceil_product numerator denominator h =
    if leb h.total_count 0
    then 0
    else if leb_ℤ numerator (pos 0)
    then 2 * or_zero h.min_value
    else if leb_ℤ (pos denominator) numerator
    then 2 * h.max_value
    else clamped h.sub_bucket_bits (or_zero h.min_value) h.max_value
        (find_bucket (ceil_product (pos_part numerator) denominator h.total_count) 0 0 h.counts)

pub record MetricsCollector : Type 0 where
  pub counters : Dict Str ℤ
  pub histograms : Dict Str LogLinearHistogram

abbrev pub counter_names : List Str
counter_names =
    codes "enqueued"
    ∷ codes "claimed"
    ∷ codes "completed"
    ∷ codes "failed"
    ∷ codes "reclaimed"
    ∷ codes "rejected"
    ∷ []

-- `dict.fromkeys(names, 0)`
abbrev pub all_zero : List Str → Dict Str ℤ
all_zero [] = []
all_zero (k ∷ ks) = (k, pos 0) ∷ all_zero ks

unfoldable pub new_collector : ℕ → Result MetricsCollector
new_collector bits = do
  task ← new_histogram bits 100000000
  claim ← new_histogram bits 100000000
  gossip ← new_histogram bits 100000000
  ok (record {
    counters = all_zero counter_names;
    histograms =
        (codes "task_latency", task)
        ∷ (codes "claim_latency", claim)
        ∷ (codes "gossip_latency", gossip)
        ∷ [];
  })

abbrev pub added_to : Option ℤ → ℤ → ℤ
added_to none amount = amount
added_to (some n) amount = n +ℤ amount

unfoldable pub increment : Str → ℤ → MetricsCollector → MetricsCollector
increment name amount m = record m {
  counters = insert name (added_to (lookup name m.counters) amount) m.counters;
}

abbrev pub counter_or_zero : Option ℤ → ℤ
counter_or_zero none = pos 0
counter_or_zero (some n) = n

unfoldable pub get_counter : Str → MetricsCollector → ℤ
get_counter name m = counter_or_zero (lookup name m.counters)

-- A histogram of the default size is made for a name that is not there.
abbrev pub or_default_histogram : Option LogLinearHistogram → Result LogLinearHistogram
or_default_histogram none = new_histogram 7 1000000000
or_default_histogram (some h) = ok h

unfoldable pub record_latency : Str → ℤ → MetricsCollector → Result MetricsCollector
record_latency name latency m = do
  old ← or_default_histogram (lookup name m.histograms)
  new ← record_value latency old
  ok (record m { histograms = insert name new m.histograms })

unfoldable pub get_histogram : Str → MetricsCollector → Option LogLinearHistogram
get_histogram name m = lookup name m.histograms

-- The summary of a histogram; the mean is the pair of sum and count.
pub record Summary : Type 0 where
  pub count : ℕ
  pub least : ℕ
  pub mean : ℕ × ℕ
  pub greatest : ℕ
  pub p50 : ℕ
  pub p95 : ℕ
  pub p99 : ℕ
  pub p999 : ℕ

unfoldable pub summary : CeilProduct → LogLinearHistogram → Summary
summary ceil_product h = record {
  count = h.total_count;
  least = or_zero h.min_value;
  mean = (h.sum, h.total_count);
  greatest = h.max_value;
  p50 = quantile ceil_product (pos 50) 100 h;
  p95 = quantile ceil_product (pos 95) 100 h;
  p99 = quantile ceil_product (pos 99) 100 h;
  p999 = quantile ceil_product (pos 999) 1000 h;
}

abbrev pub summaries : CeilProduct → Dict Str LogLinearHistogram → Dict Str Summary
summaries ceil_product [] = []
summaries ceil_product ((k, h) ∷ hs) = (k, summary ceil_product h) ∷ summaries ceil_product hs

pub record MetricSnapshot : Type 0 where
  pub counters : Dict Str ℤ
  pub latencies : Dict Str Summary

unfoldable pub snapshot : CeilProduct → MetricsCollector → MetricSnapshot
snapshot ceil_product m = record {
  counters = m.counters;
  latencies = summaries ceil_product m.histograms;
}
