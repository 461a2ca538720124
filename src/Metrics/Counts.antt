-- ===== src/Metrics/Counts.antt =====
-- The counts of a histogram add up, and its quantiles lie between the least and the greatest value.
use native.Mathlib.Nat.{one-le-pow, mul-le-mul_right}
use peer_q.Prelude.{
  ℕ, zero, suc, ◌+◌, ◌-◌, ◌*◌, ◌^◌, ◌≤◌, ◌<◌, max, min, ◌≡◌, refl, ap, ◌∙◌, subst, false, ◌&&◌,
  Option, none, some, List, [], ◌∷◌, arith, leb, length, take, Bool-cases, inl, inr,
}
use peer_q.Prelude.Int.{ℤ, pos, pos_part, leb_ℤ}
use peer_q.Errors.{ok, value_error, check, >>=-inverse, ok-injective}
use peer_q.Metrics.{
  LogLinearHistogram, max_octave, bucket_count, value_to_index, zeros, new_histogram, count_at,
  lesser, or_zero, record_value, quantile, find_bucket, clamped, index_to_twice, CeilProduct,
}

abbrev pub total : List ℕ → ℕ
total [] = 0
total (c ∷ cs) = c + total cs

-- The least value is there exactly when something was counted, and is not above the greatest.
abbrev pub Spans : ℕ → Option ℕ → ℕ → Type 0
Spans count none high = count ≡ 0
Spans count (some low) high = (0 < count) × (low ≤ high)

pub record IsHistogram (h : LogLinearHistogram) : Type 0 where
  pub buckets : length h.counts ≡ h.total_buckets
  pub linear : 2 ^ h.sub_bucket_bits < h.total_buckets
  pub counted : total h.counts ≡ h.total_count
  pub spans : Spans h.total_count h.min_value h.max_value

length-zeros : (n : ℕ) → length (zeros n) ≡ n
length-zeros zero = refl
length-zeros (suc n) = ap suc (length-zeros n)

total-zeros : (n : ℕ) → total (zeros n) ≡ 0
total-zeros zero = refl
total-zeros (suc n) = omega (arith, total-zeros n)

-- Counting one more in a bucket that is there.
count_at-total :
    (i : ℕ) (cs : List ℕ)
    → i < length cs
    → (ds : List ℕ) × (count_at i cs ≡ ok ds) × (length ds ≡ length cs) × (total ds ≡ total cs + 1)
unfolding count_at
count_at-total i [] h = absurd (omega arith)
count_at-total zero (c ∷ cs) h = ((c + 1) ∷ cs, refl, refl, omega arith)
count_at-total (suc i) (c ∷ cs) h =
    let (ds, e, n, t) = count_at-total i cs (omega arith) in
    (c ∷ ds, rw e refl, ap suc n, omega (arith, t))

index-in_range : (bits n v : ℕ) → 2 ^ bits < n → value_to_index bits n v < n
unfolding value_to_index
index-in_range bits n v h = ground arith

lesser-Spans :
    (count : ℕ) (o : Option ℕ) (high v : ℕ)
    → Spans count o high
    → Spans (count + 1) (some (lesser o v)) (max high v)
lesser-Spans count none high v h = (omega arith, omega arith)
lesser-Spans count (some low) high v h = (omega arith, omega (arith, h.1))

-- Every measurement that is not negative is recorded: no index is out of range, and one more is
-- counted, in the buckets as in the total.
pub record_value-IsHistogram :
    (v : ℕ) (h : LogLinearHistogram)
    → IsHistogram h
    → (g : LogLinearHistogram) × (record_value (pos v) h ≡ ok g)
      × IsHistogram g
      × (g.total_count ≡ h.total_count + 1)
      × (g.sum ≡ h.sum + v)
unfolding record_value
record_value-IsHistogram v h w =
    let i : ℕ = value_to_index h.sub_bucket_bits h.total_buckets v in
    let inside : i < length h.counts =
      omega (arith, index-in_range h.sub_bucket_bits h.total_buckets v w.linear, w.buckets) in
    let (ds, e, n, t) = count_at-total i h.counts inside in
    (
      record h {
        counts = ds;
        total_count = h.total_count + 1;
        sum = h.sum + v;
        min_value = some (lesser h.min_value v);
        max_value = max h.max_value v;
      },
      rw e refl,
      record {
        buckets = n ∙ w.buckets;
        linear = w.linear;
        counted = omega (arith, t, w.counted);
        spans = lesser-Spans h.total_count h.min_value h.max_value v w.spans;
      },
      refl,
      refl,
    )

bucket_count-large : (bits most : ℕ) → 2 ^ bits < bucket_count bits most
unfolding bucket_count
bucket_count-large bits most =
    let m : ℕ = 2 ^ bits in
    let rows : 1 * m ≤ max 1 (max_octave bits most + 1 - bits) * m =
      mul-le-mul_right m (omega arith) in
    omega (arith, one-le-pow bits 2 (omega arith))

pub new_histogram-IsHistogram :
    (bits most : ℕ) (h : LogLinearHistogram) → new_histogram bits most ≡ ok h → IsHistogram h
unfolding new_histogram
new_histogram-IsHistogram bits most h e =
    let (u, checked, made) = >>=-inverse (check (leb 1 bits && leb bits 16) value_error) _ e in
    subst IsHistogram (ok-injective made) (record {
      buckets = length-zeros (bucket_count bits most);
      linear = bucket_count-large bits most;
      counted = total-zeros (bucket_count bits most);
      spans = refl;
    })

clamped-between :
    (bits low high : ℕ) (o : Option ℕ)
    → low ≤ high
    → (2 * low ≤ clamped bits low high o) × (clamped bits low high o ≤ 2 * high)
clamped-between bits low high none h = (omega arith, omega arith)
clamped-between bits low high (some i) h = (omega arith, omega arith)

-- The bucket that the search stops at: the target is reached there and not before.
find_bucket_lem :
    (target i so_far : ℕ) (cs : List ℕ)
    → so_far < target
    → target ≤ so_far + total cs
    → (k : ℕ) × (find_bucket target i so_far cs ≡ some (i + k))
      × (k < length cs)
      × (so_far + total (take k cs) < target)
      × (target ≤ so_far + total (take (suc k) cs))
unfolding find_bucket
find_bucket_lem target i so_far [] low high = absurd (omega arith)
find_bucket_lem target i so_far (c ∷ cs) low high = elim (Bool-cases (leb target (so_far + c))) [
  | inl e ↦ (0, rw e (ap some (omega arith)), omega arith, omega arith, ground arith)
  | inr e ↦
      let (k, found, inside, before, until) =
        find_bucket_lem target (i + 1) (so_far + c) cs (ground arith) (omega arith) in
      (suc k, rw e (found ∙ ap some (omega arith)), omega arith, omega arith, omega arith)
]

quantile-between :
    (ceil_product : CeilProduct) (q : ℤ) (d : ℕ) (h : LogLinearHistogram) (low : ℕ)
    → h.min_value ≡ some low
    → 0 < h.total_count
    → low ≤ h.max_value
    → (2 * low ≤ quantile ceil_product q d h) × (quantile ceil_product q d h ≤ 2 * h.max_value)
unfolding quantile
quantile-between ceil_product q d h low e p le =
    let some_counted : leb h.total_count 0 ≡ false = ground arith in
    let least : or_zero h.min_value ≡ low = rw e refl in
    elim (Bool-cases (leb_ℤ q (pos 0))) [
      | inl z ↦ rw (some_counted, z, least) (omega arith, omega (arith, le))
      | inr n ↦ elim (Bool-cases (leb_ℤ (pos d) q)) [
        | inl o ↦ rw (some_counted, n, o) (omega arith, omega arith)
        | inr i ↦
            rw (some_counted, n, i, least)
              (clamped-between h.sub_bucket_bits low h.max_value
                (find_bucket (ceil_product (pos_part q) d h.total_count) 0 0 h.counts) le)
      ]
    ]

least_there :
    (count : ℕ) (o : Option ℕ) (high : ℕ)
    → 0 < count
    → Spans count o high
    → (low : ℕ) × (o ≡ some low)
least_there count none high p s = absurd (omega arith)
least_there count (some low) high p s = (low, refl)

-- On a histogram that counted something a quantile `n / d` strictly between 0 and 1 is, cut to the range
-- from the least to the greatest measurement, the representative value of the bucket that holds the
-- measurement whose rank is the rounded-up product of quantile and count, where the float product does
-- not fall to zero or exceed the count.
pub quantile_lem :
    (ceil_product : CeilProduct) (n d : ℕ) (h : LogLinearHistogram)
    → IsHistogram h
    → 0 < h.total_count
    → 0 < n
    → n < d
    → 0 < ceil_product n d h.total_count
    → ceil_product n d h.total_count ≤ h.total_count
    → (low k : ℕ) × (h.min_value ≡ some low)
      × (quantile ceil_product (pos n) d h
          ≡ max (2 * low) (min (2 * h.max_value) (index_to_twice h.sub_bucket_bits k)))
      × (total (take k h.counts) < ceil_product n d h.total_count)
      × (ceil_product n d h.total_count ≤ total (take (suc k) h.counts))
unfolding quantile
quantile_lem ceil_product n d h w p above below first last =
    let some_counted : leb h.total_count 0 ≡ false = ground arith in
    let not_least : leb (n + 0) 0 ≡ false = ground arith in
    let not_greatest : leb (d + 0) (n + 0) ≡ false = ground arith in
    let r : ℕ = ceil_product n d h.total_count in
    let (low, least) = least_there h.total_count h.min_value h.max_value p w.spans in
    let (k, found, inside, before, until) =
      find_bucket_lem r 0 0 h.counts (omega arith) (omega (arith, w.counted)) in
    let here : find_bucket r 0 0 h.counts ≡ some k = found ∙ ap some (omega arith) in
    (
      low,
      k,
      least,
      rw (some_counted, not_least, not_greatest, least, here) refl,
      omega (arith, before),
      omega (arith, until),
    )
