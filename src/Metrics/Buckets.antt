-- ===== src/Metrics/Buckets.antt =====
-- How far the representative value of a bucket is from the values in it.
use native.Mathlib.Nat.{
  mul-div-le, lt-mul-div-succ, le-div_iff_mul-le, div-lt_iff_lt-mul, mul_comm, mul_assoc,
  mul-add-div_right, mul-add-mod_self_right, mul-add, suc-mul, mod-eq_of_lt, mod-lt, add-mod_left,
  div-eq_of_lt, pow-succ', pow-le-pow_right, one-le-pow, mul-le-mul_right,
}
use peer_q.Prelude.{
  ℕ, zero, suc, ◌+◌, ◌-◌, ◌*◌, ◌/◌, ◌%◌, ◌^◌, ◌≤◌, ◌<◌, max, ◌≡◌, refl, sym, ap, ◌∙◌, subst, true,
  false, arith, ltb, leb, Bool-cases, inl, inr, ◌⊎◌,
}
use peer_q.Metrics.{
  count_bits, bit_length, ceil_log2, max_octave, bucket_count, octave_bucket, value_to_index,
  index_to_twice,
}

count_bits_zero : (fuel : ℕ) → count_bits fuel 0 ≡ 0
unfolding count_bits
count_bits_zero zero = refl
count_bits_zero (suc fuel) = refl

pow_pred : (b : ℕ) → 0 < b → 2 ^ b ≡ 2 * 2 ^ (b - 1)
pow_pred zero h = omega arith
pow_pred (suc b) h = let e : suc b - 1 ≡ b = omega arith in rw e (pow-succ' 2 b)

pow_add : (a b : ℕ) → 2 ^ (a + b) ≡ 2 ^ a * 2 ^ b
pow_add zero b =
    let e : zero + b ≡ b = omega arith in
    let o : 2 ^ zero ≡ 1 = omega arith in rw (e, o) (omega arith)
pow_add (suc a) b =
    let e : suc a + b ≡ suc (a + b) = omega arith in
    rw (e, pow-succ' 2 (a + b), pow-succ' 2 a, pow_add a b) (sym (mul_assoc 2 (2 ^ a) (2 ^ b)))

count_bits_lem :
    (fuel n : ℕ)
    → n ≤ fuel
    → 0 < n
    → (2 ^ (count_bits fuel n - 1) ≤ n) × (n < 2 ^ count_bits fuel n) × (0 < count_bits fuel n)
unfolding count_bits
count_bits_lem zero n h p = omega arith
count_bits_lem (suc fuel) zero h p = omega arith
count_bits_lem (suc fuel) (suc zero) h p =
    rw (count_bits_zero fuel) (omega arith, omega arith, omega arith)
count_bits_lem (suc fuel) (suc (suc n)) h p =
    let half : ℕ = suc (suc n) / 2 in
    let (low, high, some_bits) = count_bits_lem fuel half (omega arith) (omega arith) in
    let next : 2 ^ suc (count_bits fuel half) ≡ 2 * 2 ^ count_bits fuel half = pow-succ' 2 _ in
    let here : suc (count_bits fuel half) - 1 ≡ count_bits fuel half = omega arith in
    (
      rw here (omega (arith, pow_pred (count_bits fuel half) some_bits)),
      rw next (omega arith),
      omega arith,
    )

exponent-le : (a c v : ℕ) → 2 ^ a ≤ v → v < 2 * 2 ^ c → a ≤ c
exponent-le a c v low high = elim (Bool-cases (leb a c)) [
  | inl e ↦ ground arith
  | inr e ↦
      let above : suc c ≤ a = ground arith in
      let more : 2 ^ suc c ≤ 2 ^ a = pow-le-pow_right (omega arith) above in
      omega (arith, pow-succ' 2 c)
]

-- The highest bit of a value.
octave_lem :
    (bits v : ℕ)
    → 2 ^ bits ≤ v
    → (bits ≤ bit_length v - 1) × (2 ^ (bit_length v - 1) ≤ v) × (v < 2 * 2 ^ (bit_length v - 1))
octave_lem bits v h =
    let positive : 0 < v = omega (arith, one-le-pow bits 2 (omega arith)) in
    let (low, high, some_bits) = count_bits_lem v v (omega arith) positive in
    let top : v < 2 * 2 ^ (bit_length v - 1) =
      subst (λ x. v < x) (pow_pred (bit_length v) some_bits) high in
    (exponent-le bits (bit_length v - 1) v h top, low, top)

-- The sub-bucket of a value between `w * m` and its double.
sub_bucket :
    (m w v : ℕ)
    → 0 < w
    → w * m ≤ v
    → v < 2 * (w * m)
    → (r : ℕ) × (v / w ≡ m + r)
      × (r < m)
      × (v / w % m ≡ r)
      × (w * m + r * w ≤ v)
      × (v < w * m + r * w + w)
sub_bucket m w v p low high =
    let q : ℕ = v / w in
    let above : m ≤ q = (le-div_iff_mul-le p).1 (omega (arith, mul_comm m w)) in
    let below : q < 2 * m =
      (div-lt_iff_lt-mul p).1 (omega (arith, mul_assoc 2 m w, mul_comm m w, high)) in
    let r : ℕ = q - m in
    let split : q ≡ m + r = omega arith in
    let small : r < m = omega arith in
    let product : w * q ≡ w * m + r * w =
      ap (λ x. w * x) split ∙ mul-add w m r ∙ ap (λ x. w * m + x) (mul_comm w r) in
    (
      r,
      split,
      small,
      ap (λ x. x % m) split ∙ add-mod_left m r ∙ mod-eq_of_lt small,
      omega (arith, product, mul-div-le v w),
      omega (arith, product, lt-mul-div-succ v p),
    )

k_plus_zero : (k : ℕ) → k + 0 ≡ k
k_plus_zero k = omega arith

-- A value's bucket outside of the linear range, and what it stands for: the bucket is `w` wide.
bucket_of :
    (bits v : ℕ)
    → 2 ^ bits ≤ v
    → (w : ℕ) × (w * 2 ^ bits ≤ v)
      × (index_to_twice bits (octave_bucket bits v) ≤ 2 * v + w)
      × (2 * v ≤ index_to_twice bits (octave_bucket bits v) + w)
unfolding index_to_twice octave_bucket
bucket_of bits v h =
    let m : ℕ = 2 ^ bits in
    let oct : ℕ = bit_length v - 1 in
    let k : ℕ = oct - bits in
    let w : ℕ = 2 ^ k in
    let (above, low, high) = octave_lem bits v h in
    let exponent : oct ≡ k + bits = omega arith in
    let base : 2 ^ oct ≡ w * m = ap (λ x. 2 ^ x) exponent ∙ pow_add k bits in
    let m_pos : 0 < m = one-le-pow bits 2 (omega arith) in
    let w_pos : 0 < w = one-le-pow k 2 (omega arith) in
    let (r, split, small, digit, from, until) =
      sub_bucket m w v w_pos (subst (λ x. x ≤ v) base low) (subst (λ x. v < 2 * x) base high) in
    let offset : ℕ = k * m + r in
    let index : m + k * m + v / w % m ≡ m + offset = omega (arith, digit) in
    let not_linear : ltb (m + offset) m ≡ false = ground arith in
    let back : (m + offset) - m ≡ offset = omega arith in
    let row : offset / m ≡ k =
      mul-add-div_right m_pos k r ∙ ap (λ x. k + x) (div-eq_of_lt small) ∙ k_plus_zero k in
    let column : offset % m ≡ r = mul-add-mod_self_right k m r ∙ mod-eq_of_lt small in
    (
      w,
      omega (arith, base, low),
      rw (index, not_linear, back, row, column) (omega (arith, from, until)),
      rw (index, not_linear, back, row, column) (omega (arith, from, until)),
    )

-- The raw bucket of a value up to `max_value` is there.
ceil_log2_lem : (n : ℕ) → 1 < n → n ≤ 2 ^ ceil_log2 n
ceil_log2_lem n h = omega (arith, count_bits_lem (n - 1) (n - 1) (omega arith) (omega arith))

octave_bucket-in_range :
    (bits most v : ℕ)
    → 2 ^ bits < most
    → 2 ^ bits ≤ v
    → v ≤ most
    → octave_bucket bits v < bucket_count bits most
unfolding octave_bucket bucket_count max_octave
octave_bucket-in_range bits most v large h le =
    let m : ℕ = 2 ^ bits in
    let (above, low, high) = octave_lem bits v h in
    let m_pos : 0 < m = one-le-pow bits 2 (omega arith) in
    let top : bit_length v - 1 ≤ ceil_log2 most =
      exponent-le (bit_length v - 1) (ceil_log2 most) most (omega (arith, low, le))
        (omega (arith, ceil_log2_lem most (omega arith))) in
    let k : ℕ = bit_length v - 1 - bits in
    let room : suc k ≤ max 1 (ceil_log2 most + 1 - bits) = omega (arith, above, top) in
    let rows : suc k * m ≤ max 1 (ceil_log2 most + 1 - bits) * m = mul-le-mul_right m room in
    let one_more : suc k * m ≡ k * m + m = suc-mul k m in
    let digit : v / 2 ^ k % m < m = mod-lt (v / 2 ^ k) m_pos in
    let wide : ltb m most ≡ true = ground arith in rw wide (omega (arith, rows, one_more, digit))

linear_index : (bits total v : ℕ) → v < 2 ^ bits → value_to_index bits total v ≡ v
unfolding value_to_index
linear_index bits total v h = let linear : ltb v (2 ^ bits) ≡ true = ground arith in rw linear refl

octave_index :
    (bits most v : ℕ)
    → 2 ^ bits < most
    → 2 ^ bits ≤ v
    → v ≤ most
    → value_to_index bits (bucket_count bits most) v ≡ octave_bucket bits v
unfolding value_to_index
octave_index bits most v large reached le =
    let above : ltb v (2 ^ bits) ≡ false = ground arith in
    rw above (omega (arith, octave_bucket-in_range bits most v large reached le))

linear_value : (bits v : ℕ) → v < 2 ^ bits → index_to_twice bits v ≡ 2 * v + 1
unfolding index_to_twice
linear_value bits v h = let linear : ltb v (2 ^ bits) ≡ true = ground arith in rw linear refl

-- Every value up to the maximum that a histogram is made for falls into a bucket whose
-- representative value is off by at most half a unit below `2 ^ bits`, and from there on by at most
-- half the width of the bucket, which is at most the value's `2 ^ bits`-th part.
pub index_to_twice-value_to_index :
    (bits most v : ℕ)
    → 2 ^ bits < most
    → v ≤ most
    → (w : ℕ) × ((w ≡ 1) ⊎ (w * 2 ^ bits ≤ v))
      × (index_to_twice bits (value_to_index bits (bucket_count bits most) v) ≤ 2 * v + w)
      × (2 * v ≤ index_to_twice bits (value_to_index bits (bucket_count bits most) v) + w)
index_to_twice-value_to_index bits most v large le = elim (Bool-cases (ltb v (2 ^ bits))) [
  | inl below ↦
      let linear : v < 2 ^ bits = ground arith in
      rw (linear_index bits (bucket_count bits most) v linear, linear_value bits v linear)
        (1, inl refl, omega arith, omega arith)
  | inr above ↦
      let reached : 2 ^ bits ≤ v = ground arith in
      let (w, narrow, up, down) = bucket_of bits v reached in
      rw (octave_index bits most v large reached le) (w, inr narrow, up, down)
]
