-- ===== src/Security/ReplayCache.antt =====
-- `ReplayCache` of peerq/security.py. Its entries are an OrderedDict, oldest first; times are whole
-- microseconds.
use peer_q.Prelude.{
  ℕ, zero, suc, ◌≤◌, ◌≡◌, refl, Str, Bool, true, false, some, [], ◌∷◌, arith, if◌then◌else◌, ltb,
  length, str_ordered, pair_ordered, Bool-cases, inl, inr,
}
use peer_q.Prelude.Int.{ℤ, ◌-ℤ◌, ◌≤ℤ◌, ltb_ℤ}
use peer_q.Prelude.Dict.{Dict, lookup, has, insert, has-lookup-some}
use peer_q.Errors.{Result, ok, err, value_error}

pub record ReplayCache : Type 0 where
  pub max_entries : ℕ
  pub entries : Dict (Str × Str) ℤ

-- `ReplayCache(max_entries)`
unfoldable pub new_cache : ℕ → Result ReplayCache
new_cache zero = err value_error
new_cache (suc n) = ok (record { max_entries = suc n; entries = [] })

-- The first loop: old entries leave from the front, up to the first that is not.
unfoldable pub expire : ℤ → Dict (Str × Str) ℤ → Dict (Str × Str) ℤ
expire cutoff [] = []
expire cutoff (e ∷ es) = let rest = expire cutoff es in if ltb_ℤ e.1 cutoff then rest else e ∷ es

-- The second loop: the front leaves while there are too many.
unfoldable pub evict : ℕ → Dict (Str × Str) ℤ → Dict (Str × Str) ℤ
evict limit [] = []
evict limit (e ∷ es) =
    let rest = evict limit es in if ltb limit (length (e ∷ es)) then rest else e ∷ es

unfoldable pub check_and_remember : Str → Str → ℤ → ℤ → ReplayCache → Bool × ReplayCache
check_and_remember sender_id nonce now window c =
    let live = expire (now -ℤ window) c.entries in
    if has (sender_id, nonce) live
    then (false, record c { entries = live })
    else (true, record c { entries = evict c.max_entries (insert (sender_id, nonce) now live) })

length-evict : (limit : ℕ) (es : Dict (Str × Str) ℤ) → length (evict limit es) ≤ limit
unfolding evict
length-evict limit [] = omega arith
length-evict limit (e ∷ es) = ground (arith, length-evict limit es)

length-expire : (cutoff : ℤ) (es : Dict (Str × Str) ℤ) → length (expire cutoff es) ≤ length es
unfolding expire
length-expire cutoff [] = omega arith
length-expire cutoff (e ∷ es) = ground (arith, length-expire cutoff es)

lookup-expire :
    (cutoff t : ℤ) (k : Str × Str) (es : Dict (Str × Str) ℤ)
    → cutoff ≤ℤ t
    → lookup k es ≡ some t
    → lookup k (expire cutoff es) ≡ some t
unfolding expire lookup
lookup-expire cutoff t k [] h e = ground arith
lookup-expire cutoff t k ((j, s) ∷ es) h e = ground (arith, lookup-expire cutoff t k es h)

-- A nonce that the cache remembers for its sender, from no longer ago than the window, is refused.
pub replay_refused :
    (sender nonce : Str) (now window t : ℤ) (c : ReplayCache)
    → lookup (sender, nonce) c.entries ≡ some t
    → (now -ℤ window) ≤ℤ t
    → (check_and_remember sender nonce now window c).0 ≡ false
unfolding check_and_remember
replay_refused sender nonce now window t c e fresh =
    let live : Dict (Str × Str) ℤ = expire (now -ℤ window) c.entries in
    rw
      (has-lookup-some (sender, nonce) live t
        (lookup-expire (now -ℤ window) t (sender, nonce) c.entries fresh e))
      refl

-- The cache holds no more than its limit after a call, if it did not before.
pub length-check_and_remember :
    (sender nonce : Str) (now window : ℤ) (c : ReplayCache)
    → length c.entries ≤ c.max_entries
    → length (check_and_remember sender nonce now window c).1.entries ≤ c.max_entries
unfolding check_and_remember
length-check_and_remember sender nonce now window c h =
    let live : Dict (Str × Str) ℤ = expire (now -ℤ window) c.entries in
    elim (Bool-cases (has (sender, nonce) live)) [
      | inl seen ↦ rw seen (omega (arith, h, length-expire (now -ℤ window) c.entries))
      | inr new ↦ rw new (length-evict c.max_entries (insert (sender, nonce) now live))
    ]
