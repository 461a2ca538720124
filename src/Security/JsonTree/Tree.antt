-- ===== src/Security/JsonTree/Tree.antt =====
-- The limits of `validate_json_tree` of peerq/security.py on a value, by recursion on the value in place
-- of the walk, and what the pushes of the walk do to them.
use peer_q.Prelude.{ℕ, ◌+◌, ◌≡◌, refl, ◌∙◌, Str, Bool, true, false, ◌&&◌, [], ◌∷◌, arith, leb}
use peer_q.Json.{
  Json, float, str, arr, obj, Items, nil, cons, Fields, end, field, non_finite, count_fields,
}
use peer_q.Errors.{Result, ok, err}
use peer_q.Security.JsonTree.{
  Limits, utf8_length, Stack, count_items, push_items, push_keys, push_values,
}

-- A text that UTF-8 has, within the limit on its bytes.
abbrev pub is_short : Limits → Result ℕ → Bool
is_short l (ok n) = leb n l.max_string_length
is_short l (err e) = false

abbrev pub fits_utf8 : Limits → Str → Bool
fits_utf8 l s = is_short l (utf8_length s)

abbrev pub fits_at : Limits → ℕ → Str → Bool
fits_at l depth s = leb depth l.max_depth && fits_utf8 l s

unfoldable pub within_keys : Limits → ℕ → Fields → Bool
within_keys l depth end = true
within_keys l depth (field k v fs) = fits_at l depth k && within_keys l depth fs

-- No value or key of a tree is too deep or too long, and no float is infinite or nan.
unfoldable mutual
  pub within : Limits → ℕ → Json → Bool
  within l depth (str s) = fits_at l depth s
  within l depth (float non_finite) = false
  within l depth (arr xs) = leb depth l.max_depth && within_items l (depth + 1) xs
  within l depth (obj fs) =
      leb depth l.max_depth && (within_keys l (depth + 1) fs && within_values l (depth + 1) fs)
  within l depth _ = leb depth l.max_depth

  pub within_items : Limits → ℕ → Items → Bool
  within_items l depth nil = true
  within_items l depth (cons x xs) = within l depth x && within_items l depth xs

  pub within_values : Limits → ℕ → Fields → Bool
  within_values l depth end = true
  within_values l depth (field k v fs) = within l depth v && within_values l depth fs

-- The entries of all objects and lists of a tree.
unfoldable mutual
  pub count_entries : Json → ℕ
  count_entries (arr xs) = count_items xs + count_entries_items xs
  count_entries (obj fs) = count_fields fs + count_entries_values fs
  count_entries _ = 0

  pub count_entries_items : Items → ℕ
  count_entries_items nil = 0
  count_entries_items (cons x xs) = count_entries x + count_entries_items xs

  pub count_entries_values : Fields → ℕ
  count_entries_values end = 0
  count_entries_values (field k v fs) = count_entries v + count_entries_values fs

abbrev pub within_stack : Limits → Stack → Bool
within_stack l [] = true
within_stack l ((j, depth) ∷ stack) = within l depth j && within_stack l stack

abbrev pub count_entries_stack : Stack → ℕ
count_entries_stack [] = 0
count_entries_stack ((j, depth) ∷ stack) = count_entries j + count_entries_stack stack

pub and_swap : (a b c : Bool) → (a && (b && c)) ≡ ((b && a) && c)
and_swap true b c = ground arith
and_swap false true c = refl
and_swap false false c = refl

pub and_all : (a : Bool) → (a && true) ≡ a
and_all true = refl
and_all false = refl

pub and_none : (a : Bool) → (a && false) ≡ false
and_none true = refl
and_none false = refl

pub within-push_items :
    (l : Limits) (xs : Items) (d : ℕ) (st : Stack)
    → within_stack l (push_items xs d st) ≡ (within_items l d xs && within_stack l st)
unfolding push_items within
within-push_items l nil d st = refl
within-push_items l (cons x xs) d st =
    within-push_items l xs d ((x, d) ∷ st) ∙ and_swap (within_items l d xs) _ (within_stack l st)

pub within-push_keys :
    (l : Limits) (fs : Fields) (d : ℕ) (st : Stack)
    → within_stack l (push_keys fs d st) ≡ (within_keys l d fs && within_stack l st)
unfolding push_keys within within_keys
within-push_keys l end d st = refl
within-push_keys l (field k v fs) d st =
    within-push_keys l fs d ((str k, d) ∷ st) ∙ and_swap (within_keys l d fs) _ (within_stack l st)

pub within-push_values :
    (l : Limits) (fs : Fields) (d : ℕ) (st : Stack)
    → within_stack l (push_values fs d st) ≡ (within_values l d fs && within_stack l st)
unfolding push_values within
within-push_values l end d st = refl
within-push_values l (field k v fs) d st =
    within-push_values l fs d ((v, d) ∷ st) ∙ and_swap (within_values l d fs) _ (within_stack l st)

pub count_entries-push_items :
    (xs : Items) (d : ℕ) (st : Stack)
    → count_entries_stack (push_items xs d st) ≡ count_entries_items xs + count_entries_stack st
unfolding push_items count_entries
count_entries-push_items nil d st = omega arith
count_entries-push_items (cons x xs) d st =
    omega (arith, count_entries-push_items xs d ((x, d) ∷ st))

pub count_entries-push_keys :
    (fs : Fields) (d : ℕ) (st : Stack)
    → count_entries_stack (push_keys fs d st) ≡ count_entries_stack st
unfolding push_keys count_entries
count_entries-push_keys end d st = refl
count_entries-push_keys (field k v fs) d st =
    omega (arith, count_entries-push_keys fs d ((str k, d) ∷ st))

pub count_entries-push_values :
    (fs : Fields) (d : ℕ) (st : Stack)
    → count_entries_stack (push_values fs d st) ≡ count_entries_values fs + count_entries_stack st
unfolding push_values count_entries
count_entries-push_values end d st = omega arith
count_entries-push_values (field k v fs) d st =
    omega (arith, count_entries-push_values fs d ((v, d) ∷ st))
