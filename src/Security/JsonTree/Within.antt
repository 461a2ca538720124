-- ===== src/Security/JsonTree/Within.antt =====
-- Which values `validate_json_tree` of peerq/security.py accepts.
use peer_q.Prelude.{
  ℕ, zero, suc, ◌+◌, ◌≤◌, ◌<◌, ◌≡◌, refl, ◌∙◌, Str, Bool, true, false, ◌&&◌, Option, some, [], ◌∷◌,
  arith, leb, Bool-cases, inl, inr, ap, sym,
}
use peer_q.Json.{Json, null, bool, int, float, str, arr, obj, finite, non_finite, count_fields}
use peer_q.Errors.{Result, ok, err, check, decode_error, ◌>>◌}
use peer_q.Security.JsonTree.{
  Limits, utf8_length, Stack, count_items, push_items, push_keys, push_values, visit, walk, weight,
  weight_stack, succeeds, visit-weight, utf8_cases, validate_json_tree, validate_json_tree-total,
  is_valid_tree,
}
-- A text that UTF-8 has, within the limit on its bytes.
use peer_q.Security.JsonTree.Tree.{
  fits_at, within_keys, within, within_items, within_values, count_entries, count_entries_items,
  count_entries_values, within_stack, count_entries_stack, and_swap, and_all, and_none,
  within-push_items, within-push_keys, within-push_values, count_entries-push_items,
  count_entries-push_keys, count_entries-push_values,
}

-- What the rest of the walk has to find.
abbrev verdict : Limits → Stack → ℕ → Bool
verdict l st items = within_stack l st && leb (items + count_entries_stack st) l.max_items

-- A round that goes on leaves the verdict as it was, and one that raises makes it false.
abbrev IsVisited : Limits → Stack → ℕ → Result (Stack × ℕ) → Type 0
IsVisited l st items (err e) = verdict l st items ≡ false
IsVisited l st items (ok (st', items')) =
    (items' ≤ l.max_items) × (verdict l st' items' ≡ verdict l st items)

leaf-IsVisited :
    (l : Limits) (j : Json) (d : ℕ) (st : Stack) (items : ℕ)
    → within l d j ≡ leb d l.max_depth
    → count_entries j ≡ 0
    → items ≤ l.max_items
    → IsVisited l ((j, d) ∷ st) items (check (leb d l.max_depth) decode_error >> ok (st, items))
leaf-IsVisited l j d st items w e h = elim (Bool-cases (leb d l.max_depth)) [
  | inl shallow ↦
      let same : 0 + count_entries_stack st ≡ count_entries_stack st = omega arith in
      let good : within l d j ≡ true = w ∙ shallow in rw shallow (h, rw (good, e, same) refl)
  | inr deep ↦ let bad : within l d j ≡ false = w ∙ deep in rw deep (rw bad refl)
]

container-IsVisited :
    (l : Limits) (j : Json) (d : ℕ) (st st' : Stack) (items n more : ℕ) (inner : Bool)
    → within l d j ≡ (leb d l.max_depth && inner)
    → count_entries j ≡ n + more
    → within_stack l st' ≡ (inner && within_stack l st)
    → count_entries_stack st' ≡ more + count_entries_stack st
    → IsVisited l ((j, d) ∷ st) items (
        check (leb d l.max_depth) decode_error
        >> (check (leb (items + n) l.max_items) decode_error >> ok (st', items + n)))
container-IsVisited l j d st st' items n more inner w e w' e' =
    elim (Bool-cases (leb d l.max_depth)) [
      | inr deep ↦
          let bad : within l d j ≡ false = w ∙ ap (λ b. b && inner) deep in rw deep (rw bad refl)
      | inl shallow ↦
          let good : within l d j ≡ inner = w ∙ ap (λ b. b && inner) shallow in
          elim (Bool-cases (leb (items + n) l.max_items)) [
            | inl few ↦
                let sum : items + n + (more + count_entries_stack st)
                    ≡ items + (n + more + count_entries_stack st) =
                  omega arith in
                rw (shallow, few) (ground (arith, few), rw (good, e, w', e', sum) refl)
            | inr many ↦
                let over : leb (items + (n + more + count_entries_stack st)) l.max_items ≡ false =
                  ground (arith, many) in
                rw (shallow, many) (rw (good, e, over) (and_none (inner && within_stack l st)))
          ]
    ]

within-str :
    (l : Limits) (d : ℕ) (s : Str)
    → (within l d (str s) ≡ fits_at l d s) × (count_entries (str s) ≡ 0)
unfolding within count_entries
within-str l d s = (refl, refl)

text-IsVisited :
    (l : Limits) (s : Str) (d : ℕ) (st : Stack) (items : ℕ)
    → items ≤ l.max_items
    → IsVisited l ((str s, d) ∷ st) items (visit l (str s) d st items)
unfolding visit
text-IsVisited l s d st items h =
    let (w, none_there) = within-str l d s in
    elim (Bool-cases (leb d l.max_depth)) [
      | inr deep ↦ let bad : within l d (str s) ≡ false = w ∙ rw deep refl in rw deep (rw bad refl)
      | inl shallow ↦ elim (utf8_cases (utf8_length s)) [
        | inr (x, e) ↦
            let bad : within l d (str s) ≡ false = w ∙ rw (shallow, e) refl in
            rw (shallow, e) (rw bad refl)
        | inl (n, e) ↦ elim (Bool-cases (leb n l.max_string_length)) [
          | inl short ↦
              let same : 0 + count_entries_stack st ≡ count_entries_stack st = omega arith in
              let good : within l d (str s) ≡ true = w ∙ rw (shallow, e, short) refl in
              rw (shallow, e, short) (h, rw (good, none_there, same) refl)
          | inr long ↦
              let bad : within l d (str s) ≡ false = w ∙ rw (shallow, e, long) refl in
              rw (shallow, e, long) (rw bad refl)
        ]
      ]
    ]

visit-IsVisited :
    (l : Limits) (j : Json) (d : ℕ) (st : Stack) (items : ℕ)
    → items ≤ l.max_items
    → IsVisited l ((j, d) ∷ st) items (visit l j d st items)
unfolding visit within count_entries
visit-IsVisited l (str s) d st items h = text-IsVisited l s d st items h
visit-IsVisited l (obj fs) d st items h =
    let keys = push_keys fs (d + 1) st in
    container-IsVisited l (obj fs) d st (push_values fs (d + 1) keys) items (count_fields fs)
      (count_entries_values fs) (within_keys l (d + 1) fs && within_values l (d + 1) fs) refl refl
      (within-push_values l fs (d + 1) keys
        ∙ ap (λ b. within_values l (d + 1) fs && b) (within-push_keys l fs (d + 1) st)
        ∙ and_swap (within_values l (d + 1) fs) (within_keys l (d + 1) fs) (within_stack l st))
      (count_entries-push_values fs (d + 1) keys
        ∙ ap (λ n. count_entries_values fs + n) (count_entries-push_keys fs (d + 1) st))
visit-IsVisited l (arr xs) d st items h =
    container-IsVisited l (arr xs) d st (push_items xs (d + 1) st) items (count_items xs)
      (count_entries_items xs) (within_items l (d + 1) xs) refl refl
      (within-push_items l xs (d + 1) st) (count_entries-push_items xs (d + 1) st)
visit-IsVisited l (float (finite t)) d st items h =
    leaf-IsVisited l (float (finite t)) d st items refl refl h
visit-IsVisited l (float non_finite) d st items h = refl
visit-IsVisited l null d st items h = leaf-IsVisited l null d st items refl refl h
visit-IsVisited l (bool b) d st items h = leaf-IsVisited l (bool b) d st items refl refl h
visit-IsVisited l (int n) d st items h = leaf-IsVisited l (int n) d st items refl refl h

walk-verdict :
    (fuel : ℕ) (l : Limits) (st : Stack) (items : ℕ)
    → weight_stack st < fuel
    → items ≤ l.max_items
    → succeeds (walk fuel l st items) ≡ verdict l st items
unfolding walk weight_stack
walk-verdict zero l st items h few = absurd (omega arith)
walk-verdict (suc fuel) l [] items h few = ground (arith, few)
walk-verdict (suc fuel) l ((j, d) ∷ st) items h few =
    next (walk-verdict fuel l) (visit l j d st items) refl (visit-IsVisited l j d st items few)
  where
    next :
        ((st' : Stack) (items' : ℕ)
          → weight_stack st' < fuel
          → items' ≤ l.max_items
          → succeeds (walk fuel l st' items') ≡ verdict l st' items')
        → (r : Result (Stack × ℕ)) → visit l j d st items ≡ r
        → IsVisited l ((j, d) ∷ st) items r
        → succeeds (elim r as (λ _. Option (Result (Unit {0}))) [
          | err e ↦ some (err e)
          | ok (stack', items') ↦ walk fuel l stack' items'
        ])
          ≡ verdict l ((j, d) ∷ st) items
    next rec (err e) v seen = sym seen
    next rec (ok (st', items')) v (few', same) =
        rec st' items' (omega (arith, visit-weight l j d st st' items items' v, h)) few' ∙ same

alone :
    (l : Limits) (j : Json)
    → verdict l ((j, 0) ∷ []) 0 ≡ (within l 0 j && leb (count_entries j) l.max_items)
alone l j =
    let same : 0 + (count_entries j + 0) ≡ count_entries j = omega arith in
    rw (and_all (within l 0 j), same) refl

-- The walk of `validate_json_tree` ends on every value, and accepts those, and only those, whose values
-- and keys are no deeper than the limit, whose texts are valid UTF-8 of no more bytes than the limit,
-- whose floats are finite, and whose objects and lists have no more entries, all together, than the
-- limit.
pub validate_json_tree-within :
    (l : Limits) (j : Json)
    → ((r : Result (Unit {0})) × (validate_json_tree l j ≡ some r))
      × (is_valid_tree l j ≡ (within l 0 j && leb (count_entries j) l.max_items))
unfolding validate_json_tree weight_stack is_valid_tree
validate_json_tree-within l j = (
  validate_json_tree-total l j,
  walk-verdict (suc (weight j)) l ((j, 0) ∷ []) 0 (omega arith) (omega arith) ∙ alone l j,
)
