-- ===== src/Security/JsonTree.antt =====
-- `validate_json_tree` of peerq/security.py: a walk over a decoded JSON value with an explicit
-- stack. The top of the stack is the head of the list.
pub mod Tree
pub mod Within
use peer_q.Prelude.{
  ℕ, zero, suc, ◌+◌, ◌<◌, ◌≡◌, ◌≢◌, ◌⊎◌, refl, Str, Bool, true, false, Option, none, some, List, [],
  ◌∷◌, arith, if◌then◌else◌, ltb, leb, Option-cases, inl, inr,
}
use peer_q.Json.{
  Json, null, bool, int, float, str, arr, obj, Items, nil, cons, Fields, end, field, finite,
  non_finite, count_fields,
}
use peer_q.Errors.{Error, Result, ok, err, value_error, decode_error, ◌>>=◌, ◌>>◌, check}

pub record Limits : Type 0 where
  pub max_depth : ℕ
  pub max_items : ℕ
  pub max_string_length : ℕ

-- `len(s.encode("utf-8"))`; a surrogate code point raises UnicodeEncodeError, a ValueError.
unfoldable pub utf8_length : Str → Result ℕ
utf8_length [] = ok 0
utf8_length (c ∷ cs) = do
  check (if leb 55296 c then ltb 57343 c else true) value_error
  n ← utf8_length cs
  ok (n + (if ltb c 128 then 1 else if ltb c 2048 then 2 else if ltb c 65536 then 3 else 4))

abbrev pub Stack : Type 0
Stack = List (Json × ℕ)

-- `len(current)` of a list.
unfoldable pub count_items : Items → ℕ
count_items nil = 0
count_items (cons x xs) = suc (count_items xs)

-- `stack.extend((child, depth) for child in items)`, and so for the keys and the values of a dict.
unfoldable pub push_items : Items → ℕ → Stack → Stack
push_items nil depth stack = stack
push_items (cons x xs) depth stack = push_items xs depth ((x, depth) ∷ stack)

unfoldable pub push_keys : Fields → ℕ → Stack → Stack
push_keys end depth stack = stack
push_keys (field k v fs) depth stack = push_keys fs depth ((str k, depth) ∷ stack)

unfoldable pub push_values : Fields → ℕ → Stack → Stack
push_values end depth stack = stack
push_values (field k v fs) depth stack = push_values fs depth ((v, depth) ∷ stack)

-- One round on the popped value: the stack and the item count that it leaves, or the exception.
unfoldable pub visit : Limits → Json → ℕ → Stack → ℕ → Result (Stack × ℕ)
visit l (str s) depth stack items = do
  check (leb depth l.max_depth) decode_error
  n ← utf8_length s
  check (leb n l.max_string_length) decode_error
  ok (stack, items)
visit l (float non_finite) depth stack items = err decode_error
visit l (obj fs) depth stack items = do
  check (leb depth l.max_depth) decode_error
  check (leb (items + count_fields fs) l.max_items) decode_error
  ok (push_values fs (depth + 1) (push_keys fs (depth + 1) stack), items + count_fields fs)
visit l (arr xs) depth stack items = do
  check (leb depth l.max_depth) decode_error
  check (leb (items + count_items xs) l.max_items) decode_error
  ok (push_items xs (depth + 1) stack, items + count_items xs)
visit l _ depth stack items = do check (leb depth l.max_depth) decode_error; ok (stack, items)

-- The loop, on fuel: `none` means that the fuel ran out.
unfoldable pub walk : ℕ → Limits → Stack → ℕ → Option (Result (Unit {0}))
walk zero l stack items = none
walk (suc fuel) l [] items = some (ok tt)
walk (suc fuel) l ((current, depth) ∷ stack) items = elim (visit l current depth stack items) [
  | err e ↦ some (err e)
  | ok (stack', items') ↦ walk fuel l stack' items'
]

-- The number of values in a tree, keys included: the rounds that its walk takes.
unfoldable mutual
  pub weight : Json → ℕ
  weight null = 1
  weight (bool b) = 1
  weight (int n) = 1
  weight (float f) = 1
  weight (str s) = 1
  weight (arr xs) = suc (weight_items xs)
  weight (obj fs) = suc (weight_fields fs)

  pub weight_items : Items → ℕ
  weight_items nil = 0
  weight_items (cons x xs) = weight x + weight_items xs

  pub weight_fields : Fields → ℕ
  weight_fields end = 0
  weight_fields (field k v fs) = suc (weight v + weight_fields fs)

unfoldable pub validate_json_tree : Limits → Json → Option (Result (Unit {0}))
validate_json_tree l value = walk (suc (weight value)) l ((value, 0) ∷ []) 0

-- Whether the walk ends without exception.
abbrev pub succeeds : Option (Result (Unit {0})) → Bool
succeeds (some (ok u)) = true
succeeds (some (err e)) = false
succeeds none = false

unfoldable pub is_valid_tree : Limits → Json → Bool
is_valid_tree l value = succeeds (validate_json_tree l value)

weight_stack : Stack → ℕ
weight_stack [] = 0
weight_stack ((j, d) ∷ stack) = weight j + weight_stack stack

weight-push_items :
    (xs : Items) (d : ℕ) (st : Stack)
    → weight_stack (push_items xs d st) ≡ weight_items xs + weight_stack st
unfolding weight push_items weight_stack
weight-push_items nil d st = omega arith
weight-push_items (cons x xs) d st = omega (arith, weight-push_items xs d ((x, d) ∷ st))

weight-push_keys :
    (fs : Fields) (d : ℕ) (st : Stack)
    → weight_stack (push_keys fs d st) ≡ count_fields fs + weight_stack st
unfolding weight push_keys weight_stack count_fields
weight-push_keys end d st = omega arith
weight-push_keys (field k v fs) d st = omega (arith, weight-push_keys fs d ((str k, d) ∷ st))

weight-push_values :
    (fs : Fields) (d : ℕ) (st : Stack)
    → weight_stack (push_values fs d st) + count_fields fs ≡ weight_fields fs + weight_stack st
unfolding weight push_values weight_stack count_fields
weight-push_values end d st = omega arith
weight-push_values (field k v fs) d st = omega (arith, weight-push_values fs d ((v, d) ∷ st))

utf8_cases : (r : Result ℕ) → ((n : ℕ) × (r ≡ ok n)) ⊎ ((e : Error) × (r ≡ err e))
utf8_cases (ok n) = inl (n, refl)
utf8_cases (err e) = inr (e, refl)

-- What a round leaves weighs less than the stack it began with.
visit-weight :
    (l : Limits) (j : Json) (d : ℕ) (st st' : Stack) (items items' : ℕ)
    → visit l j d st items ≡ ok (st', items')
    → weight_stack st' < weight j + weight_stack st
unfolding visit weight
visit-weight l (str s) d st st' items items' h = elim (utf8_cases (utf8_length s)) [
  | inl (n, e) ↦ ground (arith, e)
  | inr (x, e) ↦ ground (arith, e)
]
visit-weight l (obj fs) d st st' items items' h =
    ground (
      arith,
      weight-push_values fs (d + 1) (push_keys fs (d + 1) st),
      weight-push_keys fs (d + 1) st,
    )
visit-weight l (arr xs) d st st' items items' h = ground (arith, weight-push_items xs (d + 1) st)
visit-weight l (float (finite t)) d st st' items items' h = ground arith
visit-weight l (float non_finite) d st st' items items' h = ground arith
visit-weight l _ d st st' items items' h = ground arith

walk-total :
    (fuel : ℕ) (l : Limits) (st : Stack) (items : ℕ)
    → weight_stack st < fuel
    → walk fuel l st items ≢ none
unfolding walk weight_stack
walk-total zero l st items h = elim h [ ]
walk-total (suc fuel) l [] items h = λ e. cc
walk-total (suc fuel) l ((j, d) ∷ st) items h = next (walk-total fuel l) (visit l j d st items) refl
  where
    next :
        ((st' : Stack) (items' : ℕ) → weight_stack st' < fuel → walk fuel l st' items' ≢ none)
        → (r : Result (Stack × ℕ)) → visit l j d st items ≡ r
        → ¬ (
            elim r as (λ _. Option (Result (Unit {0}))) [
              | err e ↦ some (err e)
              | ok (stack', items') ↦ walk fuel l stack' items'
            ]
            ≡ none)
    next rec (err e) v = λ p. cc
    next rec (ok (st', items')) v =
        rec st' items' (omega (arith, visit-weight l j d st st' items items' v))

-- The fuel of `validate_json_tree` suffices: every value is accepted or refused.
pub validate_json_tree-total :
    (l : Limits) (j : Json) → (r : Result (Unit {0})) × (validate_json_tree l j ≡ some r)
unfolding validate_json_tree weight_stack
validate_json_tree-total l j = elim (Option-cases (validate_json_tree l j)) [
  | inl n ↦ absurd (walk-total (suc (weight j)) l ((j, 0) ∷ []) 0 (omega arith) n)
  | inr (r, e) ↦ (r, e)
]
