-- ===== src/Exporter/Markup.antt =====
-- What a peer, a task or a clock's entry can do to the page of peerq/exporter.py: its texts are
-- escaped, so that the markup of the page depends on the number of the entries only.
use peer_q.Prelude.{
  ℕ, zero, suc, ◌+◌, ◌/◌, ◌%◌, ◌≡◌, refl, sym, ap, ◌∙◌, Str, Bool, true, ◌||◌, List, [], ◌∷◌, ◌++◌,
  arith, codes, map, length, All, select, select_append, if_cases, ltb, ◌==◌, nat_ordered,
  str_ordered,
}
use peer_q.Prelude.Int.{ℤ, pos, negsuc}
use peer_q.Prelude.Dict.{Dict, member}
use peer_q.Prelude.Sorted.{insert_item, sorted_items}
use peer_q.Exporter.{Lease}
use peer_q.Exporter.Html.{
  digits, decimal, escape, escape_char, join, peer_badge, peers_html, lease_row, leases_table,
  live_tag, lost_tag, table_head, table_end, clock_badge, vclock_html, credit_badge, credits_html,
}

-- The characters with a meaning to a browser, inside or outside of a tag: < > " '
abbrev pub is_markup : ℕ → Bool
is_markup c = c == 60 || (c == 62 || (c == 34 || c == 39))

unfoldable pub markup : Str → Str
markup s = select is_markup s

markup-append : (s t : Str) → markup (s ++ t) ≡ markup s ++ markup t
unfolding markup
markup-append s t = select_append is_markup s t

-- A text without markup.
abbrev pub IsPlain : Str → Type 0
IsPlain s = markup s ≡ []

IsPlain-nil : IsPlain []
unfolding markup select
IsPlain-nil = refl

IsPlain-append : (s t : Str) → IsPlain s → IsPlain t → IsPlain (s ++ t)
IsPlain-append s t h k = rw (markup-append s t, h) k

escape_char-IsPlain : (c : ℕ) → IsPlain (escape_char c)
unfolding markup select
escape_char-IsPlain c = ground arith

pub escape-IsPlain : (s : Str) → IsPlain (escape s)
unfolding escape
escape-IsPlain [] = IsPlain-nil
escape-IsPlain (c ∷ cs) =
    IsPlain-append (escape_char c) (escape cs) (escape_char-IsPlain c) (escape-IsPlain cs)

digit-IsPlain : (n : ℕ) → IsPlain ((48 + n % 10) ∷ [])
unfolding markup select
digit-IsPlain n = ground arith

digits-IsPlain : (fuel n : ℕ) → IsPlain (digits fuel n)
unfolding digits
digits-IsPlain zero n = digit-IsPlain n
digits-IsPlain (suc fuel) n =
    if_cases IsPlain (ltb n 10) (λ _. digit-IsPlain n)
      (λ _.
        IsPlain-append (digits fuel (n / 10)) _ (digits-IsPlain fuel (n / 10)) (digit-IsPlain n))

minus-IsPlain : IsPlain (45 ∷ [])
unfolding markup select
minus-IsPlain = refl

decimal-IsPlain : (z : ℤ) → IsPlain (decimal z)
unfolding decimal
decimal-IsPlain (pos n) = digits-IsPlain n n
decimal-IsPlain (negsuc n) =
    IsPlain-append (45 ∷ []) (digits (suc n) (suc n)) minus-IsPlain (digits-IsPlain (suc n) (suc n))

-- Two texts have the same markup, in the same order.
abbrev pub SameMarkup : Str → Str → Type 0
SameMarkup s t = markup s ≡ markup t

SameMarkup-append : (s t u v : Str) → SameMarkup s t → SameMarkup u v → SameMarkup (s ++ u) (t ++ v)
SameMarkup-append s t u v h k = rw (markup-append s u, markup-append t v, h, k) refl

-- Where the entries have the same markup one by one, so do the joined lists.
module _ {ℓ κ} {A : Type ℓ} {B : Type κ} (sep : Str) (f : A → Str) (g : B → Str) where
  join-SameMarkup :
      (P : A → Type 0) (Q : B → Type 0) (xs : List A) (ys : List B)
      → ((x : A) (y : B) → P x → Q y → SameMarkup (f x) (g y))
      → All P xs
      → All Q ys
      → length xs ≡ length ys
      → SameMarkup (join sep (map f xs)) (join sep (map g ys))
  unfolding join
  join-SameMarkup P Q [] [] same p q e = refl
  join-SameMarkup P Q (x ∷ []) (y ∷ []) same p q e = same x y p.0 q.0
  join-SameMarkup P Q (x ∷ x' ∷ xs) (y ∷ y' ∷ ys) same p q e =
      SameMarkup-append (f x) (g y) _ _ (same x y p.0 q.0) (
        SameMarkup-append sep sep _ _ refl
          (join-SameMarkup P Q (x' ∷ xs) (y' ∷ ys) same p.1 q.1 (omega arith)))
  join-SameMarkup P Q [] (y ∷ ys) same p q e = ground (arith, e)
  join-SameMarkup P Q (x ∷ xs) [] same p q e = ground (arith, e)
  join-SameMarkup P Q (x ∷ []) (y ∷ y' ∷ ys) same p q e = ground (arith, e)
  join-SameMarkup P Q (x ∷ x' ∷ xs) (y ∷ []) same p q e = ground (arith, e)

clock_badge-SameMarkup : (x y : Str × ℕ) → SameMarkup (clock_badge x) (clock_badge y)
unfolding clock_badge
clock_badge-SameMarkup (j, u) (k, v) = simp (markup-append, escape-IsPlain, decimal-IsPlain)

credit_badge-SameMarkup : (x y : Str × ℤ) → SameMarkup (credit_badge x) (credit_badge y)
unfolding credit_badge
credit_badge-SameMarkup (j, u) (k, v) = simp (markup-append, escape-IsPlain, decimal-IsPlain)

row-SameMarkup :
    (fixed2 : ℤ → Str) (now later : ℤ) (l m : Lease)
    → ((z : ℤ) → IsPlain (fixed2 z))
    → SameMarkup (lease_row fixed2 now l) (lease_row fixed2 later m)
unfolding lease_row
row-SameMarkup fixed2 now later l m plain =
    simp (markup-append, escape-IsPlain, decimal-IsPlain, plain)

-- Anything holds of an entry: for the lists whose entries have the same markup whatever they are.
abbrev Whatever {ℓ} : {A : Type ℓ} → A → Type 0
Whatever a = Unit

All-Whatever {ℓ} : {A : Type ℓ} (xs : List A) → All Whatever xs
All-Whatever [] = tt
All-Whatever (x ∷ xs) = (tt, All-Whatever xs)

length-insert_item {ℓ} :
    {V : Type ℓ} (e : Str × V) (es : Dict Str V) → length (insert_item e es) ≡ suc (length es)
unfolding insert_item
length-insert_item e [] = refl
length-insert_item e (f ∷ fs) = ground (arith, length-insert_item e fs)

length-sorted_items {ℓ} : {V : Type ℓ} (es : Dict Str V) → length (sorted_items es) ≡ length es
unfolding sorted_items
length-sorted_items [] = refl
length-sorted_items (e ∷ es) =
    length-insert_item e (sorted_items es) ∙ ap suc (length-sorted_items es)

joined_items {ℓ} :
    {V : Type ℓ} (badge : Str × V → Str) (d e : Dict Str V)
    → ((x y : Str × V) → SameMarkup (badge x) (badge y))
    → length d ≡ length e
    → SameMarkup
        (join (codes " ") (map badge (sorted_items d)))
        (join (codes " ") (map badge (sorted_items e)))
joined_items badge d e same h =
    join-SameMarkup (codes " ") badge badge Whatever Whatever (sorted_items d) (sorted_items e)
      (λ x y _ _. same x y) (All-Whatever (sorted_items d)) (All-Whatever (sorted_items e))
      (length-sorted_items d ∙ h ∙ sym (length-sorted_items e))

pub vclock-SameMarkup :
    (d e : Dict Str ℕ) → length d ≡ length e → SameMarkup (vclock_html d) (vclock_html e)
unfolding vclock_html
vclock-SameMarkup [] [] h = refl
vclock-SameMarkup (x ∷ d) (y ∷ e) h =
    joined_items clock_badge (x ∷ d) (y ∷ e) clock_badge-SameMarkup h
vclock-SameMarkup [] (y ∷ e) h = ground (arith, h)
vclock-SameMarkup (x ∷ d) [] h = ground (arith, h)

pub credits-SameMarkup :
    (d e : Dict Str ℤ) → length d ≡ length e → SameMarkup (credits_html d) (credits_html e)
unfolding credits_html
credits-SameMarkup [] [] h = refl
credits-SameMarkup (x ∷ d) (y ∷ e) h =
    joined_items credit_badge (x ∷ d) (y ∷ e) credit_badge-SameMarkup h
credits-SameMarkup [] (y ∷ e) h = ground (arith, h)
credits-SameMarkup (x ∷ d) [] h = ground (arith, h)

pub leases-SameMarkup :
    (fixed2 : ℤ → Str) (now later : ℤ) (ls ms : List Lease)
    → ((z : ℤ) → IsPlain (fixed2 z))
    → length ls ≡ length ms
    → SameMarkup (leases_table fixed2 now ls) (leases_table fixed2 later ms)
unfolding leases_table
leases-SameMarkup fixed2 now later [] [] plain h = refl
leases-SameMarkup fixed2 now later (l ∷ ls) (m ∷ ms) plain h =
    SameMarkup-append table_head table_head _ _ refl (
      SameMarkup-append _ _ table_end table_end
        (join-SameMarkup [] (lease_row fixed2 now) (lease_row fixed2 later) Whatever Whatever
          (l ∷ ls) (m ∷ ms) (λ x y _ _. row-SameMarkup fixed2 now later x y plain)
          (All-Whatever (l ∷ ls)) (All-Whatever (m ∷ ms)) h)
        refl)
leases-SameMarkup fixed2 now later [] (m ∷ ms) plain h = ground (arith, h)
leases-SameMarkup fixed2 now later (l ∷ ls) [] plain h = ground (arith, h)

-- A plain name that is on one of the sides.
abbrev pub IsListed : List Str → List Str → Str → Type 0
IsListed live lost p = ((member p live || member p lost) ≡ true) × IsPlain p

framed :
    (before p behind : Str)
    → IsPlain p
    → markup (before ++ (p ++ behind)) ≡ markup before ++ markup behind
framed before p behind plain =
    rw (markup-append before (p ++ behind), markup-append p behind, plain) refl

-- The markup of a badge with a green or an amber dot.
abbrev badge_markup : Str
badge_markup = markup live_tag ++ markup (codes " (live)</span>")

amber : markup lost_tag ++ markup (codes " (suspected)</span>") ≡ badge_markup
unfolding markup select
amber = refl

peer_badge-markup :
    (live lost : List Str) (p : Str)
    → IsListed live lost p
    → markup (peer_badge live lost p) ≡ badge_markup
unfolding peer_badge
peer_badge-markup live lost p (h, plain) =
    if_cases (λ s. markup s ≡ badge_markup) (member p live) (λ _. framed live_tag p _ plain)
      (λ n.
        if_cases (λ s. markup s ≡ badge_markup) (member p lost)
          (λ _. framed lost_tag p _ plain ∙ amber) (λ m. ground (arith, n, m, h)))

pub peers-SameMarkup :
    (live lost known live' lost' known' : List Str)
    → All (IsListed live lost) known
    → All (IsListed live' lost') known'
    → length known ≡ length known'
    → SameMarkup (peers_html live lost known) (peers_html live' lost' known')
unfolding peers_html
peers-SameMarkup live lost [] live' lost' [] all all' h = refl
peers-SameMarkup live lost (p ∷ ps) live' lost' (q ∷ qs) all all' h =
    join-SameMarkup (codes " ") (peer_badge live lost) (peer_badge live' lost') (IsListed live lost)
      (IsListed live' lost') (p ∷ ps) (q ∷ qs)
      (λ x y k k'. peer_badge-markup live lost x k ∙ sym (peer_badge-markup live' lost' y k')) all
      all' h
peers-SameMarkup live lost [] live' lost' (q ∷ qs) all all' h = ground (arith, h)
peers-SameMarkup live lost (p ∷ ps) live' lost' [] all all' h = ground (arith, h)
