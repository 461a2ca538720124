-- ===== src/Cli/Peers.antt =====
-- `_parse_peer_addresses` of peerq/cli.py on the text that its doc describes.
use peer_q.Prelude.{
  ℕ, zero, suc, ◌+◌, ◌/◌, ◌%◌, ◌≤◌, ◌≡◌, refl, ap, sym, ◌∙◌, subst, Str, true, false, Option, none,
  some, List, [], ◌∷◌, ◌++◌, arith, map, All, All-append, if_cases, if◌then◌else◌, ltb, ◌==◌,
  ==_iff, str_ordered, nat_ordered,
}
use peer_q.Prelude.Int.{ℤ, pos, negsuc}
use peer_q.Prelude.Dict.{insert, member}
use peer_q.Errors.{Result, ok, err, value_error, ◌>>=◌}
use peer_q.Crypto.{is_empty}
use peer_q.Transport.Http.{Text, lstrip, rstrip, strip, split_at}
use peer_q.Exporter.Html.{digits, decimal, join}
use peer_q.Cli.{
  Addresses, split_from, split, port_from, with_address, add_entry, add_entries,
  parse_peer_addresses,
}

abbrev pub Entry : Type 0
Entry = Str × (Str × ℤ)

-- `node_id=host:port`
abbrev pub entry_text : Entry → Str
entry_text (nid, (host, port)) = nid ++ 61 ∷ (host ++ 58 ∷ decimal port)

-- The entries in their order, on the addresses so far; the last of a name wins.
unfoldable pub gathered : List Entry → Addresses → Addresses
gathered [] d = d
gathered ((nid, a) ∷ ps) d = gathered ps (insert nid a d)

abbrev IsFree : ℕ → Str → Type 0
IsFree ch s = All (λ c. (c == ch) ≡ false) s

split_at-append : (ch : ℕ) (a b : Str) → IsFree ch a → split_at ch (a ++ ch ∷ b) ≡ (a, some b)
unfolding split_at
split_at-append ch [] b h = ground (arith, ==_iff ch ch)
split_at-append ch (c ∷ a) b h = rw (split_at-append ch a b h.1, h.0) refl

split_from-free : (ch : ℕ) (a : Str) → IsFree ch a → split_from ch a ≡ (a, [])
unfolding split_from
split_from-free ch [] h = refl
split_from-free ch (c ∷ a) h = rw (split_from-free ch a h.1, h.0) refl

split_from-append :
    (ch : ℕ) (a b : Str) → IsFree ch a → split_from ch (a ++ ch ∷ b) ≡ (a, split ch b)
unfolding split_from split
split_from-append ch [] b h = ground (arith, ==_iff ch ch)
split_from-append ch (c ∷ a) b h = rw (split_from-append ch a b h.1, h.0) refl

split-join :
    (ch : ℕ) (s : Str) (ss : List Str)
    → All (IsFree ch) (s ∷ ss)
    → split ch (join (ch ∷ []) (s ∷ ss)) ≡ s ∷ ss
unfolding split join
split-join ch s [] h = rw (split_from-free ch s h.0) refl
split-join ch s (t ∷ ts) h =
    rw (split_from-append ch s (join (ch ∷ []) (t ∷ ts)) h.0)
      (ap (λ r. s ∷ r) (split-join ch t ts h.1))

-- The characters of a number's text.
abbrev IsNumeric : ℕ → Type 0
IsNumeric c = (45 ≤ c) × (c ≤ 57)

digits-IsNumeric : (fuel n : ℕ) → All IsNumeric (digits fuel n)
unfolding digits
digits-IsNumeric zero n = ground arith
digits-IsNumeric (suc fuel) n =
    if_cases (All IsNumeric) (ltb n 10) (λ _. ground arith)
      (λ _.
        All-append IsNumeric (digits fuel (n / 10)) ((48 + n % 10) ∷ [])
          (digits-IsNumeric fuel (n / 10)) (ground arith))

decimal-IsNumeric : (z : ℤ) → All IsNumeric (decimal z)
unfolding decimal
decimal-IsNumeric (pos n) = digits-IsNumeric n n
decimal-IsNumeric (negsuc n) = (ground arith, digits-IsNumeric (suc n) (suc n))

All-weaken : (P Q : ℕ → Type 0) → ((c : ℕ) → P c → Q c) → (s : Str) → All P s → All Q s
All-weaken P Q f [] h = tt
All-weaken P Q f (c ∷ s) h = (f c h.0, All-weaken P Q f s h.1)

filled : (ch : ℕ) (a b : Str) → is_empty (a ++ ch ∷ b) ≡ false
filled ch [] b = refl
filled ch (c ∷ a) b = refl

member-behind :
    (ch : ℕ) (a : Str) (d : ℕ) (b : Str) → member ch b ≡ true → member ch (a ++ d ∷ b) ≡ true
unfolding member
member-behind ch [] d b h = ground (arith, h)
member-behind ch (c ∷ a) d b h = ground (arith, member-behind ch a d b h)

member-middle : (ch : ℕ) (a b : Str) → member ch (a ++ ch ∷ b) ≡ true
unfolding member
member-middle ch [] b = ground (arith, ==_iff ch ch)
member-middle ch (c ∷ a) b = ground (arith, member-middle ch a b)

module _ (txt : Text) where
  abbrev NoSpace : Str → Type 0
  NoSpace s = All (λ c. txt.isspace c ≡ false) s

  lstrip-NoSpace : (s : Str) → NoSpace s → lstrip txt s ≡ s
  unfolding lstrip
  lstrip-NoSpace [] h = refl
  lstrip-NoSpace (c ∷ s) h = rw h.0 refl

  rstrip-NoSpace : (s : Str) → NoSpace s → rstrip txt s ≡ s
  unfolding rstrip
  rstrip-NoSpace [] h = refl
  rstrip-NoSpace (c ∷ []) h = rw h.0 refl
  rstrip-NoSpace (c ∷ d ∷ s) h = rw (rstrip-NoSpace (d ∷ s) h.1) refl

  strip-NoSpace : (s : Str) → NoSpace s → strip txt s ≡ s
  strip-NoSpace s h = rw (lstrip-NoSpace s h) (rstrip-NoSpace s h)

  -- A name of a peer or a host: without white space and without the characters , = :
  abbrev pub IsName : Str → Type 0
  IsName s =
      All
        (λ c.
          (txt.isspace c ≡ false) × ((c == 44) ≡ false) × ((c == 61) ≡ false) × ((c == 58) ≡ false))
        s

  -- Two names, and a port whose text `int` reads.
  abbrev pub IsEntry : Entry → Type 0
  IsEntry (nid, (host, port)) = IsName nid × IsName host × (txt.to_int (decimal port) ≡ some port)

  -- The ASCII characters from - to = are no white space.
  abbrev pub HasAscii : Type 0
  HasAscii = (c : ℕ) → 45 ≤ c → c ≤ 61 → txt.isspace c ≡ false

  module _ (ascii : HasAscii) where
    numeric-NoSpace : (s : Str) → All IsNumeric s → NoSpace s
    numeric-NoSpace s h =
        All-weaken IsNumeric (λ c. txt.isspace c ≡ false) (λ c k. ascii c k.0 (omega arith)) s h

    entry-NoSpace : (e : Entry) → IsEntry e → NoSpace (entry_text e)
    entry-NoSpace (nid, (host, port)) (n, h, read) =
        All-append _ nid _ (All-weaken _ _ (λ c k. k.0) nid n) (
          ascii 61 (omega arith) (omega arith),
          All-append _ host _ (All-weaken _ _ (λ c k. k.0) host h) (
            ascii 58 (omega arith) (omega arith),
            numeric-NoSpace (decimal port) (decimal-IsNumeric port),
          ),
        )

    entry-IsFree : (e : Entry) → IsEntry e → IsFree 44 (entry_text e)
    entry-IsFree (nid, (host, port)) (n, h, read) =
        All-append _ nid _ (All-weaken _ _ (λ c k. k.1) nid n) (
          refl,
          All-append _ host _ (All-weaken _ _ (λ c k. k.1) host h) (
            refl,
            All-weaken IsNumeric (λ c. (c == 44) ≡ false) (λ c k. ground arith) (decimal port)
                (decimal-IsNumeric port),
          ),
        )

    port_from-decimal :
        (port : ℤ) → txt.to_int (decimal port) ≡ some port → port_from txt (decimal port) ≡ ok port
    port_from-decimal port read =
        let plain = numeric-NoSpace (decimal port) (decimal-IsNumeric port) in
        subst (λ s. read_port (txt.to_int s) ≡ ok port) (sym (strip-NoSpace (decimal port) plain))
          (subst (λ o. read_port o ≡ ok port) (sym read) refl)
      where
        read_port : Option ℤ → Result ℤ
        read_port o = elim o [ none ↦ err value_error | some n ↦ ok n ]

    with_address-decimal :
        (nid host : Str) (port : ℤ) (d : Addresses)
        → IsEntry (nid, (host, port))
        → with_address txt nid (host, some (decimal port)) d ≡ ok (insert nid (host, port) d)
    with_address-decimal nid host port d (n, h, read) =
        ap (λ r. r >>= λ q. ok (insert (strip txt nid) (strip txt host, q) d))
          (port_from-decimal port read)
        ∙ rw
            (
              strip-NoSpace nid (All-weaken _ _ (λ c k. k.0) nid n),
              strip-NoSpace host (All-weaken _ _ (λ c k. k.0) host h),
            )
            refl

    add_entry-entry_text :
        (e : Entry) (d : Addresses)
        → IsEntry e
        → add_entry txt (entry_text e) d ≡ ok (insert e.0 e.1 d)
    add_entry-entry_text (nid, (host, port)) d (n, h, read) =
        rw
          (
            filled 61 nid (host ++ 58 ∷ decimal port),
            member-middle 61 nid (host ++ 58 ∷ decimal port),
            member-behind 58 nid 61 (host ++ 58 ∷ decimal port),
            member-middle 58 host (decimal port),
            split_at-append 61 nid (host ++ 58 ∷ decimal port) (All-weaken _ _ (λ c k. k.2) nid n),
            split_at-append 58 host (decimal port) (All-weaken _ _ (λ c k. k.3) host h),
          )
          (with_address-decimal nid host port d (n, h, read))

    add_entries-gathered :
        (ps : List Entry) (d : Addresses)
        → All IsEntry ps
        → add_entries txt (map entry_text ps) d ≡ ok (gathered ps d)
    unfolding add_entries gathered
    add_entries-gathered [] d h = refl
    add_entries-gathered (e ∷ ps) d (h, hs) =
        rw (strip-NoSpace (entry_text e) (entry-NoSpace e h), add_entry-entry_text e d h)
          (add_entries-gathered ps (insert e.0 e.1 d) hs)

    entries-IsFree : (ps : List Entry) → All IsEntry ps → All (IsFree 44) (map entry_text ps)
    entries-IsFree [] h = tt
    entries-IsFree (e ∷ ps) (h, hs) = (entry-IsFree e h, entries-IsFree ps hs)

    rstrip-filled :
        (c : ℕ) (s : Str) → txt.isspace c ≡ false → is_empty (rstrip txt (c ∷ s)) ≡ false
    unfolding rstrip
    rstrip-filled c s h =
        elim (rstrip txt s)
          as (λ r.
            is_empty (elim r as (λ _. Str) [
              | [] ↦ if txt.isspace c then [] else c ∷ []
              | d ∷ ds ↦ c ∷ d ∷ ds
            ])
            ≡ false) [ [] ↦ rw h refl | d ∷ ds ↦ refl ]

    lstrip-head : (c : ℕ) (s : Str) → txt.isspace c ≡ false → lstrip txt (c ∷ s) ≡ c ∷ s
    unfolding lstrip
    lstrip-head c s h = rw h refl

    -- A text that starts with no white space is not blank.
    strip-filled : (c : ℕ) (s : Str) → txt.isspace c ≡ false → is_empty (strip txt (c ∷ s)) ≡ false
    strip-filled c s h = rw (lstrip-head c s h) (rstrip-filled c s h)

    strip-join :
        (s : Str) (ss : List Str)
        → NoSpace s
        → is_empty s ≡ false
        → is_empty (strip txt (join (44 ∷ []) (s ∷ ss))) ≡ false
    unfolding join
    strip-join [] ss h e = ground (arith, e)
    strip-join (c ∷ s) [] h e = strip-filled c s h.0
    strip-join (c ∷ s) (t ∷ ts) h e = strip-filled c (s ++ 44 ∷ join (44 ∷ []) (t ∷ ts)) h.0

    joined-filled :
        (e : Entry) (ps : List Entry)
        → IsEntry e
        → is_empty (strip txt (join (44 ∷ []) (map entry_text (e ∷ ps)))) ≡ false
    joined-filled e ps h =
        strip-join (entry_text e) (map entry_text ps) (entry-NoSpace e h)
          (filled 61 e.0 (e.1.0 ++ 58 ∷ decimal e.1.1))

    -- What `_parse_peer_addresses` reads from the text node_id=host:port, …: for names without
    -- white space and without the characters , = and : it gives back the entries, where `int` reads
    -- the text of each port and no ASCII character from - to = is white space.
    pub parse_peer_addresses-join :
        (ps : List Entry)
        → All IsEntry ps
        → parse_peer_addresses txt (join (44 ∷ []) (map entry_text ps)) ≡ ok (gathered ps [])
    unfolding parse_peer_addresses join lstrip rstrip gathered
    parse_peer_addresses-join [] h = refl
    parse_peer_addresses-join (e ∷ ps) h =
        rw
          (
            joined-filled e ps h.0,
            split-join 44 (entry_text e) (map entry_text ps) (entries-IsFree (e ∷ ps) h),
          )
          (add_entries-gathered (e ∷ ps) [] h)
