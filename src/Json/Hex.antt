-- ===== src/Json/Hex.antt =====
-- `bytes.hex()` and `bytes.fromhex()`.
use peer_q.Prelude.{
  ℕ, ◌+◌, ◌-◌, ◌*◌, ◌/◌, ◌%◌, ◌<◌, suc, ◌≤◌, ◌≡◌, refl, Str, Bytes, Bool, false, ◌&&◌, ◌||◌, Option,
  none, some, [], ◌∷◌, arith, if◌then◌else◌, leb, ltb, ◌==◌, nat_ordered, All, length, Option-cases,
  inl, inr,
}

hex_digit : ℕ → ℕ
hex_digit n = if ltb n 10 then 48 + n else 87 + n

unfoldable pub hex : Bytes → Str
unfolding hex_digit
hex [] = []
hex (b ∷ bs) = hex_digit (b / 16) ∷ hex_digit (b % 16) ∷ hex bs

unfoldable pub hex_value : ℕ → Option ℕ
hex_value c =
    if leb 48 c && leb c 57
    then some (c - 48)
    else if leb 65 c && leb c 70
    then some (c - 55)
    else if leb 97 c && leb c 102
    then some (c - 87)
    else none

-- ASCII white space, which `fromhex` skips between bytes.
unfoldable pub is_space : ℕ → Bool
is_space c = c == 32 || leb 9 c && leb c 13

abbrev pub join : Option ℕ → Option ℕ → Option Bytes → Option Bytes
join (some h) (some l) (some bs) = some ((h * 16 + l) ∷ bs)
join none _ _ = none
join (some h) none _ = none
join (some h) (some l) none = none

unfoldable pub fromhex : Str → Option Bytes
fromhex [] = some []
fromhex (c ∷ []) = if is_space c then some [] else none
fromhex (c ∷ d ∷ rest) =
    let skip = fromhex (d ∷ rest) in
    let more = join (hex_value c) (hex_value d) (fromhex rest) in if is_space c then skip else more

digit-value : (n : ℕ) → n < 16 → hex_value (hex_digit n) ≡ some n
unfolding hex_digit hex_value
digit-value n h = ground arith

digit-not_space : (n : ℕ) → n < 16 → is_space (hex_digit n) ≡ false
unfolding hex_digit is_space
digit-not_space n h = ground arith

abbrev pub AreBytes : Bytes → Type 0
AreBytes = All (λ b. b < 256)

-- Decoding the hexadecimal text of bytes gives the bytes back.
pub fromhex-hex : (bs : Bytes) → AreBytes bs → fromhex (hex bs) ≡ some bs
unfolding fromhex hex
fromhex-hex [] h = refl
fromhex-hex (b ∷ bs) h = ground (
  arith,
  digit-not_space (b / 16),
  digit-value (b / 16),
  digit-value (b % 16),
  fromhex-hex bs h.1,
)

pub length-hex : (bs : Bytes) → length (hex bs) ≡ length bs * 2
unfolding hex
length-hex [] = refl
length-hex (b ∷ bs) = omega (arith, length-hex bs)

length-join :
    (h l : Option ℕ) (o : Option Bytes) (bs b : Bytes)
    → o ≡ some bs
    → join h l o ≡ some b
    → length b ≡ suc (length bs)
length-join (some h) (some l) (some x) bs b e j = ground arith
length-join none l o bs b e j = ground arith
length-join (some h) none o bs b e j = ground arith
length-join (some h) (some l) none bs b e j = ground arith

join-none : (h l : Option ℕ) (o : Option Bytes) → o ≡ none → join h l o ≡ none
join-none (some h) (some l) none e = refl
join-none (some h) (some l) (some x) e = ground arith
join-none none l o e = refl
join-none (some h) none o e = refl

-- Decoding never yields more bytes than half of the text.
pub length-fromhex : (s : Str) (b : Bytes) → fromhex s ≡ some b → length b * 2 ≤ length s
unfolding fromhex
length-fromhex [] b h = ground arith
length-fromhex (c ∷ []) b h = ground arith
length-fromhex (c ∷ d ∷ rest) b h = elim (Option-cases (fromhex rest)) [
  | inl e ↦
      ground
        (arith, length-fromhex (d ∷ rest) b, join-none (hex_value c) (hex_value d) (fromhex rest) e)
  | inr (bs, e) ↦ ground (
    arith,
    length-fromhex (d ∷ rest) b,
    length-fromhex rest bs e,
    length-join (hex_value c) (hex_value d) (fromhex rest) bs b e,
  )
]
