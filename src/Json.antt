-- ===== src/Json.antt =====
-- The values that Python's json module decodes to, with `dict.get` on the decoded objects, and the
-- texts of `bytes.hex` and `bytes.fromhex`. A float is a whole number of microseconds, or one of
-- the values that `math.isfinite` refuses.
pub mod Hex
pub mod Sorted
use peer_q.Prelude.{
  ℕ, zero, suc, ◌+◌, ◌*◌, ◌-◌, ◌^◌, ◌≡◌, refl, Str, Bytes, Bool, true, false, Option, none, some,
  List, [], ◌∷◌, if◌then◌else◌, ltb, ◌==◌, str_ordered,
}
use peer_q.Prelude.Int.{ℤ, pos, negsuc}
use peer_q.Errors.{Result, ok, err, overflow_error}

pub data Float : Type 0 where
  finite : ℤ → Float
  non_finite : Float

mutual
  pub data Json : Type 0 where
    null : Json
    bool : Bool → Json
    int : ℤ → Json
    float : Float → Json
    str : Str → Json
    arr : Items → Json
    obj : Fields → Json

  pub data Items : Type 0 where
    nil : Items
    cons : Json → Items → Items

  pub data Fields : Type 0 where
    end : Fields
    field : Str → Json → Fields → Fields

-- `data.get(key)`: None, which is also JSON's null, for a key that is not there.
unfoldable pub fetch : Str → Fields → Json
fetch key end = null
fetch key (field k v rest) = if k == key then v else fetch key rest

-- `data[key] = value`
unfoldable pub set_field : Str → Json → Fields → Fields
set_field key value end = field key value end
set_field key value (field k v rest) =
    if k == key then field k value rest else field k v (set_field key value rest)

-- `len(data)`
unfoldable pub count_fields : Fields → ℕ
count_fields end = 0
count_fields (field k v rest) = suc (count_fields rest)

-- From here on `float(n)` of a Python int raises OverflowError.
pub float_limit : ℕ
float_limit = 2 ^ 1024 - 2 ^ 970

-- Whole seconds in microseconds.
abbrev pub seconds : ℤ → ℤ
seconds (pos n) = pos (n * 1000000)
seconds (negsuc n) = negsuc (n * 1000000 + 999999)

-- `float(n)` of a Python int.
unfoldable pub to_float : ℤ → Result Float
to_float (pos n) = if ltb n float_limit then ok (finite (seconds (pos n))) else err overflow_error
to_float (negsuc n) =
    if ltb (suc n) float_limit then ok (finite (seconds (negsuc n))) else err overflow_error

-- Python's json module and float formatting, which this development takes as given: `json.dumps`
-- with sorted keys to UTF-8 bytes, `json.loads` of bytes, and `f"{x:.6f}"` of a time.
pub record Codec : Type 0 where
  pub dumps : Json → Bytes
  pub loads : Bytes → Option Json
  pub fixed6 : ℤ → Str
