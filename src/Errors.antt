-- ===== src/Errors.antt =====
-- The exceptions that the modelled code raises, as values. Python's `except ValueError` catches one
-- constructor here, so the classes stay apart.
use peer_q.Prelude.{Bool, true, false, ◌≡◌, refl, sym, subst}

pub data Error : Type 0 where
  value_error type_error overflow_error attribute_error invalid_key : Error
  queue_full queue_empty index_error : Error
  connection_error permission_error runtime_error : Error
  wal_error wal_corrupt decode_error struct_error : Error

-- What a call returns, or the exception that it raises.
pub data Result {ℓ} (Value : Type ℓ) : Type ℓ where
  err : Error → Result Value
  ok : Value → Result Value

-- `if not test: raise exception`
abbrev pub check : (test : Bool) (exception : Error) → Result (Unit {0})
check false exception = err exception
check true _ = ok tt

infixl 5 ◌>>=◌ ◌>>◌
-- An exception skips the statements behind the call.
abbrev pub ◌>>=◌ {κ μ} :
    {Value : Type κ} {Next : Type μ} (call : Result Value) (rest : Value → Result Next)
    → Result Next
err exception >>= rest = err exception
ok value >>= rest = rest value

abbrev pub ◌>>◌ {κ} : {Next : Type κ} (call : Result (Unit {0})) (rest : Result Next) → Result Next
call >> rest = call >>= λ _. rest

pub >>=-ok {κ μ} :
    {Value : Type κ} {Next : Type μ} (call : Result Value) (rest : Value → Result Next)
    (value : Value)
    → call ≡ ok value
    → (call >>= rest) ≡ rest value
>>=-ok call rest value h = subst (λ x. (x >>= rest) ≡ rest value) (sym h) refl

-- Where both parts of a body return, the first part has a value.
pub >>=-inverse {κ μ} :
    {Value : Type κ} {Next : Type μ} (call : Result Value) (rest : Value → Result Next)
    {last : Next}
    → (call >>= rest) ≡ ok last
    → (value : Value) × (call ≡ ok value) × (rest value ≡ ok last)
>>=-inverse (err exception) rest h = cc
>>=-inverse (ok value) rest h = (value, refl, h)

pub ok-injective {ℓ} : {A : Type ℓ} {a b : A} → ok a ≡ ok b → a ≡ b
ok-injective h = cc

-- A statement that raises where its test fails has passed where the body returns.
pub check-inverse {ℓ} :
    {A : Type ℓ} (test : Bool) (exception : Error) (rest : Result A) {last : A}
    → (check test exception >> rest) ≡ ok last
    → (test ≡ true) × (rest ≡ ok last)
check-inverse true exception rest h = (refl, h)
check-inverse false exception rest h = cc
