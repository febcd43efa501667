-- ===== src/Common/Results.antt =====
-- A Go pair `(value, err)` of which one half is nil: a failure or a value.
use mathlib.Core.Path.{◌≡◌, refl}
use mathlib.Core.Logic.{◌⊎◌, inl, inr}

pub data Result (Failure Value : Type 0) : Type 0 where
  err : Failure → Result Failure Value
  ok : Value → Result Failure Value

infixl 5 ◌>>=◌
-- `if err != nil { return err }`, and the rest of the function.
abbrev pub ◌>>=◌ :
    {Failure First Last : Type 0}
    → Result Failure First
    → (First → Result Failure Last)
    → Result Failure Last
err failure >>= rest = err failure
ok value >>= rest = rest value

-- A chain without an error has a first step without one.
pub >>=-eq-ok :
    {Failure First Last : Type 0} (first : Result Failure First)
    (rest : First → Result Failure Last) {last : Last}
    → (first >>= rest) ≡ ok last
    → (value : First) × (first ≡ ok value) × (rest value ≡ ok last)
>>=-eq-ok (err failure) rest eq = cc
>>=-eq-ok (ok value) rest eq = (value, refl, eq)

pub Result-cases :
    {Failure Value : Type 0} (r : Result Failure Value)
    → ((failure : Failure) × (r ≡ err failure)) ⊎ ((value : Value) × (r ≡ ok value))
Result-cases (err failure) = inl (failure, refl)
Result-cases (ok value) = inr (value, refl)
