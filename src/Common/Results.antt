-- ===== src/Common/Results.antt =====
-- How a call ends: with a value, with an error as a value (`Result::Err`), or with a panic (a failed
-- assertion, an `unwrap` of nothing, an index out of bounds).
use mathlib.Core.Bool.{Bool, true, false}
use mathlib.Core.Option.{Option, none, some}
use mathlib.Core.Path.{◌≡◌, refl}
use mathlib.Core.Logic.{◌≢◌}
use native.Mathlib.Omega.{arith}

pub data Outcome (E A : Type 0) : Type 0 where
  panic : Outcome E A
  err : E → Outcome E A
  ok : A → Outcome E A

infixl 5 ◌>>◌ ◌>>=◌
-- `?` on a call whose value the `rest` of the body goes on with.
abbrev pub ◌>>=◌ : {E A B : Type 0} → Outcome E A → (A → Outcome E B) → Outcome E B
panic >>= rest = panic
err failure >>= rest = err failure
ok value >>= rest = rest value

-- `?` on a call that returns nothing.
abbrev pub ◌>>◌ : {E B : Type 0} → Outcome E (Unit {0}) → Outcome E B → Outcome E B
check >> rest = check >>= λ nothing. rest

-- `if c { action }`: the action runs only where the test passes.
abbrev pub when : {E : Type 0} → Bool → Outcome E (Unit {0}) → Outcome E (Unit {0})
when true m = m
when false m = ok tt

-- `o.ok_or(e)?`
abbrev pub ok_or : {E A : Type 0} → E → Option A → Outcome E A
ok_or e none = err e
ok_or e (some a) = ok a

-- `o.unwrap()`
abbrev pub unwrap : {E A : Type 0} → Option A → Outcome E A
unwrap none = panic
unwrap (some a) = ok a

-- Where a body returns, its first call returned, and the rest on the value of that call.
pub >>=-eq-ok :
    {E A B : Type 0} (call : Outcome E A) (rest : A → Outcome E B) {result : B}
    → (call >>= rest) ≡ ok result
    → (value : A) × (call ≡ ok value) × (rest value ≡ ok result)
>>=-eq-ok panic rest returned = absurd (ground arith)
>>=-eq-ok (err failure) rest returned = absurd (ground arith)
>>=-eq-ok (ok value) rest returned = (value, refl, returned)

pub >>-eq-ok :
    {E B : Type 0} (check : Outcome E (Unit {0})) (rest : Outcome E B) {result : B}
    → (check >> rest) ≡ ok result
    → (check ≡ ok tt) × (rest ≡ ok result)
>>-eq-ok panic rest returned = absurd (ground arith)
>>-eq-ok (err failure) rest returned = absurd (ground arith)
>>-eq-ok (ok nothing) rest returned = (refl, returned)

-- A call that ends with a value or an error.
abbrev pub CannotPanic : {E A : Type 0} → Outcome E A → Type 0
CannotPanic call = call ≢ panic

pub >>=-CannotPanic :
    {E A B : Type 0} (call : Outcome E A) (rest : A → Outcome E B)
    → CannotPanic call
    → ((value : A) → CannotPanic (rest value))
    → CannotPanic (call >>= rest)
>>=-CannotPanic panic rest first later = absurd (first refl)
>>=-CannotPanic (err failure) rest first later = λ e. ground arith
>>=-CannotPanic (ok value) rest first later = later value

pub when-CannotPanic :
    {E : Type 0} (test : Bool) (m : Outcome E (Unit {0}))
    → CannotPanic m
    → CannotPanic (when test m)
when-CannotPanic true m calm = calm
when-CannotPanic false m calm = λ e. ground arith

pub ok-CannotPanic : {E A : Type 0} (value : A) → CannotPanic {E = E} (ok value)
ok-CannotPanic value e = ground arith

pub ok_or-CannotPanic : {E A : Type 0} (e : E) (o : Option A) → CannotPanic (ok_or e o)
ok_or-CannotPanic failure none e = ground arith
ok_or-CannotPanic failure (some a) e = ground arith
