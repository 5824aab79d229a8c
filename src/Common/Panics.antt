-- ===== src/Common/Panics.antt =====
-- Calls that return no `Result` but may panic: `none` is the panic.
use mathlib.Core.Bool.{Bool, true, false}
use mathlib.Core.Option.{Option, none, some, some-injective}
use mathlib.Core.Logic.{inl, inr}
use validating_lightning_sig.Common.Tests.{if◌then◌else◌, Bool-cases, Option-cases}
use mathlib.Core.Path.{◌≡◌, refl, sym, ap, ◌∙◌, subst}
use mathlib.Core.List.{List, [], ◌∷◌}
use Prim.Native.Nat.{ℕ, zero, suc}
use native.Mathlib.Omega.{arith}
use validating_lightning_sig.Common.Lists.{get_elem?}

infixl 5 ◌>>◌ ◌>>=◌
abbrev pub ◌>>=◌ {ℓ κ} : {A : Type ℓ} {B : Type κ} → Option A → (A → Option B) → Option B
none >>= rest = none
some a >>= rest = rest a

abbrev pub ◌>>◌ {ℓ κ} : {A : Type ℓ} {B : Type κ} → Option A → Option B → Option B
check >> rest = check >>= λ nothing. rest

-- `assert!(b)`
abbrev pub assert : Bool → Option (Unit {0})
assert true = some tt
assert false = none

-- `xs[i] = v`
unfoldable pub write {ℓ} : {A : Type ℓ} → List A → ℕ → A → Option (List A)
write [] i v = none
write (x ∷ xs) zero v = some (v ∷ xs)
write (x ∷ xs) (suc i) v = write xs i v >>= λ ys. some (x ∷ ys)

pub >>=-eq-some {ℓ κ} :
    {A : Type ℓ} {B : Type κ} (call : Option A) (rest : A → Option B) {b : B}
    → (call >>= rest) ≡ some b
    → (a : A) × (call ≡ some a) × (rest a ≡ some b)
>>=-eq-some none rest h = absurd (ground arith)
>>=-eq-some (some a) rest h = (a, refl, h)

-- Writing back the value that was read undoes a write.
pub write-write {ℓ} :
    {A : Type ℓ} (xs : List A) (i : ℕ) (u v : A)
    → get_elem? xs i ≡ some u
    → (write xs i v >>= λ ys. write ys i u) ≡ some xs
unfolding write
write-write [] i u v h = ground arith
write-write (x ∷ xs) zero u v h = ground arith
write-write (x ∷ xs) (suc i) u v h = ground (arith, write-write xs i u v h)

pub >>=-some {ℓ} : {A : Type ℓ} (call : Option A) → (call >>= λ a. some a) ≡ call
>>=-some none = refl
>>=-some (some a) = refl

-- Two calls in a row, the second of which is split where the first is.
pub >>=-assoc {ℓ κ μ} :
    {A : Type ℓ} {B : Type κ} {C : Type μ} (call : Option A) (both : A → Option C)
    (rest : A → Option B) (last : B → Option C)
    → ((a : A) → both a ≡ (rest a >>= last))
    → (call >>= both) ≡ ((call >>= rest) >>= last)
>>=-assoc none both rest last e = refl
>>=-assoc (some a) both rest last e = e a

-- A call that keeps a property of what it changes, where it returns.
abbrev pub Keeps {ℓ κ} : {A : Type ℓ} → (A → Type κ) → (A → Option A) → Type (ℓ ⊔ κ)
Keeps {A = A} P f = (a b : A) → f a ≡ some b → P a → P b

module _ {ℓ κ} {A : Type ℓ} {P : A → Type κ} where
  pub Keeps-some : (g : A → A) → ((a : A) → P a → P (g a)) → Keeps P (λ a. some (g a))
  Keeps-some g keep a b e p = subst P (some-injective (g a) b e) (keep a p)

  pub Keeps-bind : {f g : A → Option A} → Keeps P f → Keeps P g → Keeps P (λ a. f a >>= g)
  Keeps-bind {f} {g} kf kg a b e p =
      let (c, e₁, e₂) = >>=-eq-some (f a) g e in kg c b e₂ (kf a c e₁ p)

  pub Keeps-if :
      (test : A → Bool) {f g : A → Option A}
      → Keeps P f
      → Keeps P g
      → Keeps P (λ a. if test a then f a else g a)
  Keeps-if test {f} {g} kf kg a b e p = elim (Bool-cases (test a)) [
    | inl h ↦ kf a b (sym (ap (λ t. if t then f a else g a) h) ∙ e) p
    | inr h ↦ kg a b (sym (ap (λ t. if t then f a else g a) h) ∙ e) p
  ]

-- `if let Some(x) = o { .. }`: nothing changes where there is no value.
abbrev pub on_some {ℓ κ} : {A : Type ℓ} {X : Type κ} → Option X → A → (X → A → Option A) → Option A
on_some none a f = some a
on_some (some x) a f = f x a

pub Keeps-on_some {ℓ κ μ} :
    {A : Type ℓ} {P : A → Type κ} {X : Type μ} (o : A → Option X) (f : X → A → Option A)
    → ((x : X) → Keeps P (f x))
    → Keeps P (λ a. on_some (o a) a f)
Keeps-on_some {P} o f keep a b e p = elim (Option-cases (o a)) [
  | inl h ↦ subst P (some-injective a b (sym (ap (λ x. on_some x a f) h) ∙ e)) p
  | inr (x, h) ↦ keep x a b (sym (ap (λ x. on_some x a f) h) ∙ e) p
]
