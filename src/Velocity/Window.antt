-- ===== src/Velocity/Window.antt =====
-- The abstract view of a velocity control: the payments accepted so far, with their times, and
-- their totals per bucket of time.
use native.Mathlib.Nat.{add-zero}
use validating_lightning_sig.Common.{
  ℕ, zero, suc, ◌+◌, ◌/◌, ◌≤◌, ◌<◌, ◌≡◌, refl, ap, List, [], ◌∷◌, ◌++◌, arith, ◌==◌, if◌then◌else◌,
  length, take, replicate,
}

-- An accepted payment: the second at which it was made, and its millisatoshis.
abbrev pub Payment : Type 0
Payment = ℕ × ℕ

module _ (interval : ℕ) where
  -- The number of the bucket of time that a second lies in.
  abbrev pub epoch : ℕ → ℕ
  epoch sec = sec / interval

  -- What was paid in the bucket that lies `age` before the bucket `top`.
  unfoldable pub total : ℕ → ℕ → List Payment → ℕ
  total top age [] = 0
  total top age ((sec, msat) ∷ log) =
      (if epoch sec + age == top then msat else 0) + total top age log

  -- The totals of `n` buckets, from `age` on backwards.
  unfoldable pub window : ℕ → ℕ → ℕ → List Payment → List ℕ
  unfolding total
  window zero top age log = []
  window (suc n) top age log = total top age log ∷ window n top (suc age) log

  -- Every payment lies in the bucket `top` or before it.
  abbrev pub UpTo : ℕ → List Payment → Type 0
  UpTo top [] = Unit
  UpTo top ((sec, msat) ∷ log) = (epoch sec ≤ top) × UpTo top log

  pub UpTo-mono : {top top' : ℕ} (log : List Payment) → top ≤ top' → UpTo top log → UpTo top' log
  UpTo-mono [] h u = tt
  UpTo-mono (p ∷ log) h u = (omega arith, UpTo-mono log h u.1)

  pub total-shift :
      (top age k : ℕ) (log : List Payment) → total (top + k) (age + k) log ≡ total top age log
  unfolding total
  total-shift top age k [] = refl
  total-shift top age k (p ∷ log) = ground (arith, total-shift top age k log)

  pub total-future :
      (top age top' : ℕ) (log : List Payment)
      → UpTo top log
      → top + age < top'
      → total top' age log ≡ 0
  unfolding total
  total-future top age top' [] u h = refl
  total-future top age top' (p ∷ log) u h = ground (arith, total-future top age top' log u.1 h)

  pub length-window : (n top age : ℕ) (log : List Payment) → length (window n top age log) ≡ n
  unfolding window
  length-window zero top age log = refl
  length-window (suc n) top age log = ap suc (length-window n top (suc age) log)

  pub window-shift :
      (n top age k : ℕ) (log : List Payment)
      → window n (top + k) (age + k) log ≡ window n top age log
  unfolding window
  window-shift zero top age k log = refl
  window-shift (suc n) top age k log =
      ground
        (arith, total-shift top age k log, window-shift n top (suc age) k log, add_suc_eq age k)
    where
      add_suc_eq : (a b : ℕ) → suc (a + b) ≡ suc a + b
      add_suc_eq a b = omega arith

  -- Buckets of time that nothing was paid in yet are empty.
  pub window-future :
      (n top top' age : ℕ) (log : List Payment)
      → UpTo top log
      → top + age + n ≤ top'
      → window n top' age log ≡ replicate n 0
  unfolding window
  window-future zero top top' age log u h = refl
  window-future (suc n) top top' age log u h = ground (
    arith,
    total-future top age top' log u,
    window-future n top top' (suc age) log u (omega arith),
  )

  pub window-append :
      (k n top age : ℕ) (log : List Payment)
      → window (k + n) top age log ≡ window k top age log ++ window n top (age + k) log
  unfolding window
  window-append zero n top age log = ground (arith, add-zero age, zero_add_eq n)
    where
      zero_add_eq : (m : ℕ) → 0 + m ≡ m
      zero_add_eq m = omega arith
  window-append (suc k) n top age log =
      ground (arith, window-append k n top (suc age) log, left k n, right age k)
    where
      left : (a b : ℕ) → suc a + b ≡ suc (a + b)
      left a b = omega arith

      right : (a b : ℕ) → suc a + b ≡ a + suc b
      right a b = omega arith

  pub take-window :
      (n m top age : ℕ) (log : List Payment)
      → n ≤ m
      → take n (window m top age log) ≡ window n top age log
  unfolding window
  take-window zero m top age log h = refl
  take-window (suc n) zero top age log h = absurd (omega arith)
  take-window (suc n) (suc m) top age log h =
      ap (λ w. total top age log ∷ w) (take-window n m top (suc age) log (omega arith))

  -- A payment in the bucket `top` counts in the first entry of the window and in no other.
  pub total-cons_now :
      (top now msat : ℕ) (log : List Payment)
      → epoch now ≡ top
      → total top 0 ((now, msat) ∷ log) ≡ msat + total top 0 log
  unfolding total
  total-cons_now top now msat log e = ground arith

  pub window-cons_old :
      (n top age now msat : ℕ) (log : List Payment)
      → epoch now ≡ top
      → 0 < age
      → window n top age ((now, msat) ∷ log) ≡ window n top age log
  unfolding window total
  window-cons_old zero top age now msat log e h = refl
  window-cons_old (suc n) top age now msat log e h =
      ground (arith, window-cons_old n top (suc age) now msat log e (omega arith))

  pub window-none : (n age : ℕ) → window n 0 age [] ≡ replicate n 0
  unfolding window total
  window-none zero age = refl
  window-none (suc n) age = ap (λ w. 0 ∷ w) (window-none n (suc age))
