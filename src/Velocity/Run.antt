-- ===== src/Velocity/Run.antt =====
-- Runs of attempted payments: the limit holds in every window, whatever is attempted.
use native.Mathlib.Nat.{mod-le}
use validating_lightning_sig.Common.{
  ℕ, ◌+◌, ◌/◌, ◌≤◌, ◌<◌, min, ◌≡◌, refl, ap, ◌∙◌, inl, inr, Bool, Option, none, some, List, [], ◌∷◌,
  arith, leb, Option-cases, length, u64_max, u64_mod, u64_sub,
}
use validating_lightning_sig.Velocity.{
  VelocityControl, new_with_intervals, advance, add_first, record_velocity, insert,
}
use validating_lightning_sig.Velocity.Window.{Payment, window}
use validating_lightning_sig.Velocity.Refines.{sum, Represents, length-shift}
use validating_lightning_sig.Velocity.Insert.{
  spent, extend, insert-Represents, new_with_intervals-Represents,
}

-- Attempted payments, one after the other; the granted ones are kept.
unfoldable pub attempt :
    VelocityControl → List Payment → List Payment → Option (List Payment × VelocityControl)
attempt c log [] = some (log, c)
attempt c log ((now, msat) ∷ rest) = elim (insert c now msat) [
  | none ↦ none
  | some (granted, c') ↦ attempt c' (extend granted (now, msat) log) rest
]

-- The attempts come in time order, from `since` on.
abbrev pub Ordered : ℕ → List Payment → Type 0
Ordered since [] = Unit
Ordered since ((now, msat) ∷ rest) = (since ≤ now) × (now < u64_mod) × Ordered now rest

-- What an attempt leaves alone, and how far it moves the start of the window.
record Keeps (c : VelocityControl) (now : ℕ) (c' : VelocityControl) : Type 0 where
  limit : c'.limit ≡ c.limit
  bucket_interval : c'.bucket_interval ≡ c.bucket_interval
  buckets : length c'.buckets ≡ length c.buckets
  start_sec : c'.start_sec ≤ now

add_first-length :
    (msat : ℕ) (xs : List ℕ) {ys : List ℕ} → add_first msat xs ≡ some ys → length ys ≡ length xs
unfolding add_first
add_first-length msat [] e = absurd (ground arith)
add_first-length msat (x ∷ xs) e = ground arith

advance-Keeps : (c : VelocityControl) (now : ℕ) → Keeps c now (advance c now)
unfolding advance
advance-Keeps c now = record {
  limit = refl;
  bucket_interval = refl;
  buckets =
      length-shift (min (length c.buckets) (u64_sub now c.start_sec / c.bucket_interval)) c.buckets
        (omega arith);
  start_sec = omega (arith, mod-le now c.bucket_interval);
}

record_velocity-Keeps :
    (c d : VelocityControl) (now msat : ℕ) {g : Bool} {c' : VelocityControl}
    → Keeps c now d
    → record_velocity d msat ≡ some (g, c')
    → Keeps c now c'
unfolding record_velocity
record_velocity-Keeps c d now msat k e = elim (Option-cases (add_first msat d.buckets)) [
  | inl bad ↦ absurd (ground arith)
  | inr (ys, got) ↦
      let same : length ys ≡ length d.buckets = add_first-length msat d.buckets got in ground arith
]

insert-Keeps :
    (c : VelocityControl) (now msat : ℕ) {g : Bool} {c' : VelocityControl}
    → insert c now msat ≡ some (g, c')
    → Keeps c now c'
unfolding insert
insert-Keeps c now msat {g} {c'} e = ground (
  arith,
  advance-Keeps c now,
  record_velocity-Keeps c (advance c now) now msat {g = g} {c' = c'} (advance-Keeps c now),
)

attempt-Represents :
    (rest : List Payment) (since : ℕ) (c : VelocityControl) (log : List Payment)
    → Represents log c
    → c.limit < u64_max
    → c.start_sec ≤ since
    → Ordered since rest
    → (log' : List Payment) × (c' : VelocityControl) × (attempt c log rest ≡ some (log', c'))
      × Represents log' c'
      × (c'.limit ≡ c.limit)
      × (c'.bucket_interval ≡ c.bucket_interval)
      × (length c'.buckets ≡ length c.buckets)
unfolding attempt
attempt-Represents [] since c log inv low h o = (log, c, refl, inv, refl, refl, refl)
attempt-Represents ((now, msat) ∷ rest) since c log inv low h o =
    let granted : Bool = leb (spent c.bucket_interval (length c.buckets) now log + msat) c.limit in
    let (c', done, rep) = insert-Represents c log now msat inv low (omega arith) o.1 in
    let k : Keeps c now c' = insert-Keeps c now msat done in
    let (log'', c'', run, rep'', l, i, n) =
      attempt-Represents rest now c' (extend granted (now, msat) log) rep (omega (arith, k.limit))
        k.start_sec o.2 in
    (log'', c'', rw (done, attempt) run, rep'', l ∙ k.limit, i ∙ k.bucket_interval, n ∙ k.buckets)

-- From a new control, payments attempted in time order never panic, and those granted within the
-- window that ends with the last attempt come to at most the limit, if that is not u64::MAX.
pub window_limited :
    (limit i n : ℕ) (rest : List Payment) {c : VelocityControl}
    → new_with_intervals limit i n ≡ some c
    → limit < u64_max
    → Ordered 0 rest
    → (log : List Payment) × (c' : VelocityControl) × (attempt c [] rest ≡ some (log, c'))
      × (sum (window i n (c'.start_sec / i) 0 log) ≤ limit)
window_limited limit i n rest {c} made low o =
    let (rep, l, i', n', s) = new_with_intervals-Represents limit i n made in
    let (log, c', run, rep', l', i'', n'') =
      attempt-Represents rest 0 c [] rep (omega arith) (omega arith) o in
    let held : c'.buckets ≡ window i n (c'.start_sec / i) 0 log =
      rep'.exact
      ∙ ap (λ b. window b (length c'.buckets) (c'.start_sec / b) 0 log) (i'' ∙ i')
      ∙ ap (λ m. window i m (c'.start_sec / i) 0 log) (n'' ∙ n') in
    (log, c', run, omega (arith, ap sum held, rep'.within))
