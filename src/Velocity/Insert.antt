-- ===== src/Velocity/Insert.antt =====
-- `insert` against the list of accepted payments, and a whole run of attempted payments.
use native.Mathlib.Nat.{zero-div}
use validating_lightning_sig.Common.{
  ℕ, ◌+◌, ◌/◌, ◌≤◌, ◌<◌, min, ◌≡◌, refl, sym, ap, ◌∙◌, inl, inr, Bool, true, false, some, List, [],
  ◌∷◌, arith, ltb, leb, leb→le, ◌==◌, Bool-cases, if◌then◌else◌, length, replicate,
  length-replicate, u64_max, u64_mod, saturating_add,
}
use validating_lightning_sig.Velocity.{
  VelocityControl, new_with_intervals, velocity, advance, record_velocity, insert,
}
use validating_lightning_sig.Velocity.Window.{
  Payment, window, window-none, total-cons_now, window-cons_old,
}
use validating_lightning_sig.Velocity.Refines.{
  sum, sum-replicate, Represents, velocity-sum, advance-buckets, advance-limit, advance-interval,
  advance-epoch, advance-Represents,
}

-- What was paid within the window that ends at `now`, by a list of payments.
abbrev pub spent : ℕ → ℕ → ℕ → List Payment → ℕ
spent interval buckets now log = sum (window interval buckets (now / interval) 0 log)

abbrev pub extend : Bool → Payment → List Payment → List Payment
extend granted p log = if granted then p ∷ log else log

module _ (log : List Payment) (now msat : ℕ) where
  window-cons :
      (i b top : ℕ) (bs : List ℕ)
      → now / i ≡ top
      → b ∷ bs ≡ window i (length (b ∷ bs)) top 0 log
      → b + msat ≤ u64_max
      → saturating_add b msat ∷ bs
        ≡ window i (length (saturating_add b msat ∷ bs)) top 0 ((now, msat) ∷ log)
  unfolding window
  window-cons i b top bs e h small = ground (
    arith,
    total-cons_now i top now msat log e,
    window-cons_old i (length bs) top 1 now msat log e (omega arith),
  )

  -- A granted payment is added to the first bucket.
  record_velocity-Represents :
      (c : VelocityControl) (bs : List ℕ)
      → c.buckets ≡ bs
      → Represents log c
      → now / c.bucket_interval ≡ c.start_sec / c.bucket_interval
      → sum c.buckets + msat ≤ c.limit
      → c.limit < u64_max
      → (c' : VelocityControl) × (record_velocity c msat ≡ some (true, c'))
        × Represents ((now, msat) ∷ log) c'
  unfolding record_velocity
  record_velocity-Represents c [] e inv at fits low =
      absurd (omega (arith, inv.nonempty, ap length e))
  record_velocity-Represents c (b ∷ bs) e inv at fits low =
      let total_eq : sum c.buckets ≡ b + sum bs = rw e in
      let small : b + msat ≤ u64_max = omega arith in
      let exact : b ∷ bs
          ≡ window c.bucket_interval (length (b ∷ bs)) (c.start_sec / c.bucket_interval) 0 log =
        rw e at (inv.exact) in
      (
        record c { buckets = saturating_add b msat ∷ bs },
        rw e refl,
        record {
          ticking = inv.ticking;
          nonempty = omega arith;
          aligned = inv.aligned;
          past = (omega arith, inv.past);
          exact =
              window-cons c.bucket_interval b (c.start_sec / c.bucket_interval) bs at exact small;
          within = omega arith;
        },
      )

module _ (c : VelocityControl) (log : List Payment) (now msat : ℕ) where
  abbrev present : ℕ
  present = spent c.bucket_interval (length c.buckets) now log

  -- Where the control stands for a list of payments, the limit is not u64::MAX and the clock
  -- does not go back, `insert` grants a payment exactly when it fits with what was paid within
  -- the window, and then and only then it is added to the list of payments that the control
  -- stands for.
  pub insert-Represents :
      Represents log c
      → c.limit < u64_max
      → c.start_sec ≤ now
      → now < u64_mod
      → (c' : VelocityControl) × (insert c now msat
          ≡ some (leb (spent c.bucket_interval (length c.buckets) now log + msat) c.limit, c'))
        × Represents
            (extend
              (leb (spent c.bucket_interval (length c.buckets) now log + msat) c.limit)
              (now, msat)
              log)
            c'
  unfolding insert
  insert-Represents inv low h w =
      let inv' : Represents log (advance c now) = advance-Represents c log inv now h w in
      let total_eq : sum (advance c now).buckets ≡ present =
        ap sum (advance-buckets c log inv now h w) in
      let vel : velocity (advance c now) ≡ min present u64_max =
        velocity-sum (advance c now) ∙ ap (λ s. min s u64_max) total_eq in
      let lim : (advance c now).limit ≡ c.limit = advance-limit c log inv now in
      let at : now / (advance c now).bucket_interval
          ≡ (advance c now).start_sec / (advance c now).bucket_interval =
        rw (advance-interval c log inv now) (sym (advance-epoch c log inv now)) in
      let live : (c.bucket_interval == 0) ≡ false = ground arith in
      elim (Bool-cases (leb (present + msat) c.limit)) [
        | inl fits ↦
            let (c', done, rep) =
              record_velocity-Represents log now msat (advance c now) (advance c now).buckets refl
                inv' at (omega (arith, leb→le _ _ fits)) (omega arith) in
            let room : ltb (advance c now).limit (saturating_add (velocity (advance c now)) msat)
                ≡ false =
              ground arith in
            (c', rw (live, room, fits) done, rw fits rep)
        | inr over ↦
            let full : ltb (advance c now).limit (saturating_add (velocity (advance c now)) msat)
                ≡ true =
              ground arith in
            (advance c now, rw (live, full, over) refl, rw over inv')
      ]

abbrev fresh : ℕ → ℕ → ℕ → VelocityControl
fresh limit i n = record {
  start_sec = 0;
  bucket_interval = i;
  buckets = replicate n 0;
  limit = limit;
}

fresh-Represents : (limit i n : ℕ) → 0 < i → 0 < n → Represents [] (fresh limit i n)
fresh-Represents limit i n hi hn = record {
  ticking = hi;
  nonempty = omega (arith, length-replicate {0} {A = ℕ} n 0);
  aligned = rw (zero-div i) (omega arith);
  past = tt;
  exact = rw (zero-div i, length-replicate {0} {A = ℕ} n 0) (sym (window-none i n 0));
  within = omega (arith, sum-replicate n);
}

-- A new control stands for no payments, and has the limit and the window that were asked for.
pub new_with_intervals-Represents :
    (limit i n : ℕ) {c : VelocityControl}
    → new_with_intervals limit i n ≡ some c
    → Represents [] c
      × (c.limit ≡ limit)
      × (c.bucket_interval ≡ i)
      × (length c.buckets ≡ n)
      × (c.start_sec ≡ 0)
unfolding new_with_intervals
new_with_intervals-Represents limit i n {c} e =
    let made : c ≡ fresh limit i n = ground arith in
    let hi : 0 < i = ground arith in
    let hn : 0 < n = ground arith in
    rw made (fresh-Represents limit i n hi hn, refl, refl, length-replicate {0} {A = ℕ} n 0, refl)
