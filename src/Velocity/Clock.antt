-- ===== src/Velocity/Clock.antt =====
-- Changes that are no payments: a clock that steps back, a new spec, a restart from storage.
use native.Mathlib.Nat.{le-div_iff_mul-le}
use validating_lightning_sig.Common.{
  ℕ, ◌+◌, ◌-◌, ◌*◌, ◌/◌, ◌≤◌, ◌<◌, min, ◌≡◌, refl, inl, inr, true, false, some, List, [], ◌∷◌,
  arith, ltb, ◌==◌, Bool-cases, length, replicate, u64_max, u64_mod, u64_sub, saturating_add,
}
use validating_lightning_sig.Velocity.{
  VelocityControl, VelocityControlSpec, VelocityControlIntervalType, hourly, daily, unlimited,
  velocity, shift, advance, insert, add_first, record_velocity, interval_triple, spec_to_triple,
  spec_matches, update_spec, load_from_state, get_state,
}
use validating_lightning_sig.Velocity.Refines.{
  sum, sum-append, sum-replicate, velocity-sum, shift-append, length-shift,
}

sum-shift_all : (xs : List ℕ) → sum (shift (length xs) xs) ≡ 0
sum-shift_all xs =
    let none_left : length xs - length xs ≡ 0 = omega arith in
    rw (shift-append (length xs) xs, none_left)
      (omega (arith, sum-append (replicate (length xs) 0) [], sum-replicate (length xs)))

record_velocity-some :
    (c : VelocityControl) (msat : ℕ) (bs : List ℕ)
    → c.buckets ≡ bs
    → 0 < length bs
    → (c' : VelocityControl) × (record_velocity c msat ≡ some (true, c'))
unfolding record_velocity add_first
record_velocity-some c msat [] e h = absurd (omega arith)
record_velocity-some c msat (b ∷ bs) e h =
    (record c { buckets = saturating_add b msat ∷ bs }, rw e refl)

module _ (c : VelocityControl) (now msat : ℕ) where
  module _ (ticking : 0 < c.bucket_interval) (back : now < c.start_sec)
      (word : c.start_sec < u64_mod)
      (far : length c.buckets * c.bucket_interval ≤ now + u64_mod - c.start_sec) where
    nshift_all : length c.buckets ≤ u64_sub now c.start_sec / c.bucket_interval
    nshift_all =
        let wrapped : u64_sub now c.start_sec ≡ now + u64_mod - c.start_sec = omega arith in
        rw wrapped ((le-div_iff_mul-le ticking).1 far)

    velocity-advance_back : velocity (advance c now) ≡ 0
    unfolding advance
    velocity-advance_back =
        let capped : min (length c.buckets) (u64_sub now c.start_sec / c.bucket_interval)
            ≡ length c.buckets =
          omega (arith, nshift_all) in
        let empty : sum (advance c now).buckets ≡ 0 = rw capped (sum-shift_all c.buckets) in
        omega (arith, velocity-sum (advance c now), empty)

  advance-length_lem : length (advance c now).buckets ≡ length c.buckets
  unfolding advance
  advance-length_lem =
      length-shift (min (length c.buckets) (u64_sub now c.start_sec / c.bucket_interval)) c.buckets
        (omega arith)

  advance-limit_lem : (advance c now).limit ≡ c.limit
  unfolding advance
  advance-limit_lem = refl

  -- In a release build, where `-` on u64 wraps, a clock that reads an earlier time than the
  -- start of the last bucket, with fewer seconds in all buckets than the wrapped difference,
  -- makes `insert` forget every payment: any amount up to the limit is granted again.
  pub insert_clock_back :
      0 < c.bucket_interval
      → 0 < length c.buckets
      → now < c.start_sec
      → c.start_sec < u64_mod
      → length c.buckets * c.bucket_interval ≤ now + u64_mod - c.start_sec
      → msat ≤ c.limit
      → c.limit ≤ u64_max
      → (c' : VelocityControl) × (insert c now msat ≡ some (true, c'))
  unfolding insert
  insert_clock_back ticking nonempty back word far fits low =
      let idle : velocity (advance c now) ≡ 0 = velocity-advance_back ticking back word far in
      let live : (c.bucket_interval == 0) ≡ false = ground arith in
      let room : ltb (advance c now).limit (saturating_add (velocity (advance c now)) msat)
          ≡ false =
        ground (arith, advance-limit_lem) in
      let (c', done) =
        record_velocity-some (advance c now) msat (advance c now).buckets refl
          (omega (arith, advance-length_lem)) in
      (c', rw (live, room) done)

-- A control whose spec is unchanged comes back from storage as it was.
pub load_from_state-get_state :
    (spec : VelocityControlSpec) (c : VelocityControl)
    → spec_matches c spec ≡ true
    → load_from_state spec (get_state c) ≡ some c
unfolding load_from_state get_state spec_matches
load_from_state-get_state spec c h = ground arith

reset : ℕ × ℕ × ℕ → VelocityControl
reset (limit, bucket_interval, num_buckets) = record {
  start_sec = 0;
  bucket_interval = bucket_interval;
  buckets = replicate num_buckets 0;
  limit = limit;
}

reset-matches :
    (limit : ℕ) (t : VelocityControlIntervalType)
    → spec_matches
        (reset (interval_triple limit t))
        (record { limit_msat = limit; interval_type = t })
      ≡ true
unfolding spec_matches reset interval_triple
reset-matches limit hourly = ground arith
reset-matches limit daily = ground arith
reset-matches limit unlimited = ground arith

update_spec-reset :
    (spec : VelocityControlSpec) (c : VelocityControl)
    → spec_matches c spec ≡ false
    → update_spec c spec ≡ reset (spec_to_triple spec)
unfolding update_spec reset
update_spec-reset spec c h = ground arith

update_spec-same :
    (spec : VelocityControlSpec) (c : VelocityControl)
    → spec_matches c spec ≡ true
    → update_spec c spec ≡ c
unfolding update_spec
update_spec-same spec c h = ground arith

velocity-reset : (l i n : ℕ) → velocity (reset (l, i, n)) ≡ 0
unfolding reset
velocity-reset l i n = omega (arith, velocity-sum (reset (l, i, n)), sum-replicate n)

-- After an update the spec matches; a matching control keeps its payments, any other is emptied.
pub update_spec-matches :
    (spec : VelocityControlSpec) (c : VelocityControl)
    → (spec_matches (update_spec c spec) spec ≡ true)
      × (spec_matches c spec ≡ true → update_spec c spec ≡ c)
      × (spec_matches c spec ≡ false → velocity (update_spec c spec) ≡ 0)
update_spec-matches spec c = (
  elim (Bool-cases (spec_matches c spec)) [
    | inl same ↦ rw (update_spec-same spec c same) same
    | inr other ↦
        rw (update_spec-reset spec c other)
          (unfold spec_to_triple in reset-matches spec.limit_msat spec.interval_type)
  ],
  update_spec-same spec c,
  λ other.
      rw (update_spec-reset spec c other)
        (velocity-reset (spec_to_triple spec).0 (spec_to_triple spec).1 (spec_to_triple spec).2),
)
