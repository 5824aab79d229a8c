-- ===== src/Velocity.antt =====
-- vls-core/src/util/velocity.rs: a limit on the payment volume per time window, kept in buckets.
-- `usize` has 64 bits. `none` is a panic: a division by zero or an index out of bounds.
pub mod Window
pub mod Refines
pub mod Insert
pub mod Run
pub mod Clock
mod Tests
use validating_lightning_sig.Common.{
  ℕ, zero, suc, ◌-◌, ◌/◌, ◌%◌, min, Bool, true, false, ◌&&◌, Option, none, some, List, [], ◌∷◌, ltb,
  ◌==◌, if◌then◌else◌, length, take, replicate, u64_max, u64_sub, saturating_add,
}

pub record VelocityControl : Type 0 where
  pub start_sec : ℕ
  pub bucket_interval : ℕ
  pub buckets : List ℕ
  pub limit : ℕ

pub data VelocityControlIntervalType : Type 0 where
  hourly daily unlimited : VelocityControlIntervalType

pub record VelocityControlSpec : Type 0 where
  pub limit_msat : ℕ
  pub interval_type : VelocityControlIntervalType

-- The assertion `bucket_interval > 0 && num_buckets > 0` fails as `none`.
unfoldable pub new_with_intervals : ℕ → ℕ → ℕ → Option VelocityControl
new_with_intervals limit_msat bucket_interval num_buckets =
    if ltb 0 bucket_interval && ltb 0 num_buckets
    then some (record {
      start_sec = 0;
      bucket_interval = bucket_interval;
      buckets = replicate num_buckets 0;
      limit = limit_msat;
    })
    else none

pub new_unlimited : ℕ → ℕ → Option VelocityControl
unfolding new_with_intervals
new_unlimited bucket_interval num_buckets = new_with_intervals u64_max bucket_interval num_buckets

unfoldable pub interval_triple : ℕ → VelocityControlIntervalType → ℕ × ℕ × ℕ
interval_triple limit_msat hourly = (limit_msat, 300, 12)
interval_triple limit_msat daily = (limit_msat, 3600, 24)
interval_triple limit_msat unlimited = (u64_max, 300, 12)

unfoldable pub spec_to_triple : VelocityControlSpec → ℕ × ℕ × ℕ
unfolding interval_triple
spec_to_triple spec = interval_triple spec.limit_msat spec.interval_type

unfoldable pub new : VelocityControlSpec → Option VelocityControl
unfolding spec_to_triple new_with_intervals
new spec =
    let (limit, bucket_interval, num_buckets) = spec_to_triple spec in
    new_with_intervals limit bucket_interval num_buckets

pub spec_matches : VelocityControl → VelocityControlSpec → Bool
unfolding spec_to_triple
spec_matches self spec =
    let (limit, bucket_interval, num_buckets) = spec_to_triple spec in
    self.limit == limit
    && self.bucket_interval == bucket_interval
    && length self.buckets == num_buckets

pub update_spec : VelocityControl → VelocityControlSpec → VelocityControl
unfolding spec_matches spec_to_triple
update_spec self spec =
    let (limit, bucket_interval, num_buckets) = spec_to_triple spec in
    if spec_matches self spec then self else record {
      start_sec = 0;
      bucket_interval = bucket_interval;
      buckets = replicate num_buckets 0;
      limit = limit;
    }

with_state : VelocityControl → ℕ × List ℕ → VelocityControl
with_state self state = record self { start_sec = state.0; buckets = state.1 }

pub load_from_state : VelocityControlSpec → ℕ × List ℕ → Option VelocityControl
unfolding new with_state
load_from_state spec state = elim (new spec) [
  | none ↦ none
  | some control ↦ some (with_state control state)
]

pub get_state : VelocityControl → ℕ × List ℕ
get_state self = (self.start_sec, self.buckets)

unfoldable pub is_unlimited : VelocityControl → Bool
is_unlimited self = self.limit == u64_max

unfoldable pub velocity_from : ℕ → List ℕ → ℕ
velocity_from sum [] = sum
velocity_from sum (bucket ∷ buckets) = velocity_from (saturating_add sum bucket) buckets

unfoldable pub velocity : VelocityControl → ℕ
unfolding velocity_from
velocity self = velocity_from 0 self.buckets

-- `for _ in 0..nshift { buckets.insert(0, 0) }`
unfoldable pub push_zeros : ℕ → List ℕ → List ℕ
push_zeros zero buckets = buckets
push_zeros (suc n) buckets = push_zeros n (0 ∷ buckets)

-- The buckets after the passage of time: `nshift` of them fall out at the back.
unfoldable pub shift : ℕ → List ℕ → List ℕ
unfolding push_zeros
shift nshift buckets = push_zeros nshift (take (length buckets - nshift) buckets)

-- The statements of `insert` up to the test of the limit.
unfoldable pub advance : VelocityControl → ℕ → VelocityControl
unfolding shift
advance self current_sec =
    let nshift = u64_sub current_sec self.start_sec / self.bucket_interval in
    record self {
      buckets = shift (min (length self.buckets) nshift) self.buckets;
      start_sec = current_sec - current_sec % self.bucket_interval;
    }

-- `self.buckets[0] = self.buckets[0].saturating_add(velocity_msat)`
unfoldable pub add_first : ℕ → List ℕ → Option (List ℕ)
add_first velocity_msat [] = none
add_first velocity_msat (bucket ∷ buckets) = some (saturating_add bucket velocity_msat ∷ buckets)

unfoldable pub record_velocity : VelocityControl → ℕ → Option (Bool × VelocityControl)
unfolding add_first
record_velocity self velocity_msat = elim (add_first velocity_msat self.buckets) [
  | none ↦ none
  | some buckets ↦ some (true, record self { buckets = buckets })
]

unfoldable pub insert : VelocityControl → ℕ → ℕ → Option (Bool × VelocityControl)
insert self current_sec velocity_msat =
    if self.bucket_interval == 0
    then none
    else if ltb (advance self current_sec).limit
        (saturating_add (velocity (advance self current_sec)) velocity_msat)
    then some (false, advance self current_sec)
    else record_velocity (advance self current_sec) velocity_msat

zero_all : List ℕ → List ℕ
zero_all [] = []
zero_all (bucket ∷ buckets) = 0 ∷ zero_all buckets

pub clear : VelocityControl → VelocityControl
unfolding zero_all
clear self = record self { buckets = zero_all self.buckets }
