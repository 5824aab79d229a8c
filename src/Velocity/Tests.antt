-- ===== src/Velocity/Tests.antt =====
-- A control of three buckets of ten seconds, run on concrete payments.
use validating_lightning_sig.Common.{
  ◌≡◌, ◌≤◌, ◌+◌, ◌/◌, refl, true, false, some, List, [], ◌∷◌, arith, leb,
}
use validating_lightning_sig.Velocity.{
  VelocityControl, VelocityControlSpec, hourly, new_with_intervals, insert, velocity, spec_matches,
  advance,
}
use validating_lightning_sig.Velocity.Window.{Payment, window}
use validating_lightning_sig.Velocity.Refines.{sum, Represents}
use validating_lightning_sig.Velocity.Insert.{
  spent, extend, insert-Represents, new_with_intervals-Represents,
}
use validating_lightning_sig.Velocity.Run.{attempt, Ordered, window_limited}

abbrev small : VelocityControl
small = record { start_sec = 0; bucket_interval = 10; buckets = 0 ∷ 0 ∷ 0 ∷ []; limit = 100 }

made : new_with_intervals 100 10 3 ≡ some small
unfolding new_with_intervals
made = refl

abbrev payments : List Payment
payments = (5, 60) ∷ (12, 60) ∷ (18, 30) ∷ (47, 80) ∷ []

in_order : Ordered 0 payments
in_order = omega arith

window_limited_example :
    (log : List Payment) × (c' : VelocityControl) × (attempt small [] payments ≡ some (log, c'))
    × (sum (window 10 3 (c'.start_sec / 10) 0 log) ≤ 100)
window_limited_example = window_limited 100 10 3 payments made (omega arith) in_order

insert-Represents_example :
    (c' : VelocityControl) × (insert small 5 60 ≡ some (leb (spent 10 3 5 [] + 60) 100, c'))
    × Represents (extend (leb (spent 10 3 5 [] + 60) 100) (5, 60) []) c'
insert-Represents_example =
    insert-Represents small [] 5 60 (new_with_intervals-Represents 100 10 3 made).0 (omega arith)
      (omega arith) (omega arith)

abbrev spec : VelocityControlSpec
spec = record { limit_msat = 100; interval_type = hourly }

abbrev stored : VelocityControl
stored = record {
  start_sec = 600;
  bucket_interval = 300;
  buckets = 7 ∷ 0 ∷ 0 ∷ 0 ∷ 0 ∷ 0 ∷ 0 ∷ 0 ∷ 0 ∷ 0 ∷ 0 ∷ 0 ∷ [];
  limit = 100;
}

stored_matches : spec_matches stored spec ≡ true
unfolding spec_matches
stored_matches = refl

insert_test : insert small 5 160 ≡ some (false, small)
unfolding insert advance velocity
insert_test = refl
