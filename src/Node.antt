-- ===== src/Node.antt =====
-- The payments of a node: `RoutedPayment`, `PaymentState` and `NodeState` of vls-core/src/node.rs, as far
-- as the checks of commitments read and change them. A map is a list of keys with values; the sums of
-- `u64` wrap in a release build.
pub mod Payments
pub mod Apply
pub mod Totals
pub mod Balanced
pub mod Recorded
pub mod Restore
pub mod Restart
pub mod Invoices
pub mod Pruning
pub mod Tests
use validating_lightning_sig.Common.{
  ℕ, Bool, true, false, not, ◌&&◌, Option, none, some, List, [], ◌∷◌, ltb, leb, ◌==◌, if◌then◌else◌,
  min, max, u64_add, u64_sub,
}
use validating_lightning_sig.Channel.{PublicKey}
use validating_lightning_sig.Velocity.{VelocityControl}

module _ {V : Type 0} where
  unfoldable pub lookup : ℕ → List (ℕ × V) → Option V
  lookup key [] = none
  lookup key ((k, v) ∷ m) = let rest = lookup key m in if k == key then some v else rest

  unfoldable pub assign : ℕ → V → List (ℕ × V) → List (ℕ × V)
  assign key value [] = (key, value) ∷ []
  assign key value ((k, v) ∷ m) =
      let rest = assign key value m in if k == key then (key, value) ∷ m else (k, v) ∷ rest

-- `map.get(key).unwrap_or(&0)`
abbrev pub or_zero : Option ℕ → ℕ
or_zero none = 0
or_zero (some v) = v

-- `map.values().sum::<u64>()`
unfoldable pub values_sum : List (ℕ × ℕ) → ℕ
values_sum [] = 0
values_sum ((k, v) ∷ m) = u64_add v (values_sum m)

pub data PaymentType : Type 0 where
  invoice keysend : PaymentType

-- Times are in nanoseconds.
pub record PaymentState : Type 0 where
  pub invoice_hash : ℕ
  pub amount_msat : ℕ
  pub payee : PublicKey
  pub duration_since_epoch : ℕ
  pub expiry_duration : ℕ
  pub is_fulfilled : Bool
  pub payment_type : PaymentType

pub record RoutedPayment : Type 0 where
  pub incoming : List (ℕ × ℕ)
  pub outgoing : List (ℕ × ℕ)
  pub incoming_cltv_min : Option ℕ
  pub outgoing_cltv_max : Option ℕ
  pub preimage : Option (List ℕ)

unfoldable pub new : RoutedPayment
new = record {
  incoming = [];
  outgoing = [];
  incoming_cltv_min = none;
  outgoing_cltv_max = none;
  preimage = none;
}

unfoldable pub is_fulfilled : RoutedPayment → Bool
is_fulfilled self = elim self.preimage [ none ↦ false | some p ↦ true ]

unfoldable pub is_no_incoming : RoutedPayment → Bool
unfolding values_sum
is_no_incoming self = values_sum self.incoming == 0

unfoldable pub is_no_outgoing : RoutedPayment → Bool
unfolding values_sum
is_no_outgoing self = values_sum self.outgoing == 0

-- The totals if this channel updates to the given amounts.
unfoldable pub updated_incoming_outgoing : RoutedPayment → ℕ → ℕ → ℕ → ℕ × ℕ
unfolding values_sum lookup
updated_incoming_outgoing self channel_id incoming_amount_sat outgoing_amount_sat = (
  u64_sub (u64_add (values_sum self.incoming) incoming_amount_sat)
      (or_zero (lookup channel_id self.incoming)),
  u64_sub (u64_add (values_sum self.outgoing) outgoing_amount_sat)
      (or_zero (lookup channel_id self.outgoing)),
)

unfoldable pub incoming_outgoing : RoutedPayment → ℕ × ℕ
unfolding values_sum
incoming_outgoing self = (values_sum self.incoming, values_sum self.outgoing)

abbrev pub lower : Option ℕ → Option ℕ → Option ℕ
lower old none = old
lower none (some cltv) = some cltv
lower (some old) (some cltv) = some (min old cltv)

abbrev pub raise : Option ℕ → Option ℕ → Option ℕ
raise old none = old
raise none (some cltv) = some cltv
raise (some old) (some cltv) = some (max old cltv)

unfoldable pub apply : RoutedPayment → ℕ → ℕ → ℕ → Option ℕ → Option ℕ → RoutedPayment
unfolding assign
apply self channel_id incoming_amount_sat outgoing_amount_sat incoming_cltv outgoing_cltv =
    record self {
      incoming = assign channel_id incoming_amount_sat self.incoming;
      outgoing = assign channel_id outgoing_amount_sat self.outgoing;
      incoming_cltv_min = lower self.incoming_cltv_min incoming_cltv;
      outgoing_cltv_max = raise self.outgoing_cltv_max outgoing_cltv;
    }

unfoldable pub get_cltv_bounds : RoutedPayment → Option (ℕ × ℕ)
get_cltv_bounds self = elim self.incoming_cltv_min [
  | none ↦ none
  | some inc ↦ elim self.outgoing_cltv_max [ none ↦ none | some out ↦ some (inc, out) ]
]

pub record NodeState : Type 0 where
  pub invoices : List (ℕ × PaymentState)
  pub issued_invoices : List (ℕ × PaymentState)
  pub payments : List (ℕ × RoutedPayment)
  pub excess_amount : ℕ
  pub velocity_control : VelocityControl
