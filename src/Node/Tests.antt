-- ===== src/Node/Tests.antt =====
-- A forwarded payment of a node with one channel on each side.
use validating_lightning_sig.Common.{
  ◌+◌, ◌<◌, ◌≡◌, refl, none, some, [], ◌∷◌, arith, u64_mod, ok, replicate,
}
use validating_lightning_sig.Policy.Filter.{Enforced-default}
use validating_lightning_sig.Samples.{policy}
use validating_lightning_sig.Velocity.{VelocityControl}
use validating_lightning_sig.Validator.Payments.{
  validate_payment_balance, validate_invoice_fee, max_to_invoice,
}
use validating_lightning_sig.Node.{
  RoutedPayment, NodeState, lookup, assign, apply, incoming_outgoing, updated_incoming_outgoing,
  values_sum, get_cltv_bounds,
}
use validating_lightning_sig.Node.Payments.{
  Change, incoming_for, outgoing_for, totals, validate_bounds, judge, is_unbalanced, any_unbalanced,
  validate_payments,
}
use validating_lightning_sig.Node.Apply.{cltvs, apply_all}
use validating_lightning_sig.Node.Balanced.{InBalance, validated_balanced}
use validating_lightning_sig.Node.Totals.{total}
use validating_lightning_sig.Node.Recorded.{recorded_totals}

-- 1000 came in on channel 1 for the hash 5.
abbrev payment : RoutedPayment
payment = record {
  incoming = (1, 1000) ∷ [];
  outgoing = [];
  incoming_cltv_min = none;
  outgoing_cltv_max = none;
  preimage = none;
}

abbrev control : VelocityControl
control = record {
  start_sec = 0;
  bucket_interval = 300;
  buckets = replicate 12 0;
  limit = 1_000_000;
}

abbrev node : NodeState
node = record {
  invoices = [];
  issued_invoices = [];
  payments = (5, payment) ∷ [];
  excess_amount = 0;
  velocity_control = control;
}

-- 990 leave on channel 2.
abbrev change : Change
change = record {
  channel_id = 2;
  incoming_summary = [];
  outgoing_summary = (5, 990) ∷ [];
  hashes = 5 ∷ [];
  delta_minus = 0;
  delta_plus = 0;
}

abbrev forwarded : RoutedPayment
forwarded = record payment { incoming = (1, 1000) ∷ (2, 0) ∷ []; outgoing = (2, 990) ∷ [] }

validated : validate_payments policy node change ≡ ok tt
unfolding validate_payments any_unbalanced is_unbalanced validate_bounds judge totals
    updated_incoming_outgoing incoming_for outgoing_for lookup values_sum get_cltv_bounds
    validate_payment_balance validate_invoice_fee max_to_invoice
validated = refl

recorded : apply_all change none (5 ∷ []) node.payments ≡ ok ((5, forwarded) ∷ [])
unfolding apply_all lookup assign apply incoming_for outgoing_for cltvs
recorded = refl

validated_balanced_example :
    (validate_bounds policy (lookup 5 node.payments) ≡ ok tt) × InBalance policy node change 5
validated_balanced_example =
    validated_balanced policy node change 5
      (Enforced-default "policy-commitment-htlc-routing-balance") validated refl

found : lookup 5 node.payments ≡ some payment
unfolding lookup
found = refl

incoming_low : total payment.incoming + incoming_for change 5 < u64_mod
unfolding total incoming_for lookup
incoming_low = omega arith

outgoing_low : total payment.outgoing + outgoing_for change 5 < u64_mod
unfolding total outgoing_for lookup
outgoing_low = omega arith

recorded_totals_example :
    (p' : RoutedPayment) × (lookup 5 ((5, forwarded) ∷ []) ≡ some p')
    × (incoming_outgoing p' ≡ totals change (some payment) 5)
recorded_totals_example =
    recorded_totals change none node.payments ((5, forwarded) ∷ []) 5 payment recorded (refl, tt)
      refl found incoming_low outgoing_low
