-- ===== src/Node/Payments.antt =====
-- `validate_payments` of `NodeState`: vls-core/src/node.rs. The hashes of the two summaries are a set,
-- which the code goes through in some order: the list of them is part of the change.
use validating_lightning_sig.Common.{
  ℕ, Bool, true, false, not, ◌&&◌, ◌||◌, Option, none, some, List, [], ◌∷◌, u64_mul, checked_add,
  checked_sub, ok, err, panic, ◌>>=◌, ◌>>◌, when, ok_or, unwrap,
}
use validating_lightning_sig.Policy.{Validated, policy_err, policy_error}
use validating_lightning_sig.Validator.{SimplePolicy}
use validating_lightning_sig.Validator.Payments.{validate_payment_balance, validate_payment_cltv}
use validating_lightning_sig.Node.{
  NodeState, RoutedPayment, lookup, or_zero, updated_incoming_outgoing, get_cltv_bounds,
}

-- What a commitment changes for the node: the channel, the amounts in flight by payment hash, and what
-- the balance loses and gains.
pub record Change : Type 0 where
  pub channel_id : ℕ
  pub incoming_summary : List (ℕ × ℕ)
  pub outgoing_summary : List (ℕ × ℕ)
  pub hashes : List ℕ
  pub delta_minus : ℕ
  pub delta_plus : ℕ

unfoldable pub incoming_for : Change → ℕ → ℕ
unfolding lookup
incoming_for c hash = or_zero (lookup hash c.incoming_summary)

unfoldable pub outgoing_for : Change → ℕ → ℕ
unfolding lookup
outgoing_for c hash = or_zero (lookup hash c.outgoing_summary)

-- The totals of a payment as they will be.
unfoldable pub totals : Change → Option RoutedPayment → ℕ → ℕ × ℕ
unfolding updated_incoming_outgoing incoming_for outgoing_for
totals c none hash = (incoming_for c hash, outgoing_for c hash)
totals c (some p) hash =
    updated_incoming_outgoing p c.channel_id (incoming_for c hash) (outgoing_for c hash)

abbrev pub invoiced_amount : NodeState → ℕ → Option ℕ
invoiced_amount self hash = elim (lookup hash self.invoices) [
  | none ↦ none
  | some i ↦ some i.amount_msat
]

abbrev pub is_some {ℓ} : {A : Type ℓ} → Option A → Bool
is_some none = false
is_some (some a) = true

module _ (policy : SimplePolicy) where
  unfoldable pub validate_bounds : Option RoutedPayment → Validated (Unit {0})
  unfolding get_cltv_bounds
  validate_bounds none = ok tt
  validate_bounds (some p) = elim (get_cltv_bounds p) [
    | none ↦ ok tt
    | some (inc, out) ↦ validate_payment_cltv policy inc out
  ]

  -- Whether an unbalanced payment is refused: not where it exists without an invoice.
  unfoldable pub judge : Bool → Validated (Unit {0}) → Validated Bool
  judge excused panic = panic
  judge excused (err e) = ok (not excused)
  judge excused (ok u) = ok false

  -- The body of the loop: whether the hash goes on the list of the unbalanced ones.
  unfoldable pub is_unbalanced : NodeState → Change → ℕ → Validated Bool
  unfolding validate_bounds totals judge
  is_unbalanced self c hash =
      let payment = lookup hash self.payments in
      let invoice = invoiced_amount self hash in
      let sums = totals c payment hash in
      validate_bounds payment
      >> judge (is_some payment && not (is_some invoice))
          (validate_payment_balance policy (u64_mul sums.0 1000) (u64_mul sums.1 1000) invoice)

  unfoldable pub any_unbalanced : NodeState → Change → List ℕ → Validated Bool
  unfolding is_unbalanced
  any_unbalanced self c [] = ok false
  any_unbalanced self c (hash ∷ hashes) = is_unbalanced self c hash >>= λ first.
      any_unbalanced self c hashes >>= λ others. ok (first || others)

  -- `excess_amount + delta.1 - delta.0`: an overflow panics, a shortfall is a policy error.
  unfoldable pub validate_excess : NodeState → Change → Validated (Unit {0})
  validate_excess self c = unwrap (checked_add self.excess_amount c.delta_plus) >>= λ grown.
      ok_or (policy_error "policy-routing-balanced") (checked_sub grown c.delta_minus) >>= λ left.
      ok tt

  unfoldable pub validate_payments : NodeState → Change → Validated (Unit {0})
  unfolding any_unbalanced validate_excess
  validate_payments self c = do
    unbalanced ← any_unbalanced self c c.hashes
    when unbalanced (policy_err policy.filter "policy-commitment-htlc-routing-balance")
    when policy.enforce_balance (validate_excess self c)
