-- ===== src/Validator/Payments.antt =====
-- The checks of a routed payment of `SimpleValidator`: amounts and expiries.
use validating_lightning_sig.Common.{
  ℕ, ◌+◌, ◌-◌, ◌*◌, ◌/◌, ◌≤◌, ◌<◌, ◌≡◌, ◌↔◌, inl, inr, true, Option, none, some, arith, ltb, leb,
  if◌then◌else◌, Bool-cases, u64_mod, u64_add, checked_mul, ok, ◌>>=◌, ◌>>◌, when, ok_or,
}
use Prim.Native.Nat.{max}
use validating_lightning_sig.Policy.{Validated, policy_err, policy_error}
use validating_lightning_sig.Policy.Filter.{Enforced, policy_err-Enforced}
use validating_lightning_sig.Validator.{SimplePolicy}

module _ (policy : SimplePolicy) where
  -- `validate_payment_balance`, the part that an invoice adds.
  unfoldable pub validate_invoice_fee : ℕ → ℕ → Option ℕ → Validated (Unit {0})
  validate_invoice_fee incoming_msat outgoing_msat none = ok tt
  validate_invoice_fee incoming_msat outgoing_msat (some invoiced_amount_msat) =
      if ltb outgoing_msat (u64_add invoiced_amount_msat incoming_msat) then ok tt else do
        scaled ←
            ok_or (policy_error "policy-commitment-payment-velocity")
              (checked_mul (outgoing_msat - invoiced_amount_msat - incoming_msat) 100)
        when (ltb policy.max_feerate_percentage (scaled / max invoiced_amount_msat 1))
            (policy_err policy.filter "policy-htlc-fee-range")

  unfoldable pub max_to_invoice : Option ℕ → ℕ
  max_to_invoice none = 0
  max_to_invoice (some a) = u64_add a policy.max_routing_fee_msat

  unfoldable pub validate_payment_balance : ℕ → ℕ → Option ℕ → Validated (Unit {0})
  validate_payment_balance incoming_msat outgoing_msat invoiced_amount_msat = do
    when (ltb (u64_add incoming_msat (max_to_invoice invoiced_amount_msat)) outgoing_msat)
        (policy_err policy.filter "policy-routing-balanced")
    validate_invoice_fee incoming_msat outgoing_msat invoiced_amount_msat

  pub validate_payment_cltv : ℕ → ℕ → Validated (Unit {0})
  validate_payment_cltv incoming_cltv outgoing_cltv = do
    when (leb incoming_cltv outgoing_cltv) (policy_err policy.filter "policy-routing-cltv-delta")
    when (ltb (incoming_cltv - outgoing_cltv) policy.cltv_delta)
        (policy_err policy.filter "policy-routing-cltv-delta")

  -- What a routed payment has to keep to: without an invoice no more leaves than came in; with one,
  -- the excess is within the routing fee and the percentage of the invoice that the policy allows.
  abbrev pub IsBalanced : ℕ → ℕ → Option ℕ → Type 0
  IsBalanced incoming_msat outgoing_msat none = outgoing_msat ≤ incoming_msat
  IsBalanced incoming_msat outgoing_msat (some a) =
      (outgoing_msat ≤ incoming_msat + (a + policy.max_routing_fee_msat))
      × ((outgoing_msat - a - incoming_msat) * 100 / max a 1 ≤ policy.max_feerate_percentage)

  abbrev pub FitsWord : ℕ → Option ℕ → Type 0
  FitsWord incoming_msat none = incoming_msat < u64_mod
  FitsWord incoming_msat (some a) = incoming_msat + (a + policy.max_routing_fee_msat) < u64_mod

  -- Where the filter enforces both policies and no sum overflows, a payment passes exactly
  -- where it is balanced: what leaves is covered by what comes in, the invoice and the routing
  -- fee allowed, and the part beyond the invoice and the incoming amount is at most the allowed
  -- percentage of the invoice.
  pub validate_payment_balance_iff :
      (incoming_msat outgoing_msat : ℕ) (invoiced : Option ℕ)
      → Enforced policy.filter "policy-routing-balanced"
      → Enforced policy.filter "policy-htlc-fee-range"
      → FitsWord incoming_msat invoiced
      → policy.max_routing_fee_msat * 100 < u64_mod
      → (validate_payment_balance incoming_msat outgoing_msat invoiced ≡ ok tt)
        ↔ IsBalanced incoming_msat outgoing_msat invoiced
  unfolding validate_payment_balance max_to_invoice validate_invoice_fee
  validate_payment_balance_iff i o none balanced range word fee =
      let refused = policy_err-Enforced policy.filter "policy-routing-balanced" balanced in
      ((λ e. ground (arith, refused)), (λ p. ground (arith, p)))
  validate_payment_balance_iff i o (some a) balanced range word fee =
      let refused = policy_err-Enforced policy.filter "policy-routing-balanced" balanced in
      let high = policy_err-Enforced policy.filter "policy-htlc-fee-range" range in
      let small : ltb o (a + i) ≡ true
          → (o - a - i) * 100 / max a 1 ≤ policy.max_feerate_percentage =
        λ h. ground arith in
      let total : u64_add i (u64_add a policy.max_routing_fee_msat)
          ≡ i + (a + policy.max_routing_fee_msat) =
        omega arith in
      let invoice : u64_add a i ≡ a + i = omega arith in
      (
        (λ e. (
          ground (arith, refused, total),
          elim (Bool-cases (ltb o (a + i))) [
            | inl less ↦ small less
            | inr enough ↦ ground (arith, high, refused, total, invoice, enough)
          ],
        )),
        (λ p. ground (arith, refused, high, total, invoice, p)),
      )

  -- Where the filter enforces the policy, a pair of expiries passes exactly where the incoming
  -- one is later than the outgoing one, by the required delta at least.
  pub validate_payment_cltv_iff :
      (incoming_cltv outgoing_cltv : ℕ)
      → Enforced policy.filter "policy-routing-cltv-delta"
      → (validate_payment_cltv incoming_cltv outgoing_cltv ≡ ok tt)
        ↔ ((outgoing_cltv < incoming_cltv) × (outgoing_cltv + policy.cltv_delta ≤ incoming_cltv))
  unfolding validate_payment_cltv
  validate_payment_cltv_iff i o strict =
      let refused = policy_err-Enforced policy.filter "policy-routing-cltv-delta" strict in
      ((λ e. ground (arith, refused)), (λ p. ground (arith, refused, p)))
