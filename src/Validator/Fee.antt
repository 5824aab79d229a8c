-- ===== src/Validator/Fee.antt =====
-- The fee checks: what the feerate test accepts.
use Prim.Native.String.{String}
use validating_lightning_sig.Common.{
  ℕ, ◌+◌, ◌-◌, ◌*◌, ◌/◌, ◌%◌, ◌≤◌, ◌<◌, ◌≡◌, ◌↔◌, arith, u64_mod, u32_mod, u64_add, u64_mul, to_u32,
  ok,
}
use validating_lightning_sig.Policy.Filter.{Enforced, policy_err-Enforced}
use validating_lightning_sig.Validator.{SimplePolicy, validate_fee, validate_beneficial_value}

-- The highest feerate that gives rise to a fee, per 1000 weight units.
abbrev pub feerate : ℕ → ℕ → ℕ
feerate fee weight = (fee * 1000 + 999) / weight

module _ (policy : SimplePolicy) (sum_inputs sum_outputs weight : ℕ) where
  -- Where the filter enforces the tag, the weight is positive and the fee does not overflow
  -- u64, the fee of a transaction passes exactly where its inputs cover its outputs and its
  -- feerate, taken modulo 2 ^ 32, lies in the policy's range.
  pub validate_fee_iff :
      (tag : String)
      → Enforced policy.filter tag
      → 0 < weight
      → (sum_inputs - sum_outputs) * 1000 + 999 < u64_mod
      → (validate_fee policy tag sum_inputs sum_outputs weight ≡ ok tt) ↔ (
          (sum_outputs ≤ sum_inputs)
          × (policy.min_feerate_per_kw ≤ feerate (sum_inputs - sum_outputs) weight % u32_mod)
          × (feerate (sum_inputs - sum_outputs) weight % u32_mod ≤ policy.max_feerate_per_kw))
  unfolding validate_fee
  validate_fee_iff tag strict pos small =
      let refused = policy_err-Enforced policy.filter tag strict in
      let whole : u64_add (u64_mul (sum_inputs - sum_outputs) 1000) 999
          ≡ (sum_inputs - sum_outputs) * 1000 + 999 =
        omega arith in
      ((λ e. ground (arith, refused, whole)), (λ p. ground (arith, refused, whole, p)))

  -- A feerate that exceeds an accepted one by a multiple of 2 ^ 32 is not seen, where the
  -- weight is positive and the fee does not overflow u64: `validate_beneficial_value` lets the
  -- value go to fees.
  pub validate_beneficial_value_wraps :
      (k : ℕ)
      → sum_outputs ≤ sum_inputs
      → 0 < weight
      → (sum_inputs - sum_outputs) * 1000 + 999 < u64_mod
      → k * u32_mod ≤ feerate (sum_inputs - sum_outputs) weight
      → feerate (sum_inputs - sum_outputs) weight ≤ k * u32_mod + policy.max_feerate_per_kw
      → policy.max_feerate_per_kw < u32_mod
      → validate_beneficial_value policy sum_inputs sum_outputs weight
        ≡ ok (sum_inputs - sum_outputs)
  unfolding validate_beneficial_value
  validate_beneficial_value_wraps k covers pos small above below word =
      let whole : u64_add (u64_mul (sum_inputs - sum_outputs) 1000) 999
          ≡ (sum_inputs - sum_outputs) * 1000 + 999 =
        omega arith in
      let rate : to_u32 (feerate (sum_inputs - sum_outputs) weight) ≤ policy.max_feerate_per_kw =
        omega arith in
      ground (arith, whole, rate)
