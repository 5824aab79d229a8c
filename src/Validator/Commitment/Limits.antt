-- ===== src/Validator/Commitment/Limits.antt =====
-- What a commitment that passed `validate_commitment_tx` is known to satisfy.
use Prim.Native.String.{String}
use native.Mathlib.Nat.{mod-eq_of_lt, div-lt_iff_lt-mul}
use validating_lightning_sig.Common.{
  ℕ, ◌+◌, ◌-◌, ◌%◌, ◌≤◌, ◌<◌, ◌≡◌, Bool, true, false, arith, ltb, List, [], ◌∷◌, length, u32_mod,
  checked_add, ok, err, when, ok_or, >>=-eq-ok, >>-eq-ok,
}
use validating_lightning_sig.Policy.{policy_err, policy_error}
use validating_lightning_sig.Policy.Filter.{Strict, policy_err-Enforced}
use validating_lightning_sig.Channel.{HtlcInfo2, CommitmentInfo2, ChannelSetup, is_anchors}
use validating_lightning_sig.Validator.{
  SimplePolicy, validate_expiry, expected_commitment_tx_weight, max_cltv_expiry,
}
use validating_lightning_sig.Validator.Fee.{feerate, validate_fee_iff}
use validating_lightning_sig.Validator.Commitment.{
  trimmed, validate_htlcs, validate_outputs, validate_commitment_fee,
}

abbrev pub values : List HtlcInfo2 → ℕ
values [] = 0
values (h ∷ hs) = h.value_sat + values hs

abbrev pub All {ℓ} : {A : Type ℓ} → (A → Type 0) → List A → Type 0
All P [] = Unit
All P (x ∷ xs) = P x × All P xs

-- An HTLC of a value and an expiry that the policy allows at a height.
pub record IsAllowed (policy : SimplePolicy) (height dust_limit : ℕ) (h : HtlcInfo2) : Type 0 where
  pub not_dust : dust_limit ≤ h.value_sat
  pub not_too_late : h.cltv_expiry < max_cltv_expiry
  pub window :
      policy.use_chain_state ≡ true
      → (height + policy.min_delay ≤ h.cltv_expiry) × (h.cltv_expiry ≤ height + policy.max_delay)

abbrev pub refusal :
    (policy : SimplePolicy)
    → Strict policy.filter
    → (tag : String) → policy_err policy.filter tag ≡ err (policy_error tag)
refusal policy strict tag = policy_err-Enforced policy.filter tag (strict tag)

weight_pos : (b : Bool) (n : ℕ) → 0 < expected_commitment_tx_weight b n
unfolding expected_commitment_tx_weight
weight_pos b n = ground arith

-- A channel of at most 30 bitcoin cannot pay a fee whose feerate needs more than 32 bits.
feerate-small :
    (fee : ℕ) (b : Bool) (n : ℕ)
    → fee ≤ 3_000_000_000
    → feerate fee (expected_commitment_tx_weight b n) % u32_mod
      ≡ feerate fee (expected_commitment_tx_weight b n)
unfolding expected_commitment_tx_weight
feerate-small fee b n low =
    let heavy : 724 ≤ expected_commitment_tx_weight b n = ground arith in
    mod-eq_of_lt ((div-lt_iff_lt-mul (omega arith)).1 (omega arith))

module _ (policy : SimplePolicy) (strict : Strict policy.filter) where
  module _ (height : ℕ) (word : height + policy.min_delay < u32_mod)
      (word' : height + policy.max_delay < u32_mod) where
    validate_expiry_ok :
        (expiry : ℕ)
        → validate_expiry policy expiry height ≡ ok tt
        → (expiry < max_cltv_expiry)
          × (policy.use_chain_state ≡ true
              → (height + policy.min_delay ≤ expiry) × (expiry ≤ height + policy.max_delay))
    unfolding validate_expiry
    validate_expiry_ok expiry e =
        let refused = refusal policy strict "policy-commitment-htlc-cltv-range" in
        (ground (arith, refused), (λ u. ground (arith, refused)))

    pub validate_htlcs_ok :
        (dust_limit acc : ℕ) (xs : List HtlcInfo2) {sum : ℕ}
        → validate_htlcs policy height dust_limit acc xs ≡ ok sum
        → (sum ≡ acc + values xs) × All (IsAllowed policy height dust_limit) xs
    unfolding validate_htlcs
    validate_htlcs_ok dust_limit acc [] e = (ground arith, tt)
    validate_htlcs_ok dust_limit acc (h ∷ hs) e =
        let refused = refusal policy strict "policy-commitment-outputs-trimmed" in
        let (fresh, e₁) = >>-eq-ok (validate_expiry policy h.cltv_expiry height) _ e in
        let (next, added, e₂) =
          >>=-eq-ok
            (ok_or (policy_error "policy-commitment-payment-velocity")
              (checked_add acc h.value_sat))
            _ e₁ in
        let (big, e₃) =
          >>-eq-ok
            (when (ltb h.value_sat dust_limit)
              (policy_err policy.filter "policy-commitment-outputs-trimmed"))
            _ e₂ in
        let total : next ≡ acc + h.value_sat = ground arith in
        let large : dust_limit ≤ h.value_sat = ground (arith, refused) in
        let (late, window) = validate_expiry_ok h.cltv_expiry fresh in
        let (sum_eq, rest) = validate_htlcs_ok dust_limit next hs e₃ in
        (omega arith, (record { not_dust = large; not_too_late = late; window = window }, rest))

  pub validate_outputs_ok :
      (info : CommitmentInfo2)
      → validate_outputs policy info ≡ ok tt
      → (trimmed info.to_broadcaster_value_sat ≡ false)
        × (trimmed info.to_countersigner_value_sat ≡ false)
        × (length info.offered_htlcs + length info.received_htlcs ≤ policy.max_htlcs)
  unfolding validate_outputs
  validate_outputs_ok info e =
      let dust = refusal policy strict "policy-commitment-outputs-trimmed" in
      let many = refusal policy strict "policy-commitment-htlc-count-limit" in
      let (first, e₁) =
        >>-eq-ok
          (when (trimmed info.to_broadcaster_value_sat)
            (policy_err policy.filter "policy-commitment-outputs-trimmed"))
          _ e in
      let (second, e₂) =
        >>-eq-ok
          (when (trimmed info.to_countersigner_value_sat)
            (policy_err policy.filter "policy-commitment-outputs-trimmed"))
          _ e₁ in
      (ground (arith, dust), ground (arith, dust), ground (arith, many))

  pub validate_commitment_fee_ok :
      (setup : ChannelSetup) (info : CommitmentInfo2) (htlc_value_sat : ℕ)
      → setup.channel_value_sat ≤ 3_000_000_000
      → validate_commitment_fee policy setup info htlc_value_sat ≡ ok tt
      → let sum =
          info.to_broadcaster_value_sat + info.to_countersigner_value_sat + htlc_value_sat in
        let weight =
          expected_commitment_tx_weight
            (is_anchors setup)
            (length info.offered_htlcs + length info.received_htlcs) in
        (sum ≤ setup.channel_value_sat)
        × (policy.min_feerate_per_kw ≤ feerate (setup.channel_value_sat - sum) weight)
        × (feerate (setup.channel_value_sat - sum) weight ≤ policy.max_feerate_per_kw)
  unfolding validate_commitment_fee
  validate_commitment_fee_ok setup info htlc_value_sat small e =
      let (sum, first, e₁) =
        >>=-eq-ok
          (ok_or (policy_error "policy-commitment-payment-velocity")
            (checked_add info.to_broadcaster_value_sat info.to_countersigner_value_sat))
          _ e in
      let (sum', second, e₂) =
        >>=-eq-ok
          (ok_or (policy_error "policy-commitment-payment-velocity")
            (checked_add sum htlc_value_sat))
          _ e₁ in
      let total : sum'
          ≡ info.to_broadcaster_value_sat + info.to_countersigner_value_sat + htlc_value_sat =
        ground arith in
      let weight : ℕ =
        expected_commitment_tx_weight (is_anchors setup)
          (length info.offered_htlcs + length info.received_htlcs) in
      let same =
        feerate-small (setup.channel_value_sat - sum') (is_anchors setup)
          (length info.offered_htlcs + length info.received_htlcs) (omega arith) in
      rw (← total) (
        rw same at (
          (validate_fee_iff policy setup.channel_value_sat sum' weight "policy-commitment-fee-range"
              (strict "policy-commitment-fee-range") (weight_pos (is_anchors setup) _)
              (omega arith)).0
            e₂))
