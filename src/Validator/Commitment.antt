-- ===== src/Validator/Commitment.antt =====
-- `SimpleValidator::validate_commitment_tx`: what holder and counterparty commitments have in common.
pub mod Limits
pub mod Accepted
use validating_lightning_sig.Common.{
  ℕ, ◌+◌, ◌*◌, ◌/◌, Bool, true, false, ◌&&◌, Option, none, some, List, [], ◌∷◌, ltb, leb, ◌==◌, not,
  if◌then◌else◌, length, u64_add, u64_mul, checked_add, Outcome, ok, err, panic, ◌>>=◌, ◌>>◌, when,
  ok_or,
}
use validating_lightning_sig.Policy.{PolicyFilter, Validated, policy_err, policy_error}
use validating_lightning_sig.Channel.{
  OutPoint, HtlcInfo2, CommitmentInfo2, CommitmentType, ChannelSetup, ChainState, is_anchors,
  is_zero_fee_htlc, value_to_parties,
}
use validating_lightning_sig.Channel.Equality.{outpoint_eq}
use validating_lightning_sig.Channel.Enforcement.{EnforcementState, PrevFundingCommitment}
use validating_lightning_sig.Validator.{
  SimplePolicy, validate_expiry, validate_fee, expected_commitment_tx_weight,
}

abbrev pub min_dust_limit_satoshis : ℕ
min_dust_limit_satoshis = 330

abbrev pub min_chan_dust_limit_satoshis : ℕ
min_chan_dust_limit_satoshis = 354

-- An output is trimmed where it is positive and below the dust limit.
abbrev pub trimmed : ℕ → Bool
trimmed value_sat = ltb 0 value_sat && ltb value_sat min_chan_dust_limit_satoshis

-- The weight of a second-stage transaction comes from the lightning crate.
unfoldable pub htlc_dust_limit : (CommitmentType → ℕ) → ChannelSetup → ℕ → ℕ
htlc_dust_limit tx_weight setup feerate_per_kw =
    if is_zero_fee_htlc setup
    then min_chan_dust_limit_satoshis
    else u64_add min_dust_limit_satoshis
        (u64_mul feerate_per_kw (tx_weight setup.commitment_type) / 1000)

entitled : Option CommitmentInfo2 → Option CommitmentInfo2 → ℕ → ℕ
entitled (some cp_info) _ push = cp_info.to_broadcaster_value_sat
entitled none (some holder_info) push = holder_info.to_countersigner_value_sat
entitled none none push = push

-- What the fundee held in the retiring funding; its push counts only where no commitment was made.
pub prior_entitlement : PrevFundingCommitment → ℕ
unfolding entitled
prior_entitlement prev =
    entitled prev.current_counterparty_info prev.current_holder_info
      (prev.retiring_push_value_msat / 1000)

unfoldable pub carried_fundee_sat : Option PrevFundingCommitment → OutPoint → ℕ
unfolding prior_entitlement
carried_fundee_sat none funding = 0
carried_fundee_sat (some prev) funding =
    if not (outpoint_eq prev.outpoint funding) then prior_entitlement prev else 0

module _ (policy : SimplePolicy) where
  -- The loop over the HTLCs of one direction, which adds up their values.
  unfoldable pub validate_htlcs : ℕ → ℕ → ℕ → List HtlcInfo2 → Validated ℕ
  validate_htlcs current_height dust_limit htlc_value_sat [] = ok htlc_value_sat
  validate_htlcs current_height dust_limit htlc_value_sat (htlc ∷ rest) = do
    validate_expiry policy htlc.cltv_expiry current_height
    sum ←
        ok_or (policy_error "policy-commitment-payment-velocity")
          (checked_add htlc_value_sat htlc.value_sat)
    when (ltb htlc.value_sat dust_limit)
        (policy_err policy.filter "policy-commitment-outputs-trimmed")
    validate_htlcs current_height dust_limit sum rest

  -- The requirements on commitment number 0.
  unfoldable pub validate_initial :
      EnforcementState → ChannelSetup → CommitmentInfo2 → Validated (Unit {0})
  unfolding carried_fundee_sat
  validate_initial estate setup info = do
    when (ltb 0 (length info.offered_htlcs + length info.received_htlcs))
        (policy_err policy.filter "policy-commitment-first-no-htlcs")
    let carried = carried_fundee_sat estate.prev_funding_commitment setup.funding_outpoint
    when
        (setup.is_outbound
          && ltb (u64_add (setup.push_value_msat / 1000) carried) (value_to_parties info).1)
        (policy_err policy.filter "policy-commitment-initial-funding-value")

  -- The first checks, in front of the loops over the HTLCs.
  unfoldable pub validate_outputs : CommitmentInfo2 → Validated (Unit {0})
  validate_outputs info = do
    when (trimmed info.to_broadcaster_value_sat)
        (policy_err policy.filter "policy-commitment-outputs-trimmed")
    when (trimmed info.to_countersigner_value_sat)
        (policy_err policy.filter "policy-commitment-outputs-trimmed")
    when (ltb policy.max_htlcs (length info.offered_htlcs + length info.received_htlcs))
        (policy_err policy.filter "policy-commitment-htlc-count-limit")

  -- `policy-commitment-fee-range`: the outputs with the HTLCs against the channel's value.
  unfoldable pub validate_commitment_fee : ChannelSetup → CommitmentInfo2 → ℕ → Validated (Unit {0})
  validate_commitment_fee setup info htlc_value_sat = do
    sum ←
        ok_or (policy_error "policy-commitment-payment-velocity")
          (checked_add info.to_broadcaster_value_sat info.to_countersigner_value_sat)
    sum_outputs ←
        ok_or (policy_error "policy-commitment-payment-velocity") (checked_add sum htlc_value_sat)
    validate_fee policy "policy-commitment-fee-range" setup.channel_value_sat sum_outputs (
        expected_commitment_tx_weight (is_anchors setup)
          (length info.offered_htlcs + length info.received_htlcs))

  module _ (htlc_timeout_tx_weight htlc_success_tx_weight : CommitmentType → ℕ) where
    unfoldable pub validate_commitment_tx :
        EnforcementState → ℕ → ChannelSetup → ChainState → CommitmentInfo2 → Validated (Unit {0})
    validate_commitment_tx estate commit_num setup cstate info = do
      validate_outputs info
      offered ←
          validate_htlcs cstate.current_height
            (htlc_dust_limit htlc_timeout_tx_weight setup info.feerate_per_kw) 0 info.offered_htlcs
      htlc_value_sat ←
          validate_htlcs cstate.current_height
            (htlc_dust_limit htlc_success_tx_weight setup info.feerate_per_kw) offered
            info.received_htlcs
      when (ltb policy.max_htlc_value_sat htlc_value_sat)
          (policy_err policy.filter "policy-commitment-htlc-inflight-limit")
      validate_commitment_fee setup info htlc_value_sat
      when (commit_num == 0) (validate_initial estate setup info)
