-- ===== src/Validator/Commitment/Accepted.antt =====
-- The safety of a commitment that `validate_commitment_tx` lets through.
use validating_lightning_sig.Common.{
  ℕ, ◌+◌, ◌-◌, ◌/◌, ◌≤◌, ◌<◌, ◌≡◌, true, false, arith, ltb, length, u32_mod, u64_add, ok, when,
  >>-eq-ok, >>=-eq-ok,
}
use validating_lightning_sig.Policy.{policy_err}
use validating_lightning_sig.Policy.Filter.{Strict}
use validating_lightning_sig.Channel.{
  CommitmentInfo2, CommitmentType, ChannelSetup, ChainState, is_anchors, value_to_parties,
}
use validating_lightning_sig.Channel.Enforcement.{EnforcementState}
use validating_lightning_sig.Validator.{SimplePolicy, expected_commitment_tx_weight}
use validating_lightning_sig.Validator.Fee.{feerate}
use validating_lightning_sig.Validator.Commitment.{
  trimmed, htlc_dust_limit, carried_fundee_sat, validate_htlcs, validate_initial, validate_outputs,
  validate_commitment_fee, validate_commitment_tx,
}
use validating_lightning_sig.Validator.Commitment.Limits.{
  values, All, IsAllowed, refusal, validate_htlcs_ok, validate_outputs_ok,
  validate_commitment_fee_ok,
}

-- All that leaves the channel: both balances and every HTLC.
abbrev pub outputs : CommitmentInfo2 → ℕ
outputs info =
    info.to_broadcaster_value_sat
    + info.to_countersigner_value_sat
    + (values info.offered_htlcs + values info.received_htlcs)

abbrev pub weight : ChannelSetup → CommitmentInfo2 → ℕ
weight setup info =
    expected_commitment_tx_weight (is_anchors setup)
      (length info.offered_htlcs + length info.received_htlcs)

-- A commitment within the limits of the policy, at a height.
pub record IsWithinLimits (timeout_weight success_weight : CommitmentType → ℕ)
    (policy : SimplePolicy) (setup : ChannelSetup) (height : ℕ) (info : CommitmentInfo2)
    : Type 0 where
  pub broadcaster_not_dust : trimmed info.to_broadcaster_value_sat ≡ false
  pub countersigner_not_dust : trimmed info.to_countersigner_value_sat ≡ false
  pub few_htlcs : length info.offered_htlcs + length info.received_htlcs ≤ policy.max_htlcs
  pub offered_allowed :
      All
        (IsAllowed policy height (htlc_dust_limit timeout_weight setup info.feerate_per_kw))
        info.offered_htlcs
  pub received_allowed :
      All
        (IsAllowed policy height (htlc_dust_limit success_weight setup info.feerate_per_kw))
        info.received_htlcs
  pub inflight : values info.offered_htlcs + values info.received_htlcs ≤ policy.max_htlc_value_sat
  pub funded : outputs info ≤ setup.channel_value_sat
  pub feerate_min :
      policy.min_feerate_per_kw
      ≤ feerate (setup.channel_value_sat - outputs info) (weight setup info)
  pub feerate_max :
      feerate (setup.channel_value_sat - outputs info) (weight setup info)
      ≤ policy.max_feerate_per_kw

-- The initial commitment has no HTLCs and gives the fundee what was pushed, and carried, at most.
pub record IsInitial (estate : EnforcementState) (setup : ChannelSetup) (info : CommitmentInfo2)
    : Type 0 where
  pub no_htlcs : length info.offered_htlcs + length info.received_htlcs ≡ 0
  pub pushed :
      setup.is_outbound ≡ true
      → (value_to_parties info).1
        ≤ u64_add
            (setup.push_value_msat / 1000)
            (carried_fundee_sat estate.prev_funding_commitment setup.funding_outpoint)

module _ (timeout_weight success_weight : CommitmentType → ℕ) (policy : SimplePolicy)
    (strict : Strict policy.filter) where
  validate_initial_ok :
      (estate : EnforcementState) (setup : ChannelSetup) (info : CommitmentInfo2)
      → validate_initial policy estate setup info ≡ ok tt
      → IsInitial estate setup info
  unfolding validate_initial
  validate_initial_ok estate setup info e =
      let some_htlcs = refusal policy strict "policy-commitment-first-no-htlcs" in
      let too_much = refusal policy strict "policy-commitment-initial-funding-value" in
      let (first, second) =
        >>-eq-ok
          (when (ltb 0 (length info.offered_htlcs + length info.received_htlcs))
            (policy_err policy.filter "policy-commitment-first-no-htlcs"))
          _ e in
      record { no_htlcs = ground (arith, some_htlcs); pushed = λ out. ground (arith, too_much) }

  -- Under a filter that demotes nothing, for a channel of at most 30 bitcoin and a height at
  -- which the limits on expiries do not wrap, a commitment that passes has no balance that is
  -- positive but below the dust limit, no more HTLCs than allowed, each with at least the dust
  -- limit that the code computes in u64, expiring before 500000000 and, where the policy looks
  -- at the chain, within its window; the HTLCs together are within their limit, the outputs and
  -- HTLCs do not exceed the channel, and the feerate itself, not only modulo 2 ^ 32, lies in
  -- the policy's range. Commitment 0 has no HTLCs and, on an outbound channel, gives the fundee
  -- at most what was pushed and carried over, added as u64.
  pub validate_commitment_tx_ok :
      (estate : EnforcementState) (commit_num : ℕ) (setup : ChannelSetup) (cstate : ChainState)
      (info : CommitmentInfo2)
      → cstate.current_height + policy.min_delay < u32_mod
      → cstate.current_height + policy.max_delay < u32_mod
      → setup.channel_value_sat ≤ 3_000_000_000
      → validate_commitment_tx policy timeout_weight success_weight estate commit_num setup cstate
          info
        ≡ ok tt
      → IsWithinLimits timeout_weight success_weight policy setup cstate.current_height info
        × (commit_num ≡ 0 → IsInitial estate setup info)
  unfolding validate_commitment_tx
  validate_commitment_tx_ok estate commit_num setup cstate info low high small_channel e =
      let many = refusal policy strict "policy-commitment-htlc-inflight-limit" in
      let (outs, e₁) = >>-eq-ok (validate_outputs policy info) _ e in
      let (offered, run, e₂) =
        >>=-eq-ok
          (validate_htlcs policy cstate.current_height
            (htlc_dust_limit timeout_weight setup info.feerate_per_kw) 0 info.offered_htlcs)
          _ e₁ in
      let (sum, run', e₃) =
        >>=-eq-ok
          (validate_htlcs policy cstate.current_height
            (htlc_dust_limit success_weight setup info.feerate_per_kw) offered info.received_htlcs)
          _ e₂ in
      let (inflight, e₄) =
        >>-eq-ok
          (when (ltb policy.max_htlc_value_sat sum)
            (policy_err policy.filter "policy-commitment-htlc-inflight-limit"))
          _ e₃ in
      let (fee, e₅) = >>-eq-ok (validate_commitment_fee policy setup info sum) _ e₄ in
      let (dust, dust', few) = validate_outputs_ok policy strict info outs in
      let (total, allowed) =
        validate_htlcs_ok policy strict cstate.current_height low high
          (htlc_dust_limit timeout_weight setup info.feerate_per_kw) 0 info.offered_htlcs run in
      let (total', allowed') =
        validate_htlcs_ok policy strict cstate.current_height low high
          (htlc_dust_limit success_weight setup info.feerate_per_kw) offered info.received_htlcs
          run' in
      let sum_eq : sum ≡ values info.offered_htlcs + values info.received_htlcs = omega arith in
      let small : sum ≤ policy.max_htlc_value_sat = ground (arith, many) in
      let (funded, min_ok, max_ok) =
        rw sum_eq at (validate_commitment_fee_ok policy strict setup info sum small_channel fee) in
      (
        record {
          broadcaster_not_dust = dust;
          countersigner_not_dust = dust';
          few_htlcs = few;
          offered_allowed = allowed;
          received_allowed = allowed';
          inflight = omega arith;
          funded = funded;
          feerate_min = min_ok;
          feerate_max = max_ok;
        },
        (λ zero_num. validate_initial_ok estate setup info (rw (zero_num) at e₅)),
      )
