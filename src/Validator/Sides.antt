-- ===== src/Validator/Sides.antt =====
-- `SimpleValidator`'s checks of a counterparty commitment, a holder commitment and a revocation.
pub mod Accepted
pub mod Straggler
use validating_lightning_sig.Common.{
  ℕ, ◌+◌, Bool, true, false, ◌&&◌, Option, none, some, ltb, leb, ◌==◌, ◌!=◌, not, if◌then◌else◌,
  u64_add, Outcome, ok, err, panic, ◌>>=◌, ◌>>◌, when,
}
use validating_lightning_sig.Policy.{Validated, policy_err}
use validating_lightning_sig.Channel.{
  PublicKey, OutPoint, CommitmentInfo2, CommitmentType, ChannelSetup, ChainState,
}
use validating_lightning_sig.Channel.Secrets.{Secret}
use validating_lightning_sig.Channel.Equality.{outpoint_eq, info_eq}
use validating_lightning_sig.Channel.Enforcement.{
  EnforcementState, present, get_previous_counterparty_point, get_previous_counterparty_commit_info,
  holder_commit_info_for, counterparty_commit_info_for,
}
use validating_lightning_sig.Validator.{SimplePolicy}
use validating_lightning_sig.Validator.Commitment.{validate_commitment_tx}

-- `tag == Some(outpoint)`
abbrev pub is_tagged : Option OutPoint → OutPoint → Bool
is_tagged none outpoint = false
is_tagged (some f) outpoint = outpoint_eq f outpoint

-- `Some(key) == prev`
abbrev pub same_point : PublicKey → Option PublicKey → Bool
same_point key none = false
same_point key (some prev) = key == prev

-- `Some(info) == prev`
abbrev pub same_info : CommitmentInfo2 → Option CommitmentInfo2 → Bool
same_info info none = false
same_info info (some prev) = info_eq info prev

module _ (policy : SimplePolicy) where
  -- The retry of a counterparty commitment must repeat the point and the info.
  unfoldable pub validate_counterparty_retry :
      EnforcementState → ℕ → PublicKey → ChannelSetup → CommitmentInfo2 → Validated (Unit {0})
  validate_counterparty_retry estate commit_num commitment_point setup info2 = do
    when (not (same_point commitment_point estate.current_counterparty_point))
        (policy_err policy.filter "policy-commitment-retry-same")
    let stored = get_previous_counterparty_commit_info estate commit_num
    let prev =
        if is_tagged estate.counterparty_commitment_funding setup.funding_outpoint && present stored
        then stored
        else counterparty_commit_info_for estate setup.funding_outpoint
    when (not (same_info info2 prev)) (policy_err policy.filter "policy-commitment-retry-same")

  -- The rest of the checks of a holder commitment, after the retry.
  unfoldable pub validate_holder_number : EnforcementState → ℕ → Validated (Unit {0})
  validate_holder_number estate commit_num = do
    when (leb (u64_add commit_num 2) estate.next_holder_commit_num)
        (policy_err policy.filter "policy-commitment-holder-not-revoked")
    when (commit_num == estate.next_holder_commit_num && estate.channel_closed)
        (policy_err policy.filter "policy-commitment-spends-active-utxo")

  -- A retry with no info stored for its funding returns early.
  pub validate_holder_retry :
      EnforcementState → ℕ → CommitmentInfo2 → Option CommitmentInfo2 → Validated (Unit {0})
  validate_holder_retry estate commit_num info2 none = ok tt
  validate_holder_retry estate commit_num info2 (some stored) = do
    when (not (info_eq info2 stored)) (policy_err policy.filter "policy-commitment-retry-same")
    validate_holder_number estate commit_num

  -- The two arms of the test of a missing and of another previous point are one error.
  unfoldable pub validate_counterparty_revocation :
      (Secret → PublicKey) → EnforcementState → ℕ → Secret → Validated (Unit {0})
  validate_counterparty_revocation from_secret_key state revoke_num commitment_secret = do
    when
        (revoke_num != state.next_counterparty_revoke_num
          && u64_add revoke_num 1 != state.next_counterparty_revoke_num)
        (policy_err policy.filter "policy-commitment-previous-revoked")
    when
        (not (
          same_point (from_secret_key commitment_secret)
            (get_previous_counterparty_point state revoke_num)))
        (policy_err policy.filter "policy-commitment-previous-revoked")

  module _ (timeout_weight success_weight : CommitmentType → ℕ) where
    unfoldable pub validate_counterparty_commitment_tx :
        EnforcementState
        → ℕ
        → PublicKey
        → ChannelSetup
        → ChainState
        → CommitmentInfo2
        → Validated (Unit {0})
    validate_counterparty_commitment_tx estate commit_num commitment_point setup cstate info2 = do
      validate_commitment_tx policy timeout_weight success_weight estate commit_num setup cstate
          info2
      when (ltb (u64_add estate.next_counterparty_revoke_num 1) commit_num)
          (policy_err policy.filter "policy-commitment-previous-revoked")
      when
          (u64_add commit_num 1 == estate.next_counterparty_commit_num
            && is_tagged estate.counterparty_commitment_funding setup.funding_outpoint)
          (validate_counterparty_retry estate commit_num commitment_point setup info2)

    unfoldable pub validate_holder_commitment_tx :
        EnforcementState → ℕ → ChannelSetup → ChainState → CommitmentInfo2 → Validated (Unit {0})
    validate_holder_commitment_tx estate commit_num setup cstate info2 = do
      validate_commitment_tx policy timeout_weight success_weight estate commit_num setup cstate
          info2
      let retry =
          u64_add commit_num 1 == estate.next_holder_commit_num
          && is_tagged estate.holder_commitment_funding setup.funding_outpoint
      let stored = holder_commit_info_for estate setup.funding_outpoint
      if retry
          then validate_holder_retry estate commit_num info2 stored
          else validate_holder_number estate commit_num
