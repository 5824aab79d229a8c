-- ===== src/Validator/Tests.antt =====
-- The checks on a concrete policy, channel and commitment.
use validating_lightning_sig.Common.{
  ℕ, ◌+◌, ◌≤◌, ◌≡◌, refl, ◌≢◌, ◌↔◌, ◌⊎◌, true, some, [], ◌∷◌, arith, ok,
}
use validating_lightning_sig.Channel.{
  PublicKey, CommitmentInfo2, CommitmentType, is_zero_fee_htlc, is_anchors,
}
use validating_lightning_sig.Channel.Secrets.{Secret}
use validating_lightning_sig.Channel.Equality.{outpoint_eq, info_eq, htlcs_eq}
use validating_lightning_sig.Channel.Enforcement.{
  get_previous_counterparty_point, get_previous_counterparty_commit_info, holder_commit_info_for,
  snapshot_funding_for_splice,
}
use validating_lightning_sig.Samples.{policy, policy-Strict, setup, cstate, info, state}
use validating_lightning_sig.Validator.{
  validate_fee, validate_expiry, expected_commitment_tx_weight, estimate_feerate_per_kw,
}
use validating_lightning_sig.Validator.Commitment.{
  validate_commitment_tx, validate_outputs, validate_htlcs, htlc_dust_limit,
  validate_commitment_fee,
}
use validating_lightning_sig.Validator.Commitment.Accepted.{
  IsWithinLimits, IsInitial, validate_commitment_tx_ok,
}
use validating_lightning_sig.Validator.Sides.{
  is_tagged, validate_counterparty_revocation, validate_counterparty_commitment_tx,
  validate_holder_commitment_tx, validate_holder_number, validate_counterparty_retry,
}
use validating_lightning_sig.Validator.Sides.Accepted.{
  revocation_iff, counterparty_accepted, holder_accepted,
}
use validating_lightning_sig.Validator.Sides.Straggler.{straggler_unchecked}

abbrev one : ℕ
one = 1

abbrev two : ℕ
two = 2

abbrev weight : CommitmentType → ℕ
weight type = 700

commitment_accepted : validate_commitment_tx policy weight weight state 2 setup cstate info ≡ ok tt
unfolding validate_commitment_tx validate_expiry validate_fee expected_commitment_tx_weight
    estimate_feerate_per_kw validate_outputs validate_htlcs htlc_dust_limit is_zero_fee_htlc
    validate_commitment_fee is_anchors
commitment_accepted = refl

validate_commitment_tx_ok_example :
    IsWithinLimits weight weight policy setup 100 info × (two ≡ 0 → IsInitial state setup info)
validate_commitment_tx_ok_example =
    validate_commitment_tx_ok weight weight policy policy-Strict state 2 setup cstate info
      (omega arith) (omega arith) (omega arith) commitment_accepted

abbrev key : Secret → PublicKey
key [] = 0
key (b ∷ bs) = b

revocation_iff_example : (validate_counterparty_revocation policy key state 1 (11 ∷ []) ≡ ok tt) ↔ (
    ((one ≡ state.next_counterparty_revoke_num) ⊎ (one + 1 ≡ state.next_counterparty_revoke_num))
    × (get_previous_counterparty_point state 1 ≡ some (key (11 ∷ []))))
revocation_iff_example = revocation_iff policy policy-Strict state key 1 (11 ∷ []) (omega arith)

counterparty_checked :
    validate_counterparty_commitment_tx policy weight weight state 2 12 setup cstate info ≡ ok tt
unfolding validate_counterparty_commitment_tx outpoint_eq validate_counterparty_retry
    get_previous_counterparty_commit_info info_eq htlcs_eq
counterparty_checked = rw commitment_accepted refl

counterparty_accepted_example :
    (validate_commitment_tx policy weight weight state 2 setup cstate info ≡ ok tt)
    × (2 ≤ state.next_counterparty_revoke_num + 1)
    × (two + 1 ≡ state.next_counterparty_commit_num
        → is_tagged state.counterparty_commitment_funding setup.funding_outpoint ≡ true
        → (state.current_counterparty_point ≡ some 12)
          × ((stored : CommitmentInfo2)
              → get_previous_counterparty_commit_info state 2 ≡ some stored
              → info ≡ stored))
counterparty_accepted_example =
    counterparty_accepted policy policy-Strict state weight weight setup cstate info 2 12
      (omega arith) (omega arith) counterparty_checked

holder_checked :
    validate_holder_commitment_tx policy weight weight state 2 setup cstate info ≡ ok tt
unfolding validate_holder_commitment_tx validate_holder_number
holder_checked = rw commitment_accepted refl

holder_accepted_example :
    (validate_commitment_tx policy weight weight state 2 setup cstate info ≡ ok tt)
    × (state.next_holder_commit_num ≤ 2 + 1)
    × (state.channel_closed ≡ true → two ≢ state.next_holder_commit_num)
    × ((stored : CommitmentInfo2)
        → two + 1 ≡ state.next_holder_commit_num
        → is_tagged state.holder_commitment_funding setup.funding_outpoint ≡ true
        → holder_commit_info_for state setup.funding_outpoint ≡ some stored
        → info ≡ stored)
holder_accepted_example =
    holder_accepted policy policy-Strict state weight weight setup cstate info 2 (omega arith)
      holder_checked

straggler_unchecked_example :
    validate_holder_commitment_tx policy weight weight
      (snapshot_funding_for_splice state setup.funding_outpoint 0)
      1
      setup
      cstate
      info
    ≡ validate_commitment_tx policy weight weight
        (snapshot_funding_for_splice state setup.funding_outpoint 0)
        1
        setup
        cstate
        info
straggler_unchecked_example =
    straggler_unchecked policy weight weight state setup cstate 1 0 info refl refl (omega arith)
