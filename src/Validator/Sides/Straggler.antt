-- ===== src/Validator/Sides/Straggler.antt =====
-- The retry check of a holder commitment of a funding that a splice has just retired.
use validating_lightning_sig.Common.{ℕ, ◌+◌, ◌<◌, ◌≡◌, refl, true, some, arith, u64_mod}
use validating_lightning_sig.Channel.{CommitmentInfo2, CommitmentType, ChannelSetup, ChainState}
use validating_lightning_sig.Channel.Equality.{outpoint_eq, outpoint_eq_iff}
use validating_lightning_sig.Channel.Enforcement.{
  EnforcementState, snapshot_funding_for_splice, holder_commit_info_for,
}
use validating_lightning_sig.Validator.{SimplePolicy}
use validating_lightning_sig.Validator.Commitment.{validate_commitment_tx}
use validating_lightning_sig.Validator.Sides.{validate_holder_retry, validate_holder_commitment_tx}

module _ (policy : SimplePolicy) (timeout_weight success_weight : CommitmentType → ℕ)
    (s : EnforcementState) (setup : ChannelSetup) (cstate : ChainState) where
  -- After a splice swap in which the holder's tag still names the retiring funding, a holder
  -- commitment of that funding with the current number is subject to the common checks only:
  -- any info that passes them passes the whole, whether or not it repeats the one on record.
  pub straggler_unchecked :
      (commit_num push : ℕ) (info : CommitmentInfo2)
      → s.holder_commitment_funding ≡ some setup.funding_outpoint
      → commit_num + 1 ≡ s.next_holder_commit_num
      → commit_num + 1 < u64_mod
      → validate_holder_commitment_tx policy timeout_weight success_weight
          (snapshot_funding_for_splice s setup.funding_outpoint push)
          commit_num
          setup
          cstate
          info
        ≡ validate_commitment_tx policy timeout_weight success_weight
            (snapshot_funding_for_splice s setup.funding_outpoint push)
            commit_num
            setup
            cstate
            info
  unfolding validate_holder_commitment_tx validate_holder_retry holder_commit_info_for
      snapshot_funding_for_splice
  straggler_unchecked commit_num push info tagged number word =
      let same : outpoint_eq setup.funding_outpoint setup.funding_outpoint ≡ true =
        (outpoint_eq_iff setup.funding_outpoint setup.funding_outpoint).1 refl in
      ground (arith, same, tagged)
