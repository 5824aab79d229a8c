-- ===== src/Channel/Enforcement/Splice.antt =====
-- A splice swap moves the commitment state of the retiring funding into a record of its own.
use validating_lightning_sig.Common.{◌≡◌, refl, ℕ, true, false, none, arith}
use validating_lightning_sig.Channel.{OutPoint}
use validating_lightning_sig.Channel.Equality.{outpoint_eq, outpoint_eq_iff}
use validating_lightning_sig.Channel.Enforcement.{
  EnforcementState, snapshot_funding_for_splice, holder_commit_info_for,
  counterparty_commit_info_for, tag_fits,
}

module _ (s : EnforcementState) (outpoint : OutPoint) (push : ℕ) where
  same_outpoint : outpoint_eq outpoint outpoint ≡ true
  same_outpoint = (outpoint_eq_iff outpoint outpoint).1 refl

  -- After a splice swap the counterparty's commitment info of the retiring funding is still
  -- found, whatever funding its tag names. The holder's is found too where the tag names
  -- another funding; where the tag is unset or still names the retiring funding, nothing is
  -- found.
  pub snapshot_info_for :
      (counterparty_commit_info_for (snapshot_funding_for_splice s outpoint push) outpoint
        ≡ s.current_counterparty_commit_info)
      × (tag_fits s.holder_commitment_funding outpoint ≡ false
          → holder_commit_info_for (snapshot_funding_for_splice s outpoint push) outpoint
            ≡ s.current_holder_commit_info)
      × (tag_fits s.holder_commitment_funding outpoint ≡ true
          → holder_commit_info_for (snapshot_funding_for_splice s outpoint push) outpoint ≡ none)
  unfolding counterparty_commit_info_for holder_commit_info_for snapshot_funding_for_splice
  snapshot_info_for =
      (ground (arith, same_outpoint), (λ h. ground (arith, same_outpoint)), (λ h. ground arith))
