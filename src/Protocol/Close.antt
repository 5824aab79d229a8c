-- ===== src/Protocol/Close.antt =====
-- Signing a holder commitment to close the channel: `get_holder_commitment_for_close`,
-- `get_latest_holder_commitment_for_close` and `sign_holder_commitment_tx_phase2`.
use validating_lightning_sig.Common.{
  ℕ, true, Option, none, some, ◌==◌, if◌then◌else◌, ok, ◌>>=◌, ok_or, checked_sub,
}
use validating_lightning_sig.Channel.{CommitmentInfo2, CommitmentSignatures}
use validating_lightning_sig.Channel.Enforcement.{
  EnforcementState, present, get_current_holder_commitment_info,
}
use validating_lightning_sig.Protocol.{World, Answer, internal, status, get_per_commitment_point}

-- The number that `get_latest_holder_commitment_for_close` closes with.
unfoldable pub latest_number : EnforcementState → Answer ℕ
latest_number self =
    if present self.next_holder_commit_info
    then ok self.next_holder_commit_num
    else ok_or internal (checked_sub self.next_holder_commit_num 1)

module _ (w : World) where
  unfoldable pub current_for_close :
      EnforcementState → ℕ → Answer (CommitmentInfo2 × CommitmentSignatures)
  current_for_close self commitment_number = do
    info ← status (get_current_holder_commitment_info w.simple.filter self commitment_number)
    sigs ← ok_or internal self.current_counterparty_signatures
    ok (info, sigs)

  unfoldable pub pending_for_close :
      EnforcementState
      → ℕ
      → Option (CommitmentInfo2 × CommitmentSignatures)
      → Answer (CommitmentInfo2 × CommitmentSignatures)
  unfolding current_for_close
  pending_for_close self commitment_number none = current_for_close self commitment_number
  pending_for_close self commitment_number (some pending) = ok pending

  unfoldable pub get_holder_commitment_for_close :
      EnforcementState → ℕ → Answer (CommitmentInfo2 × CommitmentSignatures)
  unfolding pending_for_close current_for_close
  get_holder_commitment_for_close self commitment_number =
      if commitment_number == self.next_holder_commit_num
      then pending_for_close self commitment_number self.next_holder_commit_info
      else current_for_close self commitment_number

  unfoldable pub sign_holder_commitment_tx_phase2 :
      EnforcementState → ℕ → Answer (ℕ × EnforcementState)
  unfolding get_holder_commitment_for_close
  sign_holder_commitment_tx_phase2 self commitment_number = do
    closable ← get_holder_commitment_for_close self commitment_number
    point ← get_per_commitment_point w self commitment_number
    sig ← w.sign_commitment w.eras.setup commitment_number closable.0
    ok (sig, record self { channel_closed = true })
