-- ===== src/Protocol/Deltas.antt =====
-- `EnforcementState::claimable_balances` of vls-core/src/policy/validator.rs: the holder's claimable
-- balance before and after a new commitment.
pub mod Changes
mod Tests
use validating_lightning_sig.Common.{
  ℕ, Bool, true, false, not, ◌&&◌, ◌||◌, Option, none, some, if◌then◌else◌, min, Outcome, ok, err,
  panic, ◌>>=◌, ◌>>◌, when, unwrap,
}
use validating_lightning_sig.Channel.{
  PaymentHash, OutPoint, CommitmentInfo2, ChannelSetup, claimable_balance,
}
use validating_lightning_sig.Channel.Equality.{outpoint_eq}
use validating_lightning_sig.Channel.Enforcement.{
  EnforcementState, PrevFundingCommitment, present, holder_commit_info_for,
  counterparty_commit_info_for,
}
use validating_lightning_sig.Validator.Sides.{is_tagged}
use validating_lightning_sig.Protocol.{Answer, invalid_argument}
use validating_lightning_sig.Protocol.Splice.{value_or}

pub record BalanceDelta : Type 0 where
  pub before : ℕ
  pub after : ℕ

unfoldable pub min_opt : Option ℕ → Option ℕ → Option ℕ
min_opt (some a) (some b) = some (min a b)
min_opt (some a) none = some a
min_opt none b_opt = b_opt

-- Whether the new commitment is of the retiring funding.
unfoldable pub is_straggler : Option ChannelSetup → ChannelSetup → Bool
is_straggler none setup = false
is_straggler (some p) setup = outpoint_eq p.funding_outpoint setup.funding_outpoint

abbrev pub prev_value_or : Option ChannelSetup → ℕ → ℕ
prev_value_or none d = d
prev_value_or (some p) d = p.channel_value_sat

-- The current info of one side: a straggler's is in the snapshot, where there is one.
unfoldable pub current_info :
    (PrevFundingCommitment → Option CommitmentInfo2)
    → Bool
    → Option PrevFundingCommitment
    → Option CommitmentInfo2
    → Option CommitmentInfo2
current_info field true (some s) current = field s
current_info field _ _ current = current

-- The funding value that the current info of one side is held against.
unfoldable pub current_value : Option OutPoint → Option ChannelSetup → ChannelSetup → ℕ
unfolding is_straggler
current_value tag prev_setup setup =
    if is_straggler prev_setup setup
    then setup.channel_value_sat
    else if is_tagged tag setup.funding_outpoint
    then setup.channel_value_sat
    else prev_value_or prev_setup setup.channel_value_sat

module _ (has_preimage : PaymentHash → Bool) (setup : ChannelSetup) where
  -- `info.as_ref().and_then(|tx| tx.claimable_balance(..))`
  unfoldable pub balance_of : Option CommitmentInfo2 → ℕ → Option ℕ
  balance_of none value = none
  balance_of (some tx) value = claimable_balance tx has_preimage setup.is_outbound value

  -- The balance in a new commitment, or in what is stored for the funding where this side has none.
  unfoldable pub new_balance : Option CommitmentInfo2 → Option CommitmentInfo2 → Answer (Option ℕ)
  unfolding balance_of
  new_balance none fallback = ok (balance_of fallback setup.channel_value_sat)
  new_balance (some tx) fallback = elim (balance_of (some tx) setup.channel_value_sat) [
    | none ↦ err invalid_argument
    | some b ↦ ok (some b)
  ]

  module _ (self : EnforcementState) (prev_setup : Option ChannelSetup) where
    unfoldable pub current_balance : Option ℕ
    unfolding is_straggler current_info current_value balance_of min_opt
    current_balance =
        let straggler = is_straggler prev_setup setup in
        min_opt
          (balance_of
            (current_info (λ s. s.current_holder_info) straggler self.prev_funding_commitment
              self.current_holder_commit_info)
            (current_value self.holder_commitment_funding prev_setup setup))
          (balance_of
            (current_info (λ s. s.current_counterparty_info) straggler self.prev_funding_commitment
              self.current_counterparty_commit_info)
            (current_value self.counterparty_commitment_funding prev_setup setup))

    -- The two assertions and the `expect` fail as panics.
    unfoldable pub claimable_balances :
        Option CommitmentInfo2 → Option CommitmentInfo2 → Answer BalanceDelta
    unfolding new_balance current_balance min_opt holder_commit_info_for
        counterparty_commit_info_for
    claimable_balances new_holder_tx new_counterparty_tx = do
      when (not (present new_holder_tx || present new_counterparty_tx)) panic
      when (present new_holder_tx && present new_counterparty_tx) panic
      new_holder_bal ←
          new_balance new_holder_tx (holder_commit_info_for self setup.funding_outpoint)
      new_cp_bal ←
          new_balance new_counterparty_tx (counterparty_commit_info_for self setup.funding_outpoint)
      new_bal ← unwrap (min_opt new_holder_bal new_cp_bal)
      ok (record { before = value_or current_balance self.initial_holder_value; after = new_bal })
