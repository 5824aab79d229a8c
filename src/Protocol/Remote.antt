-- ===== src/Protocol/Remote.antt =====
-- The counterparty's commitments: `sign_counterparty_commitment_tx_phase2` and
-- `validate_counterparty_revocation`.
use validating_lightning_sig.Common.{
  ℕ, Bool, false, not, Option, none, some, u64_add, u64_sub, ok, err, panic, ◌>>=◌, ◌>>◌,
}
use validating_lightning_sig.Policy.{Validated, policy_err}
use validating_lightning_sig.Channel.{PublicKey, OutPoint, CommitmentInfo2}
use validating_lightning_sig.Channel.Equality.{outpoint_eq}
use validating_lightning_sig.Channel.Secrets.{Secret, CounterpartyCommitmentSecrets, provide_secret}
use validating_lightning_sig.Channel.Enforcement.{
  EnforcementState, validator_set_next_counterparty_commit_num,
  validator_set_next_counterparty_revoke_num,
}
use validating_lightning_sig.Validator.{validate_channel_value}
use validating_lightning_sig.Validator.Sides.{
  validate_counterparty_revocation as validate_revocation, validate_counterparty_commitment_tx,
}
use validating_lightning_sig.Protocol.{
  World, Answer, status, from_error, initial_commitment_number, setup_for_outpoint,
}

-- `tag.map_or(false, |f| f != outpoint)`
abbrev pub funding_changed : Option OutPoint → OutPoint → Bool
funding_changed none outpoint = false
funding_changed (some f) outpoint = not (outpoint_eq f outpoint)

module _ (w : World) where
  unfoldable pub sign_counterparty_commitment_tx_phase2 :
      EnforcementState → OutPoint → PublicKey → ℕ → CommitmentInfo2 → Answer (ℕ × EnforcementState)
  sign_counterparty_commitment_tx_phase2 self outpoint point commitment_number info = do
    view ← setup_for_outpoint w.eras outpoint
    status (validate_channel_value w.simple view)
    w.claimable_balances self info
    status (
        validate_counterparty_commitment_tx w.simple w.timeout_weight w.success_weight self
          commitment_number point view w.chain_state info)
    sig ← w.sign_commitment view commitment_number info
    w.validate_payments self info
    advanced ← status (
        validator_set_next_counterparty_commit_num w.simple.filter self
          (u64_add commitment_number 1) point info
          (funding_changed self.counterparty_commitment_funding view.funding_outpoint))
    ok (sig, record advanced { counterparty_commitment_funding = some view.funding_outpoint })

  -- The secrets after one more, or a policy error where it does not chain.
  pub provide :
      Option CounterpartyCommitmentSecrets
      → ℕ
      → Secret
      → Answer (Option CounterpartyCommitmentSecrets)
  provide none backwards_num secret = ok none
  provide (some secrets) backwards_num secret =
      elim (provide_secret w.sha256 secrets backwards_num secret) [
        | ok secrets' ↦ ok (some secrets')
        | err e ↦
            status (policy_err w.simple.filter "policy-commitment-previous-revoked")
            >> ok (some secrets)
        | panic ↦ panic
      ]

  -- The state after the number was set, or the state before where that failed.
  unfoldable pub revoke_set :
      EnforcementState → Validated EnforcementState → Answer (Unit {0}) × EnforcementState
  revoke_set self (ok revoked) = (ok tt, revoked)
  revoke_set self (err e) = (err (from_error e), self)
  revoke_set self panic = (panic, self)

  -- The last step of a revocation, on the state that has the new secret.
  unfoldable pub revoke_with : EnforcementState → ℕ → Answer (Unit {0}) × EnforcementState
  unfolding revoke_set
  revoke_with self revoke_num =
      revoke_set self
        (validator_set_next_counterparty_revoke_num w.simple.filter self (u64_add revoke_num 1))

  unfoldable pub revoke_checked :
      EnforcementState
      → ℕ
      → Answer (Option CounterpartyCommitmentSecrets)
      → Answer (Unit {0}) × EnforcementState
  unfolding revoke_with
  revoke_checked self revoke_num (ok secrets) =
      revoke_with (record self { counterparty_secrets = secrets }) revoke_num
  revoke_checked self revoke_num (err e) = (err e, self)
  revoke_checked self revoke_num panic = (panic, self)

  unfoldable pub validate_counterparty_revocation :
      EnforcementState → ℕ → Secret → Answer (Unit {0}) × EnforcementState
  unfolding provide revoke_checked
  validate_counterparty_revocation self revoke_num secret = revoke_checked self revoke_num (do
    status (validate_revocation w.simple w.from_secret_key self revoke_num secret)
    provide self.counterparty_secrets (u64_sub initial_commitment_number revoke_num) secret)
