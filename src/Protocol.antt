-- ===== src/Protocol.antt =====
-- The operations of `Channel` in vls-core/src/channel.rs that move the commitment numbers: signing
-- and revoking on both sides, and closing. What they need of keys, signatures and the node's payments
-- is a `World`; an operation that can leave a changed state behind an error returns the state too.
pub mod Close
pub mod Remote
pub mod Run
pub mod Splice
pub mod Signing
pub mod Deltas
mod Tests
use validating_lightning_sig.Common.{
  ℕ, ◌+◌, ◌-◌, ◌^◌, Bool, true, false, not, ◌&&◌, ◌||◌, Option, none, some, ltb, leb, ◌==◌, ◌!=◌,
  if◌then◌else◌, u64_add, u64_sub, Outcome, ok, err, panic, ◌>>=◌, ◌>>◌, when,
}
use validating_lightning_sig.Policy.{
  Validated, ValidationError, temporary_policy, transaction_format, script_format, mismatch, policy,
  unknown_destinations, policy_err,
}
use validating_lightning_sig.Channel.{
  PublicKey, OutPoint, CommitmentInfo2, CommitmentSignatures, CommitmentType, ChannelSetup,
  ChainState,
}
use validating_lightning_sig.Channel.Equality.{outpoint_eq}
use validating_lightning_sig.Channel.Secrets.{Secret, CounterpartyCommitmentSecrets, provide_secret}
use validating_lightning_sig.Channel.Enforcement.{
  EnforcementState, PrevFundingCommitment, present, set_next_holder_commit_num,
  validator_set_next_holder_commit_num, get_current_holder_commitment_info,
  validator_set_next_counterparty_commit_num, validator_set_next_counterparty_revoke_num,
}
use validating_lightning_sig.Validator.{SimplePolicy, validate_channel_value}
use validating_lightning_sig.Validator.Sides.{
  is_tagged, validate_counterparty_revocation as validate_revocation,
  validate_counterparty_commitment_tx, validate_holder_commitment_tx,
}

-- vls-core/src/util/status.rs, the code without its message.
pub data Status : Type 0 where
  failed_precondition temporary invalid_argument internal : Status

abbrev pub from_error : ValidationError → Status
from_error e = elim e.kind [
  | transaction_format ↦ failed_precondition
  | script_format ↦ failed_precondition
  | mismatch ↦ failed_precondition
  | policy ↦ failed_precondition
  | temporary_policy ↦ temporary
  | unknown_destinations unknowns ↦ failed_precondition
]

abbrev pub Answer : Type 0 → Type 0
Answer = Outcome Status

-- `?` on a `Result` of a `ValidationError`
abbrev pub status : {A : Type 0} → Validated A → Answer A
status (ok a) = ok a
status (err e) = err (from_error e)
status panic = panic

-- `1 << 48` less one
abbrev pub initial_commitment_number : ℕ
initial_commitment_number = 2 ^ 48 - 1

-- The three eras of a funding that a channel knows.
pub record Eras : Type 0 where
  pub setup : ChannelSetup
  pub prev_setup : Option ChannelSetup
  pub prev_prev_setup : Option ChannelSetup

abbrev pub era : OutPoint → Option ChannelSetup → Answer ChannelSetup → Answer ChannelSetup
era outpoint none otherwise = otherwise
era outpoint (some s) otherwise =
    if outpoint_eq outpoint s.funding_outpoint then ok s else otherwise

unfoldable pub setup_for_outpoint : Eras → OutPoint → Answer ChannelSetup
setup_for_outpoint self outpoint =
    era outpoint (some self.setup)
      (era outpoint self.prev_setup (era outpoint self.prev_prev_setup (err failed_precondition)))

-- What the operations take from elsewhere: the policy, the key derivation and hash of the crates, the
-- checks of signatures, and the node's checks of balances and payments.
pub record World : Type 0 where
  pub simple : SimplePolicy
  pub timeout_weight : CommitmentType → ℕ
  pub success_weight : CommitmentType → ℕ
  pub sha256 : Secret → Secret
  pub from_secret_key : Secret → PublicKey
  pub point_at : ℕ → PublicKey
  pub secret_at : ℕ → Secret
  pub eras : Eras
  pub chain_state : ChainState
  pub claimable_balances : EnforcementState → CommitmentInfo2 → Answer (Unit {0})
  pub check_holder_tx_signatures :
      ChannelSetup → CommitmentInfo2 → CommitmentSignatures → Answer (Unit {0})
  pub sign_commitment : ChannelSetup → ℕ → CommitmentInfo2 → Answer ℕ
  pub validate_payments : EnforcementState → CommitmentInfo2 → Answer (Unit {0})

-- The tail of `validate_holder_commitment_tx_phase2`: where a checked commitment is kept.
pub store_holder :
    EnforcementState → ℕ → OutPoint → CommitmentInfo2 → CommitmentSignatures → EnforcementState
store_holder self commitment_number view info sigs =
    if commitment_number == self.next_holder_commit_num
    then record self {
      next_holder_commit_info = some (info, sigs);
      holder_commitment_funding = some view;
    }
    else elim self.prev_funding_commitment [
      | none ↦ self
      | some prev ↦
          if u64_add commitment_number 1 == self.next_holder_commit_num
            && not (is_tagged self.holder_commitment_funding view)
          then record self {
            prev_funding_commitment = some (record prev { next_holder_info = some (info, sigs) });
          }
          else self
    ]

activate_pending :
    EnforcementState → Option (CommitmentInfo2 × CommitmentSignatures) → Answer EnforcementState
activate_pending self none = err invalid_argument
activate_pending self (some (info, sigs)) =
    let taken = record self { next_holder_commit_info = none } in
    if self.next_holder_commit_num == 0
    then status (set_next_holder_commit_num taken 1 info sigs)
    else ok (record taken {
      current_holder_commit_info = some info;
      current_counterparty_signatures = some sigs;
    })

-- The point of commitment 1, which the call returns without a check, is left out.
pub activate_initial_commitment : EnforcementState → Answer EnforcementState
unfolding activate_pending
activate_initial_commitment self = do
  when
      (ltb 1 self.next_holder_commit_num
        || (self.next_holder_commit_num == 1 && not (present self.prev_funding_commitment)))
      (err invalid_argument)
  activate_pending self self.next_holder_commit_info

module _ (w : World) where
  pub get_per_commitment_point : EnforcementState → ℕ → Answer PublicKey
  get_per_commitment_point self commitment_number =
      if ltb (u64_add self.next_holder_commit_num 1) commitment_number
      then err failed_precondition
      else ok (w.point_at (u64_sub initial_commitment_number commitment_number))

  pub get_per_commitment_secret : EnforcementState → ℕ → Answer Secret
  get_per_commitment_secret self commitment_number = do
    when (ltb self.next_holder_commit_num (u64_add commitment_number 2))
        (status (policy_err w.simple.filter "policy-revoke-new-commitment-signed"))
    ok (w.secret_at (u64_sub initial_commitment_number commitment_number))

  unfoldable pub old_secret : EnforcementState → ℕ → PublicKey → Answer (PublicKey × Option Secret)
  unfolding get_per_commitment_secret
  old_secret self commitment_number point =
      if leb 1 commitment_number
      then (get_per_commitment_secret self (commitment_number - 1) >>= λ secret.
          ok (point, some secret))
      else ok (point, none)

  pub release_commitment_secret : EnforcementState → ℕ → Answer (PublicKey × Option Secret)
  unfolding get_per_commitment_point old_secret
  release_commitment_secret self commitment_number = do
    point ← get_per_commitment_point self (u64_add commitment_number 1)
    old_secret self commitment_number point

  pub validate_holder_commitment_tx_phase2 :
      EnforcementState
      → OutPoint
      → ℕ
      → CommitmentInfo2
      → CommitmentSignatures
      → Answer EnforcementState
  unfolding get_per_commitment_point
  validate_holder_commitment_tx_phase2 self outpoint commitment_number info sigs = do
    view ← setup_for_outpoint w.eras outpoint
    point ← get_per_commitment_point self commitment_number
    w.claimable_balances self info
    status (
        validate_holder_commitment_tx w.simple w.timeout_weight w.success_weight self
          commitment_number view w.chain_state info)
    w.check_holder_tx_signatures view info sigs
    w.validate_payments self info
    ok (store_holder self commitment_number view.funding_outpoint info sigs)

  -- The state is the one with the pending info taken; an error leaves it as it then is.
  advance_holder_commitment_state :
      EnforcementState
      → ℕ
      → Answer EnforcementState
      → Answer (PublicKey × Option Secret) × EnforcementState
  unfolding release_commitment_secret
  advance_holder_commitment_state taken number (ok advanced) =
      (release_commitment_secret advanced number, advanced)
  advance_holder_commitment_state taken number (err e) = (err e, taken)
  advance_holder_commitment_state taken number panic = (panic, taken)

  revoke_pending :
      EnforcementState
      → ℕ
      → Option (CommitmentInfo2 × CommitmentSignatures)
      → Answer (PublicKey × Option Secret) × EnforcementState
  unfolding get_per_commitment_point advance_holder_commitment_state
  revoke_pending self number none = (
    (do
      status (policy_err w.simple.filter "policy-revoke-new-commitment-signed")
      point ← get_per_commitment_point self number
      ok (point, none)),
    self,
  )
  revoke_pending self number (some (info, sigs)) =
      let taken = record self { next_holder_commit_info = none } in
      advance_holder_commitment_state taken number (do
        w.claimable_balances taken info
        status (
            validator_set_next_holder_commit_num w.simple.filter taken (u64_add number 1) info
              sigs))

  pub revoke_previous_holder_commitment :
      EnforcementState → ℕ → Answer (PublicKey × Option Secret) × EnforcementState
  unfolding release_commitment_secret revoke_pending
  revoke_previous_holder_commitment self number =
      if number != self.next_holder_commit_num
      then (release_commitment_secret self number, self)
      else revoke_pending self number self.next_holder_commit_info
