-- ===== src/Channel/Enforcement.antt =====
-- `EnforcementState` of vls-core/src/policy/validator.rs, and the progress rules that the trait
-- `Validator` enforces on it.
pub mod Numbers
pub mod Splice
use validating_lightning_sig.Common.{
  ℕ, ◌+◌, ◌-◌, Bool, true, false, not, ◌&&◌, ◌||◌, Option, none, some, ltb, leb, ◌==◌, ◌!=◌,
  if◌then◌else◌, u64_add, u64_sub, Outcome, ok, err, panic, ◌>>=◌, ◌>>◌, when, unwrap,
}
use validating_lightning_sig.Policy.{PolicyFilter, Validated, policy_err}
use validating_lightning_sig.Channel.{PublicKey, OutPoint, CommitmentInfo2, CommitmentSignatures}
use validating_lightning_sig.Channel.Equality.{outpoint_eq}
use validating_lightning_sig.Channel.Secrets
use validating_lightning_sig.Channel.Secrets.{CounterpartyCommitmentSecrets}

pub record PrevFundingCommitment : Type 0 where
  pub outpoint : OutPoint
  pub current_holder_info : Option CommitmentInfo2
  pub current_holder_signatures : Option CommitmentSignatures
  pub next_holder_info : Option (CommitmentInfo2 × CommitmentSignatures)
  pub current_counterparty_info : Option CommitmentInfo2
  pub retiring_push_value_msat : ℕ

pub record EnforcementState : Type 0 where
  pub next_holder_commit_num : ℕ
  pub next_counterparty_commit_num : ℕ
  pub next_counterparty_revoke_num : ℕ
  pub current_counterparty_point : Option PublicKey
  pub previous_counterparty_point : Option PublicKey
  pub current_holder_commit_info : Option CommitmentInfo2
  pub current_counterparty_signatures : Option CommitmentSignatures
  pub next_holder_commit_info : Option (CommitmentInfo2 × CommitmentSignatures)
  pub current_counterparty_commit_info : Option CommitmentInfo2
  pub previous_counterparty_commit_info : Option CommitmentInfo2
  pub channel_closed : Bool
  pub initial_holder_value : ℕ
  pub counterparty_secrets : Option CounterpartyCommitmentSecrets
  pub holder_commitment_funding : Option OutPoint
  pub prev_funding_commitment : Option PrevFundingCommitment
  pub counterparty_commitment_funding : Option OutPoint

unfoldable pub new : ℕ → EnforcementState
new initial_holder_value = record {
  next_holder_commit_num = 0;
  next_counterparty_commit_num = 0;
  next_counterparty_revoke_num = 0;
  current_counterparty_point = none;
  previous_counterparty_point = none;
  current_holder_commit_info = none;
  current_counterparty_signatures = none;
  next_holder_commit_info = none;
  current_counterparty_commit_info = none;
  previous_counterparty_commit_info = none;
  channel_closed = false;
  initial_holder_value = initial_holder_value;
  counterparty_secrets = some Secrets.new;
  holder_commitment_funding = none;
  prev_funding_commitment = none;
  counterparty_commitment_funding = none;
}

-- `tag.is_none_or(|f| f == *view_outpoint)`
abbrev pub tag_fits : Option OutPoint → OutPoint → Bool
tag_fits none view = true
tag_fits (some f) view = outpoint_eq f view

abbrev from_snapshot :
    (PrevFundingCommitment → Option CommitmentInfo2)
    → Option PrevFundingCommitment
    → OutPoint
    → Option CommitmentInfo2
from_snapshot field none view = none
from_snapshot field (some prev) view = if outpoint_eq prev.outpoint view then field prev else none

unfoldable pub holder_commit_info_for : EnforcementState → OutPoint → Option CommitmentInfo2
holder_commit_info_for self view =
    if tag_fits self.holder_commitment_funding view
    then self.current_holder_commit_info
    else from_snapshot (λ prev. prev.current_holder_info) self.prev_funding_commitment view

abbrev pub present {ℓ} : {A : Type ℓ} → Option A → Bool
present none = false
present (some a) = true

unfoldable pub counterparty_commit_info_for : EnforcementState → OutPoint → Option CommitmentInfo2
counterparty_commit_info_for self view =
    if tag_fits self.counterparty_commitment_funding view
      && present self.current_counterparty_commit_info
    then self.current_counterparty_commit_info
    else from_snapshot (λ prev. prev.current_counterparty_info) self.prev_funding_commitment view

-- The assertion `num == current + 1` fails as a panic.
unfoldable pub set_next_holder_commit_num :
    EnforcementState → ℕ → CommitmentInfo2 → CommitmentSignatures → Validated EnforcementState
set_next_holder_commit_num self num info sigs =
    if num == u64_add self.next_holder_commit_num 1
    then ok (record self {
      next_holder_commit_num = num;
      current_holder_commit_info = some info;
      current_counterparty_signatures = some sigs;
    })
    else panic

-- The first `if` of `set_next_counterparty_commit_num`: what becomes of the previous commitment.
unfoldable pub roll_previous : EnforcementState → ℕ → EnforcementState
roll_previous self num =
    let current = self.next_counterparty_commit_num in
    if num == u64_add current 1
    then record self {
      previous_counterparty_point = self.current_counterparty_point;
      previous_counterparty_commit_info = self.current_counterparty_commit_info;
      current_counterparty_commit_info = none;
    }
    else if ltb (u64_add current 1) num || ltb num current
    then record self {
      previous_counterparty_point = none;
      previous_counterparty_commit_info = none;
    }
    else self

-- The rest of its body.
unfoldable pub store_counterparty :
    EnforcementState → ℕ → PublicKey → CommitmentInfo2 → EnforcementState
unfolding roll_previous
store_counterparty self num point info =
    let rolled = roll_previous self num in
    if leb (u64_add self.next_counterparty_commit_num 1) num
    then record rolled {
      current_counterparty_point = some point;
      current_counterparty_commit_info = some info;
      next_counterparty_commit_num = num;
    }
    else record rolled { next_counterparty_commit_num = num }

-- The assertion `num > 0` fails as a panic.
unfoldable pub set_next_counterparty_commit_num :
    EnforcementState → ℕ → PublicKey → CommitmentInfo2 → Validated EnforcementState
set_next_counterparty_commit_num self num point info =
    if num == 0 then panic else ok (store_counterparty self num point info)

unfoldable pub get_previous_counterparty_point : EnforcementState → ℕ → Option PublicKey
get_previous_counterparty_point self num =
    if u64_add num 1 == self.next_counterparty_commit_num
    then self.current_counterparty_point
    else if u64_add num 2 == self.next_counterparty_commit_num
    then self.previous_counterparty_point
    else none

unfoldable pub get_previous_counterparty_commit_info : EnforcementState → ℕ → Option CommitmentInfo2
get_previous_counterparty_commit_info self num =
    if u64_add num 1 == self.next_counterparty_commit_num
    then self.current_counterparty_commit_info
    else if u64_add num 2 == self.next_counterparty_commit_num
    then self.previous_counterparty_commit_info
    else none

-- The assertion `num != 0` fails as a panic.
unfoldable pub set_next_counterparty_revoke_num : EnforcementState → ℕ → Validated EnforcementState
set_next_counterparty_revoke_num self num =
    if num == 0
    then panic
    else ok (record self {
      next_counterparty_revoke_num = num;
      previous_counterparty_commit_info =
          if leb self.next_counterparty_commit_num (u64_add num 1)
          then none
          else self.previous_counterparty_commit_info;
    })

unfoldable pub snapshot_funding_for_splice : EnforcementState → OutPoint → ℕ → EnforcementState
snapshot_funding_for_splice self outpoint retiring_push_value_msat = record self {
  prev_funding_commitment = some (record {
    outpoint = outpoint;
    current_holder_info = self.current_holder_commit_info;
    current_holder_signatures = self.current_counterparty_signatures;
    next_holder_info = self.next_holder_commit_info;
    current_counterparty_info = self.current_counterparty_commit_info;
    retiring_push_value_msat = retiring_push_value_msat;
  });
  current_holder_commit_info = none;
  current_counterparty_signatures = none;
  next_holder_commit_info = none;
  current_counterparty_commit_info = none;
}

unfoldable pub retire_prev_funding : EnforcementState → EnforcementState
retire_prev_funding self = record self { prev_funding_commitment = none }

-- The smaller of two values, if they are within epsilon of each other.
unfoldable pub within_epsilon : ℕ → ℕ → ℕ → Option ℕ
within_epsilon epsilon_sat hval cval =
    if ltb cval hval
    then (if leb (hval - cval) epsilon_sat then some cval else none)
    else (if leb (cval - hval) epsilon_sat then some hval else none)

unfoldable pub both_infos :
    (CommitmentInfo2 → CommitmentInfo2 → Option ℕ)
    → Option CommitmentInfo2
    → Option CommitmentInfo2
    → Option ℕ
both_infos f (some hinfo) (some cinfo) = f hinfo cinfo
both_infos f _ _ = none

unfoldable pub minimum_to_holder_value : EnforcementState → ℕ → Option ℕ
unfolding within_epsilon both_infos
minimum_to_holder_value self epsilon_sat =
    both_infos
      (λ h c. within_epsilon epsilon_sat h.to_broadcaster_value_sat c.to_countersigner_value_sat)
      self.current_holder_commit_info self.current_counterparty_commit_info

unfoldable pub minimum_to_counterparty_value : EnforcementState → ℕ → Option ℕ
unfolding within_epsilon both_infos
minimum_to_counterparty_value self epsilon_sat =
    both_infos
      (λ h c. within_epsilon epsilon_sat h.to_countersigner_value_sat c.to_broadcaster_value_sat)
      self.current_holder_commit_info self.current_counterparty_commit_info

-- What follows is the trait `Validator`: the policy checks in front of the setters.
module _ (f : PolicyFilter) where
  unfoldable pub validator_set_next_holder_commit_num :
      EnforcementState → ℕ → CommitmentInfo2 → CommitmentSignatures → Validated EnforcementState
  unfolding set_next_holder_commit_num
  validator_set_next_holder_commit_num estate num info sigs = do
    let current = estate.next_holder_commit_num
    when (num != current && num != u64_add current 1)
        (policy_err f "policy-revoke-new-commitment-signed")
    set_next_holder_commit_num estate num info sigs

  unfoldable pub get_current_holder_commitment_info :
      EnforcementState → ℕ → Validated CommitmentInfo2
  get_current_holder_commitment_info estate commitment_number = do
    when (u64_add commitment_number 1 != estate.next_holder_commit_num)
        (policy_err f "policy-other")
    unwrap estate.current_holder_commit_info

  unfoldable pub validator_set_next_counterparty_commit_num :
      EnforcementState → ℕ → PublicKey → CommitmentInfo2 → Bool → Validated EnforcementState
  unfolding set_next_counterparty_commit_num
  validator_set_next_counterparty_commit_num estate num point info funding_changed = do
    when (num == 0) (policy_err f "policy-other")
    let delta = if num == 1 || funding_changed then 1 else 2
    when (ltb num (u64_add estate.next_counterparty_revoke_num delta))
        (policy_err f "policy-commitment-previous-revoked")
    let current = estate.next_counterparty_commit_num
    when (num != current && num != u64_add current 1)
        (policy_err f "policy-commitment-previous-revoked")
    set_next_counterparty_commit_num estate num point info

  unfoldable pub validator_set_next_counterparty_revoke_num :
      EnforcementState → ℕ → Validated EnforcementState
  unfolding set_next_counterparty_revoke_num
  validator_set_next_counterparty_revoke_num estate num = do
    when (num == 0) (policy_err f "policy-other")
    when (ltb (u64_add num 2) estate.next_counterparty_commit_num)
        (policy_err f "policy-commitment-previous-revoked")
    when (ltb estate.next_counterparty_commit_num (u64_add num 1))
        (policy_err f "policy-commitment-previous-revoked")
    let current = estate.next_counterparty_revoke_num
    when (num != current && num != u64_add current 1)
        (policy_err f "policy-commitment-previous-revoked")
    set_next_counterparty_revoke_num estate num
