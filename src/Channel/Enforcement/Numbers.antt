-- ===== src/Channel/Enforcement/Numbers.antt =====
-- The commitment numbers: what each setter of the trait `Validator` lets through.
use validating_lightning_sig.Common.{
  ℕ, ◌+◌, ◌≤◌, ◌<◌, ◌≡◌, ◌≢◌, ◌⊎◌, ◌↔◌, Bool, ◌||◌, none, some, arith, leb, ◌==◌, if◌then◌else◌,
  u64_mod, u64_add, ok, err, panic,
}
use validating_lightning_sig.Policy.{PolicyFilter, policy_error}
use validating_lightning_sig.Policy.Filter.{Enforced, policy_err-Enforced}
use validating_lightning_sig.Channel.{PublicKey, CommitmentInfo2, CommitmentSignatures}
use validating_lightning_sig.Channel.Enforcement.{
  EnforcementState, store_counterparty, validator_set_next_holder_commit_num,
  validator_set_next_counterparty_commit_num, validator_set_next_counterparty_revoke_num,
}

module _ (f : PolicyFilter) (s : EnforcementState) (num : ℕ) where
  module _ (info : CommitmentInfo2) (sigs : CommitmentSignatures) where
    abbrev pub holder_advanced : EnforcementState
    holder_advanced = record s {
      next_holder_commit_num = num;
      current_holder_commit_info = some info;
      current_counterparty_signatures = some sigs;
    }

    -- Where the filter enforces the policy and the number does not wrap, the holder's
    -- commitment number goes up by exactly one: the next number is taken over with its info
    -- and signatures, the current number meets the assertion of the setter and panics, and
    -- any other number is a policy error.
    pub holder_progress :
        Enforced f "policy-revoke-new-commitment-signed"
        → s.next_holder_commit_num + 1 < u64_mod
        → (num ≡ s.next_holder_commit_num + 1
            → validator_set_next_holder_commit_num f s num info sigs ≡ ok holder_advanced)
          × (num ≡ s.next_holder_commit_num
              → validator_set_next_holder_commit_num f s num info sigs ≡ panic)
          × (num ≢ s.next_holder_commit_num + 1
              → num ≢ s.next_holder_commit_num
              → validator_set_next_holder_commit_num f s num info sigs
                ≡ err (policy_error "policy-revoke-new-commitment-signed"))
    unfolding validator_set_next_holder_commit_num
    holder_progress strict small =
        let refused = policy_err-Enforced f "policy-revoke-new-commitment-signed" strict in
        ((λ e. ground arith), (λ e. ground arith), (λ e e'. ground (arith, refused)))

  -- The smallest distance from the revoked number that a next commitment number must keep.
  abbrev pub gap : Bool → ℕ
  gap funding_changed = if num == 1 || funding_changed then 1 else 2

  module _ (point : PublicKey) (info : CommitmentInfo2) (funding_changed : Bool) where
    -- Where the filter enforces the policies and the numbers do not wrap, a counterparty
    -- commitment number is accepted exactly where it is positive, not below the revoked
    -- number plus the gap, and the current number or the one after it.
    pub counterparty_progress :
        Enforced f "policy-other"
        → Enforced f "policy-commitment-previous-revoked"
        → s.next_counterparty_commit_num + 1 < u64_mod
        → s.next_counterparty_revoke_num + 2 < u64_mod
        → ((s' : EnforcementState) × (validator_set_next_counterparty_commit_num f s num point info
                funding_changed
              ≡ ok s'))
          ↔ ((0 < num)
              × (s.next_counterparty_revoke_num + gap funding_changed ≤ num)
              × ((num ≡ s.next_counterparty_commit_num)
                  ⊎ (num ≡ s.next_counterparty_commit_num + 1)))
    unfolding validator_set_next_counterparty_commit_num
    counterparty_progress strict strict' small small' =
        let zero_refused = policy_err-Enforced f "policy-other" strict in
        let refused = policy_err-Enforced f "policy-commitment-previous-revoked" strict' in
        (
          (λ p. ground (arith, zero_refused, refused, p.1)),
          (λ p. (store_counterparty s num point info, ground (arith, p))),
        )

  -- Where the filter enforces the policies and the numbers do not wrap, a revocation number is
  -- accepted exactly where it is positive, one or two below the next commitment number, and the
  -- current revocation number or the one after it.
  pub revoke_progress :
      Enforced f "policy-other"
      → Enforced f "policy-commitment-previous-revoked"
      → num + 2 < u64_mod
      → s.next_counterparty_revoke_num + 1 < u64_mod
      → ((s' : EnforcementState) × (validator_set_next_counterparty_revoke_num f s num ≡ ok s')) ↔ (
          (0 < num)
          × (num + 1 ≤ s.next_counterparty_commit_num)
          × (s.next_counterparty_commit_num ≤ num + 2)
          × ((num ≡ s.next_counterparty_revoke_num) ⊎ (num ≡ s.next_counterparty_revoke_num + 1)))
  unfolding validator_set_next_counterparty_revoke_num
  revoke_progress strict strict' small small' =
      let zero_refused = policy_err-Enforced f "policy-other" strict in
      let refused = policy_err-Enforced f "policy-commitment-previous-revoked" strict' in
      (
        (λ p. ground (arith, zero_refused, refused, p.1)),
        (λ p. (
          record s {
            next_counterparty_revoke_num = num;
            previous_counterparty_commit_info =
                if leb s.next_counterparty_commit_num (u64_add num 1)
                then none
                else s.previous_counterparty_commit_info;
          },
          ground (arith, p),
        )),
      )

  -- What an accepted commitment number stores.
  pub counterparty_stored :
      (point : PublicKey) (info : CommitmentInfo2) (funding_changed : Bool) {s' : EnforcementState}
      → validator_set_next_counterparty_commit_num f s num point info funding_changed ≡ ok s'
      → s' ≡ store_counterparty s num point info
  unfolding validator_set_next_counterparty_commit_num
  counterparty_stored point info funding_changed e = grind arith
