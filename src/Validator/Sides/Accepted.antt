-- ===== src/Validator/Sides/Accepted.antt =====
-- What the checks of the two sides guarantee of an accepted commitment or revocation.
use validating_lightning_sig.Common.{
  ℕ, ◌+◌, ◌≤◌, ◌<◌, ◌≡◌, ◌≢◌, ◌↔◌, ◌⊎◌, inl, inr, true, ◌&&◌, Option, none, some, arith, ltb, ◌==◌,
  Bool-cases, Option-cases, u64_mod, u64_add, ok, when, >>-eq-ok,
}
use validating_lightning_sig.Policy.{policy_err}
use validating_lightning_sig.Policy.Filter.{Strict}
use validating_lightning_sig.Channel.{
  PublicKey, CommitmentInfo2, CommitmentType, ChannelSetup, ChainState,
}
use validating_lightning_sig.Channel.Secrets.{Secret}
use validating_lightning_sig.Channel.Equality.{info_eq→eq}
use validating_lightning_sig.Channel.Enforcement.{
  EnforcementState, get_previous_counterparty_point, get_previous_counterparty_commit_info,
  holder_commit_info_for,
}
use validating_lightning_sig.Validator.{SimplePolicy}
use validating_lightning_sig.Validator.Commitment.{validate_commitment_tx}
use validating_lightning_sig.Validator.Commitment.Limits.{refusal}
use validating_lightning_sig.Validator.Sides.{
  is_tagged, validate_counterparty_retry, validate_holder_number, validate_holder_retry,
  validate_counterparty_revocation, validate_counterparty_commitment_tx,
  validate_holder_commitment_tx,
}

module _ (policy : SimplePolicy) (strict : Strict policy.filter) (s : EnforcementState) where
  -- Under a filter that demotes nothing, a revocation whose number does not wrap is accepted
  -- exactly where it revokes the next number or the one before it, and its secret belongs to
  -- the point that is on record for that number.
  pub revocation_iff :
      (from_secret_key : Secret → PublicKey) (revoke_num : ℕ) (secret : Secret)
      → revoke_num + 1 < u64_mod
      → (validate_counterparty_revocation policy from_secret_key s revoke_num secret ≡ ok tt) ↔ (
          ((revoke_num ≡ s.next_counterparty_revoke_num)
            ⊎ (revoke_num + 1 ≡ s.next_counterparty_revoke_num))
          × (get_previous_counterparty_point s revoke_num ≡ some (from_secret_key secret)))
  unfolding validate_counterparty_revocation
  revocation_iff from_secret_key revoke_num secret word =
      let refused = refusal policy strict "policy-commitment-previous-revoked" in
      elim (Option-cases (get_previous_counterparty_point s revoke_num)) [
        | inl unknown ↦ ((λ e. ground (arith, refused)), (λ p. ground (arith, refused)))
        | inr (prev, known) ↦ ((λ e. ground (arith, refused)), (λ p. ground (arith, refused, p.0)))
      ]

  retry_ok :
      (commit_num : ℕ) (point : PublicKey) (setup : ChannelSetup) (info : CommitmentInfo2)
      → validate_counterparty_retry policy s commit_num point setup info ≡ ok tt
      → is_tagged s.counterparty_commitment_funding setup.funding_outpoint ≡ true
      → (s.current_counterparty_point ≡ some point)
        × ((stored : CommitmentInfo2)
            → get_previous_counterparty_commit_info s commit_num ≡ some stored
            → info ≡ stored)
  unfolding validate_counterparty_retry
  retry_ok commit_num point setup info e tagged =
      let refused = refusal policy strict "policy-commitment-retry-same" in
      (
        elim (Option-cases s.current_counterparty_point) [
          | inl unknown ↦ absurd (ground (arith, refused))
          | inr (prev, known) ↦ ground (arith, refused)
        ],
        (λ stored have. info_eq→eq info stored (ground (arith, refused))),
      )

  module _ (timeout_weight success_weight : CommitmentType → ℕ) (setup : ChannelSetup)
      (cstate : ChainState) (info : CommitmentInfo2) (commit_num : ℕ) where
    -- Under a filter that demotes nothing and where the numbers do not wrap, a counterparty
    -- commitment that is accepted has passed the common checks and lies at most one above the
    -- number to be revoked next; a second one for the same number and funding has the same
    -- point, and the same info, where one is stored for that number.
    pub counterparty_accepted :
        (point : PublicKey)
        → commit_num + 1 < u64_mod
        → s.next_counterparty_revoke_num + 1 < u64_mod
        → validate_counterparty_commitment_tx policy timeout_weight success_weight s commit_num
            point setup cstate info
          ≡ ok tt
        → (validate_commitment_tx policy timeout_weight success_weight s commit_num setup cstate
              info
            ≡ ok tt)
          × (commit_num ≤ s.next_counterparty_revoke_num + 1)
          × (commit_num + 1 ≡ s.next_counterparty_commit_num
              → is_tagged s.counterparty_commitment_funding setup.funding_outpoint ≡ true
              → (s.current_counterparty_point ≡ some point)
                × ((stored : CommitmentInfo2)
                    → get_previous_counterparty_commit_info s commit_num ≡ some stored
                    → info ≡ stored))
    unfolding validate_counterparty_commitment_tx
    counterparty_accepted point word word' e =
        let refused = refusal policy strict "policy-commitment-previous-revoked" in
        let (common, e₁) =
          >>-eq-ok
            (validate_commitment_tx policy timeout_weight success_weight s commit_num setup cstate
              info)
            _ e in
        let (near, e₂) =
          >>-eq-ok
            (when (ltb (u64_add s.next_counterparty_revoke_num 1) commit_num)
              (policy_err policy.filter "policy-commitment-previous-revoked"))
            _ e₁ in
        (
          common,
          ground (arith, refused),
          (λ same tagged. retry_ok commit_num point setup info (ground arith) tagged),
        )

    holder_number_ok :
        commit_num + 2 < u64_mod
        → validate_holder_number policy s commit_num ≡ ok tt
        → (s.next_holder_commit_num ≤ commit_num + 1)
          × (s.channel_closed ≡ true → commit_num ≢ s.next_holder_commit_num)
    unfolding validate_holder_number
    holder_number_ok word e =
        let revoked = refusal policy strict "policy-commitment-holder-not-revoked" in
        let closing = refusal policy strict "policy-commitment-spends-active-utxo" in
        (ground (arith, revoked), (λ closed same. ground (arith, revoked, closing)))

    holder_retry_ok :
        (held : Option CommitmentInfo2)
        → commit_num + 2 < u64_mod
        → commit_num + 1 ≡ s.next_holder_commit_num
        → validate_holder_retry policy s commit_num info held ≡ ok tt
        → (stored : CommitmentInfo2) → held ≡ some stored
        → info ≡ stored
    unfolding validate_holder_retry
    holder_retry_ok none word next e stored have = absurd (ground arith)
    holder_retry_ok (some held) word next e stored have =
        let changed = refusal policy strict "policy-commitment-retry-same" in
        info_eq→eq info stored (ground (arith, changed))

    -- Under a filter that demotes nothing and where the number does not wrap, a holder
    -- commitment that is accepted has passed the common checks, is none that may have been
    -- revoked, and none that is new once the channel is closed; a retry repeats the info that
    -- is stored for its funding, where one is.
    pub holder_accepted :
        commit_num + 2 < u64_mod
        → validate_holder_commitment_tx policy timeout_weight success_weight s commit_num setup
            cstate info
          ≡ ok tt
        → (validate_commitment_tx policy timeout_weight success_weight s commit_num setup cstate
              info
            ≡ ok tt)
          × (s.next_holder_commit_num ≤ commit_num + 1)
          × (s.channel_closed ≡ true → commit_num ≢ s.next_holder_commit_num)
          × ((stored : CommitmentInfo2)
              → commit_num + 1 ≡ s.next_holder_commit_num
              → is_tagged s.holder_commitment_funding setup.funding_outpoint ≡ true
              → holder_commit_info_for s setup.funding_outpoint ≡ some stored
              → info ≡ stored)
    unfolding validate_holder_commitment_tx validate_holder_retry
    holder_accepted word e =
        let (common, e₁) =
          >>-eq-ok
            (validate_commitment_tx policy timeout_weight success_weight s commit_num setup cstate
              info)
            _ e in
        let retry =
          u64_add commit_num 1 == s.next_holder_commit_num
          && is_tagged s.holder_commitment_funding setup.funding_outpoint in
        elim (Bool-cases retry) [
          | inl same ↦ (
            common,
            ground (arith),
            (λ closed. ground (arith)),
            (λ stored next tagged have.
                holder_retry_ok (holder_commit_info_for s setup.funding_outpoint) word next
                  (ground (arith)) stored have),
          )
          | inr fresh ↦
              let number = holder_number_ok word (ground (arith)) in
              (common, number.0, number.1, (λ stored next tagged have. absurd (ground (arith))))
        ]
