-- ===== src/Validator/Onchain.antt =====
-- `OnchainValidator` of vls-core/src/policy/onchain_validator.rs: the depth checks it puts in front of
-- the checks of `SimpleValidator`, which it is given as `inner`.
use validating_lightning_sig.Common.{
  ℕ, ◌≤◌, ◌<◌, ◌≡◌, ◌↔◌, ◌⊎◌, inl, inr, Bool, true, false, ◌&&◌, not, arith, ltb, leb, ◌==◌,
  if◌then◌else◌, Bool-cases, ok, err, ◌>>◌, when,
}
use validating_lightning_sig.Policy.{
  PolicyFilter, Validated, policy_err, policy_error, temporary_policy_err, temporary_policy_error,
}
use validating_lightning_sig.Policy.Filter.{
  Enforced, policy_err-Enforced, temporary_policy_err-Enforced,
}
use validating_lightning_sig.Channel.{PublicKey, ChainState, ChannelSetup, CommitmentInfo2}
use validating_lightning_sig.Channel.Enforcement.{EnforcementState}

pub record OnchainPolicy : Type 0 where
  pub filter : PolicyFilter
  pub min_funding_depth : ℕ

module _ (policy : OnchainPolicy) where
  unfoldable pub is_ready : ChainState → Bool
  is_ready cstate = leb policy.min_funding_depth cstate.funding_depth && cstate.closing_depth == 0

  unfoldable pub ensure_funding_buried_and_unspent : ℕ → ChainState → Validated (Unit {0})
  ensure_funding_buried_and_unspent commit_num cstate =
      when (ltb 0 commit_num && not cstate.splice_pending) (do
        when (ltb cstate.funding_depth policy.min_funding_depth)
            (temporary_policy_err policy.filter "policy-commitment-spends-active-utxo")
        when (ltb 0 cstate.closing_depth)
            (policy_err policy.filter "policy-commitment-spends-active-utxo"))

  pub validate_counterparty_commitment_tx :
      (inner : EnforcementState
        → ℕ
        → PublicKey
        → ChannelSetup
        → ChainState
        → CommitmentInfo2
        → Validated (Unit {0}))
      → EnforcementState
      → ℕ
      → PublicKey
      → ChannelSetup
      → ChainState
      → CommitmentInfo2
      → Validated (Unit {0})
  validate_counterparty_commitment_tx inner estate commit_num commitment_point setup cstate info2 =
      do
        ensure_funding_buried_and_unspent commit_num cstate
        inner estate commit_num commitment_point setup cstate info2

  pub validate_holder_commitment_tx :
      (inner : EnforcementState
        → ℕ
        → PublicKey
        → ChannelSetup
        → ChainState
        → CommitmentInfo2
        → Validated (Unit {0}))
      → EnforcementState
      → ℕ
      → PublicKey
      → ChannelSetup
      → ChainState
      → CommitmentInfo2
      → Validated (Unit {0})
  validate_holder_commitment_tx inner estate commit_num commitment_point setup cstate info2 = do
    when (leb estate.next_holder_commit_num commit_num)
        (ensure_funding_buried_and_unspent commit_num cstate)
    inner estate commit_num commitment_point setup cstate info2

  module _ (strict : Enforced policy.filter "policy-commitment-spends-active-utxo")
      (cstate : ChainState) where
    -- Where the filter enforces the policy, the check passes the initial commitment, every
    -- commitment during a splice, and any other exactly where the funding is buried at the
    -- required depth and unspent.
    pub ensure_funding_iff :
        (commit_num : ℕ)
        → (ensure_funding_buried_and_unspent commit_num cstate ≡ ok tt)
          ↔ ((commit_num ≡ 0) ⊎ ((cstate.splice_pending ≡ true) ⊎ (is_ready cstate ≡ true)))
    unfolding ensure_funding_buried_and_unspent is_ready
    ensure_funding_iff commit_num =
        let shallow =
          temporary_policy_err-Enforced policy.filter "policy-commitment-spends-active-utxo"
            strict in
        let spent =
          policy_err-Enforced policy.filter "policy-commitment-spends-active-utxo" strict in
        ((λ e. ground (arith, shallow, spent)), (λ p. ground (arith, shallow, spent, p)))

    -- Where the filter enforces the policy, outside a splice and for a commitment after the
    -- initial one that is new on the holder's side, a funding that is not buried yet is a
    -- temporary error, and a buried one that is spent a permanent error, on both sides,
    -- whatever the inner validator would say.
    pub onchain_refuses :
        (inner : EnforcementState
          → ℕ
          → PublicKey
          → ChannelSetup
          → ChainState
          → CommitmentInfo2
          → Validated (Unit {0}))
        (s : EnforcementState) (commit_num : ℕ) (point : PublicKey) (setup : ChannelSetup)
        (info : CommitmentInfo2)
        → 0 < commit_num
        → s.next_holder_commit_num ≤ commit_num
        → cstate.splice_pending ≡ false
        → is_ready cstate ≡ false
        → let refusal =
            if ltb cstate.funding_depth policy.min_funding_depth
            then temporary_policy_error "policy-commitment-spends-active-utxo"
            else policy_error "policy-commitment-spends-active-utxo" in
          (validate_counterparty_commitment_tx inner s commit_num point setup cstate info
            ≡ err refusal)
          × (validate_holder_commitment_tx inner s commit_num point setup cstate info ≡ err refusal)
    unfolding validate_counterparty_commitment_tx validate_holder_commitment_tx
        ensure_funding_buried_and_unspent is_ready
    onchain_refuses inner s commit_num point setup info later fresh settled unready =
        let shallow =
          temporary_policy_err-Enforced policy.filter "policy-commitment-spends-active-utxo"
            strict in
        let spent =
          policy_err-Enforced policy.filter "policy-commitment-spends-active-utxo" strict in
        elim (Bool-cases (ltb cstate.funding_depth policy.min_funding_depth)) [
          | inl near ↦ (ground (arith, shallow, spent, near), ground (arith, shallow, spent, near))
          | inr deep ↦ (ground (arith, shallow, spent, deep), ground (arith, shallow, spent, deep))
        ]
