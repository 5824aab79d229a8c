-- ===== src/Protocol/Run/Remote.antt =====
-- How the operations on the counterparty's commitments move the state.
use validating_lightning_sig.Common.{
  ℕ, ◌≡◌, refl, ◌⊎◌, inl, inr, Option, some, arith, u64_add, ok, err, panic, >>=-eq-ok, >>-eq-ok,
}
use validating_lightning_sig.Policy.{Validated}
use validating_lightning_sig.Channel.{PublicKey, OutPoint, CommitmentInfo2, ChannelSetup}
use validating_lightning_sig.Channel.Secrets.{Secret, CounterpartyCommitmentSecrets}
use validating_lightning_sig.Channel.Enforcement.{
  EnforcementState, store_counterparty, roll_previous, set_next_counterparty_revoke_num,
  validator_set_next_counterparty_commit_num, validator_set_next_counterparty_revoke_num,
}
use validating_lightning_sig.Channel.Enforcement.Numbers.{counterparty_stored}
use validating_lightning_sig.Validator.{validate_channel_value}
use validating_lightning_sig.Validator.Sides.{validate_counterparty_commitment_tx}
use validating_lightning_sig.Protocol.{World, Answer, status, setup_for_outpoint}
use validating_lightning_sig.Protocol.Remote.{
  funding_changed, sign_counterparty_commitment_tx_phase2, validate_counterparty_revocation,
  revoke_checked, revoke_with, revoke_set,
}
use validating_lightning_sig.Protocol.Run.Moves.{Moves, status-eq-ok}

module _ (w : World) (s : EnforcementState) where
  -- A signed counterparty commitment has passed its checks, and its number is set.
  pub signed_ok :
      (outpoint : OutPoint) (point : PublicKey) (n : ℕ) (info : CommitmentInfo2) (sig : ℕ)
      {s' : EnforcementState}
      → sign_counterparty_commitment_tx_phase2 w s outpoint point n info ≡ ok (sig, s')
      → (view : ChannelSetup) × (validate_counterparty_commitment_tx w.simple w.timeout_weight
            w.success_weight s n point view w.chain_state info
          ≡ ok tt)
        × (t : EnforcementState) × (validator_set_next_counterparty_commit_num w.simple.filter s
              (u64_add n 1)
              point
              info
              (funding_changed s.counterparty_commitment_funding view.funding_outpoint)
            ≡ ok t)
        × (s' ≡ record t { counterparty_commitment_funding = some view.funding_outpoint })
  unfolding sign_counterparty_commitment_tx_phase2
  signed_ok outpoint point n info sig e =
      let (view, v, e₁) = >>=-eq-ok (setup_for_outpoint w.eras outpoint) _ e in
      let (b, e₂) = >>-eq-ok (status (validate_channel_value w.simple view)) _ e₁ in
      let (c, e₃) = >>-eq-ok (w.claimable_balances s info) _ e₂ in
      let (d, e₄) =
        >>-eq-ok
          (status (
            validate_counterparty_commitment_tx w.simple w.timeout_weight w.success_weight s n point
              view w.chain_state info))
          _ e₃ in
      let (sig', g, e₅) = >>=-eq-ok (w.sign_commitment view n info) _ e₄ in
      let (h, e₆) = >>-eq-ok (w.validate_payments s info) _ e₅ in
      let (t, k, e₇) =
        >>=-eq-ok
          (status (
            validator_set_next_counterparty_commit_num w.simple.filter s (u64_add n 1) point info
              (funding_changed s.counterparty_commitment_funding view.funding_outpoint)))
          _ e₆ in
      (view, status-eq-ok _ d, t, status-eq-ok _ k, ground arith)

  -- The holder's fields of two states agree.
  abbrev pub SameHolder : EnforcementState → Type 0
  SameHolder s' =
      (s'.channel_closed ≡ s.channel_closed)
      × (s'.next_holder_commit_num ≡ s.next_holder_commit_num)
      × (s'.next_holder_commit_info ≡ s.next_holder_commit_info)

  SameHolder-Moves : (s' : EnforcementState) → SameHolder s' → Moves s s'
  SameHolder-Moves s' (c, n, i) = ((λ h. ground arith), inl (n, (λ h u. ground arith)))

  store_same :
      (num : ℕ) (point : PublicKey) (info : CommitmentInfo2)
      → SameHolder (store_counterparty s num point info)
  unfolding store_counterparty roll_previous
  store_same num point info = (ground arith, ground arith, ground arith)

  pub signed-Moves :
      (outpoint : OutPoint) (point : PublicKey) (n : ℕ) (info : CommitmentInfo2) (sig : ℕ)
      {s' : EnforcementState}
      → sign_counterparty_commitment_tx_phase2 w s outpoint point n info ≡ ok (sig, s')
      → Moves s s'
  signed-Moves outpoint point n info sig {s'} e =
      let (view, _, t, set, changed) = signed_ok outpoint point n info sig e in
      let stored : t ≡ store_counterparty s (u64_add n 1) point info =
        counterparty_stored w.simple.filter s (u64_add n 1) point info _ set in
      let (c, m, i) = store_same (u64_add n 1) point info in
      SameHolder-Moves s' (ground arith, ground arith, ground arith)

  -- After a revocation the state has a new set of secrets at most, or the new number too.
  abbrev pub AfterRevocation : ℕ → EnforcementState → Type 0
  AfterRevocation n s' =
      (secrets : Option CounterpartyCommitmentSecrets) × ((s'
          ≡ record s { counterparty_secrets = secrets })
        ⊎ (validator_set_next_counterparty_revoke_num w.simple.filter
              (record s { counterparty_secrets = secrets }) (u64_add n 1)
            ≡ ok s'))

  revoke_set_after :
      (secrets : Option CounterpartyCommitmentSecrets) (n : ℕ) (r : Validated EnforcementState)
      → validator_set_next_counterparty_revoke_num w.simple.filter
          (record s { counterparty_secrets = secrets })
          (u64_add n 1)
        ≡ r
      → AfterRevocation n (revoke_set w (record s { counterparty_secrets = secrets }) r).1
  unfolding revoke_set
  revoke_set_after secrets n (ok s') e = (secrets, inr e)
  revoke_set_after secrets n (err x) e = (secrets, inl refl)
  revoke_set_after secrets n panic e = (secrets, inl refl)

  checked_after :
      (n : ℕ) (r : Answer (Option CounterpartyCommitmentSecrets))
      → AfterRevocation n (revoke_checked w s n r).1
  unfolding revoke_checked revoke_with
  checked_after n (ok secrets) = revoke_set_after secrets n _ refl
  checked_after n (err e) = (s.counterparty_secrets, inl refl)
  checked_after n panic = (s.counterparty_secrets, inl refl)

  pub revocation_after :
      (n : ℕ) (secret : Secret)
      → AfterRevocation n (validate_counterparty_revocation w s n secret).1
  unfolding validate_counterparty_revocation
  revocation_after n secret = checked_after n _

  set_revoke_same :
      (t s' : EnforcementState) (num : ℕ)
      → validator_set_next_counterparty_revoke_num w.simple.filter t num ≡ ok s'
      → (s'.channel_closed ≡ t.channel_closed)
        × (s'.next_holder_commit_num ≡ t.next_holder_commit_num)
        × (s'.next_holder_commit_info ≡ t.next_holder_commit_info)
  unfolding validator_set_next_counterparty_revoke_num set_next_counterparty_revoke_num
  set_revoke_same t s' num e = (ground arith, ground arith, ground arith)

  pub revocation-Moves :
      (n : ℕ) (secret : Secret) → Moves s (validate_counterparty_revocation w s n secret).1
  revocation-Moves n secret =
      let (secrets, after) = revocation_after n secret in
      elim after [
        | inl kept ↦
            SameHolder-Moves (validate_counterparty_revocation w s n secret).1
              (ground arith, ground arith, ground arith)
        | inr set ↦ SameHolder-Moves (validate_counterparty_revocation w s n secret).1 (
            set_revoke_same (record s { counterparty_secrets = secrets })
              (validate_counterparty_revocation w s n secret).1 (u64_add n 1) set)
      ]
