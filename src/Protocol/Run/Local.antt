-- ===== src/Protocol/Run/Local.antt =====
-- The operations on the holder's side leave the counterparty's numbers and points alone.
use validating_lightning_sig.Common.{
  ℕ, ◌≡◌, refl, inl, inr, Option, none, some, arith, ◌==◌, Bool-cases, Option-cases, u64_add, ok,
  err, panic, >>-eq-ok,
}
use validating_lightning_sig.Channel.{OutPoint, CommitmentInfo2, CommitmentSignatures}
use validating_lightning_sig.Channel.Enforcement.{
  EnforcementState, set_next_holder_commit_num, validator_set_next_holder_commit_num,
}
use validating_lightning_sig.Protocol.{
  World, Answer, store_holder, validate_holder_commitment_tx_phase2,
  revoke_previous_holder_commitment, activate_initial_commitment, revoke_pending,
  advance_holder_commitment_state, activate_pending,
}
use validating_lightning_sig.Protocol.Run.Moves.{phase2_ok, status-eq-ok}

-- The counterparty's numbers and points of two states agree.
abbrev pub SameRemote : EnforcementState → EnforcementState → Type 0
SameRemote s s' =
    (s'.next_counterparty_commit_num ≡ s.next_counterparty_commit_num)
    × (s'.next_counterparty_revoke_num ≡ s.next_counterparty_revoke_num)
    × (s'.current_counterparty_point ≡ s.current_counterparty_point)
    × (s'.previous_counterparty_point ≡ s.previous_counterparty_point)

same_remote : (s : EnforcementState) → SameRemote s s
same_remote s = (refl, refl, refl, refl)

module _ (w : World) (s : EnforcementState) where
  remote_by : (t s' : EnforcementState) → s' ≡ t → SameRemote s t → SameRemote s s'
  remote_by t s' e m = rw e m

  store_holder_remote :
      (n : ℕ) (view : OutPoint) (info : CommitmentInfo2) (sigs : CommitmentSignatures)
      → SameRemote s (store_holder s n view info sigs)
  unfolding store_holder
  store_holder_remote n view info sigs = elim (Option-cases s.prev_funding_commitment) [
    | inl unset ↦ (ground arith, ground arith, ground arith, ground arith)
    | inr (prev, have) ↦ (ground arith, ground arith, ground arith, ground arith)
  ]

  pub phase2_remote :
      (outpoint : OutPoint) (n : ℕ) (info : CommitmentInfo2) (sigs : CommitmentSignatures)
      {s' : EnforcementState}
      → validate_holder_commitment_tx_phase2 w s outpoint n info sigs ≡ ok s'
      → SameRemote s s'
  phase2_remote outpoint n info sigs {s'} e =
      let (view, checked, stored) = phase2_ok w s outpoint n info sigs e in
      remote_by (store_holder s n view.funding_outpoint info sigs) s' stored
        (store_holder_remote n view.funding_outpoint info sigs)

  advance_remote :
      (taken : EnforcementState) (n : ℕ) (r : Answer EnforcementState)
      → SameRemote s taken
      → ((s' : EnforcementState) → r ≡ ok s' → SameRemote s s')
      → SameRemote s (advance_holder_commitment_state w taken n r).1
  unfolding advance_holder_commitment_state
  advance_remote taken n (ok s') kept stepped = stepped s' refl
  advance_remote taken n (err e) kept stepped = kept
  advance_remote taken n panic kept stepped = kept

  set_holder_remote :
      (taken s' : EnforcementState) (n : ℕ) (info : CommitmentInfo2) (sigs : CommitmentSignatures)
      → validator_set_next_holder_commit_num w.simple.filter taken n info sigs ≡ ok s'
      → SameRemote taken s'
  unfolding validator_set_next_holder_commit_num set_next_holder_commit_num
  set_holder_remote taken s' n info sigs e =
      (ground arith, ground arith, ground arith, ground arith)

  revoke_pending_remote :
      (n : ℕ) (pending : Option (CommitmentInfo2 × CommitmentSignatures))
      → SameRemote s (revoke_pending w s n pending).1
  unfolding revoke_pending
  revoke_pending_remote n none = same_remote s
  revoke_pending_remote n (some (info, sigs)) =
      let taken : EnforcementState = record s { next_holder_commit_info = none } in
      advance_remote taken n _ (refl, refl, refl, refl)
        (λ s' e.
          let (b, e₁) = >>-eq-ok (w.claimable_balances taken info) _ e in
          set_holder_remote taken s' (u64_add n 1) info sigs (
            status-eq-ok
              (validator_set_next_holder_commit_num w.simple.filter taken (u64_add n 1) info sigs)
              e₁))

  pub revoke_remote : (n : ℕ) → SameRemote s (revoke_previous_holder_commitment w s n).1
  unfolding revoke_previous_holder_commitment
  revoke_remote n = elim (Bool-cases (n == s.next_holder_commit_num)) [
    | inl same ↦
        remote_by (revoke_pending w s n s.next_holder_commit_info).1
          (revoke_previous_holder_commitment w s n).1 (ground arith)
          (revoke_pending_remote n s.next_holder_commit_info)
    | inr other ↦
        remote_by s (revoke_previous_holder_commitment w s n).1 (ground arith) (same_remote s)
  ]

  activate_pending_remote :
      (pending : Option (CommitmentInfo2 × CommitmentSignatures)) {s' : EnforcementState}
      → activate_pending s pending ≡ ok s'
      → SameRemote s s'
  unfolding activate_pending set_next_holder_commit_num
  activate_pending_remote none e = absurd (ground arith)
  activate_pending_remote (some (info, sigs)) e =
      (ground arith, ground arith, ground arith, ground arith)

  pub activate_remote :
      {s' : EnforcementState} → activate_initial_commitment s ≡ ok s' → SameRemote s s'
  unfolding activate_initial_commitment
  activate_remote e = activate_pending_remote s.next_holder_commit_info (>>-eq-ok _ _ e).1
