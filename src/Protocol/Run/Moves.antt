-- ===== src/Protocol/Run/Moves.antt =====
-- How each operation on the holder's side moves the holder's number and its pending commitment.
use validating_lightning_sig.Common.{
  ℕ, ◌+◌, ◌<◌, ◌≡◌, refl, ◌≢◌, ◌⊎◌, inl, inr, true, Option, none, some, arith, ◌==◌, Bool-cases,
  Option-cases, u64_mod, u64_add, ok, err, panic, >>=-eq-ok, >>-eq-ok,
}
use validating_lightning_sig.Policy.{Validated}
use validating_lightning_sig.Policy.Filter.{Strict}
use validating_lightning_sig.Channel.{OutPoint, CommitmentInfo2, CommitmentSignatures, ChannelSetup}
use validating_lightning_sig.Channel.Enforcement.{
  EnforcementState, present, set_next_holder_commit_num, validator_set_next_holder_commit_num,
}
use validating_lightning_sig.Validator.Sides.Accepted.{holder_accepted}
use validating_lightning_sig.Validator.Sides.{validate_holder_commitment_tx}
use validating_lightning_sig.Protocol.{
  World, Answer, status, setup_for_outpoint, get_per_commitment_point, store_holder,
  validate_holder_commitment_tx_phase2, revoke_previous_holder_commitment,
  activate_initial_commitment, revoke_pending, advance_holder_commitment_state, activate_pending,
}
use validating_lightning_sig.Protocol.Close.{
  get_holder_commitment_for_close, sign_holder_commitment_tx_phase2,
}

pub status-eq-ok : {A : Type 0} (m : Validated A) {a : A} → status m ≡ ok a → m ≡ ok a
status-eq-ok (ok a) h = ground arith
status-eq-ok (err e) h = absurd (ground arith)
status-eq-ok panic h = absurd (ground arith)

-- How an operation moves the holder's side: a closed channel stays closed; the number stays, and a
-- closed channel takes up no new commitment, or it goes up by one and uses up the pending commitment.
abbrev pub Moves : EnforcementState → EnforcementState → Type 0
Moves s s' =
    (s.channel_closed ≡ true → s'.channel_closed ≡ true)
    × (((s'.next_holder_commit_num ≡ s.next_holder_commit_num)
          × (s.channel_closed ≡ true
              → s.next_holder_commit_info ≡ none
              → s'.next_holder_commit_info ≡ none))
        ⊎ ((s'.next_holder_commit_num ≡ s.next_holder_commit_num + 1)
            × (s'.next_holder_commit_info ≡ none)
            × (present s.next_holder_commit_info ≡ true)))

module _ (w : World) (s : EnforcementState) where
  Moves-by : {t s' : EnforcementState} → s' ≡ t → Moves s t → Moves s s'
  Moves-by e m = rw e m

  pub phase2_ok :
      (outpoint : OutPoint) (n : ℕ) (info : CommitmentInfo2) (sigs : CommitmentSignatures)
      {s' : EnforcementState}
      → validate_holder_commitment_tx_phase2 w s outpoint n info sigs ≡ ok s'
      → (view : ChannelSetup) × (validate_holder_commitment_tx w.simple w.timeout_weight
            w.success_weight s n view w.chain_state info
          ≡ ok tt)
        × (s' ≡ store_holder s n view.funding_outpoint info sigs)
  unfolding validate_holder_commitment_tx_phase2
  phase2_ok outpoint n info sigs e =
      let (view, v, e₁) = >>=-eq-ok (setup_for_outpoint w.eras outpoint) _ e in
      let (point, p, e₂) = >>=-eq-ok (get_per_commitment_point w s n) _ e₁ in
      let (b, e₃) = >>-eq-ok (w.claimable_balances s info) _ e₂ in
      let (c, e₄) =
        >>-eq-ok
          (status (
            validate_holder_commitment_tx w.simple w.timeout_weight w.success_weight s n view
              w.chain_state info))
          _ e₃ in
      let (g, e₅) = >>-eq-ok (w.check_holder_tx_signatures view info sigs) _ e₄ in
      let (m, e₆) = >>-eq-ok (w.validate_payments s info) _ e₅ in
      (view, status-eq-ok _ c, ground arith)

  store_holder-Moves :
      (n : ℕ) (view : OutPoint) (info : CommitmentInfo2) (sigs : CommitmentSignatures)
      → (s.channel_closed ≡ true → n ≢ s.next_holder_commit_num)
      → Moves s (store_holder s n view info sigs)
  unfolding store_holder
  store_holder-Moves n view info sigs fresh = elim (Option-cases s.prev_funding_commitment) [
    | inl unset ↦ ((λ c. ground arith), inl (ground arith, (λ c u. ground (arith, fresh c))))
    | inr (prev, have) ↦ ((λ c. ground arith), inl (ground arith, (λ c u. ground (arith, fresh c))))
  ]

  advance-Moves :
      (taken : EnforcementState) (n : ℕ) (r : Answer EnforcementState)
      → Moves s taken
      → ((s' : EnforcementState) → r ≡ ok s' → Moves s s')
      → Moves s (advance_holder_commitment_state w taken n r).1
  unfolding advance_holder_commitment_state
  advance-Moves taken n (ok s') kept stepped = stepped s' refl
  advance-Moves taken n (err e) kept stepped = kept
  advance-Moves taken n panic kept stepped = kept

  revoke_pending-Moves :
      (n : ℕ) (pending : Option (CommitmentInfo2 × CommitmentSignatures))
      → pending ≡ s.next_holder_commit_info
      → n ≡ s.next_holder_commit_num
      → s.next_holder_commit_num + 3 < u64_mod
      → Moves s (revoke_pending w s n pending).1
  unfolding revoke_pending validator_set_next_holder_commit_num set_next_holder_commit_num
  revoke_pending-Moves n none have same word = ((λ c. c), inl (refl, (λ c u. u)))
  revoke_pending-Moves n (some (info, sigs)) have same word =
      let taken : EnforcementState = record s { next_holder_commit_info = none } in
      advance-Moves taken n _ ((λ c. c), inl (refl, (λ c u. refl)))
        (λ s' e.
          let (b, e₁) = >>-eq-ok (w.claimable_balances taken info) _ e in
          let advanced =
            status-eq-ok
              (validator_set_next_holder_commit_num w.simple.filter taken (u64_add n 1) info sigs)
              e₁ in
          ((λ c. ground arith), inr (ground arith, ground arith, ground arith)))

  pub revoke-Moves :
      (n : ℕ)
      → s.next_holder_commit_num + 3 < u64_mod
      → Moves s (revoke_previous_holder_commitment w s n).1
  unfolding revoke_previous_holder_commitment
  revoke-Moves n word = elim (Bool-cases (n == s.next_holder_commit_num)) [
    | inl same ↦
        Moves-by {t = (revoke_pending w s n s.next_holder_commit_info).1}
          {s' = (revoke_previous_holder_commitment w s n).1} (ground arith)
          (revoke_pending-Moves n s.next_holder_commit_info refl (ground arith) word)
    | inr other ↦
        Moves-by {t = s} {s' = (revoke_previous_holder_commitment w s n).1} (ground arith)
          ((λ c. c), inl (refl, (λ c u. u)))
  ]

  activate_pending-Moves :
      (pending : Option (CommitmentInfo2 × CommitmentSignatures)) {s' : EnforcementState}
      → pending ≡ s.next_holder_commit_info
      → activate_pending s pending ≡ ok s'
      → Moves s s'
  unfolding activate_pending set_next_holder_commit_num
  activate_pending-Moves none have e = absurd (ground arith)
  activate_pending-Moves (some (info, sigs)) have e =
      elim (Bool-cases (s.next_holder_commit_num == 0)) [
        | inl initial ↦ ((λ c. ground arith), inr (ground arith, ground arith, ground arith))
        | inr later ↦ ((λ c. ground arith), inl (ground arith, (λ c u. ground arith)))
      ]

  pub activate-Moves : {s' : EnforcementState} → activate_initial_commitment s ≡ ok s' → Moves s s'
  unfolding activate_initial_commitment
  activate-Moves e = activate_pending-Moves s.next_holder_commit_info refl (>>-eq-ok _ _ e).1

  pub close_ok :
      (n sig : ℕ) {s' : EnforcementState}
      → sign_holder_commitment_tx_phase2 w s n ≡ ok (sig, s')
      → s' ≡ record s { channel_closed = true }
  unfolding sign_holder_commitment_tx_phase2
  close_ok n sig e =
      let (closable, c, e₁) = >>=-eq-ok (get_holder_commitment_for_close w s n) _ e in
      let (point, p, e₂) = >>=-eq-ok (get_per_commitment_point w s n) _ e₁ in
      let (sig', g, e₃) = >>=-eq-ok (w.sign_commitment w.eras.setup n closable.0) _ e₂ in
      ground arith

  pub close-Moves :
      (n sig : ℕ) {s' : EnforcementState}
      → sign_holder_commitment_tx_phase2 w s n ≡ ok (sig, s')
      → Moves s s'
  close-Moves n sig e = Moves-by (close_ok n sig e) ((λ c. refl), inl (refl, (λ c u. u)))

  pub phase2-Moves :
      (outpoint : OutPoint) (n : ℕ) (info : CommitmentInfo2) (sigs : CommitmentSignatures)
      {s' : EnforcementState}
      → Strict w.simple.filter
      → n + 2 < u64_mod
      → validate_holder_commitment_tx_phase2 w s outpoint n info sigs ≡ ok s'
      → Moves s s'
  phase2-Moves outpoint n info sigs strict word e =
      let (view, checked, stored) = phase2_ok outpoint n info sigs e in
      let (_, _, fresh, _) =
        holder_accepted w.simple strict s w.timeout_weight w.success_weight view w.chain_state info
          n word checked in
      Moves-by stored (store_holder-Moves n view.funding_outpoint info sigs fresh)
