-- ===== src/Protocol/Run/Alternation.antt =====
-- The counterparty's side of a run: commitments and revocations alternate, and the points that the
-- next revocations are checked against are on record.
use validating_lightning_sig.Common.{
  Bool, false, ℕ, ◌+◌, ◌≤◌, ◌<◌, ◌≡◌, refl, ◌⊎◌, inl, inr, true, arith, u64_mod, u64_add, ok,
}
use validating_lightning_sig.Channel.{ChannelSetup, PublicKey, OutPoint, CommitmentInfo2}
use validating_lightning_sig.Channel.Secrets.{Secret}
use validating_lightning_sig.Channel.Enforcement.{
  EnforcementState, new, present, snapshot_funding_for_splice, retire_prev_funding,
  store_counterparty, roll_previous, set_next_counterparty_revoke_num,
  validator_set_next_counterparty_revoke_num,
}
use validating_lightning_sig.Channel.Enforcement.Numbers.{
  gap, counterparty_progress, counterparty_stored, revoke_progress,
}
use validating_lightning_sig.Validator.Sides.Accepted.{counterparty_accepted}
use validating_lightning_sig.Protocol.{World}
use validating_lightning_sig.Protocol.Remote.{
  funding_changed, sign_counterparty_commitment_tx_phase2, validate_counterparty_revocation,
}
use validating_lightning_sig.Protocol.Run.{
  InRange, Step, Run, validated, revoked, activated, closed, signed, counterparty_revoked, swapped,
  locked, mutually_closed, mutually_closed_phase2, start, next,
}
use validating_lightning_sig.Protocol.Splice.{lock_state}
use validating_lightning_sig.Protocol.Signing.Closed.{mutual_close_ok, mutual_close_phase2_ok}
use validating_lightning_sig.Protocol.Run.Moves.{close_ok}
use validating_lightning_sig.Protocol.Run.Remote.{signed_ok, revocation_after}
use validating_lightning_sig.Protocol.Run.Local.{
  SameRemote, phase2_remote, revoke_remote, activate_remote,
}
use validating_lightning_sig.Protocol.Run.Safety.{IsStrict}

-- Before the first commitment both numbers are zero; from then on one or two commitments are not
-- revoked, and the points of the last two are on record.
abbrev pub Recorded : EnforcementState → Type 0
Recorded s =
    (((s.next_counterparty_commit_num ≡ 0) × (s.next_counterparty_revoke_num ≡ 0))
      ⊎ ((s.next_counterparty_revoke_num + 1 ≤ s.next_counterparty_commit_num)
          × (s.next_counterparty_commit_num ≤ s.next_counterparty_revoke_num + 2)))
    × (0 < s.next_counterparty_commit_num → present s.current_counterparty_point ≡ true)
    × (1 < s.next_counterparty_commit_num → present s.previous_counterparty_point ≡ true)

same-Recorded : (s s' : EnforcementState) → SameRemote s s' → Recorded s → Recorded s'
same-Recorded s s' (c, r, p, q) recorded = rw (c, r, p, q) recorded

store_points :
    (s : EnforcementState) (num : ℕ) (point : PublicKey) (info : CommitmentInfo2)
    → Recorded s
    → s.next_counterparty_commit_num + 1 < u64_mod
    → (num ≡ s.next_counterparty_commit_num) ⊎ (num ≡ s.next_counterparty_commit_num + 1)
    → let s' = store_counterparty s num point info in
      (s'.next_counterparty_commit_num ≡ num)
      × (s'.next_counterparty_revoke_num ≡ s.next_counterparty_revoke_num)
      × (0 < num → present s'.current_counterparty_point ≡ true)
      × (1 < num → present s'.previous_counterparty_point ≡ true)
unfolding store_counterparty roll_previous
store_points s num point info (numbers, current, previous) word (inl same) = (
  ground arith,
  ground arith,
  (λ h. ground (arith, current (ground arith))),
  (λ h. ground (arith, previous (ground arith))),
)
store_points s num point info (numbers, current, previous) word (inr up) =
    (ground arith, ground arith, (λ h. ground arith), (λ h. ground (arith, current (ground arith))))

module _ (w : World) (strict : IsStrict w) (s : EnforcementState) (recorded : Recorded s)
    (word : InRange s) where
  signed-Recorded :
      (outpoint : OutPoint) (point : PublicKey) (n : ℕ) (info : CommitmentInfo2) (sig : ℕ)
      {s' : EnforcementState}
      → n + 2 < u64_mod
      → sign_counterparty_commitment_tx_phase2 w s outpoint point n info ≡ ok (sig, s')
      → Recorded s'
  signed-Recorded outpoint point n info sig {s'} small e =
      let (view, checked, t, set, changed) = signed_ok w s outpoint point n info sig e in
      let gone = funding_changed s.counterparty_commitment_funding view.funding_outpoint in
      let num = u64_add n 1 in
      let (_, near, _) =
        counterparty_accepted w.simple strict s w.timeout_weight w.success_weight view w.chain_state
          info n point (ground arith) (ground arith) checked in
      let stored = counterparty_stored w.simple.filter s num point info gone set in
      let (pos, far, which) =
        (counterparty_progress w.simple.filter s num point info gone (strict "policy-other")
            (strict "policy-commitment-previous-revoked") (ground arith) (ground arith)).0
          (t, set) in
      let (c, r, p, q) = store_points s num point info recorded (ground arith) which in
      let some_gap : 1 ≤ gap w.simple.filter s num gone = ground arith in
      let s₀ : EnforcementState = store_counterparty s num point info in
      let same : SameRemote s₀ s' = (ground arith, ground arith, ground arith, ground arith) in
      same-Recorded s₀ s' same
        (inr (ground arith, ground arith), (λ h. p (ground arith)), (λ h. q (ground arith)))

  set_revoke-Recorded :
      (t s' : EnforcementState) (n : ℕ)
      → SameRemote s t
      → n + 3 < u64_mod
      → validator_set_next_counterparty_revoke_num w.simple.filter t (u64_add n 1) ≡ ok s'
      → Recorded s'
  unfolding validator_set_next_counterparty_revoke_num set_next_counterparty_revoke_num
  set_revoke-Recorded t s' n (c, r, p, q) small e =
      let (_, low, high, _) =
        (revoke_progress w.simple.filter t (u64_add n 1) (strict "policy-other")
            (strict "policy-commitment-previous-revoked") (ground arith) (ground arith)).0
          (s', e) in
      let (_, current, previous) = recorded in
      let num : s'.next_counterparty_revoke_num ≡ n + 1 = ground arith in
      let kept : s'.next_counterparty_commit_num ≡ s.next_counterparty_commit_num = ground arith in
      let point : s'.current_counterparty_point ≡ s.current_counterparty_point = ground arith in
      let point' : s'.previous_counterparty_point ≡ s.previous_counterparty_point = ground arith in
      (
        inr (ground arith, ground arith),
        (λ h. rw point (current (ground arith))),
        (λ h. rw point' (previous (ground arith))),
      )

  revocation-Recorded :
      (n : ℕ) (secret : Secret)
      → n + 3 < u64_mod
      → Recorded (validate_counterparty_revocation w s n secret).1
  revocation-Recorded n secret small =
      let s' : EnforcementState = (validate_counterparty_revocation w s n secret).1 in
      let (secrets, after) = revocation_after w s n secret in
      elim after [
        | inl kept ↦
            same-Recorded s s' (ground arith, ground arith, ground arith, ground arith) recorded
        | inr set ↦
            set_revoke-Recorded (record s { counterparty_secrets = secrets }) s' n
              (refl, refl, refl, refl) small set
      ]

swap-Recorded :
    (s : EnforcementState) (outpoint : OutPoint) (push : ℕ)
    → Recorded s
    → Recorded (snapshot_funding_for_splice s outpoint push)
unfolding snapshot_funding_for_splice
swap-Recorded s outpoint push recorded = recorded

lock-Recorded :
    (s : EnforcementState) (setup : ChannelSetup) (was_splice : Bool)
    → Recorded s
    → Recorded (lock_state setup was_splice s)
unfolding lock_state retire_prev_funding
lock-Recorded s setup true recorded = recorded
lock-Recorded s setup false recorded = recorded

shut-Recorded :
    (s s' : EnforcementState) → s' ≡ record s { channel_closed = true } → Recorded s → Recorded s'
shut-Recorded s s' shut recorded =
    same-Recorded s s' (ground arith, ground arith, ground arith, ground arith) recorded

Step-Recorded :
    (w : World) {s s' : EnforcementState}
    → IsStrict w
    → InRange s
    → Step w s s'
    → Recorded s
    → Recorded s'
Step-Recorded w {s} {s'} strict word (validated outpoint n info sigs small e) recorded =
    same-Recorded s s' (phase2_remote w s outpoint n info sigs e) recorded
Step-Recorded w {s} {s'} strict word (revoked n) recorded =
    same-Recorded s s' (revoke_remote w s n) recorded
Step-Recorded w {s} {s'} strict word (activated e) recorded =
    same-Recorded s s' (activate_remote w s e) recorded
Step-Recorded w {s} {s'} strict word (closed n sig e) recorded =
    shut-Recorded s s' (close_ok w s n sig e) recorded
Step-Recorded w {s} {s'} strict word (signed outpoint point n info sig small e) recorded =
    signed-Recorded w strict s recorded word outpoint point n info sig small e
Step-Recorded w {s} {s'} strict word (counterparty_revoked n secret small) recorded =
    revocation-Recorded w strict s recorded word n secret small
Step-Recorded w {s} {s'} strict word (swapped outpoint push) recorded =
    swap-Recorded s outpoint push recorded
Step-Recorded w {s} {s'} strict word (locked setup was_splice) recorded =
    lock-Recorded s setup was_splice recorded
Step-Recorded w {s} {s'} strict word (mutually_closed wallet closings sign tx opaths sig e)
      recorded =
    let (_, _, _, shut) =
      mutual_close_ok w.simple wallet closings sign w.eras.setup s tx opaths sig e in
    shut-Recorded s s' shut recorded
Step-Recorded w {s} {s'} strict word (mutually_closed_phase2 wallet closings sign args sig e)
      recorded =
    let (_, _, shut) =
      mutual_close_phase2_ok w.simple wallet closings sign w.eras.setup s args sig e in
    shut-Recorded s s' shut recorded

-- Under filters that demote nothing and with no number near the end of its machine word: in every
-- run of the operations of `Step` from a new channel the counterparty has at most two commitments
-- that are not revoked, and at least one after the first, and the points that its next
-- revocations are checked against are on record.
pub Run-Recorded : (value : ℕ) (s : EnforcementState) → Run IsStrict (new value) s → Recorded s
unfolding new
Run-Recorded value s start =
    (inl (refl, refl), (λ h. absurd (ground arith)), (λ h. absurd (ground arith)))
Run-Recorded value s (next {s'} {s''} w run strict word step) =
    Step-Recorded w strict word step (Run-Recorded value s' run)
