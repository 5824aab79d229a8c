-- ===== src/Protocol/Run/Safety.antt =====
-- The holder's side of a run: the signature of a commitment and the release of its revocation secret
-- exclude each other, but for one order of calls.
use validating_lightning_sig.Common.{
  Bool, false, ℕ, ◌+◌, ◌≤◌, ◌<◌, ◌≡◌, refl, ◌≢◌, ◌⊎◌, inl, inr, true, none, arith, ◌==◌, ◌!=◌,
  Bool-cases, Option-cases, u64_mod, u64_add, ok, err, when, unwrap, >>=-eq-ok, >>-eq-ok,
}
use validating_lightning_sig.Policy.{policy_err}
use validating_lightning_sig.Policy.Filter.{Strict}
use validating_lightning_sig.Channel.{ChannelSetup, OutPoint, CommitmentInfo2, CommitmentSignatures}
use validating_lightning_sig.Channel.Secrets.{Secret}
use validating_lightning_sig.Channel.Enforcement.{
  EnforcementState, snapshot_funding_for_splice, retire_prev_funding,
  get_current_holder_commitment_info,
}
use validating_lightning_sig.Validator.Commitment.Limits.{refusal}
use validating_lightning_sig.Protocol.{
  World, failed_precondition, status, get_per_commitment_secret,
}
use validating_lightning_sig.Protocol.Close.{
  latest_number, sign_holder_commitment_tx_phase2, get_holder_commitment_for_close,
  current_for_close,
}
use validating_lightning_sig.Protocol.Run.{
  InRange, Step, Run, validated, revoked, activated, closed, signed, counterparty_revoked, swapped,
  locked, mutually_closed, mutually_closed_phase2, start, next,
}
use validating_lightning_sig.Protocol.Run.Moves.{
  Moves, status-eq-ok, phase2-Moves, revoke-Moves, activate-Moves, close-Moves, close_ok,
}
use validating_lightning_sig.Protocol.Splice.{lock_state}
use validating_lightning_sig.Protocol.Signing.Closed.{mutual_close_ok, mutual_close_phase2_ok}
use validating_lightning_sig.Protocol.Run.Remote.{signed-Moves, revocation-Moves}

-- A world whose policy filter demotes nothing.
abbrev pub IsStrict : World → Type 0
IsStrict w = Strict w.simple.filter

swap-Moves :
    (s : EnforcementState) (outpoint : OutPoint) (push : ℕ)
    → Moves s (snapshot_funding_for_splice s outpoint push)
unfolding snapshot_funding_for_splice
swap-Moves s outpoint push = ((λ c. c), inl (refl, (λ c u. refl)))

lock-Moves :
    (s : EnforcementState) (setup : ChannelSetup) (was_splice : Bool)
    → Moves s (lock_state setup was_splice s)
unfolding lock_state retire_prev_funding
lock-Moves s setup true = ((λ c. c), inl (refl, (λ c u. u)))
lock-Moves s setup false = ((λ c. c), inl (refl, (λ c u. u)))

shut-Moves : (s s' : EnforcementState) → s' ≡ record s { channel_closed = true } → Moves s s'
shut-Moves s s' shut = rw shut ((λ c. refl), inl (refl, (λ c u. u)))

Step-Moves :
    (w : World) {s s' : EnforcementState} → IsStrict w → InRange s → Step w s s' → Moves s s'
Step-Moves w {s} {s'} strict word (validated outpoint n info sigs small e) =
    phase2-Moves w s outpoint n info sigs strict small e
Step-Moves w {s} {s'} strict word (revoked n) = revoke-Moves w s n word.0
Step-Moves w {s} {s'} strict word (activated e) = activate-Moves w s e
Step-Moves w {s} {s'} strict word (closed n sig e) = close-Moves w s n sig e
Step-Moves w {s} {s'} strict word (signed outpoint point n info sig small e) =
    signed-Moves w s outpoint point n info sig e
Step-Moves w {s} {s'} strict word (counterparty_revoked n secret small) =
    revocation-Moves w s n secret
Step-Moves w {s} {s'} strict word (swapped outpoint push) = swap-Moves s outpoint push
Step-Moves w {s} {s'} strict word (locked setup was_splice) = lock-Moves s setup was_splice
Step-Moves w {s} {s'} strict word (mutually_closed wallet closings sign tx opaths sig e) =
    let (_, _, _, shut) =
      mutual_close_ok w.simple wallet closings sign w.eras.setup s tx opaths sig e in
    shut-Moves s s' shut
Step-Moves w {s} {s'} strict word (mutually_closed_phase2 wallet closings sign args sig e) =
    let (_, _, shut) =
      mutual_close_phase2_ok w.simple wallet closings sign w.eras.setup s args sig e in
    shut-Moves s s' shut

Run-grows :
    {s s' : EnforcementState}
    → Run IsStrict s s'
    → s.next_holder_commit_num ≤ s'.next_holder_commit_num
Run-grows start = ground arith
Run-grows (next w run strict word step) =
    let before = Run-grows run in let (c, m) = Step-Moves w strict word step in ground arith

module _ (w : World) (strict : IsStrict w) (s : EnforcementState) (n : ℕ)
    (word : n + 2 < u64_mod) where
  secret_ok :
      {x : Secret} → get_per_commitment_secret w s n ≡ ok x → n + 2 ≤ s.next_holder_commit_num
  unfolding get_per_commitment_secret
  secret_ok e =
      let refused = refusal w.simple strict "policy-revoke-new-commitment-signed" in
      ground (arith, refused)

  secret_refused :
      s.next_holder_commit_num < n + 2 → get_per_commitment_secret w s n ≡ err failed_precondition
  unfolding get_per_commitment_secret
  secret_refused low =
      let refused = refusal w.simple strict "policy-revoke-new-commitment-signed" in
      ground (arith, refused)

  current_ok :
      {p : CommitmentInfo2 × CommitmentSignatures}
      → current_for_close w s n ≡ ok p
      → n + 1 ≡ s.next_holder_commit_num
  unfolding current_for_close get_current_holder_commitment_info
  current_ok e =
      let refused = refusal w.simple strict "policy-other" in
      let (info, got, _) =
        >>=-eq-ok (status (get_current_holder_commitment_info w.simple.filter s n)) _ e in
      let (same, _) =
        >>-eq-ok
          (when (u64_add n 1 != s.next_holder_commit_num)
            (policy_err w.simple.filter "policy-other"))
          (unwrap s.current_holder_commit_info)
          (status-eq-ok (get_current_holder_commitment_info w.simple.filter s n) got) in
      ground (arith, refused)

  close_number :
      {sig : ℕ} {s' : EnforcementState}
      → sign_holder_commitment_tx_phase2 w s n ≡ ok (sig, s')
      → (n ≡ s.next_holder_commit_num) ⊎ (n + 1 ≡ s.next_holder_commit_num)
  unfolding sign_holder_commitment_tx_phase2 get_holder_commitment_for_close
  close_number e =
      let (closable, got, _) = >>=-eq-ok (get_holder_commitment_for_close w s n) _ e in
      elim (Bool-cases (n == s.next_holder_commit_num)) [
        | inl pending ↦ inl (ground arith)
        | inr other ↦ inr (current_ok {p = closable} (ground arith))
      ]

-- Under filters that demote nothing and with no number near the end of its machine word: once the
-- revocation secret of a holder commitment has been handed out, no run of the operations of
-- `Step` brings the signer to sign that commitment for a close.
pub never_signed_after_release :
    (w : World) (s : EnforcementState) (n : ℕ) (x : Secret)
    → IsStrict w
    → n + 2 < u64_mod
    → get_per_commitment_secret w s n ≡ ok x
    → (s' : EnforcementState) → Run IsStrict s s'
    → (w' : World) (s'' : EnforcementState) (sig : ℕ) → IsStrict w'
    → sign_holder_commitment_tx_phase2 w' s' n ≢ ok (sig, s'')
never_signed_after_release w s n x strict word released s' run w' s'' sig strict' e =
    let low = secret_ok w strict s n word released in
    let grown = Run-grows run in
    elim (close_number w' strict' s' n word e) [
      | inl pending ↦ ground arith
      | inr current ↦ ground arith
    ]

-- A signed commitment stays the last: it is the next one and pending, or the current one and none is
-- pending.
abbrev Sealed : EnforcementState → ℕ → Type 0
Sealed s n =
    (s.channel_closed ≡ true)
    × ((n ≡ s.next_holder_commit_num)
        ⊎ ((n + 1 ≡ s.next_holder_commit_num) × (s.next_holder_commit_info ≡ none)))

Sealed-Moves : (s s' : EnforcementState) (n : ℕ) → Moves s s' → Sealed s n → Sealed s' n
Sealed-Moves s s' n (c, inl (same, kept)) (shut, inl pending) = (c shut, inl (ground arith))
Sealed-Moves s s' n (c, inl (same, kept)) (shut, inr (current, unset)) =
    (c shut, inr (ground arith, kept shut unset))
Sealed-Moves s s' n (c, inr (up, used, had)) (shut, inl pending) =
    (c shut, inr (ground arith, used))
Sealed-Moves s s' n (c, inr (up, used, had)) (shut, inr (current, unset)) = absurd (ground arith)

Sealed-Run : {s s' : EnforcementState} {n : ℕ} → Run IsStrict s s' → Sealed s n → Sealed s' n
Sealed-Run start sealed = sealed
Sealed-Run {n = n} (next {s'} {s''} w run strict word step) sealed =
    Sealed-Moves s' s'' n (Step-Moves w strict word step) (Sealed-Run run sealed)

Sealed-latest :
    (s : EnforcementState) (n : ℕ)
    → latest_number s ≡ ok n
    → Sealed (record s { channel_closed = true }) n
unfolding latest_number
Sealed-latest s n e = elim (Option-cases s.next_holder_commit_info) [
  | inl unset ↦ (refl, inr (ground arith, unset))
  | inr (pending, have) ↦ (refl, inl (ground arith))
]

-- Under filters that demote nothing and with no number near the end of its machine word: once the
-- latest holder commitment has been signed for a close, no run of the operations of `Step` brings
-- the signer to hand out the revocation secret of that commitment.
pub never_released_after_close :
    (w : World) (s s₁ s₂ : EnforcementState) (n sig : ℕ)
    → latest_number s ≡ ok n
    → sign_holder_commitment_tx_phase2 w s n ≡ ok (sig, s₁)
    → Run IsStrict s₁ s₂
    → n + 2 < u64_mod
    → (w' : World) → IsStrict w'
    → get_per_commitment_secret w' s₂ n ≡ err failed_precondition
never_released_after_close w s s₁ s₂ n sig latest e run word w' strict =
    let sealed : Sealed s₁ n = rw (close_ok w s n sig e) (Sealed-latest s n latest) in
    let (shut, last) = Sealed-Run run sealed in
    secret_refused w' strict s₂ n word
      (elim last [ inl pending ↦ ground arith | inr (current, unset) ↦ ground arith ])
