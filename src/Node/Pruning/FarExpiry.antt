-- ===== src/Node/Pruning/FarExpiry.antt =====
-- An invoice that expires too late for its pruning time to exist.
use validating_lightning_sig.Common.{
  ℕ, ◌+◌, ◌/◌, ◌≤◌, ◌≡◌, refl, Bool, true, false, Option, none, some, List, [], ◌∷◌, arith, ◌==◌,
  Option-cases, Bool-cases, inl, inr, ok, err, panic,
}
use validating_lightning_sig.Policy.{Validated}
use validating_lightning_sig.Validator.{SimplePolicy}
use validating_lightning_sig.Velocity.{VelocityControl, insert}
use validating_lightning_sig.Protocol.{Answer}
use validating_lightning_sig.Node.{NodeState, RoutedPayment, PaymentState, lookup}
use validating_lightning_sig.Node.Recorded.{lookup-assign}
use validating_lightning_sig.Node.Invoices.{
  Invoice, secs, duration_end, prune_time, enter, add_payment, add_invoice, after_validation,
  validate_invoice, payment_state_from_invoice,
}
use validating_lightning_sig.Node.Pruning.{
  prune_at, is_invoice_prunable, prunable, prune_invoices, prune_all,
}

prunable-panics :
    (now : ℕ) (payments : List (ℕ × RoutedPayment)) (invoices : List (ℕ × PaymentState)) (hash : ℕ)
    (state : PaymentState)
    → lookup hash invoices ≡ some state
    → prune_at state ≡ none
    → prunable now payments invoices ≡ none
unfolding prunable is_invoice_prunable lookup
prunable-panics now payments [] hash state there overflows = absurd (ground arith)
prunable-panics now payments ((k, v) ∷ m) hash state there overflows =
    elim (Option-cases (lookup k payments)) [
      | inl gone ↦ rw gone refl
      | inr (p, held) ↦ elim (Bool-cases (k == hash)) [
        | inl same ↦ ground arith
        | inr other ↦ elim (Option-cases (prune_at v)) [
          | inl early ↦ ground arith
          | inr (limit, at) ↦
              ground (arith, prunable-panics now payments m hash state (ground arith) overflows)
        ]
      ]
    ]

enter-holds :
    (s s' : NodeState) (hash : ℕ) (added : PaymentState) (granted : Option (Bool × VelocityControl))
    → enter s hash added granted ≡ (ok true, s')
    → lookup hash s'.invoices ≡ some added
unfolding enter
enter-holds s s' hash added none e = absurd (ground arith)
enter-holds s s' hash added (some (false, control)) e = absurd (ground arith)
enter-holds s s' hash added (some (true, control)) e =
    ground (arith, lookup-assign hash added s.invoices hash)

validated-holds :
    (answer : Validated (Unit {0})) (s s' : NodeState) (done : Answer Bool × NodeState)
    → after_validation answer s done ≡ (ok true, s')
    → done ≡ (ok true, s')
validated-holds (ok nothing) s s' done e = e
validated-holds (err x) s s' done e = absurd (ground arith)
validated-holds panic s s' done e = absurd (ground arith)

-- A new invoice that is added though it expires less than the day of the pruning time before the
-- end of what a duration can hold makes the pruning of every later heartbeat panic.
pub far_expiry_panics :
    (policy : SimplePolicy) (s : NodeState) (now : ℕ) (inv : Invoice) {s' : NodeState}
    → lookup inv.payment_hash s.invoices ≡ none
    → add_invoice policy s now inv ≡ (ok true, s')
    → duration_end ≤ inv.duration_since_epoch + inv.expiry_duration + secs 86_400
    → (later : ℕ) → prune_all s' later ≡ none
unfolding add_invoice add_payment payment_state_from_invoice prune_all prune_invoices
far_expiry_panics policy s now inv {s'} fresh added far later =
    let state = payment_state_from_invoice inv in
    let entered =
      validated-holds (validate_invoice policy.filter inv now) s s'
        (add_payment policy.max_invoices s now inv.payment_hash state) added in
    let granted = insert s.velocity_control (now / 1_000_000_000) inv.amount_milli_satoshis in
    let room : enter s inv.payment_hash state granted ≡ (ok true, s') = ground arith in
    let held : lookup inv.payment_hash s'.invoices ≡ some state =
      enter-holds s s' inv.payment_hash state granted room in
    let overflows : prune_at state ≡ none = unfold prune_at prune_time in ground arith in
    rw (prunable-panics later s'.payments s'.invoices inv.payment_hash state held overflows) refl
