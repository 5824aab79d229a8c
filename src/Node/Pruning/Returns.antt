-- ===== src/Node/Pruning/Returns.antt =====
-- The invariant that pruning needs, through every operation on the invoices.
use validating_lightning_sig.Common.{ℕ, ◌≡◌, refl, true, false, not, some, List, arith}
use validating_lightning_sig.Node.{NodeState, RoutedPayment, PaymentState, lookup}
use validating_lightning_sig.Node.Pruning.{
  retain, contains, prune_invoices, prune_issued_invoices, missing, is_forwarded_payment_prunable,
  prune_forwarded_payments, prune_all,
}
use validating_lightning_sig.Node.Pruning.Tracked.{
  Covers, IsTracked, prunable-returns, lookup-retain_keys, lookup-retain, All-retain,
  retain_issued-returns,
}

Covers-retain :
    (prune : List ℕ) (payments : List (ℕ × RoutedPayment)) (invoices : List (ℕ × PaymentState))
    → Covers payments invoices
    → Covers
        (retain (λ hash payment. not (contains prune hash)) payments)
        (retain (λ hash state. not (contains prune hash)) invoices)
Covers-retain prune payments invoices covered hash there = ground (
  arith,
  lookup-retain_keys prune payments hash,
  lookup-retain_keys prune invoices hash,
  covered hash,
)

forwarded-kept :
    (s : NodeState) (hash : ℕ) (payment : RoutedPayment)
    → missing (lookup hash s.invoices) ≡ false
    → not (is_forwarded_payment_prunable s hash payment) ≡ true
unfolding is_forwarded_payment_prunable
forwarded-kept s hash payment there = ground arith

prune_forwarded-IsTracked : (s : NodeState) → IsTracked s → IsTracked (prune_forwarded_payments s).1
unfolding prune_forwarded_payments
prune_forwarded-IsTracked s tracked = record {
  covered = λ hash there.
      let kept =
        lookup-retain (λ hash payment. not (is_forwarded_payment_prunable s hash payment))
          s.payments hash (λ payment. forwarded-kept s hash payment there) in
      ground (arith, kept, tracked.covered hash there);
  timely = tracked.timely;
  issued_timely = tracked.issued_timely;
}

-- Where every added invoice has a payment and no time overflows, the pruning of a heartbeat
-- returns, at whatever time, and leaves that so.
pub prune_all_returns :
    (s : NodeState) (now : ℕ)
    → IsTracked s
    → (s' : NodeState) × (prune_all s now ≡ some s') × IsTracked s'
unfolding prune_all prune_invoices prune_issued_invoices
prune_all_returns s now tracked =
    let (prune, found) =
      prunable-returns now s.payments s.invoices tracked.covered tracked.timely in
    let (kept, kept_issued, still) =
      retain_issued-returns now s.issued_invoices tracked.issued_timely in
    let pruned : NodeState = record s {
      invoices = retain (λ hash state. not (contains prune hash)) s.invoices;
      payments = retain (λ hash payment. not (contains prune hash)) s.payments;
      issued_invoices = kept.1;
    } in
    let whole : IsTracked pruned = record {
      covered = Covers-retain prune s.payments s.invoices tracked.covered;
      timely = All-retain (λ hash state. not (contains prune hash)) s.invoices tracked.timely;
      issued_timely = still;
    } in
    (
      (prune_forwarded_payments pruned).1,
      rw (found, kept_issued) refl,
      prune_forwarded-IsTracked pruned whole,
    )
