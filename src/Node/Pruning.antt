-- ===== src/Node/Pruning.antt =====
-- The pruning of a node's invoices and payments, which `get_heartbeat` of vls-core/src/node.rs does
-- first: `prune_invoices`, `prune_issued_invoices` and `prune_forwarded_payments`. A missing payment
-- of an invoice and a time that overflows are panics.
pub mod Tracked
pub mod Returns
pub mod Restarted
pub mod Run
pub mod FarExpiry
mod Tests
use validating_lightning_sig.Common.{
  ℕ, Bool, true, false, not, ◌&&◌, ◌||◌, Option, none, some, List, [], ◌∷◌, ltb, ◌==◌,
  if◌then◌else◌, any, all,
}
use validating_lightning_sig.Common.Panics.{◌>>=◌}
use validating_lightning_sig.Node.{
  NodeState, RoutedPayment, PaymentState, lookup, is_fulfilled, is_no_incoming, is_no_outgoing,
}
use validating_lightning_sig.Node.Invoices.{duration_add, prune_time}

-- `duration_since_epoch + expiry_duration + prune_time`
unfoldable pub prune_at : PaymentState → Option ℕ
unfolding prune_time
prune_at state = duration_add state.duration_since_epoch state.expiry_duration >>= λ expiry.
    duration_add expiry (prune_time state)

unfoldable pub is_invoice_prunable : ℕ → PaymentState → RoutedPayment → Option Bool
unfolding prune_at is_fulfilled is_no_outgoing
is_invoice_prunable now state payment = prune_at state >>= λ limit.
    some (ltb limit now && (is_fulfilled payment || is_no_outgoing payment))

-- The hashes of the prunable invoices.
unfoldable pub prunable : ℕ → List (ℕ × RoutedPayment) → List (ℕ × PaymentState) → Option (List ℕ)
unfolding lookup is_invoice_prunable
prunable now payments [] = some []
prunable now payments ((hash, state) ∷ invoices) = lookup hash payments >>= λ payment.
    is_invoice_prunable now state payment >>= λ prune.
    prunable now payments invoices >>= λ hashes. some (if prune then hash ∷ hashes else hashes)

-- `map.retain(|k, _| keep(k))`
unfoldable pub retain : {V : Type 0} → (ℕ → V → Bool) → List (ℕ × V) → List (ℕ × V)
retain keep [] = []
retain keep ((k, v) ∷ m) = let rest = retain keep m in if keep k v then (k, v) ∷ rest else rest

abbrev pub contains : List ℕ → ℕ → Bool
contains hashes hash = any (λ h. h == hash) hashes

-- Whether anything was pruned, and the state.
unfoldable pub prune_invoices : NodeState → ℕ → Option (Bool × NodeState)
unfolding prunable retain
prune_invoices self now = prunable now self.payments self.invoices >>= λ prune. some (
  any (λ entry. contains prune entry.0) self.invoices
      || any (λ entry. contains prune entry.0) self.payments,
  record self {
    invoices = retain (λ hash state. not (contains prune hash)) self.invoices;
    payments = retain (λ hash payment. not (contains prune hash)) self.payments;
  },
)

unfoldable pub retain_issued : ℕ → List (ℕ × PaymentState) → Option (Bool × List (ℕ × PaymentState))
unfolding prune_at
retain_issued now [] = some (false, [])
retain_issued now ((hash, issued) ∷ rest) = prune_at issued >>= λ limit.
    retain_issued now rest >>= λ kept.
    some (if ltb now limit then (kept.0, (hash, issued) ∷ kept.1) else (true, kept.1))

unfoldable pub prune_issued_invoices : NodeState → ℕ → Option (Bool × NodeState)
unfolding retain_issued
prune_issued_invoices self now = retain_issued now self.issued_invoices >>= λ kept.
    some (kept.0, record self { issued_invoices = kept.1 })

abbrev pub missing {ℓ} : {A : Type ℓ} → Option A → Bool
missing none = true
missing (some a) = false

unfoldable pub is_forwarded_payment_prunable : NodeState → ℕ → RoutedPayment → Bool
unfolding lookup is_no_incoming is_no_outgoing
is_forwarded_payment_prunable self hash payment =
    missing (lookup hash self.invoices)
    && missing (lookup hash self.issued_invoices)
    && is_no_incoming payment
    && is_no_outgoing payment

unfoldable pub prune_forwarded_payments : NodeState → Bool × NodeState
unfolding retain is_forwarded_payment_prunable
prune_forwarded_payments self = (
  any (λ entry. is_forwarded_payment_prunable self entry.0 entry.1) self.payments,
  record self {
    payments =
        retain (λ hash payment. not (is_forwarded_payment_prunable self hash payment))
          self.payments;
  },
)

-- The part of `get_heartbeat` that changes the node's state.
unfoldable pub prune_all : NodeState → ℕ → Option NodeState
unfolding prune_invoices prune_issued_invoices prune_forwarded_payments
prune_all self now = prune_invoices self now >>= λ pruned₁.
    prune_issued_invoices pruned₁.1 now >>= λ pruned₂. some (prune_forwarded_payments pruned₂.1).1
