-- ===== src/Node/Restore.antt =====
-- A node's state written to the store and read back: `NodeStateEntry::from` of
-- vls-persist/src/model.rs, `NodeState::restore` and the payments that `Node::restore_node` makes, of
-- vls-core/src/node.rs. The hash of a preimage is a parameter; the excess is not stored.
use validating_lightning_sig.Common.{
  ℕ, ◌≡◌, refl, Bool, true, false, Option, none, some, List, [], ◌∷◌, arith, ◌==◌, if◌then◌else◌,
  Option-cases, inl, inr, not, ◌&&◌, ◌||◌, any,
}
use validating_lightning_sig.Velocity.{VelocityControl}
use validating_lightning_sig.Node.Recorded.{lookup-assign}
use validating_lightning_sig.Node.{
  NodeState, RoutedPayment, PaymentState, lookup, assign, is_fulfilled, new,
}

pub record NodeStateEntry : Type 0 where
  pub invoices : List (ℕ × PaymentState)
  pub issued_invoices : List (ℕ × PaymentState)
  pub velocity_control : VelocityControl
  pub preimages : List (List ℕ)

-- `payments.values().filter_map(|p| p.preimage)`
unfoldable pub preimages_of : List (ℕ × RoutedPayment) → List (List ℕ)
preimages_of [] = []
preimages_of ((k, p) ∷ m) =
    let rest = preimages_of m in elim p.preimage [ none ↦ rest | some preimage ↦ preimage ∷ rest ]

unfoldable pub to_entry : NodeState → NodeStateEntry
unfolding preimages_of
to_entry state = record {
  invoices = state.invoices;
  issued_invoices = state.issued_invoices;
  velocity_control = state.velocity_control;
  preimages = preimages_of state.payments;
}

abbrev pub payment_fulfilled : Option RoutedPayment → Bool
payment_fulfilled none = false
payment_fulfilled (some p) = is_fulfilled p

unfoldable pub has_preimage : NodeState → ℕ → Bool
unfolding lookup is_fulfilled
has_preimage self hash = payment_fulfilled (lookup hash self.payments)

-- `for h in state.invoices.keys() { state.payments.insert(*h, RoutedPayment::new()) }`
unfoldable pub insert_new :
    List (ℕ × PaymentState) → List (ℕ × RoutedPayment) → List (ℕ × RoutedPayment)
unfolding assign new
insert_new [] payments = payments
insert_new ((hash, state) ∷ invoices) payments = insert_new invoices (assign hash new payments)

module _ (sha256 : List ℕ → ℕ) where
  -- The preimages collected into a map.
  unfoldable pub payments_from : List (ℕ × RoutedPayment) → List (List ℕ) → List (ℕ × RoutedPayment)
  unfolding assign new
  payments_from payments [] = payments
  payments_from payments (preimage ∷ preimages) =
      payments_from (assign (sha256 preimage) (record new { preimage = some preimage }) payments)
        preimages

  unfoldable pub restore : NodeStateEntry → NodeState
  unfolding payments_from
  restore entry = record {
    invoices = entry.invoices;
    issued_invoices = entry.issued_invoices;
    payments = payments_from [] entry.preimages;
    excess_amount = 0;
    velocity_control = entry.velocity_control;
  }

  unfoldable pub restore_node : NodeStateEntry → NodeState
  unfolding restore insert_new
  restore_node entry =
      let state = restore entry in
      record state { payments = insert_new state.invoices state.payments }

-- Each key once, and a payment's preimage hashes to its key.
abbrev pub IsKeyed : (List ℕ → ℕ) → List (ℕ × RoutedPayment) → Type 0
IsKeyed sha256 [] = Unit
IsKeyed sha256 ((k, p) ∷ m) =
    (lookup k m ≡ none)
    × ((preimage : List ℕ) → p.preimage ≡ some preimage → sha256 preimage ≡ k)
    × IsKeyed sha256 m

abbrev pub is_some {ℓ} : {A : Type ℓ} → Option A → Bool
is_some none = false
is_some (some a) = true

pub lookup-insert_new :
    (invoices : List (ℕ × PaymentState)) (payments : List (ℕ × RoutedPayment)) (hash : ℕ)
    → lookup hash (insert_new invoices payments)
      ≡ (if is_some (lookup hash invoices) then some new else lookup hash payments)
unfolding insert_new lookup
lookup-insert_new [] payments hash = refl
lookup-insert_new ((h, state) ∷ invoices) payments hash = ground (
  arith,
  lookup-insert_new invoices (assign h new payments) hash,
  lookup-assign h new payments hash,
)

module _ (sha256 : List ℕ → ℕ) (hash : ℕ) where
  abbrev hashes_here : List ℕ → Bool
  hashes_here preimage = sha256 preimage == hash

  lookup-payments_from :
      (payments : List (ℕ × RoutedPayment)) (preimages : List (List ℕ))
      → payment_fulfilled (lookup hash (payments_from sha256 payments preimages))
        ≡ (any hashes_here preimages || payment_fulfilled (lookup hash payments))
  unfolding payments_from is_fulfilled
  lookup-payments_from payments [] = refl
  lookup-payments_from payments (p ∷ preimages) = ground (
    arith,
    lookup-payments_from (assign (sha256 p) (record new { preimage = some p }) payments) preimages,
    lookup-assign (sha256 p) (record new { preimage = some p }) payments hash,
  )

  any-preimages_of :
      (payments : List (ℕ × RoutedPayment))
      → IsKeyed sha256 payments
      → any hashes_here (preimages_of payments) ≡ payment_fulfilled (lookup hash payments)
  unfolding preimages_of lookup is_fulfilled
  any-preimages_of [] keyed = refl
  any-preimages_of ((k, p) ∷ m) (fresh, keyed, rest) = elim (Option-cases p.preimage) [
    | inl unknown ↦ ground (arith, any-preimages_of m rest)
    | inr (preimage, known) ↦ ground (arith, any-preimages_of m rest, keyed preimage known)
  ]

  -- Where a map has each key once and every preimage hashes to its key: after the state is
  -- stored and read back, a preimage is known exactly where it was known before and its hash is
  -- of no added invoice. That of a paid invoice is forgotten.
  pub restored_preimages :
      (s : NodeState)
      → IsKeyed sha256 s.payments
      → has_preimage (restore_node sha256 (to_entry s)) hash
        ≡ (has_preimage s hash && not (is_some (lookup hash s.invoices)))
  unfolding has_preimage restore_node restore to_entry is_fulfilled new lookup
  restored_preimages s keyed = ground (
    arith,
    lookup-insert_new s.invoices (payments_from sha256 [] (preimages_of s.payments)) hash,
    lookup-payments_from [] (preimages_of s.payments),
    any-preimages_of s.payments keyed,
  )
