-- ===== src/Node/Apply.antt =====
-- `apply_payments` of `NodeState`, and the fulfilment of an HTLC: vls-core/src/node.rs. The hash of a
-- preimage is an argument.
use validating_lightning_sig.Common.{
  ℕ, ◌/◌, Bool, true, false, not, ◌&&◌, Option, none, some, List, [], ◌∷◌, leb, ◌==◌, if◌then◌else◌,
  min, max, u64_add, checked_add, checked_sub, ok, ◌>>=◌, unwrap, replicate,
}
use validating_lightning_sig.Policy.{Validated}
use validating_lightning_sig.Channel.{HtlcInfo2, CommitmentInfo2}
use validating_lightning_sig.Validator.{SimplePolicy}
use validating_lightning_sig.Node.{
  NodeState, RoutedPayment, PaymentState, lookup, assign, incoming_outgoing, apply, is_fulfilled,
  new,
}
use validating_lightning_sig.Node.Payments.{Change, incoming_for, outgoing_for, totals, is_some}

-- `payments.entry(hash).or_insert_with(RoutedPayment::new)`
unfoldable pub ensure : List (ℕ × RoutedPayment) → ℕ → List (ℕ × RoutedPayment)
unfolding lookup assign new
ensure payments hash = elim (lookup hash payments) [
  | none ↦ assign hash new payments
  | some p ↦ payments
]

unfoldable pub ensure_all : List (ℕ × RoutedPayment) → List ℕ → List (ℕ × RoutedPayment)
unfolding ensure
ensure_all payments [] = payments
ensure_all payments (hash ∷ hashes) = ensure_all (ensure payments hash) hashes

-- The smallest expiry of the HTLCs with the hash, and the greatest.
unfoldable pub min_cltv : ℕ → List HtlcInfo2 → Option ℕ
min_cltv hash [] = none
min_cltv hash (h ∷ hs) =
    let rest = min_cltv hash hs in
    if h.payment_hash == hash
    then some (elim rest [ none ↦ h.cltv_expiry | some m ↦ min h.cltv_expiry m ])
    else rest

unfoldable pub max_cltv : ℕ → List HtlcInfo2 → Option ℕ
max_cltv hash [] = none
max_cltv hash (h ∷ hs) =
    let rest = max_cltv hash hs in
    if h.payment_hash == hash
    then some (elim rest [ none ↦ h.cltv_expiry | some m ↦ max h.cltv_expiry m ])
    else rest

unfoldable pub cltvs : Option CommitmentInfo2 → ℕ → Option ℕ × Option ℕ
unfolding min_cltv max_cltv
cltvs none hash = (none, none)
cltvs (some info) hash =
    if info.is_counterparty_broadcaster
    then (min_cltv hash info.offered_htlcs, max_cltv hash info.received_htlcs)
    else (min_cltv hash info.received_htlcs, max_cltv hash info.offered_htlcs)

-- The loop that records the amounts; every payment is there.
unfoldable pub apply_all :
    Change
    → Option CommitmentInfo2
    → List ℕ
    → List (ℕ × RoutedPayment)
    → Validated (List (ℕ × RoutedPayment))
apply_all c info [] payments = ok payments
apply_all c info (hash ∷ hashes) payments = unwrap (lookup hash payments) >>= λ p.
    let bounds = cltvs info hash in
    apply_all c info hashes (
      assign hash
        (apply p c.channel_id (incoming_for c hash) (outgoing_for c hash) bounds.0 bounds.1)
        payments)

-- An issued invoice is paid where the totals to be cover its amount.
unfoldable pub fulfils : NodeState → Change → ℕ → Bool
unfolding lookup is_fulfilled totals
fulfils self c hash = elim (lookup hash self.issued_invoices) [
  | none ↦ false
  | some issued ↦ elim (lookup hash self.payments) [
    | none ↦ false
    | some p ↦
        let sums = totals c (some p) hash in
        not (is_fulfilled p) && leb (u64_add sums.1 (issued.amount_msat / 1000)) sums.0
  ]
]

unfoldable pub mark_issued : List (ℕ × PaymentState) → ℕ → List (ℕ × PaymentState)
unfolding lookup assign
mark_issued issued hash = elim (lookup hash issued) [
  | none ↦ issued
  | some i ↦ assign hash (record i { is_fulfilled = true }) issued
]

unfoldable pub mark_payment : List (ℕ × RoutedPayment) → ℕ → List (ℕ × RoutedPayment)
unfolding lookup assign
mark_payment payments hash = elim (lookup hash payments) [
  | none ↦ payments
  | some p ↦ assign hash (record p { preimage = some (replicate 32 0) }) payments
]

unfoldable pub keep_if : (ℕ → Bool) → List ℕ → List ℕ
keep_if test [] = []
keep_if test (x ∷ xs) = let rest = keep_if test xs in if test x then x ∷ rest else rest

unfoldable pub mark_all {ℓ} : {A : Type ℓ} → (A → ℕ → A) → A → List ℕ → A
mark_all f a [] = a
mark_all f a (hash ∷ hashes) = mark_all f (f a hash) hashes

-- The excess and the payments after the fulfilled ones have their dummy preimage.
unfoldable pub settle_excess : Bool → NodeState → Change → List ℕ → Validated NodeState
unfolding mark_all mark_payment
settle_excess false self c fulfilled = ok self
settle_excess true self c fulfilled =
    unwrap (checked_add self.excess_amount c.delta_plus) >>= λ grown.
    unwrap (checked_sub grown c.delta_minus) >>= λ left.
    ok (record self {
      excess_amount = left;
      payments = mark_all mark_payment self.payments fulfilled;
    })

unfoldable pub apply_payments :
    SimplePolicy → NodeState → Change → Option CommitmentInfo2 → Validated NodeState
unfolding ensure_all keep_if fulfils mark_all mark_issued settle_excess apply_all
apply_payments policy self c info = do
  let created = record self { payments = ensure_all self.payments c.hashes }
  let fulfilled = keep_if (fulfils created c) c.hashes
  let marked = record created {
    issued_invoices = mark_all mark_issued created.issued_invoices fulfilled;
  }
  settled ← settle_excess policy.enforce_balance marked c fulfilled
  payments ← apply_all c info c.hashes settled.payments
  ok (record settled { payments = payments })

-- The preimage of a payment without an invoice moves its balance to the excess.
unfoldable pub fulfilled_excess : Bool → ℕ → ℕ × ℕ → Validated ℕ
fulfilled_excess false excess sums = ok excess
fulfilled_excess true excess sums =
    unwrap (checked_add excess sums.0) >>= λ grown. unwrap (checked_sub grown sums.1)

unfoldable pub fulfil_payment :
    SimplePolicy → NodeState → ℕ → List ℕ → RoutedPayment → Validated (Bool × NodeState)
unfolding incoming_outgoing lookup assign fulfilled_excess
fulfil_payment policy self hash preimage p =
    fulfilled_excess (policy.enforce_balance && not (is_some (lookup hash self.invoices)))
      self.excess_amount (incoming_outgoing p)
    >>= λ excess. ok (
      true,
      record self {
        excess_amount = excess;
        payments = assign hash (record p { preimage = some preimage }) self.payments;
      },
    )

unfoldable pub is_news : Option PaymentState → Bool
is_news none = false
is_news (some i) = not i.is_fulfilled

-- Whether anything was fulfilled, and the state.
unfoldable pub htlc_fulfilled : SimplePolicy → NodeState → ℕ → List ℕ → Validated (Bool × NodeState)
unfolding lookup mark_issued is_fulfilled fulfil_payment is_news
htlc_fulfilled policy self hash preimage =
    let issued = record self { issued_invoices = mark_issued self.issued_invoices hash } in
    let unchanged = ok (is_news (lookup hash self.issued_invoices), issued) in
    elim (lookup hash self.payments) [
      | none ↦ unchanged
      | some p ↦ if is_fulfilled p then unchanged else fulfil_payment policy issued hash preimage p
    ]
