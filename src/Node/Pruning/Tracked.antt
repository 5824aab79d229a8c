-- ===== src/Node/Pruning/Tracked.antt =====
-- What the pruning needs to return: a payment for every invoice, and times that a duration can hold.
use validating_lightning_sig.Common.{
  ℕ, ◌+◌, ◌<◌, ◌≡◌, refl, Bool, true, false, not, ◌&&◌, ◌||◌, none, some, List, [], ◌∷◌, arith, ltb,
  ◌==◌, if◌then◌else◌, Option-cases, Bool-cases, inl, inr,
}
use validating_lightning_sig.Validator.Commitment.Limits.{All}
use validating_lightning_sig.Node.{
  NodeState, RoutedPayment, PaymentState, lookup, is_fulfilled, is_no_outgoing,
}
use validating_lightning_sig.Node.Invoices.{duration_end, prune_time}
use validating_lightning_sig.Node.Pruning.{
  prune_at, is_invoice_prunable, prunable, retain, contains, retain_issued, missing,
}

-- Every key of the one map is a key of the other.
abbrev pub Covers : List (ℕ × RoutedPayment) → List (ℕ × PaymentState) → Type 0
Covers payments invoices =
    (hash : ℕ) → missing (lookup hash invoices) ≡ false → missing (lookup hash payments) ≡ false

-- The time at which a payment can be pruned exists.
abbrev pub IsTimely : ℕ × PaymentState → Type 0
IsTimely (hash, state) =
    state.duration_since_epoch + state.expiry_duration + prune_time state < duration_end

pub record IsTracked (s : NodeState) : Type 0 where
  pub covered : Covers s.payments s.invoices
  pub timely : All IsTimely s.invoices
  pub issued_timely : All IsTimely s.issued_invoices

pub prune_at-IsTimely :
    (hash : ℕ) (state : PaymentState)
    → IsTimely (hash, state)
    → (limit : ℕ) × (prune_at state ≡ some limit)
unfolding prune_at
prune_at-IsTimely hash state timely =
    (state.duration_since_epoch + state.expiry_duration + prune_time state, ground arith)

Covers-tail :
    (payments : List (ℕ × RoutedPayment)) (k : ℕ) (state : PaymentState)
    (m : List (ℕ × PaymentState))
    → Covers payments ((k, state) ∷ m)
    → Covers payments m
unfolding lookup
Covers-tail payments k state m covered hash there = covered hash (ground arith)

pub prunable-returns :
    (now : ℕ) (payments : List (ℕ × RoutedPayment)) (invoices : List (ℕ × PaymentState))
    → Covers payments invoices
    → All IsTimely invoices
    → (hashes : List ℕ) × (prunable now payments invoices ≡ some hashes)
unfolding prunable is_invoice_prunable
prunable-returns now payments [] covered timely = ([], refl)
prunable-returns now payments ((k, state) ∷ m) covered (soon, timely) =
    let (limit, at) = prune_at-IsTimely k state soon in
    let (rest, found) =
      prunable-returns now payments m (Covers-tail payments k state m covered) timely in
    let here : missing (lookup k payments) ≡ false = covered k (unfold lookup in ground arith) in
    elim (Option-cases (lookup k payments)) [
      | inl gone ↦ absurd (ground arith)
      | inr (payment, there) ↦ (
        (if ltb limit now && (is_fulfilled payment || is_no_outgoing payment)
            then k ∷ rest
            else rest),
        ground (arith, found, at, there),
      )
    ]

pub lookup-retain_keys :
    {V : Type 0} (prune : List ℕ) (m : List (ℕ × V)) (k : ℕ)
    → lookup k (retain (λ hash v. not (contains prune hash)) m)
      ≡ (if contains prune k then none else lookup k m)
unfolding lookup retain
lookup-retain_keys prune [] k = ground arith
lookup-retain_keys prune ((j, v) ∷ m) k =
    let ih = lookup-retain_keys prune m k in
    elim (Bool-cases (j == k)) [
      | inl same ↦ let key : j ≡ k = ground arith in rw key (ground (arith, ih))
      | inr other ↦ ground (arith, ih)
    ]

pub lookup-retain :
    {V : Type 0} (keep : ℕ → V → Bool) (m : List (ℕ × V)) (k : ℕ)
    → ((v : V) → keep k v ≡ true)
    → lookup k (retain keep m) ≡ lookup k m
unfolding lookup retain
lookup-retain keep [] k kept = refl
lookup-retain keep ((j, v) ∷ m) k kept =
    let ih = lookup-retain keep m k kept in
    elim (Bool-cases (j == k)) [
      | inl same ↦
          let key : j ≡ k = ground arith in
          let stays : keep j v ≡ true = rw key (kept v) in ground (arith, ih, stays)
      | inr other ↦ ground (arith, ih)
    ]

pub All-retain :
    (keep : ℕ → PaymentState → Bool) (m : List (ℕ × PaymentState))
    → All IsTimely m
    → All IsTimely (retain keep m)
unfolding retain
All-retain keep [] timely = tt
All-retain keep ((k, v) ∷ m) (soon, timely) = elim (Bool-cases (keep k v)) [
  | inl stays ↦ rw stays (soon, All-retain keep m timely)
  | inr goes ↦ rw goes (All-retain keep m timely)
]

pub retain_issued-returns :
    (now : ℕ) (m : List (ℕ × PaymentState))
    → All IsTimely m
    → (kept : Bool × List (ℕ × PaymentState)) × (retain_issued now m ≡ some kept)
      × All IsTimely kept.1
unfolding retain_issued
retain_issued-returns now [] timely = ((false, []), refl, tt)
retain_issued-returns now ((k, state) ∷ m) (soon, timely) =
    let (limit, at) = prune_at-IsTimely k state soon in
    let (kept, found, still) = retain_issued-returns now m timely in
    elim (Bool-cases (ltb now limit)) [
      | inl stays ↦ ((kept.0, (k, state) ∷ kept.1), ground (arith, at, found), (soon, still))
      | inr goes ↦ ((true, kept.1), ground (arith, at, found), still)
    ]
