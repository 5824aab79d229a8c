-- ===== src/Node/Recorded.antt =====
-- What the last loop of `apply_payments` of vls-core/src/node.rs records.
use mathlib.Core.Path.{subst}
use validating_lightning_sig.Common.{
  ==_iff, ℕ, ◌+◌, ◌<◌, ◌≡◌, refl, ap, sym, ◌∙◌, inl, inr, true, false, Option, some, List, [], ◌∷◌,
  arith, ◌==◌, any, if◌then◌else◌, Bool-cases, u64_mod, ok, unwrap, >>=-eq-ok,
}
use validating_lightning_sig.Channel.{CommitmentInfo2}
use validating_lightning_sig.Node.{RoutedPayment, lookup, assign, apply, incoming_outgoing}
use validating_lightning_sig.Node.Payments.{Change, incoming_for, outgoing_for, totals}
use validating_lightning_sig.Node.Apply.{cltvs, apply_all}
use validating_lightning_sig.Node.Totals.{total, incoming_outgoing-apply}

pub lookup-assign :
    {V : Type 0} (key : ℕ) (value : V) (m : List (ℕ × V)) (k : ℕ)
    → lookup k (assign key value m) ≡ (if key == k then some value else lookup k m)
unfolding lookup assign
lookup-assign key value [] k = refl
lookup-assign key value ((j, v) ∷ m) k = ground (arith, lookup-assign key value m k)

-- No hash comes twice.
abbrev pub Distinct : List ℕ → Type 0
Distinct [] = Unit {0}
Distinct (x ∷ xs) = (any (λ h. h == x) xs ≡ false) × Distinct xs

abbrev recorded : Change → Option CommitmentInfo2 → ℕ → RoutedPayment → RoutedPayment
recorded c info hash p =
    apply p c.channel_id (incoming_for c hash) (outgoing_for c hash) (cltvs info hash).0
      (cltvs info hash).1

untouched :
    (c : Change) (info : Option CommitmentInfo2) (hashes : List ℕ)
    (ps out : List (ℕ × RoutedPayment)) (hash : ℕ)
    → apply_all c info hashes ps ≡ ok out
    → any (λ h. h == hash) hashes ≡ false
    → lookup hash out ≡ lookup hash ps
unfolding apply_all
untouched c info [] ps out hash h outside = ground arith
untouched c info (x ∷ xs) ps out hash h outside =
    let (p, e₁, e₂) = >>=-eq-ok (unwrap (lookup x ps)) _ h in
    let other : (x == hash) ≡ false = ground arith in
    untouched c info xs _ out hash e₂ (ground arith)
    ∙ lookup-assign x (recorded c info x p) ps hash
    ∙ ap (λ b. if b then some (recorded c info x p) else lookup hash ps) other

same_payment :
    (o : Option RoutedPayment) (q p : RoutedPayment) {E : Type 0}
    → unwrap {E = E} o ≡ ok q
    → o ≡ some p
    → q ≡ p
same_payment o q p h e = ground arith

applied :
    (c : Change) (info : Option CommitmentInfo2) (hashes : List ℕ)
    (ps out : List (ℕ × RoutedPayment)) (hash : ℕ) (p : RoutedPayment)
    → apply_all c info hashes ps ≡ ok out
    → Distinct hashes
    → any (λ h. h == hash) hashes ≡ true
    → lookup hash ps ≡ some p
    → lookup hash out ≡ some (recorded c info hash p)
unfolding apply_all
applied c info [] ps out hash p h d inside found = absurd (ground arith)
applied c info (x ∷ xs) ps out hash p h (once, d) inside found =
    let (q, e₁, e₂) = >>=-eq-ok (unwrap (lookup x ps)) _ h in
    let after = assign x (recorded c info x q) ps in
    let get = lookup-assign x (recorded c info x q) ps hash in
    elim (Bool-cases (x == hash)) [
      | inl same ↦
          let here = (==_iff x hash).0 same in
          let first = ap (λ b. if b then some (recorded c info x q) else lookup hash ps) same in
          let outside = subst (λ n. any (λ h. h == n) xs ≡ false) here once in
          untouched c info xs after out hash e₂ outside
          ∙ get
          ∙ first
          ∙ ap (λ n. some (recorded c info n q)) here
          ∙ ap (λ r. some (recorded c info hash r))
              (same_payment (lookup x ps) q p e₁
                (subst (λ n. lookup n ps ≡ some p) (sym here) found))
      | inr other ↦
          let skip = ap (λ b. if b then some (recorded c info x q) else lookup hash ps) other in
          applied c info xs after out hash p e₂ d (ground arith) (get ∙ skip ∙ found)
    ]

-- The last loop of apply_payments records for every payment, whose hash comes once, exactly the
-- totals that validate_payments computes for it, if they do not overflow.
pub recorded_totals :
    (c : Change) (info : Option CommitmentInfo2) (ps out : List (ℕ × RoutedPayment)) (hash : ℕ)
    (p : RoutedPayment)
    → apply_all c info c.hashes ps ≡ ok out
    → Distinct c.hashes
    → any (λ h. h == hash) c.hashes ≡ true
    → lookup hash ps ≡ some p
    → total p.incoming + incoming_for c hash < u64_mod
    → total p.outgoing + outgoing_for c hash < u64_mod
    → (p' : RoutedPayment) × (lookup hash out ≡ some p')
      × (incoming_outgoing p' ≡ totals c (some p) hash)
unfolding totals
recorded_totals c info ps out hash p h d inside found low low' = (
  recorded c info hash p,
  applied c info c.hashes ps out hash p h d inside found,
  incoming_outgoing-apply p c.channel_id (incoming_for c hash) (outgoing_for c hash) _ _ low low',
)
