-- ===== src/Node/Balanced.antt =====
-- What passes `validate_payments` of vls-core/src/node.rs.
use mathlib.Core.Path.{subst}
use validating_lightning_sig.Common.{
  ==_iff, ℕ, ◌≡◌, refl, ap, ◌∙◌, ◌⊎◌, inl, inr, Bool, true, false, not, ◌&&◌, ◌||◌, Option, none,
  List, [], ◌∷◌, arith, ◌==◌, any, Bool-cases, u64_mul, ok, err, panic, when, >>=-eq-ok, >>-eq-ok,
}
use validating_lightning_sig.Policy.{Validated, ValidationError, policy_err}
use validating_lightning_sig.Policy.Filter.{Enforced, policy_err-Enforced}
use validating_lightning_sig.Validator.{SimplePolicy}
use validating_lightning_sig.Validator.Payments.{validate_payment_balance}
use validating_lightning_sig.Node.{NodeState, lookup}
use validating_lightning_sig.Node.Payments.{
  Change, totals, invoiced_amount, is_some, validate_bounds, judge, is_unbalanced, any_unbalanced,
  validate_payments,
}

all_balanced :
    (unbalanced : Bool) (refusal : Validated (Unit {0})) {e : ValidationError}
    → refusal ≡ err e
    → when unbalanced refusal ≡ ok tt
    → unbalanced ≡ false
all_balanced true refusal r h = absurd (ground arith)
all_balanced false refusal r h = refl

module _ (policy : SimplePolicy) where
  -- The payment's totals are in balance, or it was there before and has no invoice.
  abbrev pub InBalance : NodeState → Change → ℕ → Type 0
  InBalance self c hash =
      ((is_some (lookup hash self.payments) ≡ true) × (invoiced_amount self hash ≡ none))
      ⊎ (validate_payment_balance policy
            (u64_mul (totals c (lookup hash self.payments) hash).0 1000)
            (u64_mul (totals c (lookup hash self.payments) hash).1 1000) (invoiced_amount self hash)
          ≡ ok tt)

  excused_cases :
      (a : Bool) (o : Option ℕ) → (a && not (is_some o)) ≡ true → (a ≡ true) × (o ≡ none)
  excused_cases a o h = ground arith

  judged :
      (excused : Bool) (call : Validated (Unit {0}))
      → judge policy excused call ≡ ok false
      → (excused ≡ true) ⊎ (call ≡ ok tt)
  unfolding judge
  judged excused panic h = absurd (ground arith)
  judged true (err e) h = inl refl
  judged false (err e) h = absurd (ground arith)
  judged excused (ok u) h = inr refl

  hash_balanced :
      (self : NodeState) (c : Change) (hash : ℕ)
      → is_unbalanced policy self c hash ≡ ok false
      → (validate_bounds policy (lookup hash self.payments) ≡ ok tt) × InBalance self c hash
  unfolding is_unbalanced
  hash_balanced self c hash h =
      let (e₁, e₂) = >>-eq-ok (validate_bounds policy (lookup hash self.payments)) _ h in
      (
        e₁,
        elim (judged _ _ e₂) [
          | inl excused ↦ inl (
              excused_cases (is_some (lookup hash self.payments)) (invoiced_amount self hash)
                excused)
          | inr good ↦ inr good
        ],
      )

  neither : (a b : Bool) → (a || b) ≡ false → (a ≡ false) × (b ≡ false)
  neither a b h = ground arith

  each_balanced :
      (self : NodeState) (c : Change) (hashes : List ℕ) (hash : ℕ)
      → any_unbalanced policy self c hashes ≡ ok false
      → any (λ h. h == hash) hashes ≡ true
      → is_unbalanced policy self c hash ≡ ok false
  unfolding any_unbalanced
  each_balanced self c [] hash h inside = absurd (ground arith)
  each_balanced self c (x ∷ xs) hash h inside =
      let (first, e₁, e₂) = >>=-eq-ok (is_unbalanced policy self c x) _ h in
      let (others, e₃, e₄) = >>=-eq-ok (any_unbalanced policy self c xs) _ e₂ in
      let (a, b) = neither first others (ground arith) in
      elim (Bool-cases (x == hash)) [
        | inl same ↦
            subst (λ n. is_unbalanced policy self c n ≡ ok false) ((==_iff x hash).0 same)
              (e₁ ∙ ap (λ o. ok o) a)
        | inr other ↦ each_balanced self c xs hash (e₃ ∙ ap (λ o. ok o) b) (ground arith)
      ]

  -- Where the routing balance is enforced and validate_payments passes, every payment that the
  -- commitment touches meets the check of its recorded expiries, and either its totals after
  -- the commitment meet the check of the routing balance, or it was known before and has no
  -- invoice.
  pub validated_balanced :
      (self : NodeState) (c : Change) (hash : ℕ)
      → Enforced policy.filter "policy-commitment-htlc-routing-balance"
      → validate_payments policy self c ≡ ok tt
      → any (λ h. h == hash) c.hashes ≡ true
      → (validate_bounds policy (lookup hash self.payments) ≡ ok tt) × InBalance self c hash
  unfolding validate_payments
  validated_balanced self c hash enforced passed inside =
      let (unbalanced, e₁, e₂) = >>=-eq-ok (any_unbalanced policy self c c.hashes) _ passed in
      let (e₃, e₄) =
        >>-eq-ok
          (when unbalanced (policy_err policy.filter "policy-commitment-htlc-routing-balance")) _
          e₂ in
      let fine =
        all_balanced unbalanced (policy_err policy.filter "policy-commitment-htlc-routing-balance")
          (policy_err-Enforced policy.filter "policy-commitment-htlc-routing-balance" enforced)
          e₃ in
      hash_balanced self c hash
        (each_balanced self c c.hashes hash (e₁ ∙ ap (λ o. ok o) fine) inside)
