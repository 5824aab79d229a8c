-- ===== src/Validator/MutualClose/Decoded.antt =====
-- Which assignment of the outputs `decode_and_validate_mutual_close_tx` settles on, and when it
-- panics.
use mathlib.Core.Path.{subst}
use validating_lightning_sig.Common.{
  ℕ, ◌+◌, ◌*◌, ◌≤◌, ◌<◌, ◌≡◌, refl, sym, ◌⊎◌, inl, inr, Bool, true, false, not, List, [], ◌∷◌,
  arith, ltb, ◌!=◌, length, u64_mod, ok, err, panic, when, >>=-eq-ok, >>-eq-ok,
}
use validating_lightning_sig.Policy.{Validated, policy_err, transaction_format_error}
use validating_lightning_sig.Policy.Filter.{Strict}
use validating_lightning_sig.Channel.{ChannelSetup}
use validating_lightning_sig.Channel.Enforcement.{EnforcementState, present}
use validating_lightning_sig.Monitor.Transactions.{Transaction, TxOut}
use validating_lightning_sig.Validator.{SimplePolicy}
use validating_lightning_sig.Validator.Commitment.Limits.{refusal}
use validating_lightning_sig.Validator.MutualClose.{
  Wallet, Closings, ClosingTransaction, ValidateArgs, closing, guess, first_good, good_args,
  holder_value_is_larger, holders_output, cpartys_output, both_outputs, validate_mutual_close_tx,
  decode_and_validate_mutual_close_tx,
}
use validating_lightning_sig.Validator.MutualClose.Accepted.{
  IsFair, validate_mutual_close_tx-IsFair,
}

first_good-eq-ok :
    {A : Type 0} (likely unlikely : A) (v v' : Validated (Unit {0})) {a : A}
    → first_good likely v unlikely v' ≡ ok a
    → ((a ≡ likely) × (v ≡ ok tt)) ⊎ ((a ≡ unlikely) × (v' ≡ ok tt))
unfolding first_good
first_good-eq-ok likely unlikely panic v' e = absurd (ground arith)
first_good-eq-ok likely unlikely (ok nothing) v' e = inl (ground arith, refl)
first_good-eq-ok likely unlikely (err x) panic e = absurd (ground arith)
first_good-eq-ok likely unlikely (err x) (ok nothing) e = inr (ground arith, refl)
first_good-eq-ok likely unlikely (err x) (err y) e = absurd (ground arith)

module _ (closings : Closings) where
  -- The outputs of a transaction, in one order or the other, with the wallet path of the holder's.
  abbrev pub Assigns : List TxOut → List ℕ → ValidateArgs → Type 0
  Assigns (a ∷ []) (p ∷ []) args = (args ≡ holders_output a p) ⊎ (args ≡ cpartys_output closings a)
  Assigns (a ∷ b ∷ []) (p ∷ q ∷ []) args = (args ≡ both_outputs a b p) ⊎ (args ≡ both_outputs b a q)
  Assigns _ _ args = ⊥

  guess-Assigns :
      (larger : Bool) (outs : List TxOut) (paths : List ℕ) (l u : ValidateArgs)
      → length outs ≤ 2
      → length paths ≡ length outs
      → guess closings larger outs paths ≡ ok (l, u)
      → Assigns outs paths l × Assigns outs paths u
  unfolding guess
  guess-Assigns larger [] paths l u few same e = absurd (ground arith)
  guess-Assigns true (a ∷ []) (p ∷ []) l u few same e = (inl (ground arith), inr (ground arith))
  guess-Assigns false (a ∷ []) (p ∷ []) l u few same e = (inr (ground arith), inl (ground arith))
  guess-Assigns larger (a ∷ []) [] l u few same e = absurd (omega arith)
  guess-Assigns larger (a ∷ []) (p ∷ q ∷ ps) l u few same e = absurd (omega arith)
  guess-Assigns true (a ∷ b ∷ []) (p ∷ q ∷ []) l u few same e =
      (inr (ground arith), inl (ground arith))
  guess-Assigns false (a ∷ b ∷ []) (p ∷ q ∷ []) l u few same e =
      (inl (ground arith), inr (ground arith))
  guess-Assigns larger (a ∷ b ∷ []) [] l u few same e = absurd (omega arith)
  guess-Assigns larger (a ∷ b ∷ []) (p ∷ []) l u few same e = absurd (omega arith)
  guess-Assigns larger (a ∷ b ∷ []) (p ∷ q ∷ r ∷ ps) l u few same e = absurd (omega arith)
  guess-Assigns larger (a ∷ b ∷ c ∷ outs) paths l u few same e = absurd (omega arith)

  pub guess-returns :
      (larger : Bool) (a : TxOut) (outs : List TxOut) (paths : List ℕ)
      → length (a ∷ outs) ≤ 2
      → length paths ≡ length (a ∷ outs)
      → (args : ValidateArgs × ValidateArgs) × (guess closings larger (a ∷ outs) paths ≡ ok args)
  unfolding guess
  guess-returns larger a [] (p ∷ ps) few same = (_, refl)
  guess-returns larger a [] [] few same = absurd (omega arith)
  guess-returns larger a (b ∷ []) (p ∷ q ∷ ps) few same = (_, refl)
  guess-returns larger a (b ∷ []) (p ∷ []) few same = absurd (omega arith)
  guess-returns larger a (b ∷ []) [] few same = absurd (omega arith)
  guess-returns larger a (b ∷ c ∷ outs) paths few same = absurd (omega arith)

module _ (policy : SimplePolicy) (strict : Strict policy.filter) (wallet : Wallet)
    (closings : Closings) (setup : ChannelSetup) (estate : EnforcementState) (tx : Transaction)
    (paths : List ℕ) where
  settled :
      (l u args : ValidateArgs)
      → good_args policy wallet closings setup estate (l, u) ≡ ok args
      → Assigns closings tx.output paths l
      → Assigns closings tx.output paths u
      → Assigns closings tx.output paths args
  unfolding good_args
  settled l u args e al au =
      elim (first_good-eq-ok l u (validate_mutual_close_tx policy wallet closings setup estate l)
        (validate_mutual_close_tx policy wallet closings setup estate u) e) [
          | inl (same, passed) ↦ subst (Assigns closings tx.output paths) (sym same) al
          | inr (same, passed) ↦ subst (Assigns closings tx.output paths) (sym same) au
        ]

  fair :
      (l u args : ValidateArgs)
      → setup.channel_value_sat * 1000 + 999 < u64_mod
      → good_args policy wallet closings setup estate (l, u) ≡ ok args
      → IsFair policy strict wallet closings setup estate args
  unfolding good_args
  fair l u args small e =
      let validate = validate_mutual_close_tx policy wallet closings setup estate in
      let passed : validate args ≡ ok tt = elim (first_good-eq-ok l u (validate l) (validate u) e) [
        | inl (same, passed) ↦ rw same passed
        | inr (same, passed) ↦ rw same passed
      ] in
      validate_mutual_close_tx-IsFair policy strict wallet closings setup estate args small passed

  -- Under a filter that demotes nothing and for a channel value far from the bound of u64, a
  -- mutual close that is decoded and accepted gives the outputs of the transaction to the
  -- holder and the counterparty in one order or the other, and the close built from them is the
  -- transaction. In the order that is settled on, no HTLC is pending on either side, the
  -- outputs do not exceed the channel, the feerate modulo 2 ^ 32 is in the policy's range, the
  -- side that does not pay the fee gets what both latest commitments give it but for the
  -- policy's epsilon, and the holder's output goes to the wallet or to an allowlisted script,
  -- and to the upfront shutdown script where there is one and the holder gets a value.
  pub decode_mutual_close-IsFair :
      {tx' : ClosingTransaction}
      → setup.channel_value_sat * 1000 + 999 < u64_mod
      → decode_and_validate_mutual_close_tx policy wallet closings setup estate tx paths ≡ ok tx'
      → (args : ValidateArgs) × (Assigns closings tx.output paths args)
        × (tx' ≡ closing closings setup args)
        × (closings.builds tx' tx ≡ true)
        × IsFair policy strict wallet closings setup estate args
  unfolding decode_and_validate_mutual_close_tx good_args
  decode_mutual_close-IsFair {tx'} small e =
      let infos = policy_err policy.filter "policy-mutual-other" in
      let (few, e₁) =
        >>-eq-ok (when (ltb 2 (length tx.output)) (err transaction_format_error)) _ e in
      let (same, e₂) = >>-eq-ok (when (length paths != length tx.output) panic) _ e₁ in
      let (ours, e₃) =
        >>-eq-ok (when (not (present estate.current_holder_commit_info)) infos) _ e₂ in
      let (theirs, e₄) =
        >>-eq-ok (when (not (present estate.current_counterparty_commit_info)) infos) _ e₃ in
      let (candidates, g, e₅) =
        >>=-eq-ok (guess closings (holder_value_is_larger policy estate) tx.output paths) _ e₄ in
      let (args, a, e₆) =
        >>=-eq-ok (good_args policy wallet closings setup estate candidates) _ e₅ in
      let (built, e₇) =
        >>-eq-ok
          (when (not (closings.builds (closing closings setup args) tx))
            (policy_err policy.filter "policy-onchain-format-standard"))
          _ e₆ in
      let refused = refusal policy strict "policy-onchain-format-standard" in
      let made : tx' ≡ closing closings setup args = ground arith in
      let same_tx : closings.builds (closing closings setup args) tx ≡ true =
        ground (arith, refused) in
      let assigned =
        guess-Assigns closings (holder_value_is_larger policy estate) tx.output paths candidates.0
          candidates.1 (ground arith) (ground arith) g in
      (
        args,
        settled candidates.0 candidates.1 args a assigned.0 assigned.1,
        made,
        rw made same_tx,
        fair candidates.0 candidates.1 args small a,
      )
