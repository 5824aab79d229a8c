-- ===== src/Validator/MutualClose/Panics.antt =====
-- When the checks of a mutual close panic.
use Prim.Native.String.{String}
use validating_lightning_sig.Common.{
  ℕ, ◌+◌, ◌<◌, ◌≡◌, refl, ◌↔◌, Bool, true, not, Option, none, some, List, [], ◌∷◌, arith, ltb, ◌!=◌,
  length, ok, err, panic, when, CannotPanic, >>=-CannotPanic, ok-CannotPanic, when-CannotPanic,
  ok_or-CannotPanic, Bool-cases, List-cases, inl, inr,
}
use validating_lightning_sig.Policy.{ValidationError, Validated, transaction_format_error}
use validating_lightning_sig.Policy.Filter.{no_panic, policy_err-CannotPanic}
use validating_lightning_sig.Channel.{ChannelSetup, CommitmentInfo2}
use validating_lightning_sig.Channel.Enforcement.{EnforcementState, present}
use validating_lightning_sig.Monitor.Transactions.{Transaction, TxOut}
use validating_lightning_sig.Validator.{SimplePolicy, validate_fee, estimate_feerate_per_kw}
use validating_lightning_sig.Validator.MutualClose.{
  Wallet, Closings, ValidateArgs, closing, guess, first_good, good_args, holder_value_is_larger,
  check_scripts, check_fee, check_values, check_holder_output, validate_mutual_close_tx,
  decode_and_validate_mutual_close_tx, mutual_close_tx_weight,
}
use validating_lightning_sig.Validator.MutualClose.Decoded.{guess-returns}

pub estimate_feerate-CannotPanic :
    (fee weight : ℕ) → 0 < weight → CannotPanic (estimate_feerate_per_kw fee weight)
unfolding estimate_feerate_per_kw
estimate_feerate-CannotPanic fee weight pos e = ground arith

first_good-CannotPanic :
    {A : Type 0} (likely unlikely : A) (v v' : Validated (Unit {0}))
    → CannotPanic v
    → CannotPanic v'
    → CannotPanic (first_good likely v unlikely v')
unfolding first_good
first_good-CannotPanic likely unlikely panic v' c c' = absurd (c refl)
first_good-CannotPanic likely unlikely (ok nothing) v' c c' = λ e. ground arith
first_good-CannotPanic likely unlikely (err x) panic c c' = absurd (c' refl)
first_good-CannotPanic likely unlikely (err x) (ok nothing) c c' = λ e. ground arith
first_good-CannotPanic likely unlikely (err x) (err y) c c' = λ e. ground arith

pub validate_fee-CannotPanic :
    (policy : SimplePolicy) (tag : String) (sum_inputs sum_outputs weight : ℕ)
    → 0 < weight
    → CannotPanic (validate_fee policy tag sum_inputs sum_outputs weight)
unfolding validate_fee
validate_fee-CannotPanic policy tag sum_inputs sum_outputs weight pos =
    search (no_panic, estimate_feerate-CannotPanic)

module _ (policy : SimplePolicy) (wallet : Wallet) (closings : Closings) (setup : ChannelSetup)
    (estate : EnforcementState) where
  check_scripts-CannotPanic : (args : ValidateArgs) → CannotPanic (check_scripts policy setup args)
  unfolding check_scripts
  check_scripts-CannotPanic args = search no_panic

  check_values-CannotPanic :
      (h c : CommitmentInfo2) (args : ValidateArgs)
      → CannotPanic (check_values policy setup h c args)
  unfolding check_values
  check_values-CannotPanic h c args = elim (Bool-cases setup.is_outbound) [
    | inl out ↦ rw out (search no_panic)
    | inr out ↦ rw out (search no_panic)
  ]

  check_fee-CannotPanic :
      (args : ValidateArgs) → CannotPanic (check_fee policy wallet closings setup args)
  unfolding check_fee mutual_close_tx_weight
  check_fee-CannotPanic args =
      let weight = closings.built_weight (closing closings setup args) + 222 in
      let fees = λ (sum : ℕ).
        validate_fee-CannotPanic policy "policy-mutual-fee-range" setup.channel_value_sat sum weight
          (omega arith) in
      >>=-CannotPanic _ _ (search no_panic) fees

  check_holder_output-CannotPanic :
      (script : Option ℕ) (path : ℕ) → CannotPanic (check_holder_output policy wallet script path)
  unfolding check_holder_output
  check_holder_output-CannotPanic none path = search no_panic
  check_holder_output-CannotPanic (some script) path = search no_panic

  validate_mutual_close_tx-CannotPanic :
      (args : ValidateArgs)
      → CannotPanic (validate_mutual_close_tx policy wallet closings setup estate args)
  unfolding validate_mutual_close_tx
  validate_mutual_close_tx-CannotPanic args =
      let later = λ (h c : CommitmentInfo2).
        >>=-CannotPanic _ _ (check_scripts-CannotPanic args) λ _.
          >>=-CannotPanic _ _ (when-CannotPanic _ _ (policy_err-CannotPanic _ _)) λ _.
            >>=-CannotPanic _ _ (check_fee-CannotPanic args) λ _.
              >>=-CannotPanic _ _ (check_values-CannotPanic h c args)
                λ _. check_holder_output-CannotPanic args.holder_script args.wallet_path in
      >>=-CannotPanic _ _ (ok_or-CannotPanic _ estate.current_holder_commit_info) λ h.
        >>=-CannotPanic _ _ (ok_or-CannotPanic _ estate.current_counterparty_commit_info) (later h)

  good_args-CannotPanic :
      (both : ValidateArgs × ValidateArgs)
      → CannotPanic (good_args policy wallet closings setup estate both)
  unfolding good_args
  good_args-CannotPanic (l, u) =
      first_good-CannotPanic l u _ _ (validate_mutual_close_tx-CannotPanic l)
        (validate_mutual_close_tx-CannotPanic u)

  module _ (tx : Transaction) (paths : List ℕ) (same : length paths ≡ length tx.output) where
    some_output-CannotPanic :
        (a : TxOut) (outs : List TxOut)
        → tx.output ≡ a ∷ outs
        → CannotPanic
            (decode_and_validate_mutual_close_tx policy wallet closings setup estate tx paths)
    unfolding decode_and_validate_mutual_close_tx
    some_output-CannotPanic a outs e = elim (Bool-cases (ltb 2 (length tx.output))) [
      | inl many ↦ rw many λ p. ground arith
      | inr few ↦
          let (both, returned) =
            guess-returns closings (holder_value_is_larger policy estate) a outs paths
              (ground arith) (ground arith) in
          let found : guess closings (holder_value_is_larger policy estate) tx.output paths
              ≡ ok both =
            rw e returned in
          let calm : CannotPanic
              (guess closings (holder_value_is_larger policy estate) tx.output paths) =
            λ p. ground arith in
          let bounded : CannotPanic {E = ValidationError}
              (when (ltb 2 (length tx.output)) (err transaction_format_error)) =
            λ p. ground arith in
          let matched : CannotPanic {E = ValidationError}
              (when (length paths != length tx.output) panic) =
            λ p. ground arith in
          let flag = λ (test : Bool) (tag : String).
            when-CannotPanic test _ (policy_err-CannotPanic policy.filter tag) in
          >>=-CannotPanic _ _ bounded λ _. >>=-CannotPanic _ _ matched λ _.
            >>=-CannotPanic _ _
              (flag (not (present estate.current_holder_commit_info)) "policy-mutual-other")
              λ _.
                >>=-CannotPanic _ _
                  (flag (not (present estate.current_counterparty_commit_info))
                    "policy-mutual-other")
                  λ _. >>=-CannotPanic _ _ calm λ both'.
                    >>=-CannotPanic _ _ (good_args-CannotPanic both') λ args.
                      >>=-CannotPanic _ _
                        (flag (not (closings.builds (closing closings setup args) tx))
                          "policy-onchain-format-standard")
                        λ _. ok-CannotPanic (closing closings setup args)
    ]

    -- A mutual close with as many wallet paths as outputs, on a channel that has a commitment
    -- of either side, makes the decoding panic exactly where it has no output at all.
    pub decode_mutual_close_panics_iff :
        present estate.current_holder_commit_info ≡ true
        → present estate.current_counterparty_commit_info ≡ true
        → (decode_and_validate_mutual_close_tx policy wallet closings setup estate tx paths ≡ panic)
          ↔ (tx.output ≡ [])
    unfolding decode_and_validate_mutual_close_tx guess
    decode_mutual_close_panics_iff ours theirs = (
      (λ p. elim (List-cases tx.output) [
        | inl nothing ↦ nothing
        | inr (a, outs, e) ↦ absurd (some_output-CannotPanic a outs e p)
      ]),
      (λ nothing. let counted : length paths ≡ 0 = ground arith in ground arith),
    )
