-- ===== src/Validator/MutualClose/Accepted.antt =====
-- What a mutual close that passed `validate_mutual_close_tx` is known to satisfy.
use validating_lightning_sig.Common.{
  ℕ, ◌+◌, ◌-◌, ◌*◌, ◌%◌, ◌≤◌, ◌<◌, ◌≡◌, refl, ◌⊎◌, inl, inr, true, false, not, ◌||◌, Option, none,
  some, List, [], ◌∷◌, arith, u64_mod, u32_mod, checked_add, Bool-cases, Option-cases, ok, when,
  ok_or, >>=-eq-ok, >>-eq-ok,
}
use validating_lightning_sig.Policy.{policy_err, policy_error}
use validating_lightning_sig.Policy.Filter.{Strict}
use validating_lightning_sig.Channel.{HtlcInfo2, CommitmentInfo2, ChannelSetup}
use validating_lightning_sig.Channel.Equality.{option_eq→eq}
use validating_lightning_sig.Channel.Enforcement.{EnforcementState, present}
use validating_lightning_sig.Validator.{SimplePolicy, outside_epsilon_range}
use validating_lightning_sig.Validator.Fee.{feerate, validate_fee_iff}
use validating_lightning_sig.Validator.Commitment.Limits.{refusal}
use validating_lightning_sig.Validator.MutualClose.{
  Wallet, Closings, ValidateArgs, is_empty, htlcs_is_empty, closing, mutual_close_tx_weight,
  check_scripts, check_fee, check_values, check_holder_output, validate_mutual_close_tx,
}

is_empty→eq : (hs : List HtlcInfo2) → is_empty hs ≡ true → hs ≡ []
unfolding is_empty
is_empty→eq [] e = refl
is_empty→eq (h ∷ hs) e = absurd (ground arith)

-- Neither side's commitment has a pending HTLC.
abbrev pub IsSettled : CommitmentInfo2 → Type 0
IsSettled info = (info.offered_htlcs ≡ []) × (info.received_htlcs ≡ [])

htlcs_is_empty-IsSettled : (info : CommitmentInfo2) → htlcs_is_empty info ≡ true → IsSettled info
unfolding htlcs_is_empty
htlcs_is_empty-IsSettled info e =
    (is_empty→eq info.offered_htlcs (ground arith), is_empty→eq info.received_htlcs (ground arith))

-- Two values are at most `epsilon` apart.
abbrev pub Close : ℕ → ℕ → ℕ → Type 0
Close epsilon a b = (a ≤ b + epsilon) × (b ≤ a + epsilon)

module _ (policy : SimplePolicy) (strict : Strict policy.filter) where
  outside_epsilon_range-Close :
      (a b : ℕ) → outside_epsilon_range policy a b ≡ false → Close policy.epsilon_sat a b
  unfolding outside_epsilon_range
  outside_epsilon_range-Close a b e = (ground arith, ground arith)

  -- The output of the side that does not pay the fee is the one of both latest commitments, but for
  -- `epsilon_sat`.
  abbrev pub KeepsValue : ChannelSetup → CommitmentInfo2 → CommitmentInfo2 → ValidateArgs → Type 0
  KeepsValue setup holder_info counterparty_info args =
      (setup.is_outbound ≡ false
        → Close policy.epsilon_sat args.to_holder_value_sat holder_info.to_broadcaster_value_sat
          × Close policy.epsilon_sat args.to_holder_value_sat
              counterparty_info.to_countersigner_value_sat)
      × (setup.is_outbound ≡ true
          → Close policy.epsilon_sat args.to_counterparty_value_sat
              counterparty_info.to_broadcaster_value_sat
            × Close policy.epsilon_sat args.to_counterparty_value_sat
                holder_info.to_countersigner_value_sat)

  check_values-KeepsValue :
      (setup : ChannelSetup) (h c : CommitmentInfo2) (args : ValidateArgs)
      → check_values policy setup h c args ≡ ok tt
      → KeepsValue setup h c args
  unfolding check_values
  check_values-KeepsValue setup h c args e =
      let refused = refusal policy strict "policy-mutual-value-matches-commitment" in
      let near = outside_epsilon_range-Close in
      (
        (λ theirs. (
          near args.to_holder_value_sat h.to_broadcaster_value_sat (ground (arith, refused)),
          near args.to_holder_value_sat c.to_countersigner_value_sat (ground (arith, refused)),
        )),
        (λ ours. (
          near args.to_counterparty_value_sat c.to_broadcaster_value_sat (ground (arith, refused)),
          near args.to_counterparty_value_sat h.to_countersigner_value_sat
              (ground (arith, refused)),
        )),
      )

  -- A value that a party is to get has a script, and the holder's is the one agreed on upfront, if any.
  abbrev pub HasScripts : ChannelSetup → ValidateArgs → Type 0
  HasScripts setup args =
      (0 < args.to_holder_value_sat → present args.holder_script ≡ true)
      × (0 < args.to_counterparty_value_sat → present args.counterparty_script ≡ true)
      × (0 < args.to_holder_value_sat
          → present setup.holder_shutdown_script ≡ true
          → args.holder_script ≡ setup.holder_shutdown_script)

  check_scripts-HasScripts :
      (setup : ChannelSetup) (args : ValidateArgs)
      → check_scripts policy setup args ≡ ok tt
      → HasScripts setup args
  unfolding check_scripts
  check_scripts-HasScripts setup args e =
      let refused = refusal policy strict "policy-mutual-destination-allowlisted" in
      (
        (λ paid. ground (arith, refused)),
        (λ paid. ground (arith, refused)),
        (λ paid upfront.
            option_eq→eq args.holder_script setup.holder_shutdown_script (ground (arith, refused))),
      )

  module _ (wallet : Wallet) (closings : Closings) where
    -- The holder's output goes to the wallet, or to a script on the allowlist.
    abbrev pub PaysHolder : Option ℕ → ℕ → Type 0
    PaysHolder none path = Unit
    PaysHolder (some script) path =
        (wallet.can_spend path script ≡ some true)
        ⊎ ((wallet.can_spend path script ≡ some false)
            × (wallet.allowlist_contains script path ≡ true))

    check_holder_output-PaysHolder :
        (script : Option ℕ) (path : ℕ)
        → check_holder_output policy wallet script path ≡ ok tt
        → PaysHolder script path
    unfolding check_holder_output
    check_holder_output-PaysHolder none path e = tt
    check_holder_output-PaysHolder (some script) path e =
        let refused = refusal policy strict "policy-mutual-destination-allowlisted" in
        elim (Option-cases (wallet.can_spend path script)) [
          | inl failed ↦ absurd (ground arith)
          | inr (spendable, known) ↦ elim (Bool-cases spendable) [
            | inl mine ↦ inl (ground arith)
            | inr other ↦ inr (ground arith, ground (arith, refused))
          ]
        ]

    abbrev pub fee : ChannelSetup → ValidateArgs → ℕ
    fee setup args =
        setup.channel_value_sat - (args.to_holder_value_sat + args.to_counterparty_value_sat)

    abbrev pub weight : ChannelSetup → ValidateArgs → ℕ
    weight setup args = closings.built_weight (closing closings setup args) + 222

    -- The outputs are covered by the channel, and the feerate is in the policy's range.
    abbrev pub HasFairFee : ChannelSetup → ValidateArgs → Type 0
    HasFairFee setup args =
        (args.to_holder_value_sat + args.to_counterparty_value_sat ≤ setup.channel_value_sat)
        × (policy.min_feerate_per_kw ≤ feerate (fee setup args) (weight setup args) % u32_mod)
        × (feerate (fee setup args) (weight setup args) % u32_mod ≤ policy.max_feerate_per_kw)

    check_fee-HasFairFee :
        (setup : ChannelSetup) (args : ValidateArgs)
        → setup.channel_value_sat * 1000 + 999 < u64_mod
        → check_fee policy wallet closings setup args ≡ ok tt
        → HasFairFee setup args
    unfolding check_fee mutual_close_tx_weight
    check_fee-HasFairFee setup args small e =
        let sum = args.to_holder_value_sat + args.to_counterparty_value_sat in
        let (total, e₁, e₂) =
          >>=-eq-ok
            (ok_or (policy_error "policy-mutual-value-matches-commitment")
              (checked_add args.to_holder_value_sat args.to_counterparty_value_sat))
            _ e in
        let whole : total ≡ sum = ground arith in
        (validate_fee_iff policy setup.channel_value_sat sum (weight setup args)
            "policy-mutual-fee-range" (strict _) (omega arith) (omega arith)).0
          (rw (← whole) e₂)

    -- What an accepted mutual close is known to be.
    pub record IsFair (setup : ChannelSetup) (estate : EnforcementState) (args : ValidateArgs)
        : Type 0 where
      pub holder_info : CommitmentInfo2
      pub counterparty_info : CommitmentInfo2
      pub holder_known : estate.current_holder_commit_info ≡ some holder_info
      pub counterparty_known : estate.current_counterparty_commit_info ≡ some counterparty_info
      pub settled : IsSettled holder_info × IsSettled counterparty_info
      pub scripts : HasScripts setup args
      pub fair_fee : HasFairFee setup args
      pub value : KeepsValue setup holder_info counterparty_info args
      pub pays : PaysHolder args.holder_script args.wallet_path

    pub validate_mutual_close_tx-IsFair :
        (setup : ChannelSetup) (estate : EnforcementState) (args : ValidateArgs)
        → setup.channel_value_sat * 1000 + 999 < u64_mod
        → validate_mutual_close_tx policy wallet closings setup estate args ≡ ok tt
        → IsFair setup estate args
    unfolding validate_mutual_close_tx
    validate_mutual_close_tx-IsFair setup estate args small e =
        let missing = policy_error "policy-mutual-value-matches-commitment" in
        let (h, h₁, e₁) = >>=-eq-ok (ok_or missing estate.current_holder_commit_info) _ e in
        let (c, c₁, e₂) = >>=-eq-ok (ok_or missing estate.current_counterparty_commit_info) _ e₁ in
        let (scripts, e₃) = >>-eq-ok (check_scripts policy setup args) _ e₂ in
        let (quiet, e₄) =
          >>-eq-ok
            (when (not (htlcs_is_empty h) || not (htlcs_is_empty c))
              (policy_err policy.filter "policy-mutual-no-pending-htlcs"))
            _ e₃ in
        let (fees, e₅) = >>-eq-ok (check_fee policy wallet closings setup args) _ e₄ in
        let (values, e₆) = >>-eq-ok (check_values policy setup h c args) _ e₅ in
        let refused = refusal policy strict "policy-mutual-no-pending-htlcs" in
        record {
          holder_info = h;
          counterparty_info = c;
          holder_known = ground arith;
          counterparty_known = ground arith;
          settled = (
            htlcs_is_empty-IsSettled h (ground (arith, refused)),
            htlcs_is_empty-IsSettled c (ground (arith, refused)),
          );
          scripts = check_scripts-HasScripts setup args scripts;
          fair_fee = check_fee-HasFairFee setup args small fees;
          value = check_values-KeepsValue setup h c args values;
          pays = check_holder_output-PaysHolder args.holder_script args.wallet_path e₆;
        }
