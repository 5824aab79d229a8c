-- ===== src/Validator/Sweeps/Accepted.antt =====
-- What a sweep that passed the checks is known to satisfy.
use validating_lightning_sig.Common.{
  ℕ, ◌+◌, ◌-◌, ◌*◌, ◌%◌, ◌≤◌, ◌<◌, ◌≡◌, refl, ◌⊎◌, inl, inr, true, false, not, ◌&&◌, none, some,
  List, [], ◌∷◌, arith, ◌==◌, ◌!=◌, if◌then◌else◌, any, length, u64_mod, u32_mod, u32_add,
  Bool-cases, Option-cases, ok, err, ◌>>◌, when, ok_or, unwrap, >>=-eq-ok, >>-eq-ok,
}
use validating_lightning_sig.Policy.{policy_err, policy_error, transaction_format_error}
use validating_lightning_sig.Policy.Filter.{Strict}
use validating_lightning_sig.Channel.{ChannelSetup, ChainState, is_anchors}
use validating_lightning_sig.Monitor.Transactions.{Transaction, TxIn, TxOut}
use validating_lightning_sig.Validator.{SimplePolicy}
use validating_lightning_sig.Validator.Fee.{feerate, validate_fee_iff}
use validating_lightning_sig.Validator.Commitment.Limits.{refusal, All}
use validating_lightning_sig.Validator.MutualClose.{Wallet}
use validating_lightning_sig.Validator.Sweeps.{
  ℤ, pos, negsuc, Scripts, max_chain_lag, anchor_seqs, non_anchor_seqs, sum_outputs, expiry_height,
  estimated_sweep_tx_weight, check_destinations, check_sweep_fee, validate_sweep, check_locktime,
  check_sequence, check_htlc_locktime, validate_delayed_sweep, validate_counterparty_htlc_sweep,
  validate_justice_sweep,
}

-- The first input has one of the sequence numbers.
abbrev pub StartsWith : List ℕ → List TxIn → Type 0
StartsWith seqs [] = ⊥
StartsWith seqs (txin ∷ inputs) = any (λ seq. txin.sequence == seq) seqs ≡ true

module _ (policy : SimplePolicy) (strict : Strict policy.filter) (wallet : Wallet) where
  -- An output of ours: the wallet can spend it, or it is on the allowlist.
  abbrev pub IsOurs : ℕ → TxOut → Type 0
  IsOurs path out =
      (wallet.can_spend path out.script_pubkey ≡ some true)
      ⊎ ((wallet.can_spend path out.script_pubkey ≡ some false)
          × (wallet.allowlist_contains out.script_pubkey path ≡ true))

  check_destinations-IsOurs :
      (path : ℕ) (outs : List TxOut)
      → check_destinations policy wallet path outs ≡ ok tt
      → All (IsOurs path) outs
  unfolding check_destinations
  check_destinations-IsOurs path [] e = tt
  check_destinations-IsOurs path (out ∷ outs) e =
      let refused = refusal policy strict "policy-sweep-destination-allowlisted" in
      let (spendable, known, e₁) =
        >>=-eq-ok
          (ok_or (policy_error "policy-onchain-output-scriptpubkey")
            (wallet.can_spend path out.script_pubkey))
          _ e in
      let (listed, e₂) =
        >>-eq-ok
          (when (not spendable && not (wallet.allowlist_contains out.script_pubkey path))
            (policy_err policy.filter "policy-sweep-destination-allowlisted"))
          _ e₁ in
      let answer : wallet.can_spend path out.script_pubkey ≡ some spendable = ground arith in
      let ours : IsOurs path out = elim (Bool-cases spendable) [
        | inl mine ↦ inl (ground arith)
        | inr other ↦ inr (ground arith, ground (arith, refused))
      ] in
      (ours, check_destinations-IsOurs path outs e₂)

  module _ (scripts : Scripts) (tx : Transaction) (amount_sat path : ℕ) where
    -- What every accepted sweep is: of version 2, all its outputs ours, and, where it has one input
    -- only, of a fee in the policy's range.
    pub record IsSafeSweep : Type 0 where
      pub version : tx.version ≡ 2
      pub ours : All (IsOurs path) tx.output
      pub fee :
          length tx.input ≡ 1
          → (sum_outputs tx.output ≤ amount_sat)
            × (policy.min_feerate_per_kw
                ≤ feerate (amount_sat - sum_outputs tx.output) (scripts.unsigned_weight tx + 220)
                  % u32_mod)
            × (feerate (amount_sat - sum_outputs tx.output) (scripts.unsigned_weight tx + 220)
                  % u32_mod
                ≤ policy.max_feerate_per_kw)

    validate_sweep-IsSafeSweep :
        amount_sat * 1000 + 999 < u64_mod
        → validate_sweep policy wallet scripts tx amount_sat path ≡ ok tt
        → IsSafeSweep
    unfolding validate_sweep check_sweep_fee estimated_sweep_tx_weight
    validate_sweep-IsSafeSweep small e =
        let weight = scripts.unsigned_weight tx + 220 in
        let (two, e₁) = >>-eq-ok (when (tx.version != 2) (err transaction_format_error)) _ e in
        let (fees, e₂) = >>-eq-ok (check_sweep_fee policy wallet scripts tx amount_sat) _ e₁ in
        record {
          version = ground arith;
          ours = check_destinations-IsOurs path tx.output e₂;
          fee = λ single.
              (validate_fee_iff policy amount_sat (sum_outputs tx.output) weight
                  "policy-sweep-fee-range" (strict _) (omega arith) (omega arith)).0
                (ground arith);
        }

    module _ (cstate : ChainState) where
      -- The locktime is satisfied two blocks ahead of the chain.
      abbrev pub IsDue : Type 0
      IsDue =
          (height : ℕ) × (scripts.from_consensus (u32_add cstate.current_height max_chain_lag)
            ≡ some height)
          × (scripts.is_satisfied_by tx.lock_time height ≡ true)

      check_locktime-IsDue : check_locktime policy wallet scripts cstate tx ≡ ok tt → IsDue
      unfolding check_locktime
      check_locktime-IsDue e =
          let (height, known, e₁) =
            >>=-eq-ok (unwrap (scripts.from_consensus (u32_add cstate.current_height 2))) _ e in
          (height, ground arith, ground arith)

      check_sequence-StartsWith :
          (seqs : List ℕ) (inputs : List TxIn)
          → tx.input ≡ inputs
          → check_sequence policy wallet scripts tx seqs ≡ ok tt
          → StartsWith seqs inputs
      unfolding check_sequence
      check_sequence-StartsWith seqs [] same e = ground arith
      check_sequence-StartsWith seqs (txin ∷ inputs) same e = ground arith

      own_sweep_parts :
          amount_sat * 1000 + 999 < u64_mod
          → (seqs : List ℕ)
          → (do
            validate_sweep policy wallet scripts tx amount_sat path
            check_locktime policy wallet scripts cstate tx
            check_sequence policy wallet scripts tx seqs)
            ≡ ok tt
          → IsSafeSweep × IsDue × StartsWith seqs tx.input
      own_sweep_parts small seqs e =
          let (common, e₁) =
            >>-eq-ok (validate_sweep policy wallet scripts tx amount_sat path) _ e in
          let (due, e₂) = >>-eq-ok (check_locktime policy wallet scripts cstate tx) _ e₁ in
          (
            validate_sweep-IsSafeSweep small common,
            check_locktime-IsDue due,
            check_sequence-StartsWith seqs tx.input refl e₂,
          )

      module _ (setup : ChannelSetup) where
        -- The locktime that the swept script asks for: of an HTLC that the counterparty received, at
        -- most its expiry, which is a u32; of one that it offered, as of any other sweep.
        abbrev pub IsDueFor : ℕ → Type 0
        IsDueFor redeemscript =
            ((expiry : ℕ) × (scripts.parse_received_htlc_script redeemscript (is_anchors setup)
                ≡ some (pos expiry))
              × (expiry < u32_mod)
              × (tx.lock_time ≤ expiry))
            ⊎ ((scripts.parse_received_htlc_script redeemscript (is_anchors setup) ≡ none)
                × (scripts.parse_offered_htlc_script redeemscript (is_anchors setup) ≡ true)
                × IsDue)

        received-IsDueFor :
            (redeemscript : ℕ) (cltv_expiry : ℤ)
            → scripts.parse_received_htlc_script redeemscript (is_anchors setup) ≡ some cltv_expiry
            → check_htlc_locktime policy wallet scripts setup cstate tx redeemscript ≡ ok tt
            → IsDueFor redeemscript
        unfolding check_htlc_locktime expiry_height
        received-IsDueFor redeemscript (pos expiry) known e =
            inl (expiry, known, ground arith, ground arith)
        received-IsDueFor redeemscript (negsuc n) known e = absurd (ground arith)

        check_htlc_locktime-IsDueFor :
            (redeemscript : ℕ)
            → check_htlc_locktime policy wallet scripts setup cstate tx redeemscript ≡ ok tt
            → IsDueFor redeemscript
        unfolding check_htlc_locktime
        check_htlc_locktime-IsDueFor redeemscript e =
            elim (Option-cases
              (scripts.parse_received_htlc_script redeemscript (is_anchors setup))) [
                | inl unknown ↦
                    elim (Bool-cases
                      (scripts.parse_offered_htlc_script redeemscript (is_anchors setup))) [
                        | inl offered ↦ inr (unknown, offered, check_locktime-IsDue (ground arith))
                        | inr other ↦ absurd (ground arith)
                      ]
                | inr (cltv_expiry, known) ↦ received-IsDueFor redeemscript cltv_expiry known e
              ]

        -- Under a filter that demotes nothing and for an amount far from the bound of
        -- u64, an accepted sweep of an HTLC of the counterparty's commitment is of
        -- version 2, pays only to the wallet or to allowlisted scripts and, if it has one
        -- input only, a fee whose feerate modulo 2 ^ 32 is in the policy's range, its
        -- outputs summed modulo 2 ^ 64. Its script parses as a received or an offered
        -- HTLC, its locktime is at most the expiry of a received one and satisfied two
        -- blocks ahead of the chain for an offered one, and the sequence number of its
        -- first input is one of those allowed with or without anchors.
        pub htlc_sweep_accepted :
            (redeemscript : ℕ)
            → amount_sat * 1000 + 999 < u64_mod
            → validate_counterparty_htlc_sweep policy wallet scripts setup cstate tx redeemscript
                amount_sat path
              ≡ ok tt
            → IsSafeSweep
              × IsDueFor redeemscript
              × StartsWith (if is_anchors setup then anchor_seqs else non_anchor_seqs) tx.input
        unfolding validate_counterparty_htlc_sweep
        htlc_sweep_accepted redeemscript small e =
            let seqs = if is_anchors setup then anchor_seqs else non_anchor_seqs in
            let (common, e₁) =
              >>-eq-ok (validate_sweep policy wallet scripts tx amount_sat path) _ e in
            let (due, e₂) =
              >>-eq-ok (check_htlc_locktime policy wallet scripts setup cstate tx redeemscript) _
                e₁ in
            (
              validate_sweep-IsSafeSweep small common,
              check_htlc_locktime-IsDueFor redeemscript due,
              check_sequence-StartsWith seqs tx.input refl e₂,
            )

        -- Under a filter that demotes nothing and for an amount far from the bound of u64,
        -- an accepted sweep of the holder's delayed output, or of an output of a revoked
        -- commitment, is of version 2, pays only to the wallet or to allowlisted scripts and,
        -- if it has one input only, a fee whose feerate modulo 2 ^ 32 is in the policy's
        -- range, its outputs summed modulo 2 ^ 64. Its locktime is satisfied two blocks ahead
        -- of the chain, and the sequence number of its first input is the contest delay that
        -- the counterparty selected, or for a revoked commitment one of those that do not
        -- delay.
        pub own_sweeps_accepted :
            amount_sat * 1000 + 999 < u64_mod
            → (validate_delayed_sweep policy wallet scripts setup cstate tx amount_sat path ≡ ok tt
                → IsSafeSweep
                  × IsDue
                  × StartsWith (setup.counterparty_selected_contest_delay ∷ []) tx.input)
              × (validate_justice_sweep policy wallet scripts cstate tx amount_sat path ≡ ok tt
                  → IsSafeSweep × IsDue × StartsWith non_anchor_seqs tx.input)
        unfolding validate_delayed_sweep validate_justice_sweep
        own_sweeps_accepted small = (
          own_sweep_parts small (setup.counterparty_selected_contest_delay ∷ []),
          own_sweep_parts small non_anchor_seqs,
        )
