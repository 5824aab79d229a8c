-- ===== src/Protocol/Deltas/Changes.antt =====
-- What a new commitment does to the claimable balance.
use validating_lightning_sig.Common.{
  ℕ, ◌≤◌, ◌≡◌, refl, Bool, true, Option, none, some, arith, min, Option-cases, inl, inr, ok, err,
}
use validating_lightning_sig.Channel.{PaymentHash, CommitmentInfo2, ChannelSetup, claimable_balance}
use validating_lightning_sig.Channel.Enforcement.{
  EnforcementState, tag_fits, holder_commit_info_for, counterparty_commit_info_for,
}
use validating_lightning_sig.Protocol.{invalid_argument}
use validating_lightning_sig.Protocol.Splice.{value_or}
use validating_lightning_sig.Protocol.Deltas.{
  BalanceDelta, min_opt, is_straggler, current_info, current_value, balance_of, new_balance,
  current_balance, claimable_balances,
}

module _ (has_preimage : PaymentHash → Bool) (setup : ChannelSetup) (s : EnforcementState)
    (prev_setup : Option ChannelSetup) (tx : CommitmentInfo2) where
  min_opt-le : (a : ℕ) (o : Option ℕ) → (m : ℕ) × (min_opt (some a) o ≡ some m) × (m ≤ a)
  unfolding min_opt
  min_opt-le a none = (a, refl, omega arith)
  min_opt-le a (some b) = (min a b, refl, omega arith)

  min_opt-le_right : (a : ℕ) (o : Option ℕ) → (m : ℕ) × (min_opt o (some a) ≡ some m) × (m ≤ a)
  unfolding min_opt
  min_opt-le_right a none = (a, refl, omega arith)
  min_opt-le_right a (some b) = (min b a, refl, omega arith)

  -- For one new commitment, of the holder or of the counterparty, the balances are never a
  -- panic: they are refused exactly where the new commitment's own claimable balance does not
  -- exist, and else the balance after it is at most its own.
  pub claimable_balances_outcome :
      (claimable_balance tx has_preimage setup.is_outbound setup.channel_value_sat ≡ none
        → (claimable_balances has_preimage setup s prev_setup (some tx) none ≡ err invalid_argument)
          × (claimable_balances has_preimage setup s prev_setup none (some tx)
              ≡ err invalid_argument))
      × ((own : ℕ)
          → claimable_balance tx has_preimage setup.is_outbound setup.channel_value_sat ≡ some own
          → ((delta : BalanceDelta) × (claimable_balances has_preimage setup s prev_setup
                  (some tx)
                  none
                ≡ ok delta)
              × (delta.after ≤ own))
            × ((delta : BalanceDelta) × (claimable_balances has_preimage setup s prev_setup none
                    (some tx)
                  ≡ ok delta)
                × (delta.after ≤ own)))
  unfolding claimable_balances new_balance balance_of
  claimable_balances_outcome = (
    (λ missing. (ground (arith, missing), ground (arith, missing))),
    (λ own have.
        let (m, e, small) = min_opt-le own (
          balance_of has_preimage setup (counterparty_commit_info_for s setup.funding_outpoint)
            setup.channel_value_sat) in
        let (m', e', small') = min_opt-le_right own (
          balance_of has_preimage setup (holder_commit_info_for s setup.funding_outpoint)
            setup.channel_value_sat) in
        let before : ℕ =
          value_or (current_balance has_preimage setup s prev_setup) s.initial_holder_value in
        (
          (record { before = before; after = m }, ground (arith, have, e), small),
          (record { before = before; after = m' }, ground (arith, have, e'), small'),
        )),
  )

  -- Outside a splice, on a channel whose tags fit its funding, the holder's current commitment
  -- presented again moves no balance.
  pub retry_moves_nothing :
      (own : ℕ)
      → prev_setup ≡ none
      → s.prev_funding_commitment ≡ none
      → tag_fits s.counterparty_commitment_funding setup.funding_outpoint ≡ true
      → s.current_holder_commit_info ≡ some tx
      → claimable_balance tx has_preimage setup.is_outbound setup.channel_value_sat ≡ some own
      → (b : ℕ) × (claimable_balances has_preimage setup s prev_setup (some tx) none
          ≡ ok (record { before = b; after = b }))
  unfolding claimable_balances new_balance balance_of current_balance current_value current_info
      is_straggler counterparty_commit_info_for min_opt
  retry_moves_nothing own settled unsplit fits held have =
      elim (Option-cases s.current_counterparty_commit_info) [
        | inl missing ↦ (own, ground (arith, have))
        | inr (cp, there) ↦
            elim (Option-cases
              (claimable_balance cp has_preimage setup.is_outbound setup.channel_value_sat)) [
                | inl none_there ↦ (own, ground (arith, have))
                | inr (theirs, known) ↦ (min own theirs, ground (arith, have))
              ]
      ]
