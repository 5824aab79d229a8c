-- ===== src/Protocol/Deltas/Tests.antt =====
-- A commitment that spends more than its funding, and one that does not.
use validating_lightning_sig.Common.{ℕ, ◌≤◌, ◌≡◌, refl, Bool, false, none, some, ok, err}
use validating_lightning_sig.Channel.{
  PaymentHash, claimable_balance, outbound_fee, value_to_parties, add_claimable, holder_offered,
  holder_received, total_value, sum_values,
}
use validating_lightning_sig.Protocol.{invalid_argument}
use validating_lightning_sig.Protocol.Deltas.{BalanceDelta, claimable_balances}
use validating_lightning_sig.Protocol.Deltas.Changes.{claimable_balances_outcome}
use validating_lightning_sig.Samples.{setup, state, info}

abbrev known : PaymentHash → Bool
known hash = false

claimable_balances_outcome_example :
    (claimable_balance info known setup.is_outbound setup.channel_value_sat ≡ none
      → (claimable_balances known setup state none (some info) none ≡ err invalid_argument)
        × (claimable_balances known setup state none none (some info) ≡ err invalid_argument))
    × ((own : ℕ)
        → claimable_balance info known setup.is_outbound setup.channel_value_sat ≡ some own
        → ((delta : BalanceDelta) × (claimable_balances known setup state none (some info) none
              ≡ ok delta)
            × (delta.after ≤ own))
          × ((delta : BalanceDelta) × (claimable_balances known setup state none none (some info)
                ≡ ok delta)
              × (delta.after ≤ own)))
claimable_balances_outcome_example = claimable_balances_outcome known setup state none info

-- The offered HTLC counts as the holder's as long as its preimage is not known.
own_test : claimable_balance info known setup.is_outbound setup.channel_value_sat ≡ some 700_000
unfolding claimable_balance outbound_fee value_to_parties add_claimable holder_offered
    holder_received total_value sum_values
own_test = refl
