-- ===== src/Channel/Totals/Tests.antt =====
-- The balance that an open channel reports.
use validating_lightning_sig.Common.{
  ℕ, ◌+◌, ◌≤◌, ◌≡◌, refl, Bool, true, false, some, arith, if◌then◌else◌, min,
}
use validating_lightning_sig.Channel.{PaymentHash, claimable_balance}
use validating_lightning_sig.Channel.Balance.{outputs, values}
use validating_lightning_sig.Channel.Totals.{ChannelBalance, balance}
use validating_lightning_sig.Channel.Totals.Counts.{balance_exact}
use validating_lightning_sig.Samples.{setup, state, info}

abbrev known : PaymentHash → Bool
known hash = false

fits : outputs info ≤ setup.channel_value_sat
unfolding values
fits = omega arith

balance_exact_example :
    (b : ChannelBalance) × (ours : ℕ) × (theirs : ℕ) × (balance known setup true state ≡ some b)
    × (claimable_balance info known setup.is_outbound setup.channel_value_sat ≡ some ours)
    × (claimable_balance info known setup.is_outbound setup.channel_value_sat ≡ some theirs)
    × (b.claimable ≡ (if state.channel_closed then 0 else min ours theirs))
    × (b.sweeping ≡ (if state.channel_closed then min ours theirs else 0))
    × (b.claimable + b.sweeping ≤ setup.channel_value_sat)
    × (b.closing_count ≡ (if state.channel_closed then 1 else 0))
    × (b.unconfirmed_count + b.channel_count + b.closing_count ≡ 1)
balance_exact_example =
    balance_exact known setup true state info info refl refl fits fits (omega arith)
