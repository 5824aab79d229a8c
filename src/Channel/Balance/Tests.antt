-- ===== src/Channel/Balance/Tests.antt =====
-- The claimable balance of the commitment with one HTLC.
use validating_lightning_sig.Common.{ℕ, ◌+◌, ◌≤◌, ◌≡◌, refl, ◌==◌, Bool, true, false, some, arith}
use validating_lightning_sig.Channel.{
  PaymentHash, claimable_balance, outbound_fee, value_to_parties, add_claimable, holder_offered,
  holder_received, total_value, sum_values,
}
use validating_lightning_sig.Channel.Balance.{
  mirrored, outputs, values, claimable_balance-conserved,
}
use validating_lightning_sig.Samples.{info}

abbrev known : PaymentHash → Bool
known hash = hash == 5

fits : outputs info ≤ 1_000_000
unfolding values
fits = omega arith

claimable_balance-conserved_example :
    (ours : ℕ) × (theirs : ℕ) × (claimable_balance info known true 1_000_000 ≡ some ours)
    × (claimable_balance (mirrored info) known false 1_000_000 ≡ some theirs)
    × (ours + theirs ≡ 1_000_000)
claimable_balance-conserved_example =
    claimable_balance-conserved info known 1_000_000 true fits (omega arith)

paid_test : claimable_balance info known true 1_000_000 ≡ some 690_000
unfolding claimable_balance outbound_fee value_to_parties add_claimable holder_offered
    holder_received total_value sum_values
paid_test = refl
