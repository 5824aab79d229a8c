-- ===== src/Channel/Totals.antt =====
-- The balance of a channel that the node reports: `CommitmentInfo2::htlc_balance` of
-- vls-core/src/tx/tx.rs, `EnforcementState::balance` of policy/validator.rs, and `ChannelBalance` of
-- channel.rs. A sum that overflows is a panic in `htlc_balance`, and wraps elsewhere.
pub mod Counts
mod Tests
use validating_lightning_sig.Common.{
  ℕ, Bool, true, false, Option, none, some, List, [], ◌∷◌, ltb, if◌then◌else◌, length, u64_add,
  u32_add, to_u32, checked_add,
}
use validating_lightning_sig.Common.Panics.{◌>>=◌}
use validating_lightning_sig.Channel.{
  PaymentHash, HtlcInfo2, CommitmentInfo2, ChannelSetup, claimable_balance, holder_offered,
  holder_received,
}
use validating_lightning_sig.Channel.Enforcement.{EnforcementState}

pub record ChannelBalance : Type 0 where
  pub claimable : ℕ
  pub received_htlc : ℕ
  pub offered_htlc : ℕ
  pub sweeping : ℕ
  pub stub_count : ℕ
  pub unconfirmed_count : ℕ
  pub channel_count : ℕ
  pub closing_count : ℕ
  pub received_htlc_count : ℕ
  pub offered_htlc_count : ℕ

unfoldable pub zero_balance : ChannelBalance
zero_balance = record {
  claimable = 0;
  received_htlc = 0;
  offered_htlc = 0;
  sweeping = 0;
  stub_count = 0;
  unconfirmed_count = 0;
  channel_count = 0;
  closing_count = 0;
  received_htlc_count = 0;
  offered_htlc_count = 0;
}

unfoldable pub stub_balance : ChannelBalance
unfolding zero_balance
stub_balance = record zero_balance { stub_count = 1 }

unfoldable pub accumulate : ChannelBalance → ChannelBalance → ChannelBalance
accumulate self other = record {
  claimable = u64_add self.claimable other.claimable;
  received_htlc = u64_add self.received_htlc other.received_htlc;
  offered_htlc = u64_add self.offered_htlc other.offered_htlc;
  sweeping = u64_add self.sweeping other.sweeping;
  stub_count = u32_add self.stub_count other.stub_count;
  unconfirmed_count = u32_add self.unconfirmed_count other.unconfirmed_count;
  channel_count = u32_add self.channel_count other.channel_count;
  closing_count = u32_add self.closing_count other.closing_count;
  received_htlc_count = u32_add self.received_htlc_count other.received_htlc_count;
  offered_htlc_count = u32_add self.offered_htlc_count other.offered_htlc_count;
}

unfoldable pub checked_total : ℕ → List HtlcInfo2 → Option ℕ
checked_total sum [] = some sum
checked_total sum (h ∷ hs) = checked_add sum h.value_sat >>= λ sum'. checked_total sum' hs

-- Received and offered: the sums and the numbers of the HTLCs.
pub record HtlcBalance : Type 0 where
  pub sum_received : ℕ
  pub sum_offered : ℕ
  pub received_count : ℕ
  pub offered_count : ℕ

unfoldable pub htlc_balance : CommitmentInfo2 → Option HtlcBalance
unfolding checked_total holder_offered holder_received
htlc_balance self = checked_total 0 (holder_offered self) >>= λ offered.
    checked_total 0 (holder_received self) >>= λ received. some (record {
      sum_received = received;
      sum_offered = offered;
      received_count = to_u32 (length (holder_received self));
      offered_count = to_u32 (length (holder_offered self));
    })

abbrev pub or_zero : Option ℕ → ℕ
or_zero none = 0
or_zero (some b) = b

-- The counts of a channel: it is closing, active, or not confirmed yet.
unfoldable pub reported : Bool → Bool → ℕ → HtlcBalance → ChannelBalance
unfolding zero_balance
reported channel_closed is_ready cur_bal htlcs = record {
  claimable = if channel_closed then 0 else cur_bal;
  received_htlc = htlcs.sum_received;
  offered_htlc = htlcs.sum_offered;
  sweeping = if channel_closed then cur_bal else 0;
  stub_count = 0;
  unconfirmed_count = if channel_closed then 0 else (if is_ready then 0 else 1);
  channel_count = if channel_closed then 0 else (if is_ready then 1 else 0);
  closing_count = if channel_closed then 1 else 0;
  received_htlc_count = htlcs.received_count;
  offered_htlc_count = htlcs.offered_count;
}

-- The lower of the two balances is reported, with the HTLCs of the same commitment.
unfoldable pub lower_side : CommitmentInfo2 → CommitmentInfo2 → ℕ → ℕ → Option (ℕ × HtlcBalance)
unfolding htlc_balance
lower_side holder_info counterparty_info cur_holder_bal cur_cp_bal =
    if ltb cur_holder_bal cur_cp_bal
    then (htlc_balance holder_info >>= λ htlcs. some (cur_holder_bal, htlcs))
    else (htlc_balance counterparty_info >>= λ htlcs. some (cur_cp_bal, htlcs))

module _ (has_preimage : PaymentHash → Bool) (setup : ChannelSetup) (is_ready : Bool) where
  unfoldable pub balance_of_infos :
      EnforcementState → Option CommitmentInfo2 → Option CommitmentInfo2 → Option ChannelBalance
  unfolding lower_side reported
  balance_of_infos self (some holder_info) (some counterparty_info) =
      lower_side holder_info counterparty_info
        (or_zero
          (claimable_balance holder_info has_preimage setup.is_outbound setup.channel_value_sat))
        (or_zero (
          claimable_balance counterparty_info has_preimage setup.is_outbound
            setup.channel_value_sat))
      >>= λ both. some (reported self.channel_closed is_ready both.0 both.1)
  balance_of_infos self _ _ = some zero_balance

  unfoldable pub balance : EnforcementState → Option ChannelBalance
  unfolding balance_of_infos
  balance self =
      balance_of_infos self self.current_holder_commit_info self.current_counterparty_commit_info
