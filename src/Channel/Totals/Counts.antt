-- ===== src/Channel/Totals/Counts.antt =====
-- What the reported balance of a channel adds up to.
use validating_lightning_sig.Common.{
  ℕ, length, to_u32, ◌+◌, ◌≤◌, ◌<◌, ◌≡◌, Bool, some, List, [], ◌∷◌, arith, ltb, if◌then◌else◌, min,
  u64_mod,
}
use validating_lightning_sig.Channel.{
  PaymentHash, HtlcInfo2, CommitmentInfo2, ChannelSetup, claimable_balance, holder_offered,
  holder_received,
}
use validating_lightning_sig.Channel.Balance.{values, outputs, claimable_balance-conserved}
use validating_lightning_sig.Channel.Enforcement.{EnforcementState}
use validating_lightning_sig.Channel.Totals.{
  ChannelBalance, HtlcBalance, checked_total, htlc_balance, lower_side, reported, balance_of_infos,
  balance,
}

checked_total-values :
    (sum : ℕ) (hs : List HtlcInfo2)
    → sum + values hs < u64_mod
    → checked_total sum hs ≡ some (sum + values hs)
unfolding checked_total values
checked_total-values sum [] small = ground arith
checked_total-values sum (h ∷ hs) small =
    ground (arith, checked_total-values (sum + h.value_sat) hs (omega arith))

-- The HTLCs of a commitment as the holder sees them.
abbrev htlcs_of : CommitmentInfo2 → HtlcBalance
htlcs_of info = record {
  sum_received = values (holder_received info);
  sum_offered = values (holder_offered info);
  received_count = to_u32 (length (holder_received info));
  offered_count = to_u32 (length (holder_offered info));
}

htlc_balance-htlcs_of :
    (info : CommitmentInfo2) → outputs info < u64_mod → htlc_balance info ≡ some (htlcs_of info)
unfolding htlc_balance holder_offered holder_received
htlc_balance-htlcs_of info small =
    let offered = checked_total-values 0 info.offered_htlcs (omega arith) in
    let received = checked_total-values 0 info.received_htlcs (omega arith) in
    ground (arith, offered, received)

module _ (known : PaymentHash → Bool) (setup : ChannelSetup) (is_ready : Bool)
    (s : EnforcementState) (h c : CommitmentInfo2) where
  -- A channel with a commitment of both sides, whose outputs and HTLCs fit in a channel value
  -- that is a u64, reports a balance: the lower of what the two commitments let the holder
  -- claim, as claimable while the channel is open and as being swept once it is closed, which
  -- is at most the channel's value; and it counts as exactly one channel, that is closing,
  -- active or not confirmed.
  pub balance_exact :
      s.current_holder_commit_info ≡ some h
      → s.current_counterparty_commit_info ≡ some c
      → outputs h ≤ setup.channel_value_sat
      → outputs c ≤ setup.channel_value_sat
      → setup.channel_value_sat < u64_mod
      → (b : ChannelBalance) × (ours : ℕ) × (theirs : ℕ) × (balance known setup is_ready s ≡ some b)
        × (claimable_balance h known setup.is_outbound setup.channel_value_sat ≡ some ours)
        × (claimable_balance c known setup.is_outbound setup.channel_value_sat ≡ some theirs)
        × (b.claimable ≡ (if s.channel_closed then 0 else min ours theirs))
        × (b.sweeping ≡ (if s.channel_closed then min ours theirs else 0))
        × (b.claimable + b.sweeping ≤ setup.channel_value_sat)
        × (b.closing_count ≡ (if s.channel_closed then 1 else 0))
        × (b.unconfirmed_count + b.channel_count + b.closing_count ≡ 1)
  unfolding balance balance_of_infos lower_side reported
  balance_exact have_h have_c fit_h fit_c word =
      let value = setup.channel_value_sat in
      let funder = setup.is_outbound in
      let (ours, rest, e, e', whole) =
        claimable_balance-conserved h known value funder fit_h word in
      let (theirs, rest', f, f', whole') =
        claimable_balance-conserved c known value funder fit_c word in
      let in_h = htlc_balance-htlcs_of h (omega arith) in
      let in_c = htlc_balance-htlcs_of c (omega arith) in
      let b : ChannelBalance =
        if ltb ours theirs
        then reported s.channel_closed is_ready ours (htlcs_of h)
        else reported s.channel_closed is_ready theirs (htlcs_of c) in
      (
        b,
        ours,
        theirs,
        ground (arith, have_h, have_c, e, f, in_h, in_c),
        e,
        f,
        ground arith,
        ground arith,
        ground (arith, whole, whole'),
        ground arith,
        ground arith,
      )
