-- ===== src/Protocol/Splice/Locked.antt =====
-- What a locked funding leaves behind, and how its baseline values stand to those that a channel
-- starts with.
use validating_lightning_sig.Common.{
  ℕ, ◌+◌, ◌*◌, ◌≤◌, ◌<◌, ◌≡◌, refl, ◌≢◌, true, false, none, some, arith, u64_mod, ok, err,
}
use validating_lightning_sig.Channel.{OutPoint, CommitmentInfo2, ChannelSetup}
use validating_lightning_sig.Channel.Equality.{outpoint_eq, outpoint_eq_refl, outpoint_eq_other}
use validating_lightning_sig.Channel.Enforcement.{EnforcementState, retire_prev_funding}
use validating_lightning_sig.Protocol.{setup_for_outpoint, failed_precondition}
use validating_lightning_sig.Protocol.Splice.{
  Channel, i64_max, locked_values, lock_state, is_locked, locked_channel, confirm_funding_locked,
  to_holder_msat, minimum_initial_balance, splice_pending,
}

module _ (c : Channel) (outpoint : OutPoint) where
  -- A lock of the current funding that was not recorded before is recorded, and ends the splice
  -- window: the setup stays, no earlier setup is kept, only the current funding is still found,
  -- the snapshot of the retiring funding is gone, and repeating the lock changes nothing.
  pub lock_retires :
      is_locked c.funding_locked outpoint ≡ false
      → outpoint ≡ c.eras.setup.funding_outpoint
      → (c' : Channel) × (confirm_funding_locked c outpoint ≡ (ok tt, c'))
        × (c'.funding_locked ≡ some outpoint)
        × (c'.eras ≡ record { setup = c.eras.setup; prev_setup = none; prev_prev_setup = none })
        × (splice_pending c' ≡ false)
        × (c'.enforcement_state.prev_funding_commitment ≡ none)
        × ((other : OutPoint)
            → other ≢ outpoint
            → setup_for_outpoint c'.eras other ≡ err failed_precondition)
        × (confirm_funding_locked c' outpoint ≡ (ok tt, c'))
  unfolding confirm_funding_locked locked_channel splice_pending lock_state retire_prev_funding
      setup_for_outpoint
  lock_retires fresh same =
      let itself = outpoint_eq_refl outpoint in
      let matched : outpoint_eq outpoint c.eras.setup.funding_outpoint ≡ true =
        rw (← same) itself in
      (
        locked_channel c outpoint,
        rw (fresh, matched) refl,
        refl,
        refl,
        refl,
        ground arith,
        (λ other different.
            let missed : outpoint_eq other c.eras.setup.funding_outpoint ≡ false =
              rw (← same) (outpoint_eq_other other outpoint different) in
            rw missed refl),
        rw itself refl,
      )

-- A plain push that the funding covers, and a funding value that does not overflow in millisatoshi.
abbrev pub HasPlainPush : ChannelSetup → Type 0
HasPlainPush setup =
    (setup.push_value_msat ≤ setup.channel_value_sat * 1000)
    × (setup.channel_value_sat * 1000 < u64_mod)
    × (setup.push_value_msat ≤ i64_max)

module _ (setup : ChannelSetup) (s : EnforcementState) (plain : HasPlainPush setup) where
  -- On an outbound channel with a plain push that the funding covers, a lock after a splice
  -- installs for the holder the value that a channel with this setup starts with, but for less
  -- than a satoshi. On an inbound one it installs the counterparty's value instead: what it
  -- gives the holder and what the channel would start with for the holder make up the whole
  -- funding.
  pub locked_baseline :
      (holder_msat : ℕ)
      → to_holder_msat setup ≡ ok holder_msat
      → (info : CommitmentInfo2) → (lock_state setup true s).current_holder_commit_info ≡ some info
      → (setup.is_outbound ≡ true
          → (minimum_initial_balance holder_msat ≤ info.to_broadcaster_value_sat)
            × (info.to_broadcaster_value_sat ≤ minimum_initial_balance holder_msat + 1))
        × (setup.is_outbound ≡ false
            → info.to_broadcaster_value_sat + minimum_initial_balance holder_msat
              ≡ setup.channel_value_sat)
  unfolding to_holder_msat lock_state locked_values minimum_initial_balance
  locked_baseline holder_msat start info have =
      ((λ out. (ground arith, ground arith)), (λ inbound. ground arith))
