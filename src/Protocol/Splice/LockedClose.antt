-- ===== src/Protocol/Splice/LockedClose.antt =====
-- A mutual close after a locked splice is held against the values that the lock installed.
use validating_lightning_sig.Common.{
  ℕ, ◌+◌, ◌-◌, ◌*◌, ◌/◌, ◌<◌, ◌≡◌, true, false, arith, u64_mod, ok,
}
use validating_lightning_sig.Policy.Filter.{Strict}
use validating_lightning_sig.Channel.{ChannelSetup}
use validating_lightning_sig.Channel.Enforcement.{EnforcementState}
use validating_lightning_sig.Validator.{SimplePolicy}
use validating_lightning_sig.Validator.MutualClose.{
  Wallet, Closings, ClosingTransaction, ValidateArgs, validate_mutual_close_tx,
}
use validating_lightning_sig.Validator.MutualClose.Accepted.{Close, validate_mutual_close_tx-IsFair}
use validating_lightning_sig.Protocol.{Answer}
use validating_lightning_sig.Protocol.Signing.{sign_mutual_close_tx_phase2}
use validating_lightning_sig.Protocol.Signing.Closed.{mutual_close_phase2_ok}
use validating_lightning_sig.Protocol.Run.Moves.{status-eq-ok}
use validating_lightning_sig.Protocol.Splice.{lock_state, locked_values}
use validating_lightning_sig.Protocol.Splice.Locked.{HasPlainPush}

module _ (policy : SimplePolicy) (strict : Strict policy.filter) (wallet : Wallet)
    (closings : Closings) (sign : ClosingTransaction → Answer ℕ) (setup : ChannelSetup)
    (s : EnforcementState) (plain : HasPlainPush setup) where
  -- Under a filter that demotes nothing and for a channel value far from the bound of u64, a
  -- mutual close that is signed right after the lock of a spliced inbound channel with a plain
  -- push gives the holder, but for the policy's epsilon, the funding less the push.
  pub closed_after_lock :
      (args : ValidateArgs) (sig : ℕ) {s' : EnforcementState}
      → setup.is_outbound ≡ false
      → setup.channel_value_sat * 1000 + 999 < u64_mod
      → sign_mutual_close_tx_phase2 policy wallet closings sign setup (lock_state setup true s) args
        ≡ ok (sig, s')
      → Close policy.epsilon_sat args.to_holder_value_sat
          (setup.channel_value_sat - setup.push_value_msat / 1000)
  unfolding lock_state locked_values
  closed_after_lock args sig inbound small e =
      let (checked, _, _) =
        mutual_close_phase2_ok policy wallet closings sign setup (lock_state setup true s) args sig
          e in
      let valid =
        status-eq-ok
          (validate_mutual_close_tx policy wallet closings setup (lock_state setup true s) args)
          checked in
      let fair =
        validate_mutual_close_tx-IsFair policy strict wallet closings setup
          (lock_state setup true s) args small valid in
      let (near, _) = fair.value.0 inbound in
      let known : fair.holder_info.to_broadcaster_value_sat
          ≡ setup.channel_value_sat - setup.push_value_msat / 1000 =
        ground (arith, fair.holder_known) in
      rw (← known) near
