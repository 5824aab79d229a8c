-- ===== src/Protocol/Splice/Tests.antt =====
-- A splice that is refused, one that is locked, and the close that follows.
use validating_lightning_sig.Common.{
  ℕ, ◌-◌, ◌/◌, ◌≡◌, refl, ◌≢◌, Bool, false, true, Option, none, some, arith, ok, err,
}
use validating_lightning_sig.Policy.Filter.{Enforced}
use validating_lightning_sig.Channel.{OutPoint, ChannelSetup, ChainState}
use validating_lightning_sig.Channel.Equality.{setup_eq, outpoint_eq, option_eq, type_eq, points_eq}
use validating_lightning_sig.Channel.Enforcement.{retire_prev_funding}
use validating_lightning_sig.Samples.{policy, policy-Strict, setup, state, wallet, closings}
use validating_lightning_sig.Validator.{validate_setup_channel}
use validating_lightning_sig.Validator.Onchain.{OnchainPolicy, ensure_funding_buried_and_unspent}
use validating_lightning_sig.Validator.MutualClose.{ClosingTransaction, ValidateArgs}
use validating_lightning_sig.Validator.MutualClose
use validating_lightning_sig.Validator.MutualClose.Accepted.{Close}
use validating_lightning_sig.Validator
use validating_lightning_sig.Protocol.{Answer, Status, failed_precondition, setup_for_outpoint}
use validating_lightning_sig.Protocol.Signing.{sign_mutual_close_tx_phase2}
use validating_lightning_sig.Protocol.Splice.{
  Channel, is_splice_compatible, put_back, setup_ready, splice_pending, locked_values,
  confirm_funding_locked, lock_state, to_holder_msat,
}
use validating_lightning_sig.Protocol.Splice.Locked.{lock_retires}
use validating_lightning_sig.Protocol.Splice.LockedClose.{closed_after_lock}
use validating_lightning_sig.Protocol.Splice.Swapped.{refused_splice_swapped, IsSplice}

abbrev channel : Channel
channel = record {
  eras = record { setup = setup; prev_setup = none; prev_prev_setup = none };
  funding_locked = none;
  enforcement_state = state;
}

-- The splice names a shutdown script of someone else.
abbrev foreign_setup : ChannelSetup
foreign_setup = record setup {
  funding_outpoint = record { txid = 50; vout = 1 };
  channel_value_sat = 1_500_000;
  holder_shutdown_script = some 66;
}

abbrev can_spend : ℕ → Option Bool
can_spend script = some false

abbrev allowlisted : ℕ → Bool
allowlisted script = false

foreign-IsSplice : IsSplice policy can_spend allowlisted channel foreign_setup
unfolding is_splice_compatible put_back setup_eq outpoint_eq option_eq type_eq points_eq
foreign-IsSplice = (refl, refl)

refused_splice_swapped_example :
    (st : Status) × (c' : Channel) × (setup_ready policy can_spend allowlisted channel foreign_setup
      ≡ (err st, c'))
    × (c'.eras.setup ≡ foreign_setup)
    × ((onchain : OnchainPolicy) (cstate : ChainState) (commit_num : ℕ)
        → Enforced onchain.filter "policy-commitment-spends-active-utxo"
        → cstate.splice_pending ≡ splice_pending c'
        → ensure_funding_buried_and_unspent onchain commit_num cstate ≡ ok tt)
refused_splice_swapped_example =
    refused_splice_swapped policy can_spend allowlisted channel foreign_setup policy-Strict
      foreign-IsSplice 66 refl refl refl

abbrev spliced : Channel
spliced = record channel {
  eras = record {
    setup = record setup { funding_outpoint = record { txid = 50; vout = 1 } };
    prev_setup = some setup;
    prev_prev_setup = none;
  };
}

abbrev new_outpoint : OutPoint
new_outpoint = record { txid = 50; vout = 1 }

lock_retires_example :
    (c' : Channel) × (confirm_funding_locked spliced new_outpoint ≡ (ok tt, c'))
    × (c'.funding_locked ≡ some new_outpoint)
    × (c'.eras ≡ record { setup = spliced.eras.setup; prev_setup = none; prev_prev_setup = none })
    × (splice_pending c' ≡ false)
    × (c'.enforcement_state.prev_funding_commitment ≡ none)
    × ((other : OutPoint)
        → other ≢ new_outpoint
        → setup_for_outpoint c'.eras other ≡ err failed_precondition)
    × (confirm_funding_locked c' new_outpoint ≡ (ok tt, c'))
lock_retires_example = lock_retires spliced new_outpoint refl refl

-- An inbound channel, of whose million satoshi 300_000 are the holder's.
abbrev inbound : ChannelSetup
inbound = record setup { is_outbound = false; push_value_msat = 300_000_000 }

starts : to_holder_msat inbound ≡ ok 300_000_000
unfolding to_holder_msat
starts = refl

abbrev args : ValidateArgs
args = record {
  to_holder_value_sat = 700_000;
  to_counterparty_value_sat = 299_000;
  holder_script = some 9;
  counterparty_script = some 30;
  wallet_path = 4;
}

abbrev sign : ClosingTransaction → Answer ℕ
sign tx = ok 1

closes :
    sign_mutual_close_tx_phase2 policy wallet closings sign inbound
      (lock_state inbound true state)
      args
    ≡ ok (1, record (lock_state inbound true state) { channel_closed = true })
unfolding sign_mutual_close_tx_phase2 lock_state locked_values MutualClose.validate_mutual_close_tx
    MutualClose.check_scripts MutualClose.check_fee MutualClose.check_values
    MutualClose.check_holder_output MutualClose.htlcs_is_empty MutualClose.is_empty
    MutualClose.mutual_close_tx_weight MutualClose.closing Validator.validate_fee
    Validator.estimate_feerate_per_kw Validator.outside_epsilon_range option_eq retire_prev_funding
closes = refl

closed_after_lock_example :
    Close policy.epsilon_sat 700_000 (inbound.channel_value_sat - inbound.push_value_msat / 1000)
closed_after_lock_example =
    closed_after_lock policy policy-Strict wallet closings sign inbound state
      (omega arith, omega arith, omega arith) args 1 refl (omega arith) closes
