-- ===== src/Samples.antt =====
-- Concrete data for the tests: a policy, a channel, a commitment and a state in mid-life.
use validating_lightning_sig.Common.{◌==◌, false, true, none, some, [], ◌∷◌}
use validating_lightning_sig.Policy.{default}
use validating_lightning_sig.Policy.Filter.{Strict, Enforced-default}
use validating_lightning_sig.Velocity.{unlimited, daily}
use validating_lightning_sig.Channel.{
  OutPoint, HtlcInfo2, CommitmentInfo2, CommitmentSignatures, ChannelSetup, ChainState,
  static_remote_key,
}
use validating_lightning_sig.Channel.Secrets
use validating_lightning_sig.Channel.Enforcement.{EnforcementState}
use validating_lightning_sig.Validator.{SimplePolicy}
use validating_lightning_sig.Validator.MutualClose.{Wallet, Closings}
use validating_lightning_sig.Monitor.Transactions.{Transaction}

abbrev pub policy : SimplePolicy
policy = record {
  min_delay = 4;
  max_delay = 1440;
  max_channel_size_sat = 100_000_000;
  epsilon_sat = 10_000;
  max_htlcs = 1000;
  max_htlc_value_sat = 16_777_216;
  use_chain_state = false;
  min_feerate_per_kw = 253;
  max_feerate_per_kw = 25_000;
  enforce_balance = false;
  max_routing_fee_msat = 10_000;
  max_feerate_percentage = 10;
  cltv_delta = 34;
  disable_beneficial_balance_checks = false;
  filter = default;
  global_velocity_control = record { limit_msat = 0; interval_type = unlimited };
  max_channels = 100;
  max_invoices = 1000;
  fee_velocity_control = record { limit_msat = 1_000_000; interval_type = daily };
}

pub policy-Strict : Strict policy.filter
policy-Strict = Enforced-default

abbrev pub outpoint : OutPoint
outpoint = record { txid = 7; vout = 0 }

abbrev pub setup : ChannelSetup
setup = record {
  is_outbound = true;
  channel_value_sat = 1_000_000;
  push_value_msat = 0;
  funding_outpoint = outpoint;
  holder_selected_contest_delay = 6;
  holder_shutdown_script = none;
  counterparty_points = record {
    funding_pubkey = 21;
    revocation_basepoint = 22;
    payment_point = 23;
    delayed_payment_basepoint = 24;
    htlc_basepoint = 25;
  };
  counterparty_selected_contest_delay = 6;
  counterparty_shutdown_script = none;
  commitment_type = static_remote_key;
}

abbrev pub cstate : ChainState
cstate = record {
  current_height = 100;
  funding_depth = 6;
  funding_double_spent_depth = 0;
  closing_depth = 0;
  splice_pending = false;
}

abbrev pub htlc : HtlcInfo2
htlc = record { value_sat = 10_000; payment_hash = 5; cltv_expiry = 300 }

abbrev pub info : CommitmentInfo2
info = record {
  is_counterparty_broadcaster = false;
  to_countersigner_value_sat = 300_000;
  to_broadcaster_value_sat = 689_000;
  offered_htlcs = htlc ∷ [];
  received_htlcs = [];
  feerate_per_kw = 1000;
}

abbrev pub sigs : CommitmentSignatures
sigs = record { signature = 1; htlc_signatures = [] }

-- Holder commitments 0 and 1 are made, 2 is pending; the counterparty's are at 2, and 1 is not revoked.
abbrev pub state : EnforcementState
state = record {
  next_holder_commit_num = 2;
  next_counterparty_commit_num = 3;
  next_counterparty_revoke_num = 1;
  current_counterparty_point = some 12;
  previous_counterparty_point = some 11;
  current_holder_commit_info = some info;
  current_counterparty_signatures = some sigs;
  next_holder_commit_info = some (info, sigs);
  current_counterparty_commit_info = some info;
  previous_counterparty_commit_info = some info;
  channel_closed = false;
  initial_holder_value = 1_000_000;
  counterparty_secrets = some Secrets.new;
  holder_commitment_funding = some outpoint;
  prev_funding_commitment = none;
  counterparty_commitment_funding = some outpoint;
}

-- A channel with no pending HTLC: 700_000 sat are the holder's, 300_000 the counterparty's.
abbrev pub settled_state : EnforcementState
settled_state = record state {
  current_holder_commit_info = some (record {
    is_counterparty_broadcaster = false;
    to_countersigner_value_sat = 300_000;
    to_broadcaster_value_sat = 700_000;
    offered_htlcs = [];
    received_htlcs = [];
    feerate_per_kw = 1000;
  });
  current_counterparty_commit_info = some (record {
    is_counterparty_broadcaster = true;
    to_countersigner_value_sat = 700_000;
    to_broadcaster_value_sat = 300_000;
    offered_htlcs = [];
    received_htlcs = [];
    feerate_per_kw = 1000;
  });
}

-- Script 9 is the wallet's, and script 8 on the allowlist.
abbrev pub wallet : Wallet
wallet = record {
  can_spend = λ path script. some (script == 9);
  allowlist_contains = λ script path. script == 8;
}

abbrev pub closings : Closings
closings = record {
  empty_script = 0;
  master_path = 0;
  built_weight = λ tx. 500;
  builds = λ close tx. true;
}

abbrev pub closing_tx : Transaction
closing_tx = record {
  txid = 40;
  version = 2;
  lock_time = 0;
  input = record { previous_output = outpoint; sequence = 0 } ∷ [];
  output =
      record { value = 300_000; script_pubkey = 30 }
      ∷ record { value = 699_000; script_pubkey = 9 }
      ∷ [];
}
