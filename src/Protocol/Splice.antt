-- ===== src/Protocol/Splice.antt =====
-- The funding of a channel and its splices: `Node::setup_channel` of vls-core/src/node.rs on a stub
-- and on a ready channel, and `is_splice_compatible`, `confirm_funding_locked`, `setup_for_tx` and
-- `sign_splice_tx` of channel.rs. The tracker's listeners and the persister are not modelled, so a
-- call that they make fail is none here.
pub mod Locked
pub mod LockedClose
pub mod Swapped
mod Tests
use validating_lightning_sig.Common.{
  ℕ, ◌-◌, ◌/◌, ◌^◌, Bool, true, false, not, ◌&&◌, ◌||◌, Option, none, some, List, [], ◌∷◌, ltb, leb,
  ◌==◌, ◌!=◌, if◌then◌else◌, get_elem?, u64_mul, checked_sub, Outcome, ok, err, panic, ◌>>=◌, ◌>>◌,
  when, ok_or,
}
use validating_lightning_sig.Policy.{policy_error}
use validating_lightning_sig.Channel.{
  PublicKey, OutPoint, CommitmentInfo2, ChannelPublicKeys, ChannelSetup,
}
use validating_lightning_sig.Channel.Equality.{outpoint_eq, setup_eq}
use validating_lightning_sig.Channel.Enforcement.{
  EnforcementState, present, new, snapshot_funding_for_splice, retire_prev_funding,
}
use validating_lightning_sig.Monitor.Transactions.{Transaction, TxIn}
use validating_lightning_sig.Validator.{SimplePolicy, validate_setup_channel}
use validating_lightning_sig.Protocol.{Answer, Eras, status, invalid_argument, era}

pub record Channel : Type 0 where
  pub eras : Eras
  pub funding_locked : Option OutPoint
  pub enforcement_state : EnforcementState

abbrev pub i64_max : ℕ
i64_max = 2 ^ 63 - 1

-- The new setup with the fields that a splice may change put back.
unfoldable pub put_back : ChannelSetup → ChannelSetup → ChannelSetup
put_back self new_setup = record new_setup {
  counterparty_points = record new_setup.counterparty_points {
    funding_pubkey = self.counterparty_points.funding_pubkey;
  };
  holder_shutdown_script =
      if present self.holder_shutdown_script then new_setup.holder_shutdown_script else none;
  counterparty_shutdown_script =
      if present self.counterparty_shutdown_script
      then new_setup.counterparty_shutdown_script
      else none;
  funding_outpoint = self.funding_outpoint;
  channel_value_sat = self.channel_value_sat;
  push_value_msat = self.push_value_msat;
}

unfoldable pub is_splice_compatible : ChannelSetup → ChannelSetup → Bool
unfolding put_back
is_splice_compatible self new_setup =
    setup_eq (put_back self new_setup) self
    && not (outpoint_eq new_setup.funding_outpoint self.funding_outpoint)

-- A push that is negative arrives as a u64 near the top.
abbrev pub push_is_plain_msat : ChannelSetup → Bool
push_is_plain_msat setup = leb setup.push_value_msat i64_max

unfoldable pub swapped_channel : Channel → ChannelSetup → Channel
swapped_channel c setup = record {
  eras = record {
    setup = setup;
    prev_setup = some c.eras.setup;
    prev_prev_setup = c.eras.prev_setup;
  };
  funding_locked = c.funding_locked;
  enforcement_state =
      snapshot_funding_for_splice c.enforcement_state c.eras.setup.funding_outpoint
        c.eras.setup.push_value_msat;
}

-- What `initial_holder_value_sat` is computed from.
unfoldable pub to_holder_msat : ChannelSetup → Answer ℕ
to_holder_msat setup =
    if setup.is_outbound
    then status (
        ok_or (policy_error "policy-routing-balanced")
          (checked_sub (u64_mul setup.channel_value_sat 1000) setup.push_value_msat))
    else ok setup.push_value_msat

unfoldable pub minimum_initial_balance : ℕ → ℕ
minimum_initial_balance holder_value_msat = holder_value_msat / 1000

module _ (policy : SimplePolicy) (can_spend : ℕ → Option Bool) (allowlist_contains : ℕ → Bool) where
  -- `setup_channel` on a stub.
  unfoldable pub setup_stub : ChannelSetup → Answer Channel
  unfolding to_holder_msat minimum_initial_balance
  setup_stub setup = do
    holder_msat ← to_holder_msat setup
    status (validate_setup_channel policy can_spend allowlist_contains setup)
    ok (record {
      eras = record { setup = setup; prev_setup = none; prev_prev_setup = none };
      funding_locked = none;
      enforcement_state = new (minimum_initial_balance holder_msat);
    })

  -- `setup_channel` on a ready channel, and the channel as it then is: the setup is swapped before it is
  -- validated.
  unfoldable pub setup_ready : Channel → ChannelSetup → Answer (Unit {0}) × Channel
  unfolding is_splice_compatible swapped_channel
  setup_ready c setup =
      if setup_eq c.eras.setup setup
      then (ok tt, c)
      else if not (is_splice_compatible c.eras.setup setup)
      then (err invalid_argument, c)
      else if push_is_plain_msat setup
          && ltb (u64_mul setup.channel_value_sat 1000) setup.push_value_msat
      then (err invalid_argument, c)
      else (
        status (validate_setup_channel policy can_spend allowlist_contains setup),
        swapped_channel c setup,
      )

abbrev pub plain_info : Bool → ℕ → ℕ → CommitmentInfo2
plain_info is_counterparty_broadcaster to_countersigner_value_sat to_broadcaster_value_sat =
    record {
      is_counterparty_broadcaster = is_counterparty_broadcaster;
      to_countersigner_value_sat = to_countersigner_value_sat;
      to_broadcaster_value_sat = to_broadcaster_value_sat;
      offered_htlcs = [];
      received_htlcs = [];
      feerate_per_kw = 0;
    }

-- Values to holder and counterparty that a lock installs.
unfoldable pub locked_values : ChannelSetup → EnforcementState → ℕ × ℕ
locked_values setup self =
    if push_is_plain_msat setup
    then (setup.channel_value_sat - setup.push_value_msat / 1000, setup.push_value_msat / 1000)
    else (self.initial_holder_value, setup.channel_value_sat - self.initial_holder_value)

-- What a lock does to the enforcement state, after a splice or without one.
unfoldable pub lock_state : ChannelSetup → Bool → EnforcementState → EnforcementState
unfolding locked_values retire_prev_funding
lock_state setup was_splice self =
    let retired = retire_prev_funding self in
    let to_holder = (locked_values setup self).0 in
    let to_cp = (locked_values setup self).1 in
    if was_splice
    then record retired {
      current_holder_commit_info = some (plain_info false to_cp to_holder);
      current_counterparty_commit_info = some (plain_info true to_holder to_cp);
    }
    else retired

-- `self.funding_locked == Some(*outpoint)`
abbrev pub is_locked : Option OutPoint → OutPoint → Bool
is_locked none outpoint = false
is_locked (some f) outpoint = outpoint_eq f outpoint

unfoldable pub locked_channel : Channel → OutPoint → Channel
unfolding lock_state
locked_channel self outpoint = record {
  eras = record { setup = self.eras.setup; prev_setup = none; prev_prev_setup = none };
  funding_locked = some outpoint;
  enforcement_state =
      lock_state self.eras.setup (present self.eras.prev_setup || present self.eras.prev_prev_setup)
        self.enforcement_state;
}

unfoldable pub confirm_funding_locked : Channel → OutPoint → Answer (Unit {0}) × Channel
unfolding locked_channel
confirm_funding_locked self outpoint =
    if is_locked self.funding_locked outpoint
    then (ok tt, self)
    else if not (outpoint_eq outpoint self.eras.setup.funding_outpoint)
    then (err invalid_argument, self)
    else (ok tt, locked_channel self outpoint)

-- `Channel::get_chain_state` sets this flag of the monitor's chain state.
unfoldable pub splice_pending : Channel → Bool
splice_pending self = present self.eras.prev_setup

-- The era that an outpoint belongs to, or what follows where there is none.
abbrev pub view_of : Eras → OutPoint → Answer ChannelSetup → Answer ChannelSetup
view_of self outpoint otherwise =
    era outpoint (some self.setup)
      (era outpoint self.prev_setup (era outpoint self.prev_prev_setup otherwise))

-- `o.unwrap_or(d)`
abbrev pub value_or : Option ℕ → ℕ → ℕ
value_or none d = d
value_or (some a) d = a

-- The oldest era is looked at only where there is a previous one.
unfoldable pub splice_view : Eras → OutPoint → Answer ChannelSetup
splice_view self outpoint = era outpoint (some self.setup) (
    if present self.prev_setup
    then era outpoint self.prev_setup (era outpoint self.prev_prev_setup (err invalid_argument))
    else err invalid_argument)

-- An unknown funding falls back to the current setup.
unfoldable pub setup_for_tx : Eras → List TxIn → Answer ChannelSetup
setup_for_tx self [] = ok self.setup
setup_for_tx self (txin ∷ inputs) = view_of self txin.previous_output (setup_for_tx self inputs)

module _ (sign : Transaction → ℕ → PublicKey → ℕ → Answer ℕ) where
  unfoldable pub sign_splice_tx : Eras → Transaction → ℕ → PublicKey → Option ℕ → Answer ℕ
  unfolding splice_view
  sign_splice_tx self tx input_index remote_funding_key input_amount_sat = do
    input ← ok_or invalid_argument (get_elem? tx.input input_index)
    view ← splice_view self input.previous_output
    when (remote_funding_key != view.counterparty_points.funding_pubkey) (err invalid_argument)
    let amount = value_or input_amount_sat view.channel_value_sat
    when (amount != view.channel_value_sat) (err invalid_argument)
    sign tx input_index remote_funding_key amount
