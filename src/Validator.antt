-- ===== src/Validator.antt =====
-- `SimplePolicy` and the checks of `SimpleValidator` in vls-core/src/policy/simple_validator.rs.
-- u16, u32 and u8 fields are numbers; a sum of u32 wraps, as in a release build.
pub mod Commitment
pub mod Sides
pub mod Payments
pub mod Onchain
pub mod Fee
pub mod Setup
pub mod MutualClose
pub mod Sweeps
mod Tests
use Prim.Native.String.{String, ◌++◌ as str_append}
use validating_lightning_sig.Common.{
  ℕ, ◌+◌, ◌-◌, ◌*◌, ◌/◌, Bool, true, false, not, ◌&&◌, ◌||◌, Option, none, some, ltb, leb, ◌==◌,
  ◌!=◌, if◌then◌else◌, u64_add, u64_mul, u32_add, to_u32, checked_sub, Outcome, ok, err, panic,
  ◌>>=◌, ◌>>◌, when, ok_or,
}
use validating_lightning_sig.Policy.{PolicyFilter, Validated, policy_err, policy_error}
use validating_lightning_sig.Channel.{
  ChannelSetup, CommitmentType, legacy, static_remote_key, anchors, anchors_zero_fee_htlc,
}
use validating_lightning_sig.Velocity.{VelocityControlSpec}

pub record SimplePolicy : Type 0 where
  pub min_delay : ℕ
  pub max_delay : ℕ
  pub max_channel_size_sat : ℕ
  pub epsilon_sat : ℕ
  pub max_htlcs : ℕ
  pub max_htlc_value_sat : ℕ
  pub use_chain_state : Bool
  pub min_feerate_per_kw : ℕ
  pub max_feerate_per_kw : ℕ
  pub enforce_balance : Bool
  pub max_routing_fee_msat : ℕ
  pub max_feerate_percentage : ℕ
  pub cltv_delta : ℕ
  -- `dev_flags.disable_beneficial_balance_checks`, false where there are no flags
  pub disable_beneficial_balance_checks : Bool
  pub filter : PolicyFilter
  pub global_velocity_control : VelocityControlSpec
  pub max_channels : ℕ
  pub max_invoices : ℕ
  pub fee_velocity_control : VelocityControlSpec

-- `MAX_CLTV_EXPIRY` of vls-core/src/policy/mod.rs.
abbrev pub max_cltv_expiry : ℕ
max_cltv_expiry = 500_000_000

-- vls-core/src/util/transaction_utils.rs; a weight of zero is a division by zero, a panic.
unfoldable pub estimate_feerate_per_kw : ℕ → ℕ → Validated ℕ
estimate_feerate_per_kw total_fee weight =
    if weight == 0 then panic else ok (to_u32 (u64_add (u64_mul total_fee 1000) 999 / weight))

unfoldable pub expected_commitment_tx_weight : Bool → ℕ → ℕ
expected_commitment_tx_weight opt_anchors num_untrimmed_htlc =
    (if opt_anchors then 1124 else 724) + num_untrimmed_htlc * 172

safe_commitment_type : CommitmentType → Bool
safe_commitment_type static_remote_key = true
safe_commitment_type anchors_zero_fee_htlc = true
safe_commitment_type _ = false

module _ (policy : SimplePolicy) where
  -- The tag carries the name, as in `format!("policy-channel-contest-delay-range-{}", name)`.
  unfoldable pub validate_delay : String → ℕ → Validated (Unit {0})
  validate_delay name delay = do
    let tag = str_append "policy-channel-contest-delay-range-" name
    when (ltb delay policy.min_delay) (policy_err policy.filter tag)
    when (ltb policy.max_delay delay) (policy_err policy.filter tag)

  pub validate_expiry : ℕ → ℕ → Validated (Unit {0})
  validate_expiry expiry current_height = do
    when (leb max_cltv_expiry expiry) (policy_err policy.filter "policy-commitment-htlc-cltv-range")
    when (policy.use_chain_state && ltb expiry (u32_add current_height policy.min_delay))
        (policy_err policy.filter "policy-commitment-htlc-cltv-range")
    when (policy.use_chain_state && ltb (u32_add current_height policy.max_delay) expiry)
        (policy_err policy.filter "policy-commitment-htlc-cltv-range")

  -- A fee underflow is an error whatever the filter says.
  unfoldable pub validate_fee : String → ℕ → ℕ → ℕ → Validated (Unit {0})
  unfolding estimate_feerate_per_kw
  validate_fee tag sum_inputs sum_outputs weight = do
    fee ← ok_or (policy_error tag) (checked_sub sum_inputs sum_outputs)
    feerate_perkw ← estimate_feerate_per_kw fee weight
    when (ltb feerate_perkw policy.min_feerate_per_kw) (policy_err policy.filter tag)
    when (ltb policy.max_feerate_per_kw feerate_perkw) (policy_err policy.filter tag)

  pub validate_beneficial_value : ℕ → ℕ → ℕ → Validated ℕ
  unfolding estimate_feerate_per_kw
  validate_beneficial_value sum_our_inputs sum_our_outputs weight = do
    non_beneficial ←
        ok_or (policy_error "policy-onchain-format-standard")
          (checked_sub sum_our_inputs sum_our_outputs)
    feerate_perkw ← estimate_feerate_per_kw non_beneficial weight
    when
        (ltb policy.max_feerate_per_kw feerate_perkw
          && not policy.disable_beneficial_balance_checks)
        (policy_err policy.filter "policy-onchain-fee-range")
    ok non_beneficial

  unfoldable pub outside_epsilon_range : ℕ → ℕ → Bool
  outside_epsilon_range value0 value1 =
      if ltb value1 value0
      then ltb policy.epsilon_sat (value0 - value1)
      else ltb policy.epsilon_sat (value1 - value0)

  unfoldable pub validate_channel_value : ChannelSetup → Validated (Unit {0})
  validate_channel_value setup =
      when (ltb policy.max_channel_size_sat setup.channel_value_sat)
        (policy_err policy.filter "policy-funding-max")

  -- The wallet is outside the model: `can_spend` says whether it can spend to the shutdown script,
  -- or fails, and `allowlist_contains` whether the script is on the allowlist.
  unfoldable pub check_shutdown : (ℕ → Option Bool) → (ℕ → Bool) → Option ℕ → Validated (Unit {0})
  check_shutdown can_spend allowlist_contains none = ok tt
  check_shutdown can_spend allowlist_contains (some script) = do
    spendable ← ok_or (policy_error "policy-onchain-output-scriptpubkey") (can_spend script)
    when (not spendable && not (allowlist_contains script))
        (policy_err policy.filter "policy-mutual-destination-allowlisted")

  unfoldable pub validate_setup_channel :
      (ℕ → Option Bool) → (ℕ → Bool) → ChannelSetup → Validated (Unit {0})
  unfolding safe_commitment_type validate_delay check_shutdown
  validate_setup_channel can_spend allowlist_contains setup = do
    when (not (safe_commitment_type setup.commitment_type))
        (policy_err policy.filter "policy-channel-safe-type")
    validate_delay "holder" setup.counterparty_selected_contest_delay
    validate_delay "counterparty" setup.holder_selected_contest_delay
    check_shutdown can_spend allowlist_contains setup.holder_shutdown_script
