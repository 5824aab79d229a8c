-- ===== src/Validator/MutualClose.antt =====
-- The checks of a mutual close in vls-core/src/policy/simple_validator.rs: `validate_mutual_close_tx`
-- and `decode_and_validate_mutual_close_tx`. The wallet, and the transaction that the lightning
-- crate builds from a close, are parameters; scripts and derivation paths are only compared.
pub mod Accepted
pub mod Decoded
pub mod Panics
mod Tests
use validating_lightning_sig.Common.{
  ℕ, ◌+◌, Bool, true, false, not, ◌&&◌, ◌||◌, Option, none, some, List, [], ◌∷◌, ltb, ◌==◌, ◌!=◌,
  if◌then◌else◌, length, get_elem?, checked_add, Outcome, ok, err, panic, ◌>>=◌, ◌>>◌, when, ok_or,
  unwrap,
}
use validating_lightning_sig.Policy.{
  ValidationError, Validated, policy_err, policy_error, transaction_format_error,
}
use validating_lightning_sig.Channel.{OutPoint, HtlcInfo2, CommitmentInfo2, ChannelSetup}
use validating_lightning_sig.Channel.Equality.{option_eq}
use validating_lightning_sig.Channel.Enforcement.{
  EnforcementState, present, minimum_to_holder_value, minimum_to_counterparty_value,
}
use validating_lightning_sig.Monitor.Transactions.{Transaction, TxOut}
use validating_lightning_sig.Validator.{SimplePolicy, validate_fee, outside_epsilon_range}

-- The trait `Wallet`: `can_spend` may fail.
pub record Wallet : Type 0 where
  pub can_spend : ℕ → ℕ → Option Bool
  pub allowlist_contains : ℕ → ℕ → Bool

-- What `ClosingTransaction::new` is given.
pub record ClosingTransaction : Type 0 where
  pub to_holder_value_sat : ℕ
  pub to_counterparty_value_sat : ℕ
  pub holder_script : ℕ
  pub counterparty_script : ℕ
  pub funding_outpoint : OutPoint

-- The crates: the weight of the transaction that a close is built into, and whether it is a given one.
pub record Closings : Type 0 where
  pub empty_script : ℕ
  pub master_path : ℕ
  pub built_weight : ClosingTransaction → ℕ
  pub builds : ClosingTransaction → Transaction → Bool

pub record ValidateArgs : Type 0 where
  pub to_holder_value_sat : ℕ
  pub to_counterparty_value_sat : ℕ
  pub holder_script : Option ℕ
  pub counterparty_script : Option ℕ
  pub wallet_path : ℕ

-- The derived `PartialOrd` of an `Option`.
pub option_gt : Option ℕ → Option ℕ → Bool
option_gt none b = false
option_gt (some a) none = true
option_gt (some a) (some b) = ltb b a

unfoldable pub is_empty : List HtlcInfo2 → Bool
is_empty [] = true
is_empty (h ∷ hs) = false

unfoldable pub htlcs_is_empty : CommitmentInfo2 → Bool
unfolding is_empty
htlcs_is_empty self = is_empty self.offered_htlcs && is_empty self.received_htlcs

-- `o.unwrap_or_else(|| ScriptBuf::new())`
abbrev pub script_or : ℕ → Option ℕ → ℕ
script_or empty none = empty
script_or empty (some script) = script

-- The transaction without its witness, and the weight that the witness is expected to add.
unfoldable pub mutual_close_tx_weight : ℕ → ℕ
mutual_close_tx_weight unsigned_weight = unsigned_weight + 222

-- The unlikely assignment is tried where the likely one is refused, whose error is the result.
unfoldable pub first_good :
    {A : Type 0} → A → Validated (Unit {0}) → A → Validated (Unit {0}) → Validated A
first_good likely panic unlikely other = panic
first_good likely (ok nothing) unlikely other = ok likely
first_good likely (err e) unlikely panic = panic
first_good likely (err e) unlikely (ok nothing) = ok unlikely
first_good likely (err e) unlikely (err e') = err e

-- The holder has the first output, or the second; with one output the other has nothing.
abbrev holders_output : TxOut → ℕ → ValidateArgs
holders_output out path = record {
  to_holder_value_sat = out.value;
  to_counterparty_value_sat = 0;
  holder_script = some out.script_pubkey;
  counterparty_script = none;
  wallet_path = path;
}

abbrev both_outputs : TxOut → TxOut → ℕ → ValidateArgs
both_outputs holders cpartys path = record {
  to_holder_value_sat = holders.value;
  to_counterparty_value_sat = cpartys.value;
  holder_script = some holders.script_pubkey;
  counterparty_script = some cpartys.script_pubkey;
  wallet_path = path;
}

module _ (policy : SimplePolicy) where
  unfoldable pub check_scripts : ChannelSetup → ValidateArgs → Validated (Unit {0})
  unfolding option_eq
  check_scripts setup args = do
    when (ltb 0 args.to_holder_value_sat && not (present args.holder_script))
        (policy_err policy.filter "policy-mutual-destination-allowlisted")
    when (ltb 0 args.to_counterparty_value_sat && not (present args.counterparty_script))
        (policy_err policy.filter "policy-mutual-destination-allowlisted")
    when
        (present setup.holder_shutdown_script
          && ltb 0 args.to_holder_value_sat
          && not (option_eq args.holder_script setup.holder_shutdown_script))
        (policy_err policy.filter "policy-mutual-destination-allowlisted")

  -- The values of the side that does not pay the fee.
  unfoldable pub check_values :
      ChannelSetup → CommitmentInfo2 → CommitmentInfo2 → ValidateArgs → Validated (Unit {0})
  unfolding outside_epsilon_range
  check_values setup holder_info counterparty_info args =
      if setup.is_outbound
      then (do
        when
            (outside_epsilon_range policy args.to_counterparty_value_sat
              counterparty_info.to_broadcaster_value_sat)
            (policy_err policy.filter "policy-mutual-value-matches-commitment")
        when
            (outside_epsilon_range policy args.to_counterparty_value_sat
              holder_info.to_countersigner_value_sat)
            (policy_err policy.filter "policy-mutual-value-matches-commitment"))
      else (do
        when
            (outside_epsilon_range policy args.to_holder_value_sat
              holder_info.to_broadcaster_value_sat)
            (policy_err policy.filter "policy-mutual-value-matches-commitment")
        when
            (outside_epsilon_range policy args.to_holder_value_sat
              counterparty_info.to_countersigner_value_sat)
            (policy_err policy.filter "policy-mutual-value-matches-commitment"))

  unfoldable pub holder_value_is_larger : EnforcementState → Bool
  unfolding option_gt minimum_to_holder_value minimum_to_counterparty_value
  holder_value_is_larger estate =
      option_gt (minimum_to_holder_value estate policy.epsilon_sat)
        (minimum_to_counterparty_value estate policy.epsilon_sat)

module _ (policy : SimplePolicy) (wallet : Wallet) where
  unfoldable pub check_holder_output : Option ℕ → ℕ → Validated (Unit {0})
  check_holder_output none wallet_path = ok tt
  check_holder_output (some script) wallet_path = do
    spendable ← ok_or (policy_error "policy-mutual-scripts") (wallet.can_spend wallet_path script)
    when (not spendable && not (wallet.allowlist_contains script wallet_path))
        (policy_err policy.filter "policy-mutual-destination-allowlisted")

module _ (closings : Closings) where
  unfoldable pub closing : ChannelSetup → ValidateArgs → ClosingTransaction
  closing setup args = record {
    to_holder_value_sat = args.to_holder_value_sat;
    to_counterparty_value_sat = args.to_counterparty_value_sat;
    holder_script = script_or closings.empty_script args.holder_script;
    counterparty_script = script_or closings.empty_script args.counterparty_script;
    funding_outpoint = setup.funding_outpoint;
  }

  abbrev cpartys_output : TxOut → ValidateArgs
  cpartys_output out = record {
    to_holder_value_sat = 0;
    to_counterparty_value_sat = out.value;
    holder_script = none;
    counterparty_script = some out.script_pubkey;
    wallet_path = closings.master_path;
  }

  -- The likely and the unlikely assignment; an index out of range is a panic.
  unfoldable pub guess : Bool → List TxOut → List ℕ → Validated (ValidateArgs × ValidateArgs)
  guess larger output wallet_paths =
      if length output == 1
      then (do
        out ← unwrap (get_elem? output 0)
        path ← unwrap (get_elem? wallet_paths 0)
        ok (
            if larger
            then (holders_output out path, cpartys_output out)
            else (cpartys_output out, holders_output out path)))
      else (do
        out₀ ← unwrap (get_elem? output 0)
        out₁ ← unwrap (get_elem? output 1)
        path₀ ← unwrap (get_elem? wallet_paths 0)
        path₁ ← unwrap (get_elem? wallet_paths 1)
        ok (
            if larger
            then (both_outputs out₁ out₀ path₁, both_outputs out₀ out₁ path₀)
            else (both_outputs out₀ out₁ path₀, both_outputs out₁ out₀ path₁)))

module _ (policy : SimplePolicy) (wallet : Wallet) (closings : Closings) where
  unfoldable pub check_fee : ChannelSetup → ValidateArgs → Validated (Unit {0})
  unfolding closing mutual_close_tx_weight validate_fee
  check_fee setup args = do
    sum_outputs ←
        ok_or (policy_error "policy-mutual-value-matches-commitment")
          (checked_add args.to_holder_value_sat args.to_counterparty_value_sat)
    validate_fee policy "policy-mutual-fee-range" setup.channel_value_sat sum_outputs
        (mutual_close_tx_weight (closings.built_weight (closing closings setup args)))

  unfoldable pub validate_mutual_close_tx :
      ChannelSetup → EnforcementState → ValidateArgs → Validated (Unit {0})
  unfolding check_scripts check_fee check_values check_holder_output htlcs_is_empty
  validate_mutual_close_tx setup estate args = do
    holder_info ←
        ok_or (policy_error "policy-mutual-value-matches-commitment")
          estate.current_holder_commit_info
    counterparty_info ←
        ok_or (policy_error "policy-mutual-value-matches-commitment")
          estate.current_counterparty_commit_info
    check_scripts policy setup args
    when (not (htlcs_is_empty holder_info) || not (htlcs_is_empty counterparty_info))
        (policy_err policy.filter "policy-mutual-no-pending-htlcs")
    check_fee setup args
    check_values policy setup holder_info counterparty_info args
    check_holder_output policy wallet args.holder_script args.wallet_path

  unfoldable pub good_args :
      ChannelSetup → EnforcementState → ValidateArgs × ValidateArgs → Validated ValidateArgs
  unfolding first_good validate_mutual_close_tx
  good_args setup estate (likely_args, unlikely_args) =
      first_good likely_args (validate_mutual_close_tx setup estate likely_args) unlikely_args
        (validate_mutual_close_tx setup estate unlikely_args)

  unfoldable pub decode_and_validate_mutual_close_tx :
      ChannelSetup → EnforcementState → Transaction → List ℕ → Validated ClosingTransaction
  unfolding holder_value_is_larger guess good_args closing
  decode_and_validate_mutual_close_tx setup estate tx wallet_paths = do
    when (ltb 2 (length tx.output)) (err transaction_format_error)
    when (length wallet_paths != length tx.output) panic
    when (not (present estate.current_holder_commit_info))
        (policy_err policy.filter "policy-mutual-other")
    when (not (present estate.current_counterparty_commit_info))
        (policy_err policy.filter "policy-mutual-other")
    candidates ← guess closings (holder_value_is_larger policy estate) tx.output wallet_paths
    args ← good_args setup estate candidates
    when (not (closings.builds (closing closings setup args) tx))
        (policy_err policy.filter "policy-onchain-format-standard")
    ok (closing closings setup args)
