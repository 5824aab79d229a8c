-- ===== src/Validator/MutualClose/Tests.antt =====
-- A mutual close that is accepted, and one without outputs.
use validating_lightning_sig.Common.{ℕ, ◌≡◌, refl, ◌↔◌, true, List, [], ◌∷◌, arith, ok, panic}
use validating_lightning_sig.Channel.Enforcement.{
  minimum_to_holder_value, minimum_to_counterparty_value, within_epsilon, both_infos,
}
use validating_lightning_sig.Channel.Equality.{option_eq}
use validating_lightning_sig.Monitor.Transactions.{Transaction}
use validating_lightning_sig.Samples.{
  policy, policy-Strict, setup, settled_state, wallet, closings, closing_tx,
}
use validating_lightning_sig.Validator.{
  validate_fee, estimate_feerate_per_kw, outside_epsilon_range,
}
use validating_lightning_sig.Validator.MutualClose.{
  ClosingTransaction, ValidateArgs, closing, decode_and_validate_mutual_close_tx, guess, good_args,
  first_good, holder_value_is_larger, option_gt, validate_mutual_close_tx, check_scripts, check_fee,
  check_values, check_holder_output, htlcs_is_empty, is_empty, mutual_close_tx_weight,
}
use validating_lightning_sig.Validator.MutualClose.Accepted.{IsFair}
use validating_lightning_sig.Validator.MutualClose.Decoded.{Assigns, decode_mutual_close-IsFair}
use validating_lightning_sig.Validator.MutualClose.Panics.{decode_mutual_close_panics_iff}

abbrev paths : List ℕ
paths = 0 ∷ 4 ∷ []

abbrev close : ClosingTransaction
close = record {
  to_holder_value_sat = 699_000;
  to_counterparty_value_sat = 300_000;
  holder_script = 9;
  counterparty_script = 30;
  funding_outpoint = setup.funding_outpoint;
}

decoded :
    decode_and_validate_mutual_close_tx policy wallet closings setup settled_state closing_tx paths
    ≡ ok close
unfolding decode_and_validate_mutual_close_tx holder_value_is_larger option_gt
    minimum_to_holder_value minimum_to_counterparty_value within_epsilon both_infos guess good_args
    first_good validate_mutual_close_tx check_scripts check_fee check_values check_holder_output
    htlcs_is_empty is_empty mutual_close_tx_weight closing validate_fee estimate_feerate_per_kw
    outside_epsilon_range option_eq
decoded = refl

decode_mutual_close-IsFair_example :
    (args : ValidateArgs) × (Assigns closings closing_tx.output paths args)
    × (close ≡ closing closings setup args)
    × (closings.builds close closing_tx ≡ true)
    × IsFair policy policy-Strict wallet closings setup settled_state args
decode_mutual_close-IsFair_example =
    decode_mutual_close-IsFair policy policy-Strict wallet closings setup settled_state closing_tx
      paths (omega arith) decoded

abbrev without_outputs : Transaction
without_outputs = record closing_tx { output = [] }

decode_mutual_close_panics_iff_example :
    (decode_and_validate_mutual_close_tx policy wallet closings setup settled_state without_outputs
        []
      ≡ panic)
    ↔ (without_outputs.output ≡ [])
decode_mutual_close_panics_iff_example =
    decode_mutual_close_panics_iff policy wallet closings setup settled_state without_outputs []
      refl refl refl
