-- ===== src/Validator/Sweeps/Tests.antt =====
-- Sweeps of an HTLC and of a revoked output, and a sweep with two inputs.
use validating_lightning_sig.Common.{
  ℕ, ◌≡◌, refl, Bool, false, Option, some, [], ◌∷◌, arith, leb, if◌then◌else◌, ok,
}
use validating_lightning_sig.Channel.{is_anchors}
use validating_lightning_sig.Monitor.Transactions.{Transaction, TxIn}
use validating_lightning_sig.Samples.{policy, policy-Strict, setup, cstate, outpoint, wallet}
use validating_lightning_sig.Validator.{validate_fee, estimate_feerate_per_kw}
use validating_lightning_sig.Validator.Sweeps.{
  ℤ, pos, Scripts, anchor_seqs, non_anchor_seqs, sum_outputs, expiry_height,
  estimated_sweep_tx_weight, check_destinations, check_sweep_fee, validate_sweep, check_locktime,
  check_sequence, check_htlc_locktime, validate_delayed_sweep, validate_counterparty_htlc_sweep,
  validate_justice_sweep,
}
use validating_lightning_sig.Validator.Sweeps.Accepted.{
  IsSafeSweep, IsDueFor, StartsWith, htlc_sweep_accepted,
}
use validating_lightning_sig.Validator.Sweeps.Inputs.{later_inputs_unchecked}

-- Script 70 is a received HTLC that expires at height 105.
abbrev received : ℕ → Bool → Option ℤ
received script anchored = some (pos 105)

abbrev scripts : Scripts
scripts = record {
  unsigned_weight = λ tx. 400;
  from_consensus = λ height. some height;
  is_satisfied_by = leb;
  parse_received_htlc_script = received;
  parse_offered_htlc_script = λ script anchored. false;
}

abbrev txin : TxIn
txin = record { previous_output = outpoint; sequence = 0 }

abbrev late : TxIn
late = record { previous_output = outpoint; sequence = 77 }

abbrev sweep : Transaction
sweep = record {
  txid = 41;
  version = 2;
  lock_time = 101;
  input = txin ∷ [];
  output = record { value = 9_000; script_pubkey = 9 } ∷ [];
}

htlc_swept :
    validate_counterparty_htlc_sweep policy wallet scripts setup cstate sweep 70 10_000 3 ≡ ok tt
unfolding validate_counterparty_htlc_sweep validate_sweep check_sweep_fee check_destinations
    check_htlc_locktime expiry_height check_sequence sum_outputs estimated_sweep_tx_weight
    validate_fee estimate_feerate_per_kw is_anchors
htlc_swept = refl

htlc_sweep_accepted_example :
    IsSafeSweep policy policy-Strict wallet scripts sweep 10_000 3
    × IsDueFor policy policy-Strict wallet scripts sweep 10_000 3 cstate setup 70
    × StartsWith (if is_anchors setup then anchor_seqs else non_anchor_seqs) sweep.input
htlc_sweep_accepted_example =
    htlc_sweep_accepted policy policy-Strict wallet scripts sweep 10_000 3 cstate setup 70
      (omega arith) htlc_swept

justice_swept : validate_justice_sweep policy wallet scripts cstate sweep 10_000 3 ≡ ok tt
unfolding validate_justice_sweep validate_sweep check_sweep_fee check_destinations check_locktime
    check_sequence sum_outputs estimated_sweep_tx_weight validate_fee estimate_feerate_per_kw
justice_swept = refl

abbrev two_inputs : Transaction
two_inputs = record sweep { input = txin ∷ txin ∷ [] }

later_inputs_unchecked_example :
    (validate_delayed_sweep policy wallet scripts setup cstate two_inputs 10_000 3
      ≡ validate_delayed_sweep policy wallet scripts setup cstate
          (record two_inputs { input = txin ∷ late ∷ [] })
          5_000_000
          3)
    × (validate_counterparty_htlc_sweep policy wallet scripts setup cstate two_inputs 70 10_000 3
        ≡ validate_counterparty_htlc_sweep policy wallet scripts setup cstate
            (record two_inputs { input = txin ∷ late ∷ [] })
            70
            5_000_000
            3)
    × (validate_justice_sweep policy wallet scripts cstate two_inputs 10_000 3
        ≡ validate_justice_sweep policy wallet scripts cstate
            (record two_inputs { input = txin ∷ late ∷ [] })
            5_000_000
            3)
later_inputs_unchecked_example =
    later_inputs_unchecked policy wallet scripts two_inputs txin txin [] refl late [] setup cstate
      70 10_000 5_000_000 3
