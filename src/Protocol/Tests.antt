-- ===== src/Protocol/Tests.antt =====
-- Runs of a channel in a concrete world: signatures are taken as good, and the node has no objection.
use validating_lightning_sig.Common.{
  ℕ, ◌-◌, ◌^◌, ◌≡◌, refl, ◌≢◌, true, none, some, [], ◌∷◌, arith, ok, err,
}
use validating_lightning_sig.Channel.{
  CommitmentInfo2, is_zero_fee_htlc, is_anchors, value_to_parties,
}
use validating_lightning_sig.Channel.Equality.{outpoint_eq}
use validating_lightning_sig.Channel.Enforcement.{
  EnforcementState, new, validator_set_next_counterparty_commit_num,
  set_next_counterparty_commit_num, store_counterparty, roll_previous,
}
use validating_lightning_sig.Samples.{policy, policy-Strict, setup, cstate, info, sigs, state}
use validating_lightning_sig.Validator.{
  validate_channel_value, validate_fee, estimate_feerate_per_kw, expected_commitment_tx_weight,
}
use validating_lightning_sig.Validator.Commitment.{
  validate_commitment_tx, validate_outputs, validate_htlcs, htlc_dust_limit,
  validate_commitment_fee, validate_initial, carried_fundee_sat,
}
use validating_lightning_sig.Validator.Sides.{validate_counterparty_commitment_tx}
use validating_lightning_sig.Protocol.{
  setup_for_outpoint, World, failed_precondition, get_per_commitment_secret,
  get_per_commitment_point, revoke_previous_holder_commitment,
}
use validating_lightning_sig.Protocol.Close.{
  latest_number, sign_holder_commitment_tx_phase2, get_holder_commitment_for_close,
  pending_for_close,
}
use validating_lightning_sig.Protocol.Remote.{sign_counterparty_commitment_tx_phase2}
use validating_lightning_sig.Protocol.Run.{Run, start, next, signed, revoked}
use validating_lightning_sig.Protocol.Run.Safety.{
  IsStrict, never_signed_after_release, never_released_after_close,
}
use validating_lightning_sig.Protocol.Run.Alternation.{Recorded, Run-Recorded}

abbrev world : World
world = record {
  simple = policy;
  timeout_weight = λ type. 663;
  success_weight = λ type. 703;
  sha256 = λ secret. 255 ∷ secret;
  from_secret_key = λ secret. 0;
  point_at = λ index. index;
  secret_at = λ index. index ∷ [];
  eras = record { setup = setup; prev_setup = none; prev_prev_setup = none };
  chain_state = cstate;
  claimable_balances = λ s info. ok tt;
  check_holder_tx_signatures = λ view info sigs. ok tt;
  sign_commitment = λ view n info. ok 77;
  validate_payments = λ s info. ok tt;
}

released : get_per_commitment_secret world state 0 ≡ ok ((2 ^ 48 - 1) ∷ [])
unfolding get_per_commitment_secret
released = refl

abbrev later : EnforcementState
later = (revoke_previous_holder_commitment world state 2).1

one_revocation : Run IsStrict state later
one_revocation = next world start policy-Strict (omega arith, omega arith, omega arith) (revoked 2)

never_signed_after_release_example : sign_holder_commitment_tx_phase2 world later 0 ≢ ok (77, later)
never_signed_after_release_example =
    never_signed_after_release world state 0 ((2 ^ 48 - 1) ∷ []) policy-Strict (omega arith)
      released later one_revocation world later 77 policy-Strict

abbrev shut : EnforcementState
shut = record state { channel_closed = true }

abbrev two : ℕ
two = 2

latest : latest_number state ≡ ok two
unfolding latest_number
latest = refl

latest_signed : sign_holder_commitment_tx_phase2 world state 2 ≡ ok (77, shut)
unfolding sign_holder_commitment_tx_phase2 get_holder_commitment_for_close pending_for_close
    get_per_commitment_point
latest_signed = refl

abbrev revoked_after : EnforcementState
revoked_after = (revoke_previous_holder_commitment world shut 2).1

never_released_after_close_example :
    get_per_commitment_secret world revoked_after 2 ≡ err failed_precondition
never_released_after_close_example =
    never_released_after_close world state shut revoked_after 2 77 latest latest_signed
      (next world start policy-Strict (omega arith, omega arith, omega arith) (revoked 2))
      (omega arith) world policy-Strict

abbrev initial : CommitmentInfo2
initial = record {
  is_counterparty_broadcaster = true;
  to_countersigner_value_sat = 999_000;
  to_broadcaster_value_sat = 0;
  offered_htlcs = [];
  received_htlcs = [];
  feerate_per_kw = 1000;
}

-- The state after the counterparty's commitment 0 has been signed.
abbrev funded : EnforcementState
funded = record (new 1_000_000) {
  next_counterparty_commit_num = 1;
  current_counterparty_point = some 10;
  current_counterparty_commit_info = some initial;
  counterparty_commitment_funding = some setup.funding_outpoint;
}

initial_signed :
    sign_counterparty_commitment_tx_phase2 world (new 1_000_000) setup.funding_outpoint 10 0 initial
    ≡ ok (77, funded)
unfolding sign_counterparty_commitment_tx_phase2 setup_for_outpoint outpoint_eq new
    validate_channel_value validate_counterparty_commitment_tx validate_commitment_tx
    validate_outputs validate_htlcs htlc_dust_limit is_zero_fee_htlc validate_commitment_fee
    validate_fee estimate_feerate_per_kw expected_commitment_tx_weight is_anchors validate_initial
    carried_fundee_sat value_to_parties validator_set_next_counterparty_commit_num
    set_next_counterparty_commit_num store_counterparty roll_previous
initial_signed = refl

Run-Recorded_example : Recorded funded
unfolding new
Run-Recorded_example = Run-Recorded 1_000_000 funded (
    next world start policy-Strict (omega arith, omega arith, omega arith)
      (signed setup.funding_outpoint 10 0 initial 77 (omega arith) initial_signed))
