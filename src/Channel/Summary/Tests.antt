-- ===== src/Channel/Summary/Tests.antt =====
-- The summaries of the state in mid-life, with a new holder commitment that has a second HTLC.
use validating_lightning_sig.Common.{◌<◌, ◌≡◌, refl, max, min, none, some, [], ◌∷◌, arith, u64_mod}
use validating_lightning_sig.Channel.{CommitmentInfo2}
use validating_lightning_sig.Channel.Summary.{payments_summary, incoming_payments_summary}
use validating_lightning_sig.Channel.Summary.Amounts.{amount, in_flight}
use validating_lightning_sig.Channel.Summary.Payments.{
  held, countered, payments_summary-max, incoming_payments_summary-min,
}
use validating_lightning_sig.Samples.{htlc, info, state}

abbrev doubled : CommitmentInfo2
doubled = record info { offered_htlcs = htlc ∷ htlc ∷ []; received_htlcs = htlc ∷ [] }

offered_small : in_flight 5 (htlc ∷ htlc ∷ []) < u64_mod
unfolding in_flight
offered_small = omega arith

one_small : in_flight 5 (htlc ∷ []) < u64_mod
unfolding in_flight
one_small = omega arith

none_small : in_flight 5 [] < u64_mod
unfolding in_flight
none_small = omega arith

payments_summary-max_example :
    amount 5 (payments_summary state (some doubled) none)
    ≡ max
        (held state (some doubled) none 5 (λ i. i.offered_htlcs))
        (countered state (some doubled) none 5 (λ i. i.received_htlcs))
payments_summary-max_example =
    payments_summary-max state (some doubled) none 5 offered_small none_small

incoming_payments_summary-min_example :
    amount 5 (incoming_payments_summary state (some doubled) none)
    ≡ min
        (held state (some doubled) none 5 (λ i. i.received_htlcs))
        (countered state (some doubled) none 5 (λ i. i.offered_htlcs))
incoming_payments_summary-min_example =
    incoming_payments_summary-min state (some doubled) none 5 one_small one_small

in_flight_test : in_flight 5 (htlc ∷ htlc ∷ []) ≡ 20_000
unfolding in_flight
in_flight_test = refl
