-- ===== src/Channel/Summary/Payments.antt =====
-- What the two summaries say of a payment: the greater outgoing and the lesser incoming amount.
use validating_lightning_sig.Common.{
  ℕ, ◌<◌, ◌≡◌, max, min, Option, List, arith, Bool-cases, inl, inr, u64_mod,
}
use validating_lightning_sig.Channel.{PaymentHash, HtlcInfo2, CommitmentInfo2}
use validating_lightning_sig.Channel.Enforcement.{EnforcementState}
use validating_lightning_sig.Channel.Summary.{
  Summary, contains_key, retain_keys, summarize_payments, union_max, lower_to, mention, htlcs_of,
  or_current, payments_summary, incoming_payments_summary,
}
use validating_lightning_sig.Channel.Summary.Amounts.{
  amount, in_flight, amount-mention, amount-retain_keys, amount-absent, amount-union_max,
  amount-lower_to, amount-summarize_payments, Distinct-summarize_payments,
}

module _ (key : PaymentHash) (a b c d : List HtlcInfo2) (small : in_flight key a < u64_mod)
    (small' : in_flight key b < u64_mod) where
  amount-union :
      amount key (mention (mention (union_max (summarize_payments a) (summarize_payments b)) c) d)
      ≡ max (in_flight key a) (in_flight key b)
  amount-union =
      let union : Summary = union_max (summarize_payments a) (summarize_payments b) in
      omega (
        arith,
        amount-mention key (mention union c) d,
        amount-mention key union c,
        amount-union_max key (summarize_payments a) (summarize_payments b)
            (Distinct-summarize_payments b),
        amount-summarize_payments key a small,
        amount-summarize_payments key b small',
      )

  amount-intersection :
      amount key (
        mention
          (mention
            (lower_to
              (retain_keys (summarize_payments b) (summarize_payments a))
              (summarize_payments b))
            c)
          d)
      ≡ min (in_flight key a) (in_flight key b)
  amount-intersection =
      let kept : Summary = retain_keys (summarize_payments b) (summarize_payments a) in
      let common : Summary = lower_to kept (summarize_payments b) in
      let lowered =
        amount-lower_to key kept (summarize_payments b) (Distinct-summarize_payments b) in
      let retained = amount-retain_keys key (summarize_payments b) (summarize_payments a) in
      let said : amount key (mention (mention common c) d) ≡ amount key common =
        omega (arith, amount-mention key (mention common c) d, amount-mention key common c) in
      let sum = amount-summarize_payments key a small in
      let sum' = amount-summarize_payments key b small' in
      elim (Bool-cases (contains_key key (summarize_payments b))) [
        | inl shared ↦ ground (arith, lowered, retained, said, sum, sum')
        | inr alone ↦ ground (
          arith,
          lowered,
          retained,
          said,
          sum,
          sum',
          amount-absent key (summarize_payments b) alone,
        )
      ]

module _ (s : EnforcementState) (new_holder new_counterparty : Option CommitmentInfo2)
    (key : PaymentHash) where
  abbrev pub held : (CommitmentInfo2 → List HtlcInfo2) → ℕ
  held direction =
      in_flight key (htlcs_of direction (or_current new_holder s.current_holder_commit_info))

  abbrev pub countered : (CommitmentInfo2 → List HtlcInfo2) → ℕ
  countered direction =
      in_flight key
        (htlcs_of direction (or_current new_counterparty s.current_counterparty_commit_info))

  -- Of every payment the summary gives the greater of the amounts that leave in the two
  -- parties' commitments, the new ones where there are any and else the current ones, if
  -- neither amount overflows.
  pub payments_summary-max :
      held (λ i. i.offered_htlcs) < u64_mod
      → countered (λ i. i.received_htlcs) < u64_mod
      → amount key (payments_summary s new_holder new_counterparty)
        ≡ max (held (λ i. i.offered_htlcs)) (countered (λ i. i.received_htlcs))
  unfolding payments_summary
  payments_summary-max small small' = amount-union key _ _ _ _ small small'

  -- Of every payment the summary gives the lesser of the amounts that come in in the two
  -- parties' commitments, the new ones where there are any and else the current ones, if
  -- neither amount overflows.
  pub incoming_payments_summary-min :
      held (λ i. i.received_htlcs) < u64_mod
      → countered (λ i. i.offered_htlcs) < u64_mod
      → amount key (incoming_payments_summary s new_holder new_counterparty)
        ≡ min (held (λ i. i.received_htlcs)) (countered (λ i. i.offered_htlcs))
  unfolding incoming_payments_summary
  incoming_payments_summary-min small small' = amount-intersection key _ _ _ _ small small'
