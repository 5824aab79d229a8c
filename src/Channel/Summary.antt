-- ===== src/Channel/Summary.antt =====
-- The payments in flight of a channel: `payments_summary`, `incoming_payments_summary` and
-- `summarize_payments` of vls-core/src/policy/validator.rs. A `Map` is a list of keys with values.
pub mod Amounts
pub mod Payments
mod Tests
use validating_lightning_sig.Common.{
  ℕ, max, min, Bool, true, false, ◌||◌, Option, none, some, List, [], ◌∷◌, ◌==◌, if◌then◌else◌,
  u64_add,
}
use validating_lightning_sig.Channel.{PaymentHash, HtlcInfo2, CommitmentInfo2}
use validating_lightning_sig.Channel.Enforcement.{EnforcementState}

abbrev pub Summary : Type 0
Summary = List (PaymentHash × ℕ)

-- `entry(key).and_modify(f).or_insert(new)`
unfoldable pub modify_or_insert : PaymentHash → (ℕ → ℕ) → ℕ → Summary → Summary
modify_or_insert key f new [] = (key, new) ∷ []
modify_or_insert key f new ((k, v) ∷ rest) =
    let changed = modify_or_insert key f new rest in
    (if k == key then (k, f v) ∷ rest else (k, v) ∷ changed)

-- `entry(key).and_modify(f)`
unfoldable pub modify : PaymentHash → (ℕ → ℕ) → Summary → Summary
modify key f [] = []
modify key f ((k, v) ∷ rest) =
    let changed = modify key f rest in (if k == key then (k, f v) ∷ rest else (k, v) ∷ changed)

unfoldable pub contains_key : PaymentHash → Summary → Bool
contains_key key [] = false
contains_key key ((k, v) ∷ rest) = k == key || contains_key key rest

-- `retain(|k, _| other.contains_key(k))`
unfoldable pub retain_keys : Summary → Summary → Summary
unfolding contains_key
retain_keys other [] = []
retain_keys other ((k, v) ∷ rest) =
    let kept = retain_keys other rest in (if contains_key k other then (k, v) ∷ kept else kept)

unfoldable pub add_htlcs : Summary → List HtlcInfo2 → Summary
unfolding modify_or_insert
add_htlcs summary [] = summary
add_htlcs summary (h ∷ hs) =
    add_htlcs (modify_or_insert h.payment_hash (λ e. u64_add e h.value_sat) h.value_sat summary) hs

unfoldable pub summarize_payments : List HtlcInfo2 → Summary
unfolding add_htlcs
summarize_payments htlcs = add_htlcs [] htlcs

-- The two loops over the other side's summary.
unfoldable pub union_max : Summary → Summary → Summary
unfolding modify_or_insert
union_max summary [] = summary
union_max summary ((k, v) ∷ rest) = union_max (modify_or_insert k (λ e. max e v) v summary) rest

unfoldable pub lower_to : Summary → Summary → Summary
unfolding modify
lower_to summary [] = summary
lower_to summary ((k, v) ∷ rest) = lower_to (modify k (λ e. min e v) summary) rest

-- `entry(hash).or_insert(0)` for the HTLCs of a current commitment.
unfoldable pub mention : Summary → List HtlcInfo2 → Summary
unfolding modify_or_insert
mention summary [] = summary
mention summary (h ∷ hs) = mention (modify_or_insert h.payment_hash (λ e. e) 0 summary) hs

-- The HTLCs of one direction of a commitment, if there is one.
abbrev pub htlcs_of : (CommitmentInfo2 → List HtlcInfo2) → Option CommitmentInfo2 → List HtlcInfo2
htlcs_of direction none = []
htlcs_of direction (some info) = direction info

-- `new.or(current)`
abbrev pub or_current : Option CommitmentInfo2 → Option CommitmentInfo2 → Option CommitmentInfo2
or_current none current = current
or_current (some new) current = some new

unfoldable pub payments_summary :
    EnforcementState → Option CommitmentInfo2 → Option CommitmentInfo2 → Summary
payments_summary self new_holder_tx new_counterparty_tx =
    let holder = or_current new_holder_tx self.current_holder_commit_info in
    let counterparty = or_current new_counterparty_tx self.current_counterparty_commit_info in
    let summary =
      union_max (summarize_payments (htlcs_of (λ i. i.offered_htlcs) holder))
        (summarize_payments (htlcs_of (λ i. i.received_htlcs) counterparty)) in
    mention (mention summary (htlcs_of (λ i. i.offered_htlcs) self.current_holder_commit_info))
      (htlcs_of (λ i. i.received_htlcs) self.current_counterparty_commit_info)

unfoldable pub incoming_payments_summary :
    EnforcementState → Option CommitmentInfo2 → Option CommitmentInfo2 → Summary
incoming_payments_summary self new_holder_tx new_counterparty_tx =
    let holder = or_current new_holder_tx self.current_holder_commit_info in
    let counterparty = or_current new_counterparty_tx self.current_counterparty_commit_info in
    let counterparty_summary = summarize_payments (htlcs_of (λ i. i.offered_htlcs) counterparty) in
    let summary =
      lower_to
        (retain_keys counterparty_summary
          (summarize_payments (htlcs_of (λ i. i.received_htlcs) holder)))
        counterparty_summary in
    mention (mention summary (htlcs_of (λ i. i.received_htlcs) self.current_holder_commit_info))
      (htlcs_of (λ i. i.offered_htlcs) self.current_counterparty_commit_info)
