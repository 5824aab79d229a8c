-- ===== src/Channel/Balance.antt =====
-- `CommitmentInfo2::claimable_balance` of vls-core/src/tx/tx.rs: what it adds up to.
mod Tests
use validating_lightning_sig.Common.{
  ℕ, ◌+◌, ◌-◌, ◌≤◌, ◌<◌, ◌≡◌, refl, sym, Bool, true, false, not, Option, none, some, List, [], ◌∷◌,
  arith, if◌then◌else◌, Bool-cases, inl, inr, u64_mod, u64_add, checked_add, checked_sub,
}
use validating_lightning_sig.Channel.{
  PaymentHash, HtlcInfo2, CommitmentInfo2, value_to_parties, sum_values, total_value,
  holder_offered, holder_received, add_claimable, outbound_fee, claimable_balance,
}

-- The sum of the values, as a number of any size.
unfoldable pub values : List HtlcInfo2 → ℕ
values [] = 0
values (h ∷ hs) = h.value_sat + values hs

-- The sum of the values of the HTLCs that count.
pub counted : (PaymentHash → Bool) → List HtlcInfo2 → ℕ
counted counts [] = 0
counted counts (h ∷ hs) =
    let rest = counted counts hs in (if counts h.payment_hash then h.value_sat + rest else rest)

counted-values :
    (known : PaymentHash → Bool) (hs : List HtlcInfo2)
    → counted known hs + counted (λ h. not (known h)) hs ≡ values hs
unfolding counted values
counted-values known [] = refl
counted-values known (h ∷ hs) = ground (arith, counted-values known hs)

sum_values-values : (hs : List HtlcInfo2) → values hs < u64_mod → sum_values hs ≡ values hs
unfolding sum_values values
sum_values-values [] small = refl
sum_values-values (h ∷ hs) small = omega (arith, sum_values-values hs (omega arith))

add_claimable-counted :
    (counts : PaymentHash → Bool) (balance : ℕ) (hs : List HtlcInfo2)
    → balance + counted counts hs < u64_mod
    → add_claimable counts balance hs ≡ some (balance + counted counts hs)
unfolding add_claimable counted
add_claimable-counted counts balance [] small = ground arith
add_claimable-counted counts balance (h ∷ hs) small = elim (Bool-cases (counts h.payment_hash)) [
  | inl in_it ↦
      ground (arith, add_claimable-counted counts (balance + h.value_sat) hs (ground arith))
  | inr out_of_it ↦ ground (arith, add_claimable-counted counts balance hs (ground arith))
]

-- The commitment as the counterparty sees it.
abbrev pub mirrored : CommitmentInfo2 → CommitmentInfo2
mirrored info = record info { is_counterparty_broadcaster = not info.is_counterparty_broadcaster }

abbrev pub outputs : CommitmentInfo2 → ℕ
outputs info =
    info.to_broadcaster_value_sat
    + info.to_countersigner_value_sat
    + values info.offered_htlcs
    + values info.received_htlcs

-- What one party can claim: its output, the fee where it funded the channel, the HTLCs that it offers
-- and has no preimage of, and those offered to it that it has one of.
abbrev pub claim : CommitmentInfo2 → (PaymentHash → Bool) → Bool → ℕ → ℕ
claim info known funder channel_value =
    (value_to_parties info).0
    + (if funder then channel_value - outputs info else 0)
    + counted (λ h. not (known h)) (holder_offered info)
    + counted known (holder_received info)

module _ (info : CommitmentInfo2) (known : PaymentHash → Bool) (channel_value : ℕ)
    (funded : outputs info ≤ channel_value) (word : channel_value < u64_mod) where
  total_value-outputs : total_value info ≡ outputs info
  unfolding total_value
  total_value-outputs = omega (
    arith,
    sum_values-values info.offered_htlcs (omega arith),
    sum_values-values info.received_htlcs (omega arith),
  )

  claim-conserved :
      (funder : Bool)
      → claim info known funder channel_value
          + claim (mirrored info) known (not funder) channel_value
        ≡ channel_value
  unfolding value_to_parties holder_offered holder_received
  claim-conserved funder =
      let off = counted-values known info.offered_htlcs in
      let rec = counted-values known info.received_htlcs in ground (arith, off, rec)

  fee-claim :
      (funder : Bool) (output : ℕ)
      → output + (if funder then channel_value - outputs info else 0) < u64_mod
      → outbound_fee funder channel_value info output
        ≡ some (output + (if funder then channel_value - outputs info else 0))
  unfolding outbound_fee
  fee-claim true output small = ground (arith, total_value-outputs)
  fee-claim false output small = ground arith

  claimable_balance-claim :
      (funder : Bool)
      → claim info known funder channel_value ≤ channel_value
      → claimable_balance info known funder channel_value
        ≡ some (claim info known funder channel_value)
  unfolding claimable_balance
  claimable_balance-claim funder small =
      let output : ℕ = (value_to_parties info).0 in
      let fee : ℕ = if funder then channel_value - outputs info else 0 in
      let back : ℕ = counted (λ h. not (known h)) (holder_offered info) in
      let first : outbound_fee funder channel_value info output ≡ some (output + fee) =
        fee-claim funder output (omega arith) in
      let second : add_claimable (λ h. not (known h)) (output + fee) (holder_offered info)
          ≡ some (output + fee + back) =
        add_claimable-counted (λ h. not (known h)) (output + fee) (holder_offered info)
          (omega arith) in
      let third : add_claimable known (output + fee + back) (holder_received info)
          ≡ some (claim info known funder channel_value) =
        add_claimable-counted known (output + fee + back) (holder_received info) (omega arith) in
      ground (arith, first, second, third)

mirror_outputs : (info : CommitmentInfo2) → outputs (mirrored info) ≡ outputs info
mirror_outputs info = refl

-- Where the outputs and HTLCs of a commitment fit in a channel whose value is a u64, both
-- parties' claimable balances exist, and together they are the value of the channel, whichever
-- preimages are known: the balance neither loses a satoshi nor counts one for both.
pub claimable_balance-conserved :
    (info : CommitmentInfo2) (known : PaymentHash → Bool) (channel_value : ℕ) (funder : Bool)
    → outputs info ≤ channel_value
    → channel_value < u64_mod
    → (ours : ℕ) × (theirs : ℕ) × (claimable_balance info known funder channel_value ≡ some ours)
      × (claimable_balance (mirrored info) known (not funder) channel_value ≡ some theirs)
      × (ours + theirs ≡ channel_value)
claimable_balance-conserved info known channel_value funder funded word =
    let whole = claim-conserved info known channel_value funded word funder in
    (
      claim info known funder channel_value,
      claim (mirrored info) known (not funder) channel_value,
      claimable_balance-claim info known channel_value funded word funder (omega (arith, whole)),
      claimable_balance-claim (mirrored info) known channel_value funded word (not funder)
          (omega (arith, whole)),
      whole,
    )
