-- ===== src/Channel.antt =====
-- The data of a channel: vls-core/src/tx/tx.rs, channel.rs (`ChannelSetup`) and policy/validator.rs
-- (`ChainState`). Keys, signatures, txids, scripts and hashes of the bitcoin crates are only compared
-- here, and are numbers.
pub mod Equality
pub mod Balance
pub mod Secrets
pub mod Enforcement
pub mod Summary
pub mod Totals
use validating_lightning_sig.Common.{
  ℕ, ◌+◌, ◌/◌, Bool, true, false, not, ◌&&◌, Option, none, some, List, [], ◌∷◌, ◌==◌, if◌then◌else◌,
  u64_add, checked_add, checked_sub,
}

abbrev pub PublicKey : Type 0
PublicKey = ℕ

abbrev pub PaymentHash : Type 0
PaymentHash = ℕ

pub record OutPoint : Type 0 where
  pub txid : ℕ
  pub vout : ℕ

pub record HtlcInfo2 : Type 0 where
  pub value_sat : ℕ
  pub payment_hash : PaymentHash
  pub cltv_expiry : ℕ

-- `CommitmentInfo2::new` sorts the HTLCs; here they are as the caller gives them.
pub record CommitmentInfo2 : Type 0 where
  pub is_counterparty_broadcaster : Bool
  pub to_countersigner_value_sat : ℕ
  pub to_broadcaster_value_sat : ℕ
  pub offered_htlcs : List HtlcInfo2
  pub received_htlcs : List HtlcInfo2
  pub feerate_per_kw : ℕ

pub record CommitmentSignatures : Type 0 where
  pub signature : ℕ
  pub htlc_signatures : List ℕ

pub data CommitmentType : Type 0 where
  legacy static_remote_key anchors anchors_zero_fee_htlc : CommitmentType

-- The lightning crate's keys of one side.
pub record ChannelPublicKeys : Type 0 where
  pub funding_pubkey : PublicKey
  pub revocation_basepoint : PublicKey
  pub payment_point : PublicKey
  pub delayed_payment_basepoint : PublicKey
  pub htlc_basepoint : PublicKey

pub record ChannelSetup : Type 0 where
  pub is_outbound : Bool
  pub channel_value_sat : ℕ
  pub push_value_msat : ℕ
  pub funding_outpoint : OutPoint
  pub holder_selected_contest_delay : ℕ
  pub holder_shutdown_script : Option ℕ
  pub counterparty_points : ChannelPublicKeys
  pub counterparty_selected_contest_delay : ℕ
  pub counterparty_shutdown_script : Option ℕ
  pub commitment_type : CommitmentType

type_is_anchors : CommitmentType → Bool
type_is_anchors anchors = true
type_is_anchors anchors_zero_fee_htlc = true
type_is_anchors _ = false

type_is_zero_fee : CommitmentType → Bool
type_is_zero_fee anchors_zero_fee_htlc = true
type_is_zero_fee _ = false

unfoldable pub is_anchors : ChannelSetup → Bool
unfolding type_is_anchors
is_anchors self = type_is_anchors self.commitment_type

unfoldable pub is_zero_fee_htlc : ChannelSetup → Bool
unfolding type_is_zero_fee
is_zero_fee_htlc self = type_is_zero_fee self.commitment_type

pub record ChainState : Type 0 where
  pub current_height : ℕ
  pub funding_depth : ℕ
  pub funding_double_spent_depth : ℕ
  pub closing_depth : ℕ
  pub splice_pending : Bool

-- Values to holder and counterparty, in this order.
unfoldable pub value_to_parties : CommitmentInfo2 → ℕ × ℕ
value_to_parties info =
    if info.is_counterparty_broadcaster
    then (info.to_countersigner_value_sat, info.to_broadcaster_value_sat)
    else (info.to_broadcaster_value_sat, info.to_countersigner_value_sat)

-- `iter().map(|h| h.value_sat).sum::<u64>()`, which wraps in a release build.
unfoldable pub sum_values : List HtlcInfo2 → ℕ
sum_values [] = 0
sum_values (h ∷ hs) = u64_add h.value_sat (sum_values hs)

unfoldable pub total_value : CommitmentInfo2 → ℕ
total_value info =
    u64_add
      (u64_add (u64_add info.to_broadcaster_value_sat info.to_countersigner_value_sat)
        (sum_values info.offered_htlcs))
      (sum_values info.received_htlcs)

-- HTLCs that the holder offers and receives, whoever broadcasts.
unfoldable pub holder_offered : CommitmentInfo2 → List HtlcInfo2
holder_offered info =
    if info.is_counterparty_broadcaster then info.received_htlcs else info.offered_htlcs

unfoldable pub holder_received : CommitmentInfo2 → List HtlcInfo2
holder_received info =
    if info.is_counterparty_broadcaster then info.offered_htlcs else info.received_htlcs

-- One of the two loops of `claimable_balance`: adds the HTLCs whose preimage is known, or unknown.
unfoldable pub add_claimable : (PaymentHash → Bool) → ℕ → List HtlcInfo2 → Option ℕ
add_claimable counts balance [] = some balance
add_claimable counts balance (h ∷ hs) =
    elim (if counts h.payment_hash then checked_add balance h.value_sat else some balance) [
      | none ↦ none
      | some balance' ↦ add_claimable counts balance' hs
    ]

unfoldable pub outbound_fee : Bool → ℕ → CommitmentInfo2 → ℕ → Option ℕ
outbound_fee true channel_value info balance = elim (checked_sub channel_value (total_value info)) [
  | none ↦ none
  | some fee ↦ checked_add balance fee
]
outbound_fee false channel_value info balance = some balance

unfoldable pub claimable_balance : CommitmentInfo2 → (PaymentHash → Bool) → Bool → ℕ → Option ℕ
unfolding outbound_fee value_to_parties add_claimable
claimable_balance info has_preimage is_outbound channel_value =
    elim (outbound_fee is_outbound channel_value info (value_to_parties info).0) [
      | none ↦ none
      | some balance ↦
          elim (add_claimable (λ h. not (has_preimage h)) balance (holder_offered info)) [
            | none ↦ none
            | some balance' ↦ add_claimable has_preimage balance' (holder_received info)
          ]
    ]
