-- ===== src/Channel/Equality.antt =====
-- The derived `PartialEq` of outpoints, HTLCs, commitment infos and channel setups.
use validating_lightning_sig.Common.{
  ◌≡◌, refl, ◌↔◌, Bool, true, false, ◌&&◌, ◌≢◌, Bool-cases, inl, inr, Option, none, some, ℕ, List,
  [], ◌∷◌, arith, ◌==◌,
}
use validating_lightning_sig.Channel.{
  OutPoint, HtlcInfo2, CommitmentInfo2, CommitmentType, legacy, static_remote_key, anchors,
  anchors_zero_fee_htlc, ChannelPublicKeys, ChannelSetup,
}

unfoldable pub outpoint_eq : OutPoint → OutPoint → Bool
outpoint_eq a b = a.txid == b.txid && a.vout == b.vout

unfoldable pub htlc_eq : HtlcInfo2 → HtlcInfo2 → Bool
htlc_eq a b =
    a.value_sat == b.value_sat && a.payment_hash == b.payment_hash && a.cltv_expiry == b.cltv_expiry

unfoldable pub htlcs_eq : List HtlcInfo2 → List HtlcInfo2 → Bool
unfolding htlc_eq
htlcs_eq [] [] = true
htlcs_eq (a ∷ xs) (b ∷ ys) = htlc_eq a b && htlcs_eq xs ys
htlcs_eq _ _ = false

abbrev bool_eq : Bool → Bool → Bool
bool_eq true b = b
bool_eq false true = false
bool_eq false false = true

unfoldable pub info_eq : CommitmentInfo2 → CommitmentInfo2 → Bool
info_eq a b =
    bool_eq a.is_counterparty_broadcaster b.is_counterparty_broadcaster
    && a.to_countersigner_value_sat == b.to_countersigner_value_sat
    && a.to_broadcaster_value_sat == b.to_broadcaster_value_sat
    && htlcs_eq a.offered_htlcs b.offered_htlcs
    && htlcs_eq a.received_htlcs b.received_htlcs
    && a.feerate_per_kw == b.feerate_per_kw

unfoldable pub option_eq : Option ℕ → Option ℕ → Bool
option_eq none none = true
option_eq (some a) (some b) = a == b
option_eq _ _ = false

unfoldable pub type_eq : CommitmentType → CommitmentType → Bool
type_eq legacy legacy = true
type_eq static_remote_key static_remote_key = true
type_eq anchors anchors = true
type_eq anchors_zero_fee_htlc anchors_zero_fee_htlc = true
type_eq _ _ = false

unfoldable pub points_eq : ChannelPublicKeys → ChannelPublicKeys → Bool
points_eq a b =
    a.funding_pubkey == b.funding_pubkey
    && a.revocation_basepoint == b.revocation_basepoint
    && a.payment_point == b.payment_point
    && a.delayed_payment_basepoint == b.delayed_payment_basepoint
    && a.htlc_basepoint == b.htlc_basepoint

unfoldable pub setup_eq : ChannelSetup → ChannelSetup → Bool
unfolding outpoint_eq option_eq type_eq points_eq
setup_eq a b =
    bool_eq a.is_outbound b.is_outbound
    && a.channel_value_sat == b.channel_value_sat
    && a.push_value_msat == b.push_value_msat
    && outpoint_eq a.funding_outpoint b.funding_outpoint
    && a.holder_selected_contest_delay == b.holder_selected_contest_delay
    && option_eq a.holder_shutdown_script b.holder_shutdown_script
    && points_eq a.counterparty_points b.counterparty_points
    && a.counterparty_selected_contest_delay == b.counterparty_selected_contest_delay
    && option_eq a.counterparty_shutdown_script b.counterparty_shutdown_script
    && type_eq a.commitment_type b.commitment_type

pub option_eq→eq : (a b : Option ℕ) → option_eq a b ≡ true → a ≡ b
unfolding option_eq
option_eq→eq none none e = refl
option_eq→eq none (some b) e = absurd (ground arith)
option_eq→eq (some a) none e = absurd (ground arith)
option_eq→eq (some a) (some b) e = ground arith

pub outpoint_eq_iff : (a b : OutPoint) → (outpoint_eq a b ≡ true) ↔ (a ≡ b)
unfolding outpoint_eq
outpoint_eq_iff a b = ((λ h. ground arith), (λ h. ground arith))

pub outpoint_eq_refl : (a : OutPoint) → outpoint_eq a a ≡ true
outpoint_eq_refl a = (outpoint_eq_iff a a).1 refl

pub outpoint_eq_other : (a b : OutPoint) → a ≢ b → outpoint_eq a b ≡ false
outpoint_eq_other a b other = elim (Bool-cases (outpoint_eq a b)) [
  | inl same ↦ absurd (other ((outpoint_eq_iff a b).0 same))
  | inr e ↦ e
]

pub htlc_eq_iff : (a b : HtlcInfo2) → (htlc_eq a b ≡ true) ↔ (a ≡ b)
unfolding htlc_eq
htlc_eq_iff a b = ((λ h. ground arith), (λ h. ground arith))

pub htlcs_eq→eq : (xs ys : List HtlcInfo2) → htlcs_eq xs ys ≡ true → xs ≡ ys
unfolding htlcs_eq
htlcs_eq→eq [] [] h = refl
htlcs_eq→eq [] (b ∷ ys) h = ground arith
htlcs_eq→eq (a ∷ xs) [] h = ground arith
htlcs_eq→eq (a ∷ xs) (b ∷ ys) h = ground (arith, htlcs_eq→eq xs ys)

pub htlcs_eq_refl : (xs : List HtlcInfo2) → htlcs_eq xs xs ≡ true
unfolding htlcs_eq
htlcs_eq_refl [] = refl
htlcs_eq_refl (a ∷ xs) = ground (arith, htlcs_eq_refl xs)

pub info_eq→eq : (a b : CommitmentInfo2) → info_eq a b ≡ true → a ≡ b
unfolding info_eq
info_eq→eq a b h = ground (
  arith,
  htlcs_eq→eq a.offered_htlcs b.offered_htlcs,
  htlcs_eq→eq a.received_htlcs b.received_htlcs,
)

pub info_eq_refl : (a : CommitmentInfo2) → info_eq a a ≡ true
unfolding info_eq
info_eq_refl a = ground (arith, htlcs_eq_refl a.offered_htlcs, htlcs_eq_refl a.received_htlcs)
