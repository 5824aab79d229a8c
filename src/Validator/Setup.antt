-- ===== src/Validator/Setup.antt =====
-- What the check of a new channel's setup accepts.
mod Tests
use Prim.Native.String.{String}
use validating_lightning_sig.Common.{
  ℕ, ◌≤◌, ◌≡◌, refl, ◌↔◌, ◌⊎◌, inl, inr, Bool, true, false, not, ◌&&◌, arith, ltb, leb, ◌==◌,
  if◌then◌else◌, Bool-cases, Option-cases, Option, none, some, Outcome, ok, err, panic, when, ok_or,
  >>-eq-ok,
}
use validating_lightning_sig.Policy.{policy_err, policy_error}
use validating_lightning_sig.Policy.Filter.{Strict}
use validating_lightning_sig.Channel.{
  ChannelSetup, CommitmentType, legacy, static_remote_key, anchors, anchors_zero_fee_htlc,
}
use validating_lightning_sig.Validator.{
  SimplePolicy, validate_delay, validate_setup_channel, check_shutdown, safe_commitment_type,
}
use validating_lightning_sig.Validator.Commitment.Limits.{refusal}
use Prim.Native.String.{◌++◌ as str_append}

safe-cases :
    (type : CommitmentType)
    → safe_commitment_type type ≡ true
    → (type ≡ static_remote_key) ⊎ (type ≡ anchors_zero_fee_htlc)
unfolding safe_commitment_type
safe-cases legacy safe = absurd (ground arith)
safe-cases static_remote_key safe = inl refl
safe-cases anchors safe = absurd (ground arith)
safe-cases anchors_zero_fee_htlc safe = inr refl

module _ (policy : SimplePolicy) (strict : Strict policy.filter) where
  validate_delay_iff :
      (name : String) (delay : ℕ)
      → (validate_delay policy name delay ≡ ok tt)
        ↔ ((policy.min_delay ≤ delay) × (delay ≤ policy.max_delay))
  unfolding validate_delay
  validate_delay_iff name delay =
      let refused = refusal policy strict (str_append "policy-channel-contest-delay-range-" name) in
      ((λ e. ground (arith, refused)), (λ p. ground (arith, refused, p)))

  module _ (can_spend : ℕ → Option Bool) (allowlist_contains : ℕ → Bool) where
    -- The script that a channel pays to on shutdown is the wallet's, or the wallet knows it and it is
    -- on the allowlist.
    abbrev pub MayShutDownTo : Option ℕ → Type 0
    MayShutDownTo none = Unit
    MayShutDownTo (some script) =
        (can_spend script ≡ some true)
        ⊎ ((can_spend script ≡ some false) × (allowlist_contains script ≡ true))

    check_shutdown-ok :
        (script : Option ℕ)
        → check_shutdown policy can_spend allowlist_contains script ≡ ok tt
        → MayShutDownTo script
    unfolding check_shutdown
    check_shutdown-ok none e = tt
    check_shutdown-ok (some script) e =
        let refused = refusal policy strict "policy-mutual-destination-allowlisted" in
        elim (Option-cases (can_spend script)) [
          | inl failed ↦ absurd (ground arith)
          | inr (spendable, known) ↦ elim (Bool-cases spendable) [
            | inl mine ↦ inl (ground arith)
            | inr other ↦ inr (ground arith, ground (arith, refused))
          ]
        ]

    -- Under a filter that demotes nothing, a channel setup that passes has one of the two
    -- safe commitment types, both contest delays within the policy's range, and, where it
    -- names a shutdown script, one that the wallet can spend to or that is on the allowlist.
    pub validate_setup_channel-ok :
        (setup : ChannelSetup)
        → validate_setup_channel policy can_spend allowlist_contains setup ≡ ok tt
        → ((setup.commitment_type ≡ static_remote_key)
            ⊎ (setup.commitment_type ≡ anchors_zero_fee_htlc))
          × ((policy.min_delay ≤ setup.counterparty_selected_contest_delay)
              × (setup.counterparty_selected_contest_delay ≤ policy.max_delay))
          × ((policy.min_delay ≤ setup.holder_selected_contest_delay)
              × (setup.holder_selected_contest_delay ≤ policy.max_delay))
          × MayShutDownTo setup.holder_shutdown_script
    unfolding validate_setup_channel
    validate_setup_channel-ok setup e =
        let refused = refusal policy strict "policy-channel-safe-type" in
        let (type, e₁) =
          >>-eq-ok
            (when (not (safe_commitment_type setup.commitment_type))
              (policy_err policy.filter "policy-channel-safe-type"))
            _ e in
        let (theirs, e₂) =
          >>-eq-ok (validate_delay policy "holder" setup.counterparty_selected_contest_delay) _
            e₁ in
        let (ours, e₃) =
          >>-eq-ok (validate_delay policy "counterparty" setup.holder_selected_contest_delay) _
            e₂ in
        (
          safe-cases setup.commitment_type (ground (arith, refused)),
          (validate_delay_iff "holder" setup.counterparty_selected_contest_delay).0 theirs,
          (validate_delay_iff "counterparty" setup.holder_selected_contest_delay).0 ours,
          check_shutdown-ok setup.holder_shutdown_script e₃,
        )
