-- ===== src/Protocol/Splice/Swapped.antt =====
-- What a splice leaves of the channel, where its setup is accepted and where it is refused.
use Prim.Native.String.{String}
use mathlib.Core.Path.{subst}
use validating_lightning_sig.Common.{
  ℕ, ◌≡◌, refl, ◌≢◌, inl, inr, Bool, true, false, ◌&&◌, Option, none, some, arith, ltb, u64_mul, ok,
  err, panic, CannotPanic,
}
use validating_lightning_sig.Policy.{Validated}
use validating_lightning_sig.Policy.Filter.{Strict, Enforced, no_panic}
use validating_lightning_sig.Channel.{ChannelSetup, ChainState}
use validating_lightning_sig.Channel.Equality.{
  outpoint_eq, outpoint_eq_iff, outpoint_eq_refl, outpoint_eq_other, setup_eq,
}
use validating_lightning_sig.Channel.Enforcement.{snapshot_funding_for_splice}
use validating_lightning_sig.Validator.{
  SimplePolicy, validate_setup_channel, validate_delay, check_shutdown,
}
use validating_lightning_sig.Validator.Onchain.{
  OnchainPolicy, ensure_funding_buried_and_unspent, ensure_funding_iff,
}
use validating_lightning_sig.Validator.Setup.{MayShutDownTo, validate_setup_channel-ok}
use validating_lightning_sig.Protocol.{Answer, Status, status, setup_for_outpoint}
use validating_lightning_sig.Protocol.Splice.{
  Channel, is_splice_compatible, swapped_channel, setup_ready, push_is_plain_msat, splice_pending,
}

module _ (policy : SimplePolicy) (can_spend : ℕ → Option Bool) (allowlist_contains : ℕ → Bool)
    (c : Channel) (setup : ChannelSetup) where
  -- The setup is that of a splice: compatible, of another funding, and with no push above its value.
  abbrev pub IsSplice : Type 0
  IsSplice =
      (is_splice_compatible c.eras.setup setup ≡ true)
      × ((push_is_plain_msat setup
            && ltb (u64_mul setup.channel_value_sat 1000) setup.push_value_msat)
          ≡ false)

  other_outpoint :
      is_splice_compatible c.eras.setup setup ≡ true
      → outpoint_eq setup.funding_outpoint c.eras.setup.funding_outpoint ≡ false
  unfolding is_splice_compatible
  other_outpoint e = ground arith

  setup_eq-outpoint :
      (a b : ChannelSetup)
      → outpoint_eq b.funding_outpoint a.funding_outpoint ≡ false
      → setup_eq a b ≡ false
  unfolding setup_eq outpoint_eq
  setup_eq-outpoint a b e = ground arith

  setup_ready_splices :
      IsSplice
      → setup_ready policy can_spend allowlist_contains c setup ≡ (
        status (validate_setup_channel policy can_spend allowlist_contains setup),
        swapped_channel c setup,
      )
  unfolding setup_ready
  setup_ready_splices (compatible, plain) =
      let differs = setup_eq-outpoint c.eras.setup setup (other_outpoint compatible) in
      rw (differs, compatible, plain) refl

  -- The setup of a splice is swapped in whatever the answer is: the channel then has the new
  -- setup, no current commitment of either side, and the retiring funding's commitments in the
  -- snapshot. Of the fundings the new one, the one just replaced and the one before that are
  -- found, as far as their outpoints differ.
  pub splice_swaps :
      IsSplice
      → (c' : Channel) × (answer : Answer (Unit {0})) × (setup_ready policy can_spend
            allowlist_contains c setup
          ≡ (answer, c'))
        × (answer ≡ status (validate_setup_channel policy can_spend allowlist_contains setup))
        × (splice_pending c' ≡ true)
        × (c'.enforcement_state.current_holder_commit_info ≡ none)
        × (c'.enforcement_state.current_counterparty_commit_info ≡ none)
        × (setup_for_outpoint c'.eras setup.funding_outpoint ≡ ok setup)
        × (setup_for_outpoint c'.eras c.eras.setup.funding_outpoint ≡ ok c.eras.setup)
        × ((older : ChannelSetup)
            → c.eras.prev_setup ≡ some older
            → older.funding_outpoint ≢ setup.funding_outpoint
            → older.funding_outpoint ≢ c.eras.setup.funding_outpoint
            → setup_for_outpoint c'.eras older.funding_outpoint ≡ ok older)
  unfolding swapped_channel splice_pending setup_for_outpoint snapshot_funding_for_splice
  splice_swaps spliced = (
    swapped_channel c setup,
    status (validate_setup_channel policy can_spend allowlist_contains setup),
    setup_ready_splices spliced,
    refl,
    refl,
    refl,
    refl,
    rw (outpoint_eq_refl setup.funding_outpoint) refl,
    ground (
      arith,
      other_outpoint spliced.0,
      outpoint_eq_refl c.eras.setup.funding_outpoint,
      outpoint_eq_iff c.eras.setup.funding_outpoint setup.funding_outpoint,
      outpoint_eq_iff setup.funding_outpoint c.eras.setup.funding_outpoint,
    ),
    (λ older have newer replaced.
        let first = outpoint_eq_other older.funding_outpoint setup.funding_outpoint newer in
        let second =
          outpoint_eq_other older.funding_outpoint c.eras.setup.funding_outpoint replaced in
        rw (have, first, second, outpoint_eq_refl older.funding_outpoint) refl),
  )

  validate_delay-CannotPanic :
      (name : String) (delay : ℕ) → CannotPanic (validate_delay policy name delay)
  unfolding validate_delay
  validate_delay-CannotPanic name delay = search no_panic

  check_shutdown-CannotPanic :
      (script : Option ℕ) → CannotPanic (check_shutdown policy can_spend allowlist_contains script)
  unfolding check_shutdown
  check_shutdown-CannotPanic none = search no_panic
  check_shutdown-CannotPanic (some script) = search no_panic

  validate_setup-CannotPanic :
      CannotPanic (validate_setup_channel policy can_spend allowlist_contains setup)
  unfolding validate_setup_channel
  validate_setup-CannotPanic =
      search (no_panic, validate_delay-CannotPanic, check_shutdown-CannotPanic)

  status-refused :
      (answer : Validated (Unit {0}))
      → CannotPanic answer
      → answer ≢ ok tt
      → (st : Status) × (status answer ≡ err st)
  status-refused panic calm refused = absurd (calm refl)
  status-refused (err e) calm refused = (_, refl)
  status-refused (ok tt) calm refused = absurd (refused refl)

  -- Under a filter that demotes nothing, the setup of a splice that names a shutdown script
  -- which is neither the wallet's nor on the allowlist is refused; the channel has it all the
  -- same, waits on the splice, and the on-chain check then passes a commitment of any number,
  -- however shallow or spent its funding is, where the filter enforces that check.
  pub refused_splice_swapped :
      Strict policy.filter
      → IsSplice
      → (script : ℕ) → setup.holder_shutdown_script ≡ some script
      → can_spend script ≡ some false
      → allowlist_contains script ≡ false
      → (st : Status) × (c' : Channel) × (setup_ready policy can_spend allowlist_contains c setup
          ≡ (err st, c'))
        × (c'.eras.setup ≡ setup)
        × ((onchain : OnchainPolicy) (cstate : ChainState) (commit_num : ℕ)
            → Enforced onchain.filter "policy-commitment-spends-active-utxo"
            → cstate.splice_pending ≡ splice_pending c'
            → ensure_funding_buried_and_unspent onchain commit_num cstate ≡ ok tt)
  unfolding swapped_channel splice_pending
  refused_splice_swapped strict spliced script named foreign unlisted =
      let rejected : validate_setup_channel policy can_spend allowlist_contains setup ≢ ok tt =
        λ accepted.
          let (_, _, _, allowed) =
            validate_setup_channel-ok policy strict can_spend allowlist_contains setup accepted in
          let owned : MayShutDownTo policy strict can_spend allowlist_contains (some script) =
            subst (MayShutDownTo policy strict can_spend allowlist_contains) named allowed in
          elim owned [ inl mine ↦ ground arith | inr (_, listed) ↦ ground arith ] in
      let (st, refused) =
        status-refused (validate_setup_channel policy can_spend allowlist_contains setup)
          validate_setup-CannotPanic rejected in
      (
        st,
        swapped_channel c setup,
        rw (← refused) (setup_ready_splices spliced),
        refl,
        (λ onchain cstate commit_num enforced pending.
            (ensure_funding_iff onchain enforced cstate commit_num).1 (inr (inl pending))),
      )
