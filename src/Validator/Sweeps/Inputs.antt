-- ===== src/Validator/Sweeps/Inputs.antt =====
-- What the checks of a sweep do not look at: the inputs after the first one.
use validating_lightning_sig.Common.{ℕ, ◌≡◌, refl, List, [], ◌∷◌, arith, if◌then◌else◌}
use validating_lightning_sig.Channel.{ChannelSetup, ChainState, is_anchors}
use validating_lightning_sig.Monitor.Transactions.{Transaction, TxIn}
use validating_lightning_sig.Validator.{SimplePolicy}
use validating_lightning_sig.Validator.MutualClose.{Wallet}
use validating_lightning_sig.Validator.Sweeps.{
  Scripts, anchor_seqs, non_anchor_seqs, check_sweep_fee, validate_sweep, check_locktime,
  check_sequence, check_htlc_locktime, validate_delayed_sweep, validate_counterparty_htlc_sweep,
  validate_justice_sweep,
}

module _ (policy : SimplePolicy) (wallet : Wallet) (scripts : Scripts) (tx : Transaction)
    (first second : TxIn) (rest : List TxIn) (several : tx.input ≡ first ∷ second ∷ rest)
    (second' : TxIn) (rest' : List TxIn) where
  abbrev pub other : Transaction
  other = record tx { input = first ∷ second' ∷ rest' }

  same_common :
      (amount amount' path : ℕ)
      → validate_sweep policy wallet scripts tx amount path
        ≡ validate_sweep policy wallet scripts other amount' path
  unfolding validate_sweep check_sweep_fee
  same_common amount amount' path = rw several (ground arith)

  same_locktime :
      (cstate : ChainState)
      → check_locktime policy wallet scripts cstate tx
        ≡ check_locktime policy wallet scripts cstate other
  unfolding check_locktime
  same_locktime cstate = refl

  same_sequence :
      (seqs : List ℕ)
      → check_sequence policy wallet scripts tx seqs
        ≡ check_sequence policy wallet scripts other seqs
  unfolding check_sequence
  same_sequence seqs = rw several refl

  same_htlc_locktime :
      (setup : ChannelSetup) (cstate : ChainState) (redeemscript : ℕ)
      → check_htlc_locktime policy wallet scripts setup cstate tx redeemscript
        ≡ check_htlc_locktime policy wallet scripts setup cstate other redeemscript
  unfolding check_htlc_locktime check_locktime
  same_htlc_locktime setup cstate redeemscript = refl

  -- Where a sweep has several inputs, whichever of them is to be signed, the answer of each of
  -- the three checks is that for any other amount, and for any other inputs after the first:
  -- the sequence number of a later input is not looked at, nor is the fee.
  pub later_inputs_unchecked :
      (setup : ChannelSetup) (cstate : ChainState) (redeemscript amount amount' path : ℕ)
      → (validate_delayed_sweep policy wallet scripts setup cstate tx amount path
          ≡ validate_delayed_sweep policy wallet scripts setup cstate other amount' path)
        × (validate_counterparty_htlc_sweep policy wallet scripts setup cstate tx redeemscript
              amount path
            ≡ validate_counterparty_htlc_sweep policy wallet scripts setup cstate other redeemscript
                amount' path)
        × (validate_justice_sweep policy wallet scripts cstate tx amount path
            ≡ validate_justice_sweep policy wallet scripts cstate other amount' path)
  unfolding validate_delayed_sweep validate_counterparty_htlc_sweep validate_justice_sweep
  later_inputs_unchecked setup cstate redeemscript amount amount' path =
      let common = same_common amount amount' path in
      let due = same_locktime cstate in
      let due_htlc = same_htlc_locktime setup cstate redeemscript in
      (
        ground (arith, common, due, same_sequence (setup.counterparty_selected_contest_delay ∷ [])),
        ground (
          arith,
          common,
          due_htlc,
          same_sequence (if is_anchors setup then anchor_seqs else non_anchor_seqs),
        ),
        ground (arith, common, due, same_sequence non_anchor_seqs),
      )
