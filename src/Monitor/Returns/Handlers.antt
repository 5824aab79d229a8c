-- ===== src/Monitor/Returns/Handlers.antt =====
-- Every handler of the push listener keeps what the decoder tracks, and so a block that decodes is
-- applied: vls-core/src/monitor.rs.
use mathlib.Core.Path.{subst}
use mathlib.Core.Option.{some-injective}
use validating_lightning_sig.Common.{
  inl, inr, ℕ, ◌≡◌, refl, ◌∙◌, Option, some, List, [], ◌∷◌, arith, any, get_elem?, ltb, ◌==◌,
  Bool-cases,
}
use validating_lightning_sig.Common.Panics.{
  assert, >>=-eq-some, Keeps, Keeps-some, Keeps-bind, Keeps-if, Keeps-on_some,
}
use validating_lightning_sig.Monitor.{
  StateChange, our_output_spent, second_level_htlc_output_spent, funding_input_spent,
  funding_confirmed, htlc_output_spent,
}
use validating_lightning_sig.Monitor.Closing.{ClosingOutpoints}
use validating_lightning_sig.Monitor.Transactions.{TxIn, TxOut, ClosingTx, Provider}
use validating_lightning_sig.Monitor.Decode.{
  BlockDecodeState, add_change, start_transaction, note_funding_input, note_funding_spend,
  spend_closing, note_closing_spend, gather_output, max_commitment_outputs, count_input, read_input,
  read_output, is_outpoint,
}
use validating_lightning_sig.Monitor.Decode.Finish.{
  confirm_at, take_closing, add_closing, finish_tx, confirm_funding, finish_closing, closing_change,
  add_htlc_changes, finish_transaction,
}
use validating_lightning_sig.Monitor.Returns.{Tracks, add_change-Tracks}

module _ (co : Option ClosingOutpoints) (hash : ℕ) where
  abbrev KeepsTrack : (BlockDecodeState → Option BlockDecodeState) → Type 0
  KeepsTrack f = Keeps (Tracks co hash) f

  -- The two fields that the tracking is about stay.
  same_Tracks :
      (ds ds' : BlockDecodeState)
      → ds'.changes ≡ ds.changes
      → ds'.state ≡ ds.state
      → ds'.block_hash ≡ ds.block_hash
      → Tracks co hash ds
      → Tracks co hash ds'
  same_Tracks ds ds' e₁ e₂ e₃ t = record {
    follows = λ a outs. rw e₁ (rw e₂ (t.follows a outs));
    hashed = e₃ ∙ t.hashed;
  }

  added : (c : StateChange) → KeepsTrack (λ ds. add_change ds c)
  added c ds ds' h t = add_change-Tracks co hash c ds ds' h t

  pub start-Tracks : (version : ℕ) → KeepsTrack (start_transaction version)
  unfolding start_transaction
  start-Tracks version = Keeps-some _ λ ds t. same_Tracks ds _ refl refl refl t

  funding_input-Tracks : (input : TxIn) → KeepsTrack (note_funding_input input)
  unfolding note_funding_input
  funding_input-Tracks input =
      Keeps-if _ (added (funding_input_spent input.previous_output)) (Keeps-some _ λ ds t. t)

  funding_spend-Tracks :
      (input : TxIn) (ds : BlockDecodeState)
      → Tracks co hash ds
      → Tracks co hash (note_funding_spend input ds)
  unfolding note_funding_spend
  funding_spend-Tracks input ds t =
      elim (Bool-cases (is_outpoint input.previous_output ds.state.funding_outpoint)) [
        | inl e ↦ rw e (same_Tracks ds _ refl refl refl t)
        | inr e ↦ rw e t
      ]

  spend_closing-Tracks : (input : TxIn) (c : ClosingOutpoints) → KeepsTrack (spend_closing input c)
  unfolding spend_closing
  spend_closing-Tracks input c = Keeps-if _ (added (our_output_spent input.previous_output.vout)) (
      Keeps-if _ (Keeps-some _ λ ds t. same_Tracks ds _ refl refl refl t) (
        Keeps-if _ (added (second_level_htlc_output_spent input.previous_output))
          (Keeps-some _ λ ds t. t)))

  closing_spend-Tracks : (input : TxIn) → KeepsTrack (note_closing_spend input)
  unfolding note_closing_spend
  closing_spend-Tracks input = Keeps-on_some _ _ (spend_closing-Tracks input)

  count_input-Tracks : (ds : BlockDecodeState) → Tracks co hash ds → Tracks co hash (count_input ds)
  unfolding count_input
  count_input-Tracks ds t = same_Tracks ds _ refl refl refl t

  pub read_input-Tracks : (input : TxIn) → KeepsTrack (read_input input)
  unfolding read_input
  read_input-Tracks input = Keeps-bind (funding_input-Tracks input) λ ds ds' h t.
      let (d, e₁, e₂) = >>=-eq-some (note_closing_spend input (note_funding_spend input ds)) _ h in
      subst (Tracks co hash) (ground arith)
        (count_input-Tracks d (closing_spend-Tracks input _ d e₁ (funding_spend-Tracks input ds t)))

  pub read_output-Tracks : (output : TxOut) → KeepsTrack (read_output output)
  unfolding read_output
  read_output-Tracks output =
      Keeps-bind
        (Keeps-on_some _ (gather_output output) λ tx ds ds' h t.
          let (u, e₁, e₂) = >>=-eq-some (assert (ltb ds.output_num max_commitment_outputs)) _ h in
          subst (Tracks co hash) (some-injective _ ds' e₂) (same_Tracks ds _ refl refl refl t))
        (Keeps-some _ λ ds t. same_Tracks ds _ refl refl refl t)

  confirm-Tracks : (txid : ℕ) → KeepsTrack (confirm_funding txid)
  unfolding confirm_funding confirm_at
  confirm-Tracks txid = Keeps-on_some _ (confirm_at txid) λ ind ds ds' h t.
      let (vout, e₁, e₂) = >>=-eq-some (get_elem? ds.state.funding_vouts ind) _ h in
      let (u, e₃, e₄) = >>=-eq-some (assert (ltb vout ds.output_num)) _ e₂ in
      added (funding_confirmed (record { txid = txid; vout = vout })) ds ds' e₄ t

  taken-Tracks : (ds : BlockDecodeState) → Tracks co hash ds → Tracks co hash (take_closing ds)
  taken-Tracks ds t = same_Tracks ds (take_closing ds) refl refl refl t

  add_closing-Tracks :
      (p : Provider) (txid : ℕ) (tx : ClosingTx) → KeepsTrack (add_closing p txid tx)
  unfolding add_closing
  add_closing-Tracks p txid tx ds ds' h t =
      let (c, e₁, e₂) = >>=-eq-some (closing_change p txid tx) (add_change ds) h in
      added c ds ds' e₂ t

  finish_closing-Tracks :
      (p : Provider) (lock_time txid : ℕ) → KeepsTrack (finish_closing p lock_time txid)
  unfolding finish_closing finish_tx
  finish_closing-Tracks p lock_time txid = Keeps-on_some _ (finish_tx p lock_time txid) λ tx.
      Keeps-if (λ ds. any (λ t. t == txid) ds.state.funding_txids)
        {f = λ ds. some (take_closing ds)}
        {g = λ ds. add_closing p txid (record tx { lock_time = lock_time }) (take_closing ds)}
        (Keeps-some take_closing taken-Tracks)
        λ ds ds' h t.
          add_closing-Tracks p txid (record tx { lock_time = lock_time }) (take_closing ds) ds' h
            (taken-Tracks ds t)

  htlcs-Tracks : (txid : ℕ) (spent : List (ℕ × ℕ)) → KeepsTrack (add_htlc_changes txid spent)
  unfolding add_htlc_changes
  htlcs-Tracks txid [] = Keeps-some _ λ ds t. t
  htlcs-Tracks txid ((vout, i) ∷ spent) =
      Keeps-bind (added (htlc_output_spent vout (record { txid = txid; vout = i })))
        (htlcs-Tracks txid spent)

  pub finish-Tracks :
      (p : Provider) (lock_time txid : ℕ) → KeepsTrack (finish_transaction p lock_time txid)
  unfolding finish_transaction
  finish-Tracks p lock_time txid = Keeps-bind (confirm-Tracks txid) (
      Keeps-bind (finish_closing-Tracks p lock_time txid) λ ds ds' h t.
        htlcs-Tracks txid ds.spent_htlc_outputs _ ds' h (same_Tracks ds _ refl refl refl t))
