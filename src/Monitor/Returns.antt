-- ===== src/Monitor/Returns.antt =====
-- Applying the changes that were decoded from a block: `add_change`, `on_add_block` of
-- vls-core/src/monitor.rs. The decoder tries every change on a copy of the state, which follows the
-- outputs of a close as the state itself will.
pub mod Handlers
pub mod Block
use validating_lightning_sig.Common.{
  ℕ, ◌≡◌, refl, ap, sym, ◌∙◌, Bool, true, false, Option, none, some, List, [], ◌∷◌, ◌++◌, arith,
}
use mathlib.Core.Path.{subst}
use mathlib.Core.Option.{some-injective}
use validating_lightning_sig.Common.Panics.{◌>>=◌, >>=-eq-some, >>=-some, >>=-assoc}
use validating_lightning_sig.Channel.{OutPoint}
use validating_lightning_sig.Monitor.{
  State, StateChange, funding_confirmed, funding_input_spent, unilateral_close_confirmed,
  mutual_close_confirmed, our_output_spent, htlc_output_spent, second_level_htlc_output_spent,
}
use validating_lightning_sig.Monitor.Closing
use validating_lightning_sig.Monitor.Closing.{ClosingOutpoints}
use validating_lightning_sig.Monitor.Changes.{Applied, apply_forward_change, apply_all}
use validating_lightning_sig.Monitor.Decode.{BlockDecodeState, add_change}

abbrev pub outputs : Applied → Option ClosingOutpoints
outputs a = a.state.closing_outpoints

-- The call returns, with these outputs of the close.
pub data ReturnsWith (co : Option ClosingOutpoints) : Option Applied → Type 0 where
  returns : (a : Applied) → outputs a ≡ co → ReturnsWith co (some a)

-- What a change does to the outputs of a close depends on nothing else of the state.
forward_alike :
    (a a' : Applied) (c : StateChange)
    → outputs a' ≡ outputs a
    → (b : Applied) → apply_forward_change a c ≡ some b
    → ReturnsWith (outputs b) (apply_forward_change a' c)
unfolding apply_forward_change
forward_alike a a' (funding_confirmed o) e b h = returns _ (ground arith)
forward_alike a a' (funding_input_spent o) e b h = returns _ (ground arith)
forward_alike a a' (unilateral_close_confirmed txid o i htlcs) e b h = returns _ (ground arith)
forward_alike a a' (mutual_close_confirmed txid o) e b h = returns _ (ground arith)
forward_alike a a' (our_output_spent v) e b h =
    let (c, e₁, h₁) = >>=-eq-some a.state.closing_outpoints _ h in
    let (c', e₂, h₂) = >>=-eq-some (Closing.set_our_output_spent c v true) _ h₁ in
    rw (e ∙ e₁) (rw e₂ (returns _ (ground arith)))
forward_alike a a' (htlc_output_spent v o) e b h =
    let (c, e₁, h₁) = >>=-eq-some a.state.closing_outpoints _ h in
    let (c', e₂, h₂) = >>=-eq-some (Closing.set_htlc_output_spent c v true) _ h₁ in
    rw (e ∙ e₁) (rw e₂ (returns _ (ground arith)))
forward_alike a a' (second_level_htlc_output_spent o) e b h =
    let (c, e₁, h₁) = >>=-eq-some a.state.closing_outpoints _ h in
    let (c', e₂, h₂) = >>=-eq-some (Closing.set_second_level_htlc_spent c o true) _ h₁ in
    rw (e ∙ e₁) (rw e₂ (returns _ (ground arith)))

-- The changes so far apply to every state with the outputs `co`, and give the decoder's.
pub record Tracks (co : Option ClosingOutpoints) (hash : ℕ) (ds : BlockDecodeState) : Type 0 where
  pub follows :
      (a : Applied)
      → outputs a ≡ co
      → ReturnsWith ds.state.closing_outpoints (apply_all apply_forward_change a ds.changes)
  pub hashed : ds.block_hash ≡ some hash

apply_all-append :
    (f : Applied → StateChange → Option Applied) (a : Applied) (cs : List StateChange)
    (c : StateChange)
    → apply_all f a (cs ++ c ∷ []) ≡ (apply_all f a cs >>= λ b. f b c)
unfolding apply_all
apply_all-append f a [] c = >>=-some (f a c)
apply_all-append f a (d ∷ cs) c = >>=-assoc (f a d) _ _ _ λ b. apply_all-append f b cs c

follow_one :
    (r : Option Applied) (c : StateChange) (x b : Applied) (co : Option ClosingOutpoints)
    → outputs x ≡ co
    → apply_forward_change x c ≡ some b
    → ReturnsWith co r
    → ReturnsWith (outputs b) (r >>= λ a. apply_forward_change a c)
follow_one r c x b co e h (returns a same) = forward_alike x a c (same ∙ sym e) b h

pub add_change-Tracks :
    (co : Option ClosingOutpoints) (hash : ℕ) (c : StateChange) (ds ds' : BlockDecodeState)
    → add_change ds c ≡ some ds'
    → Tracks co hash ds
    → Tracks co hash ds'
unfolding add_change
add_change-Tracks co hash c ds ds' h t =
    let x : Applied = record { state = ds.state; adds = []; removes = [] } in
    let (b, e, same) = >>=-eq-some (apply_forward_change x c) _ h in
    let d = record ds { changes = ds.changes ++ c ∷ []; state = b.state } in
    let grown : Tracks co hash d = record {
      follows = λ a outs. rw (apply_all-append apply_forward_change a ds.changes c) (
          follow_one (apply_all apply_forward_change a ds.changes) c x b _ refl e
            (t.follows a outs));
      hashed = t.hashed;
    } in
    subst (Tracks co hash) (some-injective d ds' same) grown
