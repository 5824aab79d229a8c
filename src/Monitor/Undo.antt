-- ===== src/Monitor/Undo.antt =====
-- Removing the block that was just added: vls-core/src/monitor.rs. When one change can be taken back,
-- and what is left of it in the state and in the watched outpoints.
pub mod Outputs
pub mod Block
use validating_lightning_sig.Common.{
  ℕ, ◌≡◌, refl, ap, sym, ◌∙◌, Bool, true, false, Option, none, some, List, [], ◌∷◌, arith,
  get_elem?, ◌==◌, if◌then◌else◌,
}
use validating_lightning_sig.Common.Panics.{◌>>=◌, assert}
use validating_lightning_sig.Channel.{OutPoint}
use validating_lightning_sig.Monitor.{
  State, StateChange, funding_confirmed, funding_input_spent, unilateral_close_confirmed,
  mutual_close_confirmed, our_output_spent, htlc_output_spent, second_level_htlc_output_spent,
}
use validating_lightning_sig.Monitor.Closing
use validating_lightning_sig.Monitor.Closing.{ClosingOutpoints, position}
use validating_lightning_sig.Monitor.Changes.{
  Applied, is_at, outputs_of, get_or_insert, apply_forward_change, apply_backward_change,
}
use Outputs.{spent_of, our_output_undo, htlc_output_undo, second_level_undo}

-- The state has no trace yet of what the change brings.
unfoldable pub Undoable : State → StateChange → Type 0
Undoable s (funding_confirmed o) =
    (s.funding_height ≡ none) × (s.funding_outpoint ≡ none) × (s.funding_double_spent_height ≡ none)
Undoable s (funding_input_spent o) = is_at s.funding_double_spent_height s.height ≡ false
Undoable s (unilateral_close_confirmed txid o i htlcs) =
    (s.unilateral_closing_height ≡ none) × (s.closing_outpoints ≡ none)
Undoable s (mutual_close_confirmed txid o) = s.mutual_closing_height ≡ none
Undoable s (our_output_spent vout) =
    (c : ClosingOutpoints) × (s.closing_outpoints ≡ some c) × (c.our_output ≡ some (vout, false))
Undoable s (htlc_output_spent vout second_level) =
    (c : ClosingOutpoints) × (i : ℕ) × (s.closing_outpoints ≡ some c)
    × (position vout c.htlc_outputs ≡ some i)
    × (get_elem? c.htlc_spents i ≡ some false)
    × (Closing.includes_second_level_htlc_output c second_level ≡ false)
Undoable s (second_level_htlc_output_spent o) =
    (c : ClosingOutpoints) × (s.closing_outpoints ≡ some c)
    × (spent_of o c.second_level_htlc_outputs ≡ some false)

abbrev pub afresh : State → Applied
afresh s = record { state = s; adds = []; removes = [] }

-- The heights of the sweeps, which the changes neither read nor write.
abbrev pub with_swept : Option ℕ → Option ℕ → State → State
with_swept x y s = record s { closing_swept_height = x; our_output_swept_height = y }

-- The change, and then the same change backwards, return and leave the state as it was.
pub record TakesBack (s : State) (c : StateChange) : Type 0 where
  pub forth : Applied
  pub back : Applied
  pub applied : apply_forward_change (afresh s) c ≡ some forth
  pub kept :
      (forth.state.closing_swept_height ≡ s.closing_swept_height)
      × (forth.state.our_output_swept_height ≡ s.our_output_swept_height)
  pub reverted :
      (x y : Option ℕ)
      → apply_backward_change (afresh (with_swept x y forth.state)) c
        ≡ some (record back { state = with_swept x y back.state })
  pub restored : back.state ≡ s

-- A state whose close is `c` stays what it is when `c` is written to it.
closing_same :
    (s : State) (c : ClosingOutpoints)
    → s.closing_outpoints ≡ some c
    → Path State (record s { closing_outpoints = some c }) s
closing_same s c e =
    ap (λ (o : Option ClosingOutpoints). record s { closing_outpoints = o }) (sym e)

is_at_self : (h : ℕ) → is_at (some h) h ≡ true
is_at_self h = ground arith

take_back_funding :
    (s : State) (o : OutPoint)
    → Undoable s (funding_confirmed o)
    → TakesBack s (funding_confirmed o)
unfolding Undoable apply_forward_change apply_backward_change
take_back_funding s o (h, f, d) = record {
  forth = _;
  back = record {
    state = record s {
      funding_height = none;
      funding_outpoint = none;
      funding_double_spent_height = none;
    };
    adds = o ∷ [];
    removes = [];
  };
  applied = refl;
  kept = (refl, refl);
  reverted = λ x y. rw (is_at_self s.height) refl;
  restored = ground arith;
}

take_back_input :
    (s : State) (o : OutPoint)
    → Undoable s (funding_input_spent o)
    → TakesBack s (funding_input_spent o)
unfolding Undoable apply_forward_change apply_backward_change
take_back_input s o h = record {
  forth = _;
  back = record {
    state = record s {
      funding_double_spent_height =
          if is_at (get_or_insert s.funding_double_spent_height s.height) s.height
          then none
          else get_or_insert s.funding_double_spent_height s.height;
    };
    adds = [];
    removes = o ∷ [];
  };
  applied = refl;
  kept = (refl, refl);
  reverted = λ x y. refl;
  restored = ground arith;
}

take_back_unilateral :
    (s : State) (txid : ℕ) (o : OutPoint) (i : Option ℕ) (htlcs : List ℕ)
    → Undoable s (unilateral_close_confirmed txid o i htlcs)
    → TakesBack s (unilateral_close_confirmed txid o i htlcs)
unfolding Undoable apply_forward_change apply_backward_change
take_back_unilateral s txid o i htlcs (h, c) = record {
  forth = _;
  back = record {
    state = record s { unilateral_closing_height = none; closing_outpoints = none };
    adds = outputs_of txid i htlcs;
    removes = o ∷ [];
  };
  applied = refl;
  kept = (refl, refl);
  reverted = λ x y. rw (is_at_self s.height) refl;
  restored = ground arith;
}

take_back_ours :
    (s : State) (v : ℕ) → Undoable s (our_output_spent v) → TakesBack s (our_output_spent v)
unfolding Undoable apply_forward_change apply_backward_change
take_back_ours s v (c, e, h) =
    let (c', spent, unspent) = our_output_undo c v h in
    record {
      forth = record {
        state = record s { closing_outpoints = some c' };
        adds = [];
        removes = record { txid = c.txid; vout = v } ∷ [];
      };
      back = record {
        state = record s { closing_outpoints = some c };
        adds = [];
        removes = record { txid = c'.txid; vout = v } ∷ [];
      };
      applied = rw e (rw spent refl);
      kept = (refl, refl);
      reverted = λ x y. rw unspent refl;
      restored = closing_same s c e;
    }

take_back_htlc :
    (s : State) (v : ℕ) (o : OutPoint)
    → Undoable s (htlc_output_spent v o)
    → TakesBack s (htlc_output_spent v o)
unfolding Undoable apply_forward_change apply_backward_change
take_back_htlc s v o (c, i, e, p, h, fresh) =
    let (c₁, c₂, spent, unspent, same) = htlc_output_undo c v i o p h fresh in
    record {
      forth = record {
        state = record s { closing_outpoints = some (Closing.add_second_level_htlc_output c₁ o) };
        adds = o ∷ [];
        removes = record { txid = c.txid; vout = v } ∷ [];
      };
      back = record {
        state = record s {
          closing_outpoints = some (Closing.remove_second_level_htlc_output c₂ o);
        };
        adds = record { txid = (Closing.add_second_level_htlc_output c₁ o).txid; vout = v } ∷ [];
        removes = o ∷ [];
      };
      applied = rw e (rw spent refl);
      kept = (refl, refl);
      reverted = λ x y. rw unspent refl;
      restored = rw same (closing_same s c e);
    }

take_back_second :
    (s : State) (o : OutPoint)
    → Undoable s (second_level_htlc_output_spent o)
    → TakesBack s (second_level_htlc_output_spent o)
unfolding Undoable apply_forward_change apply_backward_change
take_back_second s o (c, e, h) =
    let (c', spent, unspent) = second_level_undo c o h in
    record {
      forth = record {
        state = record s { closing_outpoints = some c' };
        adds = [];
        removes = o ∷ [];
      };
      back = record {
        state = record s { closing_outpoints = some c };
        adds = o ∷ [];
        removes = [];
      };
      applied = rw e (rw spent refl);
      kept = (refl, refl);
      reverted = λ x y. rw unspent refl;
      restored = closing_same s c e;
    }

pub take_back : (s : State) (c : StateChange) → Undoable s c → TakesBack s c
unfolding Undoable apply_forward_change apply_backward_change
take_back s (funding_confirmed o) h = take_back_funding s o h
take_back s (funding_input_spent o) h = take_back_input s o h
take_back s (unilateral_close_confirmed txid o i htlcs) h = take_back_unilateral s txid o i htlcs h
take_back s (mutual_close_confirmed txid o) h = record {
  forth = _;
  back = record { state = record s { mutual_closing_height = none }; adds = []; removes = o ∷ [] };
  applied = refl;
  kept = (refl, refl);
  reverted = λ x y. refl;
  restored = ground arith;
}
take_back s (our_output_spent vout) h = take_back_ours s vout h
take_back s (htlc_output_spent vout o) h = take_back_htlc s vout o h
take_back s (second_level_htlc_output_spent o) h = take_back_second s o h
