-- ===== src/Monitor/Undo/Block.antt =====
-- A block with one change that is added and removed again: `on_add_block_end` and
-- `on_remove_block_end` of vls-core/src/monitor.rs.
use validating_lightning_sig.Common.{
  ℕ, ◌+◌, ◌<◌, ◌≡◌, refl, ap, sym, ◌∙◌, Bool, true, false, not, ◌&&◌, Option, none, some, List, [],
  ◌∷◌, arith, ◌==◌, if◌then◌else◌, u32_mod, u32_add, u32_sub,
}
use validating_lightning_sig.Channel.{OutPoint}
use validating_lightning_sig.Monitor.{
  State, StateChange, unilateral_close_confirmed, our_output_spent,
}
use validating_lightning_sig.Monitor.Closing
use validating_lightning_sig.Monitor.Changes.{
  Applied, apply_all, apply_forward_change, apply_backward_change,
}
use validating_lightning_sig.Monitor.Blocks.{
  on_add_block_end, on_remove_block_end, is_closing_swept, is_our_output_swept, note_swept,
  forget_swept,
}
use validating_lightning_sig.Monitor.Undo.{Undoable, take_back, with_swept, afresh}

-- A sweep has a height only where the outputs of a close are spent.
pub record Marked (s : State) : Type 0 where
  pub closing : is_closing_swept s ≡ false → s.closing_swept_height ≡ none
  pub ours : is_our_output_swept s ≡ false → s.our_output_swept_height ≡ none

abbrev pub grow : State → State
grow s = record s { saw_block = true; height = u32_add s.height 1 }

mark_unmark :
    (g f : Bool) (old : Option ℕ) (h : ℕ)
    → (g ≡ false → old ≡ none)
    → (now : Option ℕ) → now ≡ old
    → (if f && not g then none else if not g && f then some h else now) ≡ old
mark_unmark g f old h e now same = ground (arith, e)

state_same :
    (s : State) (x y : Option ℕ) (h : ℕ) (b : Bool)
    → x ≡ s.closing_swept_height
    → y ≡ s.our_output_swept_height
    → h ≡ s.height
    → b ≡ s.saw_block
    → Path State (record (with_swept x y s) { height = h; saw_block = b }) s
state_same s x y h b e₁ e₂ e₃ e₄ = ground arith

lower : (h : ℕ) → h + 1 < u32_mod → u32_sub (u32_add h 1) 1 ≡ h
lower h low = omega arith

abbrev unmarked : State → State → State
unmarked added back =
    let kept = forget_swept added back in record kept { height = u32_sub kept.height 1 }

unmark :
    (s : State) (f : State)
    → s.saw_block ≡ true
    → s.height + 1 < u32_mod
    → Marked s
    → (f.closing_swept_height ≡ s.closing_swept_height)
      × (f.our_output_swept_height ≡ s.our_output_swept_height)
    → (let added = note_swept (grow s) f in
        unmarked added
          (with_swept added.closing_swept_height added.our_output_swept_height (grow s)))
      ≡ s
unfolding note_swept forget_swept is_closing_swept is_our_output_swept
unmark s f saw low marked (same, same') =
    state_same s _ _ _ _
      (mark_unmark (is_closing_swept s) (is_closing_swept f) s.closing_swept_height f.height
        marked.closing f.closing_swept_height same)
      (mark_unmark (is_our_output_swept s) (is_our_output_swept f) s.our_output_swept_height
        f.height marked.ours f.our_output_swept_height same')
      (lower s.height low) (sym saw)

note_swept_eq :
    (g f : State)
    → (let added = note_swept g f in
        added ≡ with_swept added.closing_swept_height added.our_output_swept_height f)
unfolding note_swept
note_swept_eq g f = refl

remove_eq :
    (added : State) (f : State) (back : Applied) (x y : Option ℕ) (c : StateChange)
    → added ≡ with_swept x y f
    → apply_backward_change (afresh (with_swept x y f)) c
      ≡ some (record back { state = with_swept x y back.state })
    → on_remove_block_end added true (c ∷ [])
      ≡ some (record back { state = unmarked added (with_swept x y back.state) })
unfolding on_remove_block_end apply_all
remove_eq added f back x y c e reverted = rw e (rw reverted refl)

-- A block that brings one change, of which the state has no trace yet, can be added and removed
-- again: both calls return, and the monitor's whole state, depths and sweeps included, is what it
-- was, if a block was seen before, the height does not overflow and a sweep has a height only
-- where outputs are spent.
pub on_remove_block_end-on_add_block_end :
    (s : State) (c : StateChange)
    → s.saw_block ≡ true
    → s.height + 1 < u32_mod
    → Marked s
    → Undoable (grow s) c
    → (added : Applied) × (removed : Applied) × (on_add_block_end s true (c ∷ []) ≡ some added)
      × (on_remove_block_end added.state true (c ∷ []) ≡ some removed)
      × (removed.state ≡ s)
unfolding on_add_block_end on_remove_block_end apply_all
on_remove_block_end-on_add_block_end s c saw low marked undoable =
    let t = take_back (grow s) c undoable in
    let added = note_swept (grow s) t.forth.state in
    let x = added.closing_swept_height in
    let y = added.our_output_swept_height in
    (
      record t.forth { state = added },
      record t.back { state = unmarked added (with_swept x y t.back.state) },
      rw t.applied refl,
      remove_eq added t.forth.state t.back x y c (note_swept_eq (grow s) t.forth.state)
          (t.reverted x y),
      ap (λ b. unmarked added (with_swept x y b)) t.restored
          ∙ unmark s t.forth.state saw low marked t.kept,
    )

same : (n : ℕ) → (n == n) ≡ true
same n = ground arith

-- A block with a unilateral close and, after it, the spend of our output of that close can be
-- added to any state, but on_remove_block_end panics on the same changes in every state.
pub close_and_sweep_panics :
    (s : State) (txid : ℕ) (funding : OutPoint) (vout : ℕ) (htlcs : List ℕ)
    → (let changes =
          unilateral_close_confirmed txid funding (some vout) htlcs ∷ our_output_spent vout ∷ [] in
        ((added : Applied) × (on_add_block_end s true changes ≡ some added))
        × ((t : State) → on_remove_block_end t true changes ≡ none))
unfolding on_add_block_end on_remove_block_end apply_all apply_forward_change apply_backward_change
    Closing.new Closing.set_our_output_spent
close_and_sweep_panics s txid funding vout htlcs = (rw (same vout) (_, refl), λ t. ground arith)
