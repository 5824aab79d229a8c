-- ===== src/Monitor/Blocks.antt =====
-- The end of a block that is added or removed: `on_add_block_end` and `on_remove_block_end` of
-- vls-core/src/monitor.rs. `none` is a panic; messages to the log are left out.
use validating_lightning_sig.Common.{
  Bool, true, false, not, ◌&&◌, Option, none, some, List, [], if◌then◌else◌, u32_add, u32_sub,
}
use validating_lightning_sig.Common.Panics.{◌>>=◌, ◌>>◌, assert}
use validating_lightning_sig.Monitor.{State, StateChange}
use validating_lightning_sig.Monitor.Closing
use validating_lightning_sig.Monitor.Changes.{
  Applied, apply_forward_change, apply_backward_change, apply_all,
}

-- Whether the unilateral close is fully swept.
unfoldable pub is_closing_swept : State → Bool
is_closing_swept self = elim self.closing_outpoints [
  | none ↦ false
  | some o ↦ Closing.is_all_spent o
]

-- Whether our output of the close is swept, or does not exist.
unfoldable pub is_our_output_swept : State → Bool
is_our_output_swept self = elim self.closing_outpoints [
  | none ↦ false
  | some o ↦ Closing.our_output_is_spent o.our_output
]

-- The swept heights after a block was added: `before` is the state that the tests read first.
unfoldable pub note_swept : State → State → State
unfolding is_closing_swept is_our_output_swept
note_swept before self = record self {
  closing_swept_height =
      if not (is_closing_swept before) && is_closing_swept self
      then some self.height
      else self.closing_swept_height;
  our_output_swept_height =
      if not (is_our_output_swept before) && is_our_output_swept self
      then some self.height
      else self.our_output_swept_height;
}

unfoldable pub forget_swept : State → State → State
unfolding is_closing_swept is_our_output_swept
forget_swept before self = record self {
  closing_swept_height =
      if is_closing_swept before && not (is_closing_swept self)
      then none
      else self.closing_swept_height;
  our_output_swept_height =
      if is_our_output_swept before && not (is_our_output_swept self)
      then none
      else self.our_output_swept_height;
}

-- `block_is_decoded` is the assertion that the decoded block is the one that ends.
unfoldable pub on_add_block_end : State → Bool → List StateChange → Option Applied
unfolding apply_forward_change apply_all note_swept
on_add_block_end self block_is_decoded changes = do
  assert block_is_decoded
  let grown = record self { saw_block = true; height = u32_add self.height 1 }
  a ← apply_all apply_forward_change (record { state = grown; adds = []; removes = [] }) changes
  some (record a { state = note_swept grown a.state })

unfoldable pub on_remove_block_end : State → Bool → List StateChange → Option Applied
unfolding apply_backward_change apply_all forget_swept
on_remove_block_end self block_is_decoded changes = do
  assert block_is_decoded
  a ← apply_all apply_backward_change (record { state = self; adds = []; removes = [] }) changes
  let kept = forget_swept self a.state
  some (record a { state = record kept { height = u32_sub kept.height 1 } })
