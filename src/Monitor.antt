-- ===== src/Monitor.antt =====
-- The chain monitor of a channel: vls-core/src/monitor.rs. The state it keeps and the changes that a
-- block can bring; the children have the operations. `channel_id` is read by log messages only, and
-- is left out; the set `funding_inputs` is a list that is searched.
pub mod Closing
pub mod Changes
pub mod Blocks
pub mod Depth
pub mod Done
pub mod Tests
pub mod Undo
pub mod Transactions
pub mod Decode
pub mod Returns
use validating_lightning_sig.Common.{ℕ, Bool, Option, List}
use validating_lightning_sig.Channel.{OutPoint}

-- The depth at which a channel is done.
abbrev pub min_depth : ℕ
min_depth = 100

pub record State : Type 0 where
  pub height : ℕ
  pub funding_txids : List ℕ
  pub funding_vouts : List ℕ
  pub funding_inputs : List OutPoint
  pub funding_height : Option ℕ
  pub funding_outpoint : Option OutPoint
  pub funding_double_spent_height : Option ℕ
  pub mutual_closing_height : Option ℕ
  pub unilateral_closing_height : Option ℕ
  pub closing_outpoints : Option Closing.ClosingOutpoints
  pub closing_swept_height : Option ℕ
  pub our_output_swept_height : Option ℕ
  pub saw_block : Bool
  pub saw_forget_channel : Bool

pub data StateChange : Type 0 where
  funding_confirmed : OutPoint → StateChange
  funding_input_spent : OutPoint → StateChange
  -- the closing txid, the funding outpoint, our output and the HTLC outputs
  unilateral_close_confirmed : ℕ → OutPoint → Option ℕ → List ℕ → StateChange
  mutual_close_confirmed : ℕ → OutPoint → StateChange
  our_output_spent : ℕ → StateChange
  -- the HTLC output and the second-level outpoint that the spend made
  htlc_output_spent : ℕ → OutPoint → StateChange
  second_level_htlc_output_spent : OutPoint → StateChange
