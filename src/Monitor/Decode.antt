-- ===== src/Monitor/Decode.antt =====
-- Which changes a block brings: `BlockDecodeState` and `PushListener` of vls-core/src/monitor.rs, which
-- read the transactions of a block one input and output at a time. `none` is a panic.
pub mod Finish
use validating_lightning_sig.Common.{
  ℕ, Bool, true, false, not, ◌&&◌, Option, none, some, List, [], ◌∷◌, ◌++◌, any, map, length,
  get_elem?, ltb, ◌==◌, ◌!=◌, if◌then◌else◌, u32_add,
}
use validating_lightning_sig.Common.Panics.{◌>>=◌, ◌>>◌, assert, on_some}
use validating_lightning_sig.Channel.{OutPoint}
use validating_lightning_sig.Channel.Equality.{outpoint_eq}
use validating_lightning_sig.Monitor.{
  State, StateChange, funding_confirmed, funding_input_spent, unilateral_close_confirmed,
  mutual_close_confirmed, our_output_spent, htlc_output_spent, second_level_htlc_output_spent,
}
use validating_lightning_sig.Monitor.Closing
use validating_lightning_sig.Monitor.Closing.{ClosingOutpoints, position}
use validating_lightning_sig.Monitor.Changes.{Applied, apply_forward_change, apply_all}
use validating_lightning_sig.Monitor.Blocks.{on_add_block_end, on_remove_block_end}
use validating_lightning_sig.Monitor.Transactions.{
  TxIn, TxOut, Transaction, ClosingTx, Provider, decode_commitment_number, decode_commitment_tx,
}

abbrev pub max_commitment_outputs : ℕ
max_commitment_outputs = 600

pub record BlockDecodeState : Type 0 where
  pub changes : List StateChange
  pub version : ℕ
  pub input_num : ℕ
  pub output_num : ℕ
  pub closing_tx : Option ClosingTx
  pub spent_htlc_outputs : List (ℕ × ℕ)
  pub block_hash : Option ℕ
  pub state : State

unfoldable pub new : State → Option ℕ → BlockDecodeState
new state block_hash = record {
  changes = [];
  version = 0;
  input_num = 0;
  output_num = 0;
  closing_tx = none;
  spent_htlc_outputs = [];
  block_hash = block_hash;
  state = state;
}

unfoldable pub add_change : BlockDecodeState → StateChange → Option BlockDecodeState
unfolding apply_forward_change
add_change self change = do
  a ← apply_forward_change (record { state = self.state; adds = []; removes = [] }) change
  some (record self { changes = self.changes ++ change ∷ []; state = a.state })

-- `PushListener`, with the decode state in place of the reference to it.
pub record Listener : Type 0 where
  pub decode_state : BlockDecodeState
  pub saw_block : Bool

abbrev pub is_some {ℓ} : {A : Type ℓ} → Option A → Bool
is_some none = false
is_some (some a) = true

unfoldable pub is_not_ready_for_push : Listener → Option Bool
is_not_ready_for_push self =
    if self.saw_block
    then (assert (is_some self.decode_state.block_hash) >> some false)
    else (assert (not (is_some self.decode_state.block_hash)) >> some true)

unfoldable pub on_block_start : Listener → ℕ → Option Listener
on_block_start self hash = do
  assert (not (is_some self.decode_state.block_hash))
  some (record {
    decode_state = record self.decode_state { block_hash = some hash };
    saw_block = true;
  })

-- A handler runs on the decode state where the listener is ready, and else does nothing.
abbrev pub if_ready : Listener → (BlockDecodeState → Option BlockDecodeState) → Option Listener
if_ready self body = is_not_ready_for_push self >>= λ not_ready.
    if not_ready
    then some self
    else (body self.decode_state >>= λ ds. some (record self { decode_state = ds }))

unfoldable pub start_transaction : ℕ → BlockDecodeState → Option BlockDecodeState
start_transaction version ds = some (record ds {
  version = version;
  input_num = 0;
  output_num = 0;
  closing_tx = none;
  spent_htlc_outputs = [];
})

unfoldable pub on_transaction_start : Listener → ℕ → Option Listener
unfolding is_not_ready_for_push start_transaction
on_transaction_start self version = if_ready self (start_transaction version)

-- `decode_state.state.funding_inputs.contains(..)`
unfoldable pub note_funding_input : TxIn → BlockDecodeState → Option BlockDecodeState
unfolding add_change outpoint_eq
note_funding_input input ds =
    if any (outpoint_eq input.previous_output) ds.state.funding_inputs
    then add_change ds (funding_input_spent input.previous_output)
    else some ds

abbrev pub is_outpoint : OutPoint → Option OutPoint → Bool
is_outpoint o none = false
is_outpoint o (some p) = outpoint_eq o p

-- Starts to gather the closing transaction.
unfoldable pub note_funding_spend : TxIn → BlockDecodeState → BlockDecodeState
unfolding outpoint_eq
note_funding_spend input ds =
    if is_outpoint input.previous_output ds.state.funding_outpoint
    then record ds { closing_tx = some (record { lock_time = 0; input = input ∷ []; output = [] }) }
    else ds

-- Whether an output of a unilateral close is spent, and which.
unfoldable pub spend_closing : TxIn → ClosingOutpoints → BlockDecodeState → Option BlockDecodeState
unfolding add_change Closing.includes_our_output Closing.includes_htlc_output
    Closing.includes_second_level_htlc_output
spend_closing input c ds =
    if Closing.includes_our_output c input.previous_output
    then add_change ds (our_output_spent input.previous_output.vout)
    else if Closing.includes_htlc_output c input.previous_output
    then some (record ds {
      spent_htlc_outputs = ds.spent_htlc_outputs ++ (input.previous_output.vout, ds.input_num) ∷ [];
    })
    else if Closing.includes_second_level_htlc_output c input.previous_output
    then add_change ds (second_level_htlc_output_spent input.previous_output)
    else some ds

unfoldable pub note_closing_spend : TxIn → BlockDecodeState → Option BlockDecodeState
unfolding spend_closing
note_closing_spend input ds = on_some ds.state.closing_outpoints ds (spend_closing input)

-- A spend of the funding with several inputs is a splice.
unfoldable pub count_input : BlockDecodeState → BlockDecodeState
count_input ds = record ds {
  closing_tx = if is_some ds.closing_tx && ds.input_num != 0 then none else ds.closing_tx;
  input_num = u32_add ds.input_num 1;
}

unfoldable pub read_input : TxIn → BlockDecodeState → Option BlockDecodeState
unfolding note_funding_input note_funding_spend note_closing_spend count_input
read_input input ds = do
  ds₁ ← note_funding_input input ds
  ds₂ ← note_closing_spend input (note_funding_spend input ds₁)
  some (count_input ds₂)

unfoldable pub on_transaction_input : Listener → TxIn → Option Listener
unfolding is_not_ready_for_push read_input
on_transaction_input self input = if_ready self (read_input input)

unfoldable pub gather_output : TxOut → ClosingTx → BlockDecodeState → Option BlockDecodeState
gather_output output tx ds = do
  assert (ltb ds.output_num max_commitment_outputs)
  some (record ds { closing_tx = some (record tx { output = tx.output ++ output ∷ [] }) })

unfoldable pub read_output : TxOut → BlockDecodeState → Option BlockDecodeState
unfolding gather_output
read_output output ds = do
  ds' ← on_some ds.closing_tx ds (gather_output output)
  some (record ds' { output_num = u32_add ds'.output_num 1 })

unfoldable pub on_transaction_output : Listener → TxOut → Option Listener
unfolding is_not_ready_for_push read_output
on_transaction_output self output = if_ready self (read_output output)
