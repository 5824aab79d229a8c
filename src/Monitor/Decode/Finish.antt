-- ===== src/Monitor/Decode/Finish.antt =====
-- The end of a transaction, and whole blocks: `on_transaction_end` of `PushListener`, and
-- `push_transactions`, `on_add_block`, `on_remove_block` and their streamed variants of `ChainMonitor`,
-- vls-core/src/monitor.rs. `none` is a panic.
use validating_lightning_sig.Common.{
  ℕ, Bool, true, false, not, Option, none, some, List, [], ◌∷◌, any, get_elem?, ltb, ◌==◌,
  if◌then◌else◌,
}
use validating_lightning_sig.Common.Panics.{◌>>=◌, ◌>>◌, assert, on_some}
use validating_lightning_sig.Monitor.{
  State, StateChange, funding_confirmed, unilateral_close_confirmed, mutual_close_confirmed,
  htlc_output_spent,
}
use validating_lightning_sig.Monitor.Closing.{position}
use validating_lightning_sig.Monitor.Changes.{Applied}
use validating_lightning_sig.Monitor.Blocks.{on_add_block_end, on_remove_block_end}
use validating_lightning_sig.Monitor.Transactions.{
  TxIn, Transaction, ClosingTx, Provider, decode_commitment_number, decode_commitment_tx,
}
use validating_lightning_sig.Monitor.Decode
use validating_lightning_sig.Monitor.Decode.{
  BlockDecodeState, Listener, add_change, if_ready, is_some, is_not_ready_for_push,
  on_transaction_start, on_transaction_input, on_transaction_output,
}

-- The funding transaction at index `ind` confirms.
unfoldable pub confirm_at : ℕ → ℕ → BlockDecodeState → Option BlockDecodeState
unfolding add_change
confirm_at txid ind ds = do
  vout ← get_elem? ds.state.funding_vouts ind
  assert (ltb vout ds.output_num)
  add_change ds (funding_confirmed (record { txid = txid; vout = vout }))

unfoldable pub confirm_funding : ℕ → BlockDecodeState → Option BlockDecodeState
unfolding confirm_at position
confirm_funding txid ds = on_some (position txid ds.state.funding_txids) ds (confirm_at txid)

first_input : ClosingTx → Option TxIn
first_input tx = elim tx.input [
  | [] ↦ none
  | input ∷ [] ↦ some input
  | input ∷ another ∷ more ↦ none
]

-- Nothing is asked of the provider where the commitment has no HTLC.
spendable : Provider → ClosingTx → ℕ → List ℕ → Option (List ℕ)
spendable p tx number [] = some []
spendable p tx number (i ∷ htlcs) = p.get_spendable_htlc_indices tx number

-- Whether the gathered transaction is a commitment or a mutual close. The assertion that it has one
-- input is in `first_input`.
unfoldable pub closing_change : Provider → ℕ → ClosingTx → Option StateChange
unfolding decode_commitment_number decode_commitment_tx first_input spendable
closing_change p txid tx = first_input tx >>= λ input. elim (decode_commitment_number p tx) [
  | none ↦ some (mutual_close_confirmed txid input.previous_output)
  | some number ↦
      let (main, htlcs) = decode_commitment_tx p tx number in
      spendable p tx number htlcs >>= λ indices.
      some (unilateral_close_confirmed txid input.previous_output main indices)
]

unfoldable pub add_closing : Provider → ℕ → ClosingTx → BlockDecodeState → Option BlockDecodeState
unfolding add_change closing_change
add_closing p txid tx ds = closing_change p txid tx >>= add_change ds

abbrev pub take_closing : BlockDecodeState → BlockDecodeState
take_closing ds = record ds { closing_tx = none }

-- A spend whose transaction makes the current funding is a splice.
unfoldable pub finish_tx : Provider → ℕ → ℕ → ClosingTx → BlockDecodeState → Option BlockDecodeState
unfolding add_closing
finish_tx p lock_time txid tx ds =
    if any (λ t. t == txid) ds.state.funding_txids
    then some (take_closing ds)
    else add_closing p txid (record tx { lock_time = lock_time }) (take_closing ds)

unfoldable pub finish_closing : Provider → ℕ → ℕ → BlockDecodeState → Option BlockDecodeState
unfolding finish_tx
finish_closing p lock_time txid ds = on_some ds.closing_tx ds (finish_tx p lock_time txid)

-- `for change in htlc_changes { decode_state.add_change(change) }`
unfoldable pub add_htlc_changes : ℕ → List (ℕ × ℕ) → BlockDecodeState → Option BlockDecodeState
unfolding add_change
add_htlc_changes txid [] ds = some ds
add_htlc_changes txid ((vout, input_index) ∷ spent) ds =
    add_change ds (htlc_output_spent vout (record { txid = txid; vout = input_index }))
    >>= add_htlc_changes txid spent

unfoldable pub finish_transaction : Provider → ℕ → ℕ → BlockDecodeState → Option BlockDecodeState
unfolding confirm_funding finish_closing add_htlc_changes
finish_transaction p lock_time txid ds = do
  ds₁ ← confirm_funding txid ds
  ds₂ ← finish_closing p lock_time txid ds₁
  add_htlc_changes txid ds₂.spent_htlc_outputs (record ds₂ { spent_htlc_outputs = [] })

unfoldable pub on_transaction_end : Provider → Listener → ℕ → ℕ → Option Listener
unfolding is_not_ready_for_push finish_transaction
on_transaction_end p self lock_time txid = if_ready self (finish_transaction p lock_time txid)

-- `for x in xs { listener.f(x) }`
unfoldable pub each {ℓ} :
    {A : Type ℓ} → (Listener → A → Option Listener) → Listener → List A → Option Listener
each f self [] = some self
each f self (x ∷ xs) = f self x >>= λ self'. each f self' xs

unfoldable pub push_transaction : Provider → Listener → Transaction → Option Listener
unfolding each on_transaction_start on_transaction_input on_transaction_output on_transaction_end
push_transaction p self tx = do
  self₁ ← on_transaction_start self tx.version
  self₂ ← each on_transaction_input self₁ tx.input
  self₃ ← each on_transaction_output self₂ tx.output
  on_transaction_end p self₃ tx.lock_time tx.txid

-- The state, which has seen a block from here on, and the decoded block.
unfoldable pub push_transactions :
    Provider → State → ℕ → List Transaction → Option (State × BlockDecodeState)
unfolding each push_transaction Decode.new
push_transactions p state block_hash txs = do
  let state = record state { saw_block = true }
  listener ←
      each (push_transaction p)
        (record { decode_state = Decode.new state (some block_hash); saw_block = true }) txs
  some (state, listener.decode_state)

-- `assert_eq!(decode_state.block_hash.as_ref(), Some(block_hash))`
abbrev pub is_decoded : ℕ → BlockDecodeState → Bool
is_decoded block_hash ds = elim ds.block_hash [ none ↦ false | some h ↦ h == block_hash ]

unfoldable pub on_add_block : Provider → State → List Transaction → ℕ → Option Applied
unfolding push_transactions on_add_block_end
on_add_block p state txs block_hash = do
  pushed ← push_transactions p state block_hash txs
  on_add_block_end pushed.0 (is_decoded block_hash pushed.1) pushed.1.changes

unfoldable pub on_remove_block : Provider → State → List Transaction → ℕ → Option Applied
unfolding push_transactions on_remove_block_end
on_remove_block p state txs block_hash = do
  pushed ← push_transactions p state block_hash txs
  on_remove_block_end pushed.0 (is_decoded block_hash pushed.1) pushed.1.changes

-- A streamed block ends: the decode state is what the pushes left, or nothing.
unfoldable pub on_add_streamed_block_end : State → Option BlockDecodeState → ℕ → Option Applied
unfolding on_add_block_end
on_add_streamed_block_end state decode_state block_hash =
    if not state.saw_block
    then some (record { state = state; adds = []; removes = [] })
    else (decode_state >>= λ ds. on_add_block_end state (is_decoded block_hash ds) ds.changes)

unfoldable pub on_remove_streamed_block_end : State → Option BlockDecodeState → ℕ → Option Applied
unfolding on_remove_block_end
on_remove_streamed_block_end state decode_state block_hash =
    if not state.saw_block
    then some (record { state = state; adds = []; removes = [] })
    else (decode_state >>= λ ds. on_remove_block_end state (is_decoded block_hash ds) ds.changes)

-- `decode_state_lock.get_or_insert_with(..)`
abbrev or_new : State → Option BlockDecodeState → BlockDecodeState
or_new state none = Decode.new state none
or_new state (some ds) = ds

-- One push of a streamed block: `f` is the call of the listener.
unfoldable pub on_push :
    State
    → Option BlockDecodeState
    → (Listener → Option Listener)
    → Option (State × BlockDecodeState)
on_push state decode_state f = do
  listener ← f (record { decode_state = or_new state decode_state; saw_block = state.saw_block })
  some (record state { saw_block = listener.saw_block }, listener.decode_state)
