-- ===== src/Monitor/Tests.antt =====
-- A monitor in concrete states: a channel whose commitment was broadcast, and one that waits for its
-- funding.
use validating_lightning_sig.Common.{◌≡◌, refl, true, false, none, some, [], ◌∷◌, arith}
use validating_lightning_sig.Channel.{OutPoint}
use validating_lightning_sig.Channel.Equality.{outpoint_eq}
use validating_lightning_sig.Monitor.{
  State, htlc_output_spent, our_output_spent, funding_confirmed, unilateral_close_confirmed,
}
use validating_lightning_sig.Monitor.Closing
use validating_lightning_sig.Monitor.Closing.{ClosingOutpoints, position, matches_outpoint}
use validating_lightning_sig.Monitor.Transactions.{Transaction, Provider}
use validating_lightning_sig.Monitor.Changes.{Applied, apply_forward_change, apply_all}
use validating_lightning_sig.Monitor.Blocks.{
  on_add_block_end, on_remove_block_end, is_closing_swept, is_our_output_swept, note_swept,
}
use validating_lightning_sig.Monitor.Decode
use validating_lightning_sig.Monitor.Decode.{
  BlockDecodeState, is_not_ready_for_push, start_transaction, on_transaction_start, read_input,
  on_transaction_input, read_output, on_transaction_output, note_funding_input, note_funding_spend,
  note_closing_spend, count_input, add_change, gather_output,
}
use validating_lightning_sig.Monitor.Decode.Finish.{
  push_transactions, push_transaction, each, on_transaction_end, finish_transaction,
  confirm_funding, confirm_at, finish_closing, add_htlc_changes, on_add_block,
}
use validating_lightning_sig.Monitor.Depth.{is_done}
use validating_lightning_sig.Monitor.Undo.{Undoable}
use validating_lightning_sig.Monitor.Undo.Block.{
  Marked, grow, on_remove_block_end-on_add_block_end, close_and_sweep_panics,
}
use validating_lightning_sig.Monitor.Returns.Block.{on_add_block_returns}
use validating_lightning_sig.Monitor.Done.{add_empty, done_once_buried}

abbrev funding : OutPoint
funding = record { txid = 7; vout = 0 }

abbrev pub second : OutPoint
second = record { txid = 9; vout = 0 }

-- The funding transaction is awaited at height 100.
abbrev pub awaiting : State
awaiting = record {
  height = 100;
  funding_txids = 7 ∷ [];
  funding_vouts = 0 ∷ [];
  funding_inputs = record { txid = 3; vout = 1 } ∷ [];
  funding_height = none;
  funding_outpoint = none;
  funding_double_spent_height = none;
  mutual_closing_height = none;
  unilateral_closing_height = none;
  closing_outpoints = none;
  closing_swept_height = none;
  our_output_swept_height = none;
  saw_block = true;
  saw_forget_channel = false;
}

-- A commitment with our output and one HTLC is confirmed at 98.
abbrev pub broadcast : State
broadcast = record awaiting {
  funding_height = some 90;
  funding_outpoint = some funding;
  unilateral_closing_height = some 98;
  closing_outpoints = some (record {
    txid = 8;
    our_output = some (0, false);
    htlc_outputs = 1 ∷ [];
    htlc_spents = false ∷ [];
    second_level_htlc_outputs = [];
  });
}

-- A mutual close at 95, and the node has forgotten the channel.
abbrev closed_mutually : State
closed_mutually = record awaiting {
  funding_height = some 90;
  funding_outpoint = some funding;
  mutual_closing_height = some 95;
  saw_forget_channel = true;
}

abbrev provider : Provider
provider = record {
  obscure_factor = 5;
  is_p2wsh = λ s. true;
  holder_non_delayed_script = 11;
  holder_delayed_script = λ n. 12;
  cp_delayed_script = λ n. none;
  get_spendable_htlc_indices = λ tx n. some [];
}

abbrev funding_tx : Transaction
funding_tx = record {
  txid = 7;
  version = 2;
  lock_time = 0;
  input = record { previous_output = record { txid = 3; vout = 1 }; sequence = 0 } ∷ [];
  output = record { value = 1_000_000; script_pubkey = 20 } ∷ [];
}

awaiting_confirmed :
    on_add_block_end awaiting true (funding_confirmed funding ∷ [])
    ≡ some (record {
      state = record awaiting {
        height = 101;
        funding_height = some 101;
        funding_outpoint = some funding;
      };
      adds = funding ∷ [];
      removes = [];
    })
unfolding on_add_block_end apply_all apply_forward_change note_swept is_closing_swept
    is_our_output_swept
awaiting_confirmed = refl

broadcast-Marked : Marked broadcast
broadcast-Marked = record { closing = λ e. refl; ours = λ e. refl }

sweep-Undoable : Undoable (grow broadcast) (htlc_output_spent 1 second)
unfolding Undoable position Closing.includes_second_level_htlc_output
sweep-Undoable = (_, 0, refl, refl, refl, refl)

on_remove_block_end-on_add_block_end_example :
    (added : Applied) × (removed : Applied) × (on_add_block_end broadcast true
        (htlc_output_spent 1 second ∷ [])
      ≡ some added)
    × (on_remove_block_end added.state true (htlc_output_spent 1 second ∷ []) ≡ some removed)
    × (removed.state ≡ broadcast)
on_remove_block_end-on_add_block_end_example =
    on_remove_block_end-on_add_block_end broadcast (htlc_output_spent 1 second) refl (omega arith)
      broadcast-Marked sweep-Undoable

close_and_sweep_panics_example :
    ((added : Applied) × (on_add_block_end awaiting true
          (unilateral_close_confirmed 8 funding (some 0) (1 ∷ []) ∷ our_output_spent 0 ∷ [])
        ≡ some added))
    × ((t : State)
        → on_remove_block_end t true
            (unilateral_close_confirmed 8 funding (some 0) (1 ∷ []) ∷ our_output_spent 0 ∷ [])
          ≡ none)
close_and_sweep_panics_example = close_and_sweep_panics awaiting 8 funding 0 (1 ∷ [])

done_once_buried_example :
    (t : State) × (add_empty 94 closed_mutually ≡ some t) × (is_done t ≡ true)
done_once_buried_example =
    done_once_buried closed_mutually 95 94 refl refl refl (omega arith) (omega arith)

confirmed :
    (seen : State) × (ds : BlockDecodeState) × (push_transactions provider awaiting 55
        (funding_tx ∷ [])
      ≡ some (seen, ds))
unfolding push_transactions push_transaction each Decode.new on_transaction_start
    on_transaction_input on_transaction_output on_transaction_end is_not_ready_for_push
    start_transaction read_input read_output finish_transaction confirm_funding confirm_at
    finish_closing add_htlc_changes note_funding_input note_funding_spend note_closing_spend
    count_input add_change gather_output apply_forward_change outpoint_eq position
confirmed = (_, _, refl)

on_add_block_returns_example :
    (added : Applied) × (on_add_block provider awaiting (funding_tx ∷ []) 55 ≡ some added)
    × (added.state.closing_outpoints ≡ confirmed.1.state.closing_outpoints)
on_add_block_returns_example =
    on_add_block_returns provider awaiting (funding_tx ∷ []) 55 confirmed.0 confirmed.1 confirmed.2
