-- ===== src/Tracker/Listener.antt =====
-- The chain monitor as a listener of the tracker: `impl ChainListener for ChainMonitor` of
-- vls-core/src/monitor.rs.
use validating_lightning_sig.Common.{Option, none, some, List}
use validating_lightning_sig.Common.Panics.{◌>>=◌}
use validating_lightning_sig.Channel.{OutPoint}
use validating_lightning_sig.Monitor.{State}
use validating_lightning_sig.Monitor.Changes.{Applied}
use validating_lightning_sig.Monitor.Decode.{BlockDecodeState}
use validating_lightning_sig.Monitor.Decode.Finish.{
  on_add_block, on_remove_block, on_add_streamed_block_end, on_remove_streamed_block_end,
}
use validating_lightning_sig.Monitor.Transactions.{Provider}
use validating_lightning_sig.Tracker.{ChainListener}

-- The monitor's state, and what was decoded of a streamed block.
abbrev pub ChainMonitor : Type 0
ChainMonitor = State × Option BlockDecodeState

abbrev report :
    Option BlockDecodeState → Option Applied → Option (ChainMonitor × List OutPoint × List OutPoint)
report decode_state call = call >>= λ a. some ((a.state, decode_state), a.adds, a.removes)

-- The end of a streamed block takes the decode state.
unfoldable pub chain_monitor : Provider → ChainListener ChainMonitor
chain_monitor p = record {
  on_add = λ self txs hash. elim txs [
    | none ↦ report none (on_add_streamed_block_end self.0 self.1 hash)
    | some ts ↦ report self.1 (on_add_block p self.0 ts hash)
  ];
  on_remove = λ self txs hash. elim txs [
    | none ↦ report none (on_remove_streamed_block_end self.0 self.1 hash)
    | some ts ↦ report self.1 (on_remove_block p self.0 ts hash)
  ];
}
