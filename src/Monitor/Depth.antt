-- ===== src/Monitor/Depth.antt =====
-- The depths that are read from the monitor's state, the test that a channel can be forgotten, and the
-- operations of `ChainMonitorBase` and `ChainMonitor` on the state: vls-core/src/monitor.rs.
use validating_lightning_sig.Common.{
  ℕ, ◌-◌, Bool, true, false, ◌||◌, Option, none, some, [], ltb, if◌then◌else◌, u32_add, u32_sub,
}
use validating_lightning_sig.Common.{List, ◌++◌, ◌∷◌, ◌==◌, length}
use validating_lightning_sig.Common.Panics.{◌>>=◌, ◌>>◌, assert}
use validating_lightning_sig.Channel.{OutPoint, ChainState}
use validating_lightning_sig.Monitor.{State, min_depth}

-- `self.height + 1` wraps in a release build; then `saturating_sub`.
unfoldable pub depth_of : State → Option ℕ → ℕ
depth_of self none = u32_add self.height 1 - u32_add self.height 1
depth_of self (some other_height) = u32_add self.height 1 - other_height

unfoldable pub deep_enough_and_saw_node_forget : State → Option ℕ → ℕ → Bool
unfolding depth_of
deep_enough_and_saw_node_forget self other_height limit =
    if ltb (depth_of self other_height) limit then false else self.saw_forget_channel

unfoldable pub is_done : State → Bool
unfolding deep_enough_and_saw_node_forget
is_done self =
    deep_enough_and_saw_node_forget self self.funding_double_spent_height min_depth
    || deep_enough_and_saw_node_forget self self.mutual_closing_height min_depth
    || deep_enough_and_saw_node_forget self self.closing_swept_height min_depth

-- `o.or(other)`
abbrev pub or : Option ℕ → Option ℕ → Option ℕ
or none other = other
or (some h) other = some h

unfoldable pub funding_depth : State → ℕ
unfolding depth_of
funding_depth self = depth_of self self.funding_height

unfoldable pub funding_double_spent_depth : State → ℕ
unfolding depth_of
funding_double_spent_depth self = depth_of self self.funding_double_spent_height

unfoldable pub closing_depth : State → ℕ
unfolding depth_of
closing_depth self = depth_of self (or self.unilateral_closing_height self.mutual_closing_height)

-- `h.map(|h| state.height + 1 - h).unwrap_or(0)`, which wraps in a release build.
abbrev pub since : State → Option ℕ → ℕ
since self none = 0
since self (some h) = u32_sub (u32_add self.height 1) h

unfoldable pub as_chain_state : State → ChainState
as_chain_state self = record {
  current_height = self.height;
  funding_depth = since self self.funding_height;
  funding_double_spent_depth = since self self.funding_double_spent_height;
  closing_depth = since self (or self.mutual_closing_height self.unilateral_closing_height);
  splice_pending = false;
}

unfoldable pub new : ℕ → State
new height = record {
  height = height;
  funding_txids = [];
  funding_vouts = [];
  funding_inputs = [];
  funding_height = none;
  funding_outpoint = none;
  funding_double_spent_height = none;
  mutual_closing_height = none;
  unilateral_closing_height = none;
  closing_outpoints = none;
  closing_swept_height = none;
  our_output_swept_height = none;
  saw_block = false;
  saw_forget_channel = false;
}

-- The funding of a channel with one funding transaction.
unfoldable pub add_funding_outpoint : State → OutPoint → Option State
add_funding_outpoint self outpoint = do
  assert (length self.funding_txids == 0)
  assert (length self.funding_txids == length self.funding_vouts)
  some (record self {
    funding_txids = self.funding_txids ++ outpoint.txid ∷ [];
    funding_vouts = self.funding_vouts ++ outpoint.vout ∷ [];
  })

-- The splice swaps the funding that is tracked.
unfoldable pub replace_funding_outpoint : State → OutPoint → State
replace_funding_outpoint self outpoint = record self {
  funding_txids = outpoint.txid ∷ [];
  funding_vouts = outpoint.vout ∷ [];
  funding_height = none;
  funding_double_spent_height = none;
}

unfoldable pub add_funding_inputs : State → List OutPoint → State
add_funding_inputs self inputs = record self { funding_inputs = self.funding_inputs ++ inputs }

unfoldable pub forget_channel : State → State
forget_channel self = record self { saw_forget_channel = true }

unfoldable pub add_funding : State → OutPoint → List OutPoint → Option State
unfolding add_funding_outpoint add_funding_inputs
add_funding self outpoint inputs = do
  added ← add_funding_outpoint self outpoint
  some (add_funding_inputs added inputs)
