-- ===== src/Monitor/Changes.antt =====
-- How one change moves the monitor's state: `apply_forward_change` and `apply_backward_change` of
-- vls-core/src/monitor.rs. `none` is a panic; messages to the log are left out.
use validating_lightning_sig.Common.{
  ℕ, Bool, true, false, Option, none, some, List, [], ◌∷◌, ◌++◌, map, ◌==◌, if◌then◌else◌,
}
use validating_lightning_sig.Common.Panics.{◌>>=◌, ◌>>◌, assert}
use validating_lightning_sig.Channel.{OutPoint}
use validating_lightning_sig.Monitor.{
  State, StateChange, funding_confirmed, funding_input_spent, unilateral_close_confirmed,
  mutual_close_confirmed, our_output_spent, htlc_output_spent, second_level_htlc_output_spent,
}
use validating_lightning_sig.Monitor.Closing
use validating_lightning_sig.Monitor.Closing.{ClosingOutpoints}

-- The state and the two vectors that the changes push to.
pub record Applied : Type 0 where
  pub state : State
  pub adds : List OutPoint
  pub removes : List OutPoint

-- `h.get_or_insert(height)`
abbrev pub get_or_insert : Option ℕ → ℕ → Option ℕ
get_or_insert none height = some height
get_or_insert (some h) height = some h

abbrev pub is_at : Option ℕ → ℕ → Bool
is_at none height = false
is_at (some h) height = h == height

-- The outpoints of a closing transaction that are watched.
abbrev pub outputs_of : ℕ → Option ℕ → List ℕ → List OutPoint
outputs_of txid none htlcs = map (λ i. record { txid = txid; vout = i }) htlcs
outputs_of txid (some i) htlcs =
    record { txid = txid; vout = i } ∷ map (λ i. record { txid = txid; vout = i }) htlcs

unfoldable pub apply_forward_change : Applied → StateChange → Option Applied
apply_forward_change a (funding_confirmed outpoint) = some (record {
  state = record a.state {
    funding_height = some a.state.height;
    funding_outpoint = some outpoint;
    funding_double_spent_height = none;
  };
  adds = a.adds ++ outpoint ∷ [];
  removes = a.removes;
})
apply_forward_change a (funding_input_spent outpoint) = some (record {
  state = record a.state {
    funding_double_spent_height = get_or_insert a.state.funding_double_spent_height a.state.height;
  };
  adds = a.adds;
  removes = a.removes ++ outpoint ∷ [];
})
apply_forward_change a (unilateral_close_confirmed txid funding_outpoint our_output_index htlcs) =
    some (record {
      state = record a.state {
        unilateral_closing_height = some a.state.height;
        closing_outpoints = some (Closing.new txid our_output_index htlcs);
      };
      adds = a.adds ++ outputs_of txid our_output_index htlcs;
      removes = a.removes ++ funding_outpoint ∷ [];
    })
apply_forward_change a (mutual_close_confirmed txid funding_outpoint) = some (record {
  state = record a.state { mutual_closing_height = some a.state.height };
  adds = a.adds;
  removes = a.removes ++ funding_outpoint ∷ [];
})
apply_forward_change a (our_output_spent vout) = do
  outpoints ← a.state.closing_outpoints
  outpoints' ← Closing.set_our_output_spent outpoints vout true
  some (record {
    state = record a.state { closing_outpoints = some outpoints' };
    adds = a.adds;
    removes = a.removes ++ record { txid = outpoints.txid; vout = vout } ∷ [];
  })
apply_forward_change a (htlc_output_spent vout second_level) = do
  outpoints ← a.state.closing_outpoints
  outpoints' ← Closing.set_htlc_output_spent outpoints vout true
  some (record {
    state = record a.state {
      closing_outpoints = some (Closing.add_second_level_htlc_output outpoints' second_level);
    };
    adds = a.adds ++ second_level ∷ [];
    removes = a.removes ++ record { txid = outpoints.txid; vout = vout } ∷ [];
  })
apply_forward_change a (second_level_htlc_output_spent outpoint) = do
  outpoints ← a.state.closing_outpoints
  outpoints' ← Closing.set_second_level_htlc_spent outpoints outpoint true
  some (record {
    state = record a.state { closing_outpoints = some outpoints' };
    adds = a.adds;
    removes = a.removes ++ outpoint ∷ [];
  })

unfoldable pub apply_backward_change : Applied → StateChange → Option Applied
apply_backward_change a (funding_confirmed outpoint) = do
  assert (is_at a.state.funding_height a.state.height)
  some (record {
    state = record a.state { funding_height = none; funding_outpoint = none };
    adds = a.adds ++ outpoint ∷ [];
    removes = a.removes;
  })
apply_backward_change a (funding_input_spent outpoint) = some (record {
  state = record a.state {
    funding_double_spent_height =
        if is_at a.state.funding_double_spent_height a.state.height
        then none
        else a.state.funding_double_spent_height;
  };
  adds = a.adds;
  removes = a.removes ++ outpoint ∷ [];
})
apply_backward_change a (unilateral_close_confirmed txid funding_outpoint our_output_index htlcs) =
    do
      assert (is_at a.state.unilateral_closing_height a.state.height)
      some (record {
        state = record a.state { unilateral_closing_height = none; closing_outpoints = none };
        adds = a.adds ++ outputs_of txid our_output_index htlcs;
        removes = a.removes ++ funding_outpoint ∷ [];
      })
apply_backward_change a (our_output_spent vout) = do
  outpoints ← a.state.closing_outpoints
  outpoints' ← Closing.set_our_output_spent outpoints vout false
  some (record {
    state = record a.state { closing_outpoints = some outpoints' };
    adds = a.adds;
    removes = a.removes ++ record { txid = outpoints.txid; vout = vout } ∷ [];
  })
apply_backward_change a (htlc_output_spent vout second_level) = do
  outpoints ← a.state.closing_outpoints
  outpoints' ← Closing.set_htlc_output_spent outpoints vout false
  some (record {
    state = record a.state {
      closing_outpoints = some (Closing.remove_second_level_htlc_output outpoints' second_level);
    };
    adds = a.adds ++ record { txid = outpoints.txid; vout = vout } ∷ [];
    removes = a.removes ++ second_level ∷ [];
  })
apply_backward_change a (second_level_htlc_output_spent outpoint) = do
  outpoints ← a.state.closing_outpoints
  outpoints' ← Closing.set_second_level_htlc_spent outpoints outpoint false
  some (record {
    state = record a.state { closing_outpoints = some outpoints' };
    adds = a.adds ++ outpoint ∷ [];
    removes = a.removes;
  })
apply_backward_change a (mutual_close_confirmed txid funding_outpoint) = some (record {
  state = record a.state { mutual_closing_height = none };
  adds = a.adds;
  removes = a.removes ++ funding_outpoint ∷ [];
})

-- `for change in decode_state.changes.drain(..)`
unfoldable pub apply_all :
    (Applied → StateChange → Option Applied) → Applied → List StateChange → Option Applied
apply_all step a [] = some a
apply_all step a (c ∷ cs) = step a c >>= λ a'. apply_all step a' cs
