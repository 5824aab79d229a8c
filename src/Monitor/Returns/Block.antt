-- ===== src/Monitor/Returns/Block.antt =====
-- A whole block: `push_transactions` and `on_add_block` of vls-core/src/monitor.rs.
use mathlib.Core.Path.{subst}
use mathlib.Core.Option.{some-injective}
use validating_lightning_sig.Common.{
  ℕ, ◌≡◌, refl, sym, ◌∙◌, true, false, Option, some, List, [], ◌∷◌, arith, u32_add,
}
use validating_lightning_sig.Common.Panics.{◌>>=◌, >>=-eq-some, Keeps, Keeps-bind}
use validating_lightning_sig.Monitor.{State}
use validating_lightning_sig.Monitor.Closing.{ClosingOutpoints}
use validating_lightning_sig.Monitor.Transactions.{Provider, Transaction}
use validating_lightning_sig.Monitor.Changes.{Applied, apply_forward_change, apply_all}
use validating_lightning_sig.Monitor.Blocks.{on_add_block_end, note_swept}
use validating_lightning_sig.Monitor.Decode
use validating_lightning_sig.Monitor.Decode.{
  BlockDecodeState, Listener, if_ready, is_some, is_not_ready_for_push, start_transaction,
  read_input, read_output, on_transaction_start, on_transaction_input, on_transaction_output,
}
use validating_lightning_sig.Monitor.Decode.Finish.{
  on_transaction_end, each, push_transaction, push_transactions, on_add_block, is_decoded,
}
use validating_lightning_sig.Monitor.Returns.{Tracks, ReturnsWith, returns, outputs}
use validating_lightning_sig.Monitor.Returns.Handlers.{
  start-Tracks, read_input-Tracks, read_output-Tracks, finish-Tracks,
}

module _ (co : Option ClosingOutpoints) (hash : ℕ) where
  record Ready (l : Listener) : Type 0 where
    pub saw : l.saw_block ≡ true
    pub tracks : Tracks co hash l.decode_state

  is_listening : (l : Listener) → Ready l → is_not_ready_for_push l ≡ some false
  unfolding is_not_ready_for_push
  is_listening l r = ground (arith, r.saw, r.tracks.hashed)

  if_ready-Ready :
      (body : BlockDecodeState → Option BlockDecodeState)
      → Keeps (Tracks co hash) body
      → Keeps Ready (λ l. if_ready l body)
  if_ready-Ready body keep l l' h r =
      let (skip, e₁, e₂) = >>=-eq-some (is_not_ready_for_push l) _ h in
      let runs = some-injective skip false (sym e₁ ∙ is_listening l r) in
      let (ds, e₃, e₄) = >>=-eq-some (body l.decode_state) _ (rw runs at e₂) in
      subst Ready (some-injective (record l { decode_state = ds }) l' e₄)
        (record { saw = r.saw; tracks = keep l.decode_state ds e₃ r.tracks })

  each-Ready :
      {A : Type 0} (f : Listener → A → Option Listener)
      → ((x : A) → Keeps Ready (λ l. f l x))
      → (xs : List A) → Keeps Ready (λ l. each f l xs)
  unfolding each
  each-Ready f keep [] l l' h r = subst Ready (some-injective l l' h) r
  each-Ready f keep (x ∷ xs) l l' h r =
      let (m, e₁, e₂) = >>=-eq-some (f l x) _ h in each-Ready f keep xs m l' e₂ (keep x l m e₁ r)

  push-Ready : (p : Provider) (tx : Transaction) → Keeps Ready (λ l. push_transaction p l tx)
  unfolding push_transaction on_transaction_start on_transaction_input on_transaction_output
      on_transaction_end
  push-Ready p tx = Keeps-bind (if_ready-Ready _ (start-Tracks co hash tx.version)) (
      Keeps-bind (each-Ready _ (λ i. if_ready-Ready _ (read_input-Tracks co hash i)) tx.input) (
        Keeps-bind (each-Ready _ (λ o. if_ready-Ready _ (read_output-Tracks co hash o)) tx.output)
          (if_ready-Ready _ (finish-Tracks co hash p tx.lock_time tx.txid))))

  each_push-Ready :
      (p : Provider) (txs : List Transaction) → Keeps Ready (λ l. each (push_transaction p) l txs)
  each_push-Ready p txs = each-Ready (push_transaction p) (push-Ready p) txs

end_returns :
    (s : State) (co co' : Option ClosingOutpoints) (r : Option Applied) (g : Applied → Applied)
    → ((a : Applied) → outputs (g a) ≡ outputs a)
    → ReturnsWith co' r
    → (added : Applied) × ((r >>= λ a. some (g a)) ≡ some added) × (outputs added ≡ co')
end_returns s co co' r g same (returns a e) = (g a, refl, same a ∙ e)

decoded : (hash : ℕ) (ds : BlockDecodeState) → ds.block_hash ≡ some hash → is_decoded hash ds ≡ true
decoded hash ds e = ground arith

block_end :
    (s : State) (co : Option ClosingOutpoints) (hash : ℕ) (ds : BlockDecodeState)
    → s.closing_outpoints ≡ co
    → Tracks co hash ds
    → (added : Applied) × (on_add_block_end s (is_decoded hash ds) ds.changes ≡ some added)
      × (outputs added ≡ ds.state.closing_outpoints)
unfolding on_add_block_end
block_end s co hash ds e t =
    let grown = record s { saw_block = true; height = u32_add s.height 1 } in
    let start : Applied = record { state = grown; adds = []; removes = [] } in
    rw (decoded hash ds t.hashed) (
      end_returns s co ds.state.closing_outpoints (apply_all apply_forward_change start ds.changes)
        (λ a. record a { state = note_swept grown a.state }) (unfold note_swept in λ a. refl)
        (t.follows start e))

pushed :
    (p : Provider) (s : State) (txs : List Transaction) (hash : ℕ) (out : State × BlockDecodeState)
    → push_transactions p s hash txs ≡ some out
    → (out.0.closing_outpoints ≡ s.closing_outpoints) × Tracks s.closing_outpoints hash out.1
unfolding push_transactions Decode.new apply_all
pushed p s txs hash out h =
    let start : Listener = record {
      decode_state = Decode.new (record s { saw_block = true }) (some hash);
      saw_block = true;
    } in
    let (l, e₁, e₂) = >>=-eq-some (each (push_transaction p) start txs) _ h in
    let first : Ready s.closing_outpoints hash start = record {
      saw = refl;
      tracks = record { follows = λ a e. returns a e; hashed = refl };
    } in
    let last = each_push-Ready s.closing_outpoints hash p txs start l e₁ first in
    subst
      (λ (o : State × BlockDecodeState).
        (o.0.closing_outpoints ≡ s.closing_outpoints) × Tracks s.closing_outpoints hash o.1)
      (some-injective (record s { saw_block = true }, l.decode_state) out e₂) (refl, last.tracks)

-- Where the transactions of a block can be decoded at all, adding the block does not panic: every
-- change that the decoder tried on its copy also applies to the state, one block higher, and
-- leaves the outputs of a close as the decoder saw them.
pub on_add_block_returns :
    (p : Provider) (s : State) (txs : List Transaction) (hash : ℕ) (seen : State)
    (ds : BlockDecodeState)
    → push_transactions p s hash txs ≡ some (seen, ds)
    → (added : Applied) × (on_add_block p s txs hash ≡ some added)
      × (added.state.closing_outpoints ≡ ds.state.closing_outpoints)
unfolding on_add_block
on_add_block_returns p s txs hash seen ds h =
    let (same, t) = pushed p s txs hash (seen, ds) h in
    rw h (block_end seen s.closing_outpoints hash ds same t)
