-- ===== src/Tracker/Unwatched.antt =====
-- The watches after a sweep of an HTLC was added and removed again: `HTLCOutputSpent` of
-- vls-core/src/monitor.rs, under the listener calls of vls-core/src/chain/tracker.rs.
use validating_lightning_sig.Common.{ℕ, ◌≡◌, ap, ◌∙◌, Bool, true, false, some, [], ◌∷◌, arith}
use validating_lightning_sig.Common.Panics.{>>=-eq-some, write}
use validating_lightning_sig.Channel.{OutPoint}
use validating_lightning_sig.Channel.Equality.{outpoint_eq}
use validating_lightning_sig.Tracker.Watches.{
  ListenSlot, slot_add, slot_remove, extend, subtract, contains,
}
use validating_lightning_sig.Monitor.{State, htlc_output_spent}
use validating_lightning_sig.Monitor.Changes.{Applied, apply_forward_change, apply_backward_change}
use validating_lightning_sig.Monitor.Closing
use validating_lightning_sig.Monitor.Closing.{ClosingOutpoints, position, set_htlc_output_spent}
use validating_lightning_sig.Monitor.Undo.{afresh}

same_txid :
    (c c' : ClosingOutpoints) (vout : ℕ) (b : Bool)
    → set_htlc_output_spent c vout b ≡ some c'
    → c'.txid ≡ c.txid
unfolding set_htlc_output_spent
same_txid c c' vout b h =
    let (i, e₁, e₂) = >>=-eq-some (position vout c.htlc_outputs) _ h in
    let (spents, e₃, e₄) = >>=-eq-some (write c.htlc_spents i b) _ e₂ in ground arith

abbrev output : ClosingOutpoints → ℕ → OutPoint
output c vout = record { txid = c.txid; vout = vout }

forth :
    (s : State) (c : ClosingOutpoints) (vout : ℕ) (second : OutPoint) (f : Applied)
    → s.closing_outpoints ≡ some c
    → apply_forward_change (afresh s) (htlc_output_spent vout second) ≡ some f
    → (c' : ClosingOutpoints) × (f.state.closing_outpoints ≡ some c')
      × (c'.txid ≡ c.txid)
      × (f.adds ≡ second ∷ [])
      × (f.removes ≡ output c vout ∷ [])
unfolding apply_forward_change Closing.add_second_level_htlc_output
forth s c vout second f e h =
    let (d, e₁, e₂) = >>=-eq-some s.closing_outpoints _ h in
    let (d', e₃, e₄) = >>=-eq-some (set_htlc_output_spent d vout true) _ e₂ in
    let same = same_txid d d' vout true e₃ in
    (
      Closing.add_second_level_htlc_output d' second,
      ground arith,
      ground arith,
      ground arith,
      ground arith,
    )

back :
    (t : State) (c : ClosingOutpoints) (vout : ℕ) (second : OutPoint) (b : Applied)
    → t.closing_outpoints ≡ some c
    → apply_backward_change (afresh t) (htlc_output_spent vout second) ≡ some b
    → (b.adds ≡ output c vout ∷ []) × (b.removes ≡ second ∷ [])
unfolding apply_backward_change
back t c vout second b e h =
    let (d, e₁, e₂) = >>=-eq-some t.closing_outpoints _ h in
    let (d', e₃, e₄) = >>=-eq-some (set_htlc_output_spent d vout false) _ e₂ in
    (ground arith, ground arith)

watched_after :
    (slot : ListenSlot) (o second : OutPoint)
    → outpoint_eq second o ≡ false
    → (let after = slot_remove (slot_add slot (second ∷ []) (o ∷ [])) (o ∷ []) (second ∷ []) in
        (after.watches o ≡ false) × (after.watches second ≡ true))
unfolding slot_add slot_remove extend subtract contains outpoint_eq
watched_after slot o second other = (ground arith, ground arith)

-- After the spend of an HTLC output was added and removed again, the slot no longer watches the
-- HTLC output, which is unspent again, and watches the second-level outpoint, which no longer
-- exists, if the two differ.
pub reorged_sweep_unwatched :
    (slot : ListenSlot) (s : State) (c : ClosingOutpoints) (vout : ℕ) (second : OutPoint)
    (f b : Applied)
    → s.closing_outpoints ≡ some c
    → apply_forward_change (afresh s) (htlc_output_spent vout second) ≡ some f
    → apply_backward_change (afresh f.state) (htlc_output_spent vout second) ≡ some b
    → outpoint_eq second (record { txid = c.txid; vout = vout }) ≡ false
    → (let after = slot_remove (slot_add slot f.adds f.removes) b.adds b.removes in
        (after.watches (record { txid = c.txid; vout = vout }) ≡ false)
        × (after.watches second ≡ true))
reorged_sweep_unwatched slot s c vout second f b e forward backward other =
    let (c', e', same, adds, removes) = forth s c vout second f e forward in
    let (adds', removes') = back f.state c' vout second b e' backward in
    let moved = adds' ∙ ap (λ t. record { txid = t; vout = vout } ∷ []) same in
    rw adds (rw removes (rw moved (rw removes' (watched_after slot (output c vout) second other))))
