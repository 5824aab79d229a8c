-- ===== src/Monitor/Undo/Outputs.antt =====
-- Marking an output of a unilateral close as spent, and back: `ClosingOutpoints` of
-- vls-core/src/monitor.rs.
use validating_lightning_sig.Common.{
  ℕ, ◌≡◌, refl, ap, Bool, true, false, Option, none, some, List, [], ◌∷◌, ◌++◌, arith, get_elem?,
  any, if◌then◌else◌,
}
use validating_lightning_sig.Common.Panics.{◌>>=◌, >>=-eq-some, write, write-write}
use validating_lightning_sig.Channel.{OutPoint}
use validating_lightning_sig.Channel.Equality.{outpoint_eq}
use validating_lightning_sig.Monitor.Closing.{
  ClosingOutpoints, SecondLevelHtlcOutput, matches_outpoint, mark_spent, position, without,
  set_our_output_spent, set_htlc_output_spent, set_second_level_htlc_spent,
  add_second_level_htlc_output, remove_second_level_htlc_output, includes_second_level_htlc_output,
}

-- Whether the first entry of the outpoint is marked.
unfoldable pub spent_of : OutPoint → List SecondLevelHtlcOutput → Option Bool
unfolding matches_outpoint
spent_of o [] = none
spent_of o (h ∷ hs) =
    let rest = spent_of o hs in if matches_outpoint o h then some h.spent else rest

mark-mark :
    (o : OutPoint) (hs : List SecondLevelHtlcOutput)
    → spent_of o hs ≡ some false
    → (mark_spent o true hs >>= mark_spent o false) ≡ some hs
unfolding mark_spent matches_outpoint spent_of outpoint_eq
mark-mark o [] h = ground arith
mark-mark o (x ∷ hs) h = ground (arith, mark-mark o hs)

without-append :
    (o : OutPoint) (hs : List SecondLevelHtlcOutput)
    → any (matches_outpoint o) hs ≡ false
    → without o (hs ++ record { outpoint = o; spent = false } ∷ []) ≡ hs
unfolding without matches_outpoint outpoint_eq
without-append o [] h = ground arith
without-append o (x ∷ hs) h = ground (arith, without-append o hs)

pub our_output_undo :
    (c : ClosingOutpoints) (vout : ℕ)
    → c.our_output ≡ some (vout, false)
    → (c' : ClosingOutpoints) × (set_our_output_spent c vout true ≡ some c')
      × (set_our_output_spent c' vout false ≡ some c)
unfolding set_our_output_spent
our_output_undo c vout h = (record c { our_output = some (vout, true) }, ground arith, ground arith)

pub second_level_undo :
    (c : ClosingOutpoints) (o : OutPoint)
    → spent_of o c.second_level_htlc_outputs ≡ some false
    → (c' : ClosingOutpoints) × (set_second_level_htlc_spent c o true ≡ some c')
      × (set_second_level_htlc_spent c' o false ≡ some c)
unfolding set_second_level_htlc_spent
second_level_undo c o h =
    let both = mark-mark o c.second_level_htlc_outputs h in
    let (hs, e, back) = >>=-eq-some (mark_spent o true c.second_level_htlc_outputs) _ both in
    (record c { second_level_htlc_outputs = hs }, rw e refl, rw back refl)

pub htlc_output_undo :
    (c : ClosingOutpoints) (vout : ℕ) (i : ℕ) (o : OutPoint)
    → position vout c.htlc_outputs ≡ some i
    → get_elem? c.htlc_spents i ≡ some false
    → includes_second_level_htlc_output c o ≡ false
    → (c₁ : ClosingOutpoints) × (c₂ : ClosingOutpoints) × (set_htlc_output_spent c vout true
        ≡ some c₁)
      × (set_htlc_output_spent (add_second_level_htlc_output c₁ o) vout false ≡ some c₂)
      × (remove_second_level_htlc_output c₂ o ≡ c)
unfolding set_htlc_output_spent add_second_level_htlc_output remove_second_level_htlc_output
    includes_second_level_htlc_output
htlc_output_undo c vout i o p h fresh =
    let both = write-write c.htlc_spents i false true h in
    let (ys, e, back) = >>=-eq-some (write c.htlc_spents i true) _ both in
    let c₁ = record c { htlc_spents = ys } in
    let c₂ = record (add_second_level_htlc_output c₁ o) { htlc_spents = c.htlc_spents } in
    (
      c₁,
      c₂,
      rw p (rw e refl),
      rw p (rw back refl),
      ap (λ hs. record c { second_level_htlc_outputs = hs })
          (without-append o c.second_level_htlc_outputs fresh),
    )
