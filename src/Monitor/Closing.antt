-- ===== src/Monitor/Closing.antt =====
-- `ClosingOutpoints` of vls-core/src/monitor.rs: the outputs of a unilateral close and which of them
-- are spent. A call that panics in the code is `none`.
use validating_lightning_sig.Common.{
  ℕ, suc, Bool, true, false, ◌&&◌, Option, none, some, List, [], ◌∷◌, ◌++◌, ◌==◌, if◌then◌else◌,
  length, replicate, all, any,
}
use validating_lightning_sig.Common.Panics.{◌>>=◌, ◌>>◌, assert, write}
use validating_lightning_sig.Channel.{OutPoint}
use validating_lightning_sig.Channel.Equality.{outpoint_eq}

pub record SecondLevelHtlcOutput : Type 0 where
  pub outpoint : OutPoint
  pub spent : Bool

unfoldable pub matches_outpoint : OutPoint → SecondLevelHtlcOutput → Bool
unfolding outpoint_eq
matches_outpoint o self = outpoint_eq self.outpoint o

pub record ClosingOutpoints : Type 0 where
  pub txid : ℕ
  pub our_output : Option (ℕ × Bool)
  pub htlc_outputs : List ℕ
  pub htlc_spents : List Bool
  pub second_level_htlc_outputs : List SecondLevelHtlcOutput

unfoldable pub new : ℕ → Option ℕ → List ℕ → ClosingOutpoints
new txid our_output_index htlc_output_indexes = record {
  txid = txid;
  our_output = elim our_output_index [ none ↦ none | some i ↦ some (i, false) ];
  htlc_outputs = htlc_output_indexes;
  htlc_spents = replicate (length htlc_output_indexes) false;
  second_level_htlc_outputs = [];
}

unfoldable pub is_output : ℕ → Option (ℕ × Bool) → Bool
is_output vout none = false
is_output vout (some (i, spent)) = i == vout

unfoldable pub includes_our_output : ClosingOutpoints → OutPoint → Bool
unfolding is_output
includes_our_output self o = self.txid == o.txid && is_output o.vout self.our_output

unfoldable pub includes_htlc_output : ClosingOutpoints → OutPoint → Bool
includes_htlc_output self o = self.txid == o.txid && any (λ i. i == o.vout) self.htlc_outputs

unfoldable pub set_our_output_spent : ClosingOutpoints → ℕ → Bool → Option ClosingOutpoints
set_our_output_spent self vout spent = do
  p ← self.our_output
  assert (p.0 == vout)
  some (record self { our_output = some (p.0, spent) })

-- `iter().position(|&x| x == vout)`
unfoldable pub position : ℕ → List ℕ → Option ℕ
position vout [] = none
position vout (x ∷ xs) =
    let rest = position vout xs in if x == vout then some 0 else (rest >>= λ i. some (suc i))

unfoldable pub set_htlc_output_spent : ClosingOutpoints → ℕ → Bool → Option ClosingOutpoints
unfolding position write
set_htlc_output_spent self vout spent = do
  i ← position vout self.htlc_outputs
  spents ← write self.htlc_spents i spent
  some (record self { htlc_spents = spents })

unfoldable pub our_output_is_spent : Option (ℕ × Bool) → Bool
our_output_is_spent none = true
our_output_is_spent (some (i, spent)) = spent

unfoldable pub is_all_spent : ClosingOutpoints → Bool
unfolding our_output_is_spent
is_all_spent self =
    our_output_is_spent self.our_output
    && all (λ b. b) self.htlc_spents
    && all (λ h. h.spent) self.second_level_htlc_outputs

unfoldable pub add_second_level_htlc_output : ClosingOutpoints → OutPoint → ClosingOutpoints
add_second_level_htlc_output self o = record self {
  second_level_htlc_outputs =
      self.second_level_htlc_outputs ++ record { outpoint = o; spent = false } ∷ [];
}

unfoldable pub includes_second_level_htlc_output : ClosingOutpoints → OutPoint → Bool
unfolding matches_outpoint
includes_second_level_htlc_output self o = any (matches_outpoint o) self.second_level_htlc_outputs

-- The first entry that matches is marked.
unfoldable pub mark_spent :
    OutPoint → Bool → List SecondLevelHtlcOutput → Option (List SecondLevelHtlcOutput)
unfolding matches_outpoint
mark_spent o spent [] = none
mark_spent o spent (h ∷ hs) =
    let rest = mark_spent o spent hs in
    if matches_outpoint o h
    then some (record h { spent = spent } ∷ hs)
    else (rest >>= λ marked. some (h ∷ marked))

unfoldable pub set_second_level_htlc_spent :
    ClosingOutpoints → OutPoint → Bool → Option ClosingOutpoints
unfolding mark_spent
set_second_level_htlc_spent self o spent = do
  marked ← mark_spent o spent self.second_level_htlc_outputs
  some (record self { second_level_htlc_outputs = marked })

-- `retain(|h| !h.matches_outpoint(outpoint))`
unfoldable pub without : OutPoint → List SecondLevelHtlcOutput → List SecondLevelHtlcOutput
unfolding matches_outpoint
without o [] = []
without o (h ∷ hs) = let rest = without o hs in if matches_outpoint o h then rest else h ∷ rest

unfoldable pub remove_second_level_htlc_output : ClosingOutpoints → OutPoint → ClosingOutpoints
unfolding without
remove_second_level_htlc_output self o = record self {
  second_level_htlc_outputs = without o self.second_level_htlc_outputs;
}
