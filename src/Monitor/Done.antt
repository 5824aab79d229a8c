-- ===== src/Monitor/Done.antt =====
-- When a channel can be forgotten, and how the two ways to read a depth agree: `is_done`, `depth_of`
-- and `as_chain_state` of vls-core/src/monitor.rs.
use validating_lightning_sig.Common.{
  ℕ, zero, suc, ◌+◌, ◌≤◌, ◌<◌, ◌≡◌, refl, ap, ◌∙◌, ◌↔◌, ◌⊎◌, inl, inr, true, Option, none, some, [],
  arith, u32_mod, Bool-cases,
}
use validating_lightning_sig.Common.Panics.{◌>>=◌}
use validating_lightning_sig.Monitor.{State, min_depth}
use validating_lightning_sig.Monitor.Changes.{apply_all}
use validating_lightning_sig.Monitor.Blocks.{on_add_block_end, note_swept}
use validating_lightning_sig.Monitor.Depth.{
  depth_of, since, or, deep_enough_and_saw_node_forget, is_done, as_chain_state, funding_depth,
  funding_double_spent_depth, closing_depth,
}

-- The event has `min_depth` confirmations: its own block is the first.
abbrev pub Buried : State → Option ℕ → Type 0
Buried s o = (h : ℕ) × (o ≡ some h) × (h + min_depth ≤ s.height + 1)

deep_iff :
    (s : State) (o : Option ℕ)
    → s.height + 1 < u32_mod
    → (deep_enough_and_saw_node_forget s o min_depth ≡ true)
      ↔ (s.saw_forget_channel ≡ true) × Buried s o
unfolding deep_enough_and_saw_node_forget depth_of
deep_iff s none low = ((λ e. absurd (ground arith)), λ (f, (h, e, b)). absurd (ground arith))
deep_iff s (some h) low =
    ((λ e. (ground arith, (h, refl, ground arith))), λ (f, (k, e, b)). ground arith)

abbrev Ended : State → Type 0
Ended s =
    Buried s s.funding_double_spent_height
    ⊎ Buried s s.mutual_closing_height
    ⊎ Buried s s.closing_swept_height

ended :
    (s : State)
    → s.height + 1 < u32_mod
    → is_done s ≡ true
    → (s.saw_forget_channel ≡ true) × Ended s
unfolding is_done
ended s low e =
    elim (Bool-cases (deep_enough_and_saw_node_forget s s.funding_double_spent_height min_depth)) [
      | inl t ↦ let (f, b) = (deep_iff s s.funding_double_spent_height low).0 t in (f, inl b)
      | inr t ↦
          elim (Bool-cases (deep_enough_and_saw_node_forget s s.mutual_closing_height min_depth)) [
            | inl u ↦ let (f, b) = (deep_iff s s.mutual_closing_height low).0 u in (f, inr (inl b))
            | inr u ↦
                let (f, b) = (deep_iff s s.closing_swept_height low).0 (ground arith) in
                (f, inr (inr b))
          ]
    ]

done :
    (s : State) → s.height + 1 < u32_mod → s.saw_forget_channel ≡ true → Ended s → is_done s ≡ true
unfolding is_done
done s low f (inl b) = ground (arith, (deep_iff s s.funding_double_spent_height low).1 (f, b))
done s low f (inr (inl b)) = ground (arith, (deep_iff s s.mutual_closing_height low).1 (f, b))
done s low f (inr (inr b)) = ground (arith, (deep_iff s s.closing_swept_height low).1 (f, b))

-- Below the last height, is_done answers yes exactly where the node has forgotten the channel and
-- a double spend of the funding, a mutual close or the sweep of a unilateral close has at least
-- 100 confirmations.
pub is_done_iff :
    (s : State)
    → s.height + 1 < u32_mod
    → (is_done s ≡ true)
      ↔ (s.saw_forget_channel ≡ true)
        × (Buried s s.funding_double_spent_height
            ⊎ Buried s s.mutual_closing_height
            ⊎ Buried s s.closing_swept_height)
is_done_iff s low = (ended s low, λ (f, event). done s low f event)

-- `n` blocks without a change.
unfoldable pub add_empty : ℕ → State → Option State
add_empty zero s = some s
add_empty (suc n) s = on_add_block_end s true [] >>= λ a. add_empty n a.state

empty_block :
    (s : State)
    → s.saw_block ≡ true
    → s.height + 1 < u32_mod
    → on_add_block_end s true []
      ≡ some (record { state = record s { height = s.height + 1 }; adds = []; removes = [] })
unfolding on_add_block_end apply_all note_swept
empty_block s saw low = ground arith

empty_blocks :
    (n : ℕ) (s : State)
    → s.saw_block ≡ true
    → s.height + n < u32_mod
    → add_empty n s ≡ some (record s { height = s.height + n })
unfolding add_empty
empty_blocks zero s saw low = ap (λ k. some (record s { height = k })) (omega arith)
empty_blocks (suc n) s saw low = rw (empty_block s saw (omega arith)) (
    empty_blocks n (record s { height = s.height + 1 }) saw (omega arith)
    ∙ ap (λ k. some (record s { height = k })) (omega arith))

-- A mutually closed channel that the node has forgotten is done in the end: after as many blocks
-- without a change as give the close 100 confirmations, or more, is_done answers yes, if a block
-- was seen before and the height does not overflow.
pub done_once_buried :
    (s : State) (h n : ℕ)
    → s.saw_block ≡ true
    → s.saw_forget_channel ≡ true
    → s.mutual_closing_height ≡ some h
    → h + 99 ≤ s.height + n
    → s.height + n + 1 < u32_mod
    → (t : State) × (add_empty n s ≡ some t) × (is_done t ≡ true)
done_once_buried s h n saw forget close deep low =
    let t = record s { height = s.height + n } in
    (
      t,
      empty_blocks n s saw (omega arith),
      (is_done_iff t low).1 (forget, inr (inl (h, close, omega arith))),
    )

-- No event lies in the future.
pub record Past (s : State) : Type 0 where
  pub low : s.height + 1 < u32_mod
  pub funding : (h : ℕ) → s.funding_height ≡ some h → h ≤ s.height
  pub double_spent : (h : ℕ) → s.funding_double_spent_height ≡ some h → h ≤ s.height
  pub mutual_close : (h : ℕ) → s.mutual_closing_height ≡ some h → h ≤ s.height
  pub unilateral_close : (h : ℕ) → s.unilateral_closing_height ≡ some h → h ≤ s.height

since_depth :
    (s : State) (o : Option ℕ)
    → s.height + 1 < u32_mod
    → ((h : ℕ) → o ≡ some h → h ≤ s.height)
    → since s o ≡ depth_of s o
unfolding depth_of
since_depth s none low past = omega arith
since_depth s (some h) low past = let b = past h refl in omega arith

either_order : (x y : Option ℕ) → (x ≡ none) ⊎ (y ≡ none) → or x y ≡ or y x
either_order none none one = refl
either_order none (some k) one = refl
either_order (some h) none one = refl
either_order (some h) (some k) one = absurd (ground arith)

either_past :
    (x y : Option ℕ) (n : ℕ)
    → ((h : ℕ) → x ≡ some h → h ≤ n)
    → ((h : ℕ) → y ≡ some h → h ≤ n)
    → (h : ℕ) → or x y ≡ some h
    → h ≤ n
either_past none y n p q h e = q h e
either_past (some k) y n p q h e = p h e

pub as_chain_state-depths :
    (s : State)
    → Past s
    → (s.mutual_closing_height ≡ none) ⊎ (s.unilateral_closing_height ≡ none)
    → ((as_chain_state s).funding_depth ≡ funding_depth s)
      × ((as_chain_state s).funding_double_spent_depth ≡ funding_double_spent_depth s)
      × ((as_chain_state s).closing_depth ≡ closing_depth s)
unfolding as_chain_state funding_depth funding_double_spent_depth closing_depth depth_of
as_chain_state-depths s p one = (
  since_depth s s.funding_height p.low p.funding,
  since_depth s s.funding_double_spent_height p.low p.double_spent,
  since_depth s (or s.mutual_closing_height s.unilateral_closing_height) p.low
        (either_past _ _ s.height p.mutual_close p.unilateral_close)
      ∙ ap (depth_of s) (either_order s.mutual_closing_height s.unilateral_closing_height one),
)
