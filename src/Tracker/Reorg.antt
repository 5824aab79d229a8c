-- ===== src/Tracker/Reorg.antt =====
-- What a refused or a removed block leaves of the tracker, and of the watched outpoints:
-- vls-core/src/chain/tracker.rs with vls-core/src/monitor.rs.
use validating_lightning_sig.Common.{
  ℕ, zero, suc, inl, inr, Bool-cases, ◌+◌, ◌≤◌, ◌<◌, ◌≡◌, refl, ap, ◌∙◌, true, false, none, List,
  [], ◌∷◌, arith, take, length, u32_mod, u32_add, u32_sub, err,
}
use validating_lightning_sig.Tracker.{
  Error, Header, Headers, TxoProof, is_external, ChainListener, Chain, ChainTracker, validate_block,
  max_reorg_size,
}
use validating_lightning_sig.Tracker.Blocks.{
  refused, replied, add_block, remove_block, pop_header, maybe_finish_decoding_block, external_hash,
  same_headers, push_tip, pop_tip,
}
use validating_lightning_sig.Tracker.Replies.{add_block-replied, remove_block-replied}

take_all : {A : Type 0} (n : ℕ) (xs : List A) → length xs ≤ n → take n xs ≡ xs
take_all zero [] h = refl
take_all zero (x ∷ xs) h = absurd (ground arith)
take_all (suc n) [] h = refl
take_all (suc n) (x ∷ xs) h = ap (λ ys. x ∷ ys) (take_all n xs (omega arith))

not_streamed :
    (proof : TxoProof) (hash : ℕ)
    → is_external proof.proof ≡ false
    → external_hash proof hash ≡ none
unfolding external_hash
not_streamed proof hash inside = ground arith

up_down : (h : ℕ) → h + 1 < u32_mod → u32_sub (u32_add h 1) 1 ≡ h
up_down h low = omega arith

module _ {L : Type 0} where
  idle_finish :
      (t : ChainTracker L) (proof : TxoProof) (hash : ℕ)
      → t.decode_state ≡ none
      → is_external proof.proof ≡ false
      → maybe_finish_decoding_block t proof hash ≡ replied tt t
  unfolding maybe_finish_decoding_block
  idle_finish t proof hash idle inside = ground arith

  pop_same :
      (t : ChainTracker L) (prev_headers h : Headers) (hs : List Headers)
      → t.headers ≡ h ∷ hs
      → same_headers prev_headers h ≡ true
      → pop_header t prev_headers ≡ replied tt (record t { headers = hs })
  unfolding pop_header
  pop_same t prev_headers h hs held same = ground arith

  pop_other :
      (t : ChainTracker L) (prev_headers h : Headers) (hs : List Headers)
      → t.headers ≡ h ∷ hs
      → same_headers prev_headers h ≡ false
      → pop_header t prev_headers ≡ refused Error.invalid_chain t
  unfolding pop_header
  pop_other t prev_headers h hs held same = ground arith

  -- A removal with the right previous headers whose block is then found invalid is refused, but
  -- the stored header is gone: the same removal with any other proof is refused as an invalid
  -- chain, if no block is streamed in and the next stored header differs.
  pub refused_removal_loses_header :
      (c : Chain) (i : ChainListener L) (self : ChainTracker L) (bad good : TxoProof)
      (prev_headers h h' : Headers) (hs : List Headers) (e : Error)
      → self.headers ≡ h ∷ h' ∷ hs
      → same_headers prev_headers h ≡ true
      → same_headers prev_headers h' ≡ false
      → self.decode_state ≡ none
      → is_external bad.proof ≡ false
      → (let popped = record self { headers = h' ∷ hs } in
          validate_block c popped (u32_sub self.height 1) none prev_headers self.tip bad true
          ≡ err e)
      → (let popped = record self { headers = h' ∷ hs } in
          (remove_block c i self bad prev_headers ≡ refused e popped)
          × (remove_block c i popped good prev_headers ≡ refused Error.invalid_chain popped))
  unfolding remove_block
  refused_removal_loses_header c i self bad good prev_headers h h' hs e held same other idle inside
        no_good =
      let popped = record self { headers = h' ∷ hs } in
      let hash = prev_headers.header.block_hash in
      (
        rw (pop_same self prev_headers h (h' ∷ hs) held same) (
            rw (idle_finish popped bad hash idle inside)
              (rw (not_streamed bad hash inside) (rw no_good refl))),
        rw (pop_other popped prev_headers h' hs refl other) refl,
      )

  popped :
      (t r : ChainTracker L) (prev_headers h : Headers) (hs : List Headers)
      → t.headers ≡ h ∷ hs
      → pop_header t prev_headers ≡ replied tt r
      → r ≡ record t { headers = hs }
  unfolding pop_header
  popped t r prev_headers h hs held e = elim (Bool-cases (same_headers prev_headers h)) [
    | inl same ↦ ground arith
    | inr other ↦ absurd (ground arith)
  ]

  -- Where a block was added and then removed, with the tip from before as the previous headers,
  -- the header that comes back is the one added, and stored headers, tip and height are as
  -- before, if fewer headers than the limit were stored and the height does not overflow.
  pub remove_block-add_block :
      (c : Chain) (i : ChainListener L) (self t u : ChainTracker L) (header removed : Header)
      (proof proof' : TxoProof)
      → self.height + 1 < u32_mod
      → length self.headers < max_reorg_size
      → add_block c i self header proof ≡ replied tt t
      → remove_block c i t proof' self.tip ≡ replied removed u
      → (removed ≡ header)
        × (u.headers ≡ self.headers)
        × (u.tip ≡ self.tip)
        × (u.height ≡ self.height)
  unfolding push_tip pop_tip
  remove_block-add_block c i self t u header removed proof proof' low few e₁ e₂ =
      let (s, ls, d, shape) = add_block-replied c i self t header proof e₁ in
      let (r, s', ls', pop, d', was, shape') =
        remove_block-replied c i t u proof' self.tip removed e₂ in
      let p = popped t r self.tip s.tip (take 99 s.headers) (ap (λ x. x.headers) shape) pop in
      (
        was ∙ ap (λ x. x.tip.header) d' ∙ ap (λ x. x.tip.header) p ∙ ap (λ x. x.tip.header) shape,
        ap (λ x. x.headers) shape'
            ∙ ap (λ x. x.headers) d'
            ∙ ap (λ x. x.headers) p
            ∙ ap (λ x. take 99 x.headers) d
            ∙ take_all 99 self.headers (omega arith),
        ap (λ x. x.tip) shape',
        ap (λ x. x.height) shape'
            ∙ ap (λ x. u32_sub x.height 1) d'
            ∙ ap (λ x. u32_sub x.height 1) p
            ∙ ap (λ x. u32_sub x.height 1) shape
            ∙ ap (λ x. u32_sub (u32_add x.height 1) 1) d
            ∙ up_down self.height low,
      )
