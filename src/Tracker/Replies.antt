-- ===== src/Tracker/Replies.antt =====
-- What a call that replies says of its steps: vls-core/src/chain/tracker.rs.
use validating_lightning_sig.Common.{
  ℕ, ◌≡◌, refl, inl, inr, true, false, Option, none, some, List, arith, u32_sub, Outcome, ok, err,
  panic, Option-cases,
}
use validating_lightning_sig.Monitor.Transactions.{Transaction}
use validating_lightning_sig.Tracker.{
  Error, Header, Headers, TxoProof, ProofType, filter, block, external_block, ChainListener, Chain,
  ChainTracker, validate_block,
}
use validating_lightning_sig.Tracker.Watches.{ListenSlot}
use validating_lightning_sig.Tracker.Blocks.{
  Reply, panicked, refused, replied, add_block, remove_block, pop_header,
  maybe_finish_decoding_block, external_hash, then_with, checked, notified, notify_add,
  notify_remove, push_tip, pop_tip,
}

module _ {L : Type 0} where
  then_with-replied :
      {A B : Type 0} (m : Reply L A) (rest : A → ChainTracker L → Reply L B) {b : B}
      {u : ChainTracker L}
      → then_with m rest ≡ replied b u
      → (a : A) × (t : ChainTracker L) × (m ≡ replied a t) × (rest a t ≡ replied b u)
  then_with-replied panicked rest h = absurd (ground arith)
  then_with-replied (refused e t) rest h = absurd (ground arith)
  then_with-replied (replied a t) rest h = (a, t, refl, h)

  checked-replied :
      {A : Type 0} (o : Outcome Error (Unit {0})) (self : ChainTracker L) (rest : Reply L A) {a : A}
      {u : ChainTracker L}
      → checked o self rest ≡ replied a u
      → rest ≡ replied a u
  checked-replied panic self rest h = absurd (ground arith)
  checked-replied (err e) self rest h = absurd (ground arith)
  checked-replied (ok x) self rest h = h

  opened :
      {A : Type 0} (o : Option (List (L × ListenSlot))) (rest : List (L × ListenSlot) → Reply L A)
      {a : A} {u : ChainTracker L}
      → (elim o [ none ↦ panicked | some ls ↦ rest ls ]) ≡ replied a u
      → (ls : List (L × ListenSlot)) × (rest ls ≡ replied a u)
  opened none rest h = absurd (ground arith)
  opened (some ls) rest h = (ls, h)

  notified-replied :
      {A : Type 0} (notify : Option (List Transaction) → Option (List (L × ListenSlot)))
      (p : ProofType) (self : ChainTracker L) (rest : List (L × ListenSlot) → Reply L A) {a : A}
      {u : ChainTracker L}
      → notified notify p self rest ≡ replied a u
      → (ls : List (L × ListenSlot)) × (rest ls ≡ replied a u)
  notified-replied notify (filter txs) self rest h = opened (notify (some txs)) rest h
  notified-replied notify block self rest h = absurd (ground arith)
  notified-replied notify external_block self rest h = opened (notify none) rest h

  -- The two trackers differ in the state of the decoder only.
  abbrev pub Decoded : ChainTracker L → ChainTracker L → Type 0
  Decoded s t = t ≡ record s { decode_state = t.decode_state }

  finish-replied :
      (self : ChainTracker L) (proof : TxoProof) (hash : ℕ) {u : Unit {0}} {t : ChainTracker L}
      → maybe_finish_decoding_block self proof hash ≡ replied u t
      → Decoded self t
  unfolding maybe_finish_decoding_block
  finish-replied self proof hash h = elim (Option-cases self.decode_state) [
    | inl e ↦ ground arith
    | inr (d, e) ↦ ground arith
  ]

  pub add_block-replied :
      (c : Chain) (i : ChainListener L) (self t : ChainTracker L) (header : Header)
      (proof : TxoProof)
      → add_block c i self header proof ≡ replied tt t
      → (s : ChainTracker L) × (ls : List (L × ListenSlot)) × Decoded self s
        × (t ≡ push_tip (record { header = header; filter_header = proof.filter_header }) s ls)
  unfolding add_block
  add_block-replied c i self t header proof h =
      let (u, s, e₁, e₂) =
        then_with-replied (maybe_finish_decoding_block self proof header.block_hash) _ h in
      let headers : Headers = record { header = header; filter_header = proof.filter_header } in
      let notify =
        λ (txs : Option (List Transaction)). notify_add i txs header.block_hash s.listeners in
      let last = λ (ls : List (L × ListenSlot)). replied tt (push_tip headers s ls) in
      let e₃ =
        checked-replied
          (validate_block c s s.height (external_hash proof header.block_hash) s.tip headers proof
            false)
          s (notified notify proof.proof s last) e₂ in
      let (ls, e₄) = notified-replied notify proof.proof s last e₃ in
      (s, ls, finish-replied self proof header.block_hash e₁, ground arith)

  pub remove_block-replied :
      (c : Chain) (i : ChainListener L) (self t : ChainTracker L) (proof : TxoProof)
      (prev_headers : Headers) (header : Header)
      → remove_block c i self proof prev_headers ≡ replied header t
      → (r : ChainTracker L) × (s : ChainTracker L) × (ls : List (L × ListenSlot)) × (pop_header
            self prev_headers
          ≡ replied tt r)
        × Decoded r s
        × (header ≡ s.tip.header)
        × (t ≡ pop_tip prev_headers s ls)
  unfolding remove_block
  remove_block-replied c i self t proof prev_headers header h =
      let (u, r, e₁, e₂) = then_with-replied (pop_header self prev_headers) _ h in
      let (v, s, e₃, e₄) =
        then_with-replied (maybe_finish_decoding_block r proof prev_headers.header.block_hash) _
          e₂ in
      let hash = prev_headers.header.block_hash in
      let notify = λ (txs : Option (List Transaction)). notify_remove i txs hash s.listeners in
      let last = λ (ls : List (L × ListenSlot)). replied s.tip.header (pop_tip prev_headers s ls) in
      let e₅ =
        checked-replied
          (validate_block c s (u32_sub s.height 1) (external_hash proof hash) prev_headers s.tip
            proof true)
          s (notified notify proof.proof s last) e₄ in
      let (ls, e₆) = notified-replied notify proof.proof s last e₅ in
      (
        r,
        s,
        ls,
        e₁,
        finish-replied r proof prev_headers.header.block_hash e₃,
        ground arith,
        ground arith,
      )
