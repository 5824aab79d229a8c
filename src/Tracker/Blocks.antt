-- ===== src/Tracker/Blocks.antt =====
-- Adding a block and removing the tip: `add_block`, `remove_block` and the calls of the listeners of
-- vls-core/src/chain/tracker.rs. A call that returns an error leaves the tracker as it is at that point,
-- so the tracker is part of every reply.
use validating_lightning_sig.Common.{
  ℕ, ◌-◌, Bool, true, false, not, ◌&&◌, ◌||◌, Option, none, some, List, [], ◌∷◌, ◌==◌, ◌!=◌,
  if◌then◌else◌, take, u32_add, u32_sub, Outcome, ok, err, panic,
}
use validating_lightning_sig.Monitor.Transactions.{Transaction}
use validating_lightning_sig.Tracker.{
  Error, Header, Headers, TxoProof, ProofType, filter, block, external_block, is_external,
  ChainListener, Chain, ChainTracker, invalid_chain, reorg_too_deep, invalid_proof,
  block_decode_error, max_reorg_size, validate_block,
}
use validating_lightning_sig.Tracker.Watches.{ListenSlot, slot_add, slot_remove}

pub data Reply (L A : Type 0) : Type 0 where
  panicked : Reply L A
  refused : Error → ChainTracker L → Reply L A
  replied : A → ChainTracker L → Reply L A

unfoldable pub external_hash : TxoProof → ℕ → Option ℕ
unfolding is_external
external_hash proof hash = if is_external proof.proof then some hash else none

abbrev same_header : Header → Header → Bool
same_header a b =
    a.block_hash == b.block_hash
    && a.prev_blockhash == b.prev_blockhash
    && a.bits == b.bits
    && a.target == b.target
    && a.time == b.time

abbrev pub same_headers : Headers → Headers → Bool
same_headers a b = same_header a.header b.header && a.filter_header == b.filter_header

module _ {L : Type 0} where
  -- `?` on a check that does not touch the tracker.
  abbrev pub checked :
      {A : Type 0} → Outcome Error (Unit {0}) → ChainTracker L → Reply L A → Reply L A
  checked panic self rest = panicked
  checked (err e) self rest = refused e self
  checked (ok u) self rest = rest

  unfoldable pub notify_add :
      ChainListener L
      → Option (List Transaction)
      → ℕ
      → List (L × ListenSlot)
      → Option (List (L × ListenSlot))
  unfolding slot_add
  notify_add i txs hash [] = some []
  notify_add i txs hash ((l, slot) ∷ slots) =
      let rest = notify_add i txs hash slots in
      elim (i.on_add l txs hash) [
        | none ↦ none
        | some (l', adds, removes) ↦ elim rest [
          | none ↦ none
          | some slots' ↦ some ((l', slot_add slot adds removes) ∷ slots')
        ]
      ]

  unfoldable pub notify_remove :
      ChainListener L
      → Option (List Transaction)
      → ℕ
      → List (L × ListenSlot)
      → Option (List (L × ListenSlot))
  unfolding slot_remove
  notify_remove i txs hash [] = some []
  notify_remove i txs hash ((l, slot) ∷ slots) =
      let rest = notify_remove i txs hash slots in
      elim (i.on_remove l txs hash) [
        | none ↦ none
        | some (l', adds, removes) ↦ elim rest [
          | none ↦ none
          | some slots' ↦ some ((l', slot_remove slot adds removes) ∷ slots')
        ]
      ]

  -- `assert_eq!` of a streamed block with its proof, then the end of the decoder, and its hash.
  unfoldable pub maybe_finish_decoding_block : ChainTracker L → TxoProof → ℕ → Reply L (Unit {0})
  unfolding is_external
  maybe_finish_decoding_block self proof expected_block_hash = elim self.decode_state [
    | none ↦ if is_external proof.proof then panicked else replied tt self
    | some d ↦
        if not (is_external proof.proof)
        then panicked
        else if not d.finishes || d.block_hash != expected_block_hash
        then refused block_decode_error (record self { decode_state = none })
        else replied tt (record self { decode_state = none })
  ]

  -- The call of the listeners that the kind of proof asks for.
  abbrev pub notified :
      {A : Type 0}
      → (Option (List Transaction) → Option (List (L × ListenSlot)))
      → ProofType
      → ChainTracker L
      → (List (L × ListenSlot) → Reply L A)
      → Reply L A
  notified notify (filter txs) self rest = elim (notify (some txs)) [
    | none ↦ panicked
    | some ls ↦ rest ls
  ]
  notified notify block self rest = refused invalid_proof self
  notified notify external_block self rest = elim (notify none) [
    | none ↦ panicked
    | some ls ↦ rest ls
  ]

  abbrev pub then_with : {A B : Type 0} → Reply L A → (A → ChainTracker L → Reply L B) → Reply L B
  then_with panicked rest = panicked
  then_with (refused e t) rest = refused e t
  then_with (replied a t) rest = rest a t

  unfoldable pub push_tip : Headers → ChainTracker L → List (L × ListenSlot) → ChainTracker L
  push_tip headers self listeners = record self {
    headers = self.tip ∷ take (max_reorg_size - 1) self.headers;
    tip = headers;
    height = u32_add self.height 1;
    listeners = listeners;
  }

  unfoldable pub add_block :
      Chain → ChainListener L → ChainTracker L → Header → TxoProof → Reply L (Unit {0})
  unfolding maybe_finish_decoding_block validate_block notify_add push_tip external_hash
  add_block c i self header proof =
      then_with (maybe_finish_decoding_block self proof header.block_hash) λ u t.
        let headers : Headers = record { header = header; filter_header = proof.filter_header } in
        checked
          (validate_block c t t.height (external_hash proof header.block_hash) t.tip headers proof
            false)
          t
          (notified (λ txs. notify_add i txs header.block_hash t.listeners) proof.proof t
            λ listeners. replied tt (push_tip headers t listeners))

  -- The tests before anything else: a header to go back to, which is taken off.
  unfoldable pub pop_header : ChainTracker L → Headers → Reply L (Unit {0})
  pop_header self supplied_prev_headers = elim self.headers [
    | [] ↦ if self.allow_deep_reorgs then replied tt self else refused reorg_too_deep self
    | h ∷ hs ↦
        if same_headers supplied_prev_headers h
        then replied tt (record self { headers = hs })
        else refused invalid_chain self
  ]

  unfoldable pub pop_tip : Headers → ChainTracker L → List (L × ListenSlot) → ChainTracker L
  pop_tip prev_headers self listeners = record self {
    tip = prev_headers;
    height = u32_sub self.height 1;
    listeners = listeners;
  }

  -- Returns the header that was removed.
  unfoldable pub remove_block :
      Chain → ChainListener L → ChainTracker L → TxoProof → Headers → Reply L Header
  unfolding maybe_finish_decoding_block validate_block notify_remove pop_header pop_tip
      external_hash
  remove_block c i self proof prev_headers =
      let hash = prev_headers.header.block_hash in
      then_with (pop_header self prev_headers) λ u s.
        then_with (maybe_finish_decoding_block s proof hash) λ v t.
          checked
            (validate_block c t (u32_sub t.height 1) (external_hash proof hash) prev_headers t.tip
              proof true)
            t
            (notified (λ txs. notify_remove i txs hash t.listeners) proof.proof t
              λ listeners. replied t.tip.header (pop_tip prev_headers t listeners))
