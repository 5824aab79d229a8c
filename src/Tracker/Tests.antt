-- ===== src/Tracker/Tests.antt =====
-- A tracker without listeners on a chain whose rules every block meets, and a reorganised sweep.
use validating_lightning_sig.Common.{
  ℕ, ◌≡◌, refl, true, false, none, some, [], ◌∷◌, arith, ◌!=◌, u32_sub, err,
}
use validating_lightning_sig.Common.Panics.{write}
use validating_lightning_sig.Channel.Equality.{outpoint_eq}
use validating_lightning_sig.Tracker.{
  Error, Network, Header, Headers, TxoProof, ProofType, ChainListener, Chain, ChainTracker,
  is_external, validate_block, validate_target, validate_retarget, get_all_watches,
}
use validating_lightning_sig.Tracker.Watches.{ListenSlot, slot_add, slot_remove}
use validating_lightning_sig.Tracker.Blocks.{
  refused, replied, add_block, remove_block, pop_header, maybe_finish_decoding_block, external_hash,
  push_tip, pop_tip, notify_add, notify_remove,
}
use validating_lightning_sig.Tracker.Reorg.{refused_removal_loses_header, remove_block-add_block}
use validating_lightning_sig.Tracker.Unwatched.{reorged_sweep_unwatched}
use validating_lightning_sig.Monitor.{htlc_output_spent}
use validating_lightning_sig.Monitor.Changes.{Applied, apply_forward_change, apply_backward_change}
use validating_lightning_sig.Monitor.Closing
use validating_lightning_sig.Monitor.Closing.{position, without, matches_outpoint}
use validating_lightning_sig.Monitor.Undo.{afresh}
use validating_lightning_sig.Monitor.Tests.{broadcast, second}

-- Proofs are good where their filter header is not 666.
abbrev chain : Chain
chain = record {
  max_target = λ n. 1000;
  min_transition = λ t. 100;
  max_transition = λ n t. 1000;
  round_trip_target = λ t. t;
  validate_pow = λ h. true;
  validate_proof = λ p height h external prev w. p.filter_header != 666;
}

abbrev no_listener : ChainListener (Unit {0})
no_listener = record {
  on_add = λ l txs hash. some (l, [], []);
  on_remove = λ l txs hash. some (l, [], []);
}

abbrev header_of : ℕ → ℕ → Header
header_of hash prev = record {
  block_hash = hash;
  prev_blockhash = prev;
  bits = 1;
  target = 500;
  time = 0;
}

abbrev headers_of : ℕ → ℕ → Headers
headers_of hash prev = record { header = header_of hash prev; filter_header = 1 }

abbrev proof_of : ℕ → TxoProof
proof_of filter_header = record { proof = ProofType.filter []; filter_header = filter_header }

abbrev tracker : ChainTracker (Unit {0})
tracker = record {
  headers = headers_of 12 11 ∷ headers_of 11 10 ∷ [];
  tip = headers_of 13 12;
  height = 3;
  network = Network.regtest;
  listeners = [];
  decode_state = none;
  allow_deep_reorgs = false;
}

abbrev grown : ChainTracker (Unit {0})
grown = record tracker {
  headers = headers_of 13 12 ∷ headers_of 12 11 ∷ headers_of 11 10 ∷ [];
  tip = headers_of 14 13;
  height = 4;
}

added : add_block chain no_listener tracker (header_of 14 13) (proof_of 1) ≡ replied tt grown
unfolding add_block maybe_finish_decoding_block validate_block validate_target validate_retarget
    get_all_watches external_hash notify_add push_tip is_external
added = refl

removed :
    remove_block chain no_listener grown (proof_of 1) (headers_of 13 12)
    ≡ replied (header_of 14 13) tracker
unfolding remove_block pop_header maybe_finish_decoding_block validate_block validate_target
    validate_retarget get_all_watches external_hash notify_remove pop_tip is_external
removed = refl

remove_block-add_block_example :
    (header_of 14 13 ≡ header_of 14 13)
    × (tracker.headers ≡ tracker.headers)
    × (tracker.tip ≡ tracker.tip)
    × (tracker.height ≡ tracker.height)
remove_block-add_block_example =
    remove_block-add_block chain no_listener tracker grown tracker (header_of 14 13)
      (header_of 14 13) (proof_of 1) (proof_of 1) (omega arith) (omega arith) added removed

abbrev popped : ChainTracker (Unit {0})
popped = record tracker { headers = headers_of 11 10 ∷ [] }

bad_proof :
    validate_block chain popped
      (u32_sub 3 1)
      none
      (headers_of 12 11)
      (headers_of 13 12)
      (proof_of 666)
      true
    ≡ err Error.invalid_proof
unfolding validate_block validate_target validate_retarget get_all_watches
bad_proof = refl

refused_removal_loses_header_example :
    (remove_block chain no_listener tracker (proof_of 666) (headers_of 12 11)
      ≡ refused Error.invalid_proof popped)
    × (remove_block chain no_listener popped (proof_of 1) (headers_of 12 11)
        ≡ refused Error.invalid_chain popped)
refused_removal_loses_header_example =
    refused_removal_loses_header chain no_listener tracker (proof_of 666) (proof_of 1)
      (headers_of 12 11) (headers_of 12 11) (headers_of 11 10) [] Error.invalid_proof refl refl refl
      refl (unfold is_external in refl) bad_proof

abbrev slot : ListenSlot
slot = record {
  txid_watches = [];
  watches = λ o. outpoint_eq o (record { txid = 8; vout = 1 });
  seen = λ o. false;
}

swept :
    (f : Applied) × (apply_forward_change (afresh broadcast) (htlc_output_spent 1 second) ≡ some f)
unfolding apply_forward_change Closing.set_htlc_output_spent position write
    Closing.add_second_level_htlc_output
swept = (_, refl)

unswept :
    (b : Applied) × (apply_backward_change (afresh swept.0.state) (htlc_output_spent 1 second)
      ≡ some b)
unfolding swept apply_backward_change Closing.set_htlc_output_spent position write
    Closing.remove_second_level_htlc_output without matches_outpoint outpoint_eq
unswept = (_, refl)

reorged_sweep_unwatched_example :
    (let after =
        slot_remove (slot_add slot swept.0.adds swept.0.removes) unswept.0.adds unswept.0.removes in
      (after.watches (record { txid = 8; vout = 1 }) ≡ false) × (after.watches second ≡ true))
reorged_sweep_unwatched_example =
    reorged_sweep_unwatched slot broadcast _ 1 second swept.0 unswept.0 refl swept.1 unswept.1
      (unfold outpoint_eq in refl)
