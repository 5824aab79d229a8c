-- ===== src/Tracker.antt =====
-- The chain tracker: vls-core/src/chain/tracker.rs. Headers, filters, proofs and targets are made by
-- the bitcoin and txoo crates; hashes, targets and filter headers are numbers that are compared. What
-- those crates and the policy validator compute is a `Chain`. Pushing the chunks of a streamed block to
-- its decoder is left out: the tracker holds what became of it.
pub mod Watches
pub mod Blocks
pub mod Replies
pub mod Reorg
pub mod Unwatched
pub mod Listener
pub mod Tests
use validating_lightning_sig.Common.{
  ℕ, suc, ◌+◌, ◌*◌, ◌%◌, Bool, true, false, not, ◌&&◌, ◌||◌, Option, none, some, List, [], ◌∷◌, ltb,
  ◌==◌, ◌!=◌, if◌then◌else◌, take, u32_add, u32_sub, Outcome, ok, err, when, ◌>>◌, ◌>>=◌, panic,
}
use validating_lightning_sig.Channel.{OutPoint}
use validating_lightning_sig.Monitor.Transactions.{Transaction}
use Watches.{ListenSlot, WatchSet, extend, slot_add, slot_remove}

pub data Error : Type 0 where
  invalid_chain orphan_block invalid_block reorg_too_deep invalid_proof block_decode_error : Error

pub data Network : Type 0 where
  bitcoin testnet regtest : Network

pub record Header : Type 0 where
  pub block_hash : ℕ
  pub prev_blockhash : ℕ
  pub bits : ℕ
  pub target : ℕ
  pub time : ℕ

-- The block header and the filter header.
pub record Headers : Type 0 where
  pub header : Header
  pub filter_header : ℕ

pub data ProofType : Type 0 where
  filter : List Transaction → ProofType
  block external_block : ProofType

pub record TxoProof : Type 0 where
  pub proof : ProofType
  pub filter_header : ℕ

unfoldable pub is_external : ProofType → Bool
is_external external_block = true
is_external _ = false

-- A listener with its operations (`ChainListener`): each returns the watches to add and to remove, or
-- panics. No transactions are given where the block was streamed.
pub record ChainListener (L : Type 0) : Type 0 where
  pub on_add : L → Option (List Transaction) → ℕ → Option (L × List OutPoint × List OutPoint)
  pub on_remove : L → Option (List Transaction) → ℕ → Option (L × List OutPoint × List OutPoint)

-- The bitcoin crate's rules, and `validate_block` of the policy's validator.
pub record Chain : Type 0 where
  pub max_target : Network → ℕ
  pub min_transition : ℕ → ℕ
  pub max_transition : Network → ℕ → ℕ
  pub round_trip_target : ℕ → ℕ
  pub validate_pow : Header → Bool
  pub validate_proof : TxoProof → ℕ → Header → Option ℕ → ℕ → WatchSet → Bool

-- A streamed block that was decoded: its hash, and whether the decoder ends well.
pub record BlockDecodeState : Type 0 where
  pub block_hash : ℕ
  pub finishes : Bool

pub record ChainTracker (L : Type 0) : Type 0 where
  pub headers : List Headers
  pub tip : Headers
  pub height : ℕ
  pub network : Network
  pub listeners : List (L × ListenSlot)
  pub decode_state : Option BlockDecodeState
  pub allow_deep_reorgs : Bool

abbrev pub max_reorg_size : ℕ
max_reorg_size = 100

abbrev pub diffchange_interval : ℕ
diffchange_interval = 2016

abbrev pub is_testnet : Network → Bool
is_testnet testnet = true
is_testnet _ = false

unfoldable pub validate_retarget : Chain → ℕ → ℕ → Network → Outcome Error (Unit {0})
validate_retarget c prev_target target network = do
  let lower = c.round_trip_target (c.min_transition prev_target)
  let upper = c.round_trip_target (c.max_transition network prev_target)
  when (ltb (c.max_target network) target) (err invalid_block)
  when (ltb target lower) (err invalid_chain)
  when (ltb upper target) (err invalid_chain)
  ok tt

module _ {L : Type 0} where
  -- `include_reverse` adds what earlier blocks spent.
  unfoldable pub get_all_watches : Bool → List (L × ListenSlot) → WatchSet
  get_all_watches include_reverse [] o = false
  get_all_watches include_reverse ((l, slot) ∷ slots) o =
      slot.watches o || (include_reverse && slot.seen o) || get_all_watches include_reverse slots o

  -- The rule on the difficulty of a block.
  unfoldable pub validate_target :
      Chain → ChainTracker L → ℕ → Header → Header → Outcome Error (Unit {0})
  unfolding validate_retarget
  validate_target c self height prev_header header =
      if is_testnet self.network
        && header.target == c.max_target self.network
        && ltb (prev_header.time + 60 * 20) header.time
      then ok tt
      else if u32_add height 1 % diffchange_interval == 0
      then validate_retarget c prev_header.target header.target self.network
      else when (header.bits != prev_header.bits && not (is_testnet self.network))
          (err invalid_chain)

  unfoldable pub validate_block :
      Chain
      → ChainTracker L
      → ℕ
      → Option ℕ
      → Headers
      → Headers
      → TxoProof
      → Bool
      → Outcome Error (Unit {0})
  unfolding validate_target get_all_watches
  validate_block c self height external_block_hash prev_headers headers proof is_remove = do
    let header = headers.header
    let prev_header = prev_headers.header
    when (header.prev_blockhash != prev_header.block_hash) (err orphan_block)
    when (not (c.validate_pow header)) (err invalid_block)
    validate_target c self height prev_header header
    let watches = get_all_watches is_remove self.listeners
    when
        (prev_headers.filter_header != 0
          && not (
              c.validate_proof proof (u32_add height 1) header external_block_hash
                prev_headers.filter_header watches))
        (err invalid_proof)
