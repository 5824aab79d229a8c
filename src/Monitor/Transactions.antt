-- ===== src/Monitor/Transactions.antt =====
-- Transactions as the monitor reads them, and what vls-core/src/util/transaction_utils.rs reads from a
-- closing one: `decode_commitment_number` and `decode_commitment_tx`. The scripts are those that the
-- bitcoin and lightning crates build from the channel's keys; they are only compared.
use Prim.Native.Nat.{bit_xor}
use validating_lightning_sig.Common.{
  ℕ, suc, ◌+◌, ◌*◌, ◌/◌, ◌%◌, ◌^◌, Bool, false, ◌||◌, Option, none, some, List, [], ◌∷◌, ◌==◌, ◌!=◌,
  if◌then◌else◌,
}
use validating_lightning_sig.Channel.{OutPoint}

pub record TxIn : Type 0 where
  pub previous_output : OutPoint
  pub sequence : ℕ

pub record TxOut : Type 0 where
  pub value : ℕ
  pub script_pubkey : ℕ

pub record Transaction : Type 0 where
  pub txid : ℕ
  pub version : ℕ
  pub lock_time : ℕ
  pub input : List TxIn
  pub output : List TxOut

-- A closing transaction as the listener gathers it: only its inputs and outputs, and the locktime.
pub record ClosingTx : Type 0 where
  pub lock_time : ℕ
  pub input : List TxIn
  pub output : List TxOut

-- `CommitmentPointProvider`: what is computed from the channel's keys and its enforcement state.
pub record Provider : Type 0 where
  pub obscure_factor : ℕ
  pub is_p2wsh : ℕ → Bool
  pub holder_non_delayed_script : ℕ
  -- of the holder's commitment with this number
  pub holder_delayed_script : ℕ → ℕ
  -- of the counterparty's, where its commitment point is known
  pub cp_delayed_script : ℕ → Option ℕ
  pub get_spendable_htlc_indices : ClosingTx → ℕ → Option (List ℕ)

-- `x >> 24` as a byte, and the low 24 bits.
abbrev top_byte : ℕ → ℕ
top_byte x = x / 2 ^ 24 % 2 ^ 8

abbrev low_bits : ℕ → ℕ
low_bits x = x % 2 ^ 24

unfoldable pub decode_commitment_number : Provider → ClosingTx → Option ℕ
decode_commitment_number p tx = elim tx.input [
  | [] ↦ none
  | input ∷ [] ↦
      if top_byte input.sequence != 0x80 || top_byte tx.lock_time != 0x20
      then none
      else some
          (bit_xor (low_bits input.sequence * 2 ^ 24 + low_bits tx.lock_time) p.obscure_factor)
  | input ∷ another ∷ more ↦ none
]

abbrev anchor_output_value_satoshi : ℕ
anchor_output_value_satoshi = 330

abbrev is_script : Option ℕ → ℕ → Bool
is_script none script = false
is_script (some s) script = s == script

-- The loop over the outputs from index `idx`: our main output, the last one that pays to us, and the
-- HTLC outputs.
unfoldable pub scan_outputs : Provider → ℕ → ℕ → Option ℕ → List TxOut → Option ℕ × List ℕ
scan_outputs p number idx main [] = (main, [])
scan_outputs p number idx main (output ∷ outputs) =
    let script = output.script_pubkey in
    let ours = script == p.holder_non_delayed_script || script == p.holder_delayed_script number in
    let skipped =
      output.value == anchor_output_value_satoshi
      || is_script (p.cp_delayed_script number) script in
    let main' = if skipped then main else if ours then some idx else main in
    let rest = scan_outputs p number (suc idx) main' outputs in
    if skipped
    then rest
    else if ours
    then rest
    else if p.is_p2wsh script
    then (rest.0, idx ∷ rest.1)
    else rest

unfoldable pub decode_commitment_tx : Provider → ClosingTx → ℕ → Option ℕ × List ℕ
unfolding scan_outputs
decode_commitment_tx p tx number = scan_outputs p number 0 none tx.output
