-- ===== src/Protocol/Signing.antt =====
-- Signing a mutual close and the sweeps of a closed channel: `sign_mutual_close_tx`,
-- `sign_mutual_close_tx_phase2`, `sign_delayed_sweep`, `sign_counterparty_htlc_sweep` and
-- `sign_justice_sweep` of vls-core/src/channel.rs. The signing of the crates may fail; persisting is
-- not modelled.
pub mod Closed
use validating_lightning_sig.Common.{
  ℕ, true, Option, List, leb, ◌!=◌, if◌then◌else◌, length, ok, err, ◌>>=◌, ◌>>◌, when,
}
use validating_lightning_sig.Channel.{PublicKey, ChannelSetup, ChainState}
use validating_lightning_sig.Channel.Enforcement.{EnforcementState}
use validating_lightning_sig.Monitor.Transactions.{Transaction}
use validating_lightning_sig.Validator.{SimplePolicy}
use validating_lightning_sig.Validator.MutualClose.{
  Wallet, Closings, ClosingTransaction, ValidateArgs, closing, validate_mutual_close_tx,
  decode_and_validate_mutual_close_tx,
}
use validating_lightning_sig.Validator.Sweeps.{
  Scripts, validate_delayed_sweep, validate_counterparty_htlc_sweep, validate_justice_sweep,
}
use validating_lightning_sig.Protocol.{
  World, Answer, status, internal, invalid_argument, get_per_commitment_point,
}

module _ (policy : SimplePolicy) (wallet : Wallet) (closings : Closings)
    (sign : ClosingTransaction → Answer ℕ) (setup : ChannelSetup) where
  unfoldable pub sign_mutual_close_tx_phase2 :
      EnforcementState → ValidateArgs → Answer (ℕ × EnforcementState)
  unfolding closing
  sign_mutual_close_tx_phase2 self args = do
    status (validate_mutual_close_tx policy wallet closings setup self args)
    sig ← sign (closing closings setup args)
    ok (sig, record self { channel_closed = true })

  unfoldable pub sign_mutual_close_tx :
      EnforcementState → Transaction → List ℕ → Answer (ℕ × EnforcementState)
  sign_mutual_close_tx self tx opaths = do
    when (length opaths != length tx.output) (err invalid_argument)
    recomposed ←
        status (decode_and_validate_mutual_close_tx policy wallet closings setup self tx opaths)
    sig ← sign recomposed
    ok (sig, record self { channel_closed = true })

-- The signature is of the transaction's input with this index, by a key that is derived from the point
-- or secret that is given.
module _ (w : World) (wallet : Wallet) (scripts : Scripts)
    (sign : Transaction → ℕ → ℕ → ℕ → ℕ) where
  unfoldable pub sign_delayed_sweep : EnforcementState → Transaction → ℕ → ℕ → ℕ → ℕ → Answer ℕ
  sign_delayed_sweep self tx input commitment_number amount_sat wallet_path = do
    when (leb (length tx.input) input) (err invalid_argument)
    per_commitment_point ← get_per_commitment_point w self commitment_number
    status (
        validate_delayed_sweep w.simple wallet scripts w.eras.setup w.chain_state tx amount_sat
          wallet_path)
    ok (sign tx input amount_sat per_commitment_point)

  unfoldable pub sign_counterparty_htlc_sweep : Transaction → ℕ → PublicKey → ℕ → ℕ → ℕ → Answer ℕ
  sign_counterparty_htlc_sweep tx input point redeemscript htlc_amount_sat wallet_path = do
    when (leb (length tx.input) input) (err invalid_argument)
    status (
        validate_counterparty_htlc_sweep w.simple wallet scripts w.eras.setup w.chain_state tx
          redeemscript htlc_amount_sat wallet_path)
    ok (sign tx input htlc_amount_sat point)

  unfoldable pub sign_justice_sweep : Transaction → ℕ → ℕ → ℕ → ℕ → Answer ℕ
  sign_justice_sweep tx input revocation_secret amount_sat wallet_path = do
    when (leb (length tx.input) input) (err invalid_argument)
    status (validate_justice_sweep w.simple wallet scripts w.chain_state tx amount_sat wallet_path)
    ok (sign tx input amount_sat revocation_secret)
