-- ===== src/Protocol/Signing/Closed.antt =====
-- What signing a mutual close does to the channel.
use validating_lightning_sig.Common.{
  ℕ, ◌≡◌, true, List, arith, ◌!=◌, length, ok, err, when, >>=-eq-ok, >>-eq-ok,
}
use validating_lightning_sig.Channel.{ChannelSetup}
use validating_lightning_sig.Channel.Enforcement.{EnforcementState}
use validating_lightning_sig.Monitor.Transactions.{Transaction}
use validating_lightning_sig.Validator.{SimplePolicy}
use validating_lightning_sig.Validator.MutualClose.{
  Wallet, Closings, ClosingTransaction, ValidateArgs, closing, validate_mutual_close_tx,
  decode_and_validate_mutual_close_tx,
}
use validating_lightning_sig.Protocol.{Answer, status, invalid_argument}
use validating_lightning_sig.Protocol.Signing.{sign_mutual_close_tx, sign_mutual_close_tx_phase2}

module _ (policy : SimplePolicy) (wallet : Wallet) (closings : Closings)
    (sign : ClosingTransaction → Answer ℕ) (setup : ChannelSetup) (s : EnforcementState) where
  pub mutual_close_ok :
      (tx : Transaction) (opaths : List ℕ) (sig : ℕ) {s' : EnforcementState}
      → sign_mutual_close_tx policy wallet closings sign setup s tx opaths ≡ ok (sig, s')
      → (recomposed : ClosingTransaction) × (status
            (decode_and_validate_mutual_close_tx policy wallet closings setup s tx opaths)
          ≡ ok recomposed)
        × (sign recomposed ≡ ok sig)
        × (s' ≡ record s { channel_closed = true })
  unfolding sign_mutual_close_tx
  mutual_close_ok tx opaths sig e =
      let (same, e₁) =
        >>-eq-ok (when (length opaths != length tx.output) (err invalid_argument)) _ e in
      let (recomposed, decoded, e₂) =
        >>=-eq-ok
          (status (decode_and_validate_mutual_close_tx policy wallet closings setup s tx opaths)) _
          e₁ in
      let (sig', signed, e₃) = >>=-eq-ok (sign recomposed) _ e₂ in
      (recomposed, decoded, ground arith, ground arith)

  pub mutual_close_phase2_ok :
      (args : ValidateArgs) (sig : ℕ) {s' : EnforcementState}
      → sign_mutual_close_tx_phase2 policy wallet closings sign setup s args ≡ ok (sig, s')
      → (status (validate_mutual_close_tx policy wallet closings setup s args) ≡ ok tt)
        × (sign (closing closings setup args) ≡ ok sig)
        × (s' ≡ record s { channel_closed = true })
  unfolding sign_mutual_close_tx_phase2
  mutual_close_phase2_ok args sig e =
      let (checked, e₁) =
        >>-eq-ok (status (validate_mutual_close_tx policy wallet closings setup s args)) _ e in
      let (sig', signed, e₂) = >>=-eq-ok (sign (closing closings setup args)) _ e₁ in
      (checked, ground arith, ground arith)
