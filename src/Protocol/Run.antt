-- ===== src/Protocol/Run.antt =====
-- The runs of a channel: the operations of `Channel` that change its enforcement state, in any order
-- and with any arguments, and the swap of the funding and its lock in a splice.
pub mod Moves
pub mod Remote
pub mod Local
pub mod Safety
pub mod EarlyClose
pub mod Alternation
use validating_lightning_sig.Common.{ℕ, ◌+◌, ◌<◌, ◌≡◌, Option, List, Bool, u64_mod, Outcome, ok}
use validating_lightning_sig.Channel.{
  PublicKey, OutPoint, CommitmentInfo2, CommitmentSignatures, ChannelSetup,
}
use validating_lightning_sig.Channel.Secrets.{Secret}
use validating_lightning_sig.Channel.Enforcement.{EnforcementState, snapshot_funding_for_splice}
use validating_lightning_sig.Protocol.{
  World, Answer, validate_holder_commitment_tx_phase2, revoke_previous_holder_commitment,
  activate_initial_commitment,
}
use validating_lightning_sig.Monitor.Transactions.{Transaction}
use validating_lightning_sig.Validator.MutualClose.{
  Wallet, Closings, ClosingTransaction, ValidateArgs,
}
use validating_lightning_sig.Protocol.Splice.{lock_state}
use validating_lightning_sig.Protocol.Signing.{sign_mutual_close_tx, sign_mutual_close_tx_phase2}
use validating_lightning_sig.Protocol.Close.{sign_holder_commitment_tx_phase2}
use validating_lightning_sig.Protocol.Remote.{
  sign_counterparty_commitment_tx_phase2, validate_counterparty_revocation,
}

-- No number of the state is so high that its successors wrap.
abbrev pub InRange : EnforcementState → Type 0
InRange s =
    (s.next_holder_commit_num + 3 < u64_mod)
    × (s.next_counterparty_commit_num + 3 < u64_mod)
    × (s.next_counterparty_revoke_num + 3 < u64_mod)

-- The chain state, the eras and the node differ from call to call.
pub data Step (w : World) (s : EnforcementState) : EnforcementState → Type 0 where
  validated :
      (outpoint : OutPoint) (n : ℕ) (info : CommitmentInfo2) (sigs : CommitmentSignatures)
      {s' : EnforcementState}
      → n + 2 < u64_mod
      → validate_holder_commitment_tx_phase2 w s outpoint n info sigs ≡ ok s'
      → Step w s s'
  revoked : (n : ℕ) → Step w s (revoke_previous_holder_commitment w s n).1
  activated : {s' : EnforcementState} → activate_initial_commitment s ≡ ok s' → Step w s s'
  closed :
      (n sig : ℕ) {s' : EnforcementState}
      → sign_holder_commitment_tx_phase2 w s n ≡ ok (sig, s')
      → Step w s s'
  signed :
      (outpoint : OutPoint) (point : PublicKey) (n : ℕ) (info : CommitmentInfo2) (sig : ℕ)
      {s' : EnforcementState}
      → n + 2 < u64_mod
      → sign_counterparty_commitment_tx_phase2 w s outpoint point n info ≡ ok (sig, s')
      → Step w s s'
  counterparty_revoked :
      (n : ℕ) (secret : Secret)
      → n + 3 < u64_mod
      → Step w s (validate_counterparty_revocation w s n secret).1
  swapped :
      (outpoint : OutPoint) (push : ℕ) → Step w s (snapshot_funding_for_splice s outpoint push)
  locked : (setup : ChannelSetup) (was_splice : Bool) → Step w s (lock_state setup was_splice s)
  mutually_closed :
      (wallet : Wallet) (closings : Closings) (sign : ClosingTransaction → Answer ℕ)
      (tx : Transaction) (opaths : List ℕ) (sig : ℕ) {s' : EnforcementState}
      → sign_mutual_close_tx w.simple wallet closings sign w.eras.setup s tx opaths ≡ ok (sig, s')
      → Step w s s'
  mutually_closed_phase2 :
      (wallet : Wallet) (closings : Closings) (sign : ClosingTransaction → Answer ℕ)
      (args : ValidateArgs) (sig : ℕ) {s' : EnforcementState}
      → sign_mutual_close_tx_phase2 w.simple wallet closings sign w.eras.setup s args ≡ ok (sig, s')
      → Step w s s'

-- A run: each of its worlds satisfies `P`, and no number comes near the end of the machine word.
pub data Run (P : World → Type 0) (s : EnforcementState) : EnforcementState → Type 0 where
  start : Run P s s
  next :
      {s' s'' : EnforcementState} (w : World)
      → Run P s s'
      → P w
      → InRange s'
      → Step w s' s''
      → Run P s s''
