-- ===== src/Protocol/Run/EarlyClose.antt =====
-- A revocation that succeeds, and the order of calls that releases the secret of a signed commitment.
use validating_lightning_sig.Common.{ℕ, ◌+◌, ◌<◌, none, some, u64_mod}
use validating_lightning_sig.Channel.{CommitmentInfo2, CommitmentSignatures}
use validating_lightning_sig.Channel.Enforcement.{EnforcementState}
use validating_lightning_sig.Protocol.{World}

module _ (w : World) (t : EnforcementState) (n : ℕ) (word : n + 4 < u64_mod) where
  -- The state that a revocation leaves.
  abbrev pub after_revocation : CommitmentInfo2 → CommitmentSignatures → EnforcementState
  after_revocation info sigs = record t {
    next_holder_commit_num = n + 2;
    current_holder_commit_info = some info;
    current_counterparty_signatures = some sigs;
    next_holder_commit_info = none;
  }
