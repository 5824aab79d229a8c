-- ===== src/Node/Pruning/Run.antt =====
-- Runs of a node's operations on its invoices: adding, pruning, and a restart.
use validating_lightning_sig.Common.{ℕ, ◌+◌, ◌<◌, ◌≡◌, some, List}
use validating_lightning_sig.Channel.{PublicKey}
use validating_lightning_sig.Validator.{SimplePolicy}
use validating_lightning_sig.Node.{NodeState}
use validating_lightning_sig.Node.Restore.{to_entry}
use validating_lightning_sig.Node.Restart.{StoredChannel, restart}
use validating_lightning_sig.Node.Invoices.{Invoice, secs, duration_end, add_invoice, add_keysend}
use validating_lightning_sig.Node.Pruning.{prune_all}

-- An operation with times that stay a day from the end of what a duration can hold.
pub data NodeStep (policy : SimplePolicy) (sha256 : List ℕ → ℕ) (s : NodeState)
    : NodeState → Type 0 where
  invoiced :
      (now : ℕ) (inv : Invoice)
      → inv.duration_since_epoch + inv.expiry_duration + secs 86_400 < duration_end
      → NodeStep policy sha256 s (add_invoice policy s now inv).1
  sent :
      (now : ℕ) (payee : PublicKey) (payment_hash amount_msat : ℕ)
      → now + secs 60 < duration_end
      → NodeStep policy sha256 s (add_keysend policy s now payee payment_hash amount_msat).1
  pruned : (now : ℕ) {s' : NodeState} → prune_all s now ≡ some s' → NodeStep policy sha256 s s'
  restarted :
      (channels : List StoredChannel) {s' : NodeState}
      → restart policy sha256 (to_entry s) channels ≡ some s'
      → NodeStep policy sha256 s s'

pub data NodeRun (policy : SimplePolicy) (sha256 : List ℕ → ℕ) (s : NodeState)
    : NodeState → Type 0 where
  rest : NodeRun policy sha256 s s
  then_step :
      {s' s'' : NodeState}
      → NodeRun policy sha256 s s'
      → NodeStep policy sha256 s' s''
      → NodeRun policy sha256 s s''
