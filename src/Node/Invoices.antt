-- ===== src/Node/Invoices.antt =====
-- The invoices of a node: `validate_invoice` of vls-core/src/policy/validator.rs, and
-- `add_invoice`, `add_keysend`, `has_payment` and `prune_time` of node.rs. A `Duration` is a
-- number of nanoseconds; a sum of more than 2 ^ 64 - 1 seconds is a panic. Persisting is not
-- modelled.
use validating_lightning_sig.Common.{
  ℕ, ◌+◌, ◌*◌, ◌/◌, Bool, true, false, Option, none, some, ltb, leb, ◌==◌, if◌then◌else◌, length,
  u64_mod, ok, err, panic, ◌>>=◌, ◌>>◌, when, unwrap,
}
use validating_lightning_sig.Policy.{PolicyFilter, Validated, policy_err}
use validating_lightning_sig.Channel.{PublicKey}
use validating_lightning_sig.Velocity.{VelocityControl, insert}
use validating_lightning_sig.Protocol.{Answer, status, failed_precondition}
use validating_lightning_sig.Validator.{SimplePolicy}
use validating_lightning_sig.Node.{NodeState, PaymentState, invoice, keysend, lookup, assign}
use validating_lightning_sig.Node.Apply.{ensure}

-- `Duration::from_secs`
abbrev pub secs : ℕ → ℕ
secs n = n * 1_000_000_000

abbrev pub as_secs : ℕ → ℕ
as_secs duration = duration / 1_000_000_000

-- The first duration that does not exist.
abbrev pub duration_end : ℕ
duration_end = u64_mod * 1_000_000_000

abbrev pub duration_add : ℕ → ℕ → Option ℕ
duration_add a b = if ltb (a + b) duration_end then some (a + b) else none

abbrev pub max_clock_skew : ℕ
max_clock_skew = secs 60

abbrev pub min_invoice_expiry : ℕ
min_invoice_expiry = secs 60

-- What is read of an `Invoice`.
pub record Invoice : Type 0 where
  pub payment_hash : ℕ
  pub invoice_hash : ℕ
  pub amount_milli_satoshis : ℕ
  pub payee_pub_key : PublicKey
  pub duration_since_epoch : ℕ
  pub expiry_duration : ℕ

unfoldable pub validate_invoice : PolicyFilter → Invoice → ℕ → Validated (Unit {0})
validate_invoice f inv now = do
  latest ← unwrap (duration_add now max_clock_skew)
  when (ltb latest inv.duration_since_epoch) (policy_err f "policy-invoice-not-expired")
  soonest ← unwrap (duration_add now min_invoice_expiry)
  expiry ← unwrap (duration_add inv.duration_since_epoch inv.expiry_duration)
  bound ← unwrap (duration_add expiry max_clock_skew)
  when (ltb bound soonest) (policy_err f "policy-invoice-not-expired")

unfoldable pub payment_state_from_invoice : Invoice → PaymentState
payment_state_from_invoice inv = record {
  invoice_hash = inv.invoice_hash;
  amount_msat = inv.amount_milli_satoshis;
  payee = inv.payee_pub_key;
  duration_since_epoch = inv.duration_since_epoch;
  expiry_duration = inv.expiry_duration;
  is_fulfilled = false;
  payment_type = invoice;
}

unfoldable pub payment_state_from_keysend : PublicKey → ℕ → ℕ → ℕ → PaymentState
payment_state_from_keysend payee payment_hash amount_msat now = record {
  invoice_hash = payment_hash;
  amount_msat = amount_msat;
  payee = payee;
  duration_since_epoch = now;
  expiry_duration = secs 60;
  is_fulfilled = false;
  payment_type = keysend;
}

-- The answer of the velocity control: the payment is entered only where it is granted.
unfoldable pub enter :
    NodeState → ℕ → PaymentState → Option (Bool × VelocityControl) → Answer Bool × NodeState
unfolding assign ensure
enter self hash added none = (panic, self)
enter self hash added (some (false, control)) =
    (ok false, record self { velocity_control = control })
enter self hash added (some (true, control)) = (
  ok true,
  record self {
    velocity_control = control;
    invoices = assign hash added self.invoices;
    payments = ensure self.payments hash;
  },
)

-- A retry of the invoice that is there already is granted, another one with its hash refused.
abbrev pub same_invoice : PaymentState → PaymentState → Answer Bool
same_invoice old added =
    if old.invoice_hash == added.invoice_hash then ok true else err failed_precondition

-- The part that `add_invoice` and `add_keysend` share.
unfoldable pub add_payment : ℕ → NodeState → ℕ → ℕ → PaymentState → Answer Bool × NodeState
unfolding enter lookup
add_payment max_invoices self now hash added =
    if leb max_invoices (length self.invoices)
    then (err failed_precondition, self)
    else elim (lookup hash self.invoices) [
      | some old ↦ (same_invoice old added, self)
      | none ↦ enter self hash added (insert self.velocity_control (as_secs now) added.amount_msat)
    ]

-- A failed validation leaves the state.
abbrev pub after_validation :
    Validated (Unit {0}) → NodeState → Answer Bool × NodeState → Answer Bool × NodeState
after_validation (ok nothing) self rest = rest
after_validation (err e) self rest = (status (err e), self)
after_validation panic self rest = (panic, self)

unfoldable pub add_invoice : SimplePolicy → NodeState → ℕ → Invoice → Answer Bool × NodeState
unfolding validate_invoice add_payment payment_state_from_invoice
add_invoice policy self now inv =
    after_validation (validate_invoice policy.filter inv now) self
      (add_payment policy.max_invoices self now inv.payment_hash (payment_state_from_invoice inv))

unfoldable pub add_keysend :
    SimplePolicy → NodeState → ℕ → PublicKey → ℕ → ℕ → Answer Bool × NodeState
unfolding add_payment payment_state_from_keysend
add_keysend policy self now payee payment_hash amount_msat =
    add_payment policy.max_invoices self now payment_hash
      (payment_state_from_keysend payee payment_hash amount_msat now)

unfoldable pub has_payment : NodeState → ℕ → ℕ → Answer Bool
unfolding lookup
has_payment self hash invoice_hash = elim (lookup hash self.invoices) [
  | none ↦ ok false
  | some old ↦ if old.invoice_hash == invoice_hash then ok true else err failed_precondition
]

-- Without `timeless_workaround`.
unfoldable pub prune_time : PaymentState → ℕ
prune_time state = elim state.payment_type [ invoice ↦ secs 86_400 | keysend ↦ 0 ]
