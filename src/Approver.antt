-- ===== src/Approver.antt =====
-- Who approves a payment: the positive, negative, velocity and memo approvers of
-- vls-protocol-signer/src/approver.rs. An approver may change when it is asked; `none` is a panic, and
-- the clock's reading is the argument `now`. Of invoices the hash and the amount are read; a
-- transaction is only compared.
pub mod Limited
pub mod Tests
use validating_lightning_sig.Common.{
  ℕ, Bool, true, false, ◌&&◌, Option, none, some, List, [], ◌∷◌, ◌==◌, if◌then◌else◌, any,
}
use validating_lightning_sig.Common.Panics.{◌>>=◌}
use validating_lightning_sig.Channel.{PaymentHash}
use validating_lightning_sig.Velocity.{VelocityControl, insert, clear}

pub record Invoice : Type 0 where
  pub invoice_hash : ℕ
  pub amount_milli_satoshis : ℕ

pub record OnchainTx : Type 0 where
  pub tx : ℕ
  pub prev_outs : List ℕ
  pub unknown_indices : List ℕ

-- The three requests of the trait `Approve`.
pub data Request : Type 0 where
  invoice : Invoice → Request
  keysend : PaymentHash → ℕ → Request
  onchain : OnchainTx → Request

-- `approve_invoice`, `approve_keysend` and `approve_onchain`, by the request.
pub record Approve (A : Type 0) : Type 0 where
  pub ask : A → ℕ → Request → Option (Bool × A)

unfoldable pub positive_approver : Approve (Unit {0})
positive_approver = record { ask = λ self now r. some (true, self) }

unfoldable pub negative_approver : Approve (Unit {0})
negative_approver = record { ask = λ self now r. some (false, self) }

pub record VelocityApprover (A : Type 0) : Type 0 where
  pub control : VelocityControl
  pub delegate : A

pub data Approval : Type 0 where
  invoice_approval : Invoice → Approval
  keysend_approval : PaymentHash → ℕ → Approval
  onchain_approval : ℕ → Approval

pub record MemoApprover (A : Type 0) : Type 0 where
  pub delegate : A
  pub approvals : List Approval

-- Whether a memorized approval is for the request.
unfoldable pub is_for : Request → Approval → Bool
is_for (invoice i) (invoice_approval approved) = approved.invoice_hash == i.invoice_hash
is_for (keysend payment_hash amount_msat) (keysend_approval approved_hash approved_msat) =
    approved_hash == payment_hash && approved_msat == amount_msat
is_for (onchain t) (onchain_approval approved_tx) = approved_tx == t.tx
is_for _ _ = false

module _ {A : Type 0} where
  -- After a manual approval the control is cleared.
  unfoldable pub conclude : VelocityControl → Bool × A → Bool × VelocityApprover A
  conclude control (approved, delegate) = (
    approved,
    record { control = if approved then clear control else control; delegate = delegate },
  )

  -- The control has taken the payment, or the delegate is asked.
  unfoldable pub settle :
      Approve A → A → ℕ → Request → Bool × VelocityControl → Option (Bool × VelocityApprover A)
  unfolding conclude
  settle i delegate now r (true, control) =
      some (true, record { control = control; delegate = delegate })
  settle i delegate now r (false, control) =
      i.ask delegate now r >>= λ answer. some (conclude control answer)

  -- A payment of `msat`.
  unfoldable pub ask_control :
      Approve A → VelocityApprover A → ℕ → Request → ℕ → Option (Bool × VelocityApprover A)
  unfolding settle
  ask_control i self now r msat = insert self.control now msat >>= settle i self.delegate now r

  unfoldable pub ask_velocity :
      Approve A → VelocityApprover A → ℕ → Request → Option (Bool × VelocityApprover A)
  unfolding ask_control
  ask_velocity delegate self now (invoice i) =
      ask_control delegate self now (invoice i) i.amount_milli_satoshis
  ask_velocity delegate self now (keysend payment_hash amount_msat) =
      ask_control delegate self now (keysend payment_hash amount_msat) amount_msat
  ask_velocity delegate self now (onchain t) =
      delegate.ask self.delegate now (onchain t) >>= λ (answer : Bool × A).
      some (answer.0, record self { delegate = answer.1 })

  unfoldable pub velocity_approver : Approve A → Approve (VelocityApprover A)
  unfolding ask_velocity
  velocity_approver delegate = record { ask = ask_velocity delegate }

  -- `MemoApprover::approve`
  unfoldable pub memorize : MemoApprover A → List Approval → MemoApprover A
  memorize self approvals = record self { approvals = approvals }

  -- The list is drained, also where the loop returns early.
  unfoldable pub ask_memo :
      Approve A → MemoApprover A → ℕ → Request → Option (Bool × MemoApprover A)
  unfolding is_for
  ask_memo delegate self now r =
      if any (is_for r) self.approvals
      then some (true, record self { approvals = [] })
      else (delegate.ask self.delegate now r >>= λ (answer : Bool × A).
          some (answer.0, record { delegate = answer.1; approvals = [] }))

  unfoldable pub memo_approver : Approve A → Approve (MemoApprover A)
  unfolding ask_memo
  memo_approver delegate = record { ask = ask_memo delegate }
