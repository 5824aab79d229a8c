-- ===== src/Approver/Limited.antt =====
-- Without a human behind it the velocity approver keeps to its limit, and a memorized approval serves
-- once: vls-protocol-signer/src/approver.rs.
use validating_lightning_sig.Common.{
  ℕ, ◌/◌, ◌≤◌, ◌<◌, ◌≡◌, refl, inl, inr, Bool, true, false, Option, none, some, List, [], ◌∷◌,
  arith, any, Option-cases, u64_max,
}
use validating_lightning_sig.Common.Panics.{◌>>=◌}
use validating_lightning_sig.Channel.{PaymentHash}
use validating_lightning_sig.Velocity.{VelocityControl, insert, new_with_intervals}
use validating_lightning_sig.Velocity.Window.{Payment, window}
use validating_lightning_sig.Velocity.Refines.{sum}
use validating_lightning_sig.Velocity.Insert.{extend}
use validating_lightning_sig.Velocity.Run.{attempt, Ordered, window_limited}
use validating_lightning_sig.Approver.{
  Invoice, Request, invoice, keysend, Approve, negative_approver, VelocityApprover, ask_velocity,
  ask_control, settle, conclude, velocity_approver, Approval, MemoApprover, memorize, is_for,
  ask_memo, memo_approver,
}

-- A payment off chain: an invoice, or a keysend.
pub data Offer : Type 0 where
  by_invoice : Invoice → Offer
  by_keysend : PaymentHash → ℕ → Offer

abbrev pub request : Offer → Request
request (by_invoice i) = invoice i
request (by_keysend h msat) = keysend h msat

abbrev pub amount : Offer → ℕ
amount (by_invoice i) = i.amount_milli_satoshis
amount (by_keysend h msat) = msat

-- The offers, each with the time, one after the other; those approved are kept.
unfoldable pub propose :
    VelocityApprover (Unit {0})
    → List Payment
    → List (ℕ × Offer)
    → Option (List Payment × VelocityApprover (Unit {0}))
propose self log [] = some (log, self)
propose self log ((now, offer) ∷ offers) =
    (velocity_approver negative_approver).ask self now (request offer)
    >>= λ (answer : Bool × VelocityApprover (Unit {0})).
        propose answer.1 (extend answer.0 (now, amount offer) log) offers

abbrev pub payments : List (ℕ × Offer) → List Payment
payments [] = []
payments ((now, offer) ∷ offers) = (now, amount offer) ∷ payments offers

abbrev with_control : VelocityControl → VelocityApprover (Unit {0})
with_control c = record { control = c; delegate = tt }

inserted : Bool × VelocityControl → Option (Bool × VelocityApprover (Unit {0}))
inserted (granted, c) = some (granted, with_control c)

answered :
    (o : Option (Bool × VelocityControl)) (now : ℕ) (r : Request)
    → (o >>= settle negative_approver tt now r) ≡ (o >>= inserted)
unfolding negative_approver settle conclude inserted
answered none now r = refl
answered (some (true, c)) now r = refl
answered (some (false, c)) now r = refl

ask_inserts :
    (c : VelocityControl) (now : ℕ) (offer : Offer)
    → (velocity_approver negative_approver).ask (with_control c) now (request offer)
      ≡ (insert c now (amount offer) >>= inserted)
unfolding velocity_approver ask_velocity ask_control
ask_inserts c now (by_invoice i) = answered (insert c now i.amount_milli_satoshis) now (invoice i)
ask_inserts c now (by_keysend h msat) = answered (insert c now msat) now (keysend h msat)

propose_attempts :
    (offers : List (ℕ × Offer)) (c c' : VelocityControl) (log log' : List Payment)
    → attempt c log (payments offers) ≡ some (log', c')
    → propose (with_control c) log offers ≡ some (log', with_control c')
unfolding propose attempt inserted
propose_attempts [] c c' log log' h = ground arith
propose_attempts ((now, offer) ∷ offers) c c' log log' h =
    elim (Option-cases (insert c now (amount offer))) [
      | inl bad ↦ absurd (ground arith)
      | inr ((granted, d), e) ↦ rw (ask_inserts c now offer) (
          rw e (
            propose_attempts offers d c' (extend granted (now, amount offer) log) log'
              (rw (e, attempt) at h)))
    ]

-- A velocity approver that starts with a new control and whose delegate approves nothing never
-- panics on invoices and keysends that come in time order, and what it approves within the window
-- that ends with the last of them comes to at most the limit, if that is not u64::MAX.
pub approved_limited :
    (limit i n : ℕ) (offers : List (ℕ × Offer)) {c : VelocityControl}
    → new_with_intervals limit i n ≡ some c
    → limit < u64_max
    → Ordered 0 (payments offers)
    → (log : List Payment) × (c' : VelocityControl) × (propose
          (record { control = c; delegate = tt })
          []
          offers
        ≡ some (log, record { control = c'; delegate = tt }))
      × (sum (window i n (c'.start_sec / i) 0 log) ≤ limit)
approved_limited limit i n offers {c} made low ordered =
    let (log, c', run, within) =
      window_limited limit i n (payments offers) {c = c} made low ordered in
    (log, c', propose_attempts offers c c' [] log run, within)

pub memorized_once :
    {A : Type 0} (delegate : Approve A) (self : MemoApprover A) (approvals : List Approval)
    (now later : ℕ) (r : Request)
    → any (is_for r) approvals ≡ true
    → (let spent = memorize self [] in
        ((memo_approver delegate).ask (memorize self approvals) now r ≡ some (true, spent))
        × ((memo_approver delegate).ask spent later r ≡ (
            delegate.ask self.delegate later r >>= λ (answer : Bool × A).
            some (answer.0, record { delegate = answer.1; approvals = [] }))))
unfolding memo_approver ask_memo memorize
memorized_once delegate self approvals now later r match = (rw match refl, refl)
