-- ===== src/Approver/Tests.antt =====
-- Approvers on concrete payments: a control of 100 in three buckets of ten seconds.
use validating_lightning_sig.Common.{
  ℕ, ◌/◌, ◌≤◌, ◌≡◌, refl, true, false, some, List, [], ◌∷◌, arith,
}
use validating_lightning_sig.Velocity.{VelocityControl, new_with_intervals}
use validating_lightning_sig.Velocity.Window.{Payment, window}
use validating_lightning_sig.Velocity.Refines.{sum}
use validating_lightning_sig.Approver.{
  Request, invoice, negative_approver, Approval, invoice_approval, keysend_approval, MemoApprover,
  memorize, memo_approver,
}
use validating_lightning_sig.Approver.Limited.{
  Offer, by_invoice, by_keysend, propose, approved_limited,
}

abbrev control : VelocityControl
control = record { start_sec = 0; bucket_interval = 10; buckets = 0 ∷ 0 ∷ 0 ∷ []; limit = 100 }

abbrev offers : List (ℕ × Offer)
offers =
    (0, by_invoice (record { invoice_hash = 1; amount_milli_satoshis = 60 }))
    ∷ (5, by_keysend 2 60)
    ∷ (40, by_keysend 3 90)
    ∷ []

made : new_with_intervals 100 10 3 ≡ some control
unfolding new_with_intervals
made = refl

approved_limited_example :
    (log : List Payment) × (c' : VelocityControl) × (propose
        (record { control = control; delegate = tt })
        []
        offers
      ≡ some (log, record { control = c'; delegate = tt }))
    × (sum (window 10 3 (c'.start_sec / 10) 0 log) ≤ 100)
approved_limited_example = approved_limited 100 10 3 offers made (omega arith) (omega arith)

abbrev memo : MemoApprover (Unit {0})
memo = record { delegate = tt; approvals = [] }

abbrev approvals : List Approval
approvals =
    keysend_approval 2 60
    ∷ invoice_approval (record { invoice_hash = 1; amount_milli_satoshis = 60 })
    ∷ []

abbrev paid : Request
paid = invoice (record { invoice_hash = 1; amount_milli_satoshis = 60 })

-- The memorized approval serves once.
approved_once :
    (memo_approver negative_approver).ask (memorize memo approvals) 5 paid ≡ some (true, memo)
unfolding memo_approver memorize
approved_once = refl

asked_again : (memo_approver negative_approver).ask memo 9 paid ≡ some (false, memo)
unfolding memo_approver negative_approver
asked_again = refl
