-- ===== src/Node/Pruning/Tests.antt =====
-- Invoices that are added, pruned, stored and read back.
use validating_lightning_sig.Common.{
  ℕ, ◌-◌, ◌≡◌, refl, true, not, ◌&&◌, none, some, List, [], ◌∷◌, arith, length, replicate, ok,
  u64_max,
}
use validating_lightning_sig.Samples.{policy}
use validating_lightning_sig.Velocity.{
  VelocityControl, insert, advance, shift, record_velocity, add_first, velocity, velocity_from,
  is_unlimited, push_zeros,
}
use validating_lightning_sig.Node.{NodeState, lookup, assign, new}
use validating_lightning_sig.Node.Apply.{ensure}
use validating_lightning_sig.Node.Restore.{
  IsKeyed, has_preimage, is_some, restore_node, to_entry, restored_preimages,
}
use validating_lightning_sig.Velocity
use validating_lightning_sig.Node.Invoices.{
  Invoice, secs, duration_end, add_invoice, add_payment, enter, validate_invoice,
  payment_state_from_invoice,
}
use validating_lightning_sig.Node.Pruning.{prune_all}
use validating_lightning_sig.Node.Pruning.FarExpiry.{far_expiry_panics}

abbrev control : VelocityControl
control = record {
  start_sec = 0;
  bucket_interval = 300;
  buckets = replicate 12 0;
  limit = 1_000_000;
}

abbrev empty : NodeState
empty = record {
  invoices = [];
  issued_invoices = [];
  payments = [];
  excess_amount = 0;
  velocity_control = control;
}

abbrev inv : Invoice
inv = record {
  payment_hash = 5;
  invoice_hash = 6;
  amount_milli_satoshis = 1000;
  payee_pub_key = 7;
  duration_since_epoch = secs 900;
  expiry_duration = secs 3600;
}

abbrev sha256 : List ℕ → ℕ
sha256 bytes = length bytes

abbrev added : NodeState
added = (add_invoice policy empty (secs 1000) inv).1

-- The HTLC that is pending for the invoice is a payment again; the velocity control is a new one.
abbrev restarted_state : NodeState
restarted_state = record {
  invoices = (5, payment_state_from_invoice inv) ∷ [];
  issued_invoices = [];
  payments =
      (
        5,
        record {
          incoming = (1, 0) ∷ [];
          outgoing = (1, 10_000) ∷ [];
          incoming_cltv_min = some 300;
          outgoing_cltv_max = some 300;
          preimage = none;
        },
      )
      ∷ [];
  excess_amount = 0;
  velocity_control = record control { limit = u64_max };
}

-- It expires a minute and a second before the end.
abbrev far : Invoice
far = record inv { expiry_duration = duration_end - secs 961 }

abbrev far_added : NodeState
far_added = record empty {
  invoices = (5, payment_state_from_invoice far) ∷ [];
  payments = (5, new) ∷ [];
  velocity_control = record control { buckets = 1000 ∷ replicate 11 0; start_sec = 900 };
}

far_is_added : add_invoice policy empty (secs 1000) far ≡ (ok true, far_added)
unfolding add_invoice add_payment enter validate_invoice payment_state_from_invoice lookup assign
    ensure new insert advance shift record_velocity add_first velocity velocity_from is_unlimited
    push_zeros
far_is_added = refl

fresh : lookup 5 empty.invoices ≡ none
unfolding lookup
fresh = refl

far_expiry_panics_example : prune_all far_added (secs 2000) ≡ none
far_expiry_panics_example =
    far_expiry_panics policy empty (secs 1000) far fresh far_is_added (omega arith) (secs 2000)

-- The payment for the hash 3 is made, and has a preimage of three bytes.
abbrev paid : NodeState
paid = record empty {
  invoices = (3, payment_state_from_invoice inv) ∷ [];
  payments =
      (
        3,
        record {
          incoming = [];
          outgoing = [];
          incoming_cltv_min = none;
          outgoing_cltv_max = none;
          preimage = some (1 ∷ 2 ∷ 3 ∷ []);
        },
      )
      ∷ [];
}

paid-IsKeyed : IsKeyed sha256 paid.payments
unfolding lookup
paid-IsKeyed = (refl, (λ preimage e. ground arith), tt)

restored_preimages_example :
    has_preimage (restore_node sha256 (to_entry paid)) 3
    ≡ (has_preimage paid 3 && not (is_some (lookup 3 paid.invoices)))
restored_preimages_example = restored_preimages sha256 3 paid paid-IsKeyed
