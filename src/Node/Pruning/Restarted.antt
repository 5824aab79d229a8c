-- ===== src/Node/Pruning/Restarted.antt =====
-- The payments of a node over a restart: what `IsTracked` of Tracked asks, of the state after it.
use mathlib.Core.Path.{subst}
use validating_lightning_sig.Common.{
  ℕ, ◌≡◌, sym, false, none, some, List, [], ◌∷◌, arith, Option-cases, inl, inr,
}
use validating_lightning_sig.Validator.{SimplePolicy}
use validating_lightning_sig.Velocity
use validating_lightning_sig.Velocity.{VelocityControl}
use validating_lightning_sig.Channel.Summary.{Summary, payments_summary, incoming_payments_summary}
use validating_lightning_sig.Node.{NodeState, RoutedPayment, or_zero, lookup, assign, apply}
use validating_lightning_sig.Node.Recorded.{lookup-assign}
use validating_lightning_sig.Node.Restore.{
  to_entry, restore, restore_node, payments_from, preimages_of, lookup-insert_new,
}
use validating_lightning_sig.Node.Restart.{
  StoredChannel, payment_or_new, min_incoming_cltv, max_outgoing_cltv, restore_each,
  restore_payments, restore_channels, restart, new_from_persistence, new_full,
  make_velocity_control, keys, keys_beyond,
}
use validating_lightning_sig.Node.Pruning.{missing}
use validating_lightning_sig.Node.Pruning.Tracked.{IsTracked}

restored-IsTracked :
    (sha256 : List ℕ → ℕ) (s : NodeState)
    → IsTracked s
    → IsTracked (restore_node sha256 (to_entry s))
unfolding restore_node restore to_entry
restored-IsTracked sha256 s tracked = record {
  covered = λ k there.
      ground
        (arith, lookup-insert_new s.invoices (payments_from sha256 [] (preimages_of s.payments)) k);
  timely = tracked.timely;
  issued_timely = tracked.issued_timely;
}

restore_each-keeps :
    (c : StoredChannel) (incoming outgoing : Summary) (hashes : List ℕ)
    (payments : List (ℕ × RoutedPayment)) (k : ℕ)
    → missing (lookup k payments) ≡ false
    → missing (lookup k (restore_each c incoming outgoing hashes payments)) ≡ false
unfolding restore_each
restore_each-keeps c incoming outgoing [] payments k there = there
restore_each-keeps c incoming outgoing (hash ∷ hashes) payments k there =
    let p : RoutedPayment =
      apply (payment_or_new (lookup hash payments)) c.id0 (or_zero (lookup hash incoming))
        (or_zero (lookup hash outgoing)) (min_incoming_cltv c.enforcement_state hash)
        (max_outgoing_cltv c.enforcement_state hash) in
    restore_each-keeps c incoming outgoing hashes (assign hash p payments) k
      (ground (arith, there, lookup-assign hash p payments k))

restore_channels-keeps :
    (channels : List StoredChannel) (payments : List (ℕ × RoutedPayment)) (k : ℕ)
    → missing (lookup k payments) ≡ false
    → missing (lookup k (restore_channels channels payments)) ≡ false
unfolding restore_channels restore_payments
restore_channels-keeps [] payments k there = there
restore_channels-keeps (c ∷ cs) payments k there =
    let incoming = incoming_payments_summary c.enforcement_state none none in
    let outgoing = payments_summary c.enforcement_state none none in
    restore_channels-keeps cs (restore_payments c payments) k (
      restore_each-keeps c incoming outgoing (keys incoming (keys_beyond incoming outgoing))
        payments k there)

pub restart-IsTracked :
    (policy : SimplePolicy) (sha256 : List ℕ → ℕ) (s : NodeState) (channels : List StoredChannel)
    {s' : NodeState}
    → restart policy sha256 (to_entry s) channels ≡ some s'
    → IsTracked s
    → IsTracked s'
unfolding restart new_from_persistence new_full make_velocity_control
restart-IsTracked policy sha256 s channels {s'} done tracked =
    let still = restored-IsTracked sha256 s tracked in
    elim (Option-cases (Velocity.new policy.global_velocity_control)) [
      | inl stuck ↦ absurd (ground arith)
      | inr (control, made) ↦
          let state = restore_node sha256 (to_entry s) in
          let same : s' ≡ record state {
            velocity_control = control;
            payments = restore_channels channels state.payments;
          } =
            ground arith in
          subst IsTracked (sym same) (record {
            covered =
                λ k there. restore_channels-keeps channels state.payments k (still.covered k there);
            timely = still.timely;
            issued_timely = still.issued_timely;
          })
    ]
