-- ===== src/Node/Restart.antt =====
-- The restart of a node: `Node::restore_node` of vls-core/src/node.rs with the part of
-- `new_from_persistence` and `new_full` that changes the node's state, and `restore_payments` of
-- channel.rs for every ready channel. The channels are in the order in which they are stored; the set
-- of hashes is a list.
use validating_lightning_sig.Common.{ℕ, ◌≡◌, refl, Option, none, some, List, [], ◌∷◌, if◌then◌else◌}
use validating_lightning_sig.Common.Panics.{◌>>=◌}
use validating_lightning_sig.Channel.Enforcement.{EnforcementState}
use validating_lightning_sig.Channel.Summary.{
  Summary, contains_key, htlcs_of, payments_summary, incoming_payments_summary,
}
use validating_lightning_sig.Velocity
use validating_lightning_sig.Velocity.{
  VelocityControl, VelocityControlIntervalType, hourly, daily, unlimited, interval_triple,
  spec_to_triple, new_with_intervals,
}
use validating_lightning_sig.Validator.{SimplePolicy}
use validating_lightning_sig.Node.{NodeState, RoutedPayment, or_zero, lookup, assign, apply, new}
use validating_lightning_sig.Node.Apply.{min_cltv, max_cltv}
use validating_lightning_sig.Node.Restore.{NodeStateEntry, restore_node}

-- What is read of a ready channel.
pub record StoredChannel : Type 0 where
  pub id0 : ℕ
  pub enforcement_state : EnforcementState

abbrev pub or_else : Option ℕ → Option ℕ → Option ℕ
or_else none other = other
or_else (some a) other = some a

abbrev pub payment_or_new : Option RoutedPayment → RoutedPayment
payment_or_new none = new
payment_or_new (some p) = p

-- The keys of both summaries, each once.
unfoldable pub keys_beyond : Summary → Summary → List ℕ
unfolding contains_key
keys_beyond seen [] = []
keys_beyond seen ((hash, v) ∷ summary) =
    let rest = keys_beyond seen summary in if contains_key hash seen then rest else hash ∷ rest

unfoldable pub keys : Summary → List ℕ → List ℕ
keys [] more = more
keys ((hash, v) ∷ summary) more = hash ∷ keys summary more

-- The earliest expiry of what comes in with a hash, in the holder's commitment or else the
-- counterparty's, and the latest of what goes out.
unfoldable pub min_incoming_cltv : EnforcementState → ℕ → Option ℕ
unfolding min_cltv
min_incoming_cltv self hash =
    or_else (min_cltv hash (htlcs_of (λ i. i.received_htlcs) self.current_holder_commit_info))
      (min_cltv hash (htlcs_of (λ i. i.offered_htlcs) self.current_counterparty_commit_info))

unfoldable pub max_outgoing_cltv : EnforcementState → ℕ → Option ℕ
unfolding max_cltv
max_outgoing_cltv self hash =
    or_else (max_cltv hash (htlcs_of (λ i. i.offered_htlcs) self.current_holder_commit_info))
      (max_cltv hash (htlcs_of (λ i. i.received_htlcs) self.current_counterparty_commit_info))

unfoldable pub restore_each :
    StoredChannel → Summary → Summary → List ℕ → List (ℕ × RoutedPayment) → List (ℕ × RoutedPayment)
unfolding lookup assign apply new min_incoming_cltv max_outgoing_cltv
restore_each self incoming outgoing [] payments = payments
restore_each self incoming outgoing (hash ∷ hashes) payments =
    restore_each self incoming outgoing hashes (
      assign hash
        (apply (payment_or_new (lookup hash payments)) self.id0 (or_zero (lookup hash incoming))
          (or_zero (lookup hash outgoing)) (min_incoming_cltv self.enforcement_state hash)
          (max_outgoing_cltv self.enforcement_state hash))
        payments)

unfoldable pub restore_payments :
    StoredChannel → List (ℕ × RoutedPayment) → List (ℕ × RoutedPayment)
unfolding restore_each keys keys_beyond payments_summary incoming_payments_summary
restore_payments self payments =
    let incoming = incoming_payments_summary self.enforcement_state none none in
    let outgoing = payments_summary self.enforcement_state none none in
    restore_each self incoming outgoing (keys incoming (keys_beyond incoming outgoing)) payments

unfoldable pub restore_channels :
    List StoredChannel → List (ℕ × RoutedPayment) → List (ℕ × RoutedPayment)
unfolding restore_payments
restore_channels [] payments = payments
restore_channels (c ∷ cs) payments = restore_channels cs (restore_payments c payments)

unfoldable pub make_velocity_control : SimplePolicy → Option VelocityControl
make_velocity_control policy = Velocity.new policy.global_velocity_control

abbrev pub with_log_prefix : NodeState → VelocityControl → NodeState
with_log_prefix self velocity_control = record self { velocity_control = velocity_control }

-- The velocity control is made afresh from the policy, whatever was stored.
unfoldable pub new_full : SimplePolicy → NodeState → Option NodeState
unfolding make_velocity_control
new_full policy state = make_velocity_control policy >>= λ global_velocity_control.
    some (with_log_prefix state global_velocity_control)

unfoldable pub new_from_persistence :
    SimplePolicy → NodeState → List StoredChannel → Option NodeState
unfolding new_full restore_channels
new_from_persistence policy state channels = new_full policy state >>= λ node.
    some (record node { payments = restore_channels channels node.payments })

unfoldable pub restart :
    SimplePolicy → (List ℕ → ℕ) → NodeStateEntry → List StoredChannel → Option NodeState
unfolding restore_node new_from_persistence
restart policy sha256 entry channels =
    new_from_persistence policy (restore_node sha256 entry) channels

-- Every interval has buckets, so the control can be made.
made_control :
    (limit_msat : ℕ) (interval_type : VelocityControlIntervalType)
    → (control : VelocityControl) × (Velocity.new
          (record { limit_msat = limit_msat; interval_type = interval_type })
        ≡ some control)
unfolding Velocity.new spec_to_triple interval_triple new_with_intervals
made_control limit_msat hourly = (_, refl)
made_control limit_msat daily = (_, refl)
made_control limit_msat unlimited = (_, refl)

pub restart-returns :
    (policy : SimplePolicy) (sha256 : List ℕ → ℕ) (entry : NodeStateEntry)
    (channels : List StoredChannel)
    → (s : NodeState) × (restart policy sha256 entry channels ≡ some s)
unfolding restart new_from_persistence new_full make_velocity_control
restart-returns policy sha256 entry channels =
    let spec = policy.global_velocity_control in
    let (control, made) = made_control spec.limit_msat spec.interval_type in
    let node = with_log_prefix (restore_node sha256 entry) control in
    (record node { payments = restore_channels channels node.payments }, rw made refl)
