-- ===== src/Tracker/Watches.antt =====
-- The outpoints that a listener watches: `ListenSlot` of vls-core/src/chain/tracker.rs, and what
-- `notify_listeners_add` and `notify_listeners_remove` do to it. A set is its membership test.
use validating_lightning_sig.Common.{ℕ, ◌≡◌, Bool, true, false, not, ◌&&◌, ◌||◌, List, arith, any}
use validating_lightning_sig.Channel.{OutPoint}
use validating_lightning_sig.Channel.Equality.{outpoint_eq}

abbrev pub WatchSet : Type 0
WatchSet = OutPoint → Bool

pub record ListenSlot : Type 0 where
  pub txid_watches : List ℕ
  pub watches : WatchSet
  pub seen : WatchSet

unfoldable pub contains : List OutPoint → WatchSet
unfolding outpoint_eq
contains os o = any (outpoint_eq o) os

unfoldable pub extend : WatchSet → List OutPoint → WatchSet
unfolding contains
extend w os o = contains os o || w o

unfoldable pub subtract : WatchSet → List OutPoint → WatchSet
unfolding contains
subtract w os o = not (contains os o) && w o

unfoldable pub slot_add : ListenSlot → List OutPoint → List OutPoint → ListenSlot
unfolding extend subtract
slot_add slot adds removes = record slot {
  watches = subtract (extend slot.watches adds) removes;
  seen = extend slot.seen removes;
}

unfoldable pub slot_remove : ListenSlot → List OutPoint → List OutPoint → ListenSlot
unfolding extend subtract
slot_remove slot adds removes = record slot {
  watches = subtract (extend slot.watches removes) adds;
  seen = subtract slot.seen removes;
}

pub slot_remove-slot_add :
    (slot : ListenSlot) (adds removes : List OutPoint) (o : OutPoint)
    → (contains removes o ≡ true → slot.watches o ≡ true)
    → (contains adds o ≡ true → slot.watches o ≡ false)
    → (contains removes o ≡ true → slot.seen o ≡ false)
    → (let back = slot_remove (slot_add slot adds removes) adds removes in
        (back.watches o ≡ slot.watches o) × (back.seen o ≡ slot.seen o))
unfolding slot_add slot_remove extend subtract
slot_remove-slot_add slot adds removes o watched fresh unseen =
    (ground (arith, watched, fresh), ground (arith, unseen))
