-- ===== src/Node/Totals.antt =====
-- What `updated_incoming_outgoing` foretells is what `apply` records: vls-core/src/node.rs.
use validating_lightning_sig.Common.{
  ℕ, ◌+◌, ◌<◌, ◌≡◌, refl, Option, List, [], ◌∷◌, arith, u64_mod, u64_add, u64_sub,
}
use validating_lightning_sig.Node.{
  RoutedPayment, lookup, assign, or_zero, values_sum, updated_incoming_outgoing, incoming_outgoing,
  apply,
}

-- The sum without a wrap.
unfoldable pub total : List (ℕ × ℕ) → ℕ
total [] = 0
total ((k, v) ∷ m) = v + total m

sum_total : (m : List (ℕ × ℕ)) → total m < u64_mod → values_sum m ≡ total m
unfolding total values_sum
sum_total [] low = refl
sum_total ((k, v) ∷ m) low = omega (arith, sum_total m (omega arith))

total-assign :
    (key value : ℕ) (m : List (ℕ × ℕ))
    → total (assign key value m) + or_zero (lookup key m) ≡ total m + value
unfolding total assign lookup
total-assign key value [] = omega arith
total-assign key value ((k, v) ∷ m) = ground (arith, total-assign key value m)

side :
    (m : List (ℕ × ℕ)) (key value : ℕ)
    → total m + value < u64_mod
    → values_sum (assign key value m)
      ≡ u64_sub (u64_add (values_sum m) value) (or_zero (lookup key m))
side m key value low =
    let e = total-assign key value m in
    let e₁ = sum_total (assign key value m) (omega arith) in
    let e₂ = sum_total m (omega arith) in omega arith

pub incoming_outgoing-apply :
    (p : RoutedPayment) (channel_id incoming_sat outgoing_sat : ℕ)
    (incoming_cltv outgoing_cltv : Option ℕ)
    → total p.incoming + incoming_sat < u64_mod
    → total p.outgoing + outgoing_sat < u64_mod
    → incoming_outgoing (apply p channel_id incoming_sat outgoing_sat incoming_cltv outgoing_cltv)
      ≡ updated_incoming_outgoing p channel_id incoming_sat outgoing_sat
unfolding incoming_outgoing apply updated_incoming_outgoing
incoming_outgoing-apply p channel_id i o incoming_cltv outgoing_cltv low low' =
    rw (side p.incoming channel_id i low) (rw (side p.outgoing channel_id o low') refl)
