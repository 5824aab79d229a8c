-- ===== src/Policy/Tests.antt =====
-- The filter on concrete rules.
use validating_lightning_sig.Common.{◌≡◌, refl, true, false, [], ◌∷◌}
use validating_lightning_sig.Policy.{
  PolicyFilter, error, warn, filter, merge, rule_matches, first_action,
}

abbrev lenient : PolicyFilter
lenient = record { rules = record { tag = "policy-fee"; is_prefix = true; action = warn } ∷ [] }

abbrev rules : PolicyFilter
rules = record {
  rules = record { tag = "policy-fee-range"; is_prefix = false; action = error } ∷ [];
}

prefix_test : filter (merge rules lenient) "policy-fee-other" ≡ warn
unfolding filter merge first_action rule_matches
prefix_test = refl
