-- ===== src/Policy.antt =====
-- vls-core/src/policy/filter.rs, error.rs and mod.rs: policy violations, and the filter that demotes
-- some of them to warnings. Messages, logs and backtraces are not modelled.
pub mod Filter
mod Tests
use Prim.Native.String.{String}
use text.Mathlib.Text.{◌==◌ as str_eq, starts_with}
use validating_lightning_sig.Common.{
  ℕ, Bool, true, false, List, [], ◌∷◌, ◌++◌, if◌then◌else◌, Outcome, ok, err,
}

pub data FilterResult : Type 0 where
  error warn : FilterResult

pub record FilterRule : Type 0 where
  pub tag : String
  pub is_prefix : Bool
  pub action : FilterResult

pub record PolicyFilter : Type 0 where
  pub rules : List FilterRule

new_warn : String → FilterRule
new_warn tag = record { tag = tag; is_prefix = false; action = warn }

new_error : String → FilterRule
new_error tag = record { tag = tag; is_prefix = false; action = error }

pub rule_matches : FilterRule → String → Bool
rule_matches rule tag = if rule.is_prefix then starts_with tag rule.tag else str_eq tag rule.tag

first_action : List FilterRule → String → FilterResult
unfolding rule_matches
first_action [] tag = error
first_action (rule ∷ rules) tag =
    if rule_matches rule tag then rule.action else first_action rules tag

pub filter : PolicyFilter → String → FilterResult
filter self tag = first_action self.rules tag

pub new_permissive : PolicyFilter
new_permissive = record { rules = record { tag = ""; is_prefix = true; action = warn } ∷ [] }

pub merge : PolicyFilter → PolicyFilter → PolicyFilter
merge self other = record { rules = self.rules ++ other.rules }

abbrev pub default : PolicyFilter
default = record { rules = [] }

pub data ValidationErrorKind : Type 0 where
  transaction_format script_format mismatch policy temporary_policy : ValidationErrorKind
  unknown_destinations : List ℕ → ValidationErrorKind

pub record ValidationError : Type 0 where
  pub tag : String
  pub kind : ValidationErrorKind

abbrev pub policy_error : String → ValidationError
policy_error tag = record { tag = tag; kind = policy }

abbrev pub temporary_policy_error : String → ValidationError
temporary_policy_error tag = record { tag = tag; kind = temporary_policy }

-- Whatever tag the caller names, the error carries this one.
abbrev pub transaction_format_error : ValidationError
transaction_format_error = record { tag = "policy-commitment-scripts"; kind = transaction_format }

abbrev pub unknown_destinations_error : List ℕ → ValidationError
unknown_destinations_error unknowns = record {
  tag = "policy-onchain-no-unknown-outputs";
  kind = unknown_destinations unknowns;
}

abbrev pub Validated : Type 0 → Type 0
Validated = Outcome ValidationError

-- `policy_error_with_filter`, which the macro `policy_err!` calls and leaves by on an error.
pub policy_err : PolicyFilter → String → Validated (Unit {0})
policy_err f tag = elim (filter f tag) [ error ↦ err (policy_error tag) | warn ↦ ok tt ]

-- `temporary_policy_error_with_filter`, behind the macro `temporary_policy_err!`.
pub temporary_policy_err : PolicyFilter → String → Validated (Unit {0})
temporary_policy_err f tag = elim (filter f tag) [
  | error ↦ err (temporary_policy_error tag)
  | warn ↦ ok tt
]
