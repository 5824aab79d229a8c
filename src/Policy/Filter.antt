-- ===== src/Policy/Filter.antt =====
-- What a filter decides, and what `policy_err!` makes of it.
use Prim.Native.String.{String}
use validating_lightning_sig.Common.{
  Bool, false, ◌≡◌, refl, List, [], ◌∷◌, ◌++◌, arith, any, if◌then◌else◌, err, CannotPanic,
  >>=-CannotPanic, when-CannotPanic, ok-CannotPanic, ok_or-CannotPanic,
}
use validating_lightning_sig.Policy.{
  error, FilterRule, PolicyFilter, rule_matches, first_action, filter, merge, default, policy_err,
  temporary_policy_err, policy_error, temporary_policy_error,
}

abbrev pub covers : PolicyFilter → String → Bool
covers f tag = any (λ rule. rule_matches rule tag) f.rules

first_action-append :
    (xs ys : List FilterRule) (tag : String)
    → first_action (xs ++ ys) tag ≡ (
        if any (λ rule. rule_matches rule tag) xs then first_action xs tag else first_action ys tag)
unfolding first_action
first_action-append [] ys tag = refl
first_action-append (x ∷ xs) ys tag = ground (arith, first_action-append xs ys tag)

-- In a merged filter the rules of the first one take precedence: the second decides only the tags
-- that no rule of the first matches.
pub filter-merge :
    (f g : PolicyFilter) (tag : String)
    → filter (merge f g) tag ≡ (if covers f tag then filter f tag else filter g tag)
unfolding filter merge
filter-merge f g tag = first_action-append f.rules g.rules tag

first_action-uncovered :
    (xs : List FilterRule) (tag : String)
    → any (λ rule. rule_matches rule tag) xs ≡ false
    → first_action xs tag ≡ error
unfolding first_action
first_action-uncovered [] tag h = refl
first_action-uncovered (x ∷ xs) tag h = ground (arith, first_action-uncovered xs tag)

-- A tag that the filter enforces: its violation is an error. That is so of every tag by default.
abbrev pub Enforced : PolicyFilter → String → Type 0
Enforced f tag = filter f tag ≡ error

-- A violation of a tag that no rule of the filter matches is an error.
pub Enforced-uncovered : (f : PolicyFilter) (tag : String) → covers f tag ≡ false → Enforced f tag
unfolding filter
Enforced-uncovered f tag h = first_action-uncovered f.rules tag h

pub policy_err-Enforced :
    (f : PolicyFilter) (tag : String) → Enforced f tag → policy_err f tag ≡ err (policy_error tag)
unfolding policy_err
policy_err-Enforced f tag h = rw (h, policy_err) refl

pub policy_err-CannotPanic : (f : PolicyFilter) (tag : String) → CannotPanic (policy_err f tag)
unfolding policy_err
policy_err-CannotPanic f tag e = ground arith

-- The calls that cannot panic, for `search`.
pub ruleset no_panic =
    (>>=-CannotPanic, when-CannotPanic, ok-CannotPanic, ok_or-CannotPanic, policy_err-CannotPanic)

pub temporary_policy_err-Enforced :
    (f : PolicyFilter) (tag : String)
    → Enforced f tag
    → temporary_policy_err f tag ≡ err (temporary_policy_error tag)
unfolding temporary_policy_err
temporary_policy_err-Enforced f tag h = rw (h, temporary_policy_err) refl

pub Enforced-default : (tag : String) → Enforced default tag
unfolding filter first_action
Enforced-default tag = refl

-- A filter that demotes nothing.
abbrev pub Strict : PolicyFilter → Type 0
Strict f = (tag : String) → Enforced f tag
