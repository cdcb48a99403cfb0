-- ===== src/Policy/Laws.antt =====
-- The order of the rules of a policy filter, and what a check that passed says.
use Prim.Native.String.{String}
use text.Mathlib.Text.{starts_with}
use text.Mathlib.TextLemmas.{nil-append}
use text.Mathlib.TextPositions.{starts_with-append}
use vls.Prelude.{
  ◌≡◌, refl, Bool, true, false, ◌||◌, List, [], ◌∷◌, ◌++◌, if◌then◌else◌, arith, ok, panic, ◌≢◌,
  err, ValidationErrorKind,
}
use vls.Policy.{
  FilterResult, FilterRule, PolicyFilter, rule_matches, filter_rules, filter, new_permissive, merge,
  policy_error_with_filter, policy_err_if,
}

-- Whether some rule is about the tag.
abbrev pub covers : List FilterRule → String → Bool
covers [] tag = false
covers (rule ∷ rules) tag = rule_matches rule tag || covers rules tag

filter_rules-append :
    (rules others : List FilterRule) (tag : String)
    → filter_rules (rules ++ others) tag
      ≡ (if covers rules tag then filter_rules rules tag else filter_rules others tag)
unfolding filter_rules
filter_rules-append [] others tag = refl
filter_rules-append (rule ∷ rules) others tag = ground (arith, filter_rules-append rules others tag)

-- The rules of a filter take precedence over those of a filter that is merged into it: the other
-- filter decides exactly on the tags that no rule of the first is about.
pub filter-merge :
    (f other : PolicyFilter) (tag : String)
    → filter (merge f other) tag ≡ (if covers f.rules tag then filter f tag else filter other tag)
unfolding filter merge
filter-merge f other tag = filter_rules-append f.rules other.rules tag

starts_with_nil : (tag : String) → starts_with tag "" ≡ true
starts_with_nil tag = rw (nil-append tag) at (starts_with-append String.[] tag)

-- The permissive filter demotes every violation to a warning.
pub filter-new_permissive : (tag : String) → filter new_permissive tag ≡ FilterResult.warn
unfolding filter new_permissive
filter-new_permissive tag = ground (arith, starts_with_nil tag)

-- The filter treats violations of this tag as errors.
abbrev pub Enforces : PolicyFilter → String → Type 0
Enforces f tag = filter f tag ≡ FilterResult.error

pub policy_err_if-ok :
    (f : PolicyFilter) (violated : Bool) (tag : String)
    → Enforces f tag
    → policy_err_if f violated tag ≡ ok tt
    → violated ≡ false
unfolding policy_err_if policy_error_with_filter
policy_err_if-ok f violated tag e h = ground arith

-- Under an enforcing filter a check is an error exactly when it is violated.
pub policy_err_if_enforced :
    (f : PolicyFilter) (violated : Bool) (tag : String)
    → Enforces f tag
    → policy_err_if f violated tag ≡ (if violated then err ValidationErrorKind.policy else ok tt)
unfolding policy_err_if policy_error_with_filter
policy_err_if_enforced f violated tag e = ground arith

pub policy_err_if-false : (f : PolicyFilter) (tag : String) → policy_err_if f false tag ≡ ok tt
unfolding policy_err_if
policy_err_if-false f tag = refl

pub policy_err_if-ne-panic :
    (f : PolicyFilter) (violated : Bool) (tag : String) → policy_err_if f violated tag ≢ panic
unfolding policy_err_if policy_error_with_filter
policy_err_if-ne-panic f violated tag = ground arith
