-- ===== src/Policy.antt =====
-- vls-core/src/policy/filter.rs and the two functions of vls-core/src/policy/mod.rs that turn a
-- violation into an error or, as the filter says, into a warning. Log lines are left out.
pub mod Laws
mod Tests
use Prim.Native.String.{String}
use text.Mathlib.Text.{◌==◌, starts_with}
use vls.Prelude.{
  Bool, true, false, List, [], ◌∷◌, ◌++◌, if◌then◌else◌, Outcome, ok, err, ValidationErrorKind,
}

pub data FilterResult : Type 0 where
  error warn : FilterResult

pub record FilterRule : Type 0 where
  pub tag : String
  pub is_prefix : Bool
  pub action : FilterResult

unfoldable pub new_warn : String → FilterRule
new_warn tag = record { tag = tag; is_prefix = false; action = FilterResult.warn }

unfoldable pub new_error : String → FilterRule
new_error tag = record { tag = tag; is_prefix = false; action = FilterResult.error }

pub record PolicyFilter : Type 0 where
  pub rules : List FilterRule

-- The test that `filter` makes of each rule.
unfoldable pub rule_matches : FilterRule → String → Bool
rule_matches rule tag = if rule.is_prefix then starts_with tag rule.tag else tag == rule.tag

unfoldable pub filter_rules : List FilterRule → String → FilterResult
unfolding rule_matches
filter_rules [] tag = FilterResult.error
filter_rules (rule ∷ rules) tag =
    if rule_matches rule tag then rule.action else filter_rules rules tag

unfoldable pub filter : PolicyFilter → String → FilterResult
unfolding filter_rules
filter f tag = filter_rules f.rules tag

unfoldable pub new_permissive : PolicyFilter
new_permissive = record {
  rules = record { tag = ""; is_prefix = true; action = FilterResult.warn } ∷ [];
}

unfoldable pub merge : PolicyFilter → PolicyFilter → PolicyFilter
merge f other = record { rules = f.rules ++ other.rules }

-- `PolicyFilter::default`
abbrev pub default_filter : PolicyFilter
default_filter = record { rules = [] }

abbrev pub demote : FilterResult → ValidationErrorKind → Outcome (Unit {0})
demote FilterResult.error kind = err kind
demote FilterResult.warn kind = ok tt

unfoldable pub policy_error_with_filter : String → PolicyFilter → Outcome (Unit {0})
policy_error_with_filter tag f = demote (filter f tag) ValidationErrorKind.policy

unfoldable pub temporary_policy_error_with_filter : String → PolicyFilter → Outcome (Unit {0})
temporary_policy_error_with_filter tag f =
    demote (filter f tag) ValidationErrorKind.temporary_policy

-- `if violated { policy_err!(...) }`: what the validators write at each of their checks.
unfoldable pub policy_err_if : PolicyFilter → Bool → String → Outcome (Unit {0})
policy_err_if f violated tag = if violated then policy_error_with_filter tag f else ok tt
