-- ===== src/Policy/Tests.antt =====
-- The rules of a filter at concrete tags.
use vls.Prelude.{◌≡◌, refl, [], ◌∷◌, if◌then◌else◌}
use vls.Policy.{FilterResult, PolicyFilter, new_warn, new_permissive, default_filter, merge, filter}
use vls.Policy.Laws.{covers, filter-merge}

abbrev dev_filter : PolicyFilter
dev_filter = record { rules = new_warn "policy-channel-safe-mode" ∷ [] }

merged_warns :
    filter (merge dev_filter default_filter) "policy-channel-safe-mode" ≡ FilterResult.warn
unfolding filter merge new_warn
merged_warns = refl

merged_errs : filter (merge dev_filter default_filter) "policy-other" ≡ FilterResult.error
unfolding filter merge new_warn
merged_errs = refl

filter-merge_example : filter (merge dev_filter new_permissive) "policy-other" ≡ (
    if covers dev_filter.rules "policy-other"
    then filter dev_filter "policy-other"
    else filter new_permissive "policy-other")
filter-merge_example = filter-merge dev_filter new_permissive "policy-other"
