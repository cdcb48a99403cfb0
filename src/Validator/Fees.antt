-- ===== src/Validator/Fees.antt =====
-- The fee of a transaction and the delays, as the validator tests them.
use Prim.Native.String.{String, ◌++◌}
use native.Mathlib.Nat.{add-mul-div_right}
use vls.Prelude.{
  ℕ, ◌+◌, ◌-◌, ◌*◌, ◌/◌, ◌%◌, ◌^◌, ◌≤◌, ◌<◌, ◌≡◌, ap, sym, ◌∙◌, arith, ltb, ltb→le, u64_mod,
  u32_mod, add_u64, mul_u64, ok, ok_or, checked_sub, >>=-eq-ok, >>-eq-ok, ValidationErrorKind, ◌↔◌,
}
use vls.Policy.Laws.{Enforces, policy_err_if-ok, policy_err_if_enforced}
use vls.Validator.{SimplePolicy, estimate_feerate_per_kw, validate_fee, validate_delay}

ok_or-checked_sub :
    (a b : ℕ) {c : ℕ}
    → ok_or ValidationErrorKind.policy (checked_sub a b) ≡ ok c
    → (b ≤ a) × (c ≡ a - b)
unfolding checked_sub
ok_or-checked_sub a b h = ground arith

-- The rate is the exact one, rounded up as the source does, for fees whose product with 1000 fits
-- 64 bits and whose rate fits 32 bits.
pub estimate_feerate_per_kw_lem :
    (fee weight : ℕ)
    → 0 < weight
    → fee * 1000 + 999 < u64_mod
    → (fee * 1000 + 999) / weight < u32_mod
    → estimate_feerate_per_kw fee weight ≡ ok ((fee * 1000 + 999) / weight)
unfolding estimate_feerate_per_kw add_u64 mul_u64
estimate_feerate_per_kw_lem fee weight pos small rate = ground arith

module _ (p : SimplePolicy) (tag : String) (e : Enforces p.filter tag) where
  -- A fee that passes under an enforcing policy: the outputs do not exceed the inputs, and the
  -- rate that the source estimates is between the bounds of the policy.
  pub validate_fee-ok :
      (sum_inputs sum_outputs weight : ℕ)
      → validate_fee p tag sum_inputs sum_outputs weight ≡ ok tt
      → (sum_outputs ≤ sum_inputs)
        × (rate : ℕ) × (estimate_feerate_per_kw (sum_inputs - sum_outputs) weight ≡ ok rate)
        × (p.min_feerate_per_kw ≤ rate)
        × (rate ≤ p.max_feerate_per_kw)
  unfolding validate_fee
  validate_fee-ok sum_inputs sum_outputs weight h =
      let (fee, h1, r1) = >>=-eq-ok _ _ h in
      let (rate, h2, r2) = >>=-eq-ok (estimate_feerate_per_kw fee weight) _ r1 in
      let (h3, h4) = >>-eq-ok _ _ r2 in
      let (covered, is) = ok_or-checked_sub sum_inputs sum_outputs h1 in
      (
        covered,
        rate,
        ap (λ n. estimate_feerate_per_kw n weight) (sym is) ∙ h2,
        ltb→le _ _ (policy_err_if-ok p.filter _ _ e h3),
        ltb→le _ _ (policy_err_if-ok p.filter _ _ e h4),
      )

-- A delay passes under an enforcing policy exactly when it is between the bounds of the policy.
pub validate_delay_iff :
    (p : SimplePolicy) (name : String) (delay : ℕ)
    → Enforces p.filter ("policy-channel-contest-delay-range-" ++ name)
    → (validate_delay p name delay ≡ ok tt) ↔ ((p.min_delay ≤ delay) × (delay ≤ p.max_delay))
unfolding validate_delay
validate_delay_iff p name delay e = ground (
  arith,
  policy_err_if_enforced p.filter (ltb delay p.min_delay) _ e,
  policy_err_if_enforced p.filter (ltb p.max_delay delay) _ e,
)

rate_wraps :
    (fee v : ℕ)
    → 0 < v
    → (((fee + v * 2 ^ 29) * 1000 + 999) / (v * 125)) % u32_mod
      ≡ ((fee * 1000 + 999) / (v * 125)) % u32_mod
rate_wraps fee v pos =
    let more : (fee + v * 2 ^ 29) * 1000 + 999 ≡ fee * 1000 + 999 + 2 ^ 32 * (v * 125) =
      omega arith in
    ap (λ n. (n / (v * 125)) % u32_mod) more
    ∙ ap (λ n. n % u32_mod) (add-mul-div_right (fee * 1000 + 999) (2 ^ 32) (omega arith))
    ∙ omega arith

-- The rate is cut to 32 bits, so a fee that is larger by 2 ^ 29 satoshi for each 125 units of the
-- weight has the same rate, where the product with 1000 fits 64 bits.
pub estimate_feerate_per_kw_wraps :
    (fee v : ℕ)
    → 0 < v
    → (fee + v * 2 ^ 29) * 1000 + 999 < u64_mod
    → estimate_feerate_per_kw (fee + v * 2 ^ 29) (v * 125) ≡ estimate_feerate_per_kw fee (v * 125)
unfolding estimate_feerate_per_kw add_u64 mul_u64
estimate_feerate_per_kw_wraps fee v pos small = ground (arith, rate_wraps fee v pos)
