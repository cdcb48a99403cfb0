-- ===== src/Validator/Revoked.antt =====
-- The counterparty's revocations and commitments as the validator accepts them.
use vls.Prelude.{
  ℕ, ◌+◌, ◌<◌, ◌≡◌, ◌⊎◌, Option, some, none, false, List, arith, add_u64_eq, ok, >>-eq-ok,
}
use vls.Policy.Laws.{policy_err_if-ok}
use vls.Enforcement.{EnforcementState, get_previous_counterparty_point}
use vls.Enforcement.Numbers.{Progression, num_end}
use vls.Enforcement.History.{History, Signed, signed_point, get_previous_counterparty_point_lem}
use vls.Validator.{SimplePolicy}
use vls.Validator.Commitment.{validate_counterparty_revocation, point_differs}

pub point_differs-false :
    (point : ℕ) (o : Option ℕ) → point_differs point o ≡ false → o ≡ some point
point_differs-false point none h = cc
point_differs-false point (some prev) h = ground arith

module _ (p : SimplePolicy) (public_key : ℕ → ℕ) (g : Progression p.filter) where
  pub validate_counterparty_revocation-ok :
      (s : EnforcementState) (num secret : ℕ)
      → num < num_end
      → validate_counterparty_revocation p public_key s num secret ≡ ok tt
      → ((num ≡ s.next_counterparty_revoke_num) ⊎ (num + 1 ≡ s.next_counterparty_revoke_num))
        × (get_previous_counterparty_point s num ≡ some (public_key secret))
  unfolding validate_counterparty_revocation
  validate_counterparty_revocation-ok s num secret small h =
      let (h1, h2) = >>-eq-ok _ _ h in
      let e1 = policy_err_if-ok p.filter _ _ g.previous_revoked h1 in
      (
        ground (arith, e1, add_u64_eq num 1),
        point_differs-false _ _ (policy_err_if-ok p.filter _ _ g.previous_revoked h2),
      )

  -- In every history under an enforcing policy, a revocation that passes is of the commitment
  -- that is to be revoked next or of the one before, and its secret is that of the point with
  -- which that commitment was signed.
  pub validate_counterparty_revocation-History :
      {log : List Signed} {s : EnforcementState} (num secret : ℕ)
      → History p.filter log s
      → num < num_end
      → validate_counterparty_revocation p public_key s num secret ≡ ok tt
      → ((num ≡ s.next_counterparty_revoke_num) ⊎ (num + 1 ≡ s.next_counterparty_revoke_num))
        × (signed_point num log ≡ some (public_key secret))
  validate_counterparty_revocation-History {s = s} num secret r small h =
      let (which, is) = validate_counterparty_revocation-ok s num secret small h in
      let known = get_previous_counterparty_point_lem p.filter g num r (omega arith) in
      (which, ground (arith, is, known))
