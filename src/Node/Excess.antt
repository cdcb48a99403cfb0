-- ===== src/Node/Excess.antt =====
-- The excess of a node over commitments, and preimages that come twice.
use vls.Prelude.{
  subst, ℕ, ◌+◌, ◌≡◌, ap, Bool, false, if◌then◌else◌, Option, some, arith, inl, inr, Option-cases,
  ok, >>=-eq-ok, >>-eq-ok, if-eq-ok, ok_inj, checked_add, checked_sub,
}
use vls.Prelude.Maps.{get, get-put}
use vls.Policy.{policy_err_if}
use vls.Enforcement.Summary.{Summary, BalanceDelta}
use vls.Validator.{SimplePolicy}
use vls.Node.{RoutedPayment, NodeState, payment_fulfilled}
use vls.Node.Payments.{
  any_unbalanced, hashes_of, new_excess, validate_payments, adjust_excess, apply_payments,
  htlc_fulfilled, fulfilled_excess, create, mark_fulfilled, apply_all,
}

module _ (p : SimplePolicy) (channel_id : ℕ) (incoming outgoing : Summary) where
  new_excess_eq :
      (n : NodeState) (delta : BalanceDelta) (e : Option ℕ) (excess : ℕ)
      → new_excess p channel_id incoming outgoing n delta ≡ ok e
      → e ≡ some excess
      → excess + delta.before ≡ n.excess_amount + delta.after
  unfolding new_excess checked_add checked_sub
  new_excess_eq n delta e excess h is = ground arith

  -- Where a commitment passes the check of its payments, applying them succeeds; and the new excess
  -- and the balance before are together the old excess and the balance after, if the policy
  -- enforces balances, and otherwise the excess is unchanged.
  pub validate-apply_payments :
      (n : NodeState) (delta : BalanceDelta)
      → validate_payments p channel_id incoming outgoing n delta ≡ ok tt
      → (n' : NodeState) × (apply_payments p channel_id incoming outgoing n delta ≡ ok n')
        × (if p.enforce_balance
            then n'.excess_amount + delta.before ≡ n.excess_amount + delta.after
            else n'.excess_amount ≡ n.excess_amount)
  unfolding validate_payments apply_payments adjust_excess
  validate-apply_payments n delta valid =
      let hashes = hashes_of incoming outgoing in
      let created = create p channel_id incoming outgoing hashes n.payments in
      let marked = mark_fulfilled p channel_id incoming outgoing n hashes created in
      let (passed, rest) =
        >>-eq-ok
          (policy_err_if p.filter (any_unbalanced p channel_id incoming outgoing n hashes)
            "policy-commitment-htlc-routing-balance")
          _ valid in
      elim (if-eq-ok p.enforce_balance _ _ rest) [
        | inl (on, enforced) ↦
            let (e, computed, above) =
              >>=-eq-ok (new_excess p channel_id incoming outgoing n delta) _ enforced in
            elim (Option-cases e) [
              | inl below ↦ absurd (ground (arith, below, above))
              | inr (excess, is) ↦ (
                record n {
                  payments = apply_all p channel_id incoming outgoing hashes marked;
                  excess_amount = excess;
                },
                ground (arith, on, computed, is),
                ground (arith, on, new_excess_eq n delta e excess computed is),
              )
            ]
        | inr (off, done) ↦ (
          record n { payments = apply_all p channel_id incoming outgoing hashes created },
          ground (arith, off),
          ground (arith, off),
        )
      ]

-- A preimage that comes a second time changes nothing.
pub htlc_fulfilled_again :
    (p : SimplePolicy) (hash : ℕ → ℕ) (n n' : NodeState) (preimage : ℕ) (first : Bool)
    → htlc_fulfilled p hash n preimage ≡ ok (n', first)
    → htlc_fulfilled p hash n' preimage ≡ ok (n', false)
unfolding htlc_fulfilled
htlc_fulfilled_again p hash n n' preimage first h =
    let Again : NodeState → Type 0 = λ m. htlc_fulfilled p hash m preimage ≡ ok (m, false) in
    elim (Option-cases (get n.payments (hash preimage))) [
      | inl missing ↦
          subst Again (ap (λ r. r.0) (ok_inj (rw (missing) at h))) (ground (arith, missing))
      | inr (payment, present) ↦
          elim (if-eq-ok (payment_fulfilled payment) _ _ (rw (present) at h)) [
            | inl (duplicate, same) ↦
                subst Again (ap (λ r. r.0) (ok_inj same)) (ground (arith, present, duplicate))
            | inr (new, changed) ↦
                let (excess, adjusted, made) =
                  >>=-eq-ok (fulfilled_excess p hash n (hash preimage) payment) _ changed in
                let marked : RoutedPayment = record payment { preimage = some preimage } in
                subst Again (ap (λ r. r.0) (ok_inj made))
                  (ground (arith, get-put (hash preimage) marked n.payments (hash preimage)))
          ]
    ]
