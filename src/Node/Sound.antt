-- ===== src/Node/Sound.antt =====
-- What it is for a node's payments to be sound, and the steps of a payment in flight that keep it.
use vls.Prelude.{
  ℕ, ◌≡◌, refl, sym, ◌∙◌, ap, subst, Bool, some, arith, ◌==◌, if◌then◌else◌, inl, inr, Bool-cases,
  Option-cases, ok, >>-eq-ok, >>=-eq-ok, ok_inj, if-eq-ok,
}
use vls.Prelude.Maps.{get, contains, get-put}
use vls.Policy.Laws.{policy_err_if-ok}
use vls.Enforcement.Summary.{Summary, BalanceDelta}
use vls.Validator.{SimplePolicy}
use vls.Node.{PaymentState, RoutedPayment, NodeState, payment_fulfilled, incoming_outgoing}
use vls.Node.Payments.{
  hashes_of, any_unbalanced, validate_payments, apply_payments, fulfilled_excess, htlc_fulfilled,
}
use vls.Node.Commit.{apply_payments-Committed}
use vls.Node.Balanced.{Balanced, Checks, any_unbalanced-false, unbalanced-Covers, totals-Covers}

-- Every invoice has a payment, and no payment of an invoice pays too much.
pub record Sound (p : SimplePolicy) (n : NodeState) : Type 0 where
  pub paid :
      (j : ℕ) (i : PaymentState)
      → get n.invoices j ≡ some i
      → (q : RoutedPayment) × (get n.payments j ≡ some q)
  pub balanced : Balanced p n

-- No invoice is new, and the payments of those that stay keep their amounts.
pub record Keeps (n n' : NodeState) : Type 0 where
  pub invoices : (j : ℕ) (i : PaymentState) → get n'.invoices j ≡ some i → get n.invoices j ≡ some i
  pub payments :
      (j : ℕ) (i : PaymentState) (q : RoutedPayment)
      → get n'.invoices j ≡ some i
      → get n.payments j ≡ some q
      → (q' : RoutedPayment) × (get n'.payments j ≡ some q')
        × (q'.incoming ≡ q.incoming)
        × (q'.outgoing ≡ q.outgoing)

pub Keeps-Sound : (p : SimplePolicy) (n n' : NodeState) → Keeps n n' → Sound p n → Sound p n'
unfolding incoming_outgoing
Keeps-Sound p n n' k s = record {
  paid = λ j i invoiced.
      let (q, present) = s.paid j i (k.invoices j i invoiced) in
      let (q', is, same, also) = k.payments j i q invoiced present in (q', is);
  balanced = λ j i r invoiced has_r.
      let (q, present) = s.paid j i (k.invoices j i invoiced) in
      let (q', is, same, also) = k.payments j i q invoiced present in
      let before = s.balanced j i q (k.invoices j i invoiced) present in
      ground (arith, is, same, also, before, has_r);
}

pub Keeps-refl : (n : NodeState) → Keeps n n
Keeps-refl n = record {
  invoices = λ j i h. h;
  payments = λ j i q h present. (q, present, refl, refl);
}

-- A commitment that was validated and applied.
pub commit-Sound :
    (p : SimplePolicy) (channel_id : ℕ) (incoming outgoing : Summary) (n n' : NodeState)
    (delta : BalanceDelta)
    → Checks p.filter
    → validate_payments p channel_id incoming outgoing n delta ≡ ok tt
    → apply_payments p channel_id incoming outgoing n delta ≡ ok n'
    → Sound p n
    → Sound p n'
unfolding validate_payments incoming_outgoing
commit-Sound p channel_id incoming outgoing n n' delta checks valid done s =
    let (passed, rest) = >>-eq-ok _ _ valid in
    let none_unbalanced =
      policy_err_if-ok p.filter
        (any_unbalanced p channel_id incoming outgoing n (hashes_of incoming outgoing))
        "policy-commitment-htlc-routing-balance" checks.routing passed in
    let c = apply_payments-Committed p channel_id incoming outgoing n n' delta done in
    record {
      paid = λ j i invoiced.
          let before = subst (λ m. get m j ≡ some i) c.invoices invoiced in
          elim (Bool-cases (contains (hashes_of incoming outgoing) j)) [
            | inl hit ↦ let (q, is, a, b) = c.touched j hit in (q, is)
            | inr miss ↦ let (q, is) = s.paid j i before in (q, c.others j miss ∙ is)
          ];
      balanced = λ j i r invoiced present.
          let before = subst (λ m. get m j ≡ some i) c.invoices invoiced in
          elim (Bool-cases (contains (hashes_of incoming outgoing) j)) [
            | inl hit ↦
                let (q, is, a, b) = c.touched j hit in
                let covers =
                  totals-Covers p channel_id incoming outgoing n.payments j i.amount_msat (
                    unbalanced-Covers p channel_id incoming outgoing n j i checks.balanced before (
                      any_unbalanced-false p channel_id incoming outgoing n
                        (hashes_of incoming outgoing) j none_unbalanced hit)) in
                ground (arith, is, a, b, covers, present)
            | inr miss ↦ s.balanced j i r before (sym (c.others j miss) ∙ present)
          ];
    }

pub htlc_fulfilled-Keeps :
    (p : SimplePolicy) (hash : ℕ → ℕ) (n n' : NodeState) (preimage : ℕ) (new : Bool)
    → htlc_fulfilled p hash n preimage ≡ ok (n', new)
    → Keeps n n'
unfolding htlc_fulfilled
htlc_fulfilled-Keeps p hash n n' preimage new h =
    elim (Option-cases (get n.payments (hash preimage))) [
      | inl missing ↦ subst (Keeps n) (ap (λ r. r.0) (ok_inj (rw (missing) at h))) (Keeps-refl n)
      | inr (payment, present) ↦
          elim (if-eq-ok (payment_fulfilled payment) _ _ (rw (present) at h)) [
            | inl (duplicate, same) ↦ subst (Keeps n) (ap (λ r. r.0) (ok_inj same)) (Keeps-refl n)
            | inr (first, changed) ↦
                let (excess, adjusted, made) =
                  >>=-eq-ok (fulfilled_excess p hash n (hash preimage) payment) _ changed in
                let marked : RoutedPayment = record payment { preimage = some preimage } in
                subst (Keeps n) (ap (λ r. r.0) (ok_inj made)) (record {
                  invoices = λ j i invoiced. invoiced;
                  payments = λ j i q invoiced has_q. (
                    if hash preimage == j then marked else q,
                    ground (arith, get-put (hash preimage) marked n.payments j, has_q),
                    ground (arith, present, has_q),
                    ground (arith, present, has_q),
                  );
                })
          ]
    ]
