-- ===== src/Node/History.antt =====
-- A node's payments from its creation on, through commitments on any of its channels, preimages,
-- new invoices and keysends, issued invoices and heartbeats, in any order.
use vls.Prelude.{
  ℕ, ◌+◌, ◌*◌, ◌≤◌, ◌<◌, ◌≡◌, refl, ap, subst, Bool, some, List, [], ◌∷◌, arith, Outcome, ok,
  >>=-eq-ok, ok_inj, if-eq-ok, inl, inr, Option-cases, ◌==◌, leb, length, sum, u64_mod, add_u64,
  mul_u64, >>-eq-ok,
}
use vls.Prelude.Maps.{get, values}
use vls.Velocity.{VelocityControl}
use vls.Enforcement.Summary.{Summary, BalanceDelta}
use vls.Validator.{SimplePolicy}
use vls.Node.{PaymentState, RoutedPayment, NodeState, new, incoming_outgoing, sum_u64}
use vls.Node.Payments.{validate_payments, apply_payments, htlc_fulfilled}
use vls.Node.Prune.{prune_invoices, prune_issued_invoices, prune_state}
use vls.Node.Invoices.{
  Invoice, add_invoice, add_keysend, sign_invoice, validate_invoice, payment_state_from_invoice,
  payment_state_from_keysend,
}
use vls.Node.Balanced.{Checks}
use vls.Node.Sound.{Sound, Keeps, Keeps-Sound, Keeps-refl, commit-Sound, htlc_fulfilled-Keeps}
use vls.Node.Steps.{
  Fresh, add_payment-Sound, prune_invoices-Keeps, prune_issued_invoices-Keeps,
  prune_forwarded_payments-Keeps,
}

-- The states a node reaches.
module _ (p : SimplePolicy) (hash : ℕ → ℕ) (persist : NodeState → Bool) where
  pub data Reach : NodeState → Type 0 where
    begin : (control fees : VelocityControl) → Reach (new control fees)
    commit :
        {n : NodeState} (n' : NodeState) (channel_id : ℕ) (incoming outgoing : Summary)
        (delta : BalanceDelta)
        → Reach n
        → validate_payments p channel_id incoming outgoing n delta ≡ ok tt
        → apply_payments p channel_id incoming outgoing n delta ≡ ok n'
        → Reach n'
    fulfil :
        {n : NodeState} (n' : NodeState) (preimage : ℕ) (first : Bool)
        → Reach n
        → htlc_fulfilled p hash n preimage ≡ ok (n', first)
        → Reach n'
    add :
        {n : NodeState} (n' : NodeState) (invoice : Invoice) (now : ℕ) (added : Bool)
        → Reach n
        → Fresh p n invoice.payment_hash invoice.amount_milli_satoshis
        → add_invoice p persist n invoice now ≡ ok (n', added)
        → Reach n'
    send :
        {n : NodeState} (n' : NodeState) (payee payment_hash amount_msat created now : ℕ)
        (added : Bool)
        → Reach n
        → Fresh p n payment_hash amount_msat
        → add_keysend p persist n payee payment_hash amount_msat created now ≡ ok (n', added)
        → Reach n'
    issue :
        {n : NodeState} (n' : NodeState) (signed : Outcome (ℕ × Invoice)) (signature : ℕ)
        → Reach n
        → sign_invoice p n signed ≡ ok (n', signature)
        → Reach n'
    heartbeat :
        {n : NodeState} (n' : NodeState) (now : ℕ) → Reach n → prune_state n now ≡ ok n' → Reach n'

  pub sign_invoice-Keeps :
      (n n' : NodeState) (signed : Outcome (ℕ × Invoice)) (signature : ℕ)
      → sign_invoice p n signed ≡ ok (n', signature)
      → Keeps n n'
  unfolding sign_invoice
  sign_invoice-Keeps n n' signed signature h =
      let (issued, is, rest) = >>=-eq-ok signed _ h in
      let state = payment_state_from_invoice issued.1 in
      elim (if-eq-ok (leb p.max_invoices (length n.issued_invoices)) _ _ rest) [
        | inl (full, failed) ↦ cc
        | inr (room, then_what) ↦
            elim (Option-cases (get n.issued_invoices issued.1.payment_hash)) [
              | inl missing ↦
                  subst (Keeps n) (ap (λ r. r.0) (ok_inj (rw (missing) at then_what))) (record {
                    invoices = λ j i invoiced. invoiced;
                    payments = λ j i q invoiced present. (q, present, refl, refl);
                  })
              | inr (present, found) ↦
                  elim (if-eq-ok (present.invoice_hash == state.invoice_hash) _ _
                    (rw (found) at then_what)) [
                      | inl (same, made) ↦
                          subst (Keeps n) (ap (λ r. r.0) (ok_inj made)) (Keeps-refl n)
                      | inr (other, failed) ↦ cc
                    ]
            ]
      ]

  prune_state-Sound :
      (n n' : NodeState) (now : ℕ) → prune_state n now ≡ ok n' → Sound p n → Sound p n'
  unfolding prune_state
  prune_state-Sound n n' now h s =
      let (pruned1, first, rest) = >>=-eq-ok (prune_invoices n now) _ h in
      let (pruned2, second, made) = >>=-eq-ok (prune_issued_invoices pruned1.0 now) _ rest in
      subst (Sound p) (ok_inj made) (
        Keeps-Sound p pruned2.0 _ (prune_forwarded_payments-Keeps pruned2.0) (
          Keeps-Sound p pruned1.0 pruned2.0
            (prune_issued_invoices-Keeps pruned1.0 pruned2.0 now pruned2.1 second)
            (Keeps-Sound p n pruned1.0 (prune_invoices-Keeps n pruned1.0 now pruned1.1 first) s)))

  -- In every state that a node reaches under a policy that enforces the two checks of payments,
  -- every invoice has a payment, and no payment with an invoice passes on more than comes in for
  -- it, the invoice's amount and the routing fee, by the code's own test.
  pub Reach-Sound : (n : NodeState) → Checks p.filter → Reach n → Sound p n
  unfolding new add_invoice add_keysend payment_state_from_invoice payment_state_from_keysend
  Reach-Sound n c (begin control fees) = record {
    paid = λ j i invoiced. cc;
    balanced = λ j i q invoiced present. cc;
  }
  Reach-Sound n c (commit n' channel_id incoming outgoing delta r valid done) =
      commit-Sound p channel_id incoming outgoing _ n delta c valid done (Reach-Sound _ c r)
  Reach-Sound n c (fulfil n' preimage first r done) =
      Keeps-Sound p _ n (htlc_fulfilled-Keeps p hash _ n preimage first done) (Reach-Sound _ c r)
  Reach-Sound n c (add n' invoice now added r fresh done) =
      let (valid, stored) = >>-eq-ok (validate_invoice p persist invoice now) _ done in
      add_payment-Sound p persist _ n invoice.payment_hash (payment_state_from_invoice invoice) now
        added fresh stored (Reach-Sound _ c r)
  Reach-Sound n c (send n' payee payment_hash amount_msat created now added r fresh done) =
      add_payment-Sound p persist _ n payment_hash
        (payment_state_from_keysend payee payment_hash amount_msat created) now added fresh done
        (Reach-Sound _ c r)
  Reach-Sound n c (issue n' signed signature r done) =
      Keeps-Sound p _ n (sign_invoice-Keeps _ n signed signature done) (Reach-Sound _ c r)
  Reach-Sound n c (heartbeat n' now r done) = prune_state-Sound _ n now done (Reach-Sound _ c r)

sum_u64_eq : (xs : List ℕ) → sum xs < u64_mod → sum_u64 xs ≡ sum xs
unfolding add_u64
sum_u64_eq [] h = refl
sum_u64_eq (x ∷ xs) h = omega (arith, sum_u64_eq xs (omega arith))

-- In every state that a node reaches under a policy that enforces the two checks of payments, what
-- goes out for an invoice over all channels is no more, in millisatoshi, than what comes in for it,
-- the invoice's amount and the routing fee, where these sums fit 64 bits. An invoice is taken to be
-- added only where what already goes out for its hash is within it.
pub Reach-no_overpayment :
    (p : SimplePolicy) (hash : ℕ → ℕ) (persist : NodeState → Bool) (n : NodeState) (j : ℕ)
    (i : PaymentState) (q : RoutedPayment)
    → Checks p.filter
    → Reach p hash persist n
    → get n.invoices j ≡ some i
    → get n.payments j ≡ some q
    → sum (values q.incoming) * 1000 + (i.amount_msat + p.max_routing_fee_msat) < u64_mod
    → sum (values q.outgoing) * 1000 < u64_mod
    → sum (values q.outgoing) * 1000
      ≤ sum (values q.incoming) * 1000 + (i.amount_msat + p.max_routing_fee_msat)
unfolding incoming_outgoing mul_u64 add_u64
Reach-no_overpayment p hash persist n j i q checks r invoiced present a b =
    let covered = (Reach-Sound p hash persist n checks r).balanced j i q invoiced present in
    ground (
      arith,
      covered,
      sum_u64_eq (values q.incoming) (omega arith),
      sum_u64_eq (values q.outgoing) (omega arith),
    )
