-- ===== src/Node/Life.antt =====
-- All that can happen to a node's payments, restarts included, whatever the policy and the
-- invoices: each invoice has a payment.
use vls.Prelude.{
  ℕ, ◌≡◌, ◌∙◌, ap, subst, Bool, some, arith, ◌==◌, inl, inr, Bool-cases, ◌/◌, leb, length, assert,
  List, [], Option-cases, Outcome, ok, >>-eq-ok, >>=-eq-ok, ok_inj, if-eq-ok,
}
use vls.Prelude.Maps.{Map, get, get_or, contains, get-put, get-or_insert}
use vls.Velocity.{VelocityControl, insert}
use vls.Enforcement.Summary.{Summary, BalanceDelta}
use vls.Validator.{SimplePolicy}
use vls.Node.{
  PaymentState, RoutedPayment, NodeState, new, new_payment, seconds, restore, restore_node,
  restored_payments,
}
use vls.Node.Payments.{hashes_of, apply_payments, htlc_fulfilled}
use vls.Node.Prune.{prune_invoices, prune_issued_invoices, prune_state}
use vls.Node.Invoices.{
  Invoice, add_invoice, add_keysend, add_payment, charge_invoice, sign_invoice, validate_invoice,
  payment_state_from_invoice, payment_state_from_keysend,
}
use vls.Node.Commit.{apply_payments-Committed}
use vls.Node.Sound.{Keeps, htlc_fulfilled-Keeps}
use vls.Node.Steps.{
  with_invoice, prune_invoices-Keeps, prune_issued_invoices-Keeps, prune_forwarded_payments-Keeps,
}
use vls.Node.History.{sign_invoice-Keeps}
use vls.Node.Restore.{get-create_payments}

-- Each invoice has a payment.
abbrev pub Paid : NodeState → Type 0
Paid n =
    (j : ℕ) (i : PaymentState)
    → get n.invoices j ≡ some i
    → (q : RoutedPayment) × (get n.payments j ≡ some q)

Keeps-Paid : (n n' : NodeState) → Keeps n n' → Paid n → Paid n'
Keeps-Paid n n' k paid j i invoiced =
    let (q, present) = paid j i (k.invoices j i invoiced) in
    let (q', is, same, also) = k.payments j i q invoiced present in (q', is)

apply_payments-Paid :
    (p : SimplePolicy) (channel_id : ℕ) (incoming outgoing : Summary) (n n' : NodeState)
    (delta : BalanceDelta)
    → apply_payments p channel_id incoming outgoing n delta ≡ ok n'
    → Paid n
    → Paid n'
apply_payments-Paid p channel_id incoming outgoing n n' delta done paid j i invoiced =
    let c = apply_payments-Committed p channel_id incoming outgoing n n' delta done in
    elim (Bool-cases (contains (hashes_of incoming outgoing) j)) [
      | inl hit ↦ let (q, is, a, b) = c.touched j hit in (q, is)
      | inr miss ↦
          let (q, is) = paid j i (subst (λ m. get m j ≡ some i) c.invoices invoiced) in
          (q, c.others j miss ∙ is)
    ]

with_invoice-Paid :
    (n : NodeState) (hash : ℕ) (state : PaymentState) (control : VelocityControl)
    → Paid n
    → Paid (with_invoice n hash state control)
with_invoice-Paid n hash state control paid j i invoiced = elim (Bool-cases (hash == j)) [
  | inl hit ↦
      (get_or new_payment n.payments j, ground (arith, get-or_insert hash new_payment n.payments j))
  | inr miss ↦
      let (q, is) = paid j i (ground (arith, get-put hash state n.invoices j)) in
      (q, ground (arith, get-or_insert hash new_payment n.payments j, is))
]

charge_invoice-Paid :
    (p : SimplePolicy) (persist : NodeState → Bool) (n n' : NodeState) (hash : ℕ)
    (state : PaymentState) (now : ℕ) (added : Bool)
    → charge_invoice p persist n hash state now ≡ ok (n', added)
    → Paid n
    → Paid n'
unfolding charge_invoice
charge_invoice-Paid p persist n n' hash state now added h paid =
    let (done, inserted, rest) =
      >>=-eq-ok (insert n.velocity_control (now / seconds 1) state.amount_msat) _ h in
    elim (if-eq-ok done.1 _ _ rest) [
      | inl (accepted, stored) ↦
          let (fine, made) =
            >>-eq-ok (assert (persist (with_invoice n hash state done.0))) _ stored in
          subst Paid (ap (λ r. r.0) (ok_inj made)) (with_invoice-Paid n hash state done.0 paid)
      | inr (rejected, made) ↦
          subst Paid (ap (λ r. r.0) (ok_inj made)) (λ j i invoiced. paid j i invoiced)
    ]

add_payment-Paid :
    (p : SimplePolicy) (persist : NodeState → Bool) (n n' : NodeState) (hash : ℕ)
    (state : PaymentState) (now : ℕ) (added : Bool)
    → add_payment p persist n hash state now ≡ ok (n', added)
    → Paid n
    → Paid n'
unfolding add_payment
add_payment-Paid p persist n n' hash state now added h paid =
    elim (if-eq-ok (leb p.max_invoices (length n.invoices)) _ _ h) [
      | inl (full, failed) ↦ cc
      | inr (room, rest) ↦ elim (Option-cases (get n.invoices hash)) [
        | inl missing ↦
            charge_invoice-Paid p persist n n' hash state now added (rw (missing) at rest) paid
        | inr (present, is) ↦
            elim (if-eq-ok (present.invoice_hash == state.invoice_hash) _ _ (rw (is) at rest)) [
              | inl (same, made) ↦ subst Paid (ap (λ r. r.0) (ok_inj made)) paid
              | inr (other, failed) ↦ cc
            ]
      ]
    ]

restore_node-Paid :
    (hash : ℕ → ℕ) (invoices issued_invoices : Map PaymentState) (preimages : List ℕ)
    (excess_amount : ℕ) (control fees : VelocityControl)
    → Paid (restore_node hash invoices issued_invoices preimages excess_amount control fees)
unfolding restore_node restore
restore_node-Paid hash invoices issued_invoices preimages excess_amount control fees j i invoiced =
    (
      new_payment,
      ground
          (arith, get-create_payments invoices (restored_payments hash preimages []) j, invoiced),
    )

prune_state-Paid : (n n' : NodeState) (now : ℕ) → prune_state n now ≡ ok n' → Paid n → Paid n'
unfolding prune_state
prune_state-Paid n n' now h paid =
    let (pruned1, first, rest) = >>=-eq-ok (prune_invoices n now) _ h in
    let (pruned2, second, made) = >>=-eq-ok (prune_issued_invoices pruned1.0 now) _ rest in
    subst Paid (ok_inj made) (
      Keeps-Paid pruned2.0 _ (prune_forwarded_payments-Keeps pruned2.0) (
        Keeps-Paid pruned1.0 pruned2.0
          (prune_issued_invoices-Keeps pruned1.0 pruned2.0 now pruned2.1 second)
          (Keeps-Paid n pruned1.0 (prune_invoices-Keeps n pruned1.0 now pruned1.1 first) paid)))

-- The states of a node from its creation or its restart from any stored state on, through
-- commitments on any of its channels, preimages, new invoices and keysends, issued invoices and
-- heartbeats, in any order.
module _ (p : SimplePolicy) (hash : ℕ → ℕ) (persist : NodeState → Bool) where
  pub data Life : NodeState → Type 0 where
    begin : (control fees : VelocityControl) → Life (new control fees)
    restart :
        (invoices issued_invoices : Map PaymentState) (preimages : List ℕ) (excess_amount : ℕ)
        (control fees : VelocityControl)
        → Life (restore_node hash invoices issued_invoices preimages excess_amount control fees)
    commit :
        {n : NodeState} (n' : NodeState) (channel_id : ℕ) (incoming outgoing : Summary)
        (delta : BalanceDelta)
        → Life n
        → apply_payments p channel_id incoming outgoing n delta ≡ ok n'
        → Life n'
    fulfil :
        {n : NodeState} (n' : NodeState) (preimage : ℕ) (first : Bool)
        → Life n
        → htlc_fulfilled p hash n preimage ≡ ok (n', first)
        → Life n'
    add :
        {n : NodeState} (n' : NodeState) (invoice : Invoice) (now : ℕ) (added : Bool)
        → Life n
        → add_invoice p persist n invoice now ≡ ok (n', added)
        → Life n'
    send :
        {n : NodeState} (n' : NodeState) (payee payment_hash amount_msat created now : ℕ)
        (added : Bool)
        → Life n
        → add_keysend p persist n payee payment_hash amount_msat created now ≡ ok (n', added)
        → Life n'
    issue :
        {n : NodeState} (n' : NodeState) (signed : Outcome (ℕ × Invoice)) (signature : ℕ)
        → Life n
        → sign_invoice p n signed ≡ ok (n', signature)
        → Life n'
    heartbeat :
        {n : NodeState} (n' : NodeState) (now : ℕ) → Life n → prune_state n now ≡ ok n' → Life n'

  -- In all of these states each invoice has a payment.
  pub Life-Paid : (n : NodeState) → Life n → Paid n
  unfolding new add_invoice add_keysend
  Life-Paid n (begin control fees) = λ j i invoiced. cc
  Life-Paid n (restart invoices issued_invoices preimages excess_amount control fees) =
      restore_node-Paid hash invoices issued_invoices preimages excess_amount control fees
  Life-Paid n (commit n' channel_id incoming outgoing delta r done) =
      apply_payments-Paid p channel_id incoming outgoing _ n delta done (Life-Paid _ r)
  Life-Paid n (fulfil n' preimage first r done) =
      Keeps-Paid _ n (htlc_fulfilled-Keeps p hash _ n preimage first done) (Life-Paid _ r)
  Life-Paid n (add n' invoice now added r done) =
      let (valid, stored) = >>-eq-ok (validate_invoice p persist invoice now) _ done in
      add_payment-Paid p persist _ n invoice.payment_hash (payment_state_from_invoice invoice) now
        added stored (Life-Paid _ r)
  Life-Paid n (send n' payee payment_hash amount_msat created now added r done) =
      add_payment-Paid p persist _ n payment_hash
        (payment_state_from_keysend payee payment_hash amount_msat created) now added done
        (Life-Paid _ r)
  Life-Paid n (issue n' signed signature r done) =
      Keeps-Paid _ n (sign_invoice-Keeps p hash persist _ n signed signature done) (Life-Paid _ r)
  Life-Paid n (heartbeat n' now r done) = prune_state-Paid _ n now done (Life-Paid _ r)
