-- ===== src/Node/Steps.antt =====
-- New invoices and the pruning of old ones keep a node's payments sound.
use vls.Prelude.{
  ℕ, ◌/◌, leb, length, mul_u64, ◌≡◌, refl, sym, ◌∙◌, ap, subst, Bool, not, some, arith, ◌==◌, inl,
  inr, Bool-cases, Option-cases, ok, >>-eq-ok, >>=-eq-ok, ok_inj, if-eq-ok, assert,
}
use vls.Prelude.Maps.{
  get, get_or, put, contains, get-put, get-or_insert, or_insert, get-retain_kept,
  get-retain_dropped,
}
use vls.Validator.{SimplePolicy}
use vls.Velocity.{VelocityControl, insert}
use vls.Node.{PaymentState, RoutedPayment, NodeState, new_payment, incoming_outgoing, seconds}
use vls.Node.Prune.{
  prunable, prune_invoices, prune_issued_invoices, retain_issued, prune_forwarded_payments,
  is_forwarded_payment_prunable,
}
use vls.Node.Invoices.{charge_invoice, add_payment}
use vls.Node.Balanced.{Covers}
use vls.Node.Sound.{Sound, Keeps}

-- What is already paid for the hash must pass the check for the new invoice: the code does not test
-- this.
abbrev pub Fresh : SimplePolicy → NodeState → ℕ → ℕ → Type 0
Fresh p n hash amount =
    (q : RoutedPayment) → get n.payments hash ≡ some q → Covers p amount (incoming_outgoing q)

abbrev pub with_invoice : NodeState → ℕ → PaymentState → VelocityControl → NodeState
with_invoice n hash state control = record n {
  velocity_control = control;
  invoices = put hash state n.invoices;
  payments = or_insert hash new_payment n.payments;
}

new_payment-Covers :
    (p : SimplePolicy) (amount : ℕ) → Covers p amount (incoming_outgoing new_payment)
unfolding mul_u64 incoming_outgoing
new_payment-Covers p amount = ground arith

with_invoice-Sound :
    (p : SimplePolicy) (n : NodeState) (hash : ℕ) (state : PaymentState) (control : VelocityControl)
    → Fresh p n hash state.amount_msat
    → Sound p n
    → Sound p (with_invoice n hash state control)
with_invoice-Sound p n hash state control fresh s = record {
  paid = λ j i invoiced. elim (Bool-cases (hash == j)) [
    | inl hit ↦ (
      get_or new_payment n.payments j,
      ground (arith, get-or_insert hash new_payment n.payments j),
    )
    | inr miss ↦
        let (q, is) = s.paid j i (ground (arith, get-put hash state n.invoices j)) in
        (q, ground (arith, get-or_insert hash new_payment n.payments j, is))
  ];
  balanced = λ j i q invoiced present. elim (Bool-cases (hash == j)) [
    | inl hit ↦ elim (Option-cases (get n.payments j)) [
      | inl missing ↦
          ground
            (arith, get-or_insert hash new_payment n.payments j, new_payment-Covers p i.amount_msat)
      | inr (r, is) ↦ ground (
        arith,
        get-or_insert hash new_payment n.payments j,
        get-put hash state n.invoices j,
        fresh r,
      )
    ]
    | inr miss ↦
        s.balanced j i q (ground (arith, get-put hash state n.invoices j))
          (ground (arith, get-or_insert hash new_payment n.payments j))
  ];
}

charge_invoice-Sound :
    (p : SimplePolicy) (persist : NodeState → Bool) (n n' : NodeState) (hash : ℕ)
    (state : PaymentState) (now : ℕ) (added : Bool)
    → Fresh p n hash state.amount_msat
    → charge_invoice p persist n hash state now ≡ ok (n', added)
    → Sound p n
    → Sound p n'
unfolding charge_invoice
charge_invoice-Sound p persist n n' hash state now added fresh h s =
    let (done, inserted, rest) =
      >>=-eq-ok (insert n.velocity_control (now / seconds 1) state.amount_msat) _ h in
    elim (if-eq-ok done.1 _ _ rest) [
      | inl (accepted, stored) ↦
          let (fine, made) =
            >>-eq-ok (assert (persist (with_invoice n hash state done.0))) _ stored in
          subst (Sound p) (ap (λ r. r.0) (ok_inj made))
            (with_invoice-Sound p n hash state done.0 fresh s)
      | inr (rejected, made) ↦ subst (Sound p) (ap (λ r. r.0) (ok_inj made)) (record {
        paid = λ j i invoiced. s.paid j i invoiced;
        balanced = λ j i q invoiced present. s.balanced j i q invoiced present;
      })
    ]

pub add_payment-Sound :
    (p : SimplePolicy) (persist : NodeState → Bool) (n n' : NodeState) (hash : ℕ)
    (state : PaymentState) (now : ℕ) (added : Bool)
    → Fresh p n hash state.amount_msat
    → add_payment p persist n hash state now ≡ ok (n', added)
    → Sound p n
    → Sound p n'
unfolding add_payment
add_payment-Sound p persist n n' hash state now added fresh h s =
    elim (if-eq-ok (leb p.max_invoices (length n.invoices)) _ _ h) [
      | inl (full, failed) ↦ cc
      | inr (room, rest) ↦ elim (Option-cases (get n.invoices hash)) [
        | inl missing ↦
            charge_invoice-Sound p persist n n' hash state now added fresh (rw (missing) at rest) s
        | inr (present, is) ↦
            elim (if-eq-ok (present.invoice_hash == state.invoice_hash) _ _ (rw (is) at rest)) [
              | inl (same, made) ↦ subst (Sound p) (ap (λ r. r.0) (ok_inj made)) s
              | inr (other, failed) ↦ cc
            ]
      ]
    ]

pub prune_forwarded_payments-Keeps : (n : NodeState) → Keeps n (prune_forwarded_payments n).0
unfolding prune_forwarded_payments is_forwarded_payment_prunable
prune_forwarded_payments-Keeps n = record {
  invoices = λ j i invoiced. invoiced;
  payments = λ j i q invoiced present. (
    q,
    get-retain_kept (λ hash payment. not (is_forwarded_payment_prunable n hash payment)) n.payments
          j (λ v. ground (arith, invoiced))
        ∙ present,
    refl,
    refl,
  );
}

pub prune_issued_invoices-Keeps :
    (n n' : NodeState) (now : ℕ) (changed : Bool)
    → prune_issued_invoices n now ≡ ok (n', changed)
    → Keeps n n'
unfolding prune_issued_invoices
prune_issued_invoices-Keeps n n' now changed h =
    let (kept, first, made) = >>=-eq-ok (retain_issued now n.issued_invoices) _ h in
    subst (Keeps n) (ap (λ r. r.0) (ok_inj made)) (record {
      invoices = λ j i invoiced. invoiced;
      payments = λ j i q invoiced present. (q, present, refl, refl);
    })

pub prune_invoices-Keeps :
    (n n' : NodeState) (now : ℕ) (changed : Bool)
    → prune_invoices n now ≡ ok (n', changed)
    → Keeps n n'
unfolding prune_invoices
prune_invoices-Keeps n n' now changed h =
    let (prune, first, made) = >>=-eq-ok (prunable now n.payments n.invoices) _ h in
    subst (Keeps n) (ap (λ r. r.0) (ok_inj made)) (record {
      invoices = λ j i invoiced. elim (Bool-cases (contains prune j)) [
        | inl hit ↦ absurd (
            ground (
              arith,
              get-retain_dropped (λ hash state. not (contains prune hash)) n.invoices j
                  (λ v. ground (arith, hit)),
            ))
        | inr miss ↦
            sym (
              get-retain_kept (λ hash state. not (contains prune hash)) n.invoices j
                (λ v. ground (arith, miss)))
            ∙ invoiced
      ];
      payments = λ j i q invoiced present. elim (Bool-cases (contains prune j)) [
        | inl hit ↦ absurd (
            ground (
              arith,
              get-retain_dropped (λ hash state. not (contains prune hash)) n.invoices j
                  (λ v. ground (arith, hit)),
            ))
        | inr miss ↦ (
          q,
          get-retain_kept (λ hash payment. not (contains prune hash)) n.payments j
                (λ v. ground (arith, miss))
              ∙ present,
          refl,
          refl,
        )
      ];
    })
