-- ===== src/Node/Invoices.antt =====
-- How a node learns of payments to make (vls-core/src/node.rs), with the check of an invoice's
-- times (vls-core/src/policy/validator.rs), built without `timeless_workaround`. An
-- `Invoice` is what its methods of `InvoiceAttributes` (vls-core/src/invoice.rs) give. Whether storing the node succeeds is a
-- parameter; a failure is a panic.
use vls.Prelude.{
  ℕ, ◌/◌, Bool, true, false, ltb, leb, ◌==◌, if◌then◌else◌, none, some, Outcome, ok, err,
  ValidationErrorKind, assert, ◌>>=◌, ◌>>◌, length,
}
use vls.Prelude.Maps.{get, put, or_insert}
use vls.Policy.{policy_err_if}
use vls.Validator.{SimplePolicy}
use vls.Velocity.{insert}
use vls.Node.{PaymentType, PaymentState, NodeState, new_payment, seconds, add_duration}

pub record Invoice : Type 0 where
  pub payment_hash : ℕ
  pub invoice_hash : ℕ
  pub amount_milli_satoshis : ℕ
  pub payee_pub_key : ℕ
  pub duration_since_epoch : ℕ
  pub expiry_duration : ℕ

unfoldable pub payment_state_from_invoice : Invoice → PaymentState
payment_state_from_invoice invoice = record {
  invoice_hash = invoice.invoice_hash;
  amount_msat = invoice.amount_milli_satoshis;
  payee = invoice.payee_pub_key;
  duration_since_epoch = invoice.duration_since_epoch;
  expiry_duration = invoice.expiry_duration;
  is_fulfilled = false;
  payment_type = PaymentType.invoice;
}

unfoldable pub payment_state_from_keysend : ℕ → ℕ → ℕ → ℕ → PaymentState
payment_state_from_keysend payee payment_hash amount_msat now = record {
  invoice_hash = payment_hash;
  amount_msat = amount_msat;
  payee = payee;
  duration_since_epoch = now;
  expiry_duration = seconds 60;
  is_fulfilled = false;
  payment_type = PaymentType.keysend;
}

module _ (p : SimplePolicy) (persist : NodeState → Bool) where
  -- `MAX_CLOCK_SKEW` and `MIN_INVOICE_EXPIRY` are a minute each; the tolerances are zero.
  unfoldable pub validate_invoice : Invoice → ℕ → Outcome (Unit {0})
  validate_invoice invoice now = do
    skewed ← add_duration now (seconds 60)
    tolerated ← add_duration skewed (seconds 0)
    policy_err_if p.filter (ltb tolerated invoice.duration_since_epoch) "policy-invoice-not-expired"
    soon ← add_duration now (seconds 60)
    expiry ← add_duration invoice.duration_since_epoch invoice.expiry_duration
    late ← add_duration expiry (seconds 60)
    until ← add_duration late (seconds 0)
    policy_err_if p.filter (ltb until soon) "policy-invoice-not-expired"

  -- The new entry, charged to the node's velocity control.
  unfoldable pub charge_invoice : NodeState → ℕ → PaymentState → ℕ → Outcome (NodeState × Bool)
  charge_invoice n hash state now = do
    done ← insert n.velocity_control (now / seconds 1) state.amount_msat
    let charged : NodeState = record n { velocity_control = done.0 }
    let added : NodeState = record charged {
      invoices = put hash state n.invoices;
      payments = or_insert hash new_payment n.payments;
    }
    if done.1 then (assert (persist added) >> ok (added, true)) else ok (charged, false)

  -- What both ways of adding a payment do: the state and whether it was added.
  unfoldable pub add_payment : NodeState → ℕ → PaymentState → ℕ → Outcome (NodeState × Bool)
  add_payment n hash state now =
      if leb p.max_invoices (length n.invoices)
      then err ValidationErrorKind.status
      else elim (get n.invoices hash) [
        | none ↦ charge_invoice n hash state now
        | some present ↦
            if present.invoice_hash == state.invoice_hash
            then ok (n, true)
            else err ValidationErrorKind.status
      ]

  unfoldable pub add_invoice : NodeState → Invoice → ℕ → Outcome (NodeState × Bool)
  add_invoice n invoice now =
      validate_invoice invoice now
      >> add_payment n invoice.payment_hash (payment_state_from_invoice invoice) now

  -- The clock is read twice: `created` is the first time, `now` the second.
  unfoldable pub add_keysend : NodeState → ℕ → ℕ → ℕ → ℕ → ℕ → Outcome (NodeState × Bool)
  add_keysend n payee payment_hash amount_msat created now =
      add_payment n payment_hash (payment_state_from_keysend payee payment_hash amount_msat created)
        now

unfoldable pub has_payment : NodeState → ℕ → ℕ → Outcome Bool
has_payment n hash invoice_hash = elim (get n.invoices hash) [
  | none ↦ ok false
  | some present ↦
      if present.invoice_hash == invoice_hash then ok true else err ValidationErrorKind.status
]

-- `signed` is what `do_sign_invoice` made: the signature and the invoice it is of.
unfoldable pub sign_invoice :
    SimplePolicy → NodeState → Outcome (ℕ × Invoice) → Outcome (NodeState × ℕ)
sign_invoice p n signed = do
  issued ← signed
  let state = payment_state_from_invoice issued.1
  let hash = issued.1.payment_hash
  if leb p.max_invoices (length n.issued_invoices)
      then err ValidationErrorKind.status
      else elim (get n.issued_invoices hash) [
        | none ↦ ok (record n { issued_invoices = put hash state n.issued_invoices }, issued.0)
        | some present ↦
            if present.invoice_hash == state.invoice_hash
            then ok (n, issued.0)
            else err ValidationErrorKind.status
      ]
