-- ===== src/Approver.antt =====
-- Who approves payments (vls-protocol-signer/src/approver.rs). The clock's readings are arguments.
-- An on-chain transaction is compared only, so it is a number; what the node says of it is an
-- argument.
pub mod Approved
mod Tests
use vls.Prelude.{
  ℕ, ◌/◌, Bool, true, false, ◌&&◌, ◌==◌, if◌then◌else◌, List, [], ◌∷◌, Outcome, ok, err, panic,
  ValidationErrorKind, ◌>>=◌,
}
use vls.Velocity.{VelocityControl, insert, clear}
use vls.Validator.{SimplePolicy}
use vls.Node.{NodeState, seconds}
use vls.Node.Invoices.{Invoice, has_payment, add_invoice, add_keysend}

-- `Approve`: a method that changes the approver returns it.
pub record Approve (A : Type 0) : Type 0 where
  pub approve_invoice : A → Invoice → ℕ → Outcome (A × Bool)
  pub approve_keysend : A → ℕ → ℕ → ℕ → Outcome (A × Bool)
  pub approve_onchain : A → ℕ → List ℕ → List ℕ → Outcome (A × Bool)

-- `PositiveApprover` and, but for a log line, `WarningPositiveApprover`.
abbrev pub positive_approver : Approve (Unit {0})
positive_approver = record {
  approve_invoice = λ a invoice now. ok (a, true);
  approve_keysend = λ a hash amount now. ok (a, true);
  approve_onchain = λ a tx values indices. ok (a, true);
}

abbrev pub negative_approver : Approve (Unit {0})
negative_approver = record {
  approve_invoice = λ a invoice now. ok (a, false);
  approve_keysend = λ a hash amount now. ok (a, false);
  approve_onchain = λ a tx values indices. ok (a, false);
}

pub record VelocityApprover (A : Type 0) : Type 0 where
  pub control : VelocityControl
  pub delegate : A

-- The delegate is asked where the velocity is exceeded; its approval clears the control.
abbrev pub by_velocity :
    {A : Type 0}
    → (A → Outcome (A × Bool))
    → A
    → VelocityControl × Bool
    → Outcome (VelocityApprover A × Bool)
by_velocity ask delegate (control, true) =
    ok (record { control = control; delegate = delegate }, true)
by_velocity ask delegate (control, false) = ask delegate >>= λ asked.
    ok
      (record { control = if asked.1 then clear control else control; delegate = asked.0 }, asked.1)

abbrev pub velocity_approver : {A : Type 0} → Approve A → Approve (VelocityApprover A)
velocity_approver d = record {
  approve_invoice = λ v invoice now.
      insert v.control (now / seconds 1) invoice.amount_milli_satoshis >>= λ done.
      by_velocity (λ a. d.approve_invoice a invoice now) v.delegate done;
  approve_keysend = λ v hash amount now. insert v.control (now / seconds 1) amount >>= λ done.
      by_velocity (λ a. d.approve_keysend a hash amount now) v.delegate done;
  approve_onchain = λ v tx values indices.
      d.approve_onchain v.delegate tx values indices >>= λ asked.
      ok (record { control = v.control; delegate = asked.0 }, asked.1);
}

pub data Approval : Type 0 where
  invoice : Invoice → Approval
  key_send : ℕ → ℕ → Approval
  onchain : ℕ → Approval

pub record MemoApprover (A : Type 0) : Type 0 where
  pub delegate : A
  pub approvals : List Approval

-- `approve`
unfoldable pub memorize : {A : Type 0} → MemoApprover A → List Approval → MemoApprover A
memorize m approvals = record m { approvals = approvals }

abbrev pub is_invoice : Invoice → Approval → Bool
is_invoice i (Approval.invoice approved) = approved.invoice_hash == i.invoice_hash
is_invoice i (Approval.key_send hash amount) = false
is_invoice i (Approval.onchain tx) = false

abbrev pub is_keysend : ℕ → ℕ → Approval → Bool
is_keysend hash amount (Approval.invoice approved) = false
is_keysend hash amount (Approval.key_send approved approved_amount) =
    (approved == hash) && (approved_amount == amount)
is_keysend hash amount (Approval.onchain tx) = false

abbrev pub is_onchain : ℕ → Approval → Bool
is_onchain tx (Approval.invoice approved) = false
is_onchain tx (Approval.key_send hash amount) = false
is_onchain tx (Approval.onchain approved) = approved == tx

-- The loop over the memorized approvals, which are drained whether one fits or not.
abbrev pub by_memo :
    {A : Type 0}
    → (Approval → Bool)
    → (A → Outcome (A × Bool))
    → MemoApprover A
    → List Approval
    → Outcome (MemoApprover A × Bool)
by_memo fits ask m [] =
    ask m.delegate >>= λ asked. ok (record { delegate = asked.0; approvals = [] }, asked.1)
by_memo fits ask m (approval ∷ approvals) =
    let later = by_memo fits ask m approvals in
    if fits approval then ok (record m { approvals = [] }, true) else later

abbrev pub memo_approver : {A : Type 0} → Approve A → Approve (MemoApprover A)
memo_approver d = record {
  approve_invoice =
      λ m i now. by_memo (is_invoice i) (λ a. d.approve_invoice a i now) m m.approvals;
  approve_keysend = λ m hash amount now.
      by_memo (is_keysend hash amount) (λ a. d.approve_keysend a hash amount now) m m.approvals;
  approve_onchain = λ m tx values indices.
      by_memo (is_onchain tx) (λ a. d.approve_onchain a tx values indices) m m.approvals;
}

-- What a request leaves of the approver and of the node, and its result.
pub record Handled (A : Type 0) : Type 0 where
  pub approver : A
  pub node : NodeState
  pub result : Outcome Bool

-- The node is asked to add the payment; where it fails the node is as it was.
abbrev pub with_added : {A : Type 0} → A → NodeState → Outcome (NodeState × Bool) → Handled A
with_added a n (ok (n', added)) = record { approver = a; node = n'; result = ok added }
with_added a n (err kind) = record { approver = a; node = n; result = err kind }
with_added a n panic = record { approver = a; node = n; result = panic }

-- After the approver answered.
abbrev pub if_approved :
    {A : Type 0} → A → NodeState → Outcome (A × Bool) → Outcome (NodeState × Bool) → Handled A
if_approved a n (ok (a', true)) added = with_added a' n added
if_approved a n (ok (a', false)) added = record { approver = a'; node = n; result = ok false }
if_approved a n (err kind) added = record { approver = a; node = n; result = err kind }
if_approved a n panic added = record { approver = a; node = n; result = panic }

-- The payment that the node has is approved; a different one for its hash is an error.
abbrev pub unless_known : {A : Type 0} → A → NodeState → Outcome Bool → Handled A → Handled A
unless_known a n (ok true) rest = record { approver = a; node = n; result = ok true }
unless_known a n (ok false) rest = rest
unless_known a n (err kind) rest = record { approver = a; node = n; result = err kind }
unless_known a n panic rest = record { approver = a; node = n; result = panic }

module _ {A : Type 0} (d : Approve A) (p : SimplePolicy) (persist : NodeState → Bool) where
  unfoldable pub handle_proposed_invoice : (ℕ → Bool) → A → NodeState → Invoice → ℕ → ℕ → Handled A
  handle_proposed_invoice allowlist_contains_payee a n i asked now =
      unless_known a n (has_payment n i.payment_hash i.invoice_hash) (
        if allowlist_contains_payee i.payee_pub_key
        then with_added a n (add_invoice p persist n i now)
        else if_approved a n (d.approve_invoice a i asked) (add_invoice p persist n i now))

  unfoldable pub handle_proposed_keysend : A → NodeState → ℕ → ℕ → ℕ → ℕ → ℕ → ℕ → Handled A
  handle_proposed_keysend a n payee payment_hash amount_msat asked created now =
      unless_known a n (has_payment n payment_hash payment_hash) (
        if_approved a n (d.approve_keysend a payment_hash amount_msat asked)
          (add_keysend p persist n payee payment_hash amount_msat created now))

  -- `checked` is the result of the node's `check_onchain_tx`.
  unfoldable pub handle_proposed_onchain : A → ℕ → List ℕ → Outcome (Unit {0}) → Outcome (A × Bool)
  handle_proposed_onchain a tx values_sat checked = elim checked [
    | ok done ↦ ok (a, true)
    | err kind ↦ elim kind [
      | ValidationErrorKind.unknown_destinations indices ↦ d.approve_onchain a tx values_sat indices
      | _ ↦ err ValidationErrorKind.status
    ]
    | panic ↦ panic
  ]
