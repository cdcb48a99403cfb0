-- ===== src/Approver/Tests.antt =====
-- An invoice that the velocity approves, and one that was memorized.
use vls.Prelude.{ℕ, ◌≡◌, ◌↔◌, ◌⊎◌, refl, Bool, true, false, [], ◌∷◌, ok, sub_u64, saturating_add}
use vls.Prelude.Maps.{put, or_insert}
use vls.Policy.{filter, policy_err_if}
use vls.Velocity
use vls.Velocity.{VelocityControl}
use vls.Validator.{make_simple_policy}
use vls.Node.{NodeState, new, add_duration}
use vls.Node.Invoices.{
  Invoice, has_payment, add_invoice, validate_invoice, add_payment, charge_invoice,
  payment_state_from_invoice,
}
use vls.Approver.{
  VelocityApprover, MemoApprover, Approval, Handled, memorize, negative_approver, velocity_approver,
  handle_proposed_invoice,
}
use vls.Approver.Approved.{
  Memorized, Delegated, handle_proposed_invoice-approved, memo_approver-once,
}
use vls.Samples.{policy}

abbrev stored : NodeState → Bool
stored n = true

abbrev listed : ℕ → Bool
listed payee = false

abbrev control : VelocityControl
control = record { start_sec = 0; bucket_interval = 300; buckets = 0 ∷ 0 ∷ []; limit = 1000000 }

abbrev invoice : Invoice
invoice = record {
  payment_hash = 7;
  invoice_hash = 70;
  amount_milli_satoshis = 500000;
  payee_pub_key = 3;
  duration_since_epoch = 1000000000000;
  expiry_duration = 3600000000000;
}

abbrev approver : VelocityApprover (Unit {0})
approver = record { control = control; delegate = tt }

abbrev handled : Handled (VelocityApprover (Unit {0}))
handled =
    handle_proposed_invoice (velocity_approver negative_approver) policy stored listed approver
      (new control control) invoice 1000000000000 1000000000000

handled_ok : handled.result ≡ ok true
unfolding handle_proposed_invoice has_payment add_invoice validate_invoice add_payment
    charge_invoice add_duration policy_err_if filter make_simple_policy new
    payment_state_from_invoice put or_insert Velocity.insert Velocity.shift Velocity.charge
    Velocity.push_zeros Velocity.velocity Velocity.total_from Velocity.add_to_first sub_u64
    saturating_add
handled_ok = refl

handle_proposed_invoice-approved_example :
    (has_payment handled.node 7 70 ≡ ok true)
    × ((has_payment (new control control) 7 70 ≡ ok true)
        ⊎ ((false ≡ true)
            ⊎ ((a' : VelocityApprover (Unit {0})) × ((velocity_approver
                      negative_approver).approve_invoice
                    approver invoice 1000000000000
                  ≡ ok (a', true)))))
handle_proposed_invoice-approved_example =
    handle_proposed_invoice-approved (velocity_approver negative_approver) policy stored listed
      approver (new control control) invoice 1000000000000 1000000000000 handled_ok

abbrev memo : MemoApprover (Unit {0})
memo = record { delegate = tt; approvals = Approval.key_send 1 2 ∷ Approval.invoice invoice ∷ [] }

memorized : memorize (record { delegate = tt; approvals = [] }) memo.approvals ≡ memo
unfolding memorize
memorized = refl

abbrev emptied : MemoApprover (Unit {0})
emptied = record memo { approvals = [] }

memo_approver-once_example :
    (emptied.approvals ≡ [])
    × ((true ≡ true)
        ↔ (Memorized invoice memo.approvals ⊎ Delegated negative_approver tt invoice 0))
    × (Memorized invoice memo.approvals → emptied.delegate ≡ memo.delegate)
memo_approver-once_example = memo_approver-once negative_approver memo invoice 0 emptied true refl
