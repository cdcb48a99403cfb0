-- ===== src/Node/Tests.antt =====
-- A node that learns of an invoice, pays it on one channel, gets its preimage and forgets it.
use vls.Prelude.{
  ℕ, ◌+◌, ◌*◌, ◌≤◌, ◌≡◌, refl, Bool, true, false, none, some, [], ◌∷◌, arith, ok, add_u64, sub_u64,
  mul_u64, saturating_add, checked_add, checked_sub,
}
use vls.Prelude.Maps.{put, or_insert}
use vls.Policy.{filter, policy_err_if}
use vls.Velocity.{VelocityControl, VelocityControlIntervalType}
use vls.Velocity
use vls.Enforcement.Summary.{Summary, BalanceDelta}
use vls.Validator.{SimplePolicy, make_simple_policy, validate_payment_balance}
use vls.Node.{
  RoutedPayment, NodeState, new, updated_incoming_outgoing, apply, add_duration, restore_node,
  restore, restored_payments, create_payments, has_preimage, new_payment,
}
use vls.Node.Payments.{
  validate_payments, apply_payments, htlc_fulfilled, fulfilled_excess, totals, is_unbalanced,
  any_unbalanced, new_excess, adjust_excess, create, mark_fulfilled, is_issued_fulfilled, apply_all,
  invoiced_amount,
}
use vls.Node.Prune.{prune_state}
use vls.Node.Invoices.{
  Invoice, add_invoice, validate_invoice, add_payment, charge_invoice, payment_state_from_invoice,
}
use vls.Node.Balanced.{Checks}
use vls.Node.History.{Reach, Reach-no_overpayment}
use vls.Node.Life.{Life}
use vls.Node.Heartbeat.{Life-prune_state}
use vls.Node.Excess.{validate-apply_payments}
use vls.Node.Restore.{restore_node-has_preimage}
use vls.Tx.{
  claimable_balance, add_fee, add_values_if, total_value, sum_values, value_to_parties,
  holder_htlcs, sort,
}
use vls.Tx
use vls.Setup.{is_anchors, is_zero_fee_htlc, is_static_remotekey}
use vls.Enforcement.{CommitmentSignatures, advance_holder, set_next_holder_commit_num}
use vls.Enforcement
use vls.Enforcement.Summary.{
  claimable_balances, balance_of, min_opt, payments_summary, incoming_payments_summary,
  summarize_payments, summarize_from, or_insert_zeros, union_max, retain, modify_min,
}
use vls.Validator.{
  estimate_feerate_per_kw, validate_fee, expected_commitment_tx_weight, validate_expiry,
}
use vls.Validator.Commitment.{
  validate_commitment_tx, validate_holder_commitment_tx, check_htlcs, check_initial,
  htlc_dust_limit,
}
use vls.Channel.{
  Channel, get_per_commitment_point, get_per_commitment_secret, build_holder_commitment_info,
  advance_holder_commitment_state,
}
use vls.Channel.Requests.{
  holder_commitment, validate_holder_commitment_tx_phase2, sign_counterparty_commitment_tx_phase2,
}
use vls.Node.Payments.{node_payments}
use vls.Node.Client.{requests-Reach}
use vls.Samples.{policy, setup, keys, persist}

abbrev enforcing : SimplePolicy
enforcing = record policy { enforce_balance = true }

abbrev hash : ℕ → ℕ
hash preimage = preimage + 2

abbrev stored : NodeState → Bool
stored n = true

abbrev control : VelocityControl
control = record { start_sec = 0; bucket_interval = 300; buckets = 0 ∷ 0 ∷ []; limit = 1000000 }

abbrev invoice : Invoice
invoice = record {
  payment_hash = 7;
  invoice_hash = 70;
  amount_milli_satoshis = 500000;
  payee_pub_key = 3;
  duration_since_epoch = 1000000000000;
  expiry_duration = 3600000000000;
}

abbrev invoiced : NodeState
invoiced = record {
  invoices = (7, payment_state_from_invoice invoice) ∷ [];
  issued_invoices = [];
  payments = (7, new_payment) ∷ [];
  excess_amount = 0;
  velocity_control = record {
    start_sec = 900;
    bucket_interval = 300;
    buckets = 500000 ∷ 0 ∷ [];
    limit = 1000000;
  };
  fee_velocity_control = control;
}

abbrev outgoing : Summary
outgoing = (7, 500) ∷ []

abbrev delta : BalanceDelta
delta = record { before = 900; after = 1000 }

abbrev in_flight : RoutedPayment
in_flight = record { incoming = (1, 0) ∷ []; outgoing = (1, 500) ∷ []; preimage = none }

abbrev paying : NodeState
paying = record invoiced { payments = (7, in_flight) ∷ []; excess_amount = 100 }

abbrev paid : NodeState
paid = record paying { payments = (7, record in_flight { preimage = some 5 }) ∷ [] }

abbrev start : Channel
start = record { enforcement_state = Enforcement.new 3000000; setup = setup }

abbrev signatures : CommitmentSignatures
signatures = record { commit_sig = 1; htlc_sigs = [] }

checks : Checks enforcing.filter
unfolding make_simple_policy filter
checks = record { routing = refl; balanced = refl }

add_ok :
    add_invoice enforcing stored (new control control) invoice 1000000000000 ≡ ok (invoiced, true)
unfolding add_invoice validate_invoice add_payment charge_invoice add_duration policy_err_if filter
    make_simple_policy new payment_state_from_invoice put or_insert Velocity.insert Velocity.shift
    Velocity.charge Velocity.push_zeros Velocity.velocity Velocity.total_from Velocity.add_to_first
    sub_u64 saturating_add
add_ok = refl

validate_ok : validate_payments enforcing 1 [] outgoing invoiced delta ≡ ok tt
unfolding validate_payments any_unbalanced is_unbalanced totals updated_incoming_outgoing
    validate_payment_balance invoiced_amount policy_err_if filter make_simple_policy put add_u64
    mul_u64 new_excess checked_add checked_sub payment_state_from_invoice
validate_ok = refl

apply_ok : apply_payments enforcing 1 [] outgoing invoiced delta ≡ ok paying
unfolding apply_payments adjust_excess create mark_fulfilled is_issued_fulfilled apply_all apply put
    or_insert new_excess checked_add checked_sub updated_incoming_outgoing
apply_ok = refl

fulfil_ok : htlc_fulfilled enforcing hash paying 5 ≡ ok (paid, true)
unfolding htlc_fulfilled fulfilled_excess put
fulfil_ok = refl

reach : Reach enforcing hash stored paying
unfolding new
reach =
    Reach.commit paying 1 [] outgoing delta
      (Reach.add invoiced invoice 1000000000000 true (Reach.begin control control) (λ q present. cc)
        add_ok)
      validate_ok apply_ok

Reach-no_overpayment_example : 500 * 1000 ≤ 0 * 1000 + (500000 + enforcing.max_routing_fee_msat)
unfolding payment_state_from_invoice make_simple_policy
Reach-no_overpayment_example =
    Reach-no_overpayment enforcing hash stored paying 7 (payment_state_from_invoice invoice)
      in_flight checks reach refl refl (omega arith) (omega arith)

validate-apply_payments_example :
    (n' : NodeState) × (apply_payments enforcing 1 [] outgoing invoiced delta ≡ ok n')
    × (n'.excess_amount + 900 ≡ 0 + 1000)
validate-apply_payments_example =
    validate-apply_payments enforcing 1 [] outgoing invoiced delta validate_ok

life : Life enforcing hash stored paying
unfolding new
life =
    Life.commit paying 1 [] outgoing delta
      (Life.add invoiced invoice 1000000000000 true (Life.begin control control) add_ok) apply_ok

Life-prune_state_example : (n' : NodeState) × (prune_state paying 2000000000000 ≡ ok n')
unfolding payment_state_from_invoice
Life-prune_state_example =
    Life-prune_state enforcing hash stored paying 2000000000000 life (omega arith, tt) tt

restore_node-has_preimage_example :
    has_preimage (restore_node hash invoiced.invoices [] (5 ∷ 6 ∷ []) 0 control control) 7 ≡ false
restore_node-has_preimage_example =
    restore_node-has_preimage hash invoiced.invoices [] (5 ∷ 6 ∷ []) 0 control control 7

-- The other preimage is known.
other_restored :
    has_preimage (restore_node hash invoiced.invoices [] (5 ∷ 6 ∷ []) 0 control control) 8 ≡ true
unfolding has_preimage restore_node restore restored_payments create_payments put
other_restored = refl

requests-Reach_example :
    Reach enforcing hash stored
      (validate_holder_commitment_tx_phase2 enforcing keys
        (node_payments enforcing 1)
        persist
        start
        paying
        100
        0
        1000
        2999000
        0
        []
        []
        signatures).node
    × Reach enforcing hash stored
        (sign_counterparty_commitment_tx_phase2 enforcing keys
          (node_payments enforcing 1)
          persist
          start
          paying
          100
          5
          0
          1000
          2999000
          0
          []
          []).node
requests-Reach_example =
    requests-Reach enforcing hash stored keys persist 1 start paying 100 5 0 1000 2999000 0 [] []
      signatures reach

-- The validation of the first commitment is one of these requests that succeeds.
request_ok :
    (validate_holder_commitment_tx_phase2 enforcing keys
      (node_payments enforcing 1)
      persist
      start
      paying
      100
      0
      1000
      2999000
      0
      []
      []
      signatures).result
    ≡ ok (281474976710659, none)
unfolding validate_holder_commitment_tx_phase2 holder_commitment get_per_commitment_point
    build_holder_commitment_info claimable_balances balance_of min_opt claimable_balance add_fee
    add_values_if total_value sum_values value_to_parties holder_htlcs sort Tx.new
    validate_holder_commitment_tx validate_commitment_tx check_htlcs check_initial htlc_dust_limit
    validate_fee validate_expiry estimate_feerate_per_kw expected_commitment_tx_weight policy_err_if
    filter is_anchors is_zero_fee_htlc is_static_remotekey make_simple_policy checked_add
    checked_sub add_u64 sub_u64 mul_u64 Enforcement.new advance_holder_commitment_state
    advance_holder set_next_holder_commit_num get_per_commitment_secret validate_payments
    any_unbalanced new_excess apply_payments adjust_excess create mark_fulfilled apply_all
    payments_summary incoming_payments_summary summarize_payments summarize_from or_insert_zeros
    union_max retain modify_min
request_ok = refl
