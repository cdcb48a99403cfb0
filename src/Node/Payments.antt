-- ===== src/Node/Payments.antt =====
-- How a commitment changes the payments of a node (`validate_payments`, `apply_payments`), and
-- what a preimage does (`htlc_fulfilled`), all of vls-core/src/node.rs, with `restore_payments` of
-- vls-core/src/channel.rs.
use vls.Prelude.{
  ℕ, ◌/◌, Bool, true, false, not, ◌&&◌, ◌||◌, leb, if◌then◌else◌, Option, none, some, List, [], ◌∷◌,
  ◌++◌, add_u64, mul_u64, checked_add, checked_sub, Outcome, ok, err, panic, unwrap, ok_or,
  ValidationErrorKind, ◌>>=◌, ◌>>◌,
}
use vls.Prelude.Maps.{Map, get, get_or, has, put, or_insert, keys_of}
use vls.Policy.{policy_err_if}
use vls.Enforcement.{EnforcementState}
use vls.Enforcement.Summary.{Summary, BalanceDelta, payments_summary, incoming_payments_summary}
use vls.Validator.{SimplePolicy, validate_payment_balance}
use vls.Channel.Requests.{Payments}
use vls.Node.{
  RoutedPayment, NodeState, new_payment, payment_fulfilled, updated_incoming_outgoing,
  incoming_outgoing, apply, has_preimage,
}

-- The hashes of both summaries. A hash of both occurs twice here, and once in the source's set;
-- what is done for a hash, done again, changes nothing more.
abbrev pub hashes_of : Summary → Summary → List ℕ
hashes_of incoming outgoing = keys_of incoming ++ keys_of outgoing

-- The totals of a payment, if the channel updates to these amounts.
unfoldable pub totals : Option RoutedPayment → ℕ → ℕ → ℕ → ℕ × ℕ
totals none channel_id incoming_sat outgoing_sat = (incoming_sat, outgoing_sat)
totals (some p) channel_id incoming_sat outgoing_sat =
    updated_incoming_outgoing p channel_id incoming_sat outgoing_sat

unfoldable pub invoiced_amount : NodeState → ℕ → Option ℕ
invoiced_amount n hash = elim (get n.invoices hash) [ none ↦ none | some i ↦ some i.amount_msat ]

-- Whether a check ended with an error.
abbrev pub is_err : Outcome (Unit {0}) → Bool
is_err (ok done) = false
is_err (err kind) = true
is_err panic = false

module _ (p : SimplePolicy) (channel_id : ℕ) (incoming outgoing : Summary) where
  -- Whether `validate_payments` counts the hash as unbalanced.
  unfoldable pub is_unbalanced : NodeState → ℕ → Bool
  is_unbalanced n hash =
      let (incoming_sat, outgoing_sat) =
        totals (get n.payments hash) channel_id (get_or 0 incoming hash) (get_or 0 outgoing hash) in
      is_err (
        validate_payment_balance p (mul_u64 incoming_sat 1000) (mul_u64 outgoing_sat 1000)
          (invoiced_amount n hash))
      && not (has n.payments hash && not (has n.invoices hash))

  unfoldable pub any_unbalanced : NodeState → List ℕ → Bool
  any_unbalanced n [] = false
  any_unbalanced n (hash ∷ hashes) = is_unbalanced n hash || any_unbalanced n hashes

  -- The new excess amount, where it is not below zero.
  unfoldable pub new_excess : NodeState → BalanceDelta → Outcome (Option ℕ)
  new_excess n delta = do
    sum ← unwrap (checked_add n.excess_amount delta.after)
    ok (checked_sub sum delta.before)

  abbrev pub check_excess : NodeState → BalanceDelta → Outcome (Unit {0})
  check_excess n delta =
      if p.enforce_balance
      then (new_excess n delta >>= λ excess. ok_or ValidationErrorKind.policy excess >>= λ e. ok tt)
      else ok tt

  unfoldable pub validate_payments : NodeState → BalanceDelta → Outcome (Unit {0})
  validate_payments n delta =
      policy_err_if p.filter (any_unbalanced n (hashes_of incoming outgoing))
        "policy-commitment-htlc-routing-balance"
      >> check_excess n delta

  unfoldable pub create : List ℕ → Map RoutedPayment → Map RoutedPayment
  create [] payments = payments
  create (hash ∷ hashes) payments = create hashes (or_insert hash new_payment payments)

  -- Whether `apply_payments` takes an issued invoice to be fulfilled.
  unfoldable pub is_issued_fulfilled : NodeState → ℕ → Bool
  is_issued_fulfilled n hash =
      let payment = get_or new_payment n.payments hash in
      let (incoming_sat, outgoing_sat) =
        updated_incoming_outgoing payment channel_id (get_or 0 incoming hash)
          (get_or 0 outgoing hash) in
      elim (get n.issued_invoices hash) [
        | none ↦ false
        | some issued ↦
            not (payment_fulfilled payment)
            && leb (add_u64 outgoing_sat (issued.amount_msat / 1000)) incoming_sat
      ]

  -- A dummy preimage for each issued invoice that is fulfilled.
  unfoldable pub mark_fulfilled : NodeState → List ℕ → Map RoutedPayment → Map RoutedPayment
  mark_fulfilled n [] payments = payments
  mark_fulfilled n (hash ∷ hashes) payments =
      let rest = mark_fulfilled n hashes payments in
      if is_issued_fulfilled n hash
      then put hash (record (get_or new_payment rest hash) { preimage = some 0 }) rest
      else rest

  unfoldable pub apply_all : List ℕ → Map RoutedPayment → Map RoutedPayment
  apply_all [] payments = payments
  apply_all (hash ∷ hashes) payments =
      let rest = apply_all hashes payments in
      put hash
        (apply (get_or new_payment rest hash) channel_id (get_or 0 incoming hash)
          (get_or 0 outgoing hash))
        rest

  -- All of `apply_payments` but its last loop.
  unfoldable pub adjust_excess : NodeState → BalanceDelta → Outcome NodeState
  adjust_excess n delta =
      let hashes = hashes_of incoming outgoing in
      let created = create hashes n.payments in
      if p.enforce_balance
      then (new_excess n delta >>= λ e. unwrap e >>= λ excess.
          ok (record n { payments = mark_fulfilled n hashes created; excess_amount = excess }))
      else ok (record n { payments = created })

  unfoldable pub apply_payments : NodeState → BalanceDelta → Outcome NodeState
  apply_payments n delta = adjust_excess n delta >>= λ adjusted.
      ok (record adjusted { payments = apply_all (hashes_of incoming outgoing) adjusted.payments })

  -- The same loop for the current commitments of a restored channel.
  unfoldable pub apply_current : NodeState → NodeState
  apply_current n = record n { payments = apply_all (hashes_of incoming outgoing) n.payments }

unfoldable pub restore_payments : SimplePolicy → ℕ → EnforcementState → NodeState → NodeState
restore_payments p channel_id s n =
    apply_current p channel_id (incoming_payments_summary s none none)
      (payments_summary s none none) n

-- The result of an infallible function, `none` for a panic.
abbrev pub returned {ℓ} : {A : Type ℓ} → Outcome A → Option A
returned (ok a) = some a
returned (err kind) = none
returned panic = none

-- What a channel uses of the node, for the channel with this id.
abbrev pub node_payments : SimplePolicy → ℕ → Payments NodeState
node_payments p channel_id = record {
  has_preimage = has_preimage;
  validate_payments =
      λ n incoming outgoing delta. validate_payments p channel_id incoming outgoing n delta;
  apply_payments =
      λ n incoming outgoing delta. returned (apply_payments p channel_id incoming outgoing n delta);
}

module _ (p : SimplePolicy) (hash : ℕ → ℕ) where
  -- Without an invoice for it, a fulfilled payment moves its gain to the excess.
  unfoldable pub fulfilled_excess : NodeState → ℕ → RoutedPayment → Outcome ℕ
  fulfilled_excess n payment_hash payment =
      let (incoming, outgoing) = incoming_outgoing payment in
      if has n.invoices payment_hash || not p.enforce_balance
      then ok n.excess_amount
      else (unwrap (checked_add n.excess_amount incoming) >>= λ more.
          unwrap (checked_sub more outgoing))

  abbrev pub fulfil : NodeState → ℕ → Option RoutedPayment → Outcome (NodeState × Bool)
  fulfil n preimage none = ok (n, false)
  fulfil n preimage (some payment) =
      if payment_fulfilled payment
      then ok (n, false)
      else (fulfilled_excess n (hash preimage) payment >>= λ excess. ok (
        record n {
          payments = put (hash preimage) (record payment { preimage = some preimage }) n.payments;
          excess_amount = excess;
        },
        true,
      ))

  unfoldable pub htlc_fulfilled : NodeState → ℕ → Outcome (NodeState × Bool)
  htlc_fulfilled n preimage = fulfil n preimage (get n.payments (hash preimage))

  unfoldable pub htlcs_fulfilled : NodeState → List ℕ → Outcome NodeState
  htlcs_fulfilled n [] = ok n
  htlcs_fulfilled n (preimage ∷ preimages) =
      htlc_fulfilled n preimage >>= λ done. htlcs_fulfilled done.0 preimages
