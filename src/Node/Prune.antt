-- ===== src/Node/Prune.antt =====
-- What a node forgets on a heartbeat (vls-core/src/node.rs): invoices past their time and payments
-- that have ended. Built without the feature `timeless_workaround`, which is off by default.
use vls.Prelude.{
  ℕ, Bool, not, ◌&&◌, ◌||◌, ltb, ◌==◌, if◌then◌else◌, List, [], ◌∷◌, Outcome, ok, ◌>>=◌, unwrap,
  length,
}
use vls.Prelude.Maps.{Map, get, has, retain, contains}
use vls.Node.{
  PaymentType, PaymentState, RoutedPayment, NodeState, payment_fulfilled, is_no_incoming,
  is_no_outgoing, seconds, add_duration,
}

unfoldable pub prune_time : PaymentState → ℕ
prune_time state = elim state.payment_type [
  | PaymentType.invoice ↦ seconds 86400
  | PaymentType.keysend ↦ seconds 0
]

-- `duration_since_epoch + expiry_duration + prune_time`
unfoldable pub end_time : PaymentState → Outcome ℕ
end_time state = do
  expiry ← add_duration state.duration_since_epoch state.expiry_duration
  add_duration expiry (prune_time state)

unfoldable pub retain_issued : ℕ → Map PaymentState → Outcome (Map PaymentState)
retain_issued now [] = ok []
retain_issued now ((hash, issued) ∷ rest) = do
  until ← end_time issued
  kept ← retain_issued now rest
  ok (if ltb now until then (hash, issued) ∷ kept else kept)

-- An operation that prunes also says whether it changed something.
unfoldable pub prune_issued_invoices : NodeState → ℕ → Outcome (NodeState × Bool)
prune_issued_invoices n now = do
  kept ← retain_issued now n.issued_invoices
  ok (record n { issued_invoices = kept }, not (length kept == length n.issued_invoices))

unfoldable pub is_invoice_prunable : ℕ → PaymentState → RoutedPayment → Outcome Bool
is_invoice_prunable now state payment = do
  until ← end_time state
  ok (ltb until now && (payment_fulfilled payment || is_no_outgoing payment))

-- The hashes of the invoices to prune; an invoice without a payment is a panic.
unfoldable pub prunable : ℕ → Map RoutedPayment → Map PaymentState → Outcome (List ℕ)
prunable now payments [] = ok []
prunable now payments ((hash, state) ∷ rest) = do
  payment ← unwrap (get payments hash)
  drop ← is_invoice_prunable now state payment
  hashes ← prunable now payments rest
  ok (if drop then hash ∷ hashes else hashes)

unfoldable pub prune_invoices : NodeState → ℕ → Outcome (NodeState × Bool)
prune_invoices n now = do
  prune ← prunable now n.payments n.invoices
  let invoices = retain (λ hash state. not (contains prune hash)) n.invoices
  let payments = retain (λ hash payment. not (contains prune hash)) n.payments
  ok (
    record n { invoices = invoices; payments = payments },
    not (length invoices == length n.invoices) || not (length payments == length n.payments),
  )

unfoldable pub is_forwarded_payment_prunable : NodeState → ℕ → RoutedPayment → Bool
is_forwarded_payment_prunable n hash payment =
    not (has n.invoices hash)
    && (not (has n.issued_invoices hash) && (is_no_incoming payment && is_no_outgoing payment))

unfoldable pub prune_forwarded_payments : NodeState → NodeState × Bool
prune_forwarded_payments n =
    let payments =
      retain (λ hash payment. not (is_forwarded_payment_prunable n hash payment)) n.payments in
    (record n { payments = payments }, not (length payments == length n.payments))

-- What `get_heartbeat` prunes of the node's state.
unfoldable pub prune_state : NodeState → ℕ → Outcome NodeState
prune_state n now = do
  pruned1 ← prune_invoices n now
  pruned2 ← prune_issued_invoices pruned1.0 now
  ok (prune_forwarded_payments pruned2.0).0
