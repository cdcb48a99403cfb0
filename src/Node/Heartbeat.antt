-- ===== src/Node/Heartbeat.antt =====
-- A heartbeat of a node returns.
use vls.Prelude.{
  ℕ, ◌+◌, ◌<◌, ◌≡◌, refl, Bool, if◌then◌else◌, some, List, [], ◌∷◌, arith, ok, ltb, u64_mod, true,
  not, ◌&&◌, ◌||◌, Option-cases, inl, inr,
}
use vls.Prelude.Maps.{Map, get, has, retain, contains}
use vls.Validator.{SimplePolicy}
use vls.Node.{
  PaymentState, RoutedPayment, NodeState, seconds, add_duration, payment_fulfilled, is_no_outgoing,
}
use vls.Node.Prune.{
  prune_time, end_time, retain_issued, prune_issued_invoices, is_invoice_prunable, prunable,
  prune_invoices, prune_forwarded_payments, prune_state,
}
use vls.Node.Life.{Life, Life-Paid}

-- The times of every invoice and the longest time after which one is pruned add up to a duration.
abbrev pub Fits : PaymentState → Type 0
Fits state = state.duration_since_epoch + state.expiry_duration + seconds 86400 < seconds u64_mod

abbrev pub AllFit : Map PaymentState → Type 0
AllFit [] = Unit
AllFit ((hash, state) ∷ rest) = Fits state × AllFit rest

end_time-returns : (state : PaymentState) → Fits state → (t : ℕ) × (end_time state ≡ ok t)
unfolding end_time add_duration prune_time
end_time-returns state fits =
    (state.duration_since_epoch + state.expiry_duration + prune_time state, ground arith)

retain_issued-returns :
    (now : ℕ) (m : Map PaymentState)
    → AllFit m
    → (kept : Map PaymentState) × (retain_issued now m ≡ ok kept)
unfolding retain_issued
retain_issued-returns now [] fit = ([], refl)
retain_issued-returns now ((hash, issued) ∷ rest) fit =
    let (until, ends) = end_time-returns issued fit.0 in
    let (kept, is) = retain_issued-returns now rest fit.1 in
    (if ltb now until then (hash, issued) ∷ kept else kept, ground (arith, ends, is))

prunable-returns :
    (now : ℕ) (payments : Map RoutedPayment) (m : Map PaymentState)
    → AllFit m
    → ((j : ℕ) → has m j ≡ true → (q : RoutedPayment) × (get payments j ≡ some q))
    → (hashes : List ℕ) × (prunable now payments m ≡ ok hashes)
unfolding prunable is_invoice_prunable
prunable-returns now payments [] fit paid = ([], refl)
prunable-returns now payments ((hash, state) ∷ rest) fit paid =
    let (until, ends) = end_time-returns state fit.0 in
    let (q, present) = paid hash (ground arith) in
    let (hashes, is) =
      prunable-returns now payments rest fit.1 (λ j h. paid j (ground (arith, h))) in
    let drop = ltb until now && (payment_fulfilled q || is_no_outgoing q) in
    (if drop then hash ∷ hashes else hashes, ground (arith, ends, present, is))

-- In every state that a node reaches from its creation, or from a restart with any stored state,
-- through commitments, preimages, new invoices and keysends, issued invoices and heartbeats in any
-- order and under any policy, a heartbeat prunes without a panic, whatever the time, where the times
-- of the invoices, added and issued, are within the range of a duration.
pub Life-prune_state :
    (p : SimplePolicy) (hash : ℕ → ℕ) (persist : NodeState → Bool) (n : NodeState) (now : ℕ)
    → Life p hash persist n
    → AllFit n.invoices
    → AllFit n.issued_invoices
    → (n' : NodeState) × (prune_state n now ≡ ok n')
unfolding prune_state prune_invoices prune_issued_invoices
Life-prune_state p hash persist n now r fit fit_issued =
    let (hashes, pruned) = prunable-returns now n.payments n.invoices fit (λ j h.
      elim (Option-cases (get n.invoices j)) [
        | inl missing ↦ absurd (ground (arith, missing, h))
        | inr (i, invoiced) ↦ Life-Paid p hash persist n r j i invoiced
      ]) in
    let (kept, left) = retain_issued-returns now n.issued_invoices fit_issued in
    (
      (prune_forwarded_payments (record n {
        invoices = retain (λ hash state. not (contains hashes hash)) n.invoices;
        payments = retain (λ hash payment. not (contains hashes hash)) n.payments;
        issued_invoices = kept;
      })).0,
      rw (pruned, left),
    )
