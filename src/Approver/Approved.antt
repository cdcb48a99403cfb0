-- ===== src/Approver/Approved.antt =====
-- A payment is added only with an approval, and every approved one is known afterwards.
use mathlib.Core.List.{Memᴰ}
use mathlib.Core.List.Memᴰ
use vls.Prelude.{
  ℕ, ◌≡◌, ◌↔◌, refl, sym, ap, subst, ◌∙◌, Bool, true, false, ◌==◌, ==_iff, if◌then◌else◌, List, [],
  ◌∷◌, arith, Outcome, ok, err, panic, >>=-eq-ok, >>-eq-ok, ok_inj, if-eq-ok, inl, inr, ◌⊎◌,
  Bool-cases, Option-cases, leb, length, assert, ◌/◌,
}
use vls.Prelude.Maps.{get, get-put}
use vls.Velocity.{insert}
use vls.Validator.{SimplePolicy}
use vls.Node.{PaymentState, NodeState, seconds}
use vls.Node.Invoices.{
  Invoice, has_payment, add_invoice, add_payment, charge_invoice, validate_invoice,
  payment_state_from_invoice,
}
use vls.Approver.{
  Approve, MemoApprover, Approval, by_memo, is_invoice, memo_approver, Handled, with_added,
  if_approved, unless_known, handle_proposed_invoice,
}

charge_invoice-known :
    (p : SimplePolicy) (persist : NodeState → Bool) (n n' : NodeState) (hash : ℕ)
    (state : PaymentState) (now : ℕ)
    → charge_invoice p persist n hash state now ≡ ok (n', true)
    → has_payment n' hash state.invoice_hash ≡ ok true
unfolding charge_invoice has_payment
charge_invoice-known p persist n n' hash state now h =
    let (done, inserted, rest) =
      >>=-eq-ok (insert n.velocity_control (now / seconds 1) state.amount_msat) _ h in
    elim (if-eq-ok done.1 _ _ rest) [
      | inl (accepted, stored) ↦
          let (fine, made) = >>-eq-ok (assert (persist _)) _ stored in
          ground (
            arith,
            made,
            get-put hash state n.invoices hash,
            ==_iff hash hash,
            ==_iff state.invoice_hash state.invoice_hash,
          )
      | inr (rejected, made) ↦ absurd (ground (arith, made))
    ]

add_payment-known :
    (p : SimplePolicy) (persist : NodeState → Bool) (n n' : NodeState) (hash : ℕ)
    (state : PaymentState) (now : ℕ)
    → add_payment p persist n hash state now ≡ ok (n', true)
    → has_payment n' hash state.invoice_hash ≡ ok true
unfolding add_payment has_payment
add_payment-known p persist n n' hash state now h =
    elim (if-eq-ok (leb p.max_invoices (length n.invoices)) _ _ h) [
      | inl (full, failed) ↦ cc
      | inr (room, rest) ↦ elim (Option-cases (get n.invoices hash)) [
        | inl missing ↦ charge_invoice-known p persist n n' hash state now (rw (missing) at rest)
        | inr (present, is) ↦
            elim (if-eq-ok (present.invoice_hash == state.invoice_hash) _ _ (rw (is) at rest)) [
              | inl (same, made) ↦ ground (arith, made, is, same)
              | inr (other, failed) ↦ cc
            ]
      ]
    ]

with_added-true :
    {A : Type 0} (a : A) (n : NodeState) (o : Outcome (NodeState × Bool))
    → (with_added a n o).result ≡ ok true
    → o ≡ ok ((with_added a n o).node, true)
with_added-true a n (ok (n', added)) h = ap (λ r. ok (n', r)) (ok_inj h)
with_added-true a n (err kind) h = cc
with_added-true a n panic h = cc

if_approved-true :
    {A : Type 0} (a : A) (n : NodeState) (answer : Outcome (A × Bool))
    (o : Outcome (NodeState × Bool))
    → (if_approved a n answer o).result ≡ ok true
    → (o ≡ ok ((if_approved a n answer o).node, true)) × ((a' : A) × (answer ≡ ok (a', true)))
if_approved-true a n (ok (a', true)) o h = (with_added-true a' n o h, (a', refl))
if_approved-true a n (ok (a', false)) o h = absurd (ground (arith, h))
if_approved-true a n (err kind) o h = cc
if_approved-true a n panic o h = cc

unless_known-true :
    {A : Type 0} (a : A) (n : NodeState) (known : Outcome Bool) (rest : Handled A)
    → (unless_known a n known rest).result ≡ ok true
    → ((known ≡ ok true) × ((unless_known a n known rest).node ≡ n))
      ⊎ ((rest.result ≡ ok true) × ((unless_known a n known rest).node ≡ rest.node))
unless_known-true a n (ok true) rest h = inl (refl, refl)
unless_known-true a n (ok false) rest h = inr (h, refl)
unless_known-true a n (err kind) rest h = cc
unless_known-true a n panic rest h = cc

add_invoice-known :
    (p : SimplePolicy) (persist : NodeState → Bool) (n n' : NodeState) (i : Invoice) (now : ℕ)
    → add_invoice p persist n i now ≡ ok (n', true)
    → has_payment n' i.payment_hash i.invoice_hash ≡ ok true
unfolding add_invoice payment_state_from_invoice
add_invoice-known p persist n n' i now h =
    let (valid, stored) = >>-eq-ok (validate_invoice p persist i now) _ h in
    add_payment-known p persist n n' i.payment_hash (payment_state_from_invoice i) now stored

-- A proposed invoice ends with success only if the node has it in the end, and had it before, or its
-- payee is on the allowlist, or the approver approved it.
pub handle_proposed_invoice-approved :
    {A : Type 0} (d : Approve A) (p : SimplePolicy) (persist : NodeState → Bool)
    (allowlist : ℕ → Bool) (a : A) (n : NodeState) (i : Invoice) (asked now : ℕ)
    → (handle_proposed_invoice d p persist allowlist a n i asked now).result ≡ ok true
    → (has_payment
          (handle_proposed_invoice d p persist allowlist a n i asked now).node
          i.payment_hash
          i.invoice_hash
        ≡ ok true)
      × ((has_payment n i.payment_hash i.invoice_hash ≡ ok true)
          ⊎ ((allowlist i.payee_pub_key ≡ true)
              ⊎ ((a' : A) × (d.approve_invoice a i asked ≡ ok (a', true)))))
unfolding handle_proposed_invoice
handle_proposed_invoice-approved d p persist allowlist a n i asked now h =
    let added = add_invoice p persist n i now in
    let answer = d.approve_invoice a i asked in
    let rest =
      if allowlist i.payee_pub_key then with_added a n added else if_approved a n answer added in
    let Known : NodeState → Type 0 = λ m. has_payment m i.payment_hash i.invoice_hash ≡ ok true in
    elim (unless_known-true a n (has_payment n i.payment_hash i.invoice_hash) rest h) [
      | inl (known, same) ↦ (subst Known (sym same) known, inl known)
      | inr (done, same) ↦ elim (Bool-cases (allowlist i.payee_pub_key)) [
        | inl listed ↦
            let is : rest ≡ with_added a n added = ground (arith, listed) in
            let stored = with_added-true a n added (sym (ap (λ x. x.result) is) ∙ done) in
            (
              subst Known (sym (same ∙ ap (λ x. x.node) is))
                  (add_invoice-known p persist n _ i now stored),
              inr (inl listed),
            )
        | inr unlisted ↦
            let is : rest ≡ if_approved a n answer added = ground (arith, unlisted) in
            let (stored, approved) =
              if_approved-true a n answer added (sym (ap (λ x. x.result) is) ∙ done) in
            (
              subst Known (sym (same ∙ ap (λ x. x.node) is))
                  (add_invoice-known p persist n _ i now stored),
              inr (inr approved),
            )
      ]
    ]

-- An approval in the list is for an invoice with the same hash.
abbrev pub Memorized : Invoice → List Approval → Type 0
Memorized i approvals =
    (known : Invoice) × Memᴰ (Approval.invoice known) approvals
    × (known.invoice_hash ≡ i.invoice_hash)

is_invoice-same :
    (i : Invoice) (x : Approval)
    → is_invoice i x ≡ true
    → (known : Invoice) × (Approval.invoice known ≡ x) × (known.invoice_hash ≡ i.invoice_hash)
is_invoice-same i (Approval.invoice known) h =
    (known, refl, (==_iff known.invoice_hash i.invoice_hash).0 h)
is_invoice-same i (Approval.key_send hash amount) h = cc
is_invoice-same i (Approval.onchain tx) h = cc

same-is_invoice :
    (i known : Invoice) (x : Approval)
    → Approval.invoice known ≡ x
    → known.invoice_hash ≡ i.invoice_hash
    → is_invoice i x ≡ true
same-is_invoice i known x is same =
    subst (λ y. is_invoice i y ≡ true) is ((==_iff known.invoice_hash i.invoice_hash).1 same)

-- The delegate approves the invoice.
abbrev pub Delegated : {A : Type 0} → Approve A → A → Invoice → ℕ → Type 0
Delegated {A} d a i now = (a' : A) × (d.approve_invoice a i now ≡ ok (a', true))

module _ {A : Type 0} (d : Approve A) (m : MemoApprover A) (i : Invoice) (now : ℕ) where
  by_memo-once :
      (m' : MemoApprover A) (xs : List Approval) (approved : Bool)
      → by_memo (is_invoice i) (λ a. d.approve_invoice a i now) m xs ≡ ok (m', approved)
      → (m'.approvals ≡ [])
        × ((approved ≡ true) ↔ (Memorized i xs ⊎ Delegated d m.delegate i now))
        × (Memorized i xs → m'.delegate ≡ m.delegate)
  by_memo-once m' [] approved h =
      let (asked, answer, made) = >>=-eq-ok (d.approve_invoice m.delegate i now) _ h in
      let is : asked.1 ≡ approved = ap (λ r. r.1) (ok_inj made) in
      (
        sym (ap (λ r. r.0.approvals) (ok_inj made)),
        (
          λ yes. inr (asked.0, answer ∙ ap (λ b. ok (asked.0, b)) (is ∙ yes)),
          λ why. elim why [
            | inl (known, member, same) ↦ absurd (Memᴰ.not-nil member)
            | inr (a', approves) ↦ sym is ∙ ap (λ r. r.1) (ok_inj (sym answer ∙ approves))
          ],
        ),
        λ memorized. absurd (Memᴰ.not-nil memorized.1),
      )
  by_memo-once m' (x ∷ xs) approved h = elim (if-eq-ok (is_invoice i x) _ _ h) [
    | inl (fit, made) ↦
        let (known, is, same) = is_invoice-same i x fit in
        let yes : true ≡ approved = ap (λ r. r.1) (ok_inj made) in
        (
          sym (ap (λ r. r.0.approvals) (ok_inj made)),
          (λ so. inl (known, Memᴰ.head is, same), λ why. sym yes),
          λ memorized. sym (ap (λ r. r.0.delegate) (ok_inj made)),
        )
    | inr (unfit, later) ↦
        let (emptied, from, kept) = by_memo-once m' xs approved later in
        let rest : Memorized i (x ∷ xs) → Memorized i xs = λ memorized.
          elim (Memᴰ.cases_cons memorized.1) [
            | inl is ↦
                absurd (ground (arith, unfit, same-is_invoice i memorized.0 x is memorized.2))
            | inr member ↦ (memorized.0, member, memorized.2)
          ] in
        (
          emptied,
          (
            λ yes. elim (from.0 yes) [
              | inl (known, member, same) ↦ inl (known, Memᴰ.tail member, same)
              | inr delegated ↦ inr delegated
            ],
            λ why. elim why [
              | inl memorized ↦ from.1 (inl (rest memorized))
              | inr delegated ↦ from.1 (inr delegated)
            ],
          ),
          λ memorized. kept (rest memorized),
        )
  ]

  -- A request to approve an invoice that returns empties the memo. It approves the invoice exactly
  -- if an invoice with the same hash was memorized or the delegate, as it was, approves it; where
  -- one was memorized, the delegate is left as it was.
  pub memo_approver-once :
      (m' : MemoApprover A) (approved : Bool)
      → (memo_approver d).approve_invoice m i now ≡ ok (m', approved)
      → (m'.approvals ≡ [])
        × ((approved ≡ true) ↔ (Memorized i m.approvals ⊎ Delegated d m.delegate i now))
        × (Memorized i m.approvals → m'.delegate ≡ m.delegate)
  memo_approver-once m' approved h = by_memo-once m' m.approvals approved h
