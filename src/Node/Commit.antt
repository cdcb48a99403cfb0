-- ===== src/Node/Commit.antt =====
-- The payments of a node before and after a commitment.
use vls.Prelude.{
  ℕ, ◌≡◌, refl, ok_inj, if-eq-ok, subst, true, false, inl, inr, unwrap, ok, >>=-eq-ok, ◌&&◌,
  if◌then◌else◌, some, List, [], ◌∷◌, arith,
}
use vls.Prelude.Maps.{Map, get, get_or, or_insert, contains, get-put, get-or_insert, put-put}
use vls.Enforcement.Summary.{Summary, BalanceDelta}
use vls.Validator.{SimplePolicy}
use vls.Node.{RoutedPayment, NodeState, new_payment, apply}
use vls.Node.Payments.{
  create, mark_fulfilled, is_issued_fulfilled, apply_all, hashes_of, new_excess, adjust_excess,
  apply_payments,
}

module _ (p : SimplePolicy) (channel_id : ℕ) (incoming outgoing : Summary) where
  apply_again :
      (q : RoutedPayment) (a b : ℕ)
      → apply (apply q channel_id a b) channel_id a b ≡ apply q channel_id a b
  unfolding apply
  apply_again q a b = rw (put-put channel_id a q.incoming, put-put channel_id b q.outgoing)

  -- A payment as the channel updates it.
  abbrev pub applied : ℕ → Map RoutedPayment → RoutedPayment
  applied j m =
      apply (get_or new_payment m j) channel_id (get_or 0 incoming j) (get_or 0 outgoing j)

  pub get-apply_all :
      (hashes : List ℕ) (m : Map RoutedPayment) (j : ℕ)
      → get (apply_all p channel_id incoming outgoing hashes m) j
        ≡ (if contains hashes j then some (applied j m) else get m j)
  unfolding apply_all
  get-apply_all [] m j = refl
  get-apply_all (hash ∷ hashes) m j =
      let rest = apply_all p channel_id incoming outgoing hashes m in
      ground (
        arith,
        get-put hash (applied hash rest) rest j,
        get-apply_all hashes m j,
        apply_again (get_or new_payment m j) (get_or 0 incoming j) (get_or 0 outgoing j),
      )

  pub get-create :
      (hashes : List ℕ) (m : Map RoutedPayment) (j : ℕ)
      → get (create p channel_id incoming outgoing hashes m) j
        ≡ (if contains hashes j then some (get_or new_payment m j) else get m j)
  unfolding create
  get-create [] m j = refl
  get-create (hash ∷ hashes) m j = ground (
    arith,
    get-or_insert hash new_payment m j,
    get-create hashes (or_insert hash new_payment m) j,
  )

  abbrev pub marked : RoutedPayment → RoutedPayment
  marked q = record q { preimage = some 0 }

  pub get-mark_fulfilled :
      (n : NodeState) (hashes : List ℕ) (m : Map RoutedPayment) (j : ℕ)
      → get (mark_fulfilled p channel_id incoming outgoing n hashes m) j ≡ (
          if contains hashes j && is_issued_fulfilled p channel_id incoming outgoing n j
          then some (marked (get_or new_payment m j))
          else get m j)
  unfolding mark_fulfilled
  get-mark_fulfilled n [] m j = refl
  get-mark_fulfilled n (hash ∷ hashes) m j =
      let rest = mark_fulfilled p channel_id incoming outgoing n hashes m in
      ground (
        arith,
        get-put hash (marked (get_or new_payment rest hash)) rest j,
        get-mark_fulfilled n hashes m j,
      )

  -- What a commitment makes of the node's maps.
  pub record Committed (n n' : NodeState) : Type 0 where
    pub invoices : n'.invoices ≡ n.invoices
    pub issued_invoices : n'.issued_invoices ≡ n.issued_invoices
    pub touched :
        (j : ℕ)
        → contains (hashes_of incoming outgoing) j ≡ true
        → (q : RoutedPayment) × (get n'.payments j ≡ some q)
          × (q.incoming ≡ (applied j n.payments).incoming)
          × (q.outgoing ≡ (applied j n.payments).outgoing)
    pub others :
        (j : ℕ)
        → contains (hashes_of incoming outgoing) j ≡ false
        → get n'.payments j ≡ get n.payments j

  adjusted-Committed :
      (n : NodeState) (m : Map RoutedPayment)
      → ((j : ℕ)
          → (contains (hashes_of incoming outgoing) j ≡ false → get m j ≡ get n.payments j)
            × (((get_or new_payment m j).incoming ≡ (get_or new_payment n.payments j).incoming)
                × ((get_or new_payment m j).outgoing ≡ (get_or new_payment n.payments j).outgoing)))
      → (excess : ℕ)
      → Committed n (record n {
        payments = apply_all p channel_id incoming outgoing (hashes_of incoming outgoing) m;
        excess_amount = excess;
      })
  unfolding apply
  adjusted-Committed n m kept excess = record {
    invoices = refl;
    issued_invoices = refl;
    touched = λ j c. (
      applied j m,
      ground (arith, get-apply_all (hashes_of incoming outgoing) m j, c),
      ground (arith, kept j),
      ground (arith, kept j),
    );
    others = λ j c. ground (arith, get-apply_all (hashes_of incoming outgoing) m j, c, kept j);
  }

  abbrev finish : NodeState → NodeState
  finish adjusted = record adjusted {
    payments =
        apply_all p channel_id incoming outgoing (hashes_of incoming outgoing) adjusted.payments;
  }

  pub apply_payments-Committed :
      (n n' : NodeState) (delta : BalanceDelta)
      → apply_payments p channel_id incoming outgoing n delta ≡ ok n'
      → Committed n n'
  unfolding apply_payments adjust_excess
  apply_payments-Committed n n' delta h =
      let hashes = hashes_of incoming outgoing in
      let created = create p channel_id incoming outgoing hashes n.payments in
      let (adjusted, first, is) =
        >>=-eq-ok (adjust_excess p channel_id incoming outgoing n delta) _ h in
      subst (Committed n) (ok_inj is) (elim (if-eq-ok p.enforce_balance _ _ first) [
        | inl (on, balanced) ↦
            let (e, computed, second) =
              >>=-eq-ok (new_excess p channel_id incoming outgoing n delta) _ balanced in
            let (excess, some_e, made) = >>=-eq-ok (unwrap e) _ second in
            subst (λ a. Committed n (finish a)) (ok_inj made)
              (adjusted-Committed n (mark_fulfilled p channel_id incoming outgoing n hashes created)
                (λ j.
                  ground
                    (arith, get-mark_fulfilled n hashes created j, get-create hashes n.payments j))
                excess)
        | inr (off, made) ↦
            subst (λ a. Committed n (finish a)) (ok_inj made)
              (adjusted-Committed n created (λ j. ground (arith, get-create hashes n.payments j))
                n.excess_amount)
      ])
