-- ===== src/Enforcement/InFlight.antt =====
-- The amounts in `payments_summary` against plain sums.
use vls.Prelude.{
  ℕ, ◌+◌, ◌<◌, ◌≡◌, refl, ◌∙◌, true, false, Option, none, List, [], ◌∷◌, arith, if◌then◌else◌, ◌==◌,
  max, u64_mod, add_u64, add_u64_eq,
}
use vls.Tx.{HtlcInfo2, CommitmentInfo2}
use vls.Enforcement.{EnforcementState}
use vls.Enforcement.Summary.{
  Summary, get, modify_or_insert, or_insert_zeros, summarize_from, summarize_payments, union_max,
  or_current, offered, received, payments_summary,
}

-- The amount for a hash, 0 if there is none.
abbrev pub value_at : Summary → ℕ → ℕ
value_at [] j = 0
value_at ((k, v) ∷ rest) j = if k == j then v else value_at rest j

-- The sum of the HTLCs of a payment.
abbrev pub total : ℕ → List HtlcInfo2 → ℕ
total j [] = 0
total j (h ∷ hs) = (if h.payment_hash == j then h.value_sat else 0) + total j hs

abbrev Distinct : Summary → Type 0
Distinct [] = Unit
Distinct ((k, v) ∷ rest) = (get rest k ≡ none) × Distinct rest

value_at-none : (m : Summary) (j : ℕ) → get m j ≡ none → value_at m j ≡ 0
value_at-none [] j h = refl
value_at-none ((k, v) ∷ rest) j h = ground (arith, value_at-none rest j)

get_other :
    (f : ℕ → ℕ → ℕ) (k v j : ℕ) (m : Summary)
    → (k == j) ≡ false
    → get (modify_or_insert f k v m) j ≡ get m j
unfolding modify_or_insert
get_other f k v j [] e = ground arith
get_other f k v j ((i, w) ∷ rest) e = ground (arith, get_other f k v j rest e)

modify_or_insert-Distinct :
    (f : ℕ → ℕ → ℕ) (k v : ℕ) (m : Summary) → Distinct m → Distinct (modify_or_insert f k v m)
unfolding modify_or_insert
modify_or_insert-Distinct f k v [] d = (refl, tt)
modify_or_insert-Distinct f k v ((i, w) ∷ rest) d =
    ground (arith, get_other f k v i rest, modify_or_insert-Distinct f k v rest d.1, d)

value_at-add :
    (k v j : ℕ) (m : Summary)
    → ((k == j) ≡ true → value_at m j + v < u64_mod)
    → value_at (modify_or_insert add_u64 k v m) j
      ≡ (if k == j then value_at m j + v else value_at m j)
unfolding modify_or_insert
value_at-add k v j [] h = ground arith
value_at-add k v j ((i, w) ∷ rest) h = ground (arith, value_at-add k v j rest, add_u64_eq w v)

value_at-max :
    (k v j : ℕ) (m : Summary)
    → value_at (modify_or_insert max k v m) j
      ≡ (if k == j then max (value_at m j) v else value_at m j)
unfolding modify_or_insert
value_at-max k v j [] = ground arith
value_at-max k v j ((i, w) ∷ rest) = ground (arith, value_at-max k v j rest)

value_at-zero :
    (k j : ℕ) (m : Summary) → value_at (modify_or_insert (λ e v. e) k 0 m) j ≡ value_at m j
unfolding modify_or_insert
value_at-zero k j [] = ground arith
value_at-zero k j ((i, w) ∷ rest) = ground (arith, value_at-zero k j rest)

or_insert_zeros-value :
    (hs : List HtlcInfo2) (m : Summary) (j : ℕ) → value_at (or_insert_zeros hs m) j ≡ value_at m j
unfolding or_insert_zeros
or_insert_zeros-value [] m j = refl
or_insert_zeros-value (h ∷ hs) m j =
    or_insert_zeros-value hs (modify_or_insert (λ e v. e) h.payment_hash 0 m) j
    ∙ value_at-zero h.payment_hash j m

summarize_from-value :
    (hs : List HtlcInfo2) (m : Summary) (j : ℕ)
    → Distinct m
    → value_at m j + total j hs < u64_mod
    → (value_at (summarize_from m hs) j ≡ value_at m j + total j hs)
      × Distinct (summarize_from m hs)
unfolding summarize_from
summarize_from-value [] m j d small = (omega arith, d)
summarize_from-value (h ∷ hs) m j d small =
    let m' = modify_or_insert add_u64 h.payment_hash h.value_sat m in
    let step = value_at-add h.payment_hash h.value_sat j m (λ e. ground arith) in
    let (is, distinct) =
      summarize_from-value hs m' j
        (modify_or_insert-Distinct add_u64 h.payment_hash h.value_sat m d) (ground (arith, step)) in
    (ground (arith, is, step), distinct)

summarize_payments-value :
    (hs : List HtlcInfo2) (j : ℕ)
    → total j hs < u64_mod
    → (value_at (summarize_payments hs) j ≡ total j hs) × Distinct (summarize_payments hs)
unfolding summarize_payments
summarize_payments-value hs j small =
    let (is, distinct) = summarize_from-value hs [] j tt (omega arith) in
    (omega (arith, is), distinct)

union_max-value :
    (m other : Summary) (j : ℕ)
    → Distinct other
    → value_at (union_max m other) j ≡ max (value_at m j) (value_at other j)
unfolding union_max
union_max-value m [] j d = ground arith
union_max-value m ((k, v) ∷ rest) j d = ground (
  arith,
  union_max-value (modify_or_insert max k v m) rest j d.1,
  value_at-max k v j m,
  value_at-none rest k d.0,
)

-- The outgoing amount in flight for a payment is the greater of the sum of its HTLCs that the
-- holder's commitment offers and the sum of those that the counterparty's commitment receives, each
-- commitment being the new one if there is one, and the current one otherwise; where these sums
-- fit 64 bits.
pub payments_summary-value :
    (s : EnforcementState) (new_holder new_counterparty : Option CommitmentInfo2) (j : ℕ)
    → total j (offered (or_current new_holder s.current_holder_commit_info)) < u64_mod
    → total j (received (or_current new_counterparty s.current_counterparty_commit_info)) < u64_mod
    → value_at (payments_summary s new_holder new_counterparty) j
      ≡ max
          (total j (offered (or_current new_holder s.current_holder_commit_info)))
          (total j (received (or_current new_counterparty s.current_counterparty_commit_info)))
unfolding payments_summary
payments_summary-value s new_holder new_counterparty j a b =
    let h =
      summarize_payments-value (offered (or_current new_holder s.current_holder_commit_info)) j a in
    let c =
      summarize_payments-value
        (received (or_current new_counterparty s.current_counterparty_commit_info)) j b in
    or_insert_zeros-value (received s.current_counterparty_commit_info) _ j
    ∙ or_insert_zeros-value (offered s.current_holder_commit_info) _ j
    ∙ union_max-value _ _ j c.1
    ∙ omega (arith, h.0, c.0)
