-- ===== src/Node/Balanced.antt =====
-- No payment for an invoice pays more than what comes in for it, the invoice and the routing fee.
use Prim.Native.String.{String}
use vls.Prelude.{
  ℕ, ◌≡◌, Bool, true, false, some, List, [], ◌∷◌, arith, ltb, inl, inr, Option-cases, add_u64,
  mul_u64,
}
use vls.Prelude.Maps.{Map, get, get_or, put, contains}
use vls.Policy.{PolicyFilter, policy_err_if, policy_error_with_filter}
use vls.Policy.Laws.{Enforces}
use vls.Enforcement.Summary.{Summary}
use vls.Validator.{SimplePolicy, validate_payment_balance}
use vls.Node.{
  PaymentState, RoutedPayment, NodeState, apply, incoming_outgoing, updated_incoming_outgoing,
}
use vls.Node.Payments.{is_err, is_unbalanced, any_unbalanced, totals, invoiced_amount}
use vls.Node.Commit.{applied}

-- The totals pass the node's check for an invoice of this amount.
abbrev pub Covers : SimplePolicy → ℕ → ℕ × ℕ → Type 0
Covers p amount t =
    ltb (add_u64 (mul_u64 t.0 1000) (add_u64 amount p.max_routing_fee_msat)) (mul_u64 t.1 1000)
    ≡ false

-- Every payment with an invoice passes it.
abbrev pub Balanced : SimplePolicy → NodeState → Type 0
Balanced p n =
    (j : ℕ) (i : PaymentState) (q : RoutedPayment)
    → get n.invoices j ≡ some i
    → get n.payments j ≡ some q
    → Covers p i.amount_msat (incoming_outgoing q)

-- The filter enforces both tags of the check.
pub record Checks (f : PolicyFilter) : Type 0 where
  pub routing : Enforces f "policy-commitment-htlc-routing-balance"
  pub balanced : Enforces f "policy-routing-balanced"

pub any_unbalanced-false :
    (p : SimplePolicy) (channel_id : ℕ) (incoming outgoing : Summary) (n : NodeState)
    (hashes : List ℕ) (j : ℕ)
    → any_unbalanced p channel_id incoming outgoing n hashes ≡ false
    → contains hashes j ≡ true
    → is_unbalanced p channel_id incoming outgoing n j ≡ false
unfolding any_unbalanced
any_unbalanced-false p channel_id incoming outgoing n [] j h c = cc
any_unbalanced-false p channel_id incoming outgoing n (hash ∷ hashes) j h c =
    ground (arith, any_unbalanced-false p channel_id incoming outgoing n hashes j, h, c)

is_err-policy_err_if :
    (f : PolicyFilter) (b : Bool) (tag : String)
    → Enforces f tag
    → is_err (policy_err_if f b tag) ≡ b
unfolding policy_err_if policy_error_with_filter
is_err-policy_err_if f b tag e = ground arith

-- A sum of one amount, in millisatoshi, is that amount.
single : (x : ℕ) → mul_u64 (add_u64 x 0) 1000 ≡ mul_u64 x 1000
unfolding mul_u64 add_u64
single x = omega arith

pub totals-Covers :
    (p : SimplePolicy) (channel_id : ℕ) (incoming outgoing : Summary) (m : Map RoutedPayment)
    (j amount : ℕ)
    → Covers p amount (totals (get m j) channel_id (get_or 0 incoming j) (get_or 0 outgoing j))
    → Covers p amount (incoming_outgoing (applied p channel_id incoming outgoing j m))
unfolding totals updated_incoming_outgoing incoming_outgoing apply put
totals-Covers p channel_id incoming outgoing m j amount h = elim (Option-cases (get m j)) [
  | inl missing ↦
      ground (arith, missing, h, single (get_or 0 incoming j), single (get_or 0 outgoing j))
  | inr (q, present) ↦ ground (arith, present, h)
]

pub unbalanced-Covers :
    (p : SimplePolicy) (channel_id : ℕ) (incoming outgoing : Summary) (n : NodeState) (j : ℕ)
    (i : PaymentState)
    → Enforces p.filter "policy-routing-balanced"
    → get n.invoices j ≡ some i
    → is_unbalanced p channel_id incoming outgoing n j ≡ false
    → Covers p i.amount_msat
        (totals (get n.payments j) channel_id (get_or 0 incoming j) (get_or 0 outgoing j))
unfolding is_unbalanced validate_payment_balance invoiced_amount
unbalanced-Covers p channel_id incoming outgoing n j i e invoiced h =
    let (a, b) = totals (get n.payments j) channel_id (get_or 0 incoming j) (get_or 0 outgoing j) in
    ground (
      arith,
      invoiced,
      h,
      is_err-policy_err_if p.filter
          (ltb (add_u64 (mul_u64 a 1000) (add_u64 i.amount_msat p.max_routing_fee_msat))
            (mul_u64 b 1000))
          "policy-routing-balanced" e,
    )
