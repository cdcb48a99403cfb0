-- ===== src/Node.antt =====
-- The payment state of a node (vls-core/src/node.rs): `PaymentState`, `RoutedPayment` and
-- `NodeState`, without `log_prefix` and `last_summary`, which only log lines use. Hashes,
-- preimages, keys and channel ids are numbers. A `Duration` is its number of nanoseconds, and its
-- additions panic past `Duration::MAX`.
pub mod Payments
pub mod Prune
pub mod Commit
pub mod Balanced
pub mod Sound
pub mod Steps
pub mod Excess
pub mod Life
pub mod Heartbeat
pub mod Restore
pub mod Client
mod Tests
pub mod History
pub mod Invoices
use vls.Prelude.{
  ℕ, ◌+◌, ◌*◌, Bool, false, ltb, ◌==◌, if◌then◌else◌, Option, none, some, is_some, List, [], ◌∷◌,
  Outcome, ok, panic, u64_mod, add_u64,
}
use vls.Prelude.Maps.{Map, get, put, values}
use vls.Velocity.{VelocityControl}

pub data PaymentType : Type 0 where
  invoice keysend : PaymentType

pub record PaymentState : Type 0 where
  pub invoice_hash : ℕ
  pub amount_msat : ℕ
  pub payee : ℕ
  pub duration_since_epoch : ℕ
  pub expiry_duration : ℕ
  pub is_fulfilled : Bool
  pub payment_type : PaymentType

pub record RoutedPayment : Type 0 where
  pub incoming : Map ℕ
  pub outgoing : Map ℕ
  pub preimage : Option ℕ

-- `RoutedPayment::new`
abbrev pub new_payment : RoutedPayment
new_payment = record { incoming = []; outgoing = []; preimage = none }

abbrev pub payment_fulfilled : RoutedPayment → Bool
payment_fulfilled p = is_some p.preimage

-- `values().sum::<u64>()`
abbrev pub sum_u64 : List ℕ → ℕ
sum_u64 [] = 0
sum_u64 (x ∷ xs) = add_u64 x (sum_u64 xs)

unfoldable pub is_no_incoming : RoutedPayment → Bool
is_no_incoming p = sum_u64 (values p.incoming) == 0

unfoldable pub is_no_outgoing : RoutedPayment → Bool
is_no_outgoing p = sum_u64 (values p.outgoing) == 0

unfoldable pub updated_incoming_outgoing : RoutedPayment → ℕ → ℕ → ℕ → ℕ × ℕ
updated_incoming_outgoing p channel_id incoming_amount_sat outgoing_amount_sat = (
  sum_u64 (values (put channel_id incoming_amount_sat p.incoming)),
  sum_u64 (values (put channel_id outgoing_amount_sat p.outgoing)),
)

unfoldable pub incoming_outgoing : RoutedPayment → ℕ × ℕ
incoming_outgoing p = (sum_u64 (values p.incoming), sum_u64 (values p.outgoing))

unfoldable pub apply : RoutedPayment → ℕ → ℕ → ℕ → RoutedPayment
apply p channel_id incoming_amount_sat outgoing_amount_sat = record p {
  incoming = put channel_id incoming_amount_sat p.incoming;
  outgoing = put channel_id outgoing_amount_sat p.outgoing;
}

pub record NodeState : Type 0 where
  pub invoices : Map PaymentState
  pub issued_invoices : Map PaymentState
  pub payments : Map RoutedPayment
  pub excess_amount : ℕ
  pub velocity_control : VelocityControl
  pub fee_velocity_control : VelocityControl

-- `NodeState::new`
unfoldable pub new : VelocityControl → VelocityControl → NodeState
new velocity_control fee_velocity_control = record {
  invoices = [];
  issued_invoices = [];
  payments = [];
  excess_amount = 0;
  velocity_control = velocity_control;
  fee_velocity_control = fee_velocity_control;
}

-- The payments that `restore` makes of the stored preimages; `hash` is SHA-256.
unfoldable pub restored_payments : (ℕ → ℕ) → List ℕ → Map RoutedPayment → Map RoutedPayment
restored_payments hash [] payments = payments
restored_payments hash (preimage ∷ preimages) payments =
    restored_payments hash preimages
      (put (hash preimage) (record new_payment { preimage = some preimage }) payments)

-- The stored invoices are maps already: a stored key of a wrong length panics in the source.
unfoldable pub restore :
    (ℕ → ℕ)
    → Map PaymentState
    → Map PaymentState
    → List ℕ
    → ℕ
    → VelocityControl
    → VelocityControl
    → NodeState
unfolding restored_payments
restore hash invoices issued_invoices preimages excess_amount velocity_control
      fee_velocity_control =
    record {
      invoices = invoices;
      issued_invoices = issued_invoices;
      payments = restored_payments hash preimages [];
      excess_amount = excess_amount;
      velocity_control = velocity_control;
      fee_velocity_control = fee_velocity_control;
    }

-- What `restore_node` adds to a restored state: an empty payment for each invoice.
unfoldable pub create_payments : Map PaymentState → Map RoutedPayment → Map RoutedPayment
create_payments [] payments = payments
create_payments ((hash, added) ∷ rest) payments =
    create_payments rest (put hash new_payment payments)

-- What `restore_node` makes of the stored state of a node.
unfoldable pub restore_node :
    (ℕ → ℕ)
    → Map PaymentState
    → Map PaymentState
    → List ℕ
    → ℕ
    → VelocityControl
    → VelocityControl
    → NodeState
unfolding restore
restore_node hash invoices issued_invoices preimages excess_amount velocity_control
      fee_velocity_control =
    let n =
      restore hash invoices issued_invoices preimages excess_amount velocity_control
        fee_velocity_control in
    record n { payments = create_payments n.invoices n.payments }

unfoldable pub has_preimage : NodeState → ℕ → Bool
has_preimage n hash = elim (get n.payments hash) [ none ↦ false | some p ↦ is_some p.preimage ]

-- `Duration`, with its `+`.
abbrev pub seconds : ℕ → ℕ
seconds n = n * 1000000000

unfoldable pub add_duration : ℕ → ℕ → Outcome ℕ
add_duration a b = if ltb (a + b) (seconds u64_mod) then ok (a + b) else panic
