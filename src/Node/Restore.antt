-- ===== src/Node/Restore.antt =====
-- Which preimages a node knows after a restart.
use vls.Prelude.{
  ℕ, ◌≡◌, refl, Bool, false, not, ◌&&◌, ◌||◌, if◌then◌else◌, ◌==◌, Option, none, some, is_some,
  List, [], ◌∷◌, arith,
}
use vls.Prelude.Maps.{Map, get, has, put, get-put}
use vls.Velocity.{VelocityControl}
use vls.Node.{
  PaymentState, RoutedPayment, new_payment, restored_payments, create_payments, restore,
  restore_node, has_preimage,
}

-- Whether one of the preimages is of the hash.
abbrev pub known : (ℕ → ℕ) → List ℕ → ℕ → Bool
known hash [] j = false
known hash (preimage ∷ preimages) j = (hash preimage == j) || known hash preimages j

abbrev knows : Option RoutedPayment → Bool
knows none = false
knows (some q) = is_some q.preimage

restored_payments-knows :
    (hash : ℕ → ℕ) (preimages : List ℕ) (m : Map RoutedPayment) (j : ℕ)
    → knows (get (restored_payments hash preimages m) j)
      ≡ (known hash preimages j || knows (get m j))
unfolding restored_payments
restored_payments-knows hash [] m j = refl
restored_payments-knows hash (preimage ∷ preimages) m j =
    let q : RoutedPayment = record new_payment { preimage = some preimage } in
    ground (
      arith,
      restored_payments-knows hash preimages (put (hash preimage) q m) j,
      get-put (hash preimage) q m j,
    )

pub get-create_payments :
    (invoices : Map PaymentState) (m : Map RoutedPayment) (j : ℕ)
    → get (create_payments invoices m) j ≡ (if has invoices j then some new_payment else get m j)
unfolding create_payments
get-create_payments [] m j = refl
get-create_payments ((hash, added) ∷ rest) m j =
    ground
      (arith, get-create_payments rest (put hash new_payment m) j, get-put hash new_payment m j)

-- After a restart the node knows the preimage of a hash exactly if it was stored and there is no
-- invoice for the hash: the empty payments that are made for the invoices take the place of those
-- that hold the stored preimages.
pub restore_node-has_preimage :
    (hash : ℕ → ℕ) (invoices issued_invoices : Map PaymentState) (preimages : List ℕ)
    (excess_amount : ℕ) (control fees : VelocityControl) (j : ℕ)
    → has_preimage
        (restore_node hash invoices issued_invoices preimages excess_amount control fees)
        j
      ≡ (known hash preimages j && not (has invoices j))
unfolding has_preimage restore_node restore
restore_node-has_preimage hash invoices issued_invoices preimages excess_amount control fees j =
    ground (
      arith,
      get-create_payments invoices (restored_payments hash preimages []) j,
      restored_payments-knows hash preimages [] j,
    )
