-- ===== src/Tracker/Slots.antt =====
-- The watches of a listener when a block is added and removed again (vls-core/src/chain/tracker.rs).
use vls.Prelude.{
  ◌≡◌, refl, ◌↔◌, true, false, not, ◌&&◌, ◌||◌, List, [], ◌∷◌, arith, Bool-cases, inl, inr,
}
use vls.Monitor.{OutPoint, same_outpoint, watched, watch}
use vls.Monitor.Blocks.{Watches}
use vls.Tracker.{ListenSlot, extend, remove, remove_all, slot_after_add, slot_after_remove}

same_outpoint_iff :
    (a b : OutPoint) → (same_outpoint a b ≡ true) ↔ ((a.txid ≡ b.txid) × (a.vout ≡ b.vout))
same_outpoint_iff a b = ground arith

same_outpoint_left :
    (a b o : OutPoint) → same_outpoint a b ≡ true → same_outpoint a o ≡ same_outpoint b o
same_outpoint_left a b o h = ground arith

-- Two outpoints that are the same as a third are the same.
same_outpoint_both :
    (a b o : OutPoint)
    → same_outpoint a o ≡ true
    → same_outpoint b o ≡ true
    → same_outpoint a b ≡ true
same_outpoint_both a b o h k = ground arith

watched_same :
    (x o : OutPoint) (set : List OutPoint)
    → same_outpoint x o ≡ true
    → watched set x ≡ true
    → watched set o ≡ true
watched_same x o [] h k = cc
watched_same x o (y ∷ ys) h k = ground (arith, watched_same x o ys h)

watched-watch :
    (x : OutPoint) (set : List OutPoint) (o : OutPoint)
    → watched (watch x set) o ≡ (same_outpoint x o || watched set o)
watched-watch x set o = elim (Bool-cases (watched set x)) [
  | inl present ↦ ground (arith, present, watched_same x o set)
  | inr absent ↦ ground (arith, absent)
]

watched-extend :
    (xs set : List OutPoint) (o : OutPoint)
    → watched (extend xs set) o ≡ (watched xs o || watched set o)
watched-extend [] set o = refl
watched-extend (x ∷ xs) set o =
    ground (arith, watched-extend xs (watch x set) o, watched-watch x set o)

watched-remove :
    (x : OutPoint) (set : List OutPoint) (o : OutPoint)
    → watched (remove x set) o ≡ (not (same_outpoint x o) && watched set o)
watched-remove x [] o = ground arith
watched-remove x (y ∷ ys) o = elim (Bool-cases (same_outpoint y x)) [
  | inl same ↦ ground (arith, same, same_outpoint_left y x o same, watched-remove x ys o)
  | inr other ↦ ground (arith, other, same_outpoint_both y x o, watched-remove x ys o)
]

watched-remove_all :
    (xs set : List OutPoint) (o : OutPoint)
    → watched (remove_all xs set) o ≡ (not (watched xs o) && watched set o)
watched-remove_all [] set o = refl
watched-remove_all (x ∷ xs) set o =
    ground (arith, watched-remove_all xs (remove x set) o, watched-remove x set o)

-- Where a listener names outpoints to watch that it did not watch, and to stop watching outpoints
-- that it watched or that are among the new ones, none of which it had seen spent, and names the
-- same when the block is removed, then it watches after the removal what it watched before, and has
-- seen spent what it had.
pub slot_after_add-slot_after_remove :
    (w : Watches) (slot : ListenSlot) (o : OutPoint)
    → (watched w.adds o ≡ true → watched slot.watches o ≡ false)
    → (watched w.removes o ≡ true → (watched slot.watches o || watched w.adds o) ≡ true)
    → (watched w.removes o ≡ true → watched slot.seen o ≡ false)
    → let after = slot_after_remove w (slot_after_add w slot) in
      (watched after.watches o ≡ watched slot.watches o)
      × (watched after.seen o ≡ watched slot.seen o)
unfolding slot_after_add slot_after_remove
slot_after_add-slot_after_remove w slot o fresh known unseen = (
  ground (
    arith,
    watched-remove_all w.adds (extend w.removes (remove_all w.removes (extend w.adds slot.watches)))
        o,
    watched-extend w.removes (remove_all w.removes (extend w.adds slot.watches)) o,
    watched-remove_all w.removes (extend w.adds slot.watches) o,
    watched-extend w.adds slot.watches o,
  ),
  ground (
    arith,
    watched-remove_all w.removes (extend w.removes slot.seen) o,
    watched-extend w.removes slot.seen o,
  ),
)
