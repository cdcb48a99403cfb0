-- ===== src/Monitor/RoundTrip.antt =====
-- Removing the block that was added last restores a channel's monitor (vls-core/src/monitor.rs).
use vls.Prelude.{
  ℕ, ◌+◌, ◌-◌, ◌%◌, ◌<◌, ◌≡◌, refl, sym, ap, subst, ◌∙◌, Bool, true, false, ◌==◌, ==_iff, Option,
  none, some, List, [], ◌∷◌, arith, u32_mod, add_u32, ok, panic, assert, ◌>>=◌, ◌>>◌, >>=-eq-ok,
  >>-eq-ok, ok_inj, if-eq-ok, inl, inr,
}
use vls.Monitor.{
  OutPoint, Transaction, StateChange, BlockDecodeState, State, is_not_ready_for_push,
  on_block_start,
}
use vls.Monitor.Blocks.{
  Watches, no_watches, is_confirmed, have_funding_confirmed, add_change, remove_change, add_changes,
  remove_changes, lower, finish_block, on_add_block_end, on_remove_block_end, push_transactions,
  on_add_block, on_remove_block,
}
use vls.Monitor.Streams.{push_transactions-Streamed}
use vls.Monitor.Undo.{
  is_spent, is_closing, any, last_outpoint, done, undone, watch_changes, Once, Ready,
  add_changes-done, remove_changes-undone,
}

-- What a block brings was not there before.
pub record Unseen (cs : List StateChange) (s : State) : Type 0 where
  pub funding : any is_confirmed cs ≡ true → s.funding_height ≡ none
  pub outpoint : any is_confirmed cs ≡ true → s.funding_outpoint ≡ none
  pub spent : any is_spent cs ≡ true → s.funding_double_spent_height ≡ none
  pub closing : any is_closing cs ≡ true → s.closing_height ≡ none

last_outpoint_none :
    (cs : List StateChange) (o : Option OutPoint)
    → any is_confirmed cs ≡ false
    → last_outpoint cs o ≡ o
last_outpoint_none [] o h = refl
last_outpoint_none (StateChange.funding_confirmed p ∷ cs) o h = cc
last_outpoint_none (StateChange.funding_double_spent p ∷ cs) o h = last_outpoint_none cs o h
last_outpoint_none (StateChange.closing_confirmed txid tx ∷ cs) o h = last_outpoint_none cs o h

undone-done :
    (confirmed : Bool) (cs : List StateChange) (s : State)
    → Unseen cs s
    → undone confirmed cs (done confirmed cs s) ≡ s
undone-done confirmed cs s u =
    ground
      (arith, u.funding, u.outpoint, u.spent, u.closing, last_outpoint_none cs s.funding_outpoint)

done-Ready :
    (confirmed : Bool) (cs : List StateChange) (s : State)
    → Unseen cs s
    → Ready confirmed cs (done confirmed cs s)
done-Ready confirmed cs s u = record {
  funding = λ h. ground (arith, h, ==_iff s.height s.height);
  spent = λ h. ground (arith, h, u.spent);
  closing = λ h. ground (arith, h, ==_iff s.height s.height);
}

-- The state in which the changes of a block are entered.
abbrev entered : State → State
entered t = record t { decode_state = none; saw_block = true; height = add_u32 t.height 1 }

finish_block_eq :
    (t : State) (d : BlockDecodeState) (block_hash : ℕ)
    → t.decode_state ≡ some d
    → finish_block t block_hash
      ≡ (assert (d.block_hash == block_hash) >> ok (record t { decode_state = none }, d.changes))
unfolding finish_block
finish_block_eq t d block_hash is = ground (arith, is)

pub on_add_block_end-done :
    (t : State) (d : BlockDecodeState) (block_hash : ℕ) (r : State × Watches)
    → t.decode_state ≡ some d
    → on_add_block_end t block_hash ≡ ok r
    → ((d.block_hash == block_hash) ≡ true)
      × (r.0 ≡ done (have_funding_confirmed d.changes) d.changes (entered t))
      × (watch_changes d.changes no_watches ≡ ok r.1)
unfolding on_add_block_end is_not_ready_for_push
on_add_block_end-done t d block_hash r is h = elim (if-eq-ok (is_not_ready_for_push t) _ _ h) [
  | inl (unready, same) ↦ absurd (ground (arith, unready, is))
  | inr (ready, rest) ↦
      let (fin, finished, added) = >>=-eq-ok (finish_block t block_hash) _ rest in
      let (right, made) =
        >>-eq-ok (assert (d.block_hash == block_hash)) _
          (sym (finish_block_eq t d block_hash is) ∙ finished) in
      let changed =
        subst
          (λ f.
            add_changes (have_funding_confirmed f.1) f.1
              (record f.0 { saw_block = true; height = add_u32 f.0.height 1 }, no_watches)
            ≡ ok r)
          (sym (ok_inj made)) added in
      let (is_done, seen) =
        add_changes-done (have_funding_confirmed d.changes) d.changes (entered t) no_watches r
          changed in
      (ground (arith, right), is_done, seen)
]

on_remove_block_end-undone :
    (t : State) (d : BlockDecodeState) (block_hash : ℕ) (v : Watches)
    → t.decode_state ≡ some d
    → (d.block_hash == block_hash) ≡ true
    → Once d.changes
    → Ready (have_funding_confirmed d.changes) d.changes (record t { decode_state = none })
    → watch_changes d.changes no_watches ≡ ok v
    → on_remove_block_end t block_hash
      ≡ ok (
          lower (
            undone (have_funding_confirmed d.changes) d.changes (record t { decode_state = none }),
            v,
          ))
unfolding on_remove_block_end is_not_ready_for_push
on_remove_block_end-undone t d block_hash v is right once ready seen = ground (
  arith,
  is,
  right,
  finish_block_eq t d block_hash is,
  remove_changes-undone (have_funding_confirmed d.changes) d.changes
      (record t { decode_state = none }) no_watches v once ready seen,
)

lower_height : (h : ℕ) → h + 1 < u32_mod → (add_u32 h 1 + u32_mod - 1) % u32_mod ≡ h
unfolding add_u32
lower_height h small = omega arith

-- The monitor without what it reads a block into.
abbrev idle : State → State
idle s = record s { saw_block = true; decode_state = none }

-- Where a block was added, and streaming it again finds the same changes, no kind of them twice and
-- none that was there before, its removal succeeds, restores the monitor but for the note that a
-- block was seen, and returns the same outpoints as its addition did.
pub on_add_block-on_remove_block :
    (txid_of : Transaction → ℕ) (s t s' t' : State) (d : BlockDecodeState) (txs : List Transaction)
    (block_hash : ℕ) (w : Watches)
    → s.height + 1 < u32_mod
    → on_add_block txid_of s txs block_hash ≡ ok (s', w)
    → push_transactions txid_of txs (on_block_start s block_hash) ≡ ok t
    → push_transactions txid_of txs (on_block_start s' block_hash) ≡ ok t'
    → t.decode_state ≡ some d
    → t'.decode_state ≡ some d
    → Once d.changes
    → Unseen d.changes s
    → on_remove_block txid_of s' txs block_hash ≡ ok (idle s, w)
unfolding on_add_block on_remove_block on_block_start
on_add_block-on_remove_block txid_of s t s' t' d txs block_hash w small added first second found
      again once unseen =
    let b = have_funding_confirmed d.changes in
    let streamed = push_transactions-Streamed txid_of txs (on_block_start s block_hash) t first in
    let streamed_again =
      push_transactions-Streamed txid_of txs (on_block_start s' block_hash) t' second in
    let start : State = record s { saw_block = true; decode_state = none } in
    let same : record t { decode_state = none } ≡ start =
      ap {A = State} (λ x. record x { decode_state = none }) streamed in
    let same_again : record t' { decode_state = none }
        ≡ record s' { saw_block = true; decode_state = none } =
      ap {A = State} (λ x. record x { decode_state = none }) streamed_again in
    let ended = ap (λ m. m >>= λ x. on_add_block_end x block_hash) (sym first) ∙ added in
    let (right, is, seen) = on_add_block_end-done t d block_hash (s', w) found ended in
    let from_start : s' ≡ done b d.changes (entered start) =
      is ∙ ap {A = State} (λ x. done b d.changes (entered x)) same in
    let u : Unseen d.changes (entered start) = record {
      funding = unseen.funding;
      outpoint = unseen.outpoint;
      spent = unseen.spent;
      closing = unseen.closing;
    } in
    let back : done b d.changes (entered start) ≡ record t' { decode_state = none } =
      ap {A = State} (λ x. record x { saw_block = true; decode_state = none }) (sym from_start)
      ∙ sym same_again in
    let ready = subst (Ready b d.changes) back (done-Ready b d.changes (entered start) u) in
    let removed = on_remove_block_end-undone t' d block_hash w again right once ready seen in
    ap (λ m. m >>= λ x. on_remove_block_end x block_hash) second
    ∙ removed
    ∙ ap (λ x. ok (lower (undone b d.changes x, w))) (sym back)
    ∙ ap (λ x. ok (lower (x, w))) (undone-done b d.changes (entered start) u)
    ∙ ap (λ h. ok (record (idle s) { height = h }, w)) (lower_height s.height small)

-- Where two funding inputs are found spent in a block without a funding transaction, and nothing of
-- the channel was confirmed before, the block is added, but its removal, if streaming it finds the
-- same changes, panics: the first of them clears the height that the second one asserts.
pub on_remove_block_end_two_spent :
    (s : State) (d : BlockDecodeState) (a b : OutPoint) (block_hash : ℕ)
    → s.decode_state ≡ some d
    → (d.block_hash == block_hash) ≡ true
    → d.changes ≡ StateChange.funding_double_spent a ∷ StateChange.funding_double_spent b ∷ []
    → s.funding_height ≡ none
    → s.funding_double_spent_height ≡ none
    → (r : State × Watches) × (on_add_block_end s block_hash ≡ ok r)
      × (on_remove_block_end (record r.0 { decode_state = some d }) block_hash ≡ panic)
unfolding on_add_block_end on_remove_block_end is_not_ready_for_push add_changes add_change
    remove_changes remove_change
on_remove_block_end_two_spent s d a b block_hash is right changes unconfirmed unspent =
    let t : State = record s {
      saw_block = true;
      decode_state = none;
      height = add_u32 s.height 1;
      funding_double_spent_height = some (add_u32 s.height 1);
    } in
    (
      (t, record { adds = []; removes = a ∷ b ∷ [] }),
      ground (arith, is, right, changes, unconfirmed, unspent, finish_block_eq s d block_hash is),
      ground (
        arith,
        right,
        changes,
        finish_block_eq (record t { decode_state = some d }) d block_hash refl,
        ==_iff (add_u32 s.height 1) (add_u32 s.height 1),
      ),
    )
