-- ===== src/Monitor/Undo.antt =====
-- Removing a block undoes what adding it did.
use vls.Prelude.{
  ℕ, ◌+◌, ◌≤◌, ◌≡◌, refl, sym, ap, ◌∙◌, Bool, true, false, not, ◌&&◌, ◌||◌, if◌then◌else◌, Option,
  none, some, is_some, List, [], ◌∷◌, ◌++◌, arith, Outcome, ok, assert, ◌>>=◌, >>=-eq-ok, >>-eq-ok,
  ok_inj,
}
use vls.Monitor.{OutPoint, StateChange, State}
use vls.Monitor.Blocks.{
  Watches, is_confirmed, spent_by, or_some, is_height, add_change, add_changes, remove_change,
  remove_changes,
}

abbrev pub count : (StateChange → Bool) → List StateChange → ℕ
count f [] = 0
count f (c ∷ cs) = (if f c then 1 else 0) + count f cs

abbrev pub is_spent : StateChange → Bool
is_spent (StateChange.funding_confirmed o) = false
is_spent (StateChange.funding_double_spent o) = true
is_spent (StateChange.closing_confirmed txid tx) = false

abbrev pub is_closing : StateChange → Bool
is_closing (StateChange.funding_confirmed o) = false
is_closing (StateChange.funding_double_spent o) = false
is_closing (StateChange.closing_confirmed txid tx) = true

abbrev pub any : (StateChange → Bool) → List StateChange → Bool
any f [] = false
any f (c ∷ cs) = f c || any f cs

abbrev pub last_outpoint : List StateChange → Option OutPoint → Option OutPoint
last_outpoint [] o = o
last_outpoint (StateChange.funding_confirmed p ∷ cs) o = last_outpoint cs (some p)
last_outpoint (StateChange.funding_double_spent p ∷ cs) o = last_outpoint cs o
last_outpoint (StateChange.closing_confirmed txid tx ∷ cs) o = last_outpoint cs o

-- What the changes of a block make of a state that already has the new height.
abbrev pub done : Bool → List StateChange → State → State
done confirmed cs s = record s {
  funding_height = if any is_confirmed cs then some s.height else s.funding_height;
  funding_outpoint = last_outpoint cs s.funding_outpoint;
  funding_double_spent_height =
      if any is_spent cs && not confirmed
      then or_some s.funding_double_spent_height s.height
      else s.funding_double_spent_height;
  closing_height = if any is_closing cs then some s.height else s.closing_height;
}

-- And what their removal makes of a state.
abbrev pub undone : Bool → List StateChange → State → State
undone confirmed cs s = record s {
  funding_height = if any is_confirmed cs then none else s.funding_height;
  funding_outpoint = if any is_confirmed cs then none else s.funding_outpoint;
  funding_double_spent_height =
      if (any is_spent cs && not confirmed) && is_height s.funding_double_spent_height s.height
      then none
      else s.funding_double_spent_height;
  closing_height = if any is_closing cs then none else s.closing_height;
}

-- The outpoints that both directions return.
abbrev pub watch_change : StateChange → Watches → Outcome Watches
watch_change (StateChange.funding_confirmed o) w = ok (record w { adds = w.adds ++ (o ∷ []) })
watch_change (StateChange.funding_double_spent o) w =
    ok (record w { removes = w.removes ++ (o ∷ []) })
watch_change (StateChange.closing_confirmed txid tx) w =
    spent_by tx >>= λ o. ok (record w { removes = w.removes ++ (o ∷ []) })

abbrev pub watch_changes : List StateChange → Watches → Outcome Watches
watch_changes [] w = ok w
watch_changes (c ∷ cs) w = watch_change c w >>= λ v. watch_changes cs v

add_change-done :
    (confirmed : Bool) (c : StateChange) (s : State) (w : Watches) (r : State × Watches)
    → add_change confirmed c (s, w) ≡ ok r
    → (r.0 ≡ done confirmed (c ∷ []) s) × (watch_change c w ≡ ok r.1)
unfolding add_change
add_change-done confirmed (StateChange.funding_confirmed o) s w r h =
    let (fine, made) = >>-eq-ok (assert (not (is_some s.funding_double_spent_height))) _ h in
    (sym (ap (λ x. x.0) (ok_inj made)), ap (λ x. ok x.1) (ok_inj made))
add_change-done true (StateChange.funding_double_spent o) s w r h =
    (sym (ap (λ x. x.0) (ok_inj h)), ap (λ x. ok x.1) (ok_inj h))
add_change-done false (StateChange.funding_double_spent o) s w r h =
    let (fine, made) = >>-eq-ok (assert (not (is_some s.funding_height))) _ h in
    (sym (ap (λ x. x.0) (ok_inj made)), ap (λ x. ok x.1) (ok_inj made))
add_change-done confirmed (StateChange.closing_confirmed txid tx) s w r h =
    let (o, spent, made) = >>=-eq-ok (spent_by tx) _ h in
    (
      sym (ap (λ x. x.0) (ok_inj made)),
      ap (λ m. m >>= λ p. ok (record w { removes = w.removes ++ (p ∷ []) })) spent
          ∙ ap (λ x. ok x.1) (ok_inj made),
    )

or_some_twice : (d : Option ℕ) (h : ℕ) → or_some (or_some d h) h ≡ or_some d h
or_some_twice none h = refl
or_some_twice (some g) h = refl

done-done :
    (confirmed : Bool) (c : StateChange) (cs : List StateChange) (s : State)
    → done confirmed cs (done confirmed (c ∷ []) s) ≡ done confirmed (c ∷ cs) s
done-done confirmed (StateChange.funding_confirmed o) cs s = ground arith
done-done confirmed (StateChange.funding_double_spent o) cs s =
    ground (arith, or_some_twice s.funding_double_spent_height s.height)
done-done confirmed (StateChange.closing_confirmed txid tx) cs s = ground arith

pub add_changes-done :
    (confirmed : Bool) (cs : List StateChange) (s : State) (w : Watches) (r : State × Watches)
    → add_changes confirmed cs (s, w) ≡ ok r
    → (r.0 ≡ done confirmed cs s) × (watch_changes cs w ≡ ok r.1)
unfolding add_changes
add_changes-done confirmed [] s w r h =
    (sym (ap (λ x. x.0) (ok_inj h)), ap (λ x. ok x.1) (ok_inj h))
add_changes-done confirmed (c ∷ cs) s w r h =
    let (m, first, rest) = >>=-eq-ok (add_change confirmed c (s, w)) _ h in
    let (is, seen) = add_change-done confirmed c s w m first in
    let (then_is, then_seen) = add_changes-done confirmed cs m.0 m.1 r rest in
    (
      then_is ∙ ap (done confirmed cs) is ∙ done-done confirmed c cs s,
      ap (λ x. x >>= λ v. watch_changes cs v) seen ∙ then_seen,
    )

-- No kind of change occurs twice.
pub record Once (cs : List StateChange) : Type 0 where
  pub confirmed : count is_confirmed cs ≤ 1
  pub spent : count is_spent cs ≤ 1
  pub closing : count is_closing cs ≤ 1

-- What the removal asserts of the state.
pub record Ready (confirmed : Bool) (cs : List StateChange) (s : State) : Type 0 where
  pub funding : any is_confirmed cs ≡ true → is_height s.funding_height s.height ≡ true
  pub spent :
      (any is_spent cs && not confirmed) ≡ true → is_some s.funding_double_spent_height ≡ true
  pub closing : any is_closing cs ≡ true → is_height s.closing_height s.height ≡ true

any_none : (f : StateChange → Bool) (cs : List StateChange) → count f cs ≡ 0 → any f cs ≡ false
any_none f [] h = refl
any_none f (c ∷ cs) h = ground (arith, any_none f cs)

Once-tail : (c : StateChange) (cs : List StateChange) → Once (c ∷ cs) → Once cs
Once-tail c cs o = record {
  confirmed = ground (arith, o.confirmed);
  spent = ground (arith, o.spent);
  closing = ground (arith, o.closing);
}

remove_change-undone :
    (confirmed : Bool) (c : StateChange) (s : State) (w v : Watches)
    → Ready confirmed (c ∷ []) s
    → watch_change c w ≡ ok v
    → remove_change confirmed c (s, w) ≡ ok (undone confirmed (c ∷ []) s, v)
unfolding remove_change
remove_change-undone confirmed (StateChange.funding_confirmed o) s w v r h =
    ground (arith, r.funding, ok_inj h)
remove_change-undone true (StateChange.funding_double_spent o) s w v r h = ground (arith, ok_inj h)
remove_change-undone false (StateChange.funding_double_spent o) s w v r h =
    ground (arith, r.spent, ok_inj h)
remove_change-undone confirmed (StateChange.closing_confirmed txid tx) s w v r h =
    let (o, spent, made) = >>=-eq-ok (spent_by tx) _ h in
    ground (arith, r.closing, spent, ok_inj made)

undone-undone :
    (confirmed : Bool) (c : StateChange) (cs : List StateChange) (s : State)
    → Once (c ∷ cs)
    → undone confirmed cs (undone confirmed (c ∷ []) s) ≡ undone confirmed (c ∷ cs) s
undone-undone confirmed (StateChange.funding_confirmed o) cs s once = ground arith
undone-undone confirmed (StateChange.funding_double_spent o) cs s once =
    ground (arith, any_none is_spent cs, once.spent)
undone-undone confirmed (StateChange.closing_confirmed txid tx) cs s once = ground arith

Ready-tail :
    (confirmed : Bool) (c : StateChange) (cs : List StateChange) (s : State)
    → Once (c ∷ cs)
    → Ready confirmed (c ∷ cs) s
    → Ready confirmed (c ∷ []) s × Ready confirmed cs (undone confirmed (c ∷ []) s)
Ready-tail confirmed (StateChange.funding_confirmed o) cs s once r = (
  record { funding = λ h. r.funding (ground (arith, h)); spent = λ h. cc; closing = λ h. cc },
  record {
    funding = λ h. absurd (ground (arith, any_none is_confirmed cs, once.confirmed, h));
    spent = λ h. ground (arith, r.spent, h);
    closing = λ h. ground (arith, r.closing, h);
  },
)
Ready-tail confirmed (StateChange.funding_double_spent o) cs s once r = (
  record { funding = λ h. cc; spent = λ h. r.spent (ground (arith, h)); closing = λ h. cc },
  record {
    funding = λ h. ground (arith, r.funding, h);
    spent = λ h. absurd (ground (arith, any_none is_spent cs, once.spent, h));
    closing = λ h. ground (arith, r.closing, h);
  },
)
Ready-tail confirmed (StateChange.closing_confirmed txid tx) cs s once r = (
  record { funding = λ h. cc; spent = λ h. cc; closing = λ h. r.closing (ground (arith, h)) },
  record {
    funding = λ h. ground (arith, r.funding, h);
    spent = λ h. ground (arith, r.spent, h);
    closing = λ h. absurd (ground (arith, any_none is_closing cs, once.closing, h));
  },
)

pub remove_changes-undone :
    (confirmed : Bool) (cs : List StateChange) (s : State) (w v : Watches)
    → Once cs
    → Ready confirmed cs s
    → watch_changes cs w ≡ ok v
    → remove_changes confirmed cs (s, w) ≡ ok (undone confirmed cs s, v)
unfolding remove_changes
remove_changes-undone confirmed [] s w v once r h = ap (λ x. x >>= λ y. ok (s, y)) h
remove_changes-undone confirmed (c ∷ cs) s w v once r h =
    let (m, first, rest) = >>=-eq-ok (watch_change c w) _ h in
    let (now, later) = Ready-tail confirmed c cs s once r in
    ap (λ x. x >>= λ y. remove_changes confirmed cs y)
      (remove_change-undone confirmed c s w m now first)
    ∙ remove_changes-undone confirmed cs (undone confirmed (c ∷ []) s) m v (Once-tail c cs once)
        later rest
    ∙ ap (λ t. ok (t, v)) (undone-undone confirmed c cs s once)
