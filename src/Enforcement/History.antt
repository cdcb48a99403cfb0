-- ===== src/Enforcement/History.antt =====
-- Histories of an `EnforcementState` from its creation on, under an enforcing policy.
use vls.Prelude.{
  ℕ, suc, ◌+◌, ◌-◌, ◌≤◌, ◌<◌, ◌≡◌, refl, ap, sym, ◌∙◌, ◌⊎◌, inl, inr, Option, none, some, List, [],
  ◌∷◌, All, arith, if◌then◌else◌, ◌==◌, add_u64_eq, ok, subst,
}
use vls.Policy.{PolicyFilter}
use vls.Tx.{CommitmentInfo2}
use vls.Enforcement.{
  EnforcementState, CommitmentSignatures, new, advance_holder, advance_counterparty,
  advance_revocation, get_previous_counterparty_point,
}
use vls.Enforcement.Numbers.{
  Inv, Progression, advanced, num_end, advance_counterparty-Advanced, advance_counterparty-Inv,
}
use vls.Enforcement.Revocation.{advance_revocation-ok, advance_revocation-Inv, advance_holder-ok}

-- A counterparty commitment that was signed: its own number, and its point.
pub record Signed : Type 0 where
  pub num : ℕ
  pub point : ℕ

-- The point that was last signed for a number.
abbrev pub signed_point : ℕ → List Signed → Option ℕ
signed_point n [] = none
signed_point n (x ∷ log) = if x.num == n then some x.point else signed_point n log

-- A history, with the commitments that were signed in it, newest first. The number that is handed
-- to `set_next_counterparty_commit_num` is one more than that of the commitment.
pub data History (f : PolicyFilter) : List Signed → EnforcementState → Type 0 where
  begin : (initial_holder_value : ℕ) → History f [] (new initial_holder_value)
  sign :
      {log : List Signed} {s t : EnforcementState} (num point : ℕ) (info : CommitmentInfo2)
      → History f log s
      → suc num ≤ num_end
      → advance_counterparty f s (suc num) point info ≡ ok t
      → History f (record { num = num; point = point } ∷ log) t
  revoke :
      {log : List Signed} {s t : EnforcementState} (num : ℕ)
      → History f log s
      → num ≤ num_end
      → advance_revocation f s num ≡ ok t
      → History f log t
  validate_holder :
      {log : List Signed} {s t : EnforcementState} (num : ℕ) (info : CommitmentInfo2)
      (signatures : CommitmentSignatures)
      → History f log s
      → num ≤ num_end
      → advance_holder f s num info signatures ≡ ok t
      → History f log t

-- Every entry is the one that a search for its number finds.
abbrev pub Consistent : List Signed → List Signed → Type 0
Consistent log = All (λ (x : Signed). signed_point x.num log ≡ some x.point)

pub record Agrees (log : List Signed) (s : EnforcementState) : Type 0 where
  pub inv : Inv s
  pub below : All (λ (x : Signed). x.num < s.next_counterparty_commit_num) log
  pub current :
      0 < s.next_counterparty_commit_num
      → signed_point (s.next_counterparty_commit_num - 1) log ≡ s.current_counterparty_point
  pub previous :
      1 < s.next_counterparty_commit_num
      → signed_point (s.next_counterparty_commit_num - 2) log ≡ s.previous_counterparty_point
  pub consistent : Consistent log log

signed_point_fresh :
    (n : ℕ) (log : List Signed) → All (λ (x : Signed). x.num < n) log → signed_point n log ≡ none
signed_point_fresh n [] h = refl
signed_point_fresh n (x ∷ log) h = ground (arith, signed_point_fresh n log h.1)

All-below_mono :
    (m n : ℕ) (log : List Signed)
    → m ≤ n
    → All (λ (x : Signed). x.num < m) log
    → All (λ (x : Signed). x.num < n) log
All-below_mono m n [] h b = tt
All-below_mono m n (x ∷ log) h b = (omega arith, All-below_mono m n log h b.1)

other :
    (x : Signed) (n : ℕ) (log : List Signed)
    → n < x.num
    → signed_point n (x ∷ log) ≡ signed_point n log
other x n log h = ground arith

-- A new entry for a new number, or the same point again, leaves the older entries consistent.
Consistent-cons :
    (x : Signed) (whole log : List Signed)
    → (signed_point x.num whole ≡ none) ⊎ (signed_point x.num whole ≡ some x.point)
    → Consistent whole log
    → Consistent (x ∷ whole) log
Consistent-cons x whole [] fresh h = tt
Consistent-cons x whole (y ∷ log) fresh h =
    (ground (arith, h.0), Consistent-cons x whole log fresh h.1)

module _ (f : PolicyFilter) (p : Progression f) where
  older_point :
      (num point : ℕ) (log : List Signed)
      → 0 < num
      → signed_point (suc num - 2) (record { num = num; point = point } ∷ log)
        ≡ signed_point (num - 1) log
  older_point num point log h =
      let earlier : suc num - 2 ≡ num - 1 = omega arith in
      let x : Signed = record { num = num; point = point } in
      ap (λ k. signed_point k (x ∷ log)) earlier ∙ other x (num - 1) log (omega arith)

  next-Agrees :
      (num point : ℕ) (info : CommitmentInfo2) (log : List Signed) (s : EnforcementState)
      → Agrees log s
      → Inv (advanced s (suc num) point info)
      → num ≡ s.next_counterparty_commit_num
      → Agrees (record { num = num; point = point } ∷ log) (advanced s (suc num) point info)
  next-Agrees num point info log s a v e =
      let x : Signed = record { num = num; point = point } in
      let fresh : signed_point num log ≡ none = signed_point_fresh num log (rw e a.below) in
      record {
        inv = v;
        below = (
          omega arith,
          All-below_mono s.next_counterparty_commit_num (suc num) log (omega arith) a.below,
        );
        current = λ h. let e : suc num - 1 ≡ num = omega arith in rw e (ground arith);
        previous = λ h.
            older_point num point log (omega arith)
            ∙ ap (λ k. signed_point (k - 1) log) e
            ∙ a.current (omega arith);
        consistent = (ground arith, Consistent-cons x log log (inl fresh) a.consistent);
      }

  retry-Agrees :
      (num point : ℕ) (log : List Signed) (s : EnforcementState)
      → Agrees log s
      → suc num ≡ s.next_counterparty_commit_num
      → s.current_counterparty_point ≡ some point
      → Agrees (record { num = num; point = point } ∷ log) s
  retry-Agrees num point log s a e same =
      let x : Signed = record { num = num; point = point } in
      let known : signed_point num log ≡ some point =
        let e' : s.next_counterparty_commit_num - 1 ≡ num = omega arith in
        sym (ap (λ k. signed_point k log) e') ∙ a.current (omega arith) ∙ same in
      record {
        inv = a.inv;
        below = (omega arith, a.below);
        current = λ h. ground (arith, same);
        previous = λ h. ground (arith, a.previous h);
        consistent = (ground arith, Consistent-cons x log log (inr known) a.consistent);
      }

  sign-Agrees :
      (num point : ℕ) (info : CommitmentInfo2) (log : List Signed) (s t : EnforcementState)
      → Agrees log s
      → suc num ≤ num_end
      → advance_counterparty f s (suc num) point info ≡ ok t
      → Agrees (record { num = num; point = point } ∷ log) t
  sign-Agrees num point info log s t a small h =
      let v = advance_counterparty-Inv f p s (suc num) point info t a.inv small h in
      elim (advance_counterparty-Advanced f p s (suc num) point info t a.inv h).result [
        | inl (e, is) ↦ rw is (next-Agrees num point info log s a (subst Inv is v) (omega arith))
        | inr (e, same, is) ↦ rw is (retry-Agrees num point log s a e same)
      ]

  revoke-Agrees :
      (num : ℕ) (log : List Signed) (s t : EnforcementState)
      → Agrees log s
      → num ≤ num_end
      → advance_revocation f s num ≡ ok t
      → Agrees log t
  revoke-Agrees num log s t a small h =
      let v = advance_revocation-Inv f p s num t a.inv small h in
      let is = (advance_revocation-ok f p s num t a.inv small h).2 in
      rw is (record {
        inv = subst Inv is v;
        below = a.below;
        current = a.current;
        previous = a.previous;
        consistent = a.consistent;
      })

  holder-Agrees :
      (num : ℕ) (info : CommitmentInfo2) (signatures : CommitmentSignatures) (log : List Signed)
      (s t : EnforcementState)
      → Agrees log s
      → num ≤ num_end
      → advance_holder f s num info signatures ≡ ok t
      → Agrees log t
  holder-Agrees num info signatures log s t a small h =
      rw (advance_holder-ok f p s num info signatures t a.inv h).1 (record {
        inv = record {
          revoked_before = a.inv.revoked_before;
          two_open = a.inv.two_open;
          has_current = a.inv.has_current;
          has_previous = a.inv.has_previous;
          holder_small = small;
          counterparty_small = a.inv.counterparty_small;
        };
        below = a.below;
        current = a.current;
        previous = a.previous;
        consistent = a.consistent;
      })

  History-Agrees : {log : List Signed} {s : EnforcementState} → History f log s → Agrees log s
  unfolding new
  History-Agrees (begin value) = record {
    inv = record {
      revoked_before = omega arith;
      two_open = omega arith;
      has_current = λ h. absurd (omega arith);
      has_previous = λ h. absurd (omega arith);
      holder_small = omega arith;
      counterparty_small = omega arith;
    };
    below = tt;
    current = λ h. absurd (omega arith);
    previous = λ h. absurd (omega arith);
    consistent = tt;
  }
  History-Agrees (sign num point info r small h) =
      sign-Agrees num point info _ _ _ (History-Agrees r) small h
  History-Agrees (revoke num r small h) = revoke-Agrees num _ _ _ (History-Agrees r) small h
  History-Agrees (validate_holder num info signatures r small h) =
      holder-Agrees num info signatures _ _ _ (History-Agrees r) small h

  -- In every history under an enforcing policy, at most two counterparty commitments are signed
  -- and not revoked, the numbers of both sides are as `Inv` says, and a number was never signed
  -- with two different points.
  pub History-safe :
      {log : List Signed} {s : EnforcementState} → History f log s → Inv s × Consistent log log
  History-safe r = let a = History-Agrees r in (a.inv, a.consistent)

  -- In every history `get_previous_counterparty_point` returns, for the last two numbers that were
  -- signed, the points that they were signed with, and nothing for any other number.
  pub get_previous_counterparty_point_lem :
      {log : List Signed} {s : EnforcementState} (n : ℕ)
      → History f log s
      → n ≤ num_end
      → get_previous_counterparty_point s n ≡ (
          if n + 1 == s.next_counterparty_commit_num
          then signed_point n log
          else if n + 2 == s.next_counterparty_commit_num
          then signed_point n log
          else none)
  unfolding get_previous_counterparty_point
  get_previous_counterparty_point_lem {log} {s} n r small =
      let a = History-Agrees r in
      let current : n + 1 ≡ s.next_counterparty_commit_num
          → signed_point n log ≡ s.current_counterparty_point =
        λ e.
          let e' : s.next_counterparty_commit_num - 1 ≡ n = omega arith in
          sym (ap (λ k. signed_point k log) e') ∙ a.current (omega arith) in
      let previous : n + 2 ≡ s.next_counterparty_commit_num
          → signed_point n log ≡ s.previous_counterparty_point =
        λ e.
          let e' : s.next_counterparty_commit_num - 2 ≡ n = omega arith in
          sym (ap (λ k. signed_point k log) e') ∙ a.previous (omega arith) in
      ground (arith, add_u64_eq n 1, add_u64_eq n 2, current, previous)
