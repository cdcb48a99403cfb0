-- ===== src/Enforcement/Numbers.antt =====
-- The commitment numbers of a channel under a policy that enforces their progression.
use vls.Prelude.{
  ℕ, ◌+◌, ◌-◌, ◌^◌, ◌≤◌, ◌<◌, ◌≡◌, refl, ◌≢◌, ◌⊎◌, inl, inr, true, false, not, Option, none, some,
  arith, if◌then◌else◌, ltb, ◌==◌, is_some, add_u64, add_u64_eq, ok, panic, >>-eq-ok, >>-ne-panic,
}
use vls.Policy.{PolicyFilter}
use vls.Policy.Laws.{Enforces, policy_err_if-ok, policy_err_if_enforced, policy_err_if-ne-panic}
use vls.Tx.{CommitmentInfo2}
use vls.Enforcement.{
  EnforcementState, advance_counterparty, check_retry, check_progression,
  set_next_counterparty_commit_num,
}

-- Commitment numbers count up from 0 and have 48 bits.
abbrev pub num_end : ℕ
num_end = 2 ^ 48

-- At most two counterparty commitments are not revoked, and their points are known.
pub record Inv (s : EnforcementState) : Type 0 where
  pub revoked_before : s.next_counterparty_revoke_num ≤ s.next_counterparty_commit_num - 1
  pub two_open : s.next_counterparty_commit_num ≤ s.next_counterparty_revoke_num + 2
  pub has_current : 0 < s.next_counterparty_commit_num → is_some s.current_counterparty_point ≡ true
  pub has_previous :
      1 < s.next_counterparty_commit_num → is_some s.previous_counterparty_point ≡ true
  pub holder_small : s.next_holder_commit_num ≤ num_end
  pub counterparty_small : s.next_counterparty_commit_num ≤ num_end

-- The tags under which the progression of the numbers is checked.
pub record Progression (f : PolicyFilter) : Type 0 where
  pub previous_revoked : Enforces f "policy-commitment-previous-revoked"
  pub retry_same : Enforces f "policy-commitment-retry-same"
  pub commitment_signed : Enforces f "policy-revoke-new-commitment-signed"
  pub other : Enforces f "policy-other"

-- The state after a counterparty commitment is signed for the first time.
abbrev pub advanced : EnforcementState → ℕ → ℕ → CommitmentInfo2 → EnforcementState
advanced s num point info = record s {
  next_counterparty_commit_num = num;
  previous_counterparty_point = s.current_counterparty_point;
  previous_counterparty_commit_info = s.current_counterparty_commit_info;
  current_counterparty_point = some point;
  current_counterparty_commit_info = some info;
}

-- What a successful call has done.
pub record Advanced (s : EnforcementState) (num point : ℕ) (info : CommitmentInfo2)
    (t : EnforcementState) : Type 0 where
  pub relative :
      (num ≡ s.next_counterparty_revoke_num + 2)
      ⊎ ((num ≡ 1) × (s.next_counterparty_revoke_num ≡ 0))
  pub result :
      ((num ≡ s.next_counterparty_commit_num + 1) × (t ≡ advanced s num point info))
      ⊎ ((num ≡ s.next_counterparty_commit_num)
          × (s.current_counterparty_point ≡ some point)
          × (t ≡ s))

module _ (f : PolicyFilter) (p : Progression f) where
  check_retry-ok :
      (current : Option ℕ) (point : ℕ) → check_retry f current point ≡ ok tt → current ≡ some point
  unfolding check_retry
  check_retry-ok none point h = cc
  check_retry-ok (some prior) point h =
      ground (arith, policy_err_if-ok f (not (point == prior)) _ p.retry_same h)

  check_progression-ok :
      (s : EnforcementState) (num point : ℕ)
      → s.next_counterparty_commit_num ≤ num_end
      → check_progression f s num point ≡ ok tt
      → (num ≡ s.next_counterparty_commit_num + 1)
        ⊎ ((num ≡ s.next_counterparty_commit_num) × (s.current_counterparty_point ≡ some point))
  unfolding check_progression
  check_progression-ok s num point small h = ground (
    arith,
    add_u64_eq s.next_counterparty_commit_num 1,
    check_retry-ok s.current_counterparty_point point,
    policy_err_if-ok f (not (num == add_u64 s.next_counterparty_commit_num 1))
        "policy-commitment-previous-revoked" p.previous_revoked,
  )

  -- The tests of the number against the number to be revoked next.
  check_relative :
      (revoke num : ℕ)
      → revoke ≤ num_end
      → (num == 0) ≡ false
      → ltb num (add_u64 revoke (if num == 1 then 1 else 2)) ≡ false
      → ltb (add_u64 revoke 2) num ≡ false
      → (num ≡ revoke + 2) ⊎ ((num ≡ 1) × (revoke ≡ 0))
  check_relative revoke num small a b c = ground (arith, add_u64_eq revoke 1, add_u64_eq revoke 2)

  set_next_counterparty_commit_num-step :
      (s : EnforcementState) (num point : ℕ) (info : CommitmentInfo2)
      → s.next_counterparty_commit_num ≤ num_end
      → num ≡ s.next_counterparty_commit_num + 1
      → set_next_counterparty_commit_num s num point info ≡ ok (advanced s num point info)
  unfolding set_next_counterparty_commit_num
  set_next_counterparty_commit_num-step s num point info small e =
      ground (arith, add_u64_eq s.next_counterparty_commit_num 1)

  set_next_counterparty_commit_num-retry :
      (s : EnforcementState) (num point : ℕ) (info : CommitmentInfo2)
      → s.next_counterparty_commit_num ≤ num_end
      → num ≡ s.next_counterparty_commit_num
      → 0 < num
      → set_next_counterparty_commit_num s num point info ≡ ok s
  unfolding set_next_counterparty_commit_num
  set_next_counterparty_commit_num-retry s num point info small e pos =
      ground (arith, add_u64_eq s.next_counterparty_commit_num 1)

  -- A call of `set_next_counterparty_commit_num` that succeeds under an enforcing policy either
  -- signs the next commitment, keeping the one before as the previous one, or is a retry with the
  -- same point that changes nothing; and its number is two past the number to be revoked next, or
  -- it is the first commitment.
  pub advance_counterparty-Advanced :
      (s : EnforcementState) (num point : ℕ) (info : CommitmentInfo2) (t : EnforcementState)
      → Inv s
      → advance_counterparty f s num point info ≡ ok t
      → Advanced s num point info t
  unfolding advance_counterparty
  advance_counterparty-Advanced s num point info t v h =
      let (h1, r1) = >>-eq-ok _ _ h in
      let (h2, r2) = >>-eq-ok _ _ r1 in
      let (h3, r3) = >>-eq-ok _ _ r2 in
      let (h4, r4) = >>-eq-ok _ _ r3 in
      let e1 = policy_err_if-ok f _ _ p.previous_revoked h1 in
      let e2 = policy_err_if-ok f _ _ p.previous_revoked h2 in
      let e3 = policy_err_if-ok f _ _ p.previous_revoked h3 in
      let e4 = check_progression-ok s num point v.counterparty_small h4 in
      record {
        relative = check_relative s.next_counterparty_revoke_num num (omega arith) e1 e2 e3;
        result = elim e4 [
          | inl e ↦ inl (
            e,
            cc (r4, set_next_counterparty_commit_num-step s num point info v.counterparty_small e),
          )
          | inr (e, same) ↦ inr (
            e,
            same,
            cc (
              r4,
              set_next_counterparty_commit_num-retry s num point info v.counterparty_small e
                  (ground (arith, e1)),
            ),
          )
        ];
      }

  -- Such a call keeps the invariant, for numbers that have 48 bits.
  pub advance_counterparty-Inv :
      (s : EnforcementState) (num point : ℕ) (info : CommitmentInfo2) (t : EnforcementState)
      → Inv s
      → num ≤ num_end
      → advance_counterparty f s num point info ≡ ok t
      → Inv t
  advance_counterparty-Inv s num point info t v small h =
      let a = advance_counterparty-Advanced s num point info t v h in
      elim a.result [
        | inl (e, is) ↦ rw is (record {
          revoked_before = ground (arith, a.relative);
          two_open = ground (arith, a.relative);
          has_current = λ _. refl;
          has_previous = λ h. v.has_current (omega arith);
          holder_small = v.holder_small;
          counterparty_small = small;
        })
        | inr (e, same, is) ↦ rw is v
      ]

  check_retry-ne-panic :
      (current : Option ℕ) (point : ℕ)
      → is_some current ≡ true
      → check_retry f current point ≢ panic
  unfolding check_retry
  check_retry-ne-panic none point h = cc
  check_retry-ne-panic (some prior) point h =
      ground (arith, policy_err_if_enforced f (not (point == prior)) _ p.retry_same)

  check_progression-ne-panic :
      (s : EnforcementState) (num point : ℕ)
      → Inv s
      → 0 < num
      → check_progression f s num point ≢ panic
  unfolding check_progression
  check_progression-ne-panic s num point v pos = ground (
    arith,
    v.has_current,
    check_retry-ne-panic s.current_counterparty_point point,
    policy_err_if-ne-panic f (not (num == add_u64 s.next_counterparty_commit_num 1))
        "policy-commitment-previous-revoked",
  )

  -- From a state that satisfies the invariant, `set_next_counterparty_commit_num` does not panic
  -- under an enforcing policy, whatever its arguments.
  pub advance_counterparty-ne-panic :
      (s : EnforcementState) (num point : ℕ) (info : CommitmentInfo2)
      → Inv s
      → advance_counterparty f s num point info ≢ panic
  unfolding advance_counterparty set_next_counterparty_commit_num
  advance_counterparty-ne-panic s num point info v =
      >>-ne-panic _ _ (policy_err_if-ne-panic f _ _) λ h1.
        let pos : 0 < num = ground (arith, policy_err_if-ok f _ _ p.previous_revoked h1) in
        >>-ne-panic _ _ (policy_err_if-ne-panic f _ _) λ h2.
          >>-ne-panic _ _ (policy_err_if-ne-panic f _ _)
            λ h3. >>-ne-panic _ _ (check_progression-ne-panic s num point v pos) λ h4. ground arith
