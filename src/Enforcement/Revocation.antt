-- ===== src/Enforcement/Revocation.antt =====
-- The counterparty's revocation number and the holder's commitment number under a policy that
-- enforces their progression.
use vls.Prelude.{
  ℕ, ◌+◌, ◌≤◌, ◌≡◌, ◌⊎◌, none, some, arith, if◌then◌else◌, ◌==◌, add_u64_eq, ok, >>-eq-ok,
}
use vls.Policy.{PolicyFilter}
use vls.Policy.Laws.{policy_err_if-ok}
use vls.Tx.{CommitmentInfo2}
use vls.Enforcement.{
  EnforcementState, CommitmentSignatures, advance_holder, advance_revocation,
  set_next_holder_commit_num, set_next_counterparty_revoke_num,
}
use vls.Enforcement.Numbers.{Inv, Progression, num_end}

module _ (f : PolicyFilter) (p : Progression f) where
  -- A call of `set_next_counterparty_revoke_num` that succeeds under an enforcing policy moves the
  -- number by at most one, to one less or two less than the number to be signed next, and changes
  -- nothing else but that the previous commitment is forgotten once it is revoked.
  pub advance_revocation-ok :
      (s : EnforcementState) (num : ℕ) (t : EnforcementState)
      → Inv s
      → num ≤ num_end
      → advance_revocation f s num ≡ ok t
      → ((num ≡ s.next_counterparty_revoke_num) ⊎ (num ≡ s.next_counterparty_revoke_num + 1))
        × ((num + 1 ≡ s.next_counterparty_commit_num) ⊎ (num + 2 ≡ s.next_counterparty_commit_num))
        × (t ≡ record s {
          next_counterparty_revoke_num = num;
          previous_counterparty_commit_info =
              (if num + 1 == s.next_counterparty_commit_num
                then none
                else s.previous_counterparty_commit_info);
        })
  unfolding advance_revocation set_next_counterparty_revoke_num
  advance_revocation-ok s num t v small h =
      let (h1, r1) = >>-eq-ok _ _ h in
      let (h2, r2) = >>-eq-ok _ _ r1 in
      let (h3, r3) = >>-eq-ok _ _ r2 in
      let (h4, r4) = >>-eq-ok _ _ r3 in
      let e1 = policy_err_if-ok f _ _ p.other h1 in
      let e2 = policy_err_if-ok f _ _ p.previous_revoked h2 in
      let e3 = policy_err_if-ok f _ _ p.previous_revoked h3 in
      let e4 = policy_err_if-ok f _ _ p.previous_revoked h4 in
      (
        ground (arith, e4, add_u64_eq s.next_counterparty_revoke_num 1),
        ground (arith, e2, e3, add_u64_eq num 1, add_u64_eq num 2),
        ground (arith, e1, e2, e3, r4, add_u64_eq num 1, add_u64_eq num 2),
      )

  pub advance_revocation-Inv :
      (s : EnforcementState) (num : ℕ) (t : EnforcementState)
      → Inv s
      → num ≤ num_end
      → advance_revocation f s num ≡ ok t
      → Inv t
  advance_revocation-Inv s num t v small h =
      let (by_one, near, is) = advance_revocation-ok s num t v small h in
      rw is (record {
        revoked_before = omega (arith, near);
        two_open = omega (arith, near);
        has_current = v.has_current;
        has_previous = v.has_previous;
        holder_small = v.holder_small;
        counterparty_small = v.counterparty_small;
      })

  -- A call of `set_next_holder_commit_num` that succeeds under an enforcing policy leaves the
  -- number or moves it by one, and stores the commitment with its signatures.
  pub advance_holder-ok :
      (s : EnforcementState) (num : ℕ) (info : CommitmentInfo2) (signatures : CommitmentSignatures)
      (t : EnforcementState)
      → Inv s
      → advance_holder f s num info signatures ≡ ok t
      → ((num ≡ s.next_holder_commit_num) ⊎ (num ≡ s.next_holder_commit_num + 1))
        × (t ≡ record s {
          next_holder_commit_num = num;
          current_holder_commit_info = some info;
          current_counterparty_signatures = some signatures;
        })
  unfolding advance_holder set_next_holder_commit_num
  advance_holder-ok s num info signatures t v h =
      let (h1, r1) = >>-eq-ok _ _ h in
      let e1 = policy_err_if-ok f _ _ p.commitment_signed h1 in
      (ground (arith, e1, add_u64_eq s.next_holder_commit_num 1), cc r1)
