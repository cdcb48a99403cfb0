-- ===== src/Validator/Counterparty.antt =====
-- The counterparty's commitments as the validator accepts them.
use vls.Prelude.{
  ℕ, ◌+◌, ◌≤◌, ◌<◌, ◌≡◌, sym, ap, Option, some, none, false, Bool, arith, add_u64_eq, ok, >>-eq-ok,
}
use vls.Policy.{PolicyFilter}
use vls.Policy.Laws.{policy_err_if-ok, Enforces}
use vls.Tx.{CommitmentInfo2}
use vls.Setup.{ChannelSetup}
use vls.Enforcement.{EnforcementState, get_previous_counterparty_commit_info}
use vls.Enforcement.Numbers.{num_end}
use vls.Validator.{SimplePolicy}
use vls.Validator.Holder.{info_eq-true}
use vls.Validator.Revoked.{point_differs-false}
use vls.Validator.Commitment.{
  validate_counterparty_commitment_tx, validate_commitment_tx, check_counterparty_retry,
  info_differs,
}

-- The tags of the checks that only the counterparty's commitments pass.
pub record Follows (f : PolicyFilter) : Type 0 where
  pub retry_same : Enforces f "policy-commitment-retry-same"
  pub previous_revoked : Enforces f "policy-commitment-previous-revoked"
  pub delay : Enforces f "policy-channel-contest-delay-range-holder"

info_differs-false :
    (info : CommitmentInfo2) (o : Option CommitmentInfo2)
    → info_differs info o ≡ false
    → o ≡ some info
info_differs-false info none h = cc
info_differs-false info (some prev) h = ap some (sym (info_eq-true info prev (ground (arith, h))))

module _ (p : SimplePolicy) (htlc_timeout_tx_weight htlc_success_tx_weight : Bool → ℕ)
    (g : Follows p.filter) where
  check_counterparty_retry-ok :
      (s : EnforcementState) (num point : ℕ) (info : CommitmentInfo2)
      → check_counterparty_retry p htlc_timeout_tx_weight htlc_success_tx_weight s num point info
        ≡ ok tt
      → (s.current_counterparty_point ≡ some point)
        × (get_previous_counterparty_commit_info s num ≡ some info)
  unfolding check_counterparty_retry
  check_counterparty_retry-ok s num point info h =
      let (h1, h2) = >>-eq-ok _ _ h in
      (
        point_differs-false _ _ (policy_err_if-ok p.filter _ _ g.retry_same h1),
        info_differs-false info _ (policy_err_if-ok p.filter _ _ g.retry_same h2),
      )

  -- A counterparty commitment that passes under an enforcing policy passes the common checks and
  -- has the delay of the setup; its number is at most one past the number to be revoked next; and
  -- if it was the last one signed, its point and its contents are the same.
  pub validate_counterparty_commitment_tx-ok :
      (s : EnforcementState) (num point : ℕ) (setup : ChannelSetup) (height : ℕ)
      (info : CommitmentInfo2)
      → num < num_end
      → s.next_counterparty_revoke_num ≤ num_end
      → validate_counterparty_commitment_tx p htlc_timeout_tx_weight htlc_success_tx_weight s num
          point setup height info
        ≡ ok tt
      → (validate_commitment_tx p htlc_timeout_tx_weight htlc_success_tx_weight num setup height
            info
          ≡ ok tt)
        × (info.to_self_delay ≡ setup.holder_selected_contest_delay)
        × (num ≤ s.next_counterparty_revoke_num + 1)
        × (num + 1 ≡ s.next_counterparty_commit_num
            → (s.current_counterparty_point ≡ some point)
              × (get_previous_counterparty_commit_info s num ≡ some info))
  unfolding validate_counterparty_commitment_tx
  validate_counterparty_commitment_tx-ok s num point setup height info small bound h =
      let (h1, r1) =
        >>-eq-ok
          (validate_commitment_tx p htlc_timeout_tx_weight htlc_success_tx_weight num setup height
            info)
          _ h in
      let (h2, r2) = >>-eq-ok _ _ r1 in
      let (h3, h4) = >>-eq-ok _ _ r2 in
      let e2 = policy_err_if-ok p.filter _ _ g.delay h2 in
      let e3 = policy_err_if-ok p.filter _ _ g.previous_revoked h3 in
      (
        h1,
        ground (arith, e2),
        ground (arith, e3, add_u64_eq s.next_counterparty_revoke_num 1),
        λ e. check_counterparty_retry-ok s num point info (ground (arith, h4, add_u64_eq num 1)),
      )
