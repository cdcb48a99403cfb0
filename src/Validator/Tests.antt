-- ===== src/Validator/Tests.antt =====
-- The validator at concrete commitments.
use vls.Prelude.{
  ℕ, ◌+◌, ◌≤◌, ◌≡◌, ◌⊎◌, refl, true, false, some, [], ◌∷◌, arith, ok, add_u64, mul_u64, checked_add,
  checked_sub,
}
use vls.Policy.{filter, policy_err_if}
use vls.Tx.{CommitmentInfo2, claimable_balance}
use vls.Setup.{is_anchors, is_zero_fee_htlc}
use vls.Enforcement.{
  get_previous_counterparty_commit_info, advance_counterparty, set_next_counterparty_commit_num,
  check_progression, EnforcementState, new, get_previous_counterparty_point,
}
use vls.Enforcement.History.{History, signed_point}
use vls.Validator.{
  make_simple_policy, estimate_feerate_per_kw, validate_fee, expected_commitment_tx_weight,
  validate_expiry,
}
use vls.Validator.Fees.{estimate_feerate_per_kw_wraps}
use vls.Validator.Commitment.{
  validate_counterparty_commitment_tx, validate_commitment_tx, validate_holder_commitment_tx,
  validate_counterparty_revocation, check_htlcs, check_initial, htlc_dust_limit,
}
use vls.Validator.Accepted.{
  Accepted, validate_commitment_tx-Accepted, validate_commitment_tx-claimable_balance,
}
use vls.Validator.Holder.{validate_holder_commitment_tx-ok}
use vls.Validator.Revoked.{validate_counterparty_revocation-History}
use vls.Validator.Counterparty.{Follows, validate_counterparty_commitment_tx-ok}
use vls.Samples.{
  policy, setup, commitment, timeout_weight, success_weight, policy-Commits, policy-Guards,
  policy-Progression,
}

commitment_valid :
    validate_commitment_tx policy timeout_weight success_weight 3 setup 100 commitment ≡ ok tt
unfolding validate_commitment_tx check_htlcs check_initial htlc_dust_limit validate_fee
    validate_expiry estimate_feerate_per_kw expected_commitment_tx_weight policy_err_if is_anchors
    is_zero_fee_htlc make_simple_policy checked_add checked_sub add_u64 mul_u64 new
commitment_valid = refl

validate_commitment_tx-Accepted_example : Accepted policy 663 703 3 setup commitment
validate_commitment_tx-Accepted_example =
    validate_commitment_tx-Accepted policy policy-Commits timeout_weight success_weight 3 setup 100
      commitment commitment_valid

validate_commitment_tx-claimable_balance_example :
    (balance : ℕ) × (claimable_balance commitment (λ hash. false) true 3000000 ≡ ok balance)
    × (balance ≤ 3000000)
validate_commitment_tx-claimable_balance_example =
    validate_commitment_tx-claimable_balance policy policy-Commits timeout_weight success_weight 3
      setup 100 commitment (λ hash. false) (omega arith) commitment_valid

-- A fee of 21.47483648 bitcoin at a weight of 500 has the rate of no fee.
estimate_feerate_per_kw_wraps_example :
    estimate_feerate_per_kw 2147483648 500 ≡ estimate_feerate_per_kw 0 500
estimate_feerate_per_kw_wraps_example =
    estimate_feerate_per_kw_wraps 0 4 (omega arith) (omega arith)

abbrev third : EnforcementState
third = record (new 0) { next_holder_commit_num = 3 }

holder_commitment_valid :
    validate_holder_commitment_tx policy timeout_weight success_weight third 3 setup 100 commitment
    ≡ ok tt
unfolding validate_holder_commitment_tx validate_commitment_tx check_htlcs check_initial
    htlc_dust_limit validate_fee validate_expiry estimate_feerate_per_kw
    expected_commitment_tx_weight policy_err_if is_anchors is_zero_fee_htlc make_simple_policy
    checked_add checked_sub add_u64 mul_u64 new
holder_commitment_valid = refl

validate_holder_commitment_tx-ok_example :
    (validate_commitment_tx policy timeout_weight success_weight 3 setup 100 commitment ≡ ok tt)
    × (commitment.to_self_delay ≡ setup.counterparty_selected_contest_delay)
    × (4 ≡ third.next_holder_commit_num → third.current_holder_commit_info ≡ some commitment)
    × (third.next_holder_commit_num ≤ 4)
    × (3 ≡ third.next_holder_commit_num → third.channel_closed ≡ false)
validate_holder_commitment_tx-ok_example =
    validate_holder_commitment_tx-ok policy timeout_weight success_weight policy-Guards.holds third
      3 setup 100 commitment (omega arith) holder_commitment_valid

-- The first counterparty commitment is signed with the point 11, whose secret is 6.
abbrev first : EnforcementState
first = record (new 0) {
  next_counterparty_commit_num = 1;
  current_counterparty_point = some 11;
  current_counterparty_commit_info = some commitment;
}

first_signed : advance_counterparty policy.filter (new 0) 1 11 commitment ≡ ok first
unfolding new advance_counterparty set_next_counterparty_commit_num check_progression policy_err_if
    filter add_u64 make_simple_policy
first_signed = refl

first_revoked : validate_counterparty_revocation policy (λ secret. secret + 5) first 0 6 ≡ ok tt
unfolding validate_counterparty_revocation get_previous_counterparty_point policy_err_if filter
    add_u64 make_simple_policy new
first_revoked = refl

validate_counterparty_revocation-History_example :
    ((0 ≡ first.next_counterparty_revoke_num) ⊎ (1 ≡ first.next_counterparty_revoke_num))
    × (signed_point 0 (record { num = 0; point = 11 } ∷ []) ≡ some 11)
validate_counterparty_revocation-History_example =
    validate_counterparty_revocation-History policy (λ secret. secret + 5) policy-Progression 0 6
      (History.sign 0 11 commitment (History.begin 0) (omega arith) first_signed) (omega arith)
      first_revoked

policy-Follows : Follows policy.filter
unfolding filter make_simple_policy
policy-Follows = record { retry_same = refl; previous_revoked = refl; delay = refl }

abbrev mirrored : CommitmentInfo2
mirrored = record commitment { is_counterparty_broadcaster = true; to_self_delay = 6 }

abbrev fourth : EnforcementState
fourth = record (new 0) { next_counterparty_commit_num = 3; next_counterparty_revoke_num = 2 }

counterparty_commitment_valid :
    validate_counterparty_commitment_tx policy timeout_weight success_weight fourth 3 11 setup 100
      mirrored
    ≡ ok tt
unfolding validate_counterparty_commitment_tx validate_commitment_tx check_htlcs check_initial
    htlc_dust_limit validate_fee validate_expiry estimate_feerate_per_kw
    expected_commitment_tx_weight policy_err_if is_anchors is_zero_fee_htlc make_simple_policy
    checked_add checked_sub add_u64 mul_u64 new
counterparty_commitment_valid = refl

validate_counterparty_commitment_tx-ok_example :
    (validate_commitment_tx policy timeout_weight success_weight 3 setup 100 mirrored ≡ ok tt)
    × (mirrored.to_self_delay ≡ setup.holder_selected_contest_delay)
    × (3 ≤ fourth.next_counterparty_revoke_num + 1)
    × (4 ≡ fourth.next_counterparty_commit_num
        → (fourth.current_counterparty_point ≡ some 11)
          × (get_previous_counterparty_commit_info fourth 3 ≡ some mirrored))
unfolding new
validate_counterparty_commitment_tx-ok_example =
    validate_counterparty_commitment_tx-ok policy timeout_weight success_weight policy-Follows
      fourth 3 11 setup 100 mirrored (omega arith) (omega arith) counterparty_commitment_valid
