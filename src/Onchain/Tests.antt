-- ===== src/Onchain/Tests.antt =====
-- The on-chain validator with the monitor of a buried channel.
use vls.Prelude.{
  ◌≡◌, refl, true, none, some, [], ◌∷◌, arith, ok, err, ValidationErrorKind, add_u64, mul_u64,
  add_u32, checked_add, checked_sub,
}
use vls.Policy.{filter, policy_err_if, temporary_policy_error_with_filter}
use vls.Policy.Laws.{Enforces}
use vls.Tx.{CommitmentInfo2}
use vls.Setup.{is_anchors, is_zero_fee_htlc}
use vls.Enforcement.{EnforcementState, new}
use vls.Validator.{
  make_simple_policy, estimate_feerate_per_kw, validate_fee, expected_commitment_tx_weight,
  validate_expiry,
}
use vls.Validator.Commitment
use vls.Validator.Commitment.{validate_commitment_tx, check_htlcs, check_initial, htlc_dust_limit}
use vls.Monitor.{State}
use vls.Monitor.Blocks.{as_chain_state}
use vls.Monitor.Depths.{Past}
use vls.Onchain.{
  make_onchain_policy, ensure_funding_buried_and_unspent, validate_counterparty_commitment_tx,
  validate_holder_commitment_tx,
}
use vls.Onchain.Buried.{
  Open, validate_counterparty_commitment_tx-Open, validate_holder_commitment_tx-Open,
}
use vls.Samples.{policy, setup, commitment, timeout_weight, success_weight}

abbrev buried : State
buried = record {
  height = 100;
  funding_txids = 9 ∷ [];
  funding_vouts = 0 ∷ [];
  funding_inputs = [];
  funding_height = some 98;
  funding_outpoint = some (record { txid = 9; vout = 0 });
  funding_double_spent_height = none;
  closing_height = none;
  saw_block = true;
  decode_state = none;
}

enforced : Enforces policy.filter "policy-commitment-spends-active-utxo"
unfolding filter make_simple_policy
enforced = refl

buried-Past : Past buried
buried-Past = record { funding = omega arith; double_spent = tt; closing = tt }

abbrev third : EnforcementState
third = record (new 0) {
  next_holder_commit_num = 3;
  next_counterparty_commit_num = 3;
  next_counterparty_revoke_num = 2;
}

abbrev of_counterparty : CommitmentInfo2
of_counterparty = record commitment { to_self_delay = 6 }

holder_valid :
    validate_holder_commitment_tx policy timeout_weight success_weight third 3 setup
      (as_chain_state buried)
      commitment
    ≡ ok tt
unfolding validate_holder_commitment_tx ensure_funding_buried_and_unspent make_onchain_policy
    as_chain_state Commitment.validate_holder_commitment_tx validate_commitment_tx check_htlcs
    check_initial htlc_dust_limit validate_fee validate_expiry estimate_feerate_per_kw
    expected_commitment_tx_weight policy_err_if is_anchors is_zero_fee_htlc make_simple_policy
    checked_add checked_sub add_u64 mul_u64 add_u32 new
holder_valid = refl

counterparty_valid :
    validate_counterparty_commitment_tx policy timeout_weight success_weight third 3 5 setup
      (as_chain_state buried)
      of_counterparty
    ≡ ok tt
unfolding validate_counterparty_commitment_tx ensure_funding_buried_and_unspent make_onchain_policy
    as_chain_state Commitment.validate_counterparty_commitment_tx validate_commitment_tx check_htlcs
    check_initial htlc_dust_limit validate_fee validate_expiry estimate_feerate_per_kw
    expected_commitment_tx_weight policy_err_if is_anchors is_zero_fee_htlc make_simple_policy
    checked_add checked_sub add_u64 mul_u64 add_u32 new
counterparty_valid = refl

-- Without the funding transaction the error is a temporary one.
unburied_refused :
    validate_holder_commitment_tx policy timeout_weight success_weight third 3 setup
      (as_chain_state (record buried { funding_height = none }))
      commitment
    ≡ err ValidationErrorKind.temporary_policy
unfolding validate_holder_commitment_tx ensure_funding_buried_and_unspent make_onchain_policy
    as_chain_state new temporary_policy_error_with_filter filter make_simple_policy
unburied_refused = refl

validate_holder_commitment_tx-Open_example :
    Open buried
    × (Commitment.validate_holder_commitment_tx policy timeout_weight success_weight third 3 setup
          100 commitment
        ≡ ok tt)
unfolding new
validate_holder_commitment_tx-Open_example =
    validate_holder_commitment_tx-Open policy timeout_weight success_weight third 3 setup buried
      commitment enforced (omega arith) buried-Past (omega arith) (omega arith) holder_valid

validate_counterparty_commitment_tx-Open_example :
    Open buried
    × (Commitment.validate_counterparty_commitment_tx policy timeout_weight success_weight third 3 5
          setup 100 of_counterparty
        ≡ ok tt)
validate_counterparty_commitment_tx-Open_example =
    validate_counterparty_commitment_tx-Open policy timeout_weight success_weight third 3 5 setup
      buried of_counterparty enforced (omega arith) buried-Past (omega arith) counterparty_valid
