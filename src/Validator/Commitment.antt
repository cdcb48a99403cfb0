-- ===== src/Validator/Commitment.antt =====
-- The checks of a new commitment of either side and of a revocation by the counterparty, in
-- vls-core/src/policy/simple_validator.rs.
use vls.Prelude.{
  ℕ, ◌+◌, ◌/◌, Bool, true, false, not, ◌&&◌, Option, none, some, List, [], ◌∷◌, length, ltb, leb,
  ◌==◌, if◌then◌else◌, add_u64, mul_u64, checked_add, Outcome, ok, ValidationErrorKind, unwrap,
  ok_or, ◌>>=◌, ◌>>◌,
}
use vls.Policy.{policy_err_if}
use vls.Tx.{HtlcInfo2, CommitmentInfo2, CommitmentInfo2-discrete, value_to_parties}
use vls.Setup.{ChannelSetup, is_anchors, is_zero_fee_htlc}
use vls.Enforcement.{
  EnforcementState, get_previous_counterparty_point, get_previous_counterparty_commit_info,
}
use vls.Validator.{
  SimplePolicy, min_dust_limit_satoshis, min_chan_dust_limit_satoshis,
  expected_commitment_tx_weight, validate_expiry, validate_fee,
}

abbrev pub info_eq : CommitmentInfo2 → CommitmentInfo2 → Bool
info_eq a b = elim (CommitmentInfo2-discrete a b) [ yes e ↦ true | no e ↦ false ]

-- `Some(info2) != prev_commit_info.as_ref()`
abbrev pub info_differs : CommitmentInfo2 → Option CommitmentInfo2 → Bool
info_differs info none = true
info_differs info (some prev) = not (info_eq info prev)

-- A point that is missing or differs.
abbrev pub point_differs : ℕ → Option ℕ → Bool
point_differs point none = true
point_differs point (some prev) = not (point == prev)

-- A commitment output that is not zero and under the dust limit.
abbrev pub is_dust : ℕ → Bool
is_dust value_sat = ltb 0 value_sat && ltb value_sat min_chan_dust_limit_satoshis

-- The dust limit of an HTLC whose transaction has this weight.
unfoldable pub htlc_dust_limit : ChannelSetup → CommitmentInfo2 → ℕ → ℕ
htlc_dust_limit setup info weight =
    if is_zero_fee_htlc setup
    then min_chan_dust_limit_satoshis
    else add_u64 min_dust_limit_satoshis (mul_u64 info.feerate_per_kw weight / 1000)

abbrev pub num_htlcs : CommitmentInfo2 → ℕ
num_htlcs info = length info.offered_htlcs + length info.received_htlcs

module _ (p : SimplePolicy) where
  -- The loop over the offered or the received HTLCs, with the sum so far.
  unfoldable pub check_htlcs : ℕ → ℕ → ℕ → List HtlcInfo2 → Outcome ℕ
  check_htlcs dust_limit current_height htlc_value_sat [] = ok htlc_value_sat
  check_htlcs dust_limit current_height htlc_value_sat (h ∷ hs) = do
    validate_expiry p h.cltv_expiry current_height
    total ← ok_or ValidationErrorKind.policy (checked_add htlc_value_sat h.value_sat)
    policy_err_if p.filter (ltb h.value_sat dust_limit) "policy-commitment-outputs-trimmed"
    check_htlcs dust_limit current_height total hs

  -- The requirements on the first commitment.
  unfoldable pub check_initial : ChannelSetup → ℕ → CommitmentInfo2 → Outcome (Unit {0})
  check_initial setup commit_num info = do
    policy_err_if p.filter (commit_num == 0 && ltb 0 (num_htlcs info))
        "policy-commitment-first-no-htlcs"
    policy_err_if p.filter
        (commit_num == 0
          && (setup.is_outbound && ltb (setup.push_value_msat / 1000) (value_to_parties info).1))
        "policy-commitment-initial-funding-value"

  module _ (htlc_timeout_tx_weight htlc_success_tx_weight : Bool → ℕ) where
    unfoldable pub validate_commitment_tx :
        ℕ → ChannelSetup → ℕ → CommitmentInfo2 → Outcome (Unit {0})
    validate_commitment_tx commit_num setup current_height info = do
      policy_err_if p.filter (is_dust info.to_broadcaster_value_sat)
          "policy-commitment-outputs-trimmed"
      policy_err_if p.filter (is_dust info.to_countersigner_value_sat)
          "policy-commitment-outputs-trimmed"
      policy_err_if p.filter (ltb p.max_htlcs (num_htlcs info)) "policy-commitment-htlc-count-limit"
      offered_sat ←
          check_htlcs (htlc_dust_limit setup info (htlc_timeout_tx_weight (is_anchors setup)))
            current_height 0 info.offered_htlcs
      htlc_value_sat ←
          check_htlcs (htlc_dust_limit setup info (htlc_success_tx_weight (is_anchors setup)))
            current_height offered_sat info.received_htlcs
      policy_err_if p.filter (ltb p.max_htlc_value_sat htlc_value_sat)
          "policy-commitment-htlc-inflight-limit"
      to_parties ←
          ok_or ValidationErrorKind.policy
            (checked_add info.to_broadcaster_value_sat info.to_countersigner_value_sat)
      sum_outputs ← ok_or ValidationErrorKind.policy (checked_add to_parties htlc_value_sat)
      validate_fee p "policy-commitment-fee-range" setup.channel_value_sat sum_outputs
          (expected_commitment_tx_weight (is_anchors setup) (num_htlcs info))
      check_initial setup commit_num info

    -- The tests of a counterparty commitment that was signed before.
    unfoldable pub check_counterparty_retry :
        EnforcementState → ℕ → ℕ → CommitmentInfo2 → Outcome (Unit {0})
    check_counterparty_retry estate commit_num commitment_point info = do
      policy_err_if p.filter (point_differs commitment_point estate.current_counterparty_point)
          "policy-commitment-retry-same"
      policy_err_if p.filter
          (info_differs info (get_previous_counterparty_commit_info estate commit_num))
          "policy-commitment-retry-same"

    unfoldable pub validate_counterparty_commitment_tx :
        EnforcementState → ℕ → ℕ → ChannelSetup → ℕ → CommitmentInfo2 → Outcome (Unit {0})
    validate_counterparty_commitment_tx estate commit_num commitment_point setup current_height
          info =
        do
          validate_commitment_tx commit_num setup current_height info
          policy_err_if p.filter (not (info.to_self_delay == setup.holder_selected_contest_delay))
              "policy-channel-contest-delay-range-holder"
          policy_err_if p.filter (ltb (add_u64 estate.next_counterparty_revoke_num 1) commit_num)
              "policy-commitment-previous-revoked"
          if add_u64 commit_num 1 == estate.next_counterparty_commit_num
              then check_counterparty_retry estate commit_num commitment_point info
              else ok tt

    -- The `expect` of the current commitment panics where there is none.
    unfoldable pub check_holder_retry : EnforcementState → CommitmentInfo2 → Outcome (Unit {0})
    check_holder_retry estate info = unwrap estate.current_holder_commit_info >>= λ current.
        policy_err_if p.filter (not (info_eq info current)) "policy-commitment-retry-same"

    unfoldable pub validate_holder_commitment_tx :
        EnforcementState → ℕ → ChannelSetup → ℕ → CommitmentInfo2 → Outcome (Unit {0})
    validate_holder_commitment_tx estate commit_num setup current_height info = do
      validate_commitment_tx commit_num setup current_height info
      policy_err_if p.filter (not (info.to_self_delay == setup.counterparty_selected_contest_delay))
          "policy-channel-contest-delay-range-counterparty"
      if add_u64 commit_num 1 == estate.next_holder_commit_num
          then check_holder_retry estate info
          else ok tt
      policy_err_if p.filter (leb (add_u64 commit_num 2) estate.next_holder_commit_num)
          "policy-commitment-holder-not-revoked"
      policy_err_if p.filter (commit_num == estate.next_holder_commit_num && estate.channel_closed)
          "policy-commitment-spends-active-utxo"

  -- `public_key` is the curve point of a secret, as the crate `secp256k1` computes it.
  module _ (public_key : ℕ → ℕ) where
    unfoldable pub validate_counterparty_revocation : EnforcementState → ℕ → ℕ → Outcome (Unit {0})
    validate_counterparty_revocation state revoke_num commitment_secret = do
      policy_err_if p.filter
          (not (revoke_num == state.next_counterparty_revoke_num)
            && not (add_u64 revoke_num 1 == state.next_counterparty_revoke_num))
          "policy-commitment-previous-revoked"
      policy_err_if p.filter
          (point_differs (public_key commitment_secret)
            (get_previous_counterparty_point state revoke_num))
          "policy-commitment-previous-revoked"
