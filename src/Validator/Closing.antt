-- ===== src/Validator/Closing.antt =====
-- The checks of a mutual close and of the parameters of an HTLC transaction, in
-- vls-core/src/policy/simple_validator.rs. The weight that the crate `bitcoin` gives the unsigned
-- closing transaction is a parameter, and so are the wallet's two methods.
use vls.Prelude.{
  ℕ, ◌+◌, Bool, true, false, not, ◌&&◌, ◌||◌, Option, none, some, is_some, List, [], ◌∷◌, ltb, ◌==◌,
  if◌then◌else◌, checked_add, Outcome, ValidationErrorKind, ok_or, ◌>>=◌, ◌>>◌,
}
use vls.Policy.{policy_err_if}
use vls.Tx.{HtlcInfo2, CommitmentInfo2}
use vls.Setup.{ChannelSetup, is_zero_fee_htlc}
use vls.Enforcement.{EnforcementState}
use vls.Validator.{SimplePolicy, validate_fee, outside_epsilon_range, check_shutdown_script}

abbrev is_empty : List HtlcInfo2 → Bool
is_empty [] = true
is_empty (h ∷ hs) = false

abbrev pub htlcs_is_empty : CommitmentInfo2 → Bool
htlcs_is_empty info = is_empty info.offered_htlcs && is_empty info.received_htlcs

-- The `==` of two optional scripts.
abbrev pub same_script : Option ℕ → Option ℕ → Bool
same_script none none = true
same_script (some a) (some b) = a == b
same_script _ _ = false

-- The weight of the witness of a mutual close.
abbrev expected_mutual_close_witness_weight : ℕ
expected_mutual_close_witness_weight = 222

unfoldable pub mutual_close_tx_weight : ℕ → ℕ
mutual_close_tx_weight unsigned_weight = unsigned_weight + expected_mutual_close_witness_weight

module _ (p : SimplePolicy) where
  -- The requirements on the scripts that the two values are paid to.
  unfoldable pub check_close_scripts :
      ChannelSetup → ℕ → ℕ → Option ℕ → Option ℕ → Outcome (Unit {0})
  check_close_scripts setup to_holder_value_sat to_counterparty_value_sat holder_script
        counterparty_script =
      do
        policy_err_if p.filter (ltb 0 to_holder_value_sat && not (is_some holder_script))
            "policy-mutual-destination-allowlisted"
        policy_err_if p.filter
            (ltb 0 to_counterparty_value_sat && not (is_some counterparty_script))
            "policy-mutual-destination-allowlisted"
        policy_err_if p.filter
            ((is_some setup.holder_shutdown_script && ltb 0 to_holder_value_sat)
              && not (same_script holder_script setup.holder_shutdown_script))
            "policy-mutual-destination-allowlisted"

  -- The side that does not pay the fee has its value in the latest commitments of both sides.
  unfoldable pub check_close_values :
      ChannelSetup → CommitmentInfo2 → CommitmentInfo2 → ℕ → ℕ → Outcome (Unit {0})
  check_close_values setup holder_info counterparty_info to_holder_value_sat
        to_counterparty_value_sat =
      if setup.is_outbound
      then (policy_err_if p.filter
            (outside_epsilon_range p to_counterparty_value_sat
              counterparty_info.to_broadcaster_value_sat)
            "policy-mutual-value-matches-commitment"
          >> policy_err_if p.filter
              (outside_epsilon_range p to_counterparty_value_sat
                holder_info.to_countersigner_value_sat)
              "policy-mutual-value-matches-commitment")
      else (policy_err_if p.filter
            (outside_epsilon_range p to_holder_value_sat holder_info.to_broadcaster_value_sat)
            "policy-mutual-value-matches-commitment"
          >> policy_err_if p.filter
              (outside_epsilon_range p to_holder_value_sat
                counterparty_info.to_countersigner_value_sat)
              "policy-mutual-value-matches-commitment")

  -- `closing_weight` is the weight of the unsigned closing transaction of the two values, of the
  -- two scripts, where none stands for the empty one, and of the funding outpoint.
  module _ (can_spend : List ℕ → ℕ → Option Bool) (allowlist_contains : ℕ → List ℕ → Bool)
      (closing_weight : ℕ → ℕ → Option ℕ → Option ℕ → ℕ → ℕ) where
    unfoldable pub validate_mutual_close_tx :
        ChannelSetup → EnforcementState → ℕ → ℕ → Option ℕ → Option ℕ → List ℕ → Outcome (Unit {0})
    validate_mutual_close_tx setup estate to_holder_value_sat to_counterparty_value_sat
          holder_script counterparty_script holder_wallet_path_hint =
        do
          holder_info ← ok_or ValidationErrorKind.policy estate.current_holder_commit_info
          counterparty_info ←
              ok_or ValidationErrorKind.policy estate.current_counterparty_commit_info
          check_close_scripts setup to_holder_value_sat to_counterparty_value_sat holder_script
              counterparty_script
          policy_err_if p.filter
              (not (htlcs_is_empty holder_info) || not (htlcs_is_empty counterparty_info))
              "policy-mutual-no-pending-htlcs"
          sum_outputs ←
              ok_or ValidationErrorKind.policy
                (checked_add to_holder_value_sat to_counterparty_value_sat)
          validate_fee p "policy-mutual-fee-range" setup.channel_value_sat sum_outputs (
              mutual_close_tx_weight (
                closing_weight to_holder_value_sat to_counterparty_value_sat holder_script
                  counterparty_script setup.funding_outpoint))
          check_close_values setup holder_info counterparty_info to_holder_value_sat
              to_counterparty_value_sat
          check_shutdown_script p can_spend allowlist_contains holder_script holder_wallet_path_hint

  -- The arguments are `htlc.offered`, `htlc.cltv_expiry` and the rate of the transaction.
  unfoldable pub validate_htlc_tx : ChannelSetup → Bool → ℕ → ℕ → Outcome (Unit {0})
  validate_htlc_tx setup offered cltv_expiry feerate_per_kw = do
    policy_err_if p.filter (offered && cltv_expiry == 0) "policy-htlc-locktime"
    policy_err_if p.filter (not (is_zero_fee_htlc setup) && ltb feerate_per_kw p.min_feerate_per_kw)
        "policy-htlc-fee-range"
    policy_err_if p.filter (ltb p.max_feerate_per_kw feerate_per_kw) "policy-htlc-fee-range"
