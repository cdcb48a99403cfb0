-- ===== src/Onchain.antt =====
-- The validator that also asks for a buried funding transaction
-- (vls-core/src/policy/onchain_validator.rs). What it hands on to the simple validator unchanged is
-- left out.
pub mod Buried
mod Tests
use vls.Prelude.{ℕ, Bool, ltb, leb, if◌then◌else◌, Outcome, ok, ◌>>◌}
use vls.Policy.{PolicyFilter, policy_err_if, temporary_policy_error_with_filter}
use vls.Tx.{CommitmentInfo2}
use vls.Setup.{ChannelSetup}
use vls.Enforcement.{EnforcementState}
use vls.Validator.{SimplePolicy}
use vls.Validator.Commitment
use vls.Monitor.Blocks.{ChainState}

pub record OnchainPolicy : Type 0 where
  pub filter : PolicyFilter
  pub min_funding_depth : ℕ

unfoldable pub make_onchain_policy : PolicyFilter → OnchainPolicy
make_onchain_policy filter = record { filter = filter; min_funding_depth = 1 }

unfoldable pub ensure_funding_buried_and_unspent :
    OnchainPolicy → ℕ → ChainState → Outcome (Unit {0})
ensure_funding_buried_and_unspent o commit_num cstate =
    if ltb 0 commit_num
    then ((if ltb cstate.funding_depth o.min_funding_depth
          then temporary_policy_error_with_filter "policy-commitment-spends-active-utxo" o.filter
          else ok tt)
        >> policy_err_if o.filter (ltb 0 cstate.closing_depth)
            "policy-commitment-spends-active-utxo")
    else ok tt

-- The filter is that of the inner policy, as `make_validator` copies it. The weights are those of
-- the simple validator.
module _ (p : SimplePolicy) (timeout_weight success_weight : Bool → ℕ) where
  unfoldable pub validate_counterparty_commitment_tx :
      EnforcementState → ℕ → ℕ → ChannelSetup → ChainState → CommitmentInfo2 → Outcome (Unit {0})
  validate_counterparty_commitment_tx estate commit_num commitment_point setup cstate info =
      ensure_funding_buried_and_unspent (make_onchain_policy p.filter) commit_num cstate
      >> Commitment.validate_counterparty_commitment_tx p timeout_weight success_weight estate
          commit_num commitment_point setup cstate.current_height info

  unfoldable pub validate_holder_commitment_tx :
      EnforcementState → ℕ → ChannelSetup → ChainState → CommitmentInfo2 → Outcome (Unit {0})
  validate_holder_commitment_tx estate commit_num setup cstate info =
      (if leb estate.next_holder_commit_num commit_num
        then ensure_funding_buried_and_unspent (make_onchain_policy p.filter) commit_num cstate
        else ok tt)
      >> Commitment.validate_holder_commitment_tx p timeout_weight success_weight estate commit_num
          setup cstate.current_height info
