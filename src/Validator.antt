-- ===== src/Validator.antt =====
-- The checks that vls-core/src/policy/simple_validator.rs makes of a channel's setup, of a new
-- commitment of either side, of a revocation and of a payment. The weights of the HTLC
-- transactions are those of the crate `lightning`, and the wallet is its trait's two methods: both
-- are parameters. A number of HTLCs is a length in memory, so sums of two do not wrap.
pub mod Commitment
pub mod Accepted
pub mod Fees
pub mod Revoked
pub mod Holder
pub mod Counterparty
pub mod Closing
pub mod Closed
pub mod Sweeps
pub mod Swept
mod Tests
mod CloseTests
use Prim.Native.String.{String, ◌++◌}
use vls.Prelude.{
  ℕ, ◌+◌, ◌-◌, ◌*◌, ◌/◌, ◌%◌, Bool, true, false, not, ◌&&◌, Option, none, some, List, [], ◌∷◌,
  length, ltb, leb, ◌==◌, if◌then◌else◌, u32_mod, add_u64, mul_u64, add_u32, checked_add,
  checked_sub, Outcome, ok, panic, ValidationErrorKind, unwrap, ok_or, ◌>>=◌, ◌>>◌,
}
use vls.Policy.{default_filter, PolicyFilter, policy_err_if}
use vls.Velocity.{VelocityControlSpec, VelocityControlIntervalType, unlimited_spec}
use vls.Tx.{HtlcInfo2, CommitmentInfo2, CommitmentInfo2-discrete, value_to_parties}
use vls.Setup.{ChannelSetup, CommitmentType, is_anchors, is_zero_fee_htlc, is_plain_anchors}
use vls.Enforcement.{
  EnforcementState, get_previous_counterparty_point, get_previous_counterparty_commit_info,
}

pub record PolicyDevFlags : Type 0 where
  pub disable_beneficial_balance_checks : Bool

pub record SimplePolicy : Type 0 where
  pub min_delay : ℕ
  pub max_delay : ℕ
  pub max_channel_size_sat : ℕ
  pub epsilon_sat : ℕ
  pub max_htlcs : ℕ
  pub max_htlc_value_sat : ℕ
  pub use_chain_state : Bool
  pub min_feerate_per_kw : ℕ
  pub max_feerate_per_kw : ℕ
  pub enforce_balance : Bool
  pub max_routing_fee_msat : ℕ
  pub dev_flags : Option PolicyDevFlags
  pub filter : PolicyFilter
  pub global_velocity_control : VelocityControlSpec
  pub max_channels : ℕ
  pub max_invoices : ℕ
  pub fee_velocity_control : VelocityControlSpec

-- `make_simple_policy`, by whether the network is Bitcoin's main one; the default limits are those
-- of vls-core/src/policy/mod.rs.
unfoldable pub make_simple_policy : Bool → SimplePolicy
make_simple_policy is_bitcoin = record {
  min_delay = if is_bitcoin then 144 else 4;
  max_delay = 2016;
  max_channel_size_sat = 1000000001;
  epsilon_sat = 10000;
  max_htlcs = 1000;
  max_htlc_value_sat = 16777216;
  use_chain_state = false;
  min_feerate_per_kw = 253;
  max_feerate_per_kw = if is_bitcoin then 25000 else 151000;
  enforce_balance = false;
  max_routing_fee_msat = if is_bitcoin then 10000 else 120000;
  dev_flags = none;
  filter = default_filter;
  global_velocity_control = unlimited_spec;
  max_channels = 1000;
  max_invoices = 1000;
  fee_velocity_control = record {
    limit_msat = 1000000000;
    interval_type = VelocityControlIntervalType.daily;
  };
}

abbrev pub min_dust_limit_satoshis : ℕ
min_dust_limit_satoshis = 330

abbrev pub min_chan_dust_limit_satoshis : ℕ
min_chan_dust_limit_satoshis = 354

unfoldable pub expected_commitment_tx_weight : Bool → ℕ → ℕ
expected_commitment_tx_weight opt_anchors num_untrimmed_htlc =
    (if opt_anchors then 1124 else 724) + num_untrimmed_htlc * 172

-- A weight of zero panics; the result is cut to 32 bits.
unfoldable pub estimate_feerate_per_kw : ℕ → ℕ → Outcome ℕ
estimate_feerate_per_kw total_fee weight =
    if weight == 0 then panic else ok ((add_u64 (mul_u64 total_fee 1000) 999 / weight) % u32_mod)

-- `SAFE_COMMITMENT_TYPE.contains(...)`
abbrev pub is_safe_type : CommitmentType → Bool
is_safe_type CommitmentType.static_remote_key = true
is_safe_type CommitmentType.anchors_zero_fee_htlc = true
is_safe_type _ = false

module _ (p : SimplePolicy) where
  unfoldable pub validate_delay : String → ℕ → Outcome (Unit {0})
  validate_delay name delay = do
    policy_err_if p.filter (ltb delay p.min_delay) ("policy-channel-contest-delay-range-" ++ name)
    policy_err_if p.filter (ltb p.max_delay delay) ("policy-channel-contest-delay-range-" ++ name)

  unfoldable pub validate_expiry : ℕ → ℕ → Outcome (Unit {0})
  validate_expiry expiry current_height =
      if p.use_chain_state
      then (policy_err_if p.filter (ltb expiry (add_u32 current_height p.min_delay))
            "policy-commitment-htlc-cltv-range"
          >> policy_err_if p.filter (ltb (add_u32 current_height p.max_delay) expiry)
              "policy-commitment-htlc-cltv-range")
      else ok tt

  unfoldable pub validate_fee : String → ℕ → ℕ → ℕ → Outcome (Unit {0})
  validate_fee tag sum_inputs sum_outputs weight = do
    fee ← ok_or ValidationErrorKind.policy (checked_sub sum_inputs sum_outputs)
    feerate_perkw ← estimate_feerate_per_kw fee weight
    policy_err_if p.filter (ltb feerate_perkw p.min_feerate_per_kw) tag
    policy_err_if p.filter (ltb p.max_feerate_per_kw feerate_perkw) tag

  abbrev checks_disabled : Option PolicyDevFlags → Bool
  checks_disabled none = false
  checks_disabled (some flags) = flags.disable_beneficial_balance_checks

  unfoldable pub validate_beneficial_value : ℕ → ℕ → ℕ → Outcome ℕ
  validate_beneficial_value sum_our_inputs sum_our_outputs weight = do
    non_beneficial ← ok_or ValidationErrorKind.policy (checked_sub sum_our_inputs sum_our_outputs)
    feerate_perkw ← estimate_feerate_per_kw non_beneficial weight
    policy_err_if p.filter
        (ltb p.max_feerate_per_kw feerate_perkw && not (checks_disabled p.dev_flags))
        "policy-onchain-fee-range"
    ok non_beneficial

  unfoldable pub outside_epsilon_range : ℕ → ℕ → Bool
  outside_epsilon_range value0 value1 =
      if ltb value1 value0
      then ltb p.epsilon_sat (value0 - value1)
      else ltb p.epsilon_sat (value1 - value0)

  unfoldable pub validate_channel_value : ChannelSetup → Outcome (Unit {0})
  validate_channel_value setup =
      policy_err_if p.filter (ltb p.max_channel_size_sat setup.channel_value_sat)
        "policy-funding-max"

  unfoldable pub validate_payment_balance : ℕ → ℕ → Option ℕ → Outcome (Unit {0})
  validate_payment_balance incoming_msat outgoing_msat invoiced_amount_msat =
      let max_to_invoice_msat : ℕ = elim invoiced_amount_msat [
        | none ↦ 0
        | some a ↦ add_u64 a p.max_routing_fee_msat
      ] in
      policy_err_if p.filter (ltb (add_u64 incoming_msat max_to_invoice_msat) outgoing_msat)
        "policy-routing-balanced"

  -- The wallet's `can_spend` and `allowlist_contains`, on a key path and a script; `none` is
  -- an error.
  module _ (can_spend : List ℕ → ℕ → Option Bool) (allowlist_contains : ℕ → List ℕ → Bool) where
    unfoldable pub check_shutdown_script : Option ℕ → List ℕ → Outcome (Unit {0})
    check_shutdown_script none path = ok tt
    check_shutdown_script (some script) path = do
      spendable ← ok_or ValidationErrorKind.policy (can_spend path script)
      policy_err_if p.filter (not spendable && not (allowlist_contains script path))
          "policy-mutual-destination-allowlisted"

    unfoldable pub validate_ready_channel : ChannelSetup → List ℕ → Outcome (Unit {0})
    unfolding check_shutdown_script
    validate_ready_channel setup holder_shutdown_key_path = do
      policy_err_if p.filter (not (is_safe_type setup.commitment_type)) (
          if is_plain_anchors setup.commitment_type
          then "policy-channel-safe-type-anchors"
          else "policy-channel-safe-type")
      validate_delay "holder" setup.counterparty_selected_contest_delay
      validate_delay "counterparty" setup.holder_selected_contest_delay
      check_shutdown_script setup.holder_shutdown_script holder_shutdown_key_path
