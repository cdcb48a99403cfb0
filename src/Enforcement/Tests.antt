-- ===== src/Enforcement/Tests.antt =====
-- The numbers of a channel in concrete histories.
use vls.Prelude.{false, ℕ, ◌≡◌, refl, true, none, some, List, [], ◌∷◌, arith, ok, add_u64}
use vls.Policy.{default_filter, filter, policy_err_if, policy_error_with_filter}
use vls.Enforcement.{
  EnforcementState, CommitmentSignatures, new, advance_counterparty, advance_revocation,
  advance_holder, set_next_counterparty_commit_num, set_next_counterparty_revoke_num,
  set_next_holder_commit_num, check_progression,
}
use vls.Enforcement.Numbers.{Inv, Progression, Advanced, advance_counterparty-Advanced}
use vls.Enforcement.History.{Signed, History, Consistent, History-safe}
use vls.Tx.{HtlcInfo2, CommitmentInfo2}
use vls.Setup.{ChannelSetup, ChannelBalance, CommitmentType}
use vls.Enforcement.Summary.{payments_summary, balance}
use vls.Enforcement.InFlight.{value_at, payments_summary-value}
use vls.Enforcement.Balance.{Lower, balance-Lower}

default_filter-Progression : Progression default_filter
unfolding filter
default_filter-Progression = record {
  previous_revoked = refl;
  retry_same = refl;
  commitment_signed = refl;
  other = refl;
}

abbrev info : CommitmentInfo2
info = record {
  is_counterparty_broadcaster = true;
  to_countersigner_pubkey = 1;
  to_countersigner_value_sat = 1000;
  revocation_pubkey = 2;
  to_broadcaster_delayed_pubkey = 3;
  to_broadcaster_value_sat = 2000;
  to_self_delay = 6;
  offered_htlcs = [];
  received_htlcs = [];
  feerate_per_kw = 253;
}

abbrev signatures : CommitmentSignatures
signatures = record { commit_sig = 5; htlc_sigs = [] }

-- The state after the first commitment, and after the second.
abbrev first : EnforcementState
first = record (new 0) {
  next_holder_commit_num = 0;
  next_counterparty_commit_num = 1;
  next_counterparty_revoke_num = 0;
  current_counterparty_point = some 11;
  current_counterparty_commit_info = some info;
}

abbrev second : EnforcementState
second = record first {
  next_counterparty_commit_num = 2;
  previous_counterparty_point = some 11;
  previous_counterparty_commit_info = some info;
  current_counterparty_point = some 12;
}

-- The state after the first commitment is revoked.
abbrev revoked : EnforcementState
revoked = record second {
  next_counterparty_revoke_num = 1;
  previous_counterparty_commit_info = none;
}

first_signed : advance_counterparty default_filter (new 0) 1 11 info ≡ ok first
unfolding new advance_counterparty set_next_counterparty_commit_num check_progression policy_err_if
    policy_error_with_filter filter add_u64
first_signed = refl

second_signed : advance_counterparty default_filter first 2 12 info ≡ ok second
unfolding advance_counterparty set_next_counterparty_commit_num check_progression policy_err_if
    policy_error_with_filter filter add_u64 new
second_signed = refl

first_revoked : advance_revocation default_filter second 1 ≡ ok revoked
unfolding advance_revocation set_next_counterparty_revoke_num policy_err_if policy_error_with_filter
    filter add_u64 new
first_revoked = refl

first-Inv : Inv first
unfolding new
first-Inv = record {
  revoked_before = omega arith;
  two_open = omega arith;
  has_current = λ h. refl;
  has_previous = λ h. absurd (omega arith);
  holder_small = omega arith;
  counterparty_small = omega arith;
}

second-Inv : Inv second
unfolding new
second-Inv = record {
  revoked_before = omega arith;
  two_open = omega arith;
  has_current = λ h. refl;
  has_previous = λ h. refl;
  holder_small = omega arith;
  counterparty_small = omega arith;
}

revoked-Inv : Inv revoked
unfolding new
revoked-Inv = record {
  revoked_before = omega arith;
  two_open = omega arith;
  has_current = λ h. refl;
  has_previous = λ h. refl;
  holder_small = omega arith;
  counterparty_small = omega arith;
}

advance_counterparty-Advanced_example : Advanced first 2 12 info second
advance_counterparty-Advanced_example =
    advance_counterparty-Advanced default_filter default_filter-Progression first 2 12 info second
      first-Inv second_signed

abbrev held : EnforcementState
held = record second {
  next_holder_commit_num = 1;
  current_holder_commit_info = some info;
  current_counterparty_signatures = some signatures;
}

held_signed : advance_holder default_filter second 1 info signatures ≡ ok held
unfolding advance_holder set_next_holder_commit_num policy_err_if policy_error_with_filter filter
    add_u64 new
held_signed = refl

abbrev log : List Signed
log = record { num = 1; point = 12 } ∷ record { num = 0; point = 11 } ∷ []

history : History default_filter log revoked
history =
    History.revoke 1
      (History.sign 1 12 info (History.sign 0 11 info (History.begin 0) (omega arith) first_signed)
        (omega arith) second_signed)
      (omega arith) first_revoked

History-safe_example : Inv revoked × Consistent log log
History-safe_example = History-safe default_filter default_filter-Progression history

abbrev htlc : ℕ → ℕ → HtlcInfo2
htlc value hash = record { value_sat = value; payment_hash = hash; cltv_expiry = 500 }

abbrev paying : EnforcementState
paying = record (new 0) {
  current_holder_commit_info = some (record info {
    is_counterparty_broadcaster = false;
    offered_htlcs = htlc 20 8 ∷ htlc 30 8 ∷ [];
  });
  current_counterparty_commit_info = some (record info { received_htlcs = htlc 40 8 ∷ [] });
}

payments_summary-value_example : value_at (payments_summary paying none none) 8 ≡ 50
unfolding new
payments_summary-value_example =
    payments_summary-value paying none none 8 (omega arith) (omega arith)

abbrev setup : ChannelSetup
setup = record {
  is_outbound = true;
  channel_value_sat = 5000;
  push_value_msat = 0;
  funding_outpoint = 1;
  holder_selected_contest_delay = 6;
  holder_shutdown_script = none;
  counterparty_points = 2;
  counterparty_selected_contest_delay = 6;
  counterparty_shutdown_script = none;
  commitment_type = CommitmentType.static_remote_key;
}

balance-Lower_example :
    (b : ChannelBalance) × (balance (λ hash. false) setup paying ≡ ok b) × Lower false 4000 3000 b
unfolding new
balance-Lower_example =
    balance-Lower (λ hash. false) setup (omega arith) paying
      (record info {
        is_counterparty_broadcaster = false;
        offered_htlcs = htlc 20 8 ∷ htlc 30 8 ∷ [];
      })
      (record info { received_htlcs = htlc 40 8 ∷ [] }) refl refl (omega arith) (omega arith)
