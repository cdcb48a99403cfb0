-- ===== src/Validator/CloseTests.antt =====
-- The validator at concrete closing transactions and sweeps.
use mathlib.Core.List.{Memᴰ}
use vls.Prelude.{
  ℕ, ◌≡◌, ◌==◌, refl, Bool, true, Option, some, List, [], ok, add_u64, mul_u64, checked_add,
  checked_sub, none, ◌∷◌, ◌⊎◌, All, get_elem?, if◌then◌else◌, add_u32, arith,
}
use vls.Policy.{filter, policy_err_if}
use vls.Tx.{CommitmentInfo2}
use vls.Enforcement.{EnforcementState, new}
use vls.Validator.{
  make_simple_policy, estimate_feerate_per_kw, validate_fee, outside_epsilon_range,
  check_shutdown_script,
}
use vls.Validator.Closing.{
  validate_mutual_close_tx, check_close_scripts, check_close_values, mutual_close_tx_weight,
}
use vls.Validator.Closed.{Closes, Closed, validate_mutual_close_tx-Closed}
use vls.Setup.{is_anchors}
use vls.Monitor.Blocks.{ChainState}
use vls.Script.{
  ℤ, Instruction, Script, op_dup, op_hash160, op_equal, op_if, op_checksig, op_else, op_swap,
  op_size, op_equalverify, op_pushnum_2, op_checkmultisig, op_drop, op_cltv, op_endif, expect_next,
  expect_op, expect_ops, expect_data, expect_number, expect_script_end, parse_received_htlc_script,
}
use vls.Validator.Sweeps.{
  Sweep, anchor_seqs, non_anchor_seqs, check_sequence, check_locktime, check_destinations,
  validate_sweep, check_htlc_locktime, validate_counterparty_htlc_sweep,
}
use vls.Validator.Swept.{InTime, validate_counterparty_htlc_sweep-ok}
use vls.Policy.Laws.{Enforces}
use vls.Samples.{policy, setup, commitment}

policy-Closes : Closes policy.filter
unfolding filter make_simple_policy
policy-Closes = record { destination = refl; no_htlcs = refl; fee_range = refl; value = refl }

abbrev settled : CommitmentInfo2
settled = record commitment {
  to_broadcaster_value_sat = 1999000;
  offered_htlcs = [];
  received_htlcs = [];
}

abbrev mirrored_settled : CommitmentInfo2
mirrored_settled = record settled {
  is_counterparty_broadcaster = true;
  to_countersigner_value_sat = 1999000;
  to_broadcaster_value_sat = 1000000;
  to_self_delay = 6;
}

abbrev ready : EnforcementState
ready = record (new 0) {
  next_holder_commit_num = 4;
  next_counterparty_commit_num = 4;
  next_counterparty_revoke_num = 3;
  current_holder_commit_info = some settled;
  current_counterparty_commit_info = some mirrored_settled;
}

-- The wallet can spend the script 5 on every path.
abbrev can_spend : List ℕ → ℕ → Option Bool
can_spend path script = some (script == 5)

abbrev allowlist_contains : ℕ → List ℕ → Bool
allowlist_contains script path = script == 6

abbrev closing_weight : ℕ → ℕ → Option ℕ → Option ℕ → ℕ → ℕ
closing_weight holder counterparty holder_script counterparty_script outpoint = 450

close_valid :
    validate_mutual_close_tx policy can_spend allowlist_contains closing_weight setup ready 1999000
      1000000
      (some 5)
      (some 9)
      []
    ≡ ok tt
unfolding validate_mutual_close_tx check_close_scripts check_close_values mutual_close_tx_weight
    outside_epsilon_range check_shutdown_script validate_fee estimate_feerate_per_kw policy_err_if
    make_simple_policy checked_add checked_sub add_u64 mul_u64 new
close_valid = refl

validate_mutual_close_tx-Closed_example :
    (hi : CommitmentInfo2) × (ci : CommitmentInfo2) × (ready.current_holder_commit_info ≡ some hi)
    × (ready.current_counterparty_commit_info ≡ some ci)
    × Closed policy can_spend allowlist_contains setup hi ci 1999000 1000000
        (mutual_close_tx_weight 450)
        (some 5)
        (some 9)
        []
validate_mutual_close_tx-Closed_example =
    validate_mutual_close_tx-Closed policy policy-Closes can_spend allowlist_contains closing_weight
      setup ready 1999000 1000000 (some 5) (some 9) [] close_valid

sweep_destination : Enforces policy.filter "policy-sweep-destination-allowlisted"
unfolding filter make_simple_policy
sweep_destination = refl

-- A received HTLC that expires at height 250, on a channel without anchors.
abbrev opcode : ℕ → Option Instruction
opcode o = some (Instruction.op o)

abbrev pushed : ℕ → Option Instruction
pushed byte = some (Instruction.push_bytes (byte ∷ []))

abbrev received_script : Script
received_script =
    opcode op_dup
    ∷ opcode op_hash160
    ∷ pushed 1
    ∷ opcode op_equal
    ∷ opcode op_if
    ∷ opcode op_checksig
    ∷ opcode op_else
    ∷ pushed 2
    ∷ opcode op_swap
    ∷ opcode op_size
    ∷ pushed 32
    ∷ opcode op_equal
    ∷ opcode op_if
    ∷ opcode op_hash160
    ∷ pushed 3
    ∷ opcode op_equalverify
    ∷ opcode op_pushnum_2
    ∷ opcode op_swap
    ∷ pushed 4
    ∷ opcode op_pushnum_2
    ∷ opcode op_checkmultisig
    ∷ opcode op_else
    ∷ opcode op_drop
    ∷ pushed 250
    ∷ opcode op_cltv
    ∷ opcode op_drop
    ∷ opcode op_checksig
    ∷ opcode op_endif
    ∷ opcode op_endif
    ∷ []

abbrev classify : ℕ → Option ℤ
classify o = none

abbrev read_scriptint : List ℕ → Option ℤ
read_scriptint bytes = elim bytes [ [] ↦ none | byte ∷ rest ↦ some (ℤ.pos byte) ]

abbrev at_height : ChainState
at_height = record {
  current_height = 300;
  funding_depth = 200;
  funding_double_spent_depth = 0;
  closing_depth = 100;
}

abbrev sweep : Sweep
sweep = record { version = 2; lock_time = 250; sequences = 0 ∷ []; scripts = 5 ∷ 6 ∷ [] }

sweep_valid :
    validate_counterparty_htlc_sweep policy can_spend allowlist_contains classify read_scriptint
      setup at_height sweep received_script []
    ≡ ok tt
unfolding validate_counterparty_htlc_sweep validate_sweep check_destinations check_htlc_locktime
    check_sequence check_locktime parse_received_htlc_script expect_ops expect_op expect_next
    expect_data expect_number expect_script_end is_anchors policy_err_if make_simple_policy add_u32
sweep_valid = refl

validate_counterparty_htlc_sweep-ok_example :
    (◌≡◌ {A = ℕ} 2 2)
    × All
        (λ (script : ℕ). (can_spend [] script ≡ some true) ⊎ (allowlist_contains script [] ≡ true))
        (5 ∷ 6 ∷ [])
    × ((seq : ℕ) × (get_elem? (0 ∷ []) 0 ≡ some seq)
        × Memᴰ seq (if is_anchors setup then anchor_seqs else non_anchor_seqs))
    × InTime classify read_scriptint setup at_height sweep received_script
validate_counterparty_htlc_sweep-ok_example =
    validate_counterparty_htlc_sweep-ok classify read_scriptint policy can_spend allowlist_contains
      setup at_height sweep received_script [] sweep_destination (omega arith) sweep_valid
