-- ===== src/Decode/Tests.antt =====
-- The decoding of a concrete commitment transaction.
use vls.Prelude.{◌≡◌, ◌==◌, refl, false, some, none, List, [], ◌∷◌, arith, ok}
use vls.Policy.{policy_err_if}
use vls.Setup.{is_anchors}
use vls.Script.{
  ℤ, Instruction, Script, expect_next, expect_op, expect_ops, expect_data, expect_number,
  expect_script_end, op_if, op_else, op_csv, op_drop, op_endif, op_checksig,
  parse_to_broadcaster_script,
}
use vls.Decode.{
  CommitmentInfo, Bitcoin, FundingKeys, TxOut, new, has_to_broadcaster, has_to_countersigner,
  handle_p2wpkh_output, handle_to_broadcaster_output, handle_script, handle_output, handle_outputs,
  decode_commitment_tx,
}
use vls.Decode.Values.{total, out_total}
use vls.Decode.Total.{decode_commitment_tx-total}
use vls.Samples.{policy, setup}

abbrev to_broadcaster_script : Script
to_broadcaster_script =
    some (Instruction.op op_if)
    ∷ some (Instruction.push_bytes (1 ∷ []))
    ∷ some (Instruction.op op_else)
    ∷ some (Instruction.push_bytes (7 ∷ []))
    ∷ some (Instruction.op op_csv)
    ∷ some (Instruction.op op_drop)
    ∷ some (Instruction.push_bytes (2 ∷ []))
    ∷ some (Instruction.op op_endif)
    ∷ some (Instruction.op op_checksig)
    ∷ []

-- The script 5 pays to a key's hash, and the script 6 to a script's.
abbrev bitcoin : Bitcoin
bitcoin = record {
  is_v0_p2wpkh = λ script. script == 5;
  is_v0_p2wsh = λ script. script == 6;
  payload_from_script = λ script. some script;
  to_v0_p2wsh = λ bytes. 6;
  instructions = λ bytes. to_broadcaster_script;
  classify = λ op. none;
  read_scriptint = λ bytes. elim bytes [ [] ↦ none | byte ∷ rest ↦ some (ℤ.pos byte) ];
  public_key_from_slice = λ bytes. elim bytes [ [] ↦ none | byte ∷ rest ↦ some byte ];
}

abbrev funding_keys : FundingKeys
funding_keys = record { holder = 1; counterparty = 2 }

abbrev two_outputs : List TxOut
two_outputs =
    record { value = 1000000; script_pubkey = 5 }
    ∷ record { value = 1900000; script_pubkey = 6 }
    ∷ []

abbrev decoded : CommitmentInfo
decoded = record {
  is_counterparty_broadcaster = false;
  to_countersigner_address = some 5;
  to_countersigner_pubkey = none;
  to_countersigner_value_sat = 1000000;
  to_countersigner_anchor_count = 0;
  revocation_pubkey = some 1;
  to_broadcaster_delayed_pubkey = some 2;
  to_broadcaster_value_sat = 1900000;
  to_self_delay = 7;
  to_broadcaster_anchor_count = 0;
  offered_htlcs = [];
  received_htlcs = [];
}

outputs_valid :
    decode_commitment_tx bitcoin policy funding_keys setup false 2 two_outputs ([] ∷ (1 ∷ []) ∷ [])
    ≡ ok decoded
unfolding decode_commitment_tx handle_outputs handle_output handle_script handle_p2wpkh_output
    handle_to_broadcaster_output has_to_broadcaster has_to_countersigner new is_anchors
    policy_err_if parse_to_broadcaster_script expect_ops expect_op expect_next expect_data
    expect_number expect_script_end
outputs_valid = refl

decode_commitment_tx-total_example : total decoded ≡ out_total two_outputs
decode_commitment_tx-total_example =
    decode_commitment_tx-total bitcoin (λ script is. (script, refl)) policy funding_keys setup false
      2 two_outputs ([] ∷ (1 ∷ []) ∷ []) decoded (omega arith) outputs_valid
