-- ===== src/Script.antt =====
-- The parsers of redeem scripts in vls-core/src/tx/script.rs and vls-core/src/tx/tx.rs. A script is
-- the list of the instructions that the crate `bitcoin` reads from its bytes, none for one that it
-- cannot read; an opcode is its byte. The number that an opcode pushes (`classify`) and the one that
-- pushed bytes stand for (`read_scriptint`) are that crate's, and parameters.
use vls.Prelude.{
  ℕ, Bool, false, Option, none, some, List, [], ◌∷◌, ◌==◌, if◌then◌else◌, Outcome, ok, err,
  ValidationErrorKind, ◌>>=◌, ◌>>◌,
}

-- An `i64`: `negsuc n` is -(n + 1).
pub data ℤ : Type 0 where
  pos : ℕ → ℤ
  negsuc : ℕ → ℤ

pub data Instruction : Type 0 where
  op : ℕ → Instruction
  push_bytes : List ℕ → Instruction

abbrev pub Script : Type 0
Script = List (Option Instruction)

-- The opcodes of `bitcoin::blockdata::opcodes::all`.
abbrev pub op_pushnum_1 : ℕ
op_pushnum_1 = 81

abbrev pub op_pushnum_2 : ℕ
op_pushnum_2 = 82

abbrev pub op_pushnum_16 : ℕ
op_pushnum_16 = 96

abbrev pub op_if : ℕ
op_if = 99

abbrev pub op_notif : ℕ
op_notif = 100

abbrev pub op_else : ℕ
op_else = 103

abbrev pub op_endif : ℕ
op_endif = 104

abbrev pub op_ifdup : ℕ
op_ifdup = 115

abbrev pub op_drop : ℕ
op_drop = 117

abbrev pub op_dup : ℕ
op_dup = 118

abbrev pub op_swap : ℕ
op_swap = 124

abbrev pub op_size : ℕ
op_size = 130

abbrev pub op_equal : ℕ
op_equal = 135

abbrev pub op_equalverify : ℕ
op_equalverify = 136

abbrev pub op_hash160 : ℕ
op_hash160 = 169

abbrev pub op_checksig : ℕ
op_checksig = 172

abbrev pub op_checksigverify : ℕ
op_checksigverify = 173

abbrev pub op_checkmultisig : ℕ
op_checkmultisig = 174

abbrev pub op_cltv : ℕ
op_cltv = 177

abbrev pub op_csv : ℕ
op_csv = 178

abbrev mismatch {ℓ} : {A : Type ℓ} → Outcome A
mismatch = err ValidationErrorKind.mismatch

-- Each of these reads from the iterator, and returns what is left of it with what it read.
unfoldable pub expect_next : Script → Outcome (Script × Instruction)
expect_next [] = mismatch
expect_next (none ∷ rest) = mismatch
expect_next (some ins ∷ rest) = ok (rest, ins)

abbrev is_op : ℕ → Instruction → Bool
is_op expected (Instruction.op o) = o == expected
is_op expected (Instruction.push_bytes d) = false

unfoldable pub expect_op : Script → ℕ → Outcome Script
unfolding expect_next
expect_op iter expected =
    expect_next iter >>= λ next. if is_op expected next.1 then ok next.0 else mismatch

-- `expect_op` for each opcode in turn.
unfoldable pub expect_ops : Script → List ℕ → Outcome Script
unfolding expect_op
expect_ops iter [] = ok iter
expect_ops iter (o ∷ os) = expect_op iter o >>= λ rest. expect_ops rest os

abbrev data_of : Instruction → Option (List ℕ)
data_of (Instruction.op o) = none
data_of (Instruction.push_bytes d) = some d

unfoldable pub expect_data : Script → Outcome (Script × List ℕ)
unfolding expect_next
expect_data iter =
    expect_next iter >>= λ next. elim (data_of next.1) [ none ↦ mismatch | some d ↦ ok (next.0, d) ]

unfoldable pub expect_script_end : Script → Outcome (Unit {0})
expect_script_end [] = ok tt
expect_script_end (ins ∷ rest) = mismatch

module _ (classify : ℕ → Option ℤ) (read_scriptint : List ℕ → Option ℤ) where
  abbrev number_of : Instruction → Option ℤ
  number_of (Instruction.op o) = classify o
  number_of (Instruction.push_bytes d) = read_scriptint d

  unfoldable pub expect_number : Script → Outcome (Script × ℤ)
  unfolding expect_next
  expect_number iter = expect_next iter >>= λ next. elim (number_of next.1) [
    | none ↦ mismatch
    | some n ↦ ok (next.0, n)
  ]

  -- `if thirty_two != 32`
  abbrev is_32 : ℤ → Bool
  is_32 (ℤ.pos n) = n == 32
  is_32 (ℤ.negsuc n) = false

  -- Of the values that a script holds, those that the callers use.
  unfoldable pub parse_received_htlc_script : Script → Bool → Outcome (List ℕ × ℤ)
  unfolding expect_ops expect_data expect_script_end expect_number
  parse_received_htlc_script script is_anchors = do
    iter_1 ← expect_ops script (op_dup ∷ op_hash160 ∷ [])
    revocation_hash ← expect_data iter_1
    iter_3 ← expect_ops revocation_hash.0 (op_equal ∷ op_if ∷ op_checksig ∷ op_else ∷ [])
    remote_htlc_pubkey ← expect_data iter_3
    iter_5 ← expect_ops remote_htlc_pubkey.0 (op_swap ∷ op_size ∷ [])
    thirty_two ← expect_number iter_5
    if is_32 thirty_two.1 then ok tt else mismatch
    iter_8 ← expect_ops thirty_two.0 (op_equal ∷ op_if ∷ op_hash160 ∷ [])
    payment_hash_vec ← expect_data iter_8
    iter_10 ← expect_ops payment_hash_vec.0 (op_equalverify ∷ op_pushnum_2 ∷ op_swap ∷ [])
    local_htlc_pubkey ← expect_data iter_10
    iter_12 ←
        expect_ops local_htlc_pubkey.0 (op_pushnum_2 ∷ op_checkmultisig ∷ op_else ∷ op_drop ∷ [])
    cltv_expiry ← expect_number iter_12
    iter_14 ← expect_ops cltv_expiry.0 (op_cltv ∷ op_drop ∷ op_checksig ∷ op_endif ∷ [])
    iter_15 ← expect_ops iter_14 (if is_anchors then op_pushnum_1 ∷ op_csv ∷ op_drop ∷ [] else [])
    iter_16 ← expect_ops iter_15 (op_endif ∷ [])
    expect_script_end iter_16
    ok (payment_hash_vec.1, cltv_expiry.1)

  unfoldable pub parse_offered_htlc_script : Script → Bool → Outcome (List ℕ)
  unfolding expect_ops expect_data expect_script_end expect_number
  parse_offered_htlc_script script is_anchors = do
    iter_1 ← expect_ops script (op_dup ∷ op_hash160 ∷ [])
    revocation_hash ← expect_data iter_1
    iter_3 ← expect_ops revocation_hash.0 (op_equal ∷ op_if ∷ op_checksig ∷ op_else ∷ [])
    remote_htlc_pubkey ← expect_data iter_3
    iter_5 ← expect_ops remote_htlc_pubkey.0 (op_swap ∷ op_size ∷ [])
    thirty_two ← expect_number iter_5
    if is_32 thirty_two.1 then ok tt else mismatch
    iter_8 ← expect_ops thirty_two.0 (op_equal ∷ op_notif ∷ op_drop ∷ op_pushnum_2 ∷ op_swap ∷ [])
    local_htlc_pubkey ← expect_data iter_8
    iter_10 ←
        expect_ops local_htlc_pubkey.0 (op_pushnum_2 ∷ op_checkmultisig ∷ op_else ∷ op_hash160 ∷ [])
    payment_hash_vec ← expect_data iter_10
    iter_12 ← expect_ops payment_hash_vec.0 (op_equalverify ∷ op_checksig ∷ op_endif ∷ [])
    iter_13 ← expect_ops iter_12 (if is_anchors then op_pushnum_1 ∷ op_csv ∷ op_drop ∷ [] else [])
    iter_14 ← expect_ops iter_13 (op_endif ∷ [])
    expect_script_end iter_14
    ok payment_hash_vec.1

  -- Also `parse_revokeable_redeemscript`, which has the same body.
  unfoldable pub parse_to_broadcaster_script : Script → Outcome (List ℕ × ℤ × List ℕ)
  unfolding expect_ops expect_data expect_script_end expect_number
  parse_to_broadcaster_script script = do
    iter_1 ← expect_ops script (op_if ∷ [])
    revocation_pubkey ← expect_data iter_1
    iter_3 ← expect_ops revocation_pubkey.0 (op_else ∷ [])
    delay ← expect_number iter_3
    iter_5 ← expect_ops delay.0 (op_csv ∷ op_drop ∷ [])
    delayed_pubkey ← expect_data iter_5
    iter_7 ← expect_ops delayed_pubkey.0 (op_endif ∷ op_checksig ∷ [])
    expect_script_end iter_7
    ok (revocation_pubkey.1, delay.1, delayed_pubkey.1)

  unfoldable pub parse_to_countersigner_delayed_script : Script → Outcome (List ℕ)
  unfolding expect_ops expect_data expect_script_end expect_number
  parse_to_countersigner_delayed_script script = do
    pubkey_data ← expect_data script
    iter_2 ← expect_ops pubkey_data.0 (op_checksigverify ∷ op_pushnum_1 ∷ op_csv ∷ [])
    expect_script_end iter_2
    ok pubkey_data.1

  unfoldable pub parse_anchor_script : Script → Outcome (List ℕ)
  unfolding expect_ops expect_data expect_script_end expect_number
  parse_anchor_script script = do
    to_pubkey_data ← expect_data script
    iter_2 ←
        expect_ops to_pubkey_data.0
          (op_checksig ∷ op_ifdup ∷ op_notif ∷ op_pushnum_16 ∷ op_csv ∷ op_endif ∷ [])
    expect_script_end iter_2
    ok to_pubkey_data.1
