-- ===== src/Decode.antt =====
-- The decoding of a commitment transaction that is checked by its bytes, phase 1: `CommitmentInfo`
-- in vls-core/src/tx/tx.rs and `decode_commitment_tx` in vls-core/src/policy/simple_validator.rs.
-- Scripts, addresses and keys are numbers, and a witness script is its bytes. What a handler leaves
-- in the object when it fails is left out, since `decode_commitment_tx` then drops the object.
pub mod Values
pub mod Total
mod Tests
use vls.Prelude.{
  ℕ, ◌+◌, ◌%◌, ◌^◌, Bool, true, false, not, ◌||◌, Option, none, some, is_some, List, [], ◌∷◌, ◌++◌,
  length, ltb, ◌==◌, if◌then◌else◌, u32_mod, Outcome, ok, err, panic, ValidationErrorKind, ok_or,
  ◌>>=◌, ◌>>◌,
}
use vls.Policy.{policy_err_if}
use vls.Setup.{ChannelSetup, is_anchors}
use vls.Script.{
  ℤ, Script, parse_received_htlc_script, parse_offered_htlc_script, parse_to_broadcaster_script,
  parse_to_countersigner_delayed_script, parse_anchor_script,
}
use vls.Validator.{SimplePolicy}

pub record HtlcInfo : Type 0 where
  pub value_sat : ℕ
  pub payment_hash_hash : List ℕ
  pub cltv_expiry : ℕ

pub record CommitmentInfo : Type 0 where
  pub is_counterparty_broadcaster : Bool
  pub to_countersigner_address : Option ℕ
  pub to_countersigner_pubkey : Option ℕ
  pub to_countersigner_value_sat : ℕ
  pub to_countersigner_anchor_count : ℕ
  pub revocation_pubkey : Option ℕ
  pub to_broadcaster_delayed_pubkey : Option ℕ
  pub to_broadcaster_value_sat : ℕ
  pub to_self_delay : ℕ
  pub to_broadcaster_anchor_count : ℕ
  pub offered_htlcs : List HtlcInfo
  pub received_htlcs : List HtlcInfo

unfoldable pub new : Bool → CommitmentInfo
new is_counterparty_broadcaster = record {
  is_counterparty_broadcaster = is_counterparty_broadcaster;
  to_countersigner_address = none;
  to_countersigner_pubkey = none;
  to_countersigner_value_sat = 0;
  to_countersigner_anchor_count = 0;
  revocation_pubkey = none;
  to_broadcaster_delayed_pubkey = none;
  to_broadcaster_value_sat = 0;
  to_self_delay = 0;
  to_broadcaster_anchor_count = 0;
  offered_htlcs = [];
  received_htlcs = [];
}

unfoldable pub has_to_broadcaster : CommitmentInfo → Bool
has_to_broadcaster info = is_some info.to_broadcaster_delayed_pubkey

unfoldable pub has_to_countersigner : CommitmentInfo → Bool
has_to_countersigner info =
    is_some info.to_countersigner_address || is_some info.to_countersigner_pubkey

abbrev pub anchor_sat : ℕ
anchor_sat = 330

abbrev max_delay : ℕ
max_delay = 2016

-- `+= 1` on a u16.
unfoldable pub next_count : ℕ → ℕ
next_count count = (count + 1) % 2 ^ 16

pub record TxOut : Type 0 where
  pub value : ℕ
  pub script_pubkey : ℕ

-- What the crates `bitcoin` and `secp256k1` compute.
pub record Bitcoin : Type 0 where
  pub is_v0_p2wpkh : ℕ → Bool
  pub is_v0_p2wsh : ℕ → Bool
  pub payload_from_script : ℕ → Option ℕ
  pub to_v0_p2wsh : List ℕ → ℕ
  pub instructions : List ℕ → Script
  pub classify : ℕ → Option ℤ
  pub read_scriptint : List ℕ → Option ℤ
  pub public_key_from_slice : List ℕ → Option ℕ

-- The funding keys of `keys.pubkeys()` and `keys.counterparty_pubkeys()`.
pub record FundingKeys : Type 0 where
  pub holder : ℕ
  pub counterparty : ℕ

-- `if vals.is_ok() { return handle(vals.unwrap()) }`
abbrev pub if_ok {ℓ κ} :
    {A : Type ℓ} {B : Type κ} (vals : Outcome A) (handle : A → Outcome B) (rest : Outcome B)
    → Outcome B
if_ok (ok vals) handle rest = handle vals
if_ok (err kind) handle rest = rest
if_ok panic handle rest = panic

-- `n < 0` is an error, or else the number.
abbrev pub not_negative : ℤ → Outcome ℕ
not_negative (ℤ.pos n) = ok n
not_negative (ℤ.negsuc n) = err ValidationErrorKind.script_format

abbrev pub err_if : Bool → ValidationErrorKind → Outcome (Unit {0})
err_if violated kind = if violated then err kind else ok tt

-- `try_into()` of bytes to a `[u8; 20]`.
abbrev pub hash160_of : List ℕ → Outcome (List ℕ)
hash160_of bytes = if length bytes == 20 then ok bytes else err ValidationErrorKind.mismatch

unfoldable pub handle_received_htlc_output :
    CommitmentInfo → TxOut → List ℕ × ℤ → Outcome CommitmentInfo
handle_received_htlc_output info out vals = do
  payment_hash_hash ← hash160_of vals.0
  cltv_expiry ← not_negative vals.1
  ok (record info {
    received_htlcs =
        info.received_htlcs
        ++ (record {
          value_sat = out.value;
          payment_hash_hash = payment_hash_hash;
          cltv_expiry = cltv_expiry % u32_mod;
        }
            ∷ []);
  })

unfoldable pub handle_offered_htlc_output : CommitmentInfo → TxOut → List ℕ → Outcome CommitmentInfo
handle_offered_htlc_output info out payment_hash_vec = do
  payment_hash_hash ← hash160_of payment_hash_vec
  ok (record info {
    offered_htlcs =
        info.offered_htlcs
        ++ (record { value_sat = out.value; payment_hash_hash = payment_hash_hash; cltv_expiry = 0 }
            ∷ []);
  })

unfoldable pub handle_p2wpkh_output :
    Bitcoin → ChannelSetup → CommitmentInfo → TxOut → Outcome CommitmentInfo
handle_p2wpkh_output b setup info out = do
  err_if (is_anchors setup) ValidationErrorKind.transaction_format
  err_if (has_to_countersigner info) ValidationErrorKind.transaction_format
  ok (record info {
    to_countersigner_address = b.payload_from_script out.script_pubkey;
    to_countersigner_value_sat = out.value;
  })

module _ (b : Bitcoin) where
  abbrev pub public_key : List ℕ → Outcome ℕ
  public_key bytes = ok_or ValidationErrorKind.mismatch (b.public_key_from_slice bytes)

  unfoldable pub handle_to_broadcaster_output :
      CommitmentInfo → TxOut → List ℕ × ℤ × List ℕ → Outcome CommitmentInfo
  handle_to_broadcaster_output info out vals = do
    err_if (has_to_broadcaster info) ValidationErrorKind.transaction_format
    delay ← not_negative vals.1
    err_if (ltb max_delay delay) ValidationErrorKind.script_format
    delayed_pubkey ← public_key vals.2
    revocation_pubkey ← public_key vals.0
    ok (record info {
      to_self_delay = delay % 2 ^ 16;
      to_broadcaster_value_sat = out.value;
      to_broadcaster_delayed_pubkey = some delayed_pubkey;
      revocation_pubkey = some revocation_pubkey;
    })

  unfoldable pub handle_to_countersigner_delayed_output :
      CommitmentInfo → TxOut → List ℕ → Outcome CommitmentInfo
  handle_to_countersigner_delayed_output info out pubkey_data = do
    err_if (has_to_countersigner info) ValidationErrorKind.transaction_format
    pubkey ← public_key pubkey_data
    ok (record info {
      to_countersigner_pubkey = some pubkey;
      to_countersigner_value_sat = out.value;
    })

  unfoldable pub count_anchor : FundingKeys → CommitmentInfo → ℕ → Outcome CommitmentInfo
  count_anchor keys info to_pubkey =
      let (broadcaster, countersigner) =
        (if info.is_counterparty_broadcaster
          then (keys.counterparty, keys.holder)
          else (keys.holder, keys.counterparty)) in
      if to_pubkey == broadcaster
      then ok (record info {
        to_broadcaster_anchor_count = next_count info.to_broadcaster_anchor_count;
      })
      else if to_pubkey == countersigner
      then ok (record info {
        to_countersigner_anchor_count = next_count info.to_countersigner_anchor_count;
      })
      else err ValidationErrorKind.mismatch

  unfoldable pub handle_anchor_output :
      FundingKeys → CommitmentInfo → TxOut → List ℕ → Outcome CommitmentInfo
  handle_anchor_output keys info out to_pubkey_data = do
    to_pubkey ← public_key to_pubkey_data
    err_if (not (out.value == anchor_sat)) ValidationErrorKind.mismatch
    count_anchor keys info to_pubkey

  -- The parsers are tried in turn.
  unfoldable pub handle_script :
      FundingKeys → ChannelSetup → CommitmentInfo → TxOut → Script → Outcome CommitmentInfo
  handle_script keys setup info out script =
      if_ok (parse_to_broadcaster_script b.classify b.read_scriptint script)
        (handle_to_broadcaster_output info out)
        (if_ok (parse_received_htlc_script b.classify b.read_scriptint script (is_anchors setup))
          (handle_received_htlc_output info out)
          (if_ok (parse_offered_htlc_script b.classify b.read_scriptint script (is_anchors setup))
            (handle_offered_htlc_output info out)
            (if_ok (parse_anchor_script b.classify b.read_scriptint script)
              (handle_anchor_output keys info out)
              (if is_anchors setup
                then if_ok
                    (parse_to_countersigner_delayed_script b.classify b.read_scriptint script)
                    (handle_to_countersigner_delayed_output info out)
                    (err ValidationErrorKind.transaction_format)
                else err ValidationErrorKind.transaction_format))))

  abbrev is_empty : List ℕ → Bool
  is_empty [] = true
  is_empty (byte ∷ bytes) = false

  unfoldable pub handle_output :
      FundingKeys → ChannelSetup → CommitmentInfo → TxOut → List ℕ → Outcome CommitmentInfo
  handle_output keys setup info out script_bytes =
      if b.is_v0_p2wpkh out.script_pubkey
      then handle_p2wpkh_output b setup info out
      else if b.is_v0_p2wsh out.script_pubkey
      then (err_if (is_empty script_bytes) ValidationErrorKind.transaction_format
          >> err_if (not (out.script_pubkey == b.to_v0_p2wsh script_bytes))
              ValidationErrorKind.transaction_format
          >> handle_script keys setup info out (b.instructions script_bytes))
      else err ValidationErrorKind.transaction_format

  -- The loop over the outputs, which panics where a witness script is missing.
  unfoldable pub handle_outputs :
      FundingKeys
      → ChannelSetup
      → CommitmentInfo
      → List TxOut
      → List (List ℕ)
      → Outcome CommitmentInfo
  handle_outputs keys setup info [] witscripts = ok info
  handle_outputs keys setup info (out ∷ outs) [] = panic
  handle_outputs keys setup info (out ∷ outs) (witscript ∷ witscripts) =
      handle_output keys setup info out witscript >>= λ next.
      handle_outputs keys setup next outs witscripts

  unfoldable pub decode_commitment_tx :
      SimplePolicy
      → FundingKeys
      → ChannelSetup
      → Bool
      → ℕ
      → List TxOut
      → List (List ℕ)
      → Outcome CommitmentInfo
  decode_commitment_tx p keys setup is_counterparty version outs output_witscripts = do
    policy_err_if p.filter (not (version == 2)) "policy-commitment-version"
    handle_outputs keys setup (new is_counterparty) outs output_witscripts
