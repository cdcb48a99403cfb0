-- ===== src/Validator/Sweeps.antt =====
-- The checks of the transactions that sweep a closed channel's outputs, in
-- vls-core/src/policy/simple_validator.rs. `transaction_format_err!` does not go through the policy
-- filter, whatever its tag.
use vls.Prelude.{
  ℕ, ◌-◌, ◌^◌, Bool, true, false, not, ◌&&◌, ◌||◌, Option, List, [], ◌∷◌, get_elem?, ltb, leb, ◌==◌,
  if◌then◌else◌, u32_mod, add_u32, Outcome, ok, err, ValidationErrorKind, unwrap, ok_or, ◌>>=◌,
  ◌>>◌,
}
use vls.Policy.{policy_err_if}
use vls.Setup.{ChannelSetup, is_anchors}
use vls.Script.{ℤ, Script, parse_received_htlc_script, parse_offered_htlc_script}
use vls.Monitor.Blocks.{ChainState}
use vls.Decode.{if_ok, err_if}
use vls.Validator.{SimplePolicy}

-- Of a sweep, what the checks read: the sequences of its inputs and the scripts of its outputs.
pub record Sweep : Type 0 where
  pub version : ℕ
  pub lock_time : ℕ
  pub sequences : List ℕ
  pub scripts : List ℕ

abbrev max_chain_lag : ℕ
max_chain_lag = 2

abbrev pub anchor_seqs : List ℕ
anchor_seqs = 1 ∷ []

abbrev pub non_anchor_seqs : List ℕ
non_anchor_seqs = 0 ∷ (2 ^ 32 - 3) ∷ (2 ^ 32 - 1) ∷ []

abbrev pub contains_seq : ℕ → List ℕ → Bool
contains_seq seq [] = false
contains_seq seq (s ∷ seqs) = seq == s || contains_seq seq seqs

abbrev format_err_if : Bool → Outcome (Unit {0})
format_err_if violated = err_if violated ValidationErrorKind.transaction_format

-- `cltv_expiry < 0 || cltv_expiry > u32::MAX`
abbrev pub out_of_u32 : ℤ → Bool
out_of_u32 (ℤ.pos n) = leb u32_mod n
out_of_u32 (ℤ.negsuc n) = true

-- `lock_time > cltv_expiry`, where that is a u32.
abbrev pub later : ℕ → ℤ → Bool
later lock_time (ℤ.pos n) = ltb n lock_time
later lock_time (ℤ.negsuc n) = true

-- `tx.input[0].sequence` panics where the transaction has no input.
unfoldable pub check_sequence : Sweep → List ℕ → Outcome (Unit {0})
check_sequence tx seqs =
    unwrap (get_elem? tx.sequences 0) >>= λ seq. format_err_if (not (contains_seq seq seqs))

unfoldable pub check_locktime : ChainState → Sweep → Outcome (Unit {0})
check_locktime cstate tx =
    format_err_if (ltb (add_u32 cstate.current_height max_chain_lag) tx.lock_time)

module _ (p : SimplePolicy) (can_spend : List ℕ → ℕ → Option Bool)
    (allowlist_contains : ℕ → List ℕ → Bool) where
  -- The loop over the outputs.
  unfoldable pub check_destinations : List ℕ → List ℕ → Outcome (Unit {0})
  check_destinations path [] = ok tt
  check_destinations path (script ∷ scripts) = do
    spendable ← ok_or ValidationErrorKind.policy (can_spend path script)
    policy_err_if p.filter (not spendable && not (allowlist_contains script path))
        "policy-sweep-destination-allowlisted"
    check_destinations path scripts

  unfoldable pub validate_sweep : Sweep → List ℕ → Outcome (Unit {0})
  validate_sweep tx path = do
    format_err_if (not (tx.version == 2))
    check_destinations path tx.scripts

  unfoldable pub validate_delayed_sweep :
      ChannelSetup → ChainState → Sweep → List ℕ → Outcome (Unit {0})
  validate_delayed_sweep setup cstate tx path = do
    validate_sweep tx path
    check_locktime cstate tx
    check_sequence tx (setup.counterparty_selected_contest_delay ∷ [])

  unfoldable pub validate_justice_sweep : ChainState → Sweep → List ℕ → Outcome (Unit {0})
  validate_justice_sweep cstate tx path = do
    validate_sweep tx path
    check_locktime cstate tx
    check_sequence tx non_anchor_seqs

  -- The two functions of the crate `bitcoin` that `Script` takes.
  module _ (classify : ℕ → Option ℤ) (read_scriptint : List ℕ → Option ℤ) where
    unfoldable pub check_htlc_locktime :
        ChannelSetup → ChainState → Sweep → Script → Outcome (Unit {0})
    check_htlc_locktime setup cstate tx redeemscript =
        if_ok (parse_received_htlc_script classify read_scriptint redeemscript (is_anchors setup))
          (λ vals. format_err_if (out_of_u32 vals.1) >> format_err_if (later tx.lock_time vals.1))
          (if_ok (parse_offered_htlc_script classify read_scriptint redeemscript (is_anchors setup))
            (λ hash. check_locktime cstate tx) (err ValidationErrorKind.transaction_format))

    unfoldable pub validate_counterparty_htlc_sweep :
        ChannelSetup → ChainState → Sweep → Script → List ℕ → Outcome (Unit {0})
    validate_counterparty_htlc_sweep setup cstate tx redeemscript path = do
      validate_sweep tx path
      check_htlc_locktime setup cstate tx redeemscript
      check_sequence tx (if is_anchors setup then anchor_seqs else non_anchor_seqs)
