-- ===== src/Channel/Tests.antt =====
-- A channel from its creation to the force close after its second commitment.
use vls.Prelude.{
  ℕ, ◌≤◌, ◌<◌, ◌≡◌, ◌⊎◌, refl, true, false, Option, none, some, List, [], ◌∷◌, All, arith, ok,
  add_u64, sub_u64, mul_u64, checked_add, checked_sub,
}
use vls.Policy.{filter, policy_err_if}
use vls.Tx.{
  claimable_balance, add_fee, add_values_if, total_value, sum_values, value_to_parties,
  holder_htlcs, sort,
}
use vls.Tx
use vls.Setup.{is_anchors, is_zero_fee_htlc, is_static_remotekey}
use vls.Enforcement.{
  CommitmentSignatures, new, advance_holder, current_holder_info,
  get_current_holder_commitment_info, set_next_holder_commit_num,
}
use vls.Enforcement.Summary.{claimable_balances, balance_of, min_opt}
use vls.Validator.{
  make_simple_policy, estimate_feerate_per_kw, validate_fee, expected_commitment_tx_weight,
  validate_expiry,
}
use vls.Validator.Commitment.{
  validate_commitment_tx, validate_holder_commitment_tx, check_htlcs, check_initial,
  htlc_dust_limit,
}
use vls.Channel.{
  Channel, get_per_commitment_point, get_per_commitment_secret, build_holder_commitment_info,
  advance_holder_commitment_state,
}
use vls.Channel.Requests.{
  Reply, holder_commitment, holder_signature, validate_holder_commitment_tx_phase2,
  sign_holder_commitment_tx_phase2,
}
use vls.Channel.HolderEffects.{holder_commitment-ok}
use vls.Channel.Signed.{Checked, signed_feerate, holder_commitment-holder_signature}
use vls.Channel.Run.{Run, released_by, signed_by}
use vls.Channel.Safety.{Run-safe}
use vls.Samples.{policy, setup, keys, payments, persist, policy-Guards}

abbrev start : Channel
start = record { enforcement_state = new 3000000; setup = setup }

abbrev signatures : CommitmentSignatures
signatures = record { commit_sig = 1; htlc_sigs = [] }

-- The holder has everything but a fee of 1000 sat.
abbrev validate : Channel → ℕ → Reply ℕ (ℕ × Option ℕ)
validate c num =
    validate_holder_commitment_tx_phase2 policy keys payments persist c 0 100 num 1000 2999000 0 []
      [] signatures

abbrev once : Channel
once = (validate start 0).channel

abbrev twice : Channel
twice = (validate once 1).channel

abbrev closed : Reply ℕ (ℕ × List ℕ)
closed = sign_holder_commitment_tx_phase2 policy keys payments persist twice 0 1

-- The second validation returns the secret of the first commitment, and the close a signature.
secret_returned : released_by 1 (validate once 1).result [] ≡ 0 ∷ []
unfolding validate_holder_commitment_tx_phase2 holder_commitment get_per_commitment_point
    build_holder_commitment_info claimable_balances balance_of min_opt claimable_balance add_fee
    add_values_if total_value sum_values value_to_parties holder_htlcs sort Tx.new
    validate_holder_commitment_tx validate_commitment_tx check_htlcs check_initial htlc_dust_limit
    validate_fee validate_expiry estimate_feerate_per_kw expected_commitment_tx_weight policy_err_if
    filter is_anchors is_zero_fee_htlc is_static_remotekey make_simple_policy checked_add
    checked_sub add_u64 sub_u64 mul_u64 new advance_holder_commitment_state advance_holder
    set_next_holder_commit_num get_per_commitment_secret sign_holder_commitment_tx_phase2
    holder_signature current_holder_info get_current_holder_commitment_info
secret_returned = refl

signature_returned : signed_by 1 closed.result [] ≡ 1 ∷ []
unfolding validate_holder_commitment_tx_phase2 holder_commitment get_per_commitment_point
    build_holder_commitment_info claimable_balances balance_of min_opt claimable_balance add_fee
    add_values_if total_value sum_values value_to_parties holder_htlcs sort Tx.new
    validate_holder_commitment_tx validate_commitment_tx check_htlcs check_initial htlc_dust_limit
    validate_fee validate_expiry estimate_feerate_per_kw expected_commitment_tx_weight policy_err_if
    filter is_anchors is_zero_fee_htlc is_static_remotekey make_simple_policy checked_add
    checked_sub add_u64 sub_u64 mul_u64 new advance_holder_commitment_state advance_holder
    set_next_holder_commit_num get_per_commitment_secret sign_holder_commitment_tx_phase2
    holder_signature current_holder_info get_current_holder_commitment_info
signature_returned = refl

run :
    Run policy keys payments persist
      (released_by 1 (validate once 1).result (released_by 0 (validate start 0).result []))
      (signed_by 1 closed.result [])
      closed.channel
run =
    Run.sign_holder 0 1 closed
      (Run.validate 0 100 1 1000 2999000 0 [] [] signatures (validate once 1)
        (Run.validate 0 100 0 1000 2999000 0 [] [] signatures (validate start 0)
          (Run.begin setup 3000000) (omega arith) refl)
        (omega arith) refl)
      (omega arith) refl

Run-safe_example : All (λ (m : ℕ). All (λ (k : ℕ). k < m) (0 ∷ [])) (1 ∷ [])
unfolding validate_holder_commitment_tx_phase2 holder_commitment get_per_commitment_point
    build_holder_commitment_info claimable_balances balance_of min_opt claimable_balance add_fee
    add_values_if total_value sum_values value_to_parties holder_htlcs sort Tx.new
    validate_holder_commitment_tx validate_commitment_tx check_htlcs check_initial htlc_dust_limit
    validate_fee validate_expiry estimate_feerate_per_kw expected_commitment_tx_weight policy_err_if
    filter is_anchors is_zero_fee_htlc is_static_remotekey make_simple_policy checked_add
    checked_sub add_u64 sub_u64 mul_u64 new advance_holder_commitment_state advance_holder
    set_next_holder_commit_num get_per_commitment_secret sign_holder_commitment_tx_phase2
    holder_signature current_holder_info get_current_holder_commitment_info
Run-safe_example = Run-safe policy keys payments persist policy-Guards run

first_validated :
    holder_commitment policy keys payments persist start 0 100 0 1000 2999000 0 [] [] signatures
    ≡ ok (once, 0, (281474976710659, none))
unfolding validate_holder_commitment_tx_phase2 holder_commitment get_per_commitment_point
    build_holder_commitment_info claimable_balances balance_of min_opt claimable_balance add_fee
    add_values_if total_value sum_values value_to_parties holder_htlcs sort Tx.new
    validate_holder_commitment_tx validate_commitment_tx check_htlcs check_initial htlc_dust_limit
    validate_fee validate_expiry estimate_feerate_per_kw expected_commitment_tx_weight policy_err_if
    filter is_anchors is_zero_fee_htlc is_static_remotekey make_simple_policy checked_add
    checked_sub add_u64 sub_u64 mul_u64 new advance_holder_commitment_state advance_holder
    set_next_holder_commit_num get_per_commitment_secret sign_holder_commitment_tx_phase2
    holder_signature current_holder_info get_current_holder_commitment_info
first_validated = refl

holder_commitment-ok_example :
    (once.enforcement_state.next_holder_commit_num ≡ 1)
    × (once.enforcement_state.channel_closed ≡ start.enforcement_state.channel_closed)
    × ((1 ≡ start.enforcement_state.next_holder_commit_num)
        ⊎ ((0 ≡ start.enforcement_state.next_holder_commit_num)
            × (start.enforcement_state.channel_closed ≡ false)))
    × ((secret : ℕ) → none ≡ some secret → 1 ≤ 0)
unfolding new
holder_commitment-ok_example =
    holder_commitment-ok policy keys payments persist policy-Guards start once 0 0 100 0 1000
      2999000 0 [] [] signatures (omega arith) (omega arith) first_validated

twice_signed :
    holder_signature policy keys payments persist twice 0 1 ≡ ok (closed.channel, 0, (1, []))
unfolding validate_holder_commitment_tx_phase2 holder_commitment get_per_commitment_point
    build_holder_commitment_info claimable_balances balance_of min_opt claimable_balance add_fee
    add_values_if total_value sum_values value_to_parties holder_htlcs sort Tx.new
    validate_holder_commitment_tx validate_commitment_tx check_htlcs check_initial htlc_dust_limit
    validate_fee validate_expiry estimate_feerate_per_kw expected_commitment_tx_weight policy_err_if
    filter is_anchors is_zero_fee_htlc is_static_remotekey make_simple_policy checked_add
    checked_sub add_u64 sub_u64 mul_u64 new advance_holder_commitment_state advance_holder
    set_next_holder_commit_num get_per_commitment_secret sign_holder_commitment_tx_phase2
    holder_signature current_holder_info get_current_holder_commitment_info
twice_signed = refl

-- The second commitment is validated, and then signed.
second_validated :
    holder_commitment policy keys payments persist once 0 100 1 1000 2999000 0 [] [] signatures
    ≡ ok (twice, 0, (281474976710658, some 281474976710655))
unfolding validate_holder_commitment_tx_phase2 holder_commitment get_per_commitment_point
    build_holder_commitment_info claimable_balances balance_of min_opt claimable_balance add_fee
    add_values_if total_value sum_values value_to_parties holder_htlcs sort Tx.new
    validate_holder_commitment_tx validate_commitment_tx check_htlcs check_initial htlc_dust_limit
    validate_fee validate_expiry estimate_feerate_per_kw expected_commitment_tx_weight policy_err_if
    filter is_anchors is_zero_fee_htlc is_static_remotekey make_simple_policy checked_add
    checked_sub add_u64 sub_u64 mul_u64 new advance_holder_commitment_state advance_holder
    set_next_holder_commit_num get_per_commitment_secret sign_holder_commitment_tx_phase2
    holder_signature current_holder_info get_current_holder_commitment_info
second_validated = refl

holder_commitment-holder_signature_example :
    (checked : Checked policy keys once twice 100 1 1000 2999000 0 [] [] signatures) × (◌≡◌ {A = ℕ}
      1 1)
    × (keys.sign_holder_commitment checked.point 1
          (signed_feerate once.setup checked.info)
          checked.info
        ≡ ok (1, []))
    × (closed.channel.enforcement_state.channel_closed ≡ true)
unfolding validate_holder_commitment_tx_phase2 holder_commitment get_per_commitment_point
    build_holder_commitment_info claimable_balances balance_of min_opt claimable_balance add_fee
    add_values_if total_value sum_values value_to_parties holder_htlcs sort Tx.new
    validate_holder_commitment_tx validate_commitment_tx check_htlcs check_initial htlc_dust_limit
    validate_fee validate_expiry estimate_feerate_per_kw expected_commitment_tx_weight policy_err_if
    filter is_anchors is_zero_fee_htlc is_static_remotekey make_simple_policy checked_add
    checked_sub add_u64 sub_u64 mul_u64 new advance_holder_commitment_state advance_holder
    set_next_holder_commit_num get_per_commitment_secret sign_holder_commitment_tx_phase2
    holder_signature current_holder_info get_current_holder_commitment_info
holder_commitment-holder_signature_example =
    holder_commitment-holder_signature policy keys payments persist policy-Guards once twice
      closed.channel 0 0 0 0 100 1 1000 2999000 0 1 [] [] signatures
      (281474976710658, some 281474976710655) (1, []) (omega arith) (omega arith) (omega arith)
      second_validated twice_signed

first_released : get_per_commitment_secret policy keys twice 0 ≡ ok 281474976710655
unfolding validate_holder_commitment_tx_phase2 holder_commitment get_per_commitment_point
    build_holder_commitment_info claimable_balances balance_of min_opt claimable_balance add_fee
    add_values_if total_value sum_values value_to_parties holder_htlcs sort Tx.new
    validate_holder_commitment_tx validate_commitment_tx check_htlcs check_initial htlc_dust_limit
    validate_fee validate_expiry estimate_feerate_per_kw expected_commitment_tx_weight policy_err_if
    filter is_anchors is_zero_fee_htlc is_static_remotekey make_simple_policy checked_add
    checked_sub add_u64 sub_u64 mul_u64 new advance_holder_commitment_state advance_holder
    set_next_holder_commit_num get_per_commitment_secret sign_holder_commitment_tx_phase2
    holder_signature current_holder_info get_current_holder_commitment_info
first_released = refl
