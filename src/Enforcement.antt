-- ===== src/Enforcement.antt =====
-- `EnforcementState` of vls-core/src/policy/validator.rs, which follows the commitments of both
-- sides of a channel, and the methods of the trait `Validator` that advance it. A commitment
-- point (a public key) and a signature are only compared or kept, so they are numbers. A method
-- that changes the state returns the new one; on an error the state is as it was.
pub mod Numbers
pub mod Revocation
pub mod History
pub mod Summary
pub mod InFlight
pub mod Balance
mod Tests
use vls.Prelude.{
  ℕ, ◌+◌, ◌-◌, Bool, true, false, not, ◌&&◌, ◌||◌, Option, none, some, List, ltb, leb, ◌==◌,
  if◌then◌else◌, is_some, add_u64, Outcome, ok, err, panic, ValidationErrorKind, assert, unwrap,
  ◌>>=◌, ◌>>◌, min,
}
use vls.Policy.{PolicyFilter, policy_err_if}
use vls.Tx.{CommitmentInfo2}
use vls.Secrets.{CounterpartyCommitmentSecrets}
use vls.Secrets

pub record CommitmentSignatures : Type 0 where
  pub commit_sig : ℕ
  pub htlc_sigs : List ℕ

pub record EnforcementState : Type 0 where
  pub next_holder_commit_num : ℕ
  pub next_counterparty_commit_num : ℕ
  pub next_counterparty_revoke_num : ℕ
  pub current_counterparty_point : Option ℕ
  pub previous_counterparty_point : Option ℕ
  pub current_holder_commit_info : Option CommitmentInfo2
  pub current_counterparty_signatures : Option CommitmentSignatures
  pub current_counterparty_commit_info : Option CommitmentInfo2
  pub previous_counterparty_commit_info : Option CommitmentInfo2
  pub channel_closed : Bool
  pub initial_holder_value : ℕ
  pub counterparty_secrets : Option CounterpartyCommitmentSecrets

unfoldable pub new : ℕ → EnforcementState
new initial_holder_value = record {
  next_holder_commit_num = 0;
  next_counterparty_commit_num = 0;
  next_counterparty_revoke_num = 0;
  current_counterparty_point = none;
  previous_counterparty_point = none;
  current_holder_commit_info = none;
  current_counterparty_signatures = none;
  current_counterparty_commit_info = none;
  previous_counterparty_commit_info = none;
  channel_closed = false;
  initial_holder_value = initial_holder_value;
  counterparty_secrets = some Secrets.new;
}

-- The smaller of two amounts, if they are within epsilon.
unfoldable pub min_within : ℕ → ℕ → ℕ → Option ℕ
min_within epsilon_sat hval cval =
    if ltb cval hval
    then (if leb (hval - cval) epsilon_sat then some cval else none)
    else (if leb (cval - hval) epsilon_sat then some hval else none)

abbrev with_both :
    (CommitmentInfo2 → CommitmentInfo2 → Option ℕ)
    → Option CommitmentInfo2
    → Option CommitmentInfo2
    → Option ℕ
with_both f (some hinfo) (some cinfo) = f hinfo cinfo
with_both f (some hinfo) none = none
with_both f none cinfo = none

unfoldable pub minimum_to_holder_value : EnforcementState → ℕ → Option ℕ
unfolding min_within
minimum_to_holder_value s epsilon_sat =
    with_both
      (λ h c. min_within epsilon_sat h.to_broadcaster_value_sat c.to_countersigner_value_sat)
      s.current_holder_commit_info s.current_counterparty_commit_info

unfoldable pub minimum_to_counterparty_value : EnforcementState → ℕ → Option ℕ
unfolding min_within
minimum_to_counterparty_value s epsilon_sat =
    with_both
      (λ h c. min_within epsilon_sat h.to_countersigner_value_sat c.to_broadcaster_value_sat)
      s.current_holder_commit_info s.current_counterparty_commit_info

unfoldable pub set_next_holder_commit_num :
    EnforcementState → ℕ → CommitmentInfo2 → CommitmentSignatures → EnforcementState
set_next_holder_commit_num s num info signatures = record s {
  next_holder_commit_num = num;
  current_holder_commit_info = some info;
  current_counterparty_signatures = some signatures;
}

unfoldable pub get_current_holder_commitment_info : EnforcementState → Outcome CommitmentInfo2
get_current_holder_commitment_info s = unwrap s.current_holder_commit_info

-- The first two `if`s of `set_next_counterparty_commit_num`, on the previous commitment.
unfoldable pub move_previous : EnforcementState → ℕ → EnforcementState
move_previous s num =
    if num == add_u64 s.next_counterparty_commit_num 1
    then record s {
      previous_counterparty_point = s.current_counterparty_point;
      previous_counterparty_commit_info = s.current_counterparty_commit_info;
      current_counterparty_commit_info = none;
    }
    else if ltb (add_u64 s.next_counterparty_commit_num 1) num
        || ltb num s.next_counterparty_commit_num
    then record s { previous_counterparty_point = none; previous_counterparty_commit_info = none }
    else s

-- The third `if`, with the number before the call.
unfoldable pub set_current : EnforcementState → ℕ → ℕ → ℕ → CommitmentInfo2 → EnforcementState
set_current s current num point info =
    if leb (add_u64 current 1) num
    then record s {
      current_counterparty_point = some point;
      current_counterparty_commit_info = some info;
    }
    else s

unfoldable pub set_next_counterparty_commit_num :
    EnforcementState → ℕ → ℕ → CommitmentInfo2 → Outcome EnforcementState
unfolding move_previous set_current
set_next_counterparty_commit_num s num point info = do
  assert (ltb 0 num)
  let moved = set_current (move_previous s num) s.next_counterparty_commit_num num point info
  ok (record moved { next_counterparty_commit_num = num })

unfoldable pub get_previous_counterparty_point : EnforcementState → ℕ → Option ℕ
get_previous_counterparty_point s num =
    if add_u64 num 1 == s.next_counterparty_commit_num
    then s.current_counterparty_point
    else if add_u64 num 2 == s.next_counterparty_commit_num
    then s.previous_counterparty_point
    else none

unfoldable pub get_previous_counterparty_commit_info : EnforcementState → ℕ → Option CommitmentInfo2
get_previous_counterparty_commit_info s num =
    if add_u64 num 1 == s.next_counterparty_commit_num
    then s.current_counterparty_commit_info
    else if add_u64 num 2 == s.next_counterparty_commit_num
    then s.previous_counterparty_commit_info
    else none

unfoldable pub set_next_counterparty_revoke_num : EnforcementState → ℕ → Outcome EnforcementState
set_next_counterparty_revoke_num s num = do
  assert (not (num == 0))
  let kept =
      if leb s.next_counterparty_commit_num (add_u64 num 1)
      then record s { previous_counterparty_commit_info = none }
      else s
  ok (record kept { next_counterparty_revoke_num = num })

-- The provided methods of the trait `Validator`; `f` is the filter of the validator's policy.
module _ (f : PolicyFilter) where
  -- `Validator::set_next_holder_commit_num`
  unfoldable pub advance_holder :
      EnforcementState → ℕ → CommitmentInfo2 → CommitmentSignatures → Outcome EnforcementState
  advance_holder s num info signatures = do
    let current = s.next_holder_commit_num
    policy_err_if f (not (num == current) && not (num == add_u64 current 1))
        "policy-revoke-new-commitment-signed"
    ok (set_next_holder_commit_num s num info signatures)

  -- `Validator::get_current_holder_commitment_info`
  unfoldable pub current_holder_info : EnforcementState → ℕ → Outcome CommitmentInfo2
  current_holder_info s commitment_number = do
    policy_err_if f (not (add_u64 commitment_number 1 == s.next_holder_commit_num)) "policy-other"
    get_current_holder_commitment_info s

  -- The test of a retry. The `assert!` that there is a point panics where there is none.
  unfoldable pub check_retry : Option ℕ → ℕ → Outcome (Unit {0})
  check_retry none point = panic
  check_retry (some prior) point =
      policy_err_if f (not (point == prior)) "policy-commitment-retry-same"

  -- A retry, or a step by one.
  unfoldable pub check_progression : EnforcementState → ℕ → ℕ → Outcome (Unit {0})
  unfolding check_retry
  check_progression s num point =
      if num == s.next_counterparty_commit_num
      then check_retry s.current_counterparty_point point
      else policy_err_if f (not (num == add_u64 s.next_counterparty_commit_num 1))
          "policy-commitment-previous-revoked"

  -- `Validator::set_next_counterparty_commit_num`
  unfoldable pub advance_counterparty :
      EnforcementState → ℕ → ℕ → CommitmentInfo2 → Outcome EnforcementState
  advance_counterparty s num point info = do
    policy_err_if f (num == 0) "policy-commitment-previous-revoked"
    let delta : ℕ = if num == 1 then 1 else 2
    policy_err_if f (ltb num (add_u64 s.next_counterparty_revoke_num delta))
        "policy-commitment-previous-revoked"
    policy_err_if f (ltb (add_u64 s.next_counterparty_revoke_num 2) num)
        "policy-commitment-previous-revoked"
    check_progression s num point
    set_next_counterparty_commit_num s num point info

  -- `Validator::set_next_counterparty_revoke_num`
  unfoldable pub advance_revocation : EnforcementState → ℕ → Outcome EnforcementState
  advance_revocation s num = do
    policy_err_if f (num == 0) "policy-other"
    policy_err_if f (ltb (add_u64 num 2) s.next_counterparty_commit_num)
        "policy-commitment-previous-revoked"
    policy_err_if f (ltb s.next_counterparty_commit_num (add_u64 num 1))
        "policy-commitment-previous-revoked"
    policy_err_if f
        (not (num == s.next_counterparty_revoke_num)
          && not (num == add_u64 s.next_counterparty_revoke_num 1))
        "policy-commitment-previous-revoked"
    set_next_counterparty_revoke_num s num
