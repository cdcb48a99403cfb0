-- ===== src/Validator/Holder.antt =====
-- The holder's commitments as the validator accepts them.
use vls.Prelude.{
  ℕ, ◌+◌, ◌≤◌, ◌<◌, ◌≡◌, sym, ap, ◌∙◌, Option, some, true, false, not, arith, ◌==◌, if◌then◌else◌,
  add_u64, add_u64_eq, ok, unwrap, >>-eq-ok, >>=-eq-ok, Bool,
}
use vls.Policy.{PolicyFilter}
use vls.Policy.Laws.{policy_err_if-ok, Enforces}
use vls.Tx.{CommitmentInfo2, CommitmentInfo2-discrete}
use vls.Setup.{ChannelSetup}
use vls.Enforcement.{EnforcementState}
use vls.Enforcement.Numbers.{num_end}
use vls.Validator.{SimplePolicy}
use vls.Validator.Commitment.{
  validate_holder_commitment_tx, validate_commitment_tx, check_holder_retry, info_eq,
}

-- The tags of the checks that only the holder's commitments pass.
pub record Holds (f : PolicyFilter) : Type 0 where
  pub retry_same : Enforces f "policy-commitment-retry-same"
  pub not_revoked : Enforces f "policy-commitment-holder-not-revoked"
  pub active : Enforces f "policy-commitment-spends-active-utxo"
  pub delay : Enforces f "policy-channel-contest-delay-range-counterparty"

pub unwrap-ok : (o : Option CommitmentInfo2) {a : CommitmentInfo2} → unwrap o ≡ ok a → o ≡ some a
unwrap-ok o h = ground arith

pub info_eq-true : (a b : CommitmentInfo2) → info_eq a b ≡ true → a ≡ b
info_eq-true a b h =
    elim (CommitmentInfo2-discrete a b)
        as (λ d. elim d [ yes e ↦ true | no e ↦ false ] ≡ true → a ≡ b) [
          | yes e ↦ λ t. e
          | no e ↦ λ t. cc
        ]
      h

module _ (p : SimplePolicy) (htlc_timeout_tx_weight htlc_success_tx_weight : Bool → ℕ)
    (g : Holds p.filter) where
  check_holder_retry-ok :
      (s : EnforcementState) (info : CommitmentInfo2)
      → check_holder_retry p htlc_timeout_tx_weight htlc_success_tx_weight s info ≡ ok tt
      → s.current_holder_commit_info ≡ some info
  unfolding check_holder_retry
  check_holder_retry-ok s info h =
      let (current, h1, h2) = >>=-eq-ok (unwrap s.current_holder_commit_info) _ h in
      let same = policy_err_if-ok p.filter (not (info_eq info current)) _ g.retry_same h2 in
      let eq = info_eq-true info current (ground (arith, same)) in
      unwrap-ok s.current_holder_commit_info h1 ∙ ap some (sym eq)

  -- A holder commitment that passes under an enforcing policy passes the common checks and has
  -- the delay of the setup; it is not revoked; if it was the last one validated its contents are
  -- the same, and if it is a new one then the channel is not closed.
  pub validate_holder_commitment_tx-ok :
      (s : EnforcementState) (num : ℕ) (setup : ChannelSetup) (height : ℕ) (info : CommitmentInfo2)
      → num < num_end
      → validate_holder_commitment_tx p htlc_timeout_tx_weight htlc_success_tx_weight s num setup
          height info
        ≡ ok tt
      → (validate_commitment_tx p htlc_timeout_tx_weight htlc_success_tx_weight num setup height
            info
          ≡ ok tt)
        × (info.to_self_delay ≡ setup.counterparty_selected_contest_delay)
        × (num + 1 ≡ s.next_holder_commit_num → s.current_holder_commit_info ≡ some info)
        × (s.next_holder_commit_num ≤ num + 1)
        × (num ≡ s.next_holder_commit_num → s.channel_closed ≡ false)
  unfolding validate_holder_commitment_tx
  validate_holder_commitment_tx-ok s num setup height info small h =
      let (h1, r1) =
        >>-eq-ok
          (validate_commitment_tx p htlc_timeout_tx_weight htlc_success_tx_weight num setup height
            info)
          _ h in
      let (h2, r2) = >>-eq-ok _ _ r1 in
      let (h3, r3) =
        >>-eq-ok
          (if add_u64 num 1 == s.next_holder_commit_num
            then check_holder_retry p htlc_timeout_tx_weight htlc_success_tx_weight s info
            else ok tt)
          _ r2 in
      let (h4, h5) = >>-eq-ok _ _ r3 in
      let e2 = policy_err_if-ok p.filter _ _ g.delay h2 in
      let e4 = policy_err_if-ok p.filter _ _ g.not_revoked h4 in
      let e5 = policy_err_if-ok p.filter _ _ g.active h5 in
      (
        h1,
        ground (arith, e2),
        λ e. check_holder_retry-ok s info (ground (arith, h3, add_u64_eq num 1)),
        ground (arith, e4, add_u64_eq num 2),
        λ e. ground (arith, e5),
      )
