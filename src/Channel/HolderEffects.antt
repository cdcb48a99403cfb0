-- ===== src/Channel/HolderEffects.antt =====
-- What the requests on the holder's own commitments do to a channel.
use vls.Prelude.{
  ℕ, ◌+◌, ◌≤◌, ◌<◌, ◌≡◌, ◌⊎◌, Bool, true, false, Option, none, some, List, arith, if◌then◌else◌,
  add_u64_eq, ok, unwrap, >>-eq-ok, >>=-eq-ok,
}
use vls.Policy.Laws.{policy_err_if-ok}
use vls.Tx.{HtlcInfo2, CommitmentInfo2}
use vls.Setup.{is_zero_fee_htlc}
use vls.Enforcement.{EnforcementState, CommitmentSignatures, current_holder_info}
use vls.Enforcement.Numbers.{num_end}
use vls.Enforcement.Summary.{payments_summary, incoming_payments_summary, claimable_balances}
use vls.Validator.{SimplePolicy}
use vls.Validator.Commitment.{validate_holder_commitment_tx}
use vls.Validator.Holder.{validate_holder_commitment_tx-ok}
use vls.Channel.{
  Channel, Keys, get_per_commitment_point, build_holder_commitment_info,
  advance_holder_commitment_state,
}
use vls.Channel.Requests.{Payments, holder_commitment, holder_signature}
use vls.Channel.Effects.{Guards, advance_holder_commitment_state-ok}

module _ (p : SimplePolicy) (keys : Keys) {S : Type 0} (payments : Payments S)
    (persist : Channel → Bool) (g : Guards p.filter) where
  pub current_holder_info-last :
      (s : EnforcementState) (num : ℕ) {info : CommitmentInfo2}
      → current_holder_info p.filter s num ≡ ok info
      → num < num_end
      → num + 1 ≡ s.next_holder_commit_num
  unfolding current_holder_info
  current_holder_info-last s num h small =
      let (h1, r1) = >>-eq-ok _ _ h in
      let e = policy_err_if-ok p.filter _ _ g.other h1 in ground (arith, e, add_u64_eq num 1)

  -- Under an enforcing policy the holder's signature is of the last commitment that was
  -- validated, and closes the channel.
  pub holder_signature-ok :
      (c d : Channel) (n n' : S) (num : ℕ) {signed : ℕ × List ℕ}
      → num < num_end
      → holder_signature p keys payments persist c n num ≡ ok (d, n', signed)
      → (num + 1 ≡ c.enforcement_state.next_holder_commit_num)
        × (d.enforcement_state.next_holder_commit_num ≡ c.enforcement_state.next_holder_commit_num)
        × (d.enforcement_state.channel_closed ≡ true)
  unfolding holder_signature
  holder_signature-ok c d n n' num small h =
      let s = c.enforcement_state in
      let (info, h1, r1) = >>=-eq-ok (current_holder_info p.filter s num) _ h in
      let (point, h2, r2) = >>=-eq-ok (get_per_commitment_point p keys c num) _ r1 in
      let (sig, h3, r3) =
        >>=-eq-ok
          (keys.sign_holder_commitment point num
            (if is_zero_fee_htlc c.setup then 0 else info.feerate_per_kw) info)
          _ r2 in
      let last = current_holder_info-last s num h1 small in
      (last, ground (arith, r3), ground (arith, r3))

  -- A holder commitment that is validated under an enforcing policy is the next one, and the
  -- channel is not closed, or it is the last one again; it is then the last one validated.
  pub holder_commitment-ok :
      (c d : Channel) (n n' : S) (height num feerate to_holder to_counterparty : ℕ)
      (offered received : List HtlcInfo2) (signatures : CommitmentSignatures) {r : ℕ × Option ℕ}
      → num < num_end
      → c.enforcement_state.next_holder_commit_num ≤ num_end
      → holder_commitment p keys payments persist c n height num feerate to_holder to_counterparty
          offered received signatures
        ≡ ok (d, n', r)
      → (d.enforcement_state.next_holder_commit_num ≡ num + 1)
        × (d.enforcement_state.channel_closed ≡ c.enforcement_state.channel_closed)
        × ((num + 1 ≡ c.enforcement_state.next_holder_commit_num)
            ⊎ ((num ≡ c.enforcement_state.next_holder_commit_num)
                × (c.enforcement_state.channel_closed ≡ false)))
        × ((secret : ℕ) → r.1 ≡ some secret → 1 ≤ num)
  unfolding holder_commitment
  holder_commitment-ok c d n n' height num feerate to_holder to_counterparty offered received
        signatures small bound h =
      let s = c.enforcement_state in
      let (point, h1, r1) = >>=-eq-ok (get_per_commitment_point p keys c num) _ h in
      let (info, h2, r2) =
        >>=-eq-ok
          (build_holder_commitment_info p keys c.setup point to_holder to_counterparty offered
            received feerate)
          _ r1 in
      let (delta, h3, r3) =
        >>=-eq-ok (claimable_balances (payments.has_preimage n) c.setup s (some info) none) _ r2 in
      let (h4, r4) =
        >>-eq-ok
          (validate_holder_commitment_tx p keys.htlc_timeout_tx_weight keys.htlc_success_tx_weight s
            num c.setup height info)
          _ r3 in
      let (h5, r5) = >>-eq-ok (keys.check_holder_tx_signatures point num info signatures) _ r4 in
      let (h6, r6) =
        >>-eq-ok
          (payments.validate_payments n (incoming_payments_summary s (some info) none)
            (payments_summary s (some info) none) delta)
          _ r5 in
      let (done, h7, r7) =
        >>=-eq-ok (advance_holder_commitment_state p keys c num info signatures) _ r6 in
      let (m, h8, r8) =
        >>=-eq-ok
          (unwrap (
            payments.apply_payments n (incoming_payments_summary s (some info) none)
              (payments_summary s (some info) none) delta))
          _ r7 in
      let valid =
        validate_holder_commitment_tx-ok p keys.htlc_timeout_tx_weight keys.htlc_success_tx_weight
          g.holds s num c.setup height info small h4 in
      let moved =
        advance_holder_commitment_state-ok p keys g c num info signatures small bound h7 in
      (
        ground (arith, moved, r8),
        ground (arith, moved, r8),
        ground (arith, moved, valid),
        λ x e. moved.3 x (ground (arith, r8, e)),
      )
