-- ===== src/Channel/Payments.antt =====
-- A request that signs or validates a commitment changes the node's payments by one validated
-- commitment (vls-core/src/channel.rs).
use vls.Prelude.{
  ℕ, ◌≡◌, Bool, Option, ok, unwrap, none, some, List, >>=-eq-ok, >>-eq-ok, add_u64, ok_inj, ap,
  subst,
}
use vls.Tx.{HtlcInfo2}
use vls.Enforcement.{CommitmentSignatures, advance_counterparty}
use vls.Enforcement.Summary.{
  Summary, BalanceDelta, payments_summary, incoming_payments_summary, claimable_balances,
}
use vls.Validator.{SimplePolicy, validate_channel_value}
use vls.Validator.Commitment.{validate_holder_commitment_tx, validate_counterparty_commitment_tx}
use vls.Channel.{
  Channel, Keys, get_per_commitment_point, build_holder_commitment_info,
  build_counterparty_commitment_info, advance_holder_commitment_state,
}
use vls.Channel.Requests.{Payments, holder_commitment, counterparty_commitment}

module _ (p : SimplePolicy) (keys : Keys) {S : Type 0} (payments : Payments S)
    (persist : Channel → Bool) where
  pub record Paid (n n' : S) : Type 0 where
    pub incoming : Summary
    pub outgoing : Summary
    pub delta : BalanceDelta
    pub valid : payments.validate_payments n incoming outgoing delta ≡ ok tt
    pub applied : unwrap (payments.apply_payments n incoming outgoing delta) ≡ ok n'

  pub holder_commitment-Paid :
      (c d : Channel) (n n' : S) (height num feerate to_holder to_counterparty : ℕ)
      (offered received : List HtlcInfo2) (signatures : CommitmentSignatures) (r : ℕ × Option ℕ)
      → holder_commitment p keys payments persist c n height num feerate to_holder to_counterparty
          offered received signatures
        ≡ ok (d, n', r)
      → Paid n n'
  unfolding holder_commitment
  holder_commitment-Paid c d n n' height num feerate to_holder to_counterparty offered received
        signatures r h =
      let s = c.enforcement_state in
      let (point, h1, r1) = >>=-eq-ok (get_per_commitment_point p keys c num) _ h in
      let (info, h2, r2) =
        >>=-eq-ok
          (build_holder_commitment_info p keys c.setup point to_holder to_counterparty offered
            received feerate)
          _ r1 in
      let (delta, h3, r3) =
        >>=-eq-ok (claimable_balances (payments.has_preimage n) c.setup s (some info) none) _ r2 in
      let (h4, r4) =
        >>-eq-ok
          (validate_holder_commitment_tx p keys.htlc_timeout_tx_weight keys.htlc_success_tx_weight s
            num c.setup height info)
          _ r3 in
      let (h5, r5) = >>-eq-ok (keys.check_holder_tx_signatures point num info signatures) _ r4 in
      let incoming = incoming_payments_summary s (some info) none in
      let outgoing = payments_summary s (some info) none in
      let (h6, r6) = >>-eq-ok (payments.validate_payments n incoming outgoing delta) _ r5 in
      let (done, h7, r7) =
        >>=-eq-ok (advance_holder_commitment_state p keys c num info signatures) _ r6 in
      let (m, h8, r8) =
        >>=-eq-ok (unwrap (payments.apply_payments n incoming outgoing delta)) _ r7 in
      record {
        incoming = incoming;
        outgoing = outgoing;
        delta = delta;
        valid = h6;
        applied =
            subst (λ x. unwrap (payments.apply_payments n incoming outgoing delta) ≡ ok x)
              (ap (λ x. x.1) (ok_inj r8)) h8;
      }

  pub counterparty_commitment-Paid :
      (c d : Channel) (n n' : S) (height point num feerate to_holder to_counterparty : ℕ)
      (offered received : List HtlcInfo2) (signed : ℕ × List ℕ)
      → counterparty_commitment p keys payments persist c n height point num feerate to_holder
          to_counterparty offered received
        ≡ ok (d, n', signed)
      → Paid n n'
  unfolding counterparty_commitment
  counterparty_commitment-Paid c d n n' height point num feerate to_holder to_counterparty offered
        received signed h =
      let s = c.enforcement_state in
      let (h1, r1) = >>-eq-ok (validate_channel_value p c.setup) _ h in
      let (info, h2, r2) =
        >>=-eq-ok
          (build_counterparty_commitment_info p keys c.setup point to_holder to_counterparty offered
            received feerate)
          _ r1 in
      let (delta, h3, r3) =
        >>=-eq-ok (claimable_balances (payments.has_preimage n) c.setup s none (some info)) _ r2 in
      let (h4, r4) =
        >>-eq-ok
          (validate_counterparty_commitment_tx p keys.htlc_timeout_tx_weight
            keys.htlc_success_tx_weight s num point c.setup height info)
          _ r3 in
      let (sig, h5, r5) = >>=-eq-ok (keys.sign_counterparty_commitment point num info) _ r4 in
      let incoming = incoming_payments_summary s none (some info) in
      let outgoing = payments_summary s none (some info) in
      let (h6, r6) = >>-eq-ok (payments.validate_payments n incoming outgoing delta) _ r5 in
      let (state, h7, r7) =
        >>=-eq-ok (advance_counterparty p.filter s (add_u64 num 1) point info) _ r6 in
      let (m, h8, r8) =
        >>=-eq-ok (unwrap (payments.apply_payments n incoming outgoing delta)) _ r7 in
      record {
        incoming = incoming;
        outgoing = outgoing;
        delta = delta;
        valid = h6;
        applied =
            subst (λ x. unwrap (payments.apply_payments n incoming outgoing delta) ≡ ok x)
              (ap (λ x. x.1) (ok_inj r8)) h8;
      }
