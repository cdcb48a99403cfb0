-- ===== src/Channel/Requests.antt =====
-- The requests that sign and validate commitments and take revocations (vls-core/src/channel.rs).
-- The node's payment state, whose three operations they call, and the storage are parameters. A
-- request that fails late leaves what it changed before, so a request returns the channel and the
-- node as well as the result. The chain's height is an argument.
use vls.Prelude.{
  ℕ, Bool, true, Option, none, some, List, if◌then◌else◌, add_u64, sub_u64, Outcome, ok, unwrap,
  err, panic, ValidationErrorKind, ◌>>=◌, ◌>>◌,
}
use vls.Policy.{policy_err_if}
use vls.Tx.{HtlcInfo2}
use vls.Setup.{is_zero_fee_htlc}
use vls.Secrets.{CounterpartyCommitmentSecrets, provide_secret}
use vls.Enforcement.{
  CommitmentSignatures, advance_counterparty, advance_revocation, current_holder_info,
}
use vls.Enforcement.Summary.{
  Summary, BalanceDelta, payments_summary, incoming_payments_summary, claimable_balances,
}
use vls.Validator.{SimplePolicy, validate_channel_value}
use vls.Validator.Commitment.{
  validate_holder_commitment_tx, validate_counterparty_commitment_tx,
  validate_counterparty_revocation,
}
use vls.Channel.{
  Channel, Keys, initial_commitment_number, get_per_commitment_point, build_holder_commitment_info,
  build_counterparty_commitment_info, advance_holder_commitment_state,
}

-- The node's payment state, as a channel uses it.
pub record Payments (S : Type 0) : Type 0 where
  pub has_preimage : S → ℕ → Bool
  pub validate_payments : S → Summary → Summary → BalanceDelta → Outcome (Unit {0})
  -- It returns no error; `none` is a panic.
  pub apply_payments : S → Summary → Summary → BalanceDelta → Option S

-- What a request leaves behind.
pub record Reply (S : Type 0) (R : Type 0) : Type 0 where
  pub channel : Channel
  pub node : S
  pub result : Outcome R

module _ {S : Type 0} {R : Type 0} (persist : Channel → Bool) where
  -- The end of a request: a failure leaves the channel and the node as they were, a success is
  -- stored, and a failure to store is reported after the change.
  abbrev pub settle : Channel → S → Outcome (Channel × S × R) → Reply S R
  settle c n panic = record { channel = c; node = n; result = panic }
  settle c n (err kind) = record { channel = c; node = n; result = err kind }
  settle c n (ok (c', n', r)) = record {
    channel = c';
    node = n';
    result = (if persist c' then ok r else err ValidationErrorKind.status);
  }

module _ (p : SimplePolicy) (keys : Keys) {S : Type 0} (payments : Payments S)
    (persist : Channel → Bool) where
  -- All of `validate_holder_commitment_tx_phase2` but the storing of its result.
  unfoldable pub holder_commitment :
      Channel
      → S
      → ℕ
      → ℕ
      → ℕ
      → ℕ
      → ℕ
      → List HtlcInfo2
      → List HtlcInfo2
      → CommitmentSignatures
      → Outcome (Channel × S × (ℕ × Option ℕ))
  holder_commitment c n height num feerate to_holder to_counterparty offered received signatures =
      do
        let s = c.enforcement_state
        point ← get_per_commitment_point p keys c num
        info ←
            build_holder_commitment_info p keys c.setup point to_holder to_counterparty offered
              received feerate
        delta ← claimable_balances (payments.has_preimage n) c.setup s (some info) none
        let incoming = incoming_payments_summary s (some info) none
        validate_holder_commitment_tx p keys.htlc_timeout_tx_weight keys.htlc_success_tx_weight s
            num c.setup height info
        keys.check_holder_tx_signatures point num info signatures
        let outgoing = payments_summary s (some info) none
        payments.validate_payments n incoming outgoing delta
        done ← advance_holder_commitment_state p keys c num info signatures
        n' ← unwrap (payments.apply_payments n incoming outgoing delta)
        ok (done.0, n', (done.1, done.2))

  unfoldable pub validate_holder_commitment_tx_phase2 :
      Channel
      → S
      → ℕ
      → ℕ
      → ℕ
      → ℕ
      → ℕ
      → List HtlcInfo2
      → List HtlcInfo2
      → CommitmentSignatures
      → Reply S (ℕ × Option ℕ)
  validate_holder_commitment_tx_phase2 c n height num feerate to_holder to_counterparty offered
        received signatures =
      settle persist c n (
        holder_commitment c n height num feerate to_holder to_counterparty offered received
          signatures)

  unfoldable pub holder_signature : Channel → S → ℕ → Outcome (Channel × S × (ℕ × List ℕ))
  holder_signature c n num = do
    info ← current_holder_info p.filter c.enforcement_state num
    point ← get_per_commitment_point p keys c num
    signed ←
        keys.sign_holder_commitment point num
          (if is_zero_fee_htlc c.setup then 0 else info.feerate_per_kw) info
    ok (
      record c { enforcement_state = record c.enforcement_state { channel_closed = true } },
      n,
      signed,
    )

  unfoldable pub sign_holder_commitment_tx_phase2 : Channel → S → ℕ → Reply S (ℕ × List ℕ)
  sign_holder_commitment_tx_phase2 c n num = settle persist c n (holder_signature c n num)

  unfoldable pub counterparty_commitment :
      Channel
      → S
      → ℕ
      → ℕ
      → ℕ
      → ℕ
      → ℕ
      → ℕ
      → List HtlcInfo2
      → List HtlcInfo2
      → Outcome (Channel × S × (ℕ × List ℕ))
  counterparty_commitment c n height point num feerate to_holder to_counterparty offered received =
      do
        let s = c.enforcement_state
        validate_channel_value p c.setup
        info ←
            build_counterparty_commitment_info p keys c.setup point to_holder to_counterparty
              offered received feerate
        delta ← claimable_balances (payments.has_preimage n) c.setup s none (some info)
        let incoming = incoming_payments_summary s none (some info)
        validate_counterparty_commitment_tx p keys.htlc_timeout_tx_weight
            keys.htlc_success_tx_weight s num point c.setup height info
        signed ← keys.sign_counterparty_commitment point num info
        let outgoing = payments_summary s none (some info)
        payments.validate_payments n incoming outgoing delta
        state ← advance_counterparty p.filter s (add_u64 num 1) point info
        n' ← unwrap (payments.apply_payments n incoming outgoing delta)
        ok (record c { enforcement_state = state }, n', signed)

  unfoldable pub sign_counterparty_commitment_tx_phase2 :
      Channel → S → ℕ → ℕ → ℕ → ℕ → ℕ → ℕ → List HtlcInfo2 → List HtlcInfo2 → Reply S (ℕ × List ℕ)
  sign_counterparty_commitment_tx_phase2 c n height point num feerate to_holder to_counterparty
        offered received =
      settle persist c n (
        counterparty_commitment c n height point num feerate to_holder to_counterparty offered
          received)

  -- The secret goes to the store, if there is one and it takes it.
  abbrev store_secret :
      Option CounterpartyCommitmentSecrets → ℕ → ℕ → Outcome (Option CounterpartyCommitmentSecrets)
  store_secret none num secret = ok none
  store_secret (some secrets) num secret = do
    provided ←
        provide_secret keys.sha256 secrets (sub_u64 initial_commitment_number num)
          (keys.secret_bytes secret)
    elim provided [
      | some stored ↦ ok (some stored)
      | none ↦ policy_err_if p.filter true "policy-commitment-previous-revoked" >> ok (some secrets)
    ]

  unfoldable pub revocation_secret : Channel → ℕ → ℕ → Outcome Channel
  revocation_secret c num secret = do
    validate_counterparty_revocation p keys.public_key c.enforcement_state num secret
    stored ← store_secret c.enforcement_state.counterparty_secrets num secret
    ok (record c {
      enforcement_state = record c.enforcement_state { counterparty_secrets = stored };
    })

  unfoldable pub revocation : Channel → S → ℕ → Outcome (Channel × S × Unit {0})
  revocation c n num = do
    state ← advance_revocation p.filter c.enforcement_state (add_u64 num 1)
    ok (record c { enforcement_state = state }, n, tt)

  -- The rest of the request. The store of secrets keeps the new secret even where this fails.
  abbrev pub revocation_from : Channel → S → ℕ → Outcome Channel → Reply S (Unit {0})
  revocation_from c n num (ok kept) = settle persist kept n (revocation kept n num)
  revocation_from c n num (err kind) = record { channel = c; node = n; result = err kind }
  revocation_from c n num panic = record { channel = c; node = n; result = panic }

  unfoldable pub validate_revocation : Channel → S → ℕ → ℕ → Reply S (Unit {0})
  validate_revocation c n num secret = revocation_from c n num (revocation_secret c num secret)
