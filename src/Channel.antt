-- ===== src/Channel.antt =====
-- The requests of a ready channel that sign, validate and revoke commitments
-- (vls-core/src/channel.rs). A channel is its enforcement state and its setup: the other fields of
-- the source's struct are handles of the node, the keys and the chain monitor. The keys and the
-- signatures are parameters.
pub mod Requests
pub mod Effects
pub mod HolderEffects
pub mod Signed
pub mod Run
pub mod Secure
pub mod Payments
pub mod Safety
mod Tests
use vls.Prelude.{
  ℕ, ◌+◌, ◌-◌, ◌^◌, Bool, true, false, not, Option, none, some, List, [], ltb, leb, ◌==◌,
  if◌then◌else◌, add_u64, sub_u64, Outcome, ok, err, panic, ValidationErrorKind, unwrap, ◌>>=◌,
  ◌>>◌,
}
use vls.Policy.{policy_err_if}
use vls.Tx.{HtlcInfo2, CommitmentInfo2}
use vls.Tx
use vls.Setup.{ChannelSetup, is_static_remotekey, is_zero_fee_htlc}
use vls.Secrets.{CounterpartyCommitmentSecrets, Secret, provide_secret}
use vls.Enforcement.{
  EnforcementState, CommitmentSignatures, advance_holder, advance_counterparty, advance_revocation,
  current_holder_info,
}
use vls.Enforcement.Summary.{
  Summary, BalanceDelta, payments_summary, incoming_payments_summary, claimable_balances,
}
use vls.Validator.{SimplePolicy, validate_channel_value}
use vls.Validator.Commitment.{
  validate_holder_commitment_tx, validate_counterparty_commitment_tx,
  validate_counterparty_revocation,
}

pub record Channel : Type 0 where
  pub enforcement_state : EnforcementState
  pub setup : ChannelSetup

abbrev pub initial_commitment_number : ℕ
initial_commitment_number = 2 ^ 48 - 1

-- The keys of the channel and what the cryptographic libraries compute with them.
pub record Keys : Type 0 where
  pub get_per_commitment_point : ℕ → ℕ
  pub release_commitment_secret : ℕ → ℕ
  pub public_key : ℕ → ℕ
  pub secret_bytes : ℕ → Secret
  pub sha256 : Secret → Secret
  pub derive_public_key : ℕ → ℕ → Outcome ℕ
  pub derive_public_revocation_key : ℕ → ℕ → ℕ
  pub holder_payment_point : ℕ
  pub holder_revocation_basepoint : ℕ
  pub holder_delayed_payment_basepoint : ℕ
  pub counterparty_payment_point : ℕ
  pub counterparty_revocation_basepoint : ℕ
  pub counterparty_delayed_payment_basepoint : ℕ
  -- By the point and the number of the commitment, and its contents.
  pub sign_counterparty_commitment : ℕ → ℕ → CommitmentInfo2 → Outcome (ℕ × List ℕ)
  pub sign_holder_commitment : ℕ → ℕ → ℕ → CommitmentInfo2 → Outcome (ℕ × List ℕ)
  pub check_holder_tx_signatures :
      ℕ → ℕ → CommitmentInfo2 → CommitmentSignatures → Outcome (Unit {0})
  pub htlc_timeout_tx_weight : Bool → ℕ
  pub htlc_success_tx_weight : Bool → ℕ

-- `unwrap` of a result.
abbrev pub expect_ok : {A : Type 0} → Outcome A → Outcome A
expect_ok (ok a) = ok a
expect_ok (err kind) = panic
expect_ok panic = panic

module _ (p : SimplePolicy) (keys : Keys) where
  unfoldable pub get_per_commitment_point : Channel → ℕ → Outcome ℕ
  get_per_commitment_point c commitment_number =
      if ltb (add_u64 c.enforcement_state.next_holder_commit_num 1) commitment_number
      then err ValidationErrorKind.policy
      else ok (keys.get_per_commitment_point (sub_u64 initial_commitment_number commitment_number))

  unfoldable pub get_per_commitment_secret : Channel → ℕ → Outcome ℕ
  get_per_commitment_secret c commitment_number = do
    policy_err_if p.filter
        (ltb c.enforcement_state.next_holder_commit_num (add_u64 commitment_number 2))
        "policy-revoke-new-commitment-signed"
    ok (keys.release_commitment_secret (sub_u64 initial_commitment_number commitment_number))

  unfoldable pub check_future_secret : Channel → ℕ → ℕ → Outcome Bool
  check_future_secret c commitment_number suggested = ok (
      suggested
      == keys.release_commitment_secret (sub_u64 initial_commitment_number commitment_number))

  -- A key of the party that does not broadcast, which is not derived if it is static.
  abbrev static_or_derived : ChannelSetup → ℕ → ℕ → Outcome ℕ
  static_or_derived setup point payment_point =
      if is_static_remotekey setup
      then ok payment_point
      else keys.derive_public_key point payment_point

  unfoldable pub build_counterparty_commitment_info :
      ChannelSetup → ℕ → ℕ → ℕ → List HtlcInfo2 → List HtlcInfo2 → ℕ → Outcome CommitmentInfo2
  build_counterparty_commitment_info setup point to_holder to_counterparty offered received
        feerate =
      do
        delayed_pubkey ← keys.derive_public_key point keys.counterparty_delayed_payment_basepoint
        to_holder_pubkey ← static_or_derived setup point keys.holder_payment_point
        ok (
            Tx.new true to_holder_pubkey to_holder
              (keys.derive_public_revocation_key point keys.holder_revocation_basepoint)
              delayed_pubkey to_counterparty setup.holder_selected_contest_delay offered received
              feerate)

  unfoldable pub build_holder_commitment_info :
      ChannelSetup → ℕ → ℕ → ℕ → List HtlcInfo2 → List HtlcInfo2 → ℕ → Outcome CommitmentInfo2
  build_holder_commitment_info setup point to_holder to_counterparty offered received feerate = do
    delayed_pubkey ← keys.derive_public_key point keys.holder_delayed_payment_basepoint
    to_counterparty_pubkey ← static_or_derived setup point keys.counterparty_payment_point
    ok (
        Tx.new false to_counterparty_pubkey to_counterparty
          (keys.derive_public_revocation_key point keys.counterparty_revocation_basepoint)
          delayed_pubkey to_holder setup.counterparty_selected_contest_delay offered received
          feerate)

  -- The secret of the commitment before this one.
  abbrev old_secret : Channel → ℕ → Outcome (Option ℕ)
  old_secret c commitment_number =
      if leb 1 commitment_number
      then (expect_ok (get_per_commitment_secret c (commitment_number - 1)) >>= λ secret.
          ok (some secret))
      else ok none

  unfoldable pub advance_holder_commitment_state :
      Channel → ℕ → CommitmentInfo2 → CommitmentSignatures → Outcome (Channel × ℕ × Option ℕ)
  advance_holder_commitment_state c commitment_number info signatures = do
    state ←
        advance_holder p.filter c.enforcement_state (add_u64 commitment_number 1) info signatures
    let advanced : Channel = record c { enforcement_state = state }
    point ← expect_ok (get_per_commitment_point advanced (add_u64 commitment_number 1))
    secret ← old_secret advanced commitment_number
    ok (advanced, point, secret)
