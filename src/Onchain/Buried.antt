-- ===== src/Onchain/Buried.antt =====
-- No commitment after the first one before the funding is buried or after the channel is closed on
-- chain.
use vls.Prelude.{
  ℕ, ◌+◌, ◌≤◌, ◌<◌, ◌≡◌, Bool, leb, if◌then◌else◌, none, some, ok, arith, >>-eq-ok, inl, inr,
  Option-cases, u32_mod, add_u32,
}
use vls.Policy.{
  PolicyFilter, policy_err_if, policy_error_with_filter, temporary_policy_error_with_filter,
}
use vls.Policy.Laws.{Enforces}
use vls.Tx.{CommitmentInfo2}
use vls.Setup.{ChannelSetup}
use vls.Enforcement.{EnforcementState}
use vls.Validator.{SimplePolicy}
use vls.Validator.Commitment
use vls.Monitor.{State}
use vls.Monitor.Blocks.{as_chain_state}
use vls.Monitor.Depths.{Past}
use vls.Onchain.{
  make_onchain_policy, ensure_funding_buried_and_unspent, validate_counterparty_commitment_tx,
  validate_holder_commitment_tx,
}

-- The monitor has seen the funding transaction confirmed, and no closing transaction.
pub record Open (s : State) : Type 0 where
  pub funding : (h : ℕ) × (s.funding_height ≡ some h) × (h ≤ s.height)
  pub closing : s.closing_height ≡ none

ensure_funding-Open :
    (f : PolicyFilter) (commit_num : ℕ) (s : State)
    → Enforces f "policy-commitment-spends-active-utxo"
    → s.height + 1 < u32_mod
    → Past s
    → 0 < commit_num
    → ensure_funding_buried_and_unspent (make_onchain_policy f) commit_num (as_chain_state s)
      ≡ ok tt
    → Open s
unfolding ensure_funding_buried_and_unspent make_onchain_policy as_chain_state policy_err_if
    policy_error_with_filter temporary_policy_error_with_filter add_u32
ensure_funding-Open f commit_num s e small past later h = record {
  funding = elim (Option-cases s.funding_height) [
    | inl missing ↦ absurd (ground (arith, missing, e, h, later))
    | inr (at, is) ↦ (at, is, ground (arith, is, past.funding))
  ];
  closing = elim (Option-cases s.closing_height) [
    | inl missing ↦ missing
    | inr (at, is) ↦ absurd (ground (arith, is, past.closing, e, h, later))
  ];
}

-- Under an on-chain policy that enforces it, and with the chain state of a channel's monitor whose
-- events are not past the tip, a commitment of the counterparty after the first one passes only if
-- the simple validator accepts it and the monitor has seen the funding transaction confirmed and no
-- closing transaction.
pub validate_counterparty_commitment_tx-Open :
    (p : SimplePolicy) (timeout_weight success_weight : Bool → ℕ) (estate : EnforcementState)
    (commit_num point : ℕ) (setup : ChannelSetup) (s : State) (info : CommitmentInfo2)
    → Enforces p.filter "policy-commitment-spends-active-utxo"
    → s.height + 1 < u32_mod
    → Past s
    → 0 < commit_num
    → validate_counterparty_commitment_tx p timeout_weight success_weight estate commit_num point
        setup
        (as_chain_state s)
        info
      ≡ ok tt
    → Open s
      × (Commitment.validate_counterparty_commitment_tx p timeout_weight success_weight estate
            commit_num point setup s.height info
          ≡ ok tt)
unfolding validate_counterparty_commitment_tx as_chain_state
validate_counterparty_commitment_tx-Open p timeout_weight success_weight estate commit_num point
      setup s info e small past later h =
    let (buried, inner) =
      >>-eq-ok
        (ensure_funding_buried_and_unspent (make_onchain_policy p.filter) commit_num
          (as_chain_state s))
        _ h in
    (ensure_funding-Open p.filter commit_num s e small past later buried, inner)

-- The same for a new commitment of the holder; one that was validated before is not held to it.
pub validate_holder_commitment_tx-Open :
    (p : SimplePolicy) (timeout_weight success_weight : Bool → ℕ) (estate : EnforcementState)
    (commit_num : ℕ) (setup : ChannelSetup) (s : State) (info : CommitmentInfo2)
    → Enforces p.filter "policy-commitment-spends-active-utxo"
    → s.height + 1 < u32_mod
    → Past s
    → 0 < commit_num
    → estate.next_holder_commit_num ≤ commit_num
    → validate_holder_commitment_tx p timeout_weight success_weight estate commit_num setup
        (as_chain_state s)
        info
      ≡ ok tt
    → Open s
      × (Commitment.validate_holder_commitment_tx p timeout_weight success_weight estate commit_num
            setup s.height info
          ≡ ok tt)
unfolding validate_holder_commitment_tx as_chain_state
validate_holder_commitment_tx-Open p timeout_weight success_weight estate commit_num setup s info e
      small past later new h =
    let (buried, inner) =
      >>-eq-ok
        (if leb estate.next_holder_commit_num commit_num
          then ensure_funding_buried_and_unspent (make_onchain_policy p.filter) commit_num
              (as_chain_state s)
          else ok tt)
        _ h in
    (
      ensure_funding-Open p.filter commit_num s e small past later (ground (arith, new, buried)),
      inner,
    )
