-- ===== src/Node/Client.antt =====
-- The requests of a channel (vls-core/src/channel.rs) on the payments of its node.
use vls.Prelude.{ℕ, ◌≡◌, refl, ◌∙◌, Bool, List, Outcome, ok, err, panic, unwrap}
use vls.Tx.{HtlcInfo2}
use vls.Enforcement.{CommitmentSignatures}
use vls.Enforcement.Summary.{Summary, BalanceDelta}
use vls.Validator.{SimplePolicy}
use vls.Channel.{Channel, Keys}
use vls.Channel.Requests.{
  settle, validate_holder_commitment_tx_phase2, sign_counterparty_commitment_tx_phase2,
}
use vls.Channel.Payments.{Paid, holder_commitment-Paid, counterparty_commitment-Paid}
use vls.Node.{NodeState}
use vls.Node.Payments.{validate_payments, apply_payments, returned, node_payments}
use vls.Node.Excess.{validate-apply_payments}
use vls.Node.History.{Reach}

settle-Reach :
    {R : Type 0} (P : NodeState → Type 0) (persist : Channel → Bool) (c : Channel) (n : NodeState)
    (o : Outcome (Channel × NodeState × R))
    → P n
    → ((d : Channel) (n' : NodeState) (r : R) → o ≡ ok (d, n', r) → P n')
    → P (settle persist c n o).node
settle-Reach P persist c n (ok (d, n', r)) s kept = kept d n' r refl
settle-Reach P persist c n (err kind) s kept = s
settle-Reach P persist c n panic s kept = s

module _ (p : SimplePolicy) (hash : ℕ → ℕ) (stored : NodeState → Bool) where
  returned-Reach :
      (channel_id : ℕ) (incoming outgoing : Summary) (n n' : NodeState) (delta : BalanceDelta)
      → validate_payments p channel_id incoming outgoing n delta ≡ ok tt
      → unwrap (returned (apply_payments p channel_id incoming outgoing n delta)) ≡ ok n'
      → Reach p hash stored n
      → Reach p hash stored n'
  returned-Reach channel_id incoming outgoing n n' delta valid h r =
      let (m, is, balanced) =
        validate-apply_payments p channel_id incoming outgoing n delta valid in
      Reach.commit n' channel_id incoming outgoing delta r valid (is ∙ rw (is) at h)

  -- The requests of any channel that validate or sign a commitment, failed ones and failures to
  -- store included, take a node from a state of its history to a state of its history: what they
  -- apply to its payments was validated before, with the same amounts, on the same state. The
  -- histories are those of `Reach`, which start at the node's creation and know no restart, and in
  -- which an invoice or a keysend is added only where what already goes out for its hash is within
  -- it.
  pub requests-Reach :
      (keys : Keys) (persist : Channel → Bool) (channel_id : ℕ) (c : Channel) (n : NodeState)
      (height point num feerate to_holder to_counterparty : ℕ) (offered received : List HtlcInfo2)
      (signatures : CommitmentSignatures)
      → Reach p hash stored n
      → Reach p hash stored
          (validate_holder_commitment_tx_phase2 p keys
            (node_payments p channel_id)
            persist
            c
            n
            height
            num
            feerate
            to_holder
            to_counterparty
            offered
            received
            signatures).node
        × Reach p hash stored
            (sign_counterparty_commitment_tx_phase2 p keys
              (node_payments p channel_id)
              persist
              c
              n
              height
              point
              num
              feerate
              to_holder
              to_counterparty
              offered
              received).node
  unfolding validate_holder_commitment_tx_phase2 sign_counterparty_commitment_tx_phase2
  requests-Reach keys persist channel_id c n height point num feerate to_holder to_counterparty
        offered received signatures r =
      let payments = node_payments p channel_id in
      let paid = λ (n' : NodeState) (q : Paid p keys payments persist n n').
        returned-Reach channel_id q.incoming q.outgoing n n' q.delta q.valid q.applied r in
      (
        settle-Reach (Reach p hash stored) persist c n _ r (λ d n' a h. paid n' (
            holder_commitment-Paid p keys payments persist c d n n' height num feerate to_holder
              to_counterparty offered received signatures a h)),
        settle-Reach (Reach p hash stored) persist c n _ r (λ d n' a h. paid n' (
            counterparty_commitment-Paid p keys payments persist c d n n' height point num feerate
              to_holder to_counterparty offered received a h)),
      )
