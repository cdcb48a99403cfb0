-- ===== src/Channel/Effects.antt =====
-- What the requests of a channel do to the holder's commitment number and to the closed flag.
use vls.Prelude.{
  ℕ, ◌+◌, ◌≤◌, ◌<◌, ◌≡◌, ◌⊎◌, Bool, Option, none, some, List, arith, add_u64, add_u64_eq, ok,
  unwrap, >>-eq-ok, >>=-eq-ok,
}
use vls.Policy.{PolicyFilter}
use vls.Policy.Laws.{Enforces, policy_err_if-ok}
use vls.Tx.{HtlcInfo2, CommitmentInfo2}
use vls.Enforcement.{
  EnforcementState, CommitmentSignatures, advance_holder, advance_counterparty, advance_revocation,
  set_next_holder_commit_num, set_next_counterparty_commit_num, set_next_counterparty_revoke_num,
}
use vls.Enforcement.Numbers.{num_end}
use vls.Enforcement.Summary.{payments_summary, incoming_payments_summary, claimable_balances}
use vls.Validator.{SimplePolicy, validate_channel_value}
use vls.Validator.Commitment.{validate_counterparty_commitment_tx}
use vls.Validator.Holder.{Holds}
use vls.Channel.{
  Channel, Keys, get_per_commitment_point, get_per_commitment_secret,
  build_counterparty_commitment_info, advance_holder_commitment_state, expect_ok, old_secret,
}
use vls.Channel.Requests.{Payments, counterparty_commitment, revocation_secret, revocation}

-- The tags under which the holder's secrets and signatures are guarded.
pub record Guards (f : PolicyFilter) : Type 0 where
  pub holds : Holds f
  pub signed_before : Enforces f "policy-revoke-new-commitment-signed"
  pub other : Enforces f "policy-other"

-- The part of a channel that the holder's side depends on is the same.
pub record SameHolder (c d : Channel) : Type 0 where
  pub num : d.enforcement_state.next_holder_commit_num ≡ c.enforcement_state.next_holder_commit_num
  pub closed : d.enforcement_state.channel_closed ≡ c.enforcement_state.channel_closed

module _ (f : PolicyFilter) where
  set_next_counterparty_commit_num-holder :
      (s : EnforcementState) (num point : ℕ) (info : CommitmentInfo2) (t : EnforcementState)
      → set_next_counterparty_commit_num s num point info ≡ ok t
      → (t.next_holder_commit_num ≡ s.next_holder_commit_num)
        × (t.channel_closed ≡ s.channel_closed)
  unfolding set_next_counterparty_commit_num
  set_next_counterparty_commit_num-holder s num point info t h = ground arith

  advance_counterparty-holder :
      (s : EnforcementState) (num point : ℕ) (info : CommitmentInfo2) (t : EnforcementState)
      → advance_counterparty f s num point info ≡ ok t
      → (t.next_holder_commit_num ≡ s.next_holder_commit_num)
        × (t.channel_closed ≡ s.channel_closed)
  unfolding advance_counterparty
  advance_counterparty-holder s num point info t h =
      ground (arith, set_next_counterparty_commit_num-holder s num point info t)

  advance_revocation-holder :
      (s : EnforcementState) (num : ℕ) (t : EnforcementState)
      → advance_revocation f s num ≡ ok t
      → (t.next_holder_commit_num ≡ s.next_holder_commit_num)
        × (t.channel_closed ≡ s.channel_closed)
  unfolding advance_revocation set_next_counterparty_revoke_num
  advance_revocation-holder s num t h = ground arith

module _ (p : SimplePolicy) (keys : Keys) (g : Guards p.filter) where
  -- A secret that is returned under an enforcing policy is of a commitment that is at least two
  -- before the one to be validated next.
  pub get_per_commitment_secret-old :
      (c : Channel) (num : ℕ) {secret : ℕ}
      → num < num_end
      → get_per_commitment_secret p keys c num ≡ ok secret
      → num + 2 ≤ c.enforcement_state.next_holder_commit_num
  unfolding get_per_commitment_secret
  get_per_commitment_secret-old c num small h =
      let (h1, r1) = >>-eq-ok _ _ h in
      let e = policy_err_if-ok p.filter _ _ g.signed_before h1 in
      ground (arith, e, add_u64_eq num 2)

  advance_holder-num :
      (s : EnforcementState) (num : ℕ) (info : CommitmentInfo2) (signatures : CommitmentSignatures)
      (t : EnforcementState)
      → advance_holder p.filter s num info signatures ≡ ok t
      → (t.next_holder_commit_num ≡ num)
        × (t.channel_closed ≡ s.channel_closed)
        × ((num ≡ s.next_holder_commit_num) ⊎ (num ≡ add_u64 s.next_holder_commit_num 1))
  unfolding advance_holder set_next_holder_commit_num
  advance_holder-num s num info signatures t h =
      let (h1, r1) = >>-eq-ok _ _ h in
      let e = policy_err_if-ok p.filter _ _ g.signed_before h1 in ground (arith, e, r1)

  old_secret-pos : (c : Channel) (num x : ℕ) → old_secret p keys c num ≡ ok (some x) → 1 ≤ num
  old_secret-pos c num x h = ground arith

  pub advance_holder_commitment_state-ok :
      (c : Channel) (num : ℕ) (info : CommitmentInfo2) (signatures : CommitmentSignatures)
      {done : Channel × ℕ × Option ℕ}
      → num < num_end
      → c.enforcement_state.next_holder_commit_num ≤ num_end
      → advance_holder_commitment_state p keys c num info signatures ≡ ok done
      → (done.0.enforcement_state.next_holder_commit_num ≡ num + 1)
        × (done.0.enforcement_state.channel_closed ≡ c.enforcement_state.channel_closed)
        × ((num + 1 ≡ c.enforcement_state.next_holder_commit_num)
            ⊎ (num ≡ c.enforcement_state.next_holder_commit_num))
        × ((secret : ℕ) → done.2 ≡ some secret → 1 ≤ num)
  unfolding advance_holder_commitment_state
  advance_holder_commitment_state-ok c num info signatures {done} small bound h =
      let s = c.enforcement_state in
      let (state, h1, r1) =
        >>=-eq-ok (advance_holder p.filter s (add_u64 num 1) info signatures) _ h in
      let (num_is, closed_is, by) = advance_holder-num s (add_u64 num 1) info signatures state h1 in
      let (point, h2, r2) =
        >>=-eq-ok
          (expect_ok (
            get_per_commitment_point p keys (record c { enforcement_state = state })
              (add_u64 num 1)))
          _ r1 in
      let (secret, h3, r3) =
        >>=-eq-ok (old_secret p keys (record c { enforcement_state = state }) num) _ r2 in
      let pos = old_secret-pos (record c { enforcement_state = state }) num in
      (
        ground (arith, num_is, r3, add_u64_eq num 1),
        ground (arith, closed_is, r3),
        ground (arith, by, add_u64_eq num 1, add_u64_eq s.next_holder_commit_num 1),
        λ x e. pos x (ground (arith, h3, r3, e)),
      )

module _ (p : SimplePolicy) (keys : Keys) {S : Type 0} (payments : Payments S)
    (persist : Channel → Bool) where
  pub counterparty_commitment-holder :
      (c d : Channel) (n n' : S) (height point num feerate to_holder to_counterparty : ℕ)
      (offered received : List HtlcInfo2) {signed : ℕ × List ℕ}
      → counterparty_commitment p keys payments persist c n height point num feerate to_holder
          to_counterparty offered received
        ≡ ok (d, n', signed)
      → SameHolder c d
  unfolding counterparty_commitment
  counterparty_commitment-holder c d n n' height point num feerate to_holder to_counterparty offered
        received h =
      let s = c.enforcement_state in
      let (h1, r1) = >>-eq-ok (validate_channel_value p c.setup) _ h in
      let (info, h2, r2) =
        >>=-eq-ok
          (build_counterparty_commitment_info p keys c.setup point to_holder to_counterparty offered
            received feerate)
          _ r1 in
      let (delta, h3, r3) =
        >>=-eq-ok (claimable_balances (payments.has_preimage n) c.setup s none (some info)) _ r2 in
      let (h4, r4) =
        >>-eq-ok
          (validate_counterparty_commitment_tx p keys.htlc_timeout_tx_weight
            keys.htlc_success_tx_weight s num point c.setup height info)
          _ r3 in
      let (sig, h5, r5) = >>=-eq-ok (keys.sign_counterparty_commitment point num info) _ r4 in
      let (h6, r6) =
        >>-eq-ok
          (payments.validate_payments n (incoming_payments_summary s none (some info))
            (payments_summary s none (some info)) delta)
          _ r5 in
      let (state, h7, r7) =
        >>=-eq-ok (advance_counterparty p.filter s (add_u64 num 1) point info) _ r6 in
      let (m, h8, r8) =
        >>=-eq-ok
          (unwrap (
            payments.apply_payments n (incoming_payments_summary s none (some info))
              (payments_summary s none (some info)) delta))
          _ r7 in
      let same = advance_counterparty-holder p.filter s (add_u64 num 1) point info state h7 in
      record { num = ground (arith, same, r8); closed = ground (arith, same, r8) }

  pub revocation_secret-holder :
      (c d : Channel) (num secret : ℕ)
      → revocation_secret p keys payments persist c num secret ≡ ok d
      → SameHolder c d
  unfolding revocation_secret
  revocation_secret-holder c d num secret h = record { num = ground arith; closed = ground arith }

  pub revocation-holder :
      (c d : Channel) (n n' : S) (num : ℕ) {done : Unit {0}}
      → revocation p keys payments persist c n num ≡ ok (d, n', done)
      → SameHolder c d
  unfolding revocation
  revocation-holder c d n n' num h =
      let s = c.enforcement_state in
      let (state, h1, r1) = >>=-eq-ok (advance_revocation p.filter s (add_u64 num 1)) _ h in
      let same = advance_revocation-holder p.filter s (add_u64 num 1) state h1 in
      record { num = ground (arith, same, r1); closed = ground (arith, same, r1) }
