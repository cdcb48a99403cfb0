-- ===== src/Channel/Signed.antt =====
-- What the holder signs is what was validated: the requests that validate and sign the holder's own
-- commitments, one after the other (vls-core/src/channel.rs).
use vls.Prelude.{
  ℕ, ◌≤◌, ◌<◌, ◌≡◌, ap, sym, ◌∙◌, Bool, true, Option, none, some, List, arith, if◌then◌else◌,
  add_u64, subst, Outcome, ok, unwrap, >>-eq-ok, >>=-eq-ok, ok_inj,
}
use vls.Tx.{HtlcInfo2, CommitmentInfo2}
use vls.Policy.{PolicyFilter}
use vls.Setup.{ChannelSetup, is_zero_fee_htlc}
use vls.Enforcement.{
  EnforcementState, CommitmentSignatures, current_holder_info, advance_holder,
  set_next_holder_commit_num, get_current_holder_commitment_info,
}
use vls.Enforcement.Numbers.{num_end}
use vls.Enforcement.Summary.{payments_summary, incoming_payments_summary, claimable_balances}
use vls.Validator.{SimplePolicy}
use vls.Validator.Commitment.{validate_holder_commitment_tx, validate_commitment_tx}
use vls.Validator.Holder.{unwrap-ok, validate_holder_commitment_tx-ok}
use vls.Channel.{
  Channel, Keys, get_per_commitment_point, build_holder_commitment_info,
  advance_holder_commitment_state, expect_ok, old_secret,
}
use vls.Channel.Requests.{Payments, holder_commitment, holder_signature}
use vls.Channel.Effects.{Guards}
use vls.Channel.HolderEffects.{holder_commitment-ok, current_holder_info-last}

module _ (p : SimplePolicy) (keys : Keys) where
  advance_holder_commitment_state-stored :
      (c : Channel) (num : ℕ) (info : CommitmentInfo2) (signatures : CommitmentSignatures)
      {done : Channel × ℕ × Option ℕ}
      → advance_holder_commitment_state p keys c num info signatures ≡ ok done
      → (done.0.enforcement_state.current_holder_commit_info ≡ some info) × (done.0.setup ≡ c.setup)
  unfolding advance_holder_commitment_state advance_holder set_next_holder_commit_num
  advance_holder_commitment_state-stored c num info signatures {done} h =
      let s = c.enforcement_state in
      let (state, h1, r1) =
        >>=-eq-ok (advance_holder p.filter s (add_u64 num 1) info signatures) _ h in
      let (point, h2, r2) =
        >>=-eq-ok
          (expect_ok (
            get_per_commitment_point p keys (record c { enforcement_state = state })
              (add_u64 num 1)))
          _ r1 in
      let (secret, h3, r3) =
        >>=-eq-ok (old_secret p keys (record c { enforcement_state = state }) num) _ r2 in
      let (h4, made) = >>-eq-ok _ _ h1 in
      (
        ap (λ t. t.0.enforcement_state.current_holder_commit_info) (sym (ok_inj r3))
            ∙ ap (λ t. t.current_holder_commit_info) (sym (ok_inj made)),
        ap (λ t. t.0.setup) (sym (ok_inj r3)),
      )

  -- The point that a channel returns for a number does not depend on the channel.
  get_per_commitment_point-same :
      (c d : Channel) (num : ℕ) {x y : ℕ}
      → get_per_commitment_point p keys c num ≡ ok x
      → get_per_commitment_point p keys d num ≡ ok y
      → x ≡ y
  unfolding get_per_commitment_point
  get_per_commitment_point-same c d num a b = ground (arith, a, b)

-- The contents that a validation builds, checks and stores.
pub record Checked (p : SimplePolicy) (keys : Keys) (c d : Channel)
    (height num feerate to_holder to_counterparty : ℕ) (offered received : List HtlcInfo2)
    (signatures : CommitmentSignatures) : Type 0 where
  pub point : ℕ
  pub info : CommitmentInfo2
  pub right_point : get_per_commitment_point p keys c num ≡ ok point
  pub built :
      build_holder_commitment_info p keys c.setup point to_holder to_counterparty offered received
        feerate
      ≡ ok info
  pub validated :
      validate_commitment_tx p keys.htlc_timeout_tx_weight keys.htlc_success_tx_weight num c.setup
        height info
      ≡ ok tt
  pub countersigned : keys.check_holder_tx_signatures point num info signatures ≡ ok tt
  pub stored : d.enforcement_state.current_holder_commit_info ≡ some info
  pub setup : d.setup ≡ c.setup

current_holder_info-stored :
    (f : PolicyFilter) (s : EnforcementState) (num : ℕ) {info : CommitmentInfo2}
    → current_holder_info f s num ≡ ok info
    → s.current_holder_commit_info ≡ some info
unfolding current_holder_info get_current_holder_commitment_info
current_holder_info-stored f s num h = unwrap-ok s.current_holder_commit_info (>>-eq-ok _ _ h).1

same_arguments :
    (sign : ℕ → ℕ → ℕ → CommitmentInfo2 → Outcome (ℕ × List ℕ))
    (rate : ChannelSetup → CommitmentInfo2 → ℕ) {point point' num num' : ℕ}
    {setup setup' : ChannelSetup} {info info' : CommitmentInfo2} {sig sig' : ℕ × List ℕ}
    → point ≡ point'
    → num' ≡ num
    → setup' ≡ setup
    → some info' ≡ some info
    → sig' ≡ sig
    → sign point' num' (rate setup' info') info' ≡ ok sig'
    → sign point num (rate setup info) info ≡ ok sig
same_arguments sign rate a b c d e h = cc

-- The fee rate that the HTLCs of a commitment are signed with.
abbrev pub signed_feerate : ChannelSetup → CommitmentInfo2 → ℕ
signed_feerate setup info = if is_zero_fee_htlc setup then 0 else info.feerate_per_kw

module _ (p : SimplePolicy) (keys : Keys) {S : Type 0} (payments : Payments S)
    (persist : Channel → Bool) (g : Guards p.filter) where
  holder_commitment-Checked :
      (c d : Channel) (n n' : S) (height num feerate to_holder to_counterparty : ℕ)
      (offered received : List HtlcInfo2) (signatures : CommitmentSignatures) (r : ℕ × Option ℕ)
      → num < num_end
      → holder_commitment p keys payments persist c n height num feerate to_holder to_counterparty
          offered received signatures
        ≡ ok (d, n', r)
      → Checked p keys c d height num feerate to_holder to_counterparty offered received signatures
  unfolding holder_commitment
  holder_commitment-Checked c d n n' height num feerate to_holder to_counterparty offered received
        signatures r small h =
      let s = c.enforcement_state in
      let (point, h1, r1) = >>=-eq-ok (get_per_commitment_point p keys c num) _ h in
      let (info, h2, r2) =
        >>=-eq-ok
          (build_holder_commitment_info p keys c.setup point to_holder to_counterparty offered
            received feerate)
          _ r1 in
      let (delta, h3, r3) =
        >>=-eq-ok (claimable_balances (payments.has_preimage n) c.setup s (some info) none) _ r2 in
      let (h4, r4) =
        >>-eq-ok
          (validate_holder_commitment_tx p keys.htlc_timeout_tx_weight keys.htlc_success_tx_weight s
            num c.setup height info)
          _ r3 in
      let (h5, r5) = >>-eq-ok (keys.check_holder_tx_signatures point num info signatures) _ r4 in
      let (h6, r6) =
        >>-eq-ok
          (payments.validate_payments n (incoming_payments_summary s (some info) none)
            (payments_summary s (some info) none) delta)
          _ r5 in
      let (done, h7, r7) =
        >>=-eq-ok (advance_holder_commitment_state p keys c num info signatures) _ r6 in
      let (m, h8, r8) =
        >>=-eq-ok
          (unwrap (
            payments.apply_payments n (incoming_payments_summary s (some info) none)
              (payments_summary s (some info) none) delta))
          _ r7 in
      let valid =
        validate_holder_commitment_tx-ok p keys.htlc_timeout_tx_weight keys.htlc_success_tx_weight
          g.holds s num c.setup height info small h4 in
      let kept = advance_holder_commitment_state-stored p keys c num info signatures h7 in
      let is : d ≡ done.0 = ap (λ t. t.0) (sym (ok_inj r8)) in
      record {
        point = point;
        info = info;
        right_point = h1;
        built = h2;
        validated = valid.0;
        countersigned = h5;
        stored = ap (λ x. x.enforcement_state.current_holder_commit_info) is ∙ kept.0;
        setup = ap (λ x. x.setup) is ∙ kept.1;
      }

  -- Where a channel signs a commitment of the holder just after it validated one, under an
  -- enforcing policy, with numbers below 2 ^ 48, the two have the same number, and what is signed
  -- is what was validated: the contents that were built from the request, that passed the common
  -- checks and of which the counterparty's signatures were checked, with the same point. The
  -- signature closes the channel.
  pub holder_commitment-holder_signature :
      (c d e : Channel) (n n' m m' : S)
      (height num feerate to_holder to_counterparty signed_num : ℕ)
      (offered received : List HtlcInfo2) (signatures : CommitmentSignatures) (r : ℕ × Option ℕ)
      (signed : ℕ × List ℕ)
      → num < num_end
      → signed_num < num_end
      → c.enforcement_state.next_holder_commit_num ≤ num_end
      → holder_commitment p keys payments persist c n height num feerate to_holder to_counterparty
          offered received signatures
        ≡ ok (d, n', r)
      → holder_signature p keys payments persist d m signed_num ≡ ok (e, m', signed)
      → (checked : Checked p keys c d height num feerate to_holder to_counterparty offered received
          signatures)
        × (signed_num ≡ num)
        × (keys.sign_holder_commitment checked.point num
              (signed_feerate c.setup checked.info)
              checked.info
            ≡ ok signed)
        × (e.enforcement_state.channel_closed ≡ true)
  unfolding holder_signature
  holder_commitment-holder_signature c d e n n' m m' height num feerate to_holder to_counterparty
        signed_num offered received signatures r signed small small' bound h k =
      let moved =
        holder_commitment-ok p keys payments persist g c d n n' height num feerate to_holder
          to_counterparty offered received signatures small bound h in
      let checked =
        holder_commitment-Checked c d n n' height num feerate to_holder to_counterparty offered
          received signatures r small h in
      let (current, k1, q1) =
        >>=-eq-ok (current_holder_info p.filter d.enforcement_state signed_num) _ k in
      let (point, k2, q2) = >>=-eq-ok (get_per_commitment_point p keys d signed_num) _ q1 in
      let (sig, k3, q3) =
        >>=-eq-ok
          (keys.sign_holder_commitment point signed_num (signed_feerate d.setup current) current) _
          q2 in
      let last =
        current_holder_info-last p keys payments persist g d.enforcement_state signed_num k1
          small' in
      let number : signed_num ≡ num = omega (arith, last, moved.0) in
      let contents : some current ≡ some checked.info =
        sym (current_holder_info-stored p.filter d.enforcement_state signed_num k1)
        ∙ checked.stored in
      let same_point : checked.point ≡ point =
        get_per_commitment_point-same p keys c d num checked.right_point
          (subst (λ x. get_per_commitment_point p keys d x ≡ ok point) number k2) in
      let same_sig : sig ≡ signed = ap (λ t. t.2) (ok_inj q3) in
      let setup = checked.setup in
      (
        checked,
        number,
        same_arguments keys.sign_holder_commitment signed_feerate same_point number setup contents
            same_sig k3,
        ap (λ t. t.0.enforcement_state.channel_closed) (sym (ok_inj q3)),
      )
