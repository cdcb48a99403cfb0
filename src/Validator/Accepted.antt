-- ===== src/Validator/Accepted.antt =====
-- What a commitment satisfies that passed the checks of an enforcing policy.
use vls.Prelude.{
  ℕ, ◌+◌, ◌-◌, ◌/◌, ◌≤◌, ◌<◌, ◌≡◌, ap, sym, ◌∙◌, ◌⊎◌, Bool, true, false, List, [], ◌∷◌, All, arith,
  ltb→le, u64_mod, checked_add, ok, ok_or, >>=-eq-ok, >>-eq-ok, ValidationErrorKind,
}
use vls.Policy.{PolicyFilter}
use vls.Policy.Laws.{Enforces, policy_err_if-ok}
use vls.Tx.{HtlcInfo2, CommitmentInfo2, value_to_parties, claimable_balance}
use vls.Tx.Balance.{amount, outputs, claimable, claimable_balance_lem}
use vls.Setup.{ChannelSetup, is_anchors}
use vls.Validator.{
  SimplePolicy, expected_commitment_tx_weight, estimate_feerate_per_kw, validate_expiry,
  min_chan_dust_limit_satoshis,
}
use vls.Validator.Fees.{validate_fee-ok}
use vls.Validator.Commitment.{
  validate_commitment_tx, check_htlcs, htlc_dust_limit, num_htlcs, check_initial, is_dust,
}

-- The tags of the checks that every commitment passes.
pub record Commits (f : PolicyFilter) : Type 0 where
  pub trimmed : Enforces f "policy-commitment-outputs-trimmed"
  pub count : Enforces f "policy-commitment-htlc-count-limit"
  pub inflight : Enforces f "policy-commitment-htlc-inflight-limit"
  pub fee_range : Enforces f "policy-commitment-fee-range"
  pub first_no_htlcs : Enforces f "policy-commitment-first-no-htlcs"
  pub initial_value : Enforces f "policy-commitment-initial-funding-value"

-- An output is left out, or over the dust limit.
abbrev pub Untrimmed : ℕ → Type 0
Untrimmed value_sat = (value_sat ≡ 0) ⊎ (min_chan_dust_limit_satoshis ≤ value_sat)

pub record Accepted (p : SimplePolicy) (timeout_weight success_weight : ℕ) (commit_num : ℕ)
    (setup : ChannelSetup) (info : CommitmentInfo2) : Type 0 where
  pub broadcaster_untrimmed : Untrimmed info.to_broadcaster_value_sat
  pub countersigner_untrimmed : Untrimmed info.to_countersigner_value_sat
  pub few_htlcs : num_htlcs info ≤ p.max_htlcs
  pub offered_untrimmed :
      All
        (λ (h : HtlcInfo2). htlc_dust_limit setup info timeout_weight ≤ h.value_sat)
        info.offered_htlcs
  pub received_untrimmed :
      All
        (λ (h : HtlcInfo2). htlc_dust_limit setup info success_weight ≤ h.value_sat)
        info.received_htlcs
  pub in_flight : amount info.offered_htlcs + amount info.received_htlcs ≤ p.max_htlc_value_sat
  pub covered : outputs info ≤ setup.channel_value_sat
  pub fee_in_range :
      (rate : ℕ) × (estimate_feerate_per_kw
          (setup.channel_value_sat - outputs info)
          (expected_commitment_tx_weight (is_anchors setup) (num_htlcs info))
        ≡ ok rate)
      × (p.min_feerate_per_kw ≤ rate)
      × (rate ≤ p.max_feerate_per_kw)
  pub first_no_htlcs : commit_num ≡ 0 → num_htlcs info ≡ 0
  pub first_push :
      commit_num ≡ 0
      → setup.is_outbound ≡ true
      → (value_to_parties info).1 ≤ setup.push_value_msat / 1000

pub ok_or-checked_add :
    (a b : ℕ) {c : ℕ} → ok_or ValidationErrorKind.policy (checked_add a b) ≡ ok c → c ≡ a + b
unfolding checked_add
ok_or-checked_add a b h = ground arith

not-is_dust : (value_sat : ℕ) → is_dust value_sat ≡ false → Untrimmed value_sat
not-is_dust value_sat h = ground arith

module _ (p : SimplePolicy) (c : Commits p.filter) where
  check_htlcs-ok :
      (dust_limit height total : ℕ) (hs : List HtlcInfo2) {sum : ℕ}
      → check_htlcs p dust_limit height total hs ≡ ok sum
      → (sum ≡ total + amount hs) × All (λ (h : HtlcInfo2). dust_limit ≤ h.value_sat) hs
  unfolding check_htlcs
  check_htlcs-ok dust_limit height total [] e = (ground arith, tt)
  check_htlcs-ok dust_limit height total (h ∷ hs) e =
      let (h1, r1) = >>-eq-ok (validate_expiry p h.cltv_expiry height) _ e in
      let (next, h2, r2) =
        >>=-eq-ok (ok_or ValidationErrorKind.policy (checked_add total h.value_sat)) _ r1 in
      let (h3, r3) = >>-eq-ok _ _ r2 in
      let (is, rest) = check_htlcs-ok dust_limit height next hs r3 in
      (
        omega (arith, is, ok_or-checked_add total h.value_sat h2),
        (ltb→le _ _ (policy_err_if-ok p.filter _ _ c.trimmed h3), rest),
      )

  check_initial-ok :
      (setup : ChannelSetup) (commit_num : ℕ) (info : CommitmentInfo2)
      → check_initial p setup commit_num info ≡ ok tt
      → (commit_num ≡ 0 → num_htlcs info ≡ 0)
        × (commit_num ≡ 0
            → setup.is_outbound ≡ true
            → (value_to_parties info).1 ≤ setup.push_value_msat / 1000)
  unfolding check_initial
  check_initial-ok setup commit_num info h =
      let (h1, h2) = >>-eq-ok _ _ h in
      let e1 = policy_err_if-ok p.filter _ _ c.first_no_htlcs h1 in
      let e2 = policy_err_if-ok p.filter _ _ c.initial_value h2 in
      (λ first. ground (arith, e1), λ first outbound. ground (arith, e2))

  module _ (htlc_timeout_tx_weight htlc_success_tx_weight : Bool → ℕ) where
    -- A commitment that passes the common checks under an enforcing policy has no output under the
    -- dust limit, no more HTLCs and no more value in them than the policy allows, outputs that the
    -- value of the channel covers and a fee rate in the range of the policy; a first commitment
    -- has no HTLCs, and pays the counterparty of an outbound channel no more than what was pushed.
    pub validate_commitment_tx-Accepted :
        (commit_num : ℕ) (setup : ChannelSetup) (height : ℕ) (info : CommitmentInfo2)
        → validate_commitment_tx p htlc_timeout_tx_weight htlc_success_tx_weight commit_num setup
            height info
          ≡ ok tt
        → Accepted p
            (htlc_timeout_tx_weight (is_anchors setup))
            (htlc_success_tx_weight (is_anchors setup))
            commit_num
            setup
            info
    unfolding validate_commitment_tx
    validate_commitment_tx-Accepted commit_num setup height info h =
        let (h1, r1) = >>-eq-ok _ _ h in
        let (h2, r2) = >>-eq-ok _ _ r1 in
        let (h3, r3) = >>-eq-ok _ _ r2 in
        let (offered, h4, r4) =
          >>=-eq-ok
            (check_htlcs p (htlc_dust_limit setup info (htlc_timeout_tx_weight (is_anchors setup)))
              height 0 info.offered_htlcs)
            _ r3 in
        let (htlcs, h5, r5) =
          >>=-eq-ok
            (check_htlcs p (htlc_dust_limit setup info (htlc_success_tx_weight (is_anchors setup)))
              height offered info.received_htlcs)
            _ r4 in
        let (h6, r6) = >>-eq-ok _ _ r5 in
        let (parties, h7, r7) =
          >>=-eq-ok
            (ok_or ValidationErrorKind.policy
              (checked_add info.to_broadcaster_value_sat info.to_countersigner_value_sat))
            _ r6 in
        let (all, h8, r8) =
          >>=-eq-ok (ok_or ValidationErrorKind.policy (checked_add parties htlcs)) _ r7 in
        let (h9, h10) = >>-eq-ok _ _ r8 in
        let (o, o_dust) = check_htlcs-ok _ height 0 info.offered_htlcs h4 in
        let (r, r_dust) = check_htlcs-ok _ height offered info.received_htlcs h5 in
        let total : all ≡ outputs info =
          omega (arith, o, r, ok_or-checked_add _ _ h7, ok_or-checked_add _ _ h8) in
        let fee = validate_fee-ok p _ c.fee_range setup.channel_value_sat all _ h9 in
        let first = check_initial-ok setup commit_num info h10 in
        let weight = expected_commitment_tx_weight (is_anchors setup) (num_htlcs info) in
        let i = ltb→le _ _ (policy_err_if-ok p.filter _ _ c.inflight h6) in
        record {
          broadcaster_untrimmed = not-is_dust _ (policy_err_if-ok p.filter _ _ c.trimmed h1);
          countersigner_untrimmed = not-is_dust _ (policy_err_if-ok p.filter _ _ c.trimmed h2);
          few_htlcs = ltb→le _ _ (policy_err_if-ok p.filter _ _ c.count h3);
          offered_untrimmed = o_dust;
          received_untrimmed = r_dust;
          in_flight = omega (arith, o, r, i);
          covered = omega (arith, total, fee.0);
          fee_in_range = (
            fee.1,
            ap (λ n. estimate_feerate_per_kw (setup.channel_value_sat - n) weight) (sym total)
                ∙ fee.2,
            fee.3,
            fee.4,
          );
          first_no_htlcs = first.0;
          first_push = first.1;
        }

    -- The balance of a commitment that passes the common checks under an enforcing policy is
    -- computed without a panic, and is at most the value of the channel.
    pub validate_commitment_tx-claimable_balance :
        (commit_num : ℕ) (setup : ChannelSetup) (height : ℕ) (info : CommitmentInfo2)
        (known : ℕ → Bool)
        → setup.channel_value_sat < u64_mod
        → validate_commitment_tx p htlc_timeout_tx_weight htlc_success_tx_weight commit_num setup
            height info
          ≡ ok tt
        → (balance : ℕ) × (claimable_balance info known setup.is_outbound setup.channel_value_sat
            ≡ ok balance)
          × (balance ≤ setup.channel_value_sat)
    validate_commitment_tx-claimable_balance commit_num setup height info known small h =
        let a = validate_commitment_tx-Accepted commit_num setup height info h in
        (
          claimable info known setup.is_outbound setup.channel_value_sat,
          (claimable_balance_lem info known setup.is_outbound setup.channel_value_sat a.covered
              small).0,
          (claimable_balance_lem info known setup.is_outbound setup.channel_value_sat a.covered
              small).1,
        )
