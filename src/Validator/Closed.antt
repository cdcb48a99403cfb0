-- ===== src/Validator/Closed.antt =====
-- What a mutual close satisfies that passed the checks of an enforcing policy.
use vls.Prelude.{
  ℕ, ◌+◌, ◌-◌, ◌≤◌, ◌<◌, ◌≡◌, refl, subst, sym, ap, ◌∙◌, ◌⊎◌, inl, inr, Bool, true, false, not,
  ◌&&◌, Option, none, some, is_some, List, arith, ltb, checked_add, ok, ok_or, >>=-eq-ok, >>-eq-ok,
  ValidationErrorKind, if-eq-ok, Bool-cases, ==_iff, ok_inj,
}
use vls.Policy.{PolicyFilter, policy_err_if}
use vls.Policy.Laws.{Enforces, policy_err_if-ok}
use vls.Tx.{CommitmentInfo2}
use vls.Setup.{ChannelSetup}
use vls.Enforcement.{EnforcementState}
use vls.Validator.{
  SimplePolicy, estimate_feerate_per_kw, outside_epsilon_range, check_shutdown_script,
}
use vls.Validator.Fees.{validate_fee-ok}
use vls.Validator.Commitment.{num_htlcs}
use vls.Validator.Accepted.{ok_or-checked_add}
use vls.Validator.Closing.{
  validate_mutual_close_tx, check_close_scripts, check_close_values, htlcs_is_empty, same_script,
  mutual_close_tx_weight,
}

-- The tags of the checks of a mutual close.
pub record Closes (f : PolicyFilter) : Type 0 where
  pub destination : Enforces f "policy-mutual-destination-allowlisted"
  pub no_htlcs : Enforces f "policy-mutual-no-pending-htlcs"
  pub fee_range : Enforces f "policy-mutual-fee-range"
  pub value : Enforces f "policy-mutual-value-matches-commitment"

-- Two values differ by no more than the policy's epsilon.
abbrev pub Near : SimplePolicy → ℕ → ℕ → Type 0
Near p a b = (a ≤ b + p.epsilon_sat) × (b ≤ a + p.epsilon_sat)

pub record Closed (p : SimplePolicy) (can_spend : List ℕ → ℕ → Option Bool)
    (allowlist_contains : ℕ → List ℕ → Bool) (setup : ChannelSetup)
    (holder_info counterparty_info : CommitmentInfo2) (to_holder to_counterparty weight : ℕ)
    (holder_script counterparty_script : Option ℕ) (path : List ℕ) : Type 0 where
  pub no_htlcs : (num_htlcs holder_info ≡ 0) × (num_htlcs counterparty_info ≡ 0)
  pub holder_paid : 0 < to_holder → is_some holder_script ≡ true
  pub counterparty_paid : 0 < to_counterparty → is_some counterparty_script ≡ true
  pub upfront :
      (script : ℕ)
      → setup.holder_shutdown_script ≡ some script
      → 0 < to_holder
      → holder_script ≡ some script
  pub ours :
      (script : ℕ)
      → holder_script ≡ some script
      → (can_spend path script ≡ some true) ⊎ (allowlist_contains script path ≡ true)
  pub covered : to_holder + to_counterparty ≤ setup.channel_value_sat
  pub fee_in_range :
      (rate : ℕ) × (estimate_feerate_per_kw
          (setup.channel_value_sat - (to_holder + to_counterparty))
          weight
        ≡ ok rate)
      × (p.min_feerate_per_kw ≤ rate)
      × (rate ≤ p.max_feerate_per_kw)
  pub counterparty_value :
      setup.is_outbound ≡ true
      → Near p to_counterparty counterparty_info.to_broadcaster_value_sat
        × Near p to_counterparty holder_info.to_countersigner_value_sat
  pub holder_value :
      setup.is_outbound ≡ false
      → Near p to_holder holder_info.to_broadcaster_value_sat
        × Near p to_holder counterparty_info.to_countersigner_value_sat

htlcs_is_empty-num_htlcs :
    (info : CommitmentInfo2) → htlcs_is_empty info ≡ true → num_htlcs info ≡ 0
htlcs_is_empty-num_htlcs info h = ground arith

same_script-true : (a b : Option ℕ) → same_script a b ≡ true → a ≡ b
same_script-true none none h = refl
same_script-true (some a) (some b) h = ap some ((==_iff a b).0 h)
same_script-true none (some b) h = cc
same_script-true (some a) none h = cc

shutdown_checked :
    (o : Option ℕ) (same : Option ℕ → Bool) (value : ℕ)
    → 0 < value
    → is_some o ≡ true
    → ((is_some o && ltb 0 value) && not (same o)) ≡ false
    → same o ≡ true
shutdown_checked o same value pos is h = ground arith

pub ok_or-eq {ℓ} :
    {A : Type ℓ} (kind : ValidationErrorKind) (o : Option A) {a : A}
    → ok_or kind o ≡ ok a
    → o ≡ some a
ok_or-eq kind none h = cc
ok_or-eq kind (some b) h = ap some (ok_inj h)

module _ (p : SimplePolicy) where
  outside_epsilon_range-Near : (a b : ℕ) → outside_epsilon_range p a b ≡ false → Near p a b
  unfolding outside_epsilon_range
  outside_epsilon_range-Near a b h = ground arith

  module _ (c : Closes p.filter) where
    values-Near :
        (a b : ℕ)
        → policy_err_if p.filter
            (outside_epsilon_range p a b)
            "policy-mutual-value-matches-commitment"
          ≡ ok tt
        → Near p a b
    values-Near a b h = outside_epsilon_range-Near a b (policy_err_if-ok p.filter _ _ c.value h)

    check_shutdown_script-ok :
        (can_spend : List ℕ → ℕ → Option Bool) (allowlist_contains : ℕ → List ℕ → Bool) (script : ℕ)
        (path : List ℕ)
        → check_shutdown_script p can_spend allowlist_contains (some script) path ≡ ok tt
        → (can_spend path script ≡ some true) ⊎ (allowlist_contains script path ≡ true)
    unfolding check_shutdown_script
    check_shutdown_script-ok can_spend allowlist_contains script path h =
        let (spendable, h1, h2) =
          >>=-eq-ok (ok_or ValidationErrorKind.policy (can_spend path script)) _ h in
        let e = policy_err_if-ok p.filter _ _ c.destination h2 in
        elim (Bool-cases spendable) [
          | inl true_is ↦ inl (ok_or-eq _ (can_spend path script) h1 ∙ ap some true_is)
          | inr false_is ↦ inr (ground (arith, e, false_is))
        ]

    check_close_scripts-ok :
        (setup : ChannelSetup) (to_holder to_counterparty : ℕ) (hs cs : Option ℕ)
        → check_close_scripts p setup to_holder to_counterparty hs cs ≡ ok tt
        → (0 < to_holder → is_some hs ≡ true)
          × (0 < to_counterparty → is_some cs ≡ true)
          × ((script : ℕ)
              → setup.holder_shutdown_script ≡ some script
              → 0 < to_holder
              → hs ≡ some script)
    unfolding check_close_scripts
    check_close_scripts-ok setup to_holder to_counterparty hs cs h =
        let (h1, r1) = >>-eq-ok _ _ h in
        let (h2, h3) = >>-eq-ok _ _ r1 in
        let e1 = policy_err_if-ok p.filter _ _ c.destination h1 in
        let e2 = policy_err_if-ok p.filter _ _ c.destination h2 in
        let e3 = policy_err_if-ok p.filter _ _ c.destination h3 in
        (
          λ pos. ground (arith, e1),
          λ pos. ground (arith, e2),
          λ script is pos. same_script-true hs (some script) (
              shutdown_checked (some script) (λ o. same_script hs o) to_holder pos refl
                (subst (λ o. ((is_some o && ltb 0 to_holder) && not (same_script hs o)) ≡ false) is
                  e3)),
        )

    check_close_values-ok :
        (setup : ChannelSetup) (hi ci : CommitmentInfo2) (to_holder to_counterparty : ℕ)
        → check_close_values p setup hi ci to_holder to_counterparty ≡ ok tt
        → (setup.is_outbound ≡ true
            → Near p to_counterparty ci.to_broadcaster_value_sat
              × Near p to_counterparty hi.to_countersigner_value_sat)
          × (setup.is_outbound ≡ false
              → Near p to_holder hi.to_broadcaster_value_sat
                × Near p to_holder ci.to_countersigner_value_sat)
    unfolding check_close_values
    check_close_values-ok setup hi ci to_holder to_counterparty h =
        elim (if-eq-ok setup.is_outbound _ _ h) [
          | inl (outbound, r) ↦
              let (h1, h2) = >>-eq-ok _ _ r in
              (
                λ same. (values-Near _ _ h1, values-Near _ _ h2),
                λ inbound. absurd (ground (arith, outbound, inbound)),
              )
          | inr (inbound, r) ↦
              let (h1, h2) = >>-eq-ok _ _ r in
              (
                λ outbound. absurd (ground (arith, outbound, inbound)),
                λ same. (values-Near _ _ h1, values-Near _ _ h2),
              )
        ]

    module _ (can_spend : List ℕ → ℕ → Option Bool) (allowlist_contains : ℕ → List ℕ → Bool)
        (closing_weight : ℕ → ℕ → Option ℕ → Option ℕ → ℕ → ℕ) where
      -- A mutual close that passes under an enforcing policy closes a channel with a current
      -- commitment of each side, and neither has an HTLC. Each side that has a value has a script,
      -- the holder's is the one agreed on upfront where there is one, and the wallet can spend it
      -- or has it in the allowlist. The channel's value covers both values, with a fee rate in the
      -- range of the policy, and the value of the side that does not fund the channel is within
      -- the policy's epsilon of its value in both commitments.
      pub validate_mutual_close_tx-Closed :
          (setup : ChannelSetup) (s : EnforcementState) (to_holder to_counterparty : ℕ)
          (holder_script counterparty_script : Option ℕ) (path : List ℕ)
          → validate_mutual_close_tx p can_spend allowlist_contains closing_weight setup s to_holder
              to_counterparty holder_script counterparty_script path
            ≡ ok tt
          → (hi : CommitmentInfo2) × (ci : CommitmentInfo2) × (s.current_holder_commit_info
              ≡ some hi)
            × (s.current_counterparty_commit_info ≡ some ci)
            × Closed p can_spend allowlist_contains setup hi ci to_holder to_counterparty
                (mutual_close_tx_weight (
                  closing_weight to_holder to_counterparty holder_script counterparty_script
                    setup.funding_outpoint))
                holder_script
                counterparty_script
                path
      unfolding validate_mutual_close_tx
      validate_mutual_close_tx-Closed setup s to_holder to_counterparty hs cs path h =
          let (hi, h1, r1) =
            >>=-eq-ok (ok_or ValidationErrorKind.policy s.current_holder_commit_info) _ h in
          let (ci, h2, r2) =
            >>=-eq-ok (ok_or ValidationErrorKind.policy s.current_counterparty_commit_info) _ r1 in
          let (h3, r3) = >>-eq-ok _ _ r2 in
          let (h4, r4) = >>-eq-ok _ _ r3 in
          let (sum, h5, r5) =
            >>=-eq-ok (ok_or ValidationErrorKind.policy (checked_add to_holder to_counterparty)) _
              r4 in
          let (h6, r6) = >>-eq-ok _ _ r5 in
          let (h7, h8) = >>-eq-ok _ _ r6 in
          let total = ok_or-checked_add to_holder to_counterparty h5 in
          let scripts = check_close_scripts-ok setup to_holder to_counterparty hs cs h3 in
          let e = policy_err_if-ok p.filter _ _ c.no_htlcs h4 in
          let weight =
            mutual_close_tx_weight
              (closing_weight to_holder to_counterparty hs cs setup.funding_outpoint) in
          let fee = validate_fee-ok p _ c.fee_range setup.channel_value_sat sum weight h6 in
          let values = check_close_values-ok setup hi ci to_holder to_counterparty h7 in
          (
            hi,
            ci,
            ok_or-eq _ _ h1,
            ok_or-eq _ _ h2,
            record {
              no_htlcs = (
                htlcs_is_empty-num_htlcs hi (ground (arith, e)),
                htlcs_is_empty-num_htlcs ci (ground (arith, e)),
              );
              holder_paid = scripts.0;
              counterparty_paid = scripts.1;
              upfront = scripts.2;
              ours = λ script is.
                  check_shutdown_script-ok can_spend allowlist_contains script path (
                    subst (λ o. check_shutdown_script p can_spend allowlist_contains o path ≡ ok tt)
                      is h8);
              covered = omega (arith, total, fee.0);
              fee_in_range = (
                fee.1,
                ap (λ n. estimate_feerate_per_kw (setup.channel_value_sat - n) weight) (sym total)
                    ∙ fee.2,
                fee.3,
                fee.4,
              );
              counterparty_value = values.0;
              holder_value = values.1;
            },
          )
