-- ===== src/Enforcement/Balance.antt =====
-- The balance of a channel against the balances of its two commitments.
use vls.Prelude.{
  ℕ, ◌+◌, ◌≤◌, ◌<◌, ◌≡◌, refl, Bool, true, false, some, arith, ltb, min, u64_mod, ok, Bool-cases,
  inl, inr,
}
use vls.Tx.{CommitmentInfo2}
use vls.Tx.Balance.{outputs, claimable, claimable_balance_lem, htlc_balance_lem}
use vls.Setup.{ChannelSetup, ChannelBalance}
use vls.Enforcement.{EnforcementState}
use vls.Enforcement.Summary.{balance, channel_balance}

-- What a balance says of two commitments: the lower of the two amounts, to be claimed or, once the
-- channel is closed, swept.
pub record Lower (closed : Bool) (holder_bal counterparty_bal : ℕ) (b : ChannelBalance)
    : Type 0 where
  pub lower : b.claimable + b.sweeping ≡ min holder_bal counterparty_bal
  pub swept : closed ≡ true → b.claimable ≡ 0
  pub open_claimable : closed ≡ false → b.sweeping ≡ 0
  pub one : b.channel_count ≡ 1

module _ (known : ℕ → Bool) (setup : ChannelSetup) (small : setup.channel_value_sat < u64_mod) where
  abbrev bal : CommitmentInfo2 → ℕ
  bal info = claimable info known setup.is_outbound setup.channel_value_sat

  channel_balance-Lower :
      (closed : Bool) (holder counterparty : CommitmentInfo2)
      → outputs holder ≤ setup.channel_value_sat
      → outputs counterparty ≤ setup.channel_value_sat
      → (b : ChannelBalance) × (channel_balance known setup closed holder counterparty ≡ ok b)
        × Lower closed (bal holder) (bal counterparty) b
  unfolding channel_balance
  channel_balance-Lower closed holder counterparty h c =
      let hb =
        (claimable_balance_lem holder known setup.is_outbound setup.channel_value_sat h small).0 in
      let cb =
        (claimable_balance_lem counterparty known setup.is_outbound setup.channel_value_sat c
          small).0 in
      let ht = htlc_balance_lem holder (omega arith) (omega arith) in
      let ct = htlc_balance_lem counterparty (omega arith) (omega arith) in
      rw (hb, cb)
        (elim (Bool-cases (ltb (bal holder) (bal counterparty))) [
          | inl e ↦
              rw (e, ht)
                (
                  _,
                  refl,
                  record {
                    lower = ground (arith, e);
                    swept = λ t. ground arith;
                    open_claimable = λ t. ground arith;
                    one = refl;
                  },
                )
          | inr e ↦
              rw (e, ct)
                (
                  _,
                  refl,
                  record {
                    lower = ground (arith, e);
                    swept = λ t. ground arith;
                    open_claimable = λ t. ground arith;
                    one = refl;
                  },
                )
        ])

  -- Where the outputs of both current commitments fit the value of the channel, the balance of the
  -- channel is returned, and it is the lower of the balances of the two commitments: claimable
  -- while the channel is open, and being swept once it is closed.
  pub balance-Lower :
      (s : EnforcementState) (holder counterparty : CommitmentInfo2)
      → s.current_holder_commit_info ≡ some holder
      → s.current_counterparty_commit_info ≡ some counterparty
      → outputs holder ≤ setup.channel_value_sat
      → outputs counterparty ≤ setup.channel_value_sat
      → (b : ChannelBalance) × (balance known setup s ≡ ok b)
        × Lower s.channel_closed (bal holder) (bal counterparty) b
  unfolding balance
  balance-Lower s holder counterparty e f h c =
      rw (e, f) (channel_balance-Lower s.channel_closed holder counterparty h c)
