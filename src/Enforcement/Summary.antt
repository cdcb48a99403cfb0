-- ===== src/Enforcement/Summary.antt =====
-- The payments in flight and the balances of an `EnforcementState`
-- (vls-core/src/policy/validator.rs). A map from payment hashes to amounts is a list of pairs
-- with at most one pair for a hash; the order, which the source's map hides, is that of insertion.
use vls.Prelude.{
  ℕ, Bool, ◌||◌, not, Option, none, some, is_some, List, [], ◌∷◌, ltb, ◌==◌, min, max, add_u64,
  if◌then◌else◌, Outcome, ok, assert, unwrap, ◌>>=◌, ◌>>◌,
}
use vls.Tx.{HtlcInfo2, CommitmentInfo2, claimable_balance, htlc_balance}
use vls.Setup.{ChannelSetup, ChannelBalance, zero_balance}
use vls.Enforcement.{EnforcementState}

abbrev pub Summary : Type 0
Summary = List (ℕ × ℕ)

abbrev pub get : Summary → ℕ → Option ℕ
get [] k = none
get ((j, v) ∷ rest) k = if j == k then some v else get rest k

-- `entry(k).and_modify(|e| *e = f(*e, v)).or_insert(v)`
unfoldable pub modify_or_insert : (ℕ → ℕ → ℕ) → ℕ → ℕ → Summary → Summary
modify_or_insert f k v [] = (k, v) ∷ []
modify_or_insert f k v ((j, w) ∷ rest) =
    let later = modify_or_insert f k v rest in if j == k then (j, f w v) ∷ rest else (j, w) ∷ later

-- `entry(k).and_modify(|e| *e = f(*e, v))`
unfoldable pub modify : (ℕ → ℕ → ℕ) → ℕ → ℕ → Summary → Summary
modify f k v [] = []
modify f k v ((j, w) ∷ rest) =
    let later = modify f k v rest in if j == k then (j, f w v) ∷ rest else (j, w) ∷ later

-- `entry(k).or_insert(0)`, for the hash of each HTLC.
unfoldable pub or_insert_zeros : List HtlcInfo2 → Summary → Summary
unfolding modify_or_insert
or_insert_zeros [] summary = summary
or_insert_zeros (h ∷ hs) summary =
    or_insert_zeros hs (modify_or_insert (λ e v. e) h.payment_hash 0 summary)

unfoldable pub summarize_from : Summary → List HtlcInfo2 → Summary
unfolding modify_or_insert
summarize_from summary [] = summary
summarize_from summary (h ∷ hs) =
    summarize_from (modify_or_insert add_u64 h.payment_hash h.value_sat summary) hs

unfoldable pub summarize_payments : List HtlcInfo2 → Summary
unfolding summarize_from
summarize_payments htlcs = summarize_from [] htlcs

-- The loop that takes the greater of two amounts.
unfoldable pub union_max : Summary → Summary → Summary
unfolding modify_or_insert
union_max summary [] = summary
union_max summary ((k, v) ∷ rest) = union_max (modify_or_insert max k v summary) rest

-- `retain(|k, _| other.contains_key(k))`
unfoldable pub retain : Summary → Summary → Summary
retain other [] = []
retain other ((k, v) ∷ rest) =
    let kept = retain other rest in if is_some (get other k) then (k, v) ∷ kept else kept

-- The loop that takes the smaller of two amounts.
unfoldable pub modify_min : Summary → Summary → Summary
unfolding modify
modify_min summary [] = summary
modify_min summary ((k, v) ∷ rest) = modify_min (modify min k v summary) rest

-- `new.or(current)`
abbrev pub or_current : Option CommitmentInfo2 → Option CommitmentInfo2 → Option CommitmentInfo2
or_current (some new_tx) current = some new_tx
or_current none current = current

-- `map(|tx| &tx.offered_htlcs)`, with no HTLCs where there is no transaction.
abbrev pub offered : Option CommitmentInfo2 → List HtlcInfo2
offered none = []
offered (some tx) = tx.offered_htlcs

abbrev pub received : Option CommitmentInfo2 → List HtlcInfo2
received none = []
received (some tx) = tx.received_htlcs

unfoldable pub payments_summary :
    EnforcementState → Option CommitmentInfo2 → Option CommitmentInfo2 → Summary
payments_summary s new_holder_tx new_counterparty_tx =
    let holder =
      summarize_payments (offered (or_current new_holder_tx s.current_holder_commit_info)) in
    let counterparty =
      summarize_payments
        (received (or_current new_counterparty_tx s.current_counterparty_commit_info)) in
    or_insert_zeros (received s.current_counterparty_commit_info)
      (or_insert_zeros (offered s.current_holder_commit_info) (union_max holder counterparty))

unfoldable pub incoming_payments_summary :
    EnforcementState → Option CommitmentInfo2 → Option CommitmentInfo2 → Summary
incoming_payments_summary s new_holder_tx new_counterparty_tx =
    let holder =
      summarize_payments (received (or_current new_holder_tx s.current_holder_commit_info)) in
    let counterparty =
      summarize_payments
        (offered (or_current new_counterparty_tx s.current_counterparty_commit_info)) in
    or_insert_zeros (offered s.current_counterparty_commit_info) (
      or_insert_zeros (received s.current_holder_commit_info)
        (modify_min (retain counterparty holder) counterparty))

unfoldable pub min_opt : Option ℕ → Option ℕ → Option ℕ
min_opt (some a) (some b) = some (min a b)
min_opt (some a) none = some a
min_opt none b_opt = b_opt

pub record BalanceDelta : Type 0 where
  pub before : ℕ
  pub after : ℕ

module _ (preimage_map : ℕ → Bool) (setup : ChannelSetup) where
  unfoldable pub balance_of : Option CommitmentInfo2 → Outcome (Option ℕ)
  balance_of none = ok none
  balance_of (some tx) =
      claimable_balance tx preimage_map setup.is_outbound setup.channel_value_sat >>= λ b.
      ok (some b)

  abbrev or_else_value : Option ℕ → ℕ → ℕ
  or_else_value none d = d
  or_else_value (some a) d = a

  unfoldable pub claimable_balances :
      EnforcementState → Option CommitmentInfo2 → Option CommitmentInfo2 → Outcome BalanceDelta
  claimable_balances s new_holder_tx new_counterparty_tx = do
    assert (is_some new_holder_tx || is_some new_counterparty_tx)
    assert (not (is_some new_holder_tx) || not (is_some new_counterparty_tx))
    cur_holder_bal ← balance_of s.current_holder_commit_info
    cur_cp_bal ← balance_of s.current_counterparty_commit_info
    new_holder_bal ← balance_of (or_current new_holder_tx s.current_holder_commit_info)
    new_cp_bal ← balance_of (or_current new_counterparty_tx s.current_counterparty_commit_info)
    new_bal ← unwrap (min_opt new_holder_bal new_cp_bal)
    ok (record {
      before = or_else_value (min_opt cur_holder_bal cur_cp_bal) s.initial_holder_value;
      after = new_bal;
    })

  -- The sums of the HTLCs come from the commitment with the lower balance.
  unfoldable pub channel_balance : Bool → CommitmentInfo2 → CommitmentInfo2 → Outcome ChannelBalance
  channel_balance closed holder counterparty = do
    holder_bal ← claimable_balance holder preimage_map setup.is_outbound setup.channel_value_sat
    cp_bal ← claimable_balance counterparty preimage_map setup.is_outbound setup.channel_value_sat
    let cur_bal : ℕ = if ltb holder_bal cp_bal then holder_bal else cp_bal
    htlcs ← htlc_balance (if ltb holder_bal cp_bal then holder else counterparty)
    ok (record {
      claimable = if closed then 0 else cur_bal;
      received_htlc = htlcs.0;
      offered_htlc = htlcs.1;
      sweeping = if closed then cur_bal else 0;
      channel_count = 1;
      received_htlc_count = htlcs.2;
      offered_htlc_count = htlcs.3;
    })

  abbrev balance_with :
      Bool → Option CommitmentInfo2 → Option CommitmentInfo2 → Outcome ChannelBalance
  balance_with closed (some holder) (some counterparty) = channel_balance closed holder counterparty
  balance_with closed none counterparty = ok zero_balance
  balance_with closed (some holder) none = ok zero_balance

  unfoldable pub balance : EnforcementState → Outcome ChannelBalance
  balance s =
      balance_with s.channel_closed s.current_holder_commit_info s.current_counterparty_commit_info
