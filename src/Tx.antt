-- ===== src/Tx.antt =====
-- vls-core/src/tx/tx.rs: the commitment of phase 2, `CommitmentInfo2`, and its HTLCs. Public keys
-- and payment hashes are only compared, so they are numbers; a payment hash is its 32 bytes read
-- in big-endian order, which is the order of `[u8; 32]`.
pub mod Sorting
pub mod Balance
mod Tests
use Prim.Native.Nat.{Ordering, compare}
use native.Mathlib.Decide.{ℕ_discrete}
use vls.Prelude.{
  ℕ, ◌%◌, Bool, true, false, ◌&&◌, not, Option, List, [], ◌∷◌, length, ltb, if◌then◌else◌, add_u64,
  u32_mod, checked_add, checked_sub, Outcome, ok, unwrap, ◌>>=◌, ◌>>◌,
}

pub record HtlcInfo2 : Type 0 where
  pub value_sat : ℕ
  pub payment_hash : ℕ
  pub cltv_expiry : ℕ

-- `Ordering::then_with`
abbrev pub then_with : Ordering → Ordering → Ordering
then_with Ordering.eq o = o
then_with Ordering.lt o = Ordering.lt
then_with Ordering.gt o = Ordering.gt

unfoldable pub cmp : HtlcInfo2 → HtlcInfo2 → Ordering
cmp a b =
    then_with (compare a.value_sat b.value_sat)
      (then_with (compare a.payment_hash b.payment_hash) (compare a.cltv_expiry b.cltv_expiry))

-- `Vec::sort`, a stable sort by `cmp`.
unfoldable pub sort_insert : HtlcInfo2 → List HtlcInfo2 → List HtlcInfo2
sort_insert a [] = a ∷ []
sort_insert a (b ∷ bs) = elim (cmp a b) [ Ordering.gt ↦ b ∷ sort_insert a bs | _ ↦ a ∷ b ∷ bs ]

unfoldable pub sort : List HtlcInfo2 → List HtlcInfo2
unfolding sort_insert
sort [] = []
sort (a ∷ rest) = sort_insert a (sort rest)

pub record CommitmentInfo2 : Type 0 where
  pub is_counterparty_broadcaster : Bool
  pub to_countersigner_pubkey : ℕ
  pub to_countersigner_value_sat : ℕ
  pub revocation_pubkey : ℕ
  pub to_broadcaster_delayed_pubkey : ℕ
  pub to_broadcaster_value_sat : ℕ
  pub to_self_delay : ℕ
  pub offered_htlcs : List HtlcInfo2
  pub received_htlcs : List HtlcInfo2
  pub feerate_per_kw : ℕ

-- The derived `==`.
unfoldable pub HtlcInfo2-discrete : Discrete HtlcInfo2
HtlcInfo2-discrete = hlevel ℕ_discrete

unfoldable pub CommitmentInfo2-discrete : Discrete CommitmentInfo2
CommitmentInfo2-discrete = hlevel (ℕ_discrete, HtlcInfo2-discrete)

unfoldable pub new :
    Bool → ℕ → ℕ → ℕ → ℕ → ℕ → ℕ → List HtlcInfo2 → List HtlcInfo2 → ℕ → CommitmentInfo2
unfolding sort
new is_cp countersigner_key countersigner_value revocation_key delayed_key broadcaster_value delay
      offered received feerate =
    record {
      is_counterparty_broadcaster = is_cp;
      to_countersigner_pubkey = countersigner_key;
      to_countersigner_value_sat = countersigner_value;
      revocation_pubkey = revocation_key;
      to_broadcaster_delayed_pubkey = delayed_key;
      to_broadcaster_value_sat = broadcaster_value;
      to_self_delay = delay;
      offered_htlcs = sort offered;
      received_htlcs = sort received;
      feerate_per_kw = feerate;
    }

abbrev is_empty : List HtlcInfo2 → Bool
is_empty [] = true
is_empty (h ∷ hs) = false

unfoldable pub htlcs_is_empty : CommitmentInfo2 → Bool
htlcs_is_empty info = is_empty info.offered_htlcs && is_empty info.received_htlcs

-- To the holder and to the counterparty.
unfoldable pub value_to_parties : CommitmentInfo2 → ℕ × ℕ
value_to_parties info =
    if info.is_counterparty_broadcaster
    then (info.to_countersigner_value_sat, info.to_broadcaster_value_sat)
    else (info.to_broadcaster_value_sat, info.to_countersigner_value_sat)

-- `.iter().map(|h| h.value_sat).sum::<u64>()`
unfoldable pub sum_values : List HtlcInfo2 → ℕ
sum_values [] = 0
sum_values (h ∷ hs) = add_u64 h.value_sat (sum_values hs)

unfoldable pub total_value : CommitmentInfo2 → ℕ
unfolding sum_values
total_value info =
    add_u64
      (add_u64 (add_u64 info.to_broadcaster_value_sat info.to_countersigner_value_sat)
        (sum_values info.offered_htlcs))
      (sum_values info.received_htlcs)

-- The HTLCs that the holder offers and those that it receives.
unfoldable pub holder_htlcs : CommitmentInfo2 → List HtlcInfo2 × List HtlcInfo2
holder_htlcs info =
    if info.is_counterparty_broadcaster
    then (info.received_htlcs, info.offered_htlcs)
    else (info.offered_htlcs, info.received_htlcs)

-- The loops of `claimable_balance`: the values of the HTLCs that `counts` selects.
unfoldable pub add_values_if : (ℕ → Bool) → ℕ → List HtlcInfo2 → Outcome ℕ
add_values_if counts balance [] = ok balance
add_values_if counts balance (h ∷ hs) = do
  balance' ← if counts h.payment_hash then unwrap (checked_add balance h.value_sat) else ok balance
  add_values_if counts balance' hs

-- The on-chain fee is the funder's.
unfoldable pub add_fee : CommitmentInfo2 → Bool → ℕ → ℕ → Outcome ℕ
add_fee info is_outbound channel_value balance =
    if is_outbound
    then (unwrap (checked_sub channel_value (total_value info)) >>= λ fee.
        unwrap (checked_add balance fee))
    else ok balance

-- `has_preimage` is the trait `PreimageMap`.
unfoldable pub claimable_balance : CommitmentInfo2 → (ℕ → Bool) → Bool → ℕ → Outcome ℕ
claimable_balance info has_preimage is_outbound channel_value = do
  balance ← add_fee info is_outbound channel_value (value_to_parties info).0
  balance' ← add_values_if (λ hash. not (has_preimage hash)) balance (holder_htlcs info).0
  add_values_if has_preimage balance' (holder_htlcs info).1

-- The sums and the numbers of the HTLCs, received before offered.
unfoldable pub htlc_balance : CommitmentInfo2 → Outcome (ℕ × ℕ × ℕ × ℕ)
htlc_balance info = do
  offered ← add_values_if (λ hash. true) 0 (holder_htlcs info).0
  received ← add_values_if (λ hash. true) 0 (holder_htlcs info).1
  ok (
    received,
    offered,
    length (holder_htlcs info).1 % u32_mod,
    length (holder_htlcs info).0 % u32_mod,
  )
