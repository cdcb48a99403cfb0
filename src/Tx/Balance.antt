-- ===== src/Tx/Balance.antt =====
-- `CommitmentInfo2::claimable_balance` and `htlc_balance` against plain sums.
use vls.Prelude.{
  ℕ, ◌+◌, ◌-◌, ◌%◌, ◌≤◌, ◌<◌, ◌≡◌, refl, Bool, true, not, Bool-cases, inl, inr, List, [], ◌∷◌,
  length, if◌then◌else◌, arith, u64_mod, u32_mod, add_u64, add_u64_eq, checked_add, checked_sub, ok,
}
use vls.Tx.{
  HtlcInfo2, CommitmentInfo2, value_to_parties, sum_values, total_value, holder_htlcs,
  add_values_if, add_fee, claimable_balance, htlc_balance,
}

-- The sum of the values of the HTLCs whose hash is selected.
abbrev pub amount_if : (ℕ → Bool) → List HtlcInfo2 → ℕ
amount_if counts [] = 0
amount_if counts (h ∷ hs) = (if counts h.payment_hash then h.value_sat else 0) + amount_if counts hs

abbrev pub amount : List HtlcInfo2 → ℕ
amount [] = 0
amount (h ∷ hs) = h.value_sat + amount hs

amount_if-le : (counts : ℕ → Bool) (hs : List HtlcInfo2) → amount_if counts hs ≤ amount hs
amount_if-le counts [] = omega arith
amount_if-le counts (h ∷ hs) = ground (arith, amount_if-le counts hs)

amount_split :
    (counts : ℕ → Bool) (hs : List HtlcInfo2)
    → amount_if counts hs + amount_if (λ hash. not (counts hash)) hs ≡ amount hs
amount_split counts [] = refl
amount_split counts (h ∷ hs) = ground (arith, amount_split counts hs)

amount_if_all : (hs : List HtlcInfo2) → amount_if (λ hash. true) hs ≡ amount hs
amount_if_all [] = refl
amount_if_all (h ∷ hs) = omega (arith, amount_if_all hs)

pub sum_values_eq : (hs : List HtlcInfo2) → amount hs < u64_mod → sum_values hs ≡ amount hs
unfolding sum_values
sum_values_eq [] h = refl
sum_values_eq (x ∷ hs) h =
    omega (arith, sum_values_eq hs (omega arith), add_u64_eq x.value_sat (sum_values hs))

-- All outputs of the transaction, without wrapping.
abbrev pub outputs : CommitmentInfo2 → ℕ
outputs info =
    info.to_broadcaster_value_sat
    + info.to_countersigner_value_sat
    + amount info.offered_htlcs
    + amount info.received_htlcs

pub total_value_eq :
    (info : CommitmentInfo2) → outputs info < u64_mod → total_value info ≡ outputs info
unfolding total_value add_u64
total_value_eq info h = omega (
  arith,
  sum_values_eq info.offered_htlcs (omega arith),
  sum_values_eq info.received_htlcs (omega arith),
)

pub add_values_if_lem :
    (counts : ℕ → Bool) (balance : ℕ) (hs : List HtlcInfo2)
    → balance + amount_if counts hs < u64_mod
    → add_values_if counts balance hs ≡ ok (balance + amount_if counts hs)
unfolding add_values_if checked_add
add_values_if_lem counts balance [] h = ground arith
add_values_if_lem counts balance (x ∷ hs) h = elim (Bool-cases (counts x.payment_hash)) [
  | inl e ↦ rw e (ground (arith, add_values_if_lem counts (balance + x.value_sat) hs))
  | inr e ↦ rw e (ground (arith, add_values_if_lem counts balance hs))
]

-- The HTLCs that the holder offers, and those that it receives.
abbrev pub holder_offered : CommitmentInfo2 → List HtlcInfo2
holder_offered info =
    if info.is_counterparty_broadcaster then info.received_htlcs else info.offered_htlcs

abbrev pub holder_received : CommitmentInfo2 → List HtlcInfo2
holder_received info =
    if info.is_counterparty_broadcaster then info.offered_htlcs else info.received_htlcs

abbrev pub to_holder : CommitmentInfo2 → ℕ
to_holder info =
    if info.is_counterparty_broadcaster
    then info.to_countersigner_value_sat
    else info.to_broadcaster_value_sat

-- What the holder can claim, as its documentation defines it, with the fee if it is the funder.
abbrev pub claimable : CommitmentInfo2 → (ℕ → Bool) → Bool → ℕ → ℕ
claimable info known is_outbound channel_value =
    to_holder info
    + (if is_outbound then channel_value - outputs info else 0)
    + amount_if (λ hash. not (known hash)) (holder_offered info)
    + amount_if known (holder_received info)

module _ (info : CommitmentInfo2) (known : ℕ → Bool) (is_outbound : Bool) (channel_value : ℕ)
    (covered : outputs info ≤ channel_value) (small : channel_value < u64_mod) where
  claimable-le : claimable info known is_outbound channel_value ≤ channel_value
  claimable-le = ground (
    arith,
    amount_if-le (λ hash. not (known hash)) (holder_offered info),
    amount_if-le known (holder_received info),
  )

  fee : ℕ
  fee = if is_outbound then channel_value - outputs info else 0

  add_fee_lem : add_fee info is_outbound channel_value (to_holder info) ≡ ok (to_holder info + fee)
  unfolding add_fee checked_add checked_sub fee
  add_fee_lem = ground (arith, total_value_eq info)

  -- If the outputs fit the value of the channel, the balance is returned: what is paid to the
  -- holder, the fee if it funded the channel, the HTLCs it offered whose preimage is unknown, and
  -- those it receives whose preimage is known. It is at most the value of the channel.
  pub claimable_balance_lem :
      (claimable_balance info known is_outbound channel_value
        ≡ ok (claimable info known is_outbound channel_value))
      × (claimable info known is_outbound channel_value ≤ channel_value)
  unfolding claimable_balance value_to_parties holder_htlcs fee
  claimable_balance_lem = (
    ground (
      arith,
      add_fee_lem,
      claimable-le,
      add_values_if_lem (λ hash. not (known hash)) (to_holder info + fee) (holder_offered info),
      add_values_if_lem known
          (to_holder info + fee + amount_if (λ hash. not (known hash)) (holder_offered info))
          (holder_received info),
    ),
    claimable-le,
  )

-- The same transaction as the counterparty sees it.
abbrev pub mirror : CommitmentInfo2 → CommitmentInfo2
mirror info = record info { is_counterparty_broadcaster = not info.is_counterparty_broadcaster }

claimable-mirror :
    (info : CommitmentInfo2) (known : ℕ → Bool) (is_outbound : Bool) (channel_value : ℕ)
    → outputs info ≤ channel_value
    → claimable info known is_outbound channel_value
        + claimable (mirror info) known (not is_outbound) channel_value
      ≡ channel_value
claimable-mirror info known is_outbound channel_value covered =
    ground (arith, amount_split known info.offered_htlcs, amount_split known info.received_htlcs)

-- The claimable balances of the two parties add up to the value of the channel, whichever
-- preimages are known, if the outputs fit that value.
pub claimable_balance_zero_sum :
    (info : CommitmentInfo2) (known : ℕ → Bool) (is_outbound : Bool) (channel_value : ℕ)
    → outputs info ≤ channel_value
    → channel_value < u64_mod
    → (ours theirs : ℕ) × (claimable_balance info known is_outbound channel_value ≡ ok ours)
      × (claimable_balance (mirror info) known (not is_outbound) channel_value ≡ ok theirs)
      × (ours + theirs ≡ channel_value)
claimable_balance_zero_sum info known is_outbound channel_value covered small = (
  claimable info known is_outbound channel_value,
  claimable (mirror info) known (not is_outbound) channel_value,
  (claimable_balance_lem info known is_outbound channel_value covered small).0,
  (claimable_balance_lem (mirror info) known (not is_outbound) channel_value covered small).0,
  claimable-mirror info known is_outbound channel_value covered,
)

-- The sums of the HTLCs that the holder receives and offers are returned, with their numbers.
pub htlc_balance_lem :
    (info : CommitmentInfo2)
    → amount info.offered_htlcs < u64_mod
    → amount info.received_htlcs < u64_mod
    → htlc_balance info
      ≡ ok (
        amount (holder_received info),
        amount (holder_offered info),
        length (holder_received info) % u32_mod,
        length (holder_offered info) % u32_mod,
      )
unfolding htlc_balance holder_htlcs
htlc_balance_lem info o r = ground (
  arith,
  add_values_if_lem (λ hash. true) 0 info.offered_htlcs,
  add_values_if_lem (λ hash. true) 0 info.received_htlcs,
  amount_if_all info.offered_htlcs,
  amount_if_all info.received_htlcs,
)
