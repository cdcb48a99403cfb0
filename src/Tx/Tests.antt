-- ===== src/Tx/Tests.antt =====
-- Commitments at concrete values.
use mathlib.Core.List.{Perm}
use vls.Prelude.{ℕ, ◌+◌, ◌≤◌, ◌≡◌, refl, ◌↔◌, Bool, true, false, [], ◌∷◌, arith, ◌==◌, ok}
use vls.Tx.{HtlcInfo2, CommitmentInfo2, sort, cmp, claimable_balance}
use vls.Tx.Sorting.{sort_iff}
use vls.Tx.Balance.{mirror, claimable_balance_lem, claimable_balance_zero_sum}

abbrev htlc : ℕ → ℕ → HtlcInfo2
htlc value hash = record { value_sat = value; payment_hash = hash; cltv_expiry = 500 }

-- A commitment of the holder, in a channel of 3000000 sat with a fee of 1000 sat.
abbrev commitment : CommitmentInfo2
commitment = record {
  is_counterparty_broadcaster = false;
  to_countersigner_pubkey = 1;
  to_countersigner_value_sat = 1000000;
  revocation_pubkey = 2;
  to_broadcaster_delayed_pubkey = 3;
  to_broadcaster_value_sat = 1900000;
  to_self_delay = 6;
  offered_htlcs = htlc 40000 7 ∷ htlc 9000 8 ∷ [];
  received_htlcs = htlc 50000 9 ∷ [];
  feerate_per_kw = 253;
}

abbrev known : ℕ → Bool
known hash = hash == 9

sorted : sort commitment.offered_htlcs ≡ htlc 9000 8 ∷ htlc 40000 7 ∷ []
unfolding sort cmp
sorted = refl

sort_iff_example :
    (sort (htlc 2 1 ∷ htlc 1 1 ∷ []) ≡ sort (htlc 1 1 ∷ htlc 2 1 ∷ []))
    ↔ Perm (htlc 2 1 ∷ htlc 1 1 ∷ []) (htlc 1 1 ∷ htlc 2 1 ∷ [])
sort_iff_example = sort_iff (htlc 2 1 ∷ htlc 1 1 ∷ []) (htlc 1 1 ∷ htlc 2 1 ∷ [])

claimable_balance_lem_example :
    (claimable_balance commitment known true 3000000 ≡ ok 2000000) × (2000000 ≤ 3000000)
claimable_balance_lem_example =
    claimable_balance_lem commitment known true 3000000 (omega arith) (omega arith)

claimable_balance_zero_sum_example :
    (ours theirs : ℕ) × (claimable_balance commitment known true 3000000 ≡ ok ours)
    × (claimable_balance (mirror commitment) known false 3000000 ≡ ok theirs)
    × (ours + theirs ≡ 3000000)
claimable_balance_zero_sum_example =
    claimable_balance_zero_sum commitment known true 3000000 (omega arith) (omega arith)
