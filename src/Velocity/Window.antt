-- ===== src/Velocity/Window.antt =====
-- What the buckets of a velocity control stand for: sums over the epochs of a history.
use native.Mathlib.Decide.{dec_le}
use vls.Prelude.{
  ℕ, zero, suc, ◌+◌, ◌-◌, ◌/◌, ◌≤◌, ◌<◌, min, ◌≡◌, refl, ap, List, [], ◌∷◌, All, length,
  length-replicate, take, replicate, sum, ltb, ◌==◌, if◌then◌else◌, arith, u64_max, saturating_add,
  sym, ◌∙◌,
}
use vls.Velocity.{VelocityControl, total_from, push_zeros, velocity}

-- An accepted payment: when, in seconds, and how much.
pub record Charge : Type 0 where
  pub sec : ℕ
  pub msat : ℕ

-- The sum of the payments of the epoch `e`.
abbrev pub epoch_sum : ℕ → ℕ → List Charge → ℕ
epoch_sum interval e [] = 0
epoch_sum interval e (x ∷ log) =
    (if (x.sec / interval) == e then x.msat else 0) + epoch_sum interval e log

-- The sums of the `n` epochs up to `e`, newest first.
abbrev pub window : ℕ → ℕ → ℕ → List Charge → List ℕ
window interval zero e log = []
window interval (suc n) zero log = epoch_sum interval zero log ∷ replicate n 0
window interval (suc n) (suc e) log = epoch_sum interval (suc e) log ∷ window interval n e log

-- The sum of the payments of the last `n` epochs up to `e`.
abbrev pub recent_sum : ℕ → ℕ → ℕ → List Charge → ℕ
recent_sum interval n e [] = 0
recent_sum interval n e (x ∷ log) =
    (if ltb e (x.sec / interval)
      then 0
      else if ltb (x.sec / interval + n) (suc e)
      then 0
      else x.msat)
    + recent_sum interval n e log

-- No payment lies in a later epoch.
abbrev pub Before : ℕ → ℕ → List Charge → Type 0
Before interval e = All (λ (x : Charge). x.sec / interval ≤ e)

pub Before-mono :
    (interval : ℕ) {d e : ℕ} (log : List Charge)
    → d ≤ e
    → Before interval d log
    → Before interval e log
Before-mono interval [] h b = tt
Before-mono interval (x ∷ log) h b = (omega arith, Before-mono interval log h b.1)

pub length-window : (interval n e : ℕ) (log : List Charge) → length (window interval n e log) ≡ n
length-window interval zero e log = refl
length-window interval (suc n) zero log = ap suc (length-replicate n 0)
length-window interval (suc n) (suc e) log = ap suc (length-window interval n e log)

epoch_sum_later :
    (interval e d : ℕ) (log : List Charge)
    → Before interval e log
    → e < d
    → epoch_sum interval d log ≡ 0
epoch_sum_later interval e d [] b h = refl
epoch_sum_later interval e d (x ∷ log) b h = ground (arith, epoch_sum_later interval e d log b.1 h)

take-replicate : (k n : ℕ) → k ≤ n → take k (replicate {A = ℕ} n 0) ≡ replicate k 0
take-replicate zero n h = refl
take-replicate (suc k) zero h = elim h [ ]
take-replicate (suc k) (suc n) h = ap (◌∷◌ 0) (take-replicate k n (omega arith))

-- A shorter window is the front of a longer one.
take-window :
    (interval k n e : ℕ) (log : List Charge)
    → k ≤ n
    → take k (window interval n e log) ≡ window interval k e log
take-window interval zero n e log h = refl
take-window interval (suc k) zero e log h = elim h [ ]
take-window interval (suc k) (suc n) zero log h =
    ap (◌∷◌ (epoch_sum interval 0 log)) (take-replicate k n (omega arith))
take-window interval (suc k) (suc n) (suc e) log h =
    ap (◌∷◌ (epoch_sum interval (suc e) log)) (take-window interval k n e log (omega arith))

-- A window that begins after every payment is empty.
window_empty :
    (interval n d e : ℕ) (log : List Charge)
    → Before interval e log
    → e + n ≤ d
    → window interval n d log ≡ replicate n 0
window_empty interval zero d e log b h = refl
window_empty interval (suc n) zero e log b h = absurd (omega arith)
window_empty interval (suc n) (suc d) e log b h =
    ground (arith, epoch_sum_later interval e (suc d) log b, window_empty interval n d e log b)

window_shift_le :
    (interval n d e : ℕ) (log : List Charge)
    → Before interval e log
    → d ≤ n
    → push_zeros d (take (n - d) (window interval n e log)) ≡ window interval n (d + e) log
unfolding push_zeros
window_shift_le interval n zero e log b h =
    let same : n - 0 ≡ n = omega arith in
    let whole : 0 + e ≡ e = omega arith in
    rw (same, whole) (take-window interval n n e log (omega arith))
window_shift_le interval zero (suc d) e log b h = elim h [ ]
window_shift_le interval (suc n) (suc d) e log b h =
    let longer : suc n - d ≡ suc (n - d) = omega arith in
    let later : suc d + e ≡ d + suc e = omega arith in
    let old : take (suc n - suc d) (window interval (suc n) e log) ≡ window interval (n - d) e log =
      let shorter : suc n - suc d ≡ n - d = omega arith in
      rw shorter (take-window interval (n - d) (suc n) e log (omega arith)) in
    let new : take (suc n - d) (window interval (suc n) (suc e) log)
        ≡ 0 ∷ window interval (n - d) e log =
      rw (longer, epoch_sum_later interval e (suc e) log b (omega arith))
        (ap (◌∷◌ 0) (take-window interval (n - d) n e log (omega arith))) in
    let rest =
      window_shift_le interval (suc n) d (suc e) log (Before-mono interval log (omega arith) b)
        (omega arith) in
    cc

-- As time passes with no payment, zeros come in at the front.
pub window_shift :
    (interval n d e : ℕ) (log : List Charge)
    → Before interval e log
    → push_zeros (min n d) (take (n - min n d) (window interval n e log))
      ≡ window interval n (d + e) log
window_shift interval n d e log b = elim (dec_le d n) [
  | yes h ↦ let few : min n d ≡ d = omega arith in rw few (window_shift_le interval n d e log b h)
  | no h ↦
      let many : min n d ≡ n = omega arith in
      rw (many, window_shift_le interval n n e log b (omega arith))
        (window_empty interval n (n + e) e log b (omega arith)
          ∙ sym (window_empty interval n (d + e) e log b (omega arith)))
]

-- The sum over a window is the sum of the payments in it.
pub sum-replicate : (n : ℕ) → sum (replicate n 0) ≡ 0
sum-replicate zero = refl
sum-replicate (suc n) = omega (arith, sum-replicate n)

sum-window_nil : (interval n e : ℕ) → sum (window interval n e []) ≡ 0
sum-window_nil interval zero e = refl
sum-window_nil interval (suc n) zero = omega (arith, sum-replicate n)
sum-window_nil interval (suc n) (suc e) = omega (arith, sum-window_nil interval n e)

sum-window_cons :
    (interval n e : ℕ) (x : Charge) (log : List Charge)
    → sum (window interval n e (x ∷ log))
      ≡ (if ltb e (x.sec / interval)
          then 0
          else if ltb (x.sec / interval + n) (suc e)
          then 0
          else x.msat)
        + sum (window interval n e log)
sum-window_cons interval zero e x log = ground arith
sum-window_cons interval (suc n) zero x log = ground arith
sum-window_cons interval (suc n) (suc e) x log = ground (arith, sum-window_cons interval n e x log)

pub sum-window :
    (interval n e : ℕ) (log : List Charge)
    → sum (window interval n e log) ≡ recent_sum interval n e log
sum-window interval n e [] = sum-window_nil interval n e
sum-window interval n e (x ∷ log) =
    omega (arith, sum-window_cons interval n e x log, sum-window interval n e log)

-- `velocity` is the sum of the buckets, cut off at the largest u64.
total_from_lem :
    (acc : ℕ) (buckets : List ℕ)
    → acc ≤ u64_max
    → total_from acc buckets ≡ min (acc + sum buckets) u64_max
unfolding total_from saturating_add
total_from_lem acc [] h = omega arith
total_from_lem acc (x ∷ xs) h =
    omega (arith, total_from_lem (min (acc + x) u64_max) xs (omega arith))

pub velocity-eq-sum : (c : VelocityControl) → velocity c ≡ min (sum c.buckets) u64_max
unfolding velocity
velocity-eq-sum c = omega (arith, total_from_lem 0 c.buckets (omega arith))

-- As time passes, payments leave the window.
pub recent_sum_le :
    (interval n : ℕ) {d e : ℕ} (log : List Charge)
    → Before interval d log
    → d ≤ e
    → recent_sum interval n e log ≤ recent_sum interval n d log
recent_sum_le interval n [] b h = omega arith
recent_sum_le interval n {d} {e} (x ∷ log) b h =
    ground (arith, recent_sum_le interval n {d = d} {e = e} log b.1 h)

window_later :
    (interval n e : ℕ) (x : Charge) (log : List Charge)
    → e < x.sec / interval
    → window interval n e (x ∷ log) ≡ window interval n e log
window_later interval zero e x log h = refl
window_later interval (suc n) zero x log h = ground arith
window_later interval (suc n) (suc e) x log h = ground (arith, window_later interval n e x log)

-- A payment of the newest epoch goes into the first bucket.
pub window_charge :
    (interval n e bucket : ℕ) (rest : List ℕ) (x : Charge) (log : List Charge)
    → x.sec / interval ≡ e
    → window interval n e log ≡ bucket ∷ rest
    → window interval n e (x ∷ log) ≡ (bucket + x.msat) ∷ rest
window_charge interval zero e bucket rest x log h w = cc
window_charge interval (suc n) zero bucket rest x log h w = ground arith
window_charge interval (suc n) (suc e) bucket rest x log h w =
    ground (arith, window_later interval n e x log)
