-- ===== src/Velocity/Limit.antt =====
-- `VelocityControl::insert` against the history of accepted payments.
use native.Mathlib.Nat.{add-mul-div_right, div-add-mod', mul-div_left}
use vls.Prelude.{
  ℕ, suc, ◌+◌, ◌-◌, ◌*◌, ◌/◌, ◌%◌, ◌≤◌, ◌<◌, min, ◌≡◌, refl, ap, Bool, true, false, List, [], ◌∷◌,
  length, sum, leb, if◌then◌else◌, arith, u64_max, u64_mod, take, ◌∙◌, sym, subst, saturating_add,
  sub_u64, sub_u64_eq, Outcome, ok,
}
use vls.Velocity.{push_zeros, VelocityControl, insert, shift, charge, add_to_first, velocity}
use vls.Velocity.Window.{
  Charge, Before, Before-mono, window, recent_sum, length-window, window_shift, sum-window,
  recent_sum_le, window_charge, velocity-eq-sum,
}

abbrev pub epoch : VelocityControl → ℕ
epoch c = c.start_sec / c.bucket_interval

-- The buckets hold the sums of the last epochs of `log`, which ends at the control's own epoch.
pub record Tracks (c : VelocityControl) (log : List Charge) : Type 0 where
  pub interval_pos : 0 < c.bucket_interval
  pub buckets_pos : 0 < length c.buckets
  pub aligned : c.start_sec ≡ epoch c * c.bucket_interval
  pub counted : c.buckets ≡ window c.bucket_interval (length c.buckets) (epoch c) log
  pub before : Before c.bucket_interval (epoch c) log
  pub within : sum c.buckets ≤ c.limit
  pub limited : c.limit < u64_max

-- What stays when payments come in.
pub record Same (c d : VelocityControl) : Type 0 where
  pub same_interval : d.bucket_interval ≡ c.bucket_interval
  pub same_limit : d.limit ≡ c.limit
  pub same_length : length d.buckets ≡ length c.buckets

div_of_aligned :
    (interval start now : ℕ)
    → 0 < interval
    → start ≡ start / interval * interval
    → start ≤ now
    → (now - start) / interval + start / interval ≡ now / interval
div_of_aligned interval start now pos aligned h =
    let whole : (now - start) + start / interval * interval ≡ now = omega arith in
    rw (← add-mul-div_right (now - start) (start / interval) pos, whole) refl

floor_lem : (interval now : ℕ) → now - now % interval ≡ now / interval * interval
floor_lem interval now = omega (arith, div-add-mod' now interval)

window_shifted :
    (interval n d e : ℕ) (buckets : List ℕ) (log : List Charge)
    → Before interval e log
    → buckets ≡ window interval n e log
    → push_zeros (min n d) (take (n - min n d) buckets) ≡ window interval n (d + e) log
window_shifted interval n d e buckets log b h = rw h (window_shift interval n d e log b)

module _ (c : VelocityControl) (log : List Charge) (now : ℕ) (t : Tracks c log)
    (past : c.start_sec ≤ now) (small : now < u64_mod) where
  elapsed : sub_u64 now c.start_sec / c.bucket_interval + epoch c ≡ now / c.bucket_interval
  elapsed =
      rw (sub_u64_eq now c.start_sec past small)
        (div_of_aligned c.bucket_interval c.start_sec now t.interval_pos t.aligned past)

  shift_buckets :
      (shift c now).buckets
      ≡ window c.bucket_interval (length c.buckets) (now / c.bucket_interval) log
  unfolding shift
  shift_buckets =
      window_shifted c.bucket_interval (length c.buckets) _ (epoch c) c.buckets log t.before
        t.counted
      ∙ ap (λ e. window c.bucket_interval (length c.buckets) e log) elapsed

  epoch-shift : epoch (shift c now) ≡ now / c.bucket_interval
  unfolding shift
  epoch-shift = rw floor_lem (mul-div_left (now / c.bucket_interval) t.interval_pos)

  shift-Same : Same c (shift c now)
  unfolding shift
  shift-Same = record {
    same_interval = refl;
    same_limit = refl;
    same_length = ap length shift_buckets ∙ length-window _ (length c.buckets) _ log;
  }

  epoch-le : epoch c ≤ now / c.bucket_interval
  epoch-le = omega (arith, elapsed)

  shift-Tracks : Tracks (shift c now) log
  unfolding shift
  shift-Tracks = record {
    interval_pos = t.interval_pos;
    buckets_pos = rw shift-Same.same_length t.buckets_pos;
    aligned = rw (floor_lem, mul-div_left (now / c.bucket_interval) t.interval_pos) refl;
    counted =
        shift_buckets
        ∙ (λ j. window c.bucket_interval (sym shift-Same.same_length j) (sym epoch-shift j) log);
    before =
        subst (λ e. Before c.bucket_interval e log) (sym epoch-shift)
          (Before-mono c.bucket_interval log epoch-le t.before);
    within = omega (
      arith,
      ap sum shift_buckets,
      sum-window c.bucket_interval (length c.buckets) (now / c.bucket_interval) log,
      ap sum t.counted,
      sum-window c.bucket_interval (length c.buckets) (epoch c) log,
      recent_sum_le c.bucket_interval (length c.buckets) log t.before epoch-le,
      t.within,
    );
    limited = t.limited;
  }

  -- After the shift `velocity` is the sum of the payments in the window that ends now.
  velocity-shift :
      velocity (shift c now)
      ≡ recent_sum c.bucket_interval (length c.buckets) (now / c.bucket_interval) log
  velocity-shift = omega (
    arith,
    velocity-eq-sum (shift c now),
    ap sum shift_buckets,
    sum-window c.bucket_interval (length c.buckets) (now / c.bucket_interval) log,
    shift-Tracks.within,
    shift-Tracks.limited,
  )

-- `charge` on a control whose history is known and whose epoch is that of the payment.
abbrev pub fits : VelocityControl → ℕ → Bool
fits c velocity_msat = leb (velocity c + velocity_msat) c.limit

abbrev pub log_if : Bool → Charge → List Charge → List Charge
log_if accepted x log = if accepted then x ∷ log else log

module _ (c : VelocityControl) (log : List Charge) (x : Charge) (t : Tracks c log)
    (now : x.sec / c.bucket_interval ≡ epoch c) where
  charge_refused : fits c x.msat ≡ false → charge c x.msat ≡ ok (c, false)
  unfolding charge saturating_add
  charge_refused h = ground (arith, t.limited)

  charge_accepted :
      (bucket : ℕ) (rest : List ℕ)
      → c.buckets ≡ bucket ∷ rest
      → fits c x.msat ≡ true
      → charge c x.msat ≡ ok (record c { buckets = (bucket + x.msat) ∷ rest }, true)
  unfolding charge saturating_add add_to_first
  charge_accepted bucket rest e h = ground (arith, velocity-eq-sum c, ap sum e, t.limited, t.within)

  accepted-Tracks :
      (bucket : ℕ) (rest : List ℕ)
      → c.buckets ≡ bucket ∷ rest
      → fits c x.msat ≡ true
      → Tracks (record c { buckets = (bucket + x.msat) ∷ rest }) (x ∷ log)
  accepted-Tracks bucket rest e h = record {
    interval_pos = t.interval_pos;
    buckets_pos = omega arith;
    aligned = t.aligned;
    counted = sym (
        window_charge c.bucket_interval (suc (length rest)) (epoch c) bucket rest x log now (
          ap (λ n. window c.bucket_interval n (epoch c) log) (sym (ap length e))
          ∙ sym t.counted
          ∙ e));
    before = (omega (arith, now), t.before);
    within = ground (arith, velocity-eq-sum c, ap sum e, t.limited, t.within);
    limited = t.limited;
  }

-- An outcome whose control tracks the history with the payment, if it was accepted.
pub record Records (c : VelocityControl) (log : List Charge) (x : Charge) (accepted : Bool)
    (r : Outcome (VelocityControl × Bool)) : Type 0 where
  pub after : VelocityControl
  pub returns : r ≡ ok (after, accepted)
  pub tracks : Tracks after (log_if accepted x log)
  pub same : Same c after
  pub on_time : after.start_sec ≤ x.sec

charge-Records_at :
    (c : VelocityControl) (log : List Charge) (x : Charge) (buckets : List ℕ) (accepted : Bool)
    → Tracks c log
    → x.sec / c.bucket_interval ≡ epoch c
    → c.start_sec ≤ x.sec
    → c.buckets ≡ buckets
    → fits c x.msat ≡ accepted
    → Records c log x accepted (charge c x.msat)
charge-Records_at c log x buckets false t now past e h = record {
  after = c;
  returns = charge_refused c log x t now h;
  tracks = t;
  same = record { same_interval = refl; same_limit = refl; same_length = refl };
  on_time = past;
}
charge-Records_at c log x [] true t now past e h =
    absurd (omega (arith, t.buckets_pos, ap length e))
charge-Records_at c log x (bucket ∷ rest) true t now past e h = record {
  after = record c { buckets = (bucket + x.msat) ∷ rest };
  returns = charge_accepted c log x t now bucket rest e h;
  tracks = accepted-Tracks c log x t now bucket rest e h;
  same = record { same_interval = refl; same_limit = refl; same_length = sym (ap length e) };
  on_time = past;
}

pub insert-eq-charge :
    (c : VelocityControl) (sec msat : ℕ)
    → 0 < c.bucket_interval
    → insert c sec msat ≡ charge (shift c sec) msat
unfolding insert
insert-eq-charge c sec msat h = ground arith

pub limit-shift : (c : VelocityControl) (sec : ℕ) → (shift c sec).limit ≡ c.limit
unfolding shift
limit-shift c sec = refl

start_sec-shift : (c : VelocityControl) (sec : ℕ) → (shift c sec).start_sec ≤ sec
unfolding shift
start_sec-shift c sec = omega arith

-- The payments of the window of buckets that ends at the second `sec`.
abbrev pub spent : VelocityControl → ℕ → List Charge → ℕ
spent c sec log = recent_sum c.bucket_interval (length c.buckets) (sec / c.bucket_interval) log

pub Tracks-spent :
    (c : VelocityControl) (log : List Charge) → Tracks c log → spent c c.start_sec log ≤ c.limit
Tracks-spent c log t = omega (
  arith,
  ap sum t.counted,
  sum-window c.bucket_interval (length c.buckets) (epoch c) log,
  t.within,
)

-- With a control that tracks the history `log`, a payment that is not earlier than the control's
-- start is accepted exactly when it and the payments of the window that ends now add up to no
-- more than the limit; no panic occurs, and the new control tracks the new history.
pub insert-Records :
    (c : VelocityControl) (log : List Charge) (x : Charge)
    → Tracks c log
    → c.start_sec ≤ x.sec
    → x.sec < u64_mod
    → Records c log x (leb (spent c x.sec log + x.msat) c.limit) (insert c x.sec x.msat)
insert-Records c log x t past small =
    let d = shift c x.sec in
    let s = shift-Same c log x.sec t past small in
    let total = velocity-shift c log x.sec t past small in
    let r =
      charge-Records_at d log x d.buckets _ (shift-Tracks c log x.sec t past small)
        (ap (λ i. x.sec / i) s.same_interval ∙ sym (epoch-shift c log x.sec t past small))
        (start_sec-shift c x.sec) refl (rw (total, s.same_limit) refl) in
    record {
      after = r.after;
      returns = insert-eq-charge c x.sec x.msat t.interval_pos ∙ r.returns;
      tracks = r.tracks;
      same = record {
        same_interval = r.same.same_interval ∙ s.same_interval;
        same_limit = r.same.same_limit ∙ s.same_limit;
        same_length = r.same.same_length ∙ s.same_length;
      };
      on_time = r.on_time;
    }
