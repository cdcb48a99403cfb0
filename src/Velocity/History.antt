-- ===== src/Velocity/History.antt =====
-- The history of a velocity control: sequences of `insert`, from a control made by `new` on.
use native.Mathlib.Nat.{zero-div}
use vls.Prelude.{
  ℕ, zero, suc, ◌+◌, ◌-◌, ◌/◌, ◌≤◌, ◌<◌, min, ◌≡◌, refl, ap, ◌∙◌, true, List, [], ◌∷◌, length,
  length-take, length-replicate, take, replicate, arith, u64_max, u64_mod, saturating_add, sub_u64,
  Outcome, ok, ◌>>=◌,
}
use vls.Velocity.{
  VelocityControl, VelocityControlSpec, insert, shift, charge, add_to_first, push_zeros, new,
  new_with_intervals, spec_to_triple, is_unlimited,
}
use vls.Velocity.Window.{Charge, window, sum-replicate}
use vls.Velocity.Limit.{
  Tracks, Same, log_if, insert-Records, insert-eq-charge, limit-shift, spent, Tracks-spent,
}

length-push_zeros : (n : ℕ) (xs : List ℕ) → length (push_zeros n xs) ≡ n + length xs
unfolding push_zeros
length-push_zeros zero xs = omega arith
length-push_zeros (suc n) xs = omega (arith, length-push_zeros n (0 ∷ xs))

length-shift : (c : VelocityControl) (sec : ℕ) → length (shift c sec).buckets ≡ length c.buckets
unfolding shift
length-shift c sec =
    let n = min (length c.buckets) (sub_u64 sec c.start_sec / c.bucket_interval) in
    omega (
      arith,
      length-push_zeros n (take (length c.buckets - n) c.buckets),
      length-take (length c.buckets - n) c.buckets,
    )

charge_unlimited :
    (c : VelocityControl) (msat : ℕ) (buckets : List ℕ)
    → c.buckets ≡ buckets
    → c.limit ≡ u64_max
    → 0 < length c.buckets
    → (d : VelocityControl) × (charge c msat ≡ ok (d, true))
unfolding charge saturating_add add_to_first
charge_unlimited c msat [] e l h = absurd (omega (arith, ap length e))
charge_unlimited c msat (bucket ∷ rest) e l h =
    (record c { buckets = saturating_add bucket msat ∷ rest }, ground arith)

-- A control whose limit is the largest u64 accepts every payment, at any time and of any amount,
-- without a panic, if it has a bucket and an interval.
pub insert_unlimited :
    (c : VelocityControl) (sec msat : ℕ)
    → is_unlimited c ≡ true
    → 0 < c.bucket_interval
    → 0 < length c.buckets
    → (d : VelocityControl) × (insert c sec msat ≡ ok (d, true))
unfolding is_unlimited
insert_unlimited c sec msat u i b = rw (insert-eq-charge c sec msat i) (
    charge_unlimited (shift c sec) msat _ refl (ground (arith, limit-shift c sec))
      (rw (length-shift c sec) b))

-- Requests in turn, with the history of those that were accepted, newest first.
unfoldable pub run :
    VelocityControl → List Charge → List Charge → Outcome (VelocityControl × List Charge)
run c log [] = ok (c, log)
run c log (x ∷ xs) = insert c x.sec x.msat >>= λ (d, accepted). run d (log_if accepted x log) xs

-- Times do not fall, and fit a u64.
abbrev pub InOrder : ℕ → List Charge → Type 0
InOrder start [] = Unit
InOrder start (x ∷ xs) = (start ≤ x.sec) × (x.sec < u64_mod) × InOrder x.sec xs

InOrder-earlier : (d e : ℕ) (xs : List Charge) → d ≤ e → InOrder e xs → InOrder d xs
InOrder-earlier d e [] h o = tt
InOrder-earlier d e (x ∷ xs) h o = (omega arith, o.1, o.2)

pub record Ran (c : VelocityControl) (log xs : List Charge) : Type 0 where
  pub after : VelocityControl
  pub accepted : List Charge
  pub returns : run c log xs ≡ ok (after, accepted)
  pub tracks : Tracks after accepted
  pub same : Same c after

run-Ran :
    (c : VelocityControl) (log xs : List Charge)
    → Tracks c log
    → InOrder c.start_sec xs
    → Ran c log xs
unfolding run
run-Ran c log [] t o = record {
  after = c;
  accepted = log;
  returns = refl;
  tracks = t;
  same = record { same_interval = refl; same_limit = refl; same_length = refl };
}
run-Ran c log (x ∷ xs) t (past, small, later) =
    let r = insert-Records c log x t past small in
    let rest = run-Ran r.after _ xs r.tracks (InOrder-earlier _ x.sec xs r.on_time later) in
    record {
      after = rest.after;
      accepted = rest.accepted;
      returns = rw r.returns rest.returns;
      tracks = rest.tracks;
      same = record {
        same_interval = rest.same.same_interval ∙ r.same.same_interval;
        same_limit = rest.same.same_limit ∙ r.same.same_limit;
        same_length = rest.same.same_length ∙ r.same.same_length;
      };
    }

window_nil : (interval n : ℕ) → replicate n 0 ≡ window interval n 0 []
window_nil interval zero = refl
window_nil interval (suc n) = refl

new_with_intervals-Tracks :
    (limit interval n : ℕ)
    → limit < u64_max
    → 0 < interval
    → 0 < n
    → (c : VelocityControl) × (new_with_intervals limit interval n ≡ ok c)
      × Tracks c []
      × (c.start_sec ≡ 0)
      × (c.limit ≡ limit)
unfolding new_with_intervals
new_with_intervals-Tracks limit interval n small i b = (
  record { start_sec = 0; bucket_interval = interval; buckets = replicate n 0; limit = limit },
  ground arith,
  record {
    interval_pos = i;
    buckets_pos = rw (length-replicate {A = ℕ} n 0) b;
    aligned = rw (zero-div interval) (omega arith);
    counted = rw (length-replicate {A = ℕ} n 0, zero-div interval) (window_nil interval n);
    before = tt;
    within = rw (sum-replicate n) (omega arith);
    limited = small;
  },
  refl,
  refl,
)

triple_pos :
    (spec : VelocityControlSpec) → (0 < (spec_to_triple spec).1) × (0 < (spec_to_triple spec).2)
unfolding spec_to_triple
triple_pos spec = ground arith

-- A control made from a spec whose limit is not the largest u64 takes any sequence of payments
-- in order of time without a panic, and in the end the accepted payments of the current window
-- of buckets add up to no more than the limit of the spec.
pub new-run-within :
    (spec : VelocityControlSpec) (xs : List Charge)
    → (spec_to_triple spec).0 < u64_max
    → InOrder 0 xs
    → (c d : VelocityControl) × (log : List Charge) × (new spec ≡ ok c)
      × (run c [] xs ≡ ok (d, log))
      × (spent d d.start_sec log ≤ (spec_to_triple spec).0)
unfolding new
new-run-within spec xs small o =
    let (limit, interval, n) = spec_to_triple spec in
    let (c, made, t, start, lim) =
      new_with_intervals-Tracks limit interval n small (triple_pos spec).0 (triple_pos spec).1 in
    let r = run-Ran c [] xs t (rw start o) in
    (
      c,
      r.after,
      r.accepted,
      made,
      r.returns,
      omega (arith, Tracks-spent r.after r.accepted r.tracks, r.same.same_limit, lim),
    )
