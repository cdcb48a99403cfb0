-- ===== src/Velocity/Tests.antt =====
-- Runs of a velocity control, and the theorems at concrete inputs.
use vls.Prelude.{◌≡◌, ℕ, ◌≤◌, refl, true, List, [], ◌∷◌, arith, ok, saturating_add, sub_u64}
use vls.Velocity.{
  VelocityControl, VelocityControlSpec, VelocityControlIntervalType, insert, new, spec_to_triple,
}
use vls.Velocity.Window.{Charge}
use vls.Velocity.Limit.{Tracks, Records, insert-Records, spent}
use vls.Velocity.History.{run, new-run-within}

abbrev small : VelocityControl
small = record { start_sec = 0; bucket_interval = 10; buckets = 0 ∷ 0 ∷ 0 ∷ 0 ∷ []; limit = 100 }

abbrev pay : ℕ → ℕ → Charge
pay sec msat = record { sec = sec; msat = msat }

-- The inserts of `test_velocity`, up to the first that is dropped for its size.
run-small :
    run small [] (pay 1100 90 ∷ pay 1101 11 ∷ pay 1101 10 ∷ pay 1139 90 ∷ pay 1140 90 ∷ [])
    ≡ ok (
      record small { start_sec = 1140; buckets = 90 ∷ 0 ∷ 0 ∷ 0 ∷ [] },
      pay 1140 90 ∷ pay 1101 10 ∷ pay 1100 90 ∷ [],
    )
unfolding run insert saturating_add sub_u64
run-small = refl

small-Tracks : Tracks small []
small-Tracks = record {
  interval_pos = omega arith;
  buckets_pos = omega arith;
  aligned = refl;
  counted = refl;
  before = tt;
  within = omega arith;
  limited = omega arith;
}

insert-Records_example : Records small [] (pay 1100 90) true (insert small 1100 90)
insert-Records_example =
    insert-Records small [] (pay 1100 90) small-Tracks (omega arith) (omega arith)

abbrev hourly_spec : VelocityControlSpec
hourly_spec = record { limit_msat = 1000; interval_type = VelocityControlIntervalType.hourly }

new-run-within_example :
    (c d : VelocityControl) × (log : List Charge) × (new hourly_spec ≡ ok c)
    × (run c [] (pay 5000 600 ∷ pay 5300 600 ∷ []) ≡ ok (d, log))
    × (spent d d.start_sec log ≤ 1000)
unfolding spec_to_triple
new-run-within_example =
    new-run-within hourly_spec (pay 5000 600 ∷ pay 5300 600 ∷ []) (omega arith) (omega arith)
