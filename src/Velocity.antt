-- ===== src/Velocity.antt =====
-- vls-core/src/util/velocity.rs: a limit on the amount per unit of time, tracked in buckets.
-- `usize` is taken as 64 bits wide, so that `nshift as usize` keeps its value.
pub mod Window
pub mod Limit
pub mod History
mod Tests
use vls.Prelude.{
  ℕ, zero, suc, ◌+◌, ◌-◌, ◌/◌, ◌%◌, min, Bool, true, false, ◌&&◌, List, [], ◌∷◌, length, take,
  replicate, ltb, ◌==◌, if◌then◌else◌, u64_max, sub_u64, saturating_add, Outcome, ok, panic, assert,
  ◌>>=◌, ◌>>◌, map,
}

pub record VelocityControl : Type 0 where
  pub start_sec : ℕ
  pub bucket_interval : ℕ
  pub buckets : List ℕ
  pub limit : ℕ

pub data VelocityControlIntervalType : Type 0 where
  hourly daily unlimited : VelocityControlIntervalType

pub record VelocityControlSpec : Type 0 where
  pub limit_msat : ℕ
  pub interval_type : VelocityControlIntervalType

-- `VelocityControlSpec::UNLIMITED`
abbrev pub unlimited_spec : VelocityControlSpec
unlimited_spec = record { limit_msat = 0; interval_type = VelocityControlIntervalType.unlimited }

pub new_with_intervals : ℕ → ℕ → ℕ → Outcome VelocityControl
new_with_intervals limit_msat bucket_interval num_buckets = do
  assert (ltb 0 bucket_interval && ltb 0 num_buckets)
  ok (record {
    start_sec = 0;
    bucket_interval = bucket_interval;
    buckets = replicate num_buckets 0;
    limit = limit_msat;
  })

pub new_unlimited : ℕ → ℕ → Outcome VelocityControl
unfolding new_with_intervals
new_unlimited bucket_interval num_buckets = new_with_intervals u64_max bucket_interval num_buckets

abbrev triple_of : VelocityControlIntervalType → ℕ → ℕ × ℕ × ℕ
triple_of VelocityControlIntervalType.hourly limit = (limit, 300, 12)
triple_of VelocityControlIntervalType.daily limit = (limit, 3600, 24)
triple_of VelocityControlIntervalType.unlimited limit = (u64_max, 300, 12)

-- The limit, the interval of a bucket in seconds and the number of buckets.
pub spec_to_triple : VelocityControlSpec → ℕ × ℕ × ℕ
spec_to_triple spec = triple_of spec.interval_type spec.limit_msat

pub new : VelocityControlSpec → Outcome VelocityControl
unfolding spec_to_triple new_with_intervals
new spec =
    let (limit, bucket_interval, num_buckets) = spec_to_triple spec in
    new_with_intervals limit bucket_interval num_buckets

pub spec_matches : VelocityControl → VelocityControlSpec → Bool
unfolding spec_to_triple
spec_matches c spec =
    let (limit, bucket_interval, num_buckets) = spec_to_triple spec in
    (c.limit == limit)
    && ((c.bucket_interval == bucket_interval) && (length c.buckets == num_buckets))

pub update_spec : VelocityControl → VelocityControlSpec → VelocityControl
unfolding spec_matches
update_spec c spec =
    let (limit, bucket_interval, num_buckets) = spec_to_triple spec in
    if spec_matches c spec then c else record {
      start_sec = 0;
      bucket_interval = bucket_interval;
      buckets = replicate num_buckets 0;
      limit = limit;
    }

pub with_state : VelocityControl → ℕ × List ℕ → VelocityControl
with_state c (start_sec, buckets) = record c { start_sec = start_sec; buckets = buckets }

pub load_from_state : VelocityControlSpec → ℕ × List ℕ → Outcome VelocityControl
unfolding new with_state
load_from_state spec state = do control ← new spec; ok (with_state control state)

pub get_state : VelocityControl → ℕ × List ℕ
get_state c = (c.start_sec, c.buckets)

pub is_unlimited : VelocityControl → Bool
is_unlimited c = c.limit == u64_max

-- The fold of `velocity` over the buckets.
unfoldable pub total_from : ℕ → List ℕ → ℕ
total_from acc [] = acc
total_from acc (bucket ∷ buckets) = total_from (saturating_add acc bucket) buckets

unfoldable pub velocity : VelocityControl → ℕ
unfolding total_from
velocity c = total_from 0 c.buckets

-- `buckets.insert(0, 0)`, so often.
unfoldable pub push_zeros : ℕ → List ℕ → List ℕ
push_zeros zero buckets = buckets
push_zeros (suc n) buckets = push_zeros n (0 ∷ buckets)

-- The first half of `insert`: drop the buckets that are too old, and put in empty ones.
unfoldable pub shift : VelocityControl → ℕ → VelocityControl
unfolding push_zeros
shift c current_sec =
    let len = length c.buckets in
    let nshift = min len (sub_u64 current_sec c.start_sec / c.bucket_interval) in
    record c {
      buckets = push_zeros nshift (take (len - nshift) c.buckets);
      start_sec = current_sec - current_sec % c.bucket_interval;
    }

-- `buckets[0] = buckets[0].saturating_add(velocity_msat)`
unfoldable pub add_to_first : List ℕ → ℕ → Outcome (List ℕ)
add_to_first [] velocity_msat = panic
add_to_first (bucket ∷ buckets) velocity_msat = ok (saturating_add bucket velocity_msat ∷ buckets)

-- The second half of `insert`, on the shifted control.
unfoldable pub charge : VelocityControl → ℕ → Outcome (VelocityControl × Bool)
unfolding velocity add_to_first
charge c velocity_msat =
    if ltb c.limit (saturating_add (velocity c) velocity_msat)
    then ok (c, false)
    else (add_to_first c.buckets velocity_msat >>= λ buckets.
        ok (record c { buckets = buckets }, true))

-- Division by an interval of zero panics.
unfoldable pub insert : VelocityControl → ℕ → ℕ → Outcome (VelocityControl × Bool)
unfolding shift charge
insert c current_sec velocity_msat =
    if c.bucket_interval == 0 then panic else charge (shift c current_sec) velocity_msat

unfoldable pub clear : VelocityControl → VelocityControl
clear c = record c { buckets = map (λ bucket. 0) c.buckets }
