-- ===== src/Secrets.antt =====
-- `CounterpartyCommitmentSecrets` of vls-core/src/policy/validator.rs: the compact store of the
-- revocation secrets of BOLT 3. SHA-256 is a parameter. `idx & (1 << i) == (1 << i)` is the bit
-- `i` of `idx`, and `idx & !((1 << i) - 1)` is `idx` with its lower `i` bits cleared.
use Prim.Native.Nat.{bit_xor}
use native.Mathlib.Decide.{ℕ_discrete}
use vls.Prelude.{
  ℕ, zero, suc, ◌+◌, ◌-◌, ◌/◌, ◌%◌, ◌^◌, Bool, true, false, Option, none, some, List, [], ◌∷◌, ltb,
  leb, ◌==◌, if◌then◌else◌, get_elem?, set, replicate, Outcome, ok, unwrap, assert, ◌>>=◌, ◌>>◌,
}

-- 32 bytes.
abbrev pub Secret : Type 0
Secret = List ℕ

unfoldable pub Secret-discrete : Discrete Secret
Secret-discrete = hlevel ℕ_discrete

abbrev pub secret_eq : Secret → Secret → Bool
secret_eq s t = elim (Secret-discrete s t) [ yes e ↦ true | no e ↦ false ]

pub record CounterpartyCommitmentSecrets : Type 0 where
  pub old_secrets : List (Secret × ℕ)

abbrev pub index_end : ℕ
index_end = 2 ^ 48

unfoldable pub new : CounterpartyCommitmentSecrets
new = record { old_secrets = replicate 49 (replicate 32 0, index_end) }

abbrev pub test_bit : ℕ → ℕ → Bool
test_bit idx i = (idx / 2 ^ i) % 2 == 1

-- The loop of `place_secret` from `i` on, with so many rounds left.
unfoldable pub place_from : ℕ → ℕ → ℕ → ℕ
place_from zero i idx = i
place_from (suc n) i idx = let rest = place_from n (i + 1) idx in if test_bit idx i then i else rest

unfoldable pub place_secret : ℕ → ℕ
unfolding place_from
place_secret idx = place_from 48 0 idx

unfoldable pub min_seen_from : ℕ → List (Secret × ℕ) → ℕ
min_seen_from least [] = least
min_seen_from least ((secret, idx) ∷ rest) =
    min_seen_from (if ltb idx least then idx else least) rest

unfoldable pub get_min_seen_secret : CounterpartyCommitmentSecrets → ℕ
unfolding min_seen_from
get_min_seen_secret s = min_seen_from index_end s.old_secrets

-- `res[(bitpos / 8) as usize] ^= 1 << (bitpos & 7)`
unfoldable pub flip_bit : Secret → ℕ → Secret
flip_bit res bitpos = elim (get_elem? res (bitpos / 8)) [
  | none ↦ res
  | some byte ↦ set res (bitpos / 8) (bit_xor byte (2 ^ (bitpos % 8)))
]

module _ (sha256 : Secret → Secret) where
  unfoldable pub derive_secret : Secret → ℕ → ℕ → Secret
  unfolding flip_bit
  derive_secret res zero idx = res
  derive_secret res (suc bitpos) idx =
      derive_secret (if test_bit idx bitpos then sha256 (flip_bit res bitpos) else res) bitpos idx

  -- The loop of `provide_secret` from `i` on, with so many rounds left: whether the stored
  -- secrets derive from the new one, which goes to `pos`.
  unfoldable pub derives_from : List (Secret × ℕ) → Secret → ℕ → ℕ → ℕ → Outcome Bool
  unfolding derive_secret
  derives_from old_secrets secret pos zero i = ok true
  derives_from old_secrets secret pos (suc n) i =
      let rest = derives_from old_secrets secret pos n (i + 1) in
      unwrap (get_elem? old_secrets i) >>= λ (old_secret, old_idx).
      if secret_eq (derive_secret secret pos old_idx) old_secret then rest else ok false

  -- The write at the end of `provide_secret`: not for an index that was seen before.
  unfoldable pub place_at :
      CounterpartyCommitmentSecrets
      → ℕ
      → ℕ
      → Secret
      → Outcome (Option CounterpartyCommitmentSecrets)
  unfolding get_min_seen_secret
  place_at s pos idx secret =
      if leb (get_min_seen_secret s) idx
      then ok (some s)
      else (unwrap (get_elem? s.old_secrets pos) >>= λ old.
          ok (some (record { old_secrets = set s.old_secrets pos (secret, idx) })))

  -- `none` is `Err(())`. An index past the end of the store panics.
  unfoldable pub provide_secret :
      CounterpartyCommitmentSecrets → ℕ → Secret → Outcome (Option CounterpartyCommitmentSecrets)
  unfolding derives_from place_secret place_at
  provide_secret s idx secret =
      derives_from s.old_secrets secret (place_secret idx) (place_secret idx) 0 >>= λ derives.
      if derives then place_at s (place_secret idx) idx secret else ok none

  -- The loop of `get_secret` from the entry `i` on.
  unfoldable pub find_secret : List (Secret × ℕ) → ℕ → ℕ → Option Secret
  unfolding derive_secret
  find_secret [] i idx = none
  find_secret ((secret, old_idx) ∷ rest) i idx =
      let later = find_secret rest (i + 1) idx in
      if (idx - idx % 2 ^ i) == old_idx then some (derive_secret secret i idx) else later

  abbrev found_or : Option Secret → Bool → Outcome (Option Secret)
  found_or (some secret) below = ok (some secret)
  found_or none below = assert below >> ok none

  unfoldable pub get_secret : CounterpartyCommitmentSecrets → ℕ → Outcome (Option Secret)
  unfolding find_secret get_min_seen_secret
  get_secret s idx = found_or (find_secret s.old_secrets 0 idx) (ltb idx (get_min_seen_secret s))
