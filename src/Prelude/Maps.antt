-- ===== src/Prelude/Maps.antt =====
-- Maps from numbers as lists of pairs. The first pair of a key counts; a change keeps the order,
-- which the source's maps hide.
use Prim.Native.Nat.{ℕ}
use mathlib.Core.Path.{◌≡◌, refl}
use mathlib.Core.Bool.{Bool, true, false, ◌||◌}
use mathlib.Core.Option.{Option, none, some}
use mathlib.Core.List.{List, [], ◌∷◌, ◌++◌}
use native.Mathlib.Omega.{arith}
use vls.Prelude.Tests.{◌==◌, if◌then◌else◌, is_some}

abbrev pub Map {ℓ} : Type ℓ → Type ℓ
Map A = List (ℕ × A)

module _ {ℓ} {A : Type ℓ} where
  abbrev pub get : Map A → ℕ → Option A
  get [] k = none
  get ((j, v) ∷ rest) k = if j == k then some v else get rest k

  abbrev pub unwrap_or : A → Option A → A
  unwrap_or d none = d
  unwrap_or d (some v) = v

  -- `get(k).unwrap_or(d)`
  abbrev pub get_or : A → Map A → ℕ → A
  get_or d m k = unwrap_or d (get m k)

  -- `contains_key`
  abbrev pub has : Map A → ℕ → Bool
  has m k = is_some (get m k)

  -- `insert(k, v)`
  unfoldable pub put : ℕ → A → Map A → Map A
  put k v [] = (k, v) ∷ []
  put k v ((j, w) ∷ rest) =
      let later = put k v rest in if j == k then (j, v) ∷ rest else (j, w) ∷ later

  -- `entry(k).or_insert(v)`
  unfoldable pub or_insert : ℕ → A → Map A → Map A
  or_insert k v [] = (k, v) ∷ []
  or_insert k v ((j, w) ∷ rest) =
      let later = or_insert k v rest in if j == k then (j, w) ∷ rest else (j, w) ∷ later

  -- `retain(keep)`, for every map without two pairs of a key.
  unfoldable pub retain : (ℕ → A → Bool) → Map A → Map A
  retain keep [] = []
  retain keep ((j, w) ∷ rest) =
      let kept = retain keep rest in if keep j w then (j, w) ∷ kept else kept

  abbrev pub values : Map A → List A
  values [] = []
  values ((j, w) ∷ rest) = w ∷ values rest

  abbrev pub keys_of : Map A → List ℕ
  keys_of [] = []
  keys_of ((j, w) ∷ rest) = j ∷ keys_of rest

  pub get-put :
      (k : ℕ) (v : A) (m : Map A) (j : ℕ) → get (put k v m) j ≡ (if k == j then some v else get m j)
  unfolding put
  get-put k v [] j = refl
  get-put k v ((i, w) ∷ rest) j = ground (arith, get-put k v rest j)

  pub get-or_insert :
      (k : ℕ) (v : A) (m : Map A) (j : ℕ)
      → get (or_insert k v m) j ≡ (if k == j then some (get_or v m j) else get m j)
  unfolding or_insert
  get-or_insert k v [] j = refl
  get-or_insert k v ((i, w) ∷ rest) j = ground (arith, get-or_insert k v rest j)

  -- Where the test keeps every pair of a key, what the key has stays.
  pub get-retain_kept :
      (keep : ℕ → A → Bool) (m : Map A) (j : ℕ)
      → ((v : A) → keep j v ≡ true)
      → get (retain keep m) j ≡ get m j
  unfolding retain
  get-retain_kept keep [] j h = refl
  get-retain_kept keep ((i, w) ∷ rest) j h = ground (arith, get-retain_kept keep rest j h, h w)

  pub get-retain_dropped :
      (keep : ℕ → A → Bool) (m : Map A) (j : ℕ)
      → ((v : A) → keep j v ≡ false)
      → get (retain keep m) j ≡ none
  unfolding retain
  get-retain_dropped keep [] j h = refl
  get-retain_dropped keep ((i, w) ∷ rest) j h =
      ground (arith, get-retain_dropped keep rest j h, h w)

  pub put-put : (k : ℕ) (v : A) (m : Map A) → put k v (put k v m) ≡ put k v m
  unfolding put
  put-put k v [] = ground arith
  put-put k v ((i, w) ∷ rest) = ground (arith, put-put k v rest)

abbrev pub contains : List ℕ → ℕ → Bool
contains [] k = false
contains (x ∷ xs) k = (x == k) || contains xs k

module _ {ℓ} {A : Type ℓ} where
  pub contains-keys_of : (m : Map A) (k : ℕ) → contains (keys_of m) k ≡ has m k
  contains-keys_of [] k = refl
  contains-keys_of ((i, w) ∷ rest) k = ground (arith, contains-keys_of rest k)

pub contains-append :
    (xs ys : List ℕ) (k : ℕ) → contains (xs ++ ys) k ≡ (contains xs k || contains ys k)
contains-append [] ys k = refl
contains-append (x ∷ xs) ys k = ground (arith, contains-append xs ys k)
