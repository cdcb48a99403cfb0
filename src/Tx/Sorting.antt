-- ===== src/Tx/Sorting.antt =====
-- The order of HTLCs, and why a `CommitmentInfo2` does not depend on the order they came in.
use mathlib.Core.HLevel.{hedberg}
use mathlib.Core.List.{Perm, Permᴰ}
use mathlib.Core.List.Perm
use mathlib.Core.List.Permᴰ
use mathlib.Core.Logic.{∥∥₁_elim}
use vls.Prelude.{◌≡◌, refl, sym, ap₂, ◌∙◌, ◌↔◌, subst, Bool, true, false, List, [], ◌∷◌, arith}
use Prim.Native.Nat.{Ordering}
use native.Mathlib.Nat.{ℕ_set}
use vls.Tx.{HtlcInfo2, HtlcInfo2-discrete, cmp, sort, sort_insert}

-- `a <= b`
abbrev pub leb_htlc : HtlcInfo2 → HtlcInfo2 → Bool
leb_htlc a b = elim (cmp a b) [ Ordering.gt ↦ false | _ ↦ true ]

leb_htlc_antisymm : (a b : HtlcInfo2) → leb_htlc a b ≡ true → leb_htlc b a ≡ true → a ≡ b
unfolding cmp
leb_htlc_antisymm a b h k = ground arith

leb_htlc_total : (a b : HtlcInfo2) → leb_htlc a b ≡ false → leb_htlc b a ≡ true
unfolding cmp
leb_htlc_total a b h = ground arith

leb_htlc_trans :
    (a b c : HtlcInfo2) → leb_htlc a b ≡ true → leb_htlc b c ≡ true → leb_htlc a c ≡ true
unfolding cmp
leb_htlc_trans a b c h k = ground arith

sort_insert_comm :
    (a b : HtlcInfo2) (l : List HtlcInfo2)
    → sort_insert a (sort_insert b l) ≡ sort_insert b (sort_insert a l)
unfolding sort_insert
sort_insert_comm a b [] = ground (arith, leb_htlc_antisymm a b, leb_htlc_total a b)
sort_insert_comm a b (x ∷ l) = ground (
  arith,
  leb_htlc_antisymm a b,
  leb_htlc_total a b,
  leb_htlc_trans a b x,
  leb_htlc_trans b a x,
  leb_htlc_trans x a b,
  leb_htlc_trans x b a,
  leb_htlc_total a x,
  leb_htlc_total b x,
  sort_insert_comm a b l,
)

sort_of_Permᴰ : {xs ys : List HtlcInfo2} → Permᴰ xs ys → sort xs ≡ sort ys
unfolding sort
sort_of_Permᴰ Permᴰ.nil = refl
sort_of_Permᴰ (Permᴰ.cons e p) = ap₂ sort_insert e (sort_of_Permᴰ p)
sort_of_Permᴰ (Permᴰ.swap {a = a} {b = b} {l = l} e f) =
    sort_insert_comm a b (sort l) ∙ ap₂ (λ u v. sort_insert u (sort_insert v (sort l))) f e
sort_of_Permᴰ (Permᴰ.trans p q) = sort_of_Permᴰ p ∙ sort_of_Permᴰ q

HtlcInfo2-list_set : IsSet (List HtlcInfo2)
HtlcInfo2-list_set = hlevel (ℕ_set, hedberg HtlcInfo2-discrete)

-- The sort does not depend on the order in which the HTLCs come.
pub sort_of_perm : {xs ys : List HtlcInfo2} → Perm xs ys → sort xs ≡ sort ys
sort_of_perm p = ∥∥₁_elim p (HtlcInfo2-list_set _ _) sort_of_Permᴰ

sort_insert-perm : (a : HtlcInfo2) (l : List HtlcInfo2) → Permᴰ (sort_insert a l) (a ∷ l)
unfolding sort_insert
sort_insert-perm a [] = Permᴰ.refl (a ∷ [])
sort_insert-perm a (x ∷ l) =
    let past : Permᴰ (x ∷ sort_insert a l) (a ∷ x ∷ l) =
      Permᴰ.trans (Permᴰ.cons refl (sort_insert-perm a l)) (Permᴰ.swap refl refl) in
    ground (arith, Permᴰ.refl (a ∷ x ∷ l), past)

sort-Permᴰ : (l : List HtlcInfo2) → Permᴰ (sort l) l
unfolding sort
sort-Permᴰ [] = Permᴰ.nil
sort-Permᴰ (a ∷ l) = Permᴰ.trans (sort_insert-perm a (sort l)) (Permᴰ.cons refl (sort-Permᴰ l))

-- The normal form of a commitment's HTLCs: two lists have the same one exactly when they hold the
-- same HTLCs, as often.
pub sort_iff : (xs ys : List HtlcInfo2) → (sort xs ≡ sort ys) ↔ Perm xs ys
sort_iff xs ys = (
  λ e.
      Perm.trans (Perm.symm ∣ sort-Permᴰ xs ∣₁) (subst (λ l. Perm l ys) (sym e) ∣ sort-Permᴰ ys ∣₁),
  sort_of_perm,
)
