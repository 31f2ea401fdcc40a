-- ===== src/Base/Dedup.antt =====
-- `Vec::dedup`, and the first occurrences that a `HashSet` filter keeps.
use Prim.Native.Nat.{Ordering}
use mathlib.Core.Path.{◌≡◌, refl, ap}
use mathlib.Core.Logic.{◌⊎◌, inl, inr, ◌↔◌}
use mathlib.Core.Bool.{true, false}
use mathlib.Core.List.{List, [], ◌∷◌, Memᴰ}
use native.Mathlib.Omega.{arith}
use stat_guardian.Base.Tests.{Bool-cases, if◌then◌else◌}
use stat_guardian.Base.Lists.{Memᴰ-cons, Memᴰ-nil}
use stat_guardian.Base.Equality.{Eq, ◌==◌, contains, contains_iff}
use stat_guardian.Base.Order.{is_le, IsOrder}
use stat_guardian.Base.Sort.{All, IsSorted}

pub All-imp {ℓ κ μ} :
    {A : Type ℓ} {P : A → Type κ} {Q : A → Type μ} (xs : List A)
    → ((a : A) → P a → Q a)
    → All P xs
    → All Q xs
All-imp [] f all = tt
All-imp (x ∷ xs) f all = (f x all.0, All-imp xs f all.1)

module _ {ℓ} {A : Type ℓ} ⦃e : Eq A⦄ where
  -- the rest of a list behind the item `x` that was kept last
  dedup_after : A → List A → List A
  dedup_after x [] = []
  dedup_after x (y ∷ ys) =
      let dropped = dedup_after x ys in
      let kept = y ∷ dedup_after y ys in if y == x then dropped else kept

  unfoldable pub dedup : List A → List A
  unfolding dedup_after
  dedup [] = []
  dedup (x ∷ xs) = x ∷ dedup_after x xs

  Memᴰ-dedup_after :
      (a x : A) (ys : List A) → ((a ≡ x) ⊎ Memᴰ a (dedup_after x ys)) ↔ ((a ≡ x) ⊎ Memᴰ a ys)
  unfolding dedup_after
  Memᴰ-dedup_after a x [] = (λ m. m, λ m. m)
  Memᴰ-dedup_after a x (y ∷ ys) = ground (
    arith,
    Memᴰ-dedup_after a x ys,
    Memᴰ-dedup_after a y ys,
    e.is_same_iff y x,
    Memᴰ-cons a y ys,
    Memᴰ-cons a y (dedup_after y ys),
  )

  pub Memᴰ-dedup : (a : A) (xs : List A) → Memᴰ a (dedup xs) ↔ Memᴰ a xs
  unfolding dedup
  Memᴰ-dedup a [] = (λ m. m, λ m. m)
  Memᴰ-dedup a (x ∷ xs) =
      ground (arith, Memᴰ-dedup_after a x xs, Memᴰ-cons a x xs, Memᴰ-cons a x (dedup_after x xs))

  module _ (cmp : A → A → Ordering) (o : IsOrder cmp)
      (same : (a b : A) → cmp a b ≡ Ordering.eq → a ≡ b) where
    -- Each item is less than all behind it.
    abbrev pub IsIncreasing : List A → Type ℓ
    IsIncreasing [] = Unit
    IsIncreasing (x ∷ xs) = All (λ y. cmp x y ≡ Ordering.lt) xs × IsIncreasing xs

    lt_trans : (x y z : A) → cmp x y ≡ Ordering.lt → cmp y z ≡ Ordering.lt → cmp x z ≡ Ordering.lt
    lt_trans x y z h k =
        ground
          (arith, o.trans x y z, o.trans z x y, o.flips x z, o.flips x y, o.flips y z, o.flips z y)

    le-ne : (x y : A) → is_le (cmp x y) ≡ true → (y == x) ≡ false → cmp x y ≡ Ordering.lt
    le-ne x y h k = ground (arith, same x y, e.is_same_iff y x)

    dedup_after-IsIncreasing :
        (x : A) (ys : List A) → IsSorted cmp (x ∷ ys) → IsIncreasing (x ∷ dedup_after x ys)
    unfolding dedup_after
    dedup_after-IsIncreasing x [] s = (tt, tt)
    dedup_after-IsIncreasing x (y ∷ ys) (all, s) = elim (Bool-cases (y == x)) [
      | inl again ↦ rw again (dedup_after-IsIncreasing x ys (all.1, s.1))
      | inr new ↦
          let rest = dedup_after-IsIncreasing y ys s in
          let less = le-ne x y all.0 new in
          rw new ((less, All-imp (dedup_after y ys) (λ z. lt_trans x y z less) rest.0), rest)
    ]

    pub dedup-IsIncreasing : (xs : List A) → IsSorted cmp xs → IsIncreasing (dedup xs)
    unfolding dedup
    dedup-IsIncreasing [] s = tt
    dedup-IsIncreasing (x ∷ xs) s = dedup_after-IsIncreasing x xs s

  -- `filter(|x| seen.insert(x))`
  unfoldable pub keep_new : List A → List A → List A
  keep_new seen [] = []
  keep_new seen (x ∷ xs) =
      let old = keep_new seen xs in
      let new = x ∷ keep_new (x ∷ seen) xs in if contains seen x then old else new

  pub Memᴰ-keep_new :
      (a : A) (seen xs : List A)
      → Memᴰ a (keep_new seen xs) ↔ (Memᴰ a xs × (contains seen a ≡ false))
  unfolding keep_new
  Memᴰ-keep_new a seen [] = ground (arith, Memᴰ-nil a)
  Memᴰ-keep_new a seen (x ∷ xs) = ground (
    arith,
    Memᴰ-keep_new a seen xs,
    Memᴰ-keep_new a (x ∷ seen) xs,
    Memᴰ-cons a x xs,
    Memᴰ-cons a x (keep_new (x ∷ seen) xs),
    e.is_same_iff a x,
  )

  -- No item stands twice.
  abbrev pub IsDistinct : List A → Type 0
  IsDistinct [] = Unit
  IsDistinct (x ∷ xs) = (contains xs x ≡ false) × IsDistinct xs

  pub keep_new-IsDistinct : (seen xs : List A) → IsDistinct (keep_new seen xs)
  unfolding keep_new
  keep_new-IsDistinct seen [] = tt
  keep_new-IsDistinct seen (x ∷ xs) =
      let rest = keep_new (x ∷ seen) xs in
      ground (
        arith,
        keep_new-IsDistinct seen xs,
        keep_new-IsDistinct (x ∷ seen) xs,
        Memᴰ-keep_new x (x ∷ seen) xs,
        contains_iff rest x,
        e.is_same_iff x x,
      )

  -- A list of distinct items that were not seen is left as it is.
  pub keep_new_of_IsDistinct :
      (seen xs : List A)
      → IsDistinct xs
      → ((a : A) → Memᴰ a xs → contains seen a ≡ false)
      → keep_new seen xs ≡ xs
  unfolding keep_new
  keep_new_of_IsDistinct seen [] d h = refl
  keep_new_of_IsDistinct seen (x ∷ xs) d h =
      let fresh = h x (Memᴰ.head refl) in
      rw fresh (
        ap (◌∷◌ x) (
          keep_new_of_IsDistinct (x ∷ seen) xs d.1 (λ a m.
            ground
              (arith, h a (Memᴰ.tail m), e.is_same_iff a x, contains_iff xs x, contains_iff xs a))))
