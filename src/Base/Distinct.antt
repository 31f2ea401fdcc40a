-- ===== src/Base/Distinct.antt =====
-- Lists without repetition stay so under a filter and a sort.
use Prim.Native.Nat.{Ordering}
use mathlib.Core.List.{List, [], ◌∷◌, ◌++◌}
use mathlib.Core.Path.{◌≡◌, refl}
use mathlib.Core.Bool.{Bool, false}
use native.Mathlib.Omega.{arith}
use stat_guardian.Base.Lists.{filter, Memᴰ-filter, Memᴰ-append, Memᴰ-cons, Memᴰ-nil}
use stat_guardian.Base.Equality.{Eq, contains, contains_iff}
use stat_guardian.Base.Sort.{insert_by, sort_by, Memᴰ-insert_by, Memᴰ-sort_by}
use stat_guardian.Base.Dedup.{IsDistinct}

module _ {ℓ} {A : Type ℓ} ⦃e : Eq A⦄ where
  pub filter-IsDistinct : (p : A → Bool) (xs : List A) → IsDistinct xs → IsDistinct (filter p xs)
  filter-IsDistinct p [] d = tt
  filter-IsDistinct p (x ∷ xs) d = ground (
    arith,
    filter-IsDistinct p xs d.1,
    Memᴰ-filter p x xs,
    contains_iff xs x,
    contains_iff (filter p xs) x,
  )

  pub append-IsDistinct :
      (xs : List A) (x : A) → IsDistinct xs → contains xs x ≡ false → IsDistinct (xs ++ x ∷ [])
  append-IsDistinct [] x d h = (refl, tt)
  append-IsDistinct (y ∷ ys) x d h = ground (
    arith,
    append-IsDistinct ys x d.1,
    contains_iff ys y,
    contains_iff (ys ++ x ∷ []) y,
    Memᴰ-append y ys (x ∷ []),
    Memᴰ-cons y x [],
    Memᴰ-nil y,
    e.is_same_iff x y,
  )

  module _ (cmp : A → A → Ordering) where
    insert_by-IsDistinct :
        (x : A) (ys : List A)
        → contains ys x ≡ false
        → IsDistinct ys
        → IsDistinct (insert_by cmp x ys)
    unfolding insert_by
    insert_by-IsDistinct x [] h d = (h, d)
    insert_by-IsDistinct x (y ∷ ys) h d =
        let rest = insert_by cmp x ys in
        ground (
          arith,
          insert_by-IsDistinct x ys,
          Memᴰ-insert_by cmp y x ys,
          contains_iff ys y,
          contains_iff rest y,
          e.is_same_iff x y,
          e.is_same_iff y x,
        )

    pub sort_by-IsDistinct : (xs : List A) → IsDistinct xs → IsDistinct (sort_by cmp xs)
    unfolding sort_by
    sort_by-IsDistinct [] d = tt
    sort_by-IsDistinct (x ∷ xs) d =
        insert_by-IsDistinct x (sort_by cmp xs)
          (ground
            (arith, Memᴰ-sort_by cmp x xs, contains_iff xs x, contains_iff (sort_by cmp xs) x))
          (sort_by-IsDistinct xs d.1)
