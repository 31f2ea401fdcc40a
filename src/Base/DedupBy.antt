-- ===== src/Base/DedupBy.antt =====
-- `Vec::dedup_by` with a test that is no equality.
use Prim.Native.Nat.{Ordering}
use mathlib.Core.Path.{◌≡◌, refl, ap}
use mathlib.Core.Logic.{inl, inr, ◌↔◌}
use mathlib.Core.Bool.{Bool, true, false}
use mathlib.Core.List.{List, [], ◌∷◌}
use native.Mathlib.Omega.{arith}
use stat_guardian.Base.Tests.{Bool-cases, if◌then◌else◌}
use stat_guardian.Base.Lists.{filter, take}
use stat_guardian.Base.Order.{is_le, IsOrder}
use stat_guardian.Base.Sort.{All, IsSorted}
use stat_guardian.Base.Dedup.{All-imp}

module _ {ℓ} {A : Type ℓ} (same : A → A → Bool) where
  -- the rest of a list behind the item `x` that was kept last
  unfoldable pub dedup_by_after : A → List A → List A
  dedup_by_after x [] = []
  dedup_by_after x (y ∷ ys) =
      let dropped = dedup_by_after x ys in
      let kept = y ∷ dedup_by_after y ys in if same y x then dropped else kept

  unfoldable pub dedup_by : List A → List A
  unfolding dedup_by_after
  dedup_by [] = []
  dedup_by (x ∷ xs) = x ∷ dedup_by_after x xs

  module _ (cmp : A → A → Ordering) (o : IsOrder cmp)
      (same_iff : (a b : A) → (same a b ≡ true) ↔ (cmp a b ≡ Ordering.eq)) where
    All-dedup_by_after {κ} :
        (P : A → Type κ) (x : A) (ys : List A) → All P ys → All P (dedup_by_after x ys)
    unfolding dedup_by_after
    All-dedup_by_after P x [] all = tt
    All-dedup_by_after P x (y ∷ ys) all =
        ground (arith, All-dedup_by_after P x ys all.1, All-dedup_by_after P y ys all.1)

    dedup_by_after-IsSorted :
        (x : A) (ys : List A) → IsSorted cmp (x ∷ ys) → IsSorted cmp (x ∷ dedup_by_after x ys)
    unfolding dedup_by_after
    dedup_by_after-IsSorted x [] s = (tt, tt)
    dedup_by_after-IsSorted x (y ∷ ys) (all, s) = elim (Bool-cases (same y x)) [
      | inl again ↦ rw again (dedup_by_after-IsSorted x ys (all.1, s.1))
      | inr new ↦ rw new ((all.0, All-dedup_by_after _ y ys all.1), dedup_by_after-IsSorted y ys s)
    ]

    pub dedup_by-IsSorted : (xs : List A) → IsSorted cmp xs → IsSorted cmp (dedup_by xs)
    unfolding dedup_by
    dedup_by-IsSorted [] s = tt
    dedup_by-IsSorted (x ∷ xs) s = dedup_by_after-IsSorted x xs s

    -- `p` picks the items that compare equal to each other, of one value.
    module _ (p : A → Bool)
        (one : (a b : A) → p a ≡ true → (p b ≡ true) ↔ (cmp a b ≡ Ordering.eq)) where
      filter_none : (ys : List A) → All (λ y. p y ≡ false) ys → filter p ys ≡ []
      filter_none [] all = refl
      filter_none (y ∷ ys) all = ground (arith, filter_none ys all.1)

      unpicked_beyond :
          (x y z : A)
          → p x ≡ true
          → is_le (cmp x y) ≡ true
          → same y x ≡ false
          → is_le (cmp y z) ≡ true
          → p z ≡ false
      unpicked_beyond x y z picked le new after =
          ground (arith, one x z, o.flips x z, o.trans y z x, o.flips x y, same_iff y x)

      -- Behind an item that `p` picks no other is kept that it picks.
      filter-after_picked :
          (x : A) (ys : List A)
          → IsSorted cmp (x ∷ ys)
          → p x ≡ true
          → filter p (dedup_by_after x ys) ≡ []
      unfolding dedup_by_after
      filter-after_picked x [] s picked = refl
      filter-after_picked x (y ∷ ys) (all, s) picked = elim (Bool-cases (same y x)) [
        | inl again ↦ rw again (filter-after_picked x ys (all.1, s.1) picked)
        | inr new ↦
            let fresh : p y ≡ false = ground (arith, same_iff y x, one x y, o.flips x y) in
            rw (new, fresh)
              (filter_none _ (
                All-dedup_by_after _ y ys
                  (All-imp ys (λ z after. unpicked_beyond x y z picked all.0 new after) s.0)))
      ]

      filter-after :
          (x : A) (ys : List A)
          → IsSorted cmp (x ∷ ys)
          → filter p (x ∷ dedup_by_after x ys) ≡ take 1 (filter p (x ∷ ys))
      unfolding dedup_by_after
      filter-after x [] s = ground arith
      filter-after x (y ∷ ys) (all, s) = elim (Bool-cases (p x)) [
        | inl picked ↦ rw picked (ap (◌∷◌ x) (filter-after_picked x (y ∷ ys) (all, s) picked))
        | inr other ↦ elim (Bool-cases (same y x)) [
          | inl again ↦ ground (arith, one y x, same_iff y x, filter-after x ys (all.1, s.1))
          | inr new ↦ rw (new, other) (filter-after y ys s)
        ]
      ]

      pub filter-dedup_by :
          (xs : List A) → IsSorted cmp xs → filter p (dedup_by xs) ≡ take 1 (filter p xs)
      unfolding dedup_by
      filter-dedup_by [] s = refl
      filter-dedup_by (x ∷ xs) s = filter-after x xs s
