-- ===== src/Base/Sort.antt =====
-- `slice::sort_by`: a stable sort. Every stable sort gives the same list, so it is written as the
-- shortest one.
use Prim.Native.Nat.{Ordering}
use mathlib.Core.Path.{◌≡◌, refl, sym, ap, ◌∙◌, subst}
use mathlib.Core.Logic.{◌⊎◌, inl, inr, ◌↔◌}
use mathlib.Core.Bool.{Bool, true}
use mathlib.Core.List.{List, [], ◌∷◌, ◌++◌, Memᴰ, Perm}
use mathlib.Core.List.Memᴰ
use mathlib.Core.List.Perm
use native.Mathlib.Omega.{arith}
use stat_guardian.Base.Tests.{Bool-cases, if◌then◌else◌}
use stat_guardian.Base.Lists.{filter, Memᴰ-cons}
use stat_guardian.Base.Order.{is_le, IsOrder}

-- Every item of the list has the property.
abbrev pub All {ℓ κ} : {A : Type ℓ} → (A → Type κ) → List A → Type κ
All P [] = Unit
All P (x ∷ xs) = P x × All P xs

-- `R` holds of each item and every item behind it.
abbrev pub AllPairs {ℓ κ} : {A : Type ℓ} → (A → A → Type κ) → List A → Type κ
AllPairs R [] = Unit
AllPairs R (x ∷ xs) = All (R x) xs × AllPairs R xs

pub All-mem {ℓ κ} :
    {A : Type ℓ} (P : A → Type κ) (xs : List A) → ((a : A) → Memᴰ a xs → P a) → All P xs
All-mem P [] h = tt
All-mem P (x ∷ xs) h = (h x (Memᴰ.head refl), All-mem P xs (λ a m. h a (Memᴰ.tail m)))

pub All_at {ℓ κ} :
    {A : Type ℓ} (P : A → Type κ) (xs : List A) → All P xs → (a : A) → Memᴰ a xs → P a
All_at P [] all a m = absurd (Memᴰ.not-nil m)
All_at P (x ∷ xs) all a m = elim ((Memᴰ-cons a x xs).0 m) [
  | inl e ↦ subst P (sym e) all.0
  | inr later ↦ All_at P xs all.1 a later
]

pub All-append {ℓ κ} :
    {A : Type ℓ} (P : A → Type κ) (xs ys : List A) → All P xs → All P ys → All P (xs ++ ys)
All-append P [] ys all all' = all'
All-append P (x ∷ xs) ys all all' = (all.0, All-append P xs ys all.1 all')

pub All-filter {ℓ κ} :
    {A : Type ℓ} (P : A → Type κ) (p : A → Bool) (xs : List A) → All P xs → All P (filter p xs)
All-filter P p [] all = tt
All-filter P p (x ∷ xs) all = ground (arith, All-filter P p xs all.1)

module _ {ℓ} {A : Type ℓ} (cmp : A → A → Ordering) where
  unfoldable pub insert_by : A → List A → List A
  insert_by x [] = x ∷ []
  insert_by x (y ∷ ys) =
      let rest = insert_by x ys in if is_le (cmp x y) then x ∷ y ∷ ys else y ∷ rest

  unfoldable pub sort_by : List A → List A
  unfolding insert_by
  sort_by [] = []
  sort_by (x ∷ xs) = insert_by x (sort_by xs)

  -- Each item comes before all that it must not follow.
  abbrev pub IsSorted : List A → Type ℓ
  IsSorted [] = Unit
  IsSorted (x ∷ xs) = All (λ y. is_le (cmp x y) ≡ true) xs × IsSorted xs

  insert_by-perm : (x : A) (ys : List A) → Perm (insert_by x ys) (x ∷ ys)
  unfolding insert_by
  insert_by-perm x [] = Perm.refl _
  insert_by-perm x (y ∷ ys) = elim (Bool-cases (is_le (cmp x y))) [
    | inl first ↦ rw first (Perm.refl _)
    | inr later ↦ rw later (Perm.trans (Perm.cons y (insert_by-perm x ys)) (Perm.swap x y ys))
  ]

  pub sort_by-perm : (xs : List A) → Perm (sort_by xs) xs
  unfolding sort_by
  sort_by-perm [] = Perm.refl _
  sort_by-perm (x ∷ xs) = Perm.trans (insert_by-perm x (sort_by xs)) (Perm.cons x (sort_by-perm xs))

  pub Memᴰ-insert_by : (a x : A) (ys : List A) → Memᴰ a (insert_by x ys) ↔ ((a ≡ x) ⊎ Memᴰ a ys)
  unfolding insert_by
  Memᴰ-insert_by a x [] = Memᴰ-cons a x []
  Memᴰ-insert_by a x (y ∷ ys) = ground (
    arith,
    Memᴰ-insert_by a x ys,
    Memᴰ-cons a x (y ∷ ys),
    Memᴰ-cons a y ys,
    Memᴰ-cons a y (insert_by x ys),
  )

  pub Memᴰ-sort_by : (a : A) (xs : List A) → Memᴰ a (sort_by xs) ↔ Memᴰ a xs
  unfolding sort_by
  Memᴰ-sort_by a [] = (λ m. m, λ m. m)
  Memᴰ-sort_by a (x ∷ xs) =
      ground (arith, Memᴰ-insert_by a x (sort_by xs), Memᴰ-cons a x xs, Memᴰ-sort_by a xs)

  module _ (o : IsOrder cmp) where
    All-le :
        (x y : A) (ys : List A)
        → is_le (cmp x y) ≡ true
        → All (λ z. is_le (cmp y z) ≡ true) ys
        → All (λ z. is_le (cmp x z) ≡ true) ys
    All-le x y [] h all = tt
    All-le x y (z ∷ zs) h all = (o.trans x y z h all.0, All-le x y zs h all.1)

    All-insert_by :
        (y x : A) (ys : List A)
        → is_le (cmp y x) ≡ true
        → All (λ z. is_le (cmp y z) ≡ true) ys
        → All (λ z. is_le (cmp y z) ≡ true) (insert_by x ys)
    unfolding insert_by
    All-insert_by y x [] h all = (h, tt)
    All-insert_by y x (z ∷ zs) h all = ground (arith, All-insert_by y x zs h)

    insert_by-IsSorted : (x : A) (ys : List A) → IsSorted ys → IsSorted (insert_by x ys)
    unfolding insert_by
    insert_by-IsSorted x [] s = (tt, tt)
    insert_by-IsSorted x (y ∷ ys) s = elim (Bool-cases (is_le (cmp x y))) [
      | inl first ↦ rw first ((first, All-le x y ys first s.0), s)
      | inr later ↦
          let back : is_le (cmp y x) ≡ true = ground (arith, o.flips x y) in
          rw later (All-insert_by y x ys back s.0, insert_by-IsSorted x ys s.1)
    ]

    pub sort_by-IsSorted : (xs : List A) → IsSorted (sort_by xs)
    unfolding sort_by
    sort_by-IsSorted [] = tt
    sort_by-IsSorted (x ∷ xs) = insert_by-IsSorted x (sort_by xs) (sort_by-IsSorted xs)

  -- Items that compare equal to each other keep their order.
  filter-insert_by :
      (p : A → Bool) (x : A) (ys : List A)
      → ((y : A) → p x ≡ true → p y ≡ true → is_le (cmp x y) ≡ true)
      → filter p (insert_by x ys) ≡ filter p (x ∷ ys)
  unfolding insert_by
  filter-insert_by p x [] h = refl
  filter-insert_by p x (y ∷ ys) h = ground (arith, h y, filter-insert_by p x ys h)

  pub filter-sort_by :
      (p : A → Bool) (xs : List A)
      → ((x y : A) → p x ≡ true → p y ≡ true → is_le (cmp x y) ≡ true)
      → filter p (sort_by xs) ≡ filter p xs
  unfolding sort_by
  filter-sort_by p [] h = refl
  filter-sort_by p (x ∷ xs) h =
      filter-insert_by p x (sort_by xs) (h x) ∙ ground (arith, filter-sort_by p xs h)

  insert_by_first :
      (x : A) (ys : List A) → All (λ y. is_le (cmp x y) ≡ true) ys → insert_by x ys ≡ x ∷ ys
  unfolding insert_by
  insert_by_first x [] h = refl
  insert_by_first x (y ∷ ys) h = rw (h.0)

  -- A sorted list is left as it is.
  pub sort_by_of_IsSorted : (xs : List A) → IsSorted xs → sort_by xs ≡ xs
  unfolding sort_by
  sort_by_of_IsSorted [] s = refl
  sort_by_of_IsSorted (x ∷ xs) s =
      ap (insert_by x) (sort_by_of_IsSorted xs s.1) ∙ insert_by_first x xs s.0
