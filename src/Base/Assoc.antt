-- ===== src/Base/Assoc.antt =====
-- Maps as association lists: `IndexMap` with its order of insertion, `HashMap` where no order shows.
use mathlib.Core.Path.{◌≡◌, refl, sym, subst, subst₂}
use mathlib.Core.Logic.{inl, inr}
use mathlib.Core.Option.{Option, none, some}
use mathlib.Core.List.{List, [], ◌∷◌, Memᴰ}
use native.Mathlib.Omega.{arith}
use stat_guardian.Base.Tests.{if◌then◌else◌, Bool-cases}
use stat_guardian.Base.Sort.{All}
use stat_guardian.Base.Equality.{Eq, ◌==◌}

module _ {ℓ κ} {K : Type ℓ} {V : Type κ} ⦃e : Eq K⦄ where
  unfoldable pub get : K → List (K × V) → Option V
  get k [] = none
  get k ((j, v) ∷ m) = if j == k then some v else get k m

  -- A key that is there keeps its place and gets the new value.
  unfoldable pub insert : K → V → List (K × V) → List (K × V)
  insert k v [] = (k, v) ∷ []
  insert k v ((j, w) ∷ m) = if j == k then (j, v) ∷ m else (j, w) ∷ insert k v m

  pub get-insert :
      (k j : K) (v : V) (m : List (K × V))
      → get j (insert k v m) ≡ (if k == j then some v else get j m)
  unfolding get insert
  get-insert k j v [] = refl
  get-insert k j v ((i, w) ∷ m) =
      ground (arith, e.is_same_iff k j, e.is_same_iff i k, e.is_same_iff i j, get-insert k j v m)

  -- What is found stands in the list, under its key.
  pub get-mem : (k : K) (m : List (K × V)) (v : V) → get k m ≡ some v → Memᴰ (k, v) m
  unfolding get
  get-mem k [] v h = cc
  get-mem k ((j, w) ∷ m) v h = elim (Bool-cases (j == k)) [
    | inl same ↦ Memᴰ.head (let i = (e.is_same_iff j k).0 same in ground arith)
    | inr other ↦ Memᴰ.tail (get-mem k m v (ground arith))
  ]

  module _ {μ} (P : K × V → Type μ) where
    pub All-get : (k : K) (m : List (K × V)) (v : V) → All P m → get k m ≡ some v → P (k, v)
    unfolding get
    All-get k [] v all h = cc
    All-get k ((j, w) ∷ m) v all h = elim (Bool-cases (j == k)) [
      | inl same ↦
          let i : j ≡ k = (e.is_same_iff j k).0 same in
          let value : w ≡ v = ground arith in subst₂ (λ k v. P (k, v)) i value all.0
      | inr other ↦ All-get k m v all.1 (ground arith)
    ]

    pub All-insert : (k : K) (v : V) (m : List (K × V)) → All P m → P (k, v) → All P (insert k v m)
    unfolding insert
    All-insert k v [] all p = (p, tt)
    All-insert k v ((j, w) ∷ m) all p = elim (Bool-cases (j == k)) [
      | inl same ↦ rw same (subst (λ i. P (i, v)) (sym ((e.is_same_iff j k).0 same)) p, all.1)
      | inr other ↦ rw other (all.0, All-insert k v m all.1 p)
    ]
