-- ===== src/Tests/Sketch.antt =====
-- The sketch of crates/statguardian-stats on three hashes, of which two are the same.
use stat_guardian.Base.{ℕ, ◌^◌, ◌≡◌, refl, List, [], ◌∷◌, Memᴰ, Memᴰ-cons, inl, inr}
use stat_guardian.Stats.Hll.{leading_zeros, new_sketch, rank_of, raise, add, add_all}
use mathlib.Core.List.Memᴰ
use stat_guardian.Stats.Hll.Registers.{add_all-same}

abbrev repeated : List ℕ
repeated = 5 ∷ 5 ∷ 2 ^ 55 ∷ []

abbrev distinct : List ℕ
distinct = 2 ^ 55 ∷ 5 ∷ []

rank_of_5 : rank_of 5 ≡ 48
unfolding rank_of leading_zeros
rank_of_5 = refl

rank_of_0 : rank_of 0 ≡ 65
unfolding rank_of leading_zeros
rank_of_0 = refl

add_all-repeated : add_all repeated (0 ∷ 0 ∷ []) ≡ 48 ∷ 0 ∷ []
unfolding add_all add raise rank_of leading_zeros
add_all-repeated = refl

repeated-distinct : (h : ℕ) → Memᴰ h repeated → Memᴰ h distinct
repeated-distinct h m = elim ((Memᴰ-cons h 5 (5 ∷ 2 ^ 55 ∷ [])).0 m) [
  | inl e ↦ (Memᴰ-cons h (2 ^ 55) (5 ∷ [])).1 (inr ((Memᴰ-cons h 5 []).1 (inl e)))
  | inr rest ↦ elim ((Memᴰ-cons h 5 (2 ^ 55 ∷ [])).0 rest) [
    | inl e ↦ (Memᴰ-cons h (2 ^ 55) (5 ∷ [])).1 (inr ((Memᴰ-cons h 5 []).1 (inl e)))
    | inr last ↦ elim ((Memᴰ-cons h (2 ^ 55) []).0 last) [
      | inl e ↦ (Memᴰ-cons h (2 ^ 55) (5 ∷ [])).1 (inl e)
      | inr none_left ↦ absurd (Memᴰ.not-nil none_left)
    ]
  ]
]

distinct-repeated : (h : ℕ) → Memᴰ h distinct → Memᴰ h repeated
distinct-repeated h m = elim ((Memᴰ-cons h (2 ^ 55) (5 ∷ [])).0 m) [
  | inl e ↦
      (Memᴰ-cons h 5 (5 ∷ 2 ^ 55 ∷ [])).1
        (inr ((Memᴰ-cons h 5 (2 ^ 55 ∷ [])).1 (inr ((Memᴰ-cons h (2 ^ 55) []).1 (inl e)))))
  | inr last ↦ elim ((Memᴰ-cons h 5 []).0 last) [
    | inl e ↦ (Memᴰ-cons h 5 (5 ∷ 2 ^ 55 ∷ [])).1 (inl e)
    | inr none_left ↦ absurd (Memᴰ.not-nil none_left)
  ]
]

add_all-same_example : add_all repeated new_sketch ≡ add_all distinct new_sketch
add_all-same_example = add_all-same repeated distinct new_sketch repeated-distinct distinct-repeated
