-- ===== src/Base/Lists.antt =====
-- Lists measured by native numbers, filters by a test, predicates on all items.
use Prim.Native.Nat.{ℕ, zero, suc, ◌+◌, ◌-◌, ◌≤◌, min}
use native.Mathlib.Nat.{sub-zero}
use native.Mathlib.Decide.{dec_le}
use mathlib.Core.Path.{◌≡◌, refl, ap, ◌∙◌, subst}
use mathlib.Core.Logic.{◌⊎◌, inl, inr, ◌↔◌, ⊎_elim}
use mathlib.Core.Bool.{Bool, true, false}
use mathlib.Core.List.{List, [], ◌∷◌, ◌++◌, Memᴰ}
use mathlib.Core.List.Memᴰ
use native.Mathlib.Omega.{arith}
use stat_guardian.Base.Tests.{ltb, if◌then◌else◌}

module _ {ℓ} {A : Type ℓ} where
  abbrev pub length : List A → ℕ
  length [] = 0
  length (_ ∷ xs) = suc (length xs)

  pub length-append : (xs ys : List A) → length (xs ++ ys) ≡ length xs + length ys
  length-append [] ys = omega arith
  length-append (x ∷ xs) ys = omega (arith, length-append xs ys)

  -- `iter().filter(p)`
  abbrev pub filter : (A → Bool) → List A → List A
  filter p [] = []
  filter p (x ∷ xs) = let rest = filter p xs in if p x then x ∷ rest else rest

  pub length-filter : (p : A → Bool) (xs : List A) → length (filter p xs) ≤ length xs
  length-filter p [] = omega arith
  length-filter p (x ∷ xs) = ground (arith, length-filter p xs)

  pub Memᴰ-cons : (a x : A) (xs : List A) → Memᴰ a (x ∷ xs) ↔ ((a ≡ x) ⊎ Memᴰ a xs)
  Memᴰ-cons a x xs = (Memᴰ.cases_cons, ⊎_elim Memᴰ.head Memᴰ.tail)

  pub Memᴰ-append : (a : A) (xs ys : List A) → Memᴰ a (xs ++ ys) ↔ (Memᴰ a xs ⊎ Memᴰ a ys)
  Memᴰ-append a xs ys = (Memᴰ.append_cases xs, ⊎_elim (Memᴰ.append_left ys) (Memᴰ.append_right xs))

  pub Memᴰ-nil : (a : A) → ¬ Memᴰ a []
  Memᴰ-nil a = Memᴰ.not-nil

-- Some item of the list has the property.
abbrev pub Any {ℓ κ} : {A : Type ℓ} → (A → Type κ) → List A → Type (ℓ ⊔ κ)
Any {A} P xs = (x : A) × Memᴰ x xs × P x

pub Any-nil {ℓ κ} : {A : Type ℓ} (P : A → Type κ) → ¬ Any P []
Any-nil P (x, m, p) = Memᴰ.not-nil m

pub Any-cons {ℓ κ} :
    {A : Type ℓ} (P : A → Type κ) (a : A) (xs : List A) → Any P (a ∷ xs) ↔ (P a ⊎ Any P xs)
Any-cons P a xs = (
  λ (x, m, p). elim (Memᴰ.cases_cons m) [ inl e ↦ inl (subst P e p) | inr m' ↦ inr (x, m', p) ],
  ⊎_elim (λ p. (a, Memᴰ.head refl, p)) (λ (x, m, p). (x, Memᴰ.tail m, p)),
)

pub ⊎_iff {ℓ ℓ' κ κ'} :
    {A : Type ℓ} {B : Type ℓ'} {C : Type κ} {D : Type κ'} → A ↔ C → B ↔ D → (A ⊎ B) ↔ (C ⊎ D)
⊎_iff f g =
    (⊎_elim (λ a. inl (f.0 a)) (λ b. inr (g.0 b)), ⊎_elim (λ c. inl (f.1 c)) (λ d. inr (g.1 d)))

module _ {ℓ} {A : Type ℓ} where
  pub Memᴰ-filter :
      (p : A → Bool) (a : A) (xs : List A) → Memᴰ a (filter p xs) ↔ (Memᴰ a xs × (p a ≡ true))
  Memᴰ-filter p a [] = ground (arith, Memᴰ-nil a)
  Memᴰ-filter p a (x ∷ xs) =
      ground (arith, Memᴰ-filter p a xs, Memᴰ-cons a x xs, Memᴰ-cons a x (filter p xs))

  pub filter_all :
      (p : A → Bool) (xs : List A) → ((a : A) → Memᴰ a xs → p a ≡ true) → filter p xs ≡ xs
  filter_all p [] h = refl
  filter_all p (x ∷ xs) h =
      rw (h x (Memᴰ.head refl)) (ap (◌∷◌ x) (filter_all p xs (λ a m. h a (Memᴰ.tail m))))

module _ {ℓ} {A : Type ℓ} where
  abbrev pub take : ℕ → List A → List A
  take zero xs = []
  take (suc n) [] = []
  take (suc n) (x ∷ xs) = x ∷ take n xs

  abbrev pub drop : ℕ → List A → List A
  drop zero xs = xs
  drop (suc n) [] = []
  drop (suc n) (x ∷ xs) = drop n xs

  pub length-take : (n : ℕ) (xs : List A) → length (take n xs) ≡ min n (length xs)
  length-take zero xs = omega arith
  length-take (suc n) [] = omega arith
  length-take (suc n) (x ∷ xs) = omega (arith, length-take n xs)

  pub length-drop : (n : ℕ) (xs : List A) → length (drop n xs) ≡ length xs - n
  length-drop zero xs = omega arith
  length-drop (suc n) [] = omega arith
  length-drop (suc n) (x ∷ xs) = omega (arith, length-drop n xs)

  pub take_all : (n : ℕ) (xs : List A) → length xs ≤ n → take n xs ≡ xs
  take_all zero [] h = refl
  take_all zero (x ∷ xs) h = absurd (omega arith)
  take_all (suc n) [] h = refl
  take_all (suc n) (x ∷ xs) h = ap (◌∷◌ x) (take_all n xs (omega arith))

  pub take-append-drop : (n : ℕ) (xs : List A) → take n xs ++ drop n xs ≡ xs
  take-append-drop zero xs = refl
  take-append-drop (suc n) [] = refl
  take-append-drop (suc n) (x ∷ xs) = ap (◌∷◌ x) (take-append-drop n xs)

  pub take-take_le : (n m : ℕ) (xs : List A) → n ≤ m → take n (take m xs) ≡ take n xs
  take-take_le zero m xs h = refl
  take-take_le (suc n) zero xs h = absurd (omega arith)
  take-take_le (suc n) (suc m) [] h = refl
  take-take_le (suc n) (suc m) (x ∷ xs) h = ap (◌∷◌ x) (take-take_le n m xs (omega arith))

  pub take-take : (n m : ℕ) (xs : List A) → take n (take m xs) ≡ take (min m n) xs
  take-take n m xs = elim (dec_le n m) [
    | yes h ↦ take-take_le n m xs h ∙ ap (λ (k : ℕ). take k xs) (omega arith)
    | no h ↦
        take_all n (take m xs) (omega (arith, length-take m xs))
        ∙ ap (λ (k : ℕ). take k xs) (omega arith)
  ]

  -- a prefix of `xs ++ ys` that ends inside `xs`, or past it
  pub take-append_left : (n : ℕ) (xs ys : List A) → n ≤ length xs → take n (xs ++ ys) ≡ take n xs
  take-append_left zero xs ys h = refl
  take-append_left (suc n) [] ys h = absurd (omega arith)
  take-append_left (suc n) (x ∷ xs) ys h = ap (◌∷◌ x) (take-append_left n xs ys (omega arith))

  pub take-append_right :
      (n : ℕ) (xs ys : List A) → length xs ≤ n → take n (xs ++ ys) ≡ xs ++ take (n - length xs) ys
  take-append_right n [] ys h = rw sub-zero
  take-append_right zero (x ∷ xs) ys h = absurd (omega arith)
  take-append_right (suc n) (x ∷ xs) ys h =
      ap (◌∷◌ x) (
        rw (take-append_right n xs ys (omega arith))
          (ap (λ (k : ℕ). xs ++ take k ys) (omega arith)))

  -- `out` is `p` cut at `limit` bytes, and the flag says whether something was cut.
  abbrev pub IsCut : ℕ → List A → List A × Bool → Type ℓ
  IsCut limit p (out, exceeded) = (out ≡ take limit p) × (exceeded ≡ ltb limit (length p))

  pub IsCut-nil : (limit : ℕ) → IsCut limit [] ([], false)
  IsCut-nil zero = (refl, ground arith)
  IsCut-nil (suc limit) = (refl, ground arith)
