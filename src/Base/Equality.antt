-- ===== src/Base/Equality.antt =====
-- Equality tests behind one interface, as the derived `PartialEq` of the source.
use Prim.Native.Nat.{ℕ}
use Prim.Native.String.{String}
use mathlib.Core.Path.{◌≡◌, refl, sym, ◌∙◌}
use mathlib.Core.Logic.{◌↔◌, inl, inr}
use mathlib.Core.Bool.{Bool, true, false, ◌||◌, false≢true}
use mathlib.Core.List.{List, [], ◌∷◌, Memᴰ}
use mathlib.Core.List.Memᴰ
use native.Mathlib.Omega.{arith}
use text.Mathlib.Text.{◌==◌ as str_eq}
use text.Mathlib.TextEquality.{eq_iff}
use stat_guardian.Base.Tests.{nat_beq, nat_beq_iff, Bool-cases}
use stat_guardian.Base.Lists.{Memᴰ-cons}

-- A Boolean test of equality, and that it is one.
pub record Eq {ℓ} (A : Type ℓ) : Type ℓ where
  pub is_same : A → A → Bool
  pub is_same_iff : (x y : A) → (is_same x y ≡ true) ↔ (x ≡ y)

-- the test of a decision
abbrev pub decides {ℓ} : {P : Type ℓ} → Dec P → Bool
decides (yes p) = true
decides (no p) = false

pub decides_iff {ℓ} : {P : Type ℓ} (d : Dec P) → (decides d ≡ true) ↔ P
decides_iff (yes p) = (λ _. p, λ _. refl)
decides_iff (no p) = (λ h. absurd (false≢true h), λ h. absurd (p h))

abbrev pub eq_of_discrete {ℓ} : {A : Type ℓ} → Discrete A → Eq A
eq_of_discrete d = record {
  is_same = λ a b. decides (d a b);
  is_same_iff = λ a b. decides_iff (d a b);
}

instance abbrev pub string_eq : Eq String
string_eq = record { is_same_iff = eq_iff; is_same = str_eq }

instance abbrev pub nat_eq : Eq ℕ
nat_eq = record { is_same_iff = nat_beq_iff; is_same = nat_beq }

infix 50 ◌==◌
abbrev pub ◌==◌ {ℓ} : {A : Type ℓ} ⦃test : Eq A⦄ → A → A → Bool
◌==◌ ⦃test⦄ a b = test.is_same a b

module _ {ℓ} {A : Type ℓ} ⦃e : Eq A⦄ where
  -- `xs.contains(&a)`
  abbrev pub contains : List A → A → Bool
  contains [] a = false
  contains (x ∷ xs) a = a == x || contains xs a

  pub contains_iff : (xs : List A) (a : A) → (contains xs a ≡ true) ↔ Memᴰ a xs
  contains_iff [] a = (λ h. absurd (false≢true h), λ m. absurd (Memᴰ.not-nil m))
  contains_iff (x ∷ xs) a = ground (arith, contains_iff xs a, e.is_same_iff a x, Memᴰ-cons a x xs)

unfoldable pub string_discrete : Discrete String
string_discrete s t = elim (Bool-cases (str_eq s t)) [
  | inl same ↦ yes ((eq_iff s t).0 same)
  | inr other ↦ no (λ e. false≢true (sym other ∙ (eq_iff s t).1 e))
]
