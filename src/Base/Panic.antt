-- ===== src/Base/Panic.antt =====
-- Code that may panic or not end, and loops over such code.
use mathlib.Core.List.{List, [], ◌∷◌, ◌++◌}
use mathlib.Core.Path.{◌≡◌, refl}

pub data MayPanic {ℓ} (A : Type ℓ) : Type ℓ where
  returns : A → MayPanic A
  panics hangs : MayPanic A

infixl 5 ◌>>=◌
abbrev pub ◌>>=◌ {ℓ κ} : {A : Type ℓ} {B : Type κ} → MayPanic A → (A → MayPanic B) → MayPanic B
returns a >>= f = f a
panics >>= f = panics
hangs >>= f = hangs

-- Inversion of a bind that returns.
pub >>=-returns {ℓ κ} :
    {A : Type ℓ} {B : Type κ} (m : MayPanic A) (f : A → MayPanic B) {b : B}
    → (m >>= f) ≡ returns b
    → (a : A) × (m ≡ returns a) × (f a ≡ returns b)
>>=-returns (returns a) f h = (a, refl, h)
>>=-returns panics f h = cc h
>>=-returns hangs f h = cc h

-- `iter().flat_map(f).collect()`
unfoldable pub flat_map {ℓ κ} :
    {A : Type ℓ} {B : Type κ} → (A → MayPanic (List B)) → List A → MayPanic (List B)
flat_map f [] = returns []
flat_map f (x ∷ xs) = do ys ← f x; zs ← flat_map f xs; returns (ys ++ zs)
