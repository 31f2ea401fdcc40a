-- ===== src/Base/Order.antt =====
-- Comparators, as `Ord::cmp` and `Ordering::then_with`, and the laws that sorting needs.
use Prim.Native.Nat.{compare as compare_ℕ, Ordering}
use Prim.Native.Nat.Ordering.{lt, eq, gt}
use Prim.Native.Char.{Char, code}
use Prim.Native.String.{String, [], ◌∷◌, then, compare as compare_text}
use Prim.Native.String.compare
use mathlib.Core.Path.{◌≡◌, refl}
use mathlib.Core.Bool.{Bool, true, false, false≢true}
use native.Mathlib.Omega.{arith}

abbrev pub reverse_ordering : Ordering → Ordering
reverse_ordering lt = gt
reverse_ordering eq = eq
reverse_ordering gt = lt

abbrev pub then_with : Ordering → Ordering → Ordering
then_with = then

abbrev pub is_le : Ordering → Bool
is_le gt = false
is_le _ = true

-- A comparator that is a total preorder.
pub record IsOrder {ℓ} {A : Type ℓ} (cmp : A → A → Ordering) : Type ℓ where
  pub flips : (a b : A) → cmp b a ≡ reverse_ordering (cmp a b)
  pub trans : (a b c : A) → is_le (cmp a b) ≡ true → is_le (cmp b c) ≡ true → is_le (cmp a c) ≡ true

pub IsOrder-nat : IsOrder compare_ℕ
IsOrder-nat = record { flips = λ a b. ground arith; trans = λ a b c h k. ground arith }

pub IsOrder-on {ℓ κ} :
    {A : Type ℓ} {B : Type κ} (f : A → B) (cmp : B → B → Ordering)
    → IsOrder cmp
    → IsOrder (λ a b. cmp (f a) (f b))
IsOrder-on f cmp o = record {
  flips = λ a b. o.flips (f a) (f b);
  trans = λ a b c. o.trans (f a) (f b) (f c);
}

-- First by `f`, then by `g`.
pub IsOrder-then_with {ℓ} :
    {A : Type ℓ} (f g : A → A → Ordering)
    → IsOrder f
    → IsOrder g
    → IsOrder (λ a b. then_with (f a b) (g a b))
IsOrder-then_with f g of og = record {
  flips = λ a b. ground (arith, of.flips a b, og.flips a b);
  trans = λ a b c h k. ground (
    arith,
    of.flips a b,
    of.flips a c,
    of.flips b c,
    of.trans a b c,
    of.trans b c a,
    of.trans c a b,
    og.trans a b c,
  );
}

-- `str::cmp` compares bytes, which for UTF-8 is the order of the code points.
nil-cons : (d : Char) (t : String) → compare_text [] (d ∷ t) ≡ lt
nil-cons d t = compare.nil-cons d t

cons-nil : (c : Char) (s : String) → compare_text (c ∷ s) [] ≡ gt
cons-nil c s = compare.cons-nil c s

cons-cons :
    (c d : Char) (s t : String)
    → compare_text (c ∷ s) (d ∷ t) ≡ then_with (compare_ℕ (code c) (code d)) (compare_text s t)
cons-cons c d s t = compare.cons-cons c d s t

text_flips : (s t : String) → compare_text t s ≡ reverse_ordering (compare_text s t)
text_flips [] [] = compare.nil-nil
text_flips [] (d ∷ t) = rw (nil-cons, cons-nil)
text_flips (c ∷ s) [] = rw (nil-cons, cons-nil)
text_flips (c ∷ s) (d ∷ t) =
    rw (cons-cons c d s t, cons-cons d c t s) (ground (arith, text_flips s t))

text_trans :
    (s t u : String)
    → is_le (compare_text s t) ≡ true
    → is_le (compare_text t u) ≡ true
    → is_le (compare_text s u) ≡ true
text_trans [] [] u h k = k
text_trans [] (d ∷ t) [] h k = refl
text_trans [] (d ∷ t) (e ∷ u) h k = rw nil-cons
text_trans (c ∷ s) [] u h k = absurd (false≢true (rw cons-nil at h))
text_trans (c ∷ s) (d ∷ t) [] h k = absurd (false≢true (rw cons-nil at k))
text_trans (c ∷ s) (d ∷ t) (e ∷ u) h k =
    rw (cons-cons c e s u) (ground (arith, cons-cons c d s t, cons-cons d e t u, text_trans s t u))

pub IsOrder-text : IsOrder compare_text
IsOrder-text = record { flips = text_flips; trans = text_trans }
