-- ===== src/Base/Integers.antt =====
-- An `i64`, over the native numbers.
use Prim.Native.Nat.{ℕ}
use mathlib.Core.Path.{◌≡◌, refl}
use mathlib.Core.Logic.{◌⊎◌, inl, inr}
use mathlib.Core.Bool.{Bool, true, false}
use native.Mathlib.Omega.{arith}
use stat_guardian.Base.Tests.{leb}
use stat_guardian.Base.Equality.{◌==◌, nat_eq}

pub data ℤ : Type 0 where
  pos negsuc : ℕ → ℤ

-- `<=` on `i64`
abbrev pub leb_int : ℤ → ℤ → Bool
leb_int (ℤ.pos m) (ℤ.pos n) = leb m n
leb_int (ℤ.pos m) (ℤ.negsuc n) = false
leb_int (ℤ.negsuc m) (ℤ.pos n) = true
leb_int (ℤ.negsuc m) (ℤ.negsuc n) = leb n m

-- `==` on `i64`
abbrev pub same_int : ℤ → ℤ → Bool
same_int (ℤ.pos m) (ℤ.pos n) = m == n
same_int (ℤ.negsuc m) (ℤ.negsuc n) = m == n
same_int _ _ = false

pub leb_int_total : (a b : ℤ) → (leb_int a b ≡ true) ⊎ (leb_int b a ≡ true)
leb_int_total (ℤ.pos m) (ℤ.pos n) = ground arith
leb_int_total (ℤ.pos m) (ℤ.negsuc n) = inr refl
leb_int_total (ℤ.negsuc m) (ℤ.pos n) = inl refl
leb_int_total (ℤ.negsuc m) (ℤ.negsuc n) = ground arith

pub leb_int_trans : (a b c : ℤ) → leb_int a b ≡ true → leb_int b c ≡ true → leb_int a c ≡ true
leb_int_trans (ℤ.pos m) (ℤ.pos n) (ℤ.pos k) h i = ground arith
leb_int_trans (ℤ.pos m) (ℤ.pos n) (ℤ.negsuc k) h i = cc i
leb_int_trans (ℤ.pos m) (ℤ.negsuc n) c h i = cc h
leb_int_trans (ℤ.negsuc m) b (ℤ.pos k) h i = refl
leb_int_trans (ℤ.negsuc m) (ℤ.pos n) (ℤ.negsuc k) h i = cc i
leb_int_trans (ℤ.negsuc m) (ℤ.negsuc n) (ℤ.negsuc k) h i = ground arith
