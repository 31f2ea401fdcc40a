-- ===== src/Base/Text.antt =====
-- Texts as lists of code points: UTF-8 decoding and trimming, as the standard library does them.
use Prim.Native.Nat.{ℕ, zero, suc, ◌+◌, ◌-◌, ◌*◌, ◌/◌, ◌%◌, ◌≤◌}
use Prim.Native.String.{String, ◌++◌, slice}
use mathlib.Core.Path.{◌≡◌}
use mathlib.Core.Bool.{Bool, ◌&&◌, ◌||◌}
use mathlib.Core.Option
use mathlib.Core.Option.{Option, none, some}
use mathlib.Core.List.{List, [], ◌∷◌}
use native.Mathlib.Omega.{arith}
use stat_guardian.Base.Tests.{ltb, leb, nat_beq, if◌then◌else◌}
use stat_guardian.Base.Lists.{length}

-- A byte either ends a character, or is followed by `left` more bytes of which the next lies in
-- `low ..= high`, or is no UTF-8.
pub data Decoded : Type 0 where
  char : ℕ → Decoded
  more : (left low high value : ℕ) → Decoded
  invalid : Decoded

abbrev pub between : ℕ → ℕ → ℕ → Bool
between low high b = leb low b && leb b high

-- The first byte of a character (Unicode 15, table 3-7).
first_byte : ℕ → Decoded
first_byte b =
    if ltb b 0x80
    then char b
    else if between 0xc2 0xdf b
    then more 0 0x80 0xbf (b - 0xc0)
    else if nat_beq b 0xe0
    then more 1 0xa0 0xbf 0
    else if nat_beq b 0xed
    then more 1 0x80 0x9f 13
    else if between 0xe1 0xef b
    then more 1 0x80 0xbf (b - 0xe0)
    else if nat_beq b 0xf0
    then more 2 0x90 0xbf 0
    else if between 0xf1 0xf3 b
    then more 2 0x80 0xbf (b - 0xf0)
    else if nat_beq b 0xf4
    then more 2 0x80 0x8f 4
    else invalid

next_byte : ℕ → ℕ → ℕ → ℕ → ℕ → Decoded
next_byte zero low high value b =
    if between low high b then char (value * 64 + (b - 0x80)) else invalid
next_byte (suc left) low high value b =
    if between low high b then more left 0x80 0xbf (value * 64 + (b - 0x80)) else invalid

-- `state` is what the last byte gave.
decode_from : Decoded → List ℕ → Option (List ℕ)
decode_from invalid bs = none
decode_from (char c) [] = some (c ∷ [])
decode_from (more left low high value) [] = none
decode_from (char c) (b ∷ bs) = Option.map (◌∷◌ c) (decode_from (first_byte b) bs)
decode_from (more left low high value) (b ∷ bs) = decode_from (next_byte left low high value b) bs

-- `std::str::from_utf8`
unfoldable pub from_utf8 : List ℕ → Option (List ℕ)
unfolding decode_from first_byte next_byte
from_utf8 [] = some []
from_utf8 (b ∷ bs) = decode_from (first_byte b) bs

-- A text has no more characters than bytes.
length-decode_from :
    (d : Decoded) (bs s : List ℕ) → decode_from d bs ≡ some s → length s ≤ suc (length bs)
unfolding decode_from
length-decode_from invalid bs s h = ground arith
length-decode_from (char c) [] s h = ground arith
length-decode_from (more left low high value) [] s h = ground arith
length-decode_from (char c) (b ∷ bs) [] h = omega arith
length-decode_from (char c) (b ∷ bs) (x ∷ s) h =
    ground (arith, length-decode_from (first_byte b) bs s)
length-decode_from (more left low high value) (b ∷ bs) s h =
    omega (arith, length-decode_from (next_byte left low high value b) bs s h)

pub length-from_utf8 : (bs s : List ℕ) → from_utf8 bs ≡ some s → length s ≤ length bs
unfolding from_utf8
length-from_utf8 [] s h = ground arith
length-from_utf8 (b ∷ bs) s h = length-decode_from (first_byte b) bs s h

-- `char::is_whitespace`
unfoldable pub is_whitespace : ℕ → Bool
is_whitespace c =
    between 9 13 c
    || nat_beq c 32
    || nat_beq c 0x85
    || nat_beq c 0xa0
    || nat_beq c 0x1680
    || between 0x2000 0x200a c
    || nat_beq c 0x2028
    || nat_beq c 0x2029
    || nat_beq c 0x202f
    || nat_beq c 0x205f
    || nat_beq c 0x3000

-- `trim_start_matches(p)` and `trim_end_matches(p)`
pub trim_start : (ℕ → Bool) → List ℕ → List ℕ
trim_start p [] = []
trim_start p (c ∷ cs) = let rest = trim_start p cs in if p c then rest else c ∷ cs

keep_end : (ℕ → Bool) → ℕ → List ℕ → List ℕ
keep_end p c [] = if p c then [] else c ∷ []
keep_end p c (d ∷ ds) = c ∷ d ∷ ds

unfoldable pub trim_end : (ℕ → Bool) → List ℕ → List ℕ
unfolding keep_end
trim_end p [] = []
trim_end p (c ∷ cs) = keep_end p c (trim_end p cs)

unfoldable pub trim : List ℕ → List ℕ
unfolding trim_start trim_end is_whitespace
trim s = trim_end is_whitespace (trim_start is_whitespace s)

length-keep_end : (p : ℕ → Bool) (c : ℕ) (r : List ℕ) → length (keep_end p c r) ≤ suc (length r)
unfolding keep_end
length-keep_end p c [] = ground arith
length-keep_end p c (d ∷ ds) = omega arith

pub length-trim_end : (p : ℕ → Bool) (s : List ℕ) → length (trim_end p s) ≤ length s
unfolding trim_end
length-trim_end p [] = omega arith
length-trim_end p (c ∷ cs) =
    omega (arith, length-keep_end p c (trim_end p cs), length-trim_end p cs)

-- The decimal digit of a number below ten.
abbrev digit : ℕ → String
digit d = slice "0123456789" d (d + 1)

decimal_from : ℕ → ℕ → String
decimal_from zero n = ""
decimal_from (suc fuel) n =
    let front = decimal_from fuel (n / 10) in if ltb n 10 then digit n else front ++ digit (n % 10)

-- `Display` of a `u64` or a smaller type: at most 20 digits.
unfoldable pub decimal : ℕ → String
unfolding decimal_from
decimal n = decimal_from 20 n
