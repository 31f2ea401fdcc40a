-- ===== src/Base/Chars.antt =====
-- Texts character by character: trimming, splitting, and their UTF-8 bytes.
use Prim.Native.Nat.{ℕ, zero, suc, ◌+◌, ◌/◌, ◌%◌}
use Prim.Native.Char.{Char, code}
use Prim.Native.String.{String, slice, ◌++◌ as ◌<>◌}
use mathlib.Core.Bool.{Bool}
use mathlib.Core.List.{List, [], ◌∷◌, ◌++◌}
use stat_guardian.Base.Tests.{ltb, if◌then◌else◌}
use stat_guardian.Base.Text.{is_whitespace}

trim_start_text : String → String
trim_start_text String.[] = ""
trim_start_text (String.◌∷◌ c s) =
    let rest = trim_start_text s in if is_whitespace (code c) then rest else String.◌∷◌ c s

-- A character before a text that is trimmed at its end.
keep_end_text : Char → String → String
keep_end_text c String.[] = if is_whitespace (code c) then "" else String.◌∷◌ c ""
keep_end_text c (String.◌∷◌ d s) = String.◌∷◌ c (String.◌∷◌ d s)

trim_end_text : String → String
trim_end_text String.[] = ""
trim_end_text (String.◌∷◌ c s) = keep_end_text c (trim_end_text s)

-- `str::trim`
unfoldable pub trim_text : String → String
unfolding trim_start_text trim_end_text keep_end_text is_whitespace
trim_text s = trim_end_text (trim_start_text s)

cons_first : Char → List String → List String
cons_first c [] = String.◌∷◌ c "" ∷ []
cons_first c (s ∷ ss) = String.◌∷◌ c s ∷ ss

-- `str::split` at the characters of a test.
unfoldable pub split_text : (ℕ → Bool) → String → List String
unfolding cons_first
split_text p String.[] = "" ∷ []
split_text p (String.◌∷◌ c s) =
    let rest = split_text p s in if p (code c) then "" ∷ rest else cons_first c rest

-- The bytes of a character.
encode_utf8 : ℕ → List ℕ
encode_utf8 c =
    if ltb c 0x80
    then c ∷ []
    else if ltb c 0x800
    then (0xc0 + c / 64) ∷ (0x80 + c % 64) ∷ []
    else if ltb c 0x10000
    then (0xe0 + c / 4096) ∷ (0x80 + c / 64 % 64) ∷ (0x80 + c % 64) ∷ []
    else (0xf0 + c / 262144) ∷ (0x80 + c / 4096 % 64) ∷ (0x80 + c / 64 % 64) ∷ (0x80 + c % 64) ∷ []

-- `str::as_bytes`
unfoldable pub as_bytes : String → List ℕ
unfolding encode_utf8
as_bytes String.[] = []
as_bytes (String.◌∷◌ c s) = encode_utf8 (code c) ++ as_bytes s

-- `{:0width$x}` of a number of at most that many digits.
unfoldable pub hex : ℕ → ℕ → String
hex zero n = ""
hex (suc width) n = hex width (n / 16) <> slice "0123456789abcdef" (n % 16) (n % 16 + 1)
