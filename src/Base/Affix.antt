-- ===== src/Base/Affix.antt =====
-- Texts: affixes, their removal, parts, replacement, and numbers read from them.
use Prim.Native.Char.{code}
use Prim.Native.Nat.{ℕ, zero, suc, ◌+◌, ◌-◌, ◌*◌, ◌^◌}
use Prim.Native.String.{String, ◌++◌ as ◌<>◌}
use mathlib.Core.Bool.{Bool, true, false, ◌&&◌, ◌||◌}
use mathlib.Core.Option.{Option, none, some}
use stat_guardian.Base.Tests.{ltb, leb, if◌then◌else◌}
use stat_guardian.Base.Equality.{◌==◌, nat_eq, string_eq}

-- `chars().count()`
abbrev pub count_chars : String → ℕ
count_chars String.[] = 0
count_chars (String.◌∷◌ c s) = suc (count_chars s)

-- `strip_prefix(p)`, of the text `s`
unfoldable pub strip_prefix_text : String → String → Option String
strip_prefix_text String.[] s = some s
strip_prefix_text (String.◌∷◌ c p) String.[] = none
strip_prefix_text (String.◌∷◌ c p) (String.◌∷◌ d s) =
    let rest = strip_prefix_text p s in if code c == code d then rest else none

abbrev pub is_some {ℓ} : {A : Type ℓ} → Option A → Bool
is_some none = false
is_some (some _) = true

-- `s.starts_with(p)`
unfoldable pub starts_with : String → String → Bool
unfolding strip_prefix_text
starts_with s p = is_some (strip_prefix_text p s)

-- `strip_suffix(p)`
unfoldable pub strip_suffix_text : String → String → Option String
strip_suffix_text p String.[] = if "" == p then some "" else none
strip_suffix_text p (String.◌∷◌ c s) =
    let rest = strip_suffix_text p s in
    if String.◌∷◌ c s == p
    then some ""
    else elim rest [ none ↦ none | some t ↦ some (String.◌∷◌ c t) ]

-- `s.ends_with(p)`
unfoldable pub ends_with : String → String → Bool
unfolding strip_suffix_text
ends_with s p = is_some (strip_suffix_text p s)

-- `s.contains(p)`
unfoldable pub has_text : String → String → Bool
unfolding starts_with
has_text String.[] p = "" == p
has_text (String.◌∷◌ c s) p = starts_with (String.◌∷◌ c s) p || has_text s p

-- The affix is taken off as often as it is there; each round takes off a character or more.
trim_rounds : ℕ → (String → Option String) → String → String
trim_rounds zero strip s = s
trim_rounds (suc n) strip s = elim (strip s) [ none ↦ s | some t ↦ trim_rounds n strip t ]

-- `s.trim_start_matches(p)` and `s.trim_end_matches(p)`, of a text `p` that is not empty.
unfoldable pub trim_start_matches : String → String → String
unfolding trim_rounds strip_prefix_text
trim_start_matches s p = trim_rounds (count_chars s) (strip_prefix_text p) s

unfoldable pub trim_end_matches : String → String → String
unfolding trim_rounds strip_suffix_text
trim_end_matches s p = trim_rounds (count_chars s) (strip_suffix_text p) s

-- `s.split(p).next()`, of a text `p` that is not empty.
unfoldable pub before_text : String → String → String
unfolding starts_with
before_text String.[] p = ""
before_text (String.◌∷◌ c s) p =
    let rest = before_text s p in if starts_with (String.◌∷◌ c s) p then "" else String.◌∷◌ c rest

-- Behind the last of some characters, and in front of it, where there is one.
unfoldable pub split_last : ℕ → String → Option (String × String)
split_last d String.[] = none
split_last d (String.◌∷◌ c s) = elim (split_last d s) [
  | some (front, back) ↦ some (String.◌∷◌ c front, back)
  | none ↦ if code c == d then some ("", s) else none
]

-- `s.replace(p, to)`, of a text `p` that is not empty; `skip` characters are replaced already.
replace_from : (skip : ℕ) → (p to : String) → String → String
unfolding starts_with
replace_from skip p to String.[] = ""
replace_from skip p to (String.◌∷◌ c s) =
    let hit = skip == 0 && starts_with (String.◌∷◌ c s) p in
    let rest = replace_from ((if hit then count_chars p else skip) - 1) p to s in
    if hit then to <> rest else if skip == 0 then String.◌∷◌ c rest else rest

unfoldable pub replace : String → (p to : String) → String
unfolding replace_from
replace s p to = replace_from 0 p to s

is_digit : ℕ → Bool
is_digit c = leb 48 c && leb c 57

digits_value : ℕ → String → Option ℕ
unfolding is_digit
digits_value acc String.[] = some acc
digits_value acc (String.◌∷◌ c s) =
    let rest = digits_value (acc * 10 + (code c - 48)) s in if is_digit (code c) then rest else none

below_u64 : Option ℕ → Option ℕ
below_u64 none = none
below_u64 (some n) = if ltb n (2 ^ 64) then some n else none

unsigned : String → Option ℕ
unfolding digits_value below_u64
unsigned String.[] = none
unsigned s = below_u64 (digits_value 0 s)

-- `parse::<u64>`, with a plus sign or none; past the range it is an error.
unfoldable pub parse_u64 : String → Option ℕ
unfolding unsigned
parse_u64 String.[] = none
parse_u64 (String.◌∷◌ c s) = if code c == 43 then unsigned s else unsigned (String.◌∷◌ c s)
