-- ===== src/Io/Paths.antt =====
-- What crates/statguardian-io uses of `std::path`, for paths with `/`.
use Prim.Native.String.{◌++◌ as ◌<>◌}
use stat_guardian.Base.{
  String, not, ◌&&◌, Option, none, some, List, [], ◌∷◌, filter, ◌==◌, nat_eq, string_eq,
  if◌then◌else◌,
}
use stat_guardian.Base.Chars.{split_text}
use stat_guardian.Base.Affix.{starts_with, ends_with, split_last}

-- `Path::new(dir).join(name)`
unfoldable pub join : (dir name : String) → String
unfolding starts_with ends_with
join dir name =
    if starts_with name "/"
    then name
    else if dir == ""
    then name
    else if ends_with dir "/"
    then dir <> name
    else dir <> ("/" <> name)

abbrev pub last_of : List String → Option String
last_of [] = none
last_of (x ∷ []) = some x
last_of (x ∷ y ∷ ys) = last_of (y ∷ ys)

-- The last component, which `..` is not.
unfoldable pub file_name : String → Option String
unfolding split_text
file_name path =
    elim (last_of
      (filter (λ s. not (s == "") && not (s == ".")) (split_text (λ c. c == 47) path))) [
        | none ↦ none
        | some name ↦ if name == ".." then none else some name
      ]

-- Behind the last point of the file name, unless this begins with it.
unfoldable pub extension : String → Option String
unfolding file_name split_last
extension path = elim (file_name path) [
  | none ↦ none
  | some name ↦ elim (split_last 46 name) [
    | none ↦ none
    | some (front, back) ↦ if front == "" then none else some back
  ]
]
