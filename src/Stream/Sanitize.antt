-- ===== src/Stream/Sanitize.antt =====
-- crates/statguardian-stream/src/sanitize.rs: redaction and normalization of JSON records. What
-- the code uses of other libraries is a parameter: the text of a `Value`, and the case mappings.
pub mod Redaction
pub mod Changes
pub mod Summary
use Prim.Native.Nat.{bit_xor}
use Prim.Native.String.{◌++◌ as ◌<>◌, compare}
use stat_guardian.Base.{
  ℕ, zero, suc, ◌+◌, ◌*◌, ◌%◌, ◌^◌, String, ◌≡◌, Bool, true, false, not, ◌&&◌, ◌||◌, Option, none,
  some, List, [], ◌∷◌, ◌++◌, ◌==◌, nat_eq, string_eq, contains, decimal, if◌then◌else◌,
}
use stat_guardian.Base.Chars.{trim_text, split_text, as_bytes, hex}
use stat_guardian.Base.Assoc.{get, insert}
use stat_guardian.Stream.Reader.{u64}
use stat_guardian.Stream.Json.{
  Value, null, boolean, number, string, array, object, Items, nil, cons, Fields, end, field,
}

pub data RedactionStrategy : Type 0 where
  mask : RedactionStrategy
  mask_with : String → RedactionStrategy
  hash null_out drop : RedactionStrategy

-- The field `field` of the source.
pub record RedactionRule : Type 0 where
  pub field_name : String
  pub strategy : RedactionStrategy

pub record RedactionPolicy : Type 0 where
  pub rules : List RedactionRule
  pub recursive : Bool

pub record NormalizationPolicy : Type 0 where
  pub trim_fields : List String
  pub lowercase_fields : List String
  pub uppercase_fields : List String
  pub recursive : Bool

pub data SanitizationKind : Type 0 where
  masked hashed nulled dropped trimmed lowercased uppercased : SanitizationKind

pub record SanitizationEvent : Type 0 where
  pub path : String
  pub kind : SanitizationKind

unfoldable pub kind_name : SanitizationKind → String
kind_name SanitizationKind.masked = "masked"
kind_name SanitizationKind.hashed = "hashed"
kind_name SanitizationKind.nulled = "nulled"
kind_name SanitizationKind.dropped = "dropped"
kind_name SanitizationKind.trimmed = "trimmed"
kind_name SanitizationKind.lowercased = "lowercased"
kind_name SanitizationKind.uppercased = "uppercased"

-- The maps are `BTreeMap`s: association lists, whose order no result shows.
pub record SanitizationSummary : Type 0 where
  pub total_events : ℕ
  pub by_kind : List (String × ℕ)
  pub by_field : List (String × ℕ)

unfoldable pub empty_summary : SanitizationSummary
empty_summary = record { total_events = 0; by_kind = []; by_field = [] }

-- `*map.entry(key).or_insert(0) += 1`
unfoldable pub count_up : String → List (String × ℕ) → List (String × ℕ)
count_up key m = insert key (elim (get key m) [ none ↦ 1 | some n ↦ u64 (n + 1) ]) m

abbrev pub is_separator : ℕ → Bool
is_separator c = c == b'.' || c == b'['

-- The last part that is not empty, or else the whole path.
last_part : String → List String → String
last_part path [] = path
last_part path (s ∷ ss) = last_part (if s == "" then path else s) ss

unfoldable pub leaf_of : String → String
unfolding last_part split_text
leaf_of path = last_part path (split_text is_separator path)

unfoldable pub record_event : SanitizationEvent → SanitizationSummary → SanitizationSummary
unfolding count_up leaf_of
record_event event summary = record {
  total_events = u64 (summary.total_events + 1);
  by_kind = count_up (kind_name event.kind) summary.by_kind;
  by_field = count_up (leaf_of event.path) summary.by_field;
}

unfoldable pub is_empty : SanitizationSummary → Bool
is_empty summary = summary.total_events == 0

pub record Sanitizer : Type 0 where
  pub redaction : RedactionPolicy
  pub normalization : NormalizationPolicy

abbrev pub has_none {ℓ} : {A : Type ℓ} → List A → Bool
has_none [] = true
has_none (_ ∷ _) = false

unfoldable pub is_noop : Sanitizer → Bool
is_noop s =
    has_none s.redaction.rules
    && has_none s.normalization.trim_fields
    && has_none s.normalization.lowercase_fields
    && has_none s.normalization.uppercase_fields

find_rule : List RedactionRule → String → Option RedactionStrategy
find_rule [] key = none
find_rule (r ∷ rs) key =
    let rest = find_rule rs key in if r.field_name == key then some r.strategy else rest

unfoldable pub redaction_for : Sanitizer → String → Option RedactionStrategy
unfolding find_rule
redaction_for s key = find_rule s.redaction.rules key

-- The loop of `fnv1a_64` from a hash on.
fnv1a_from : ℕ → List ℕ → ℕ
fnv1a_from h [] = h
fnv1a_from h (b ∷ bs) = fnv1a_from (u64 (bit_xor h b * 0x100000001b3)) bs

unfoldable pub fnv1a_64 : List ℕ → ℕ
unfolding fnv1a_from
fnv1a_64 bytes = fnv1a_from 0xcbf29ce484222325 bytes

abbrev pub is_recursive : Sanitizer → Bool
is_recursive s = s.redaction.recursive || s.normalization.recursive

-- The path of a key below a path.
abbrev pub child_path : String → String → String
child_path path key = if path == "" then key else path <> "." <> key

-- What the sanitizer calls outside.
pub record TextOps (Number : Type 0) : Type 0 where
  pub value_to_string : Value Number → String
  pub to_lowercase : String → String
  pub to_uppercase : String → String

module _ {Number : Type 0} (ops : TextOps Number) where
  unfoldable pub hash_value : Value Number → String
  unfolding as_bytes hex fnv1a_64
  hash_value (string s) = hex 16 (fnv1a_64 (as_bytes s))
  hash_value v = hex 16 (fnv1a_64 (as_bytes (ops.value_to_string v)))

  -- What a strategy makes of a value, `none` where the entry is dropped.
  unfoldable pub redact :
      RedactionStrategy → Value Number → Option (Value Number) × SanitizationKind
  redact RedactionStrategy.drop v = (none, SanitizationKind.dropped)
  redact RedactionStrategy.mask v = (some (string "[REDACTED]"), SanitizationKind.masked)
  redact (RedactionStrategy.mask_with token) v = (some (string token), SanitizationKind.masked)
  redact RedactionStrategy.null_out v = (some null, SanitizationKind.nulled)
  redact RedactionStrategy.hash v = (some (string (hash_value v)), SanitizationKind.hashed)

  -- One of the three steps of `normalize_value`.
  unfoldable pub normalize_step :
      List String
      → (String → String)
      → SanitizationKind
      → (key path : String) → String × List SanitizationEvent
      → String × List SanitizationEvent
  normalize_step fields f kind key path (s, events) =
      if contains fields key && not (f s == s)
      then (f s, events ++ record { path = path; kind = kind } ∷ [])
      else (s, events)

  unfoldable pub normalize_text :
      Sanitizer → (key path : String) → String → String × List SanitizationEvent
  unfolding normalize_step
  normalize_text s key path text =
      let policy = s.normalization in
      normalize_step policy.uppercase_fields ops.to_uppercase SanitizationKind.uppercased key path (
        normalize_step policy.lowercase_fields ops.to_lowercase SanitizationKind.lowercased key path
          (normalize_step policy.trim_fields trim_text SanitizationKind.trimmed key path
            (text, [])))

  abbrev pub Sanitized : Type 0
  Sanitized = Value Number × List SanitizationEvent

  -- A child without a rule: `normalize_value`, then `walk`, of which `deep` is the result. `walk`
  -- leaves a text alone, and `normalize_value` all else.
  unfoldable pub normalize_child :
      Sanitizer → (key path : String) → Value Number → (deep : Sanitized) → Sanitized
  unfolding normalize_text
  normalize_child s key path (string text) deep =
      let (text', events) = normalize_text s key path text in (string text', events)
  normalize_child s key path v deep = if is_recursive s then deep else (v, [])

  abbrev pub SanitizedFields : Type 0
  SanitizedFields = Fields Number × List SanitizationEvent

  abbrev put_field : String → Option (Value Number) → Fields Number → Fields Number
  put_field key none rest = rest
  put_field key (some v) rest = field key v rest

  -- The body of the loop over a map, before the entries behind it.
  unfoldable pub walk_field :
      Sanitizer
      → (key path : String) → Value Number
      → (deep : Sanitized) → (rest : SanitizedFields) → SanitizedFields
  unfolding redaction_for
  walk_field s key path v deep (rest, events) = elim (redaction_for s key) [
    | some strategy ↦
        let (v', kind) = redact strategy v in
        (put_field key v' rest, record { path = path; kind = kind } ∷ events)
    | none ↦
        let (v', changes) = normalize_child s key path v deep in
        (field key v' rest, changes ++ events)
  ]

  unfoldable mutual
    unfolding walk_field

    pub walk : Sanitizer → Value Number → String → Sanitized
    walk s (object fields) path =
        let (fields', events) = walk_fields s fields path in (object fields', events)
    walk s (array items) path =
        let (items', events) = walk_items s items path 0 in
        if is_recursive s then (array items', events) else (array items, [])
    walk s v path = (v, [])

    pub walk_fields : Sanitizer → Fields Number → String → SanitizedFields
    walk_fields s end path = (end, [])
    walk_fields s (field key v rest) path =
        walk_field s key (child_path path key) v (walk s v (child_path path key))
          (walk_fields s rest path)

    pub walk_items : Sanitizer → Items Number → String → ℕ → Items Number × List SanitizationEvent
    walk_items s nil path i = (nil, [])
    walk_items s (cons v rest) path i =
        let (v', events) = walk s v (path <> "[" <> decimal i <> "]") in
        let (rest', more) = walk_items s rest path (i + 1) in (cons v' rest', events ++ more)

  unfoldable pub sanitize : Sanitizer → Value Number → Sanitized
  unfolding is_noop
  sanitize s v = if is_noop s then (v, []) else walk s v ""
