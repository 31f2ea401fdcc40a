-- ===== src/Stream/Sanitize/Changes.antt =====
-- Every change that the sanitizer makes is reported.
use Prim.Native.String.{◌++◌ as ◌<>◌}
use stat_guardian.Base.{
  ℕ, ◌+◌, decimal, String, ◌≡◌, refl, ap, ◌∙◌, inl, inr, not, ◌&&◌, List, [], ◌∷◌, ◌++◌, contains,
  ◌==◌, string_eq, Bool-cases, Option-cases, if◌then◌else◌,
}
use stat_guardian.Base.Chars.{trim_text}
use stat_guardian.Stream.Json.{
  Value, null, boolean, number, string, array, object, Items, nil, cons, Fields, end, field,
}
use stat_guardian.Stream.Sanitize.{
  Sanitizer, SanitizationKind, SanitizationEvent, TextOps, is_noop, redaction_for, is_recursive,
  normalize_step, normalize_text, normalize_child, walk_field, walk, walk_fields, walk_items,
  sanitize, child_path,
}

append_nil {ℓ} : {A : Type ℓ} (xs ys : List A) → xs ++ ys ≡ [] → (xs ≡ []) × (ys ≡ [])
append_nil [] ys e = (refl, e)
append_nil (x ∷ xs) ys e = cc e

append_one {ℓ} : {A : Type ℓ} (xs : List A) (y : A) → ¬ (xs ++ y ∷ [] ≡ [])
append_one [] y e = cc e
append_one (x ∷ xs) y e = cc e

-- Without an event, what came out is what went in.
abbrev pub IsFaithful {ℓ} : {A : Type ℓ} → A → A × List SanitizationEvent → Type ℓ
IsFaithful before (after, events) = events ≡ [] → after ≡ before

module _ {Number : Type 0} (ops : TextOps Number) where
  normalize_step-same :
      (fields : List String) (f : String → String) (kind : SanitizationKind) (key path : String)
      (text : String) (events : List SanitizationEvent)
      → (normalize_step ops fields f kind key path (text, events)).1 ≡ []
      → ((normalize_step ops fields f kind key path (text, events)).0 ≡ text) × (events ≡ [])
  unfolding normalize_step
  normalize_step-same fields f kind key path text events e =
      elim (Bool-cases (contains fields key && not (f text == text))) [
        | inl changed ↦ absurd (append_one events _ (rw changed at e))
        | inr same ↦ rw same (refl, rw same at e)
      ]

  normalize_text-IsFaithful :
      (s : Sanitizer) (key path text : String)
      → IsFaithful text (normalize_text ops s key path text)
  unfolding normalize_text
  normalize_text-IsFaithful s key path text e =
      let policy = s.normalization in
      let trimmed =
        normalize_step ops policy.trim_fields trim_text SanitizationKind.trimmed key path
          (text, []) in
      let lowered =
        normalize_step ops policy.lowercase_fields ops.to_lowercase SanitizationKind.lowercased key
          path trimmed in
      let (same₃, none₂) =
        normalize_step-same policy.uppercase_fields ops.to_uppercase SanitizationKind.uppercased key
          path lowered.0 lowered.1 e in
      let (same₂, none₁) =
        normalize_step-same policy.lowercase_fields ops.to_lowercase SanitizationKind.lowercased key
          path trimmed.0 trimmed.1 none₂ in
      let (same₁, none₀) =
        normalize_step-same policy.trim_fields trim_text SanitizationKind.trimmed key path text []
          none₁ in
      same₃ ∙ same₂ ∙ same₁

  module _ (s : Sanitizer) where
    normalize_child-IsFaithful :
        (key path : String) (v : Value Number) (deep : Value Number × List SanitizationEvent)
        → IsFaithful v deep
        → IsFaithful v (normalize_child ops s key path v deep)
    unfolding normalize_child
    normalize_child-IsFaithful key path (string text) deep same e =
        ap string (normalize_text-IsFaithful s key path text e)
    normalize_child-IsFaithful key path _ deep same e = elim (Bool-cases (is_recursive s)) [
      | inl all ↦ rw all (same (rw all at e))
      | inr top ↦ rw top refl
    ]

    walk_field-IsFaithful :
        (key path : String) (v : Value Number) (fields : Fields Number)
        (deep : Value Number × List SanitizationEvent)
        (rest : Fields Number × List SanitizationEvent)
        → IsFaithful v deep
        → IsFaithful fields rest
        → IsFaithful (field key v fields) (walk_field ops s key path v deep rest)
    unfolding walk_field
    walk_field-IsFaithful key path v fields deep (rest, events) same behind e =
        elim (Option-cases (redaction_for s key)) [
          | inl free ↦
              let (changes, after) =
                append_nil (normalize_child ops s key path v deep).1 events
                  (rw (free, walk_field) at e) in
              rw (free, walk_field)
                (ap (λ v'. field key v' rest)
                    (normalize_child-IsFaithful key path v deep same changes)
                  ∙ ap (field key v) (behind after))
          | inr (strategy, rule) ↦ absurd (cc (rw (rule, walk_field) at e))
        ]

    walk_array-IsFaithful :
        (items : Items Number) (walked : Items Number × List SanitizationEvent)
        → IsFaithful items walked
        → IsFaithful
            (array items)
            (if is_recursive s then (array walked.0, walked.1) else (array items, []))
    walk_array-IsFaithful items walked same e = elim (Bool-cases (is_recursive s)) [
      | inl all ↦ rw all (ap array (same (rw all at e)))
      | inr top ↦ rw top refl
    ]

    walk_item-IsFaithful :
        (v : Value Number) (rest : Items Number) (walked : Value Number × List SanitizationEvent)
        (more : Items Number × List SanitizationEvent)
        → IsFaithful v walked
        → IsFaithful rest more
        → IsFaithful (cons v rest) (cons walked.0 more.0, walked.1 ++ more.1)
    walk_item-IsFaithful v rest (v', events) (rest', more) same behind e =
        let (here, later) = append_nil events more e in
        ap (λ w. cons w rest') (same here) ∙ ap (cons v) (behind later)

    mutual
      unfolding walk

      walk-IsFaithful : (v : Value Number) (path : String) → IsFaithful v (walk ops s v path)
      walk-IsFaithful (object fields) path e = ap object (walk_fields-IsFaithful fields path e)
      walk-IsFaithful (array items) path e =
          walk_array-IsFaithful items (walk_items ops s items path 0)
            (walk_items-IsFaithful items path 0) e
      walk-IsFaithful null path e = refl
      walk-IsFaithful (boolean b) path e = refl
      walk-IsFaithful (number n) path e = refl
      walk-IsFaithful (string text) path e = refl

      walk_fields-IsFaithful :
          (fields : Fields Number) (path : String)
          → IsFaithful fields (walk_fields ops s fields path)
      walk_fields-IsFaithful end path e = refl
      walk_fields-IsFaithful (field key v rest) path e =
          walk_field-IsFaithful key (child_path path key) v rest
            (walk ops s v (child_path path key)) (walk_fields ops s rest path)
            (walk-IsFaithful v (child_path path key)) (walk_fields-IsFaithful rest path) e

      walk_items-IsFaithful :
          (items : Items Number) (path : String) (i : ℕ)
          → IsFaithful items (walk_items ops s items path i)
      walk_items-IsFaithful nil path i e = refl
      walk_items-IsFaithful (cons v rest) path i e =
          walk_item-IsFaithful v rest (walk ops s v (path <> "[" <> decimal i <> "]"))
            (walk_items ops s rest path (i + 1))
            (walk-IsFaithful v (path <> "[" <> decimal i <> "]"))
            (walk_items-IsFaithful rest path (i + 1)) e

    -- A record for which the sanitizer reports no event came out as it went in.
    pub sanitize-IsFaithful : (v : Value Number) → IsFaithful v (sanitize ops s v)
    unfolding sanitize
    sanitize-IsFaithful v e = elim (Bool-cases (is_noop s)) [
      | inl noop ↦ rw (noop, sanitize) refl
      | inr works ↦ rw (works, sanitize) (walk-IsFaithful v "" (rw (works, sanitize) at e))
    ]
