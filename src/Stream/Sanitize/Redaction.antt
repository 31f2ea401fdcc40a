-- ===== src/Stream/Sanitize/Redaction.antt =====
-- No value of a field with a rule is left in a sanitized record.
use mathlib.Core.Path.{subst}
use Prim.Native.String.{◌++◌ as ◌<>◌}
use stat_guardian.Base.{
  ℕ, ◌+◌, decimal, String, ◌≡◌, refl, sym, inl, inr, true, Option, none, some, List, [], ◌∷◌, arith,
  Bool-cases, Option-cases,
}
use stat_guardian.Stream.Json.{
  Value, null, boolean, number, string, array, object, Items, nil, cons, Fields, end, field,
}
use stat_guardian.Stream.Sanitize.{
  RedactionStrategy, RedactionRule, Sanitizer, SanitizationEvent, TextOps, is_noop, has_none,
  find_rule, redaction_for, is_recursive, hash_value, redact, normalize_child, walk_field, walk,
  walk_fields, walk_items, sanitize, child_path,
}

module _ {Number : Type 0} (ops : TextOps Number) where
  -- What may stand in a field with this rule; a dropped field does not stand at all.
  abbrev pub IsRedacted : Option RedactionStrategy → Value Number → Type 0
  IsRedacted none v = Unit
  IsRedacted (some RedactionStrategy.drop) v = ⊥
  IsRedacted (some RedactionStrategy.mask) v = v ≡ string "[REDACTED]"
  IsRedacted (some (RedactionStrategy.mask_with token)) v = v ≡ string token
  IsRedacted (some RedactionStrategy.null_out) v = v ≡ null
  IsRedacted (some RedactionStrategy.hash) v = (u : Value Number) × (v ≡ string (hash_value ops u))

  -- The entries of one map.
  abbrev pub AreRedacted : Sanitizer → Fields Number → Type 0
  AreRedacted s end = Unit
  AreRedacted s (field key v rest) = IsRedacted (redaction_for s key) v × AreRedacted s rest

  -- The entries of a record itself.
  abbrev pub IsSafeAtTop : Sanitizer → Value Number → Type 0
  IsSafeAtTop s (object fields) = AreRedacted s fields
  IsSafeAtTop s v = Unit

  -- The entries of all maps in a value.
  unfoldable mutual
    pub IsSafe : Sanitizer → Value Number → Type 0
    IsSafe s (object fields) = AreSafe s fields
    IsSafe s (array items) = AreSafeItems s items
    IsSafe s v = Unit

    pub AreSafe : Sanitizer → Fields Number → Type 0
    AreSafe s end = Unit
    AreSafe s (field key v rest) = IsRedacted (redaction_for s key) v × IsSafe s v × AreSafe s rest

    pub AreSafeItems : Sanitizer → Items Number → Type 0
    AreSafeItems s nil = Unit
    AreSafeItems s (cons v rest) = IsSafe s v × AreSafeItems s rest

  module _ (s : Sanitizer) where
    walk_field-AreRedacted :
        (key path : String) (v : Value Number) (deep : Value Number × List SanitizationEvent)
        (rest : Fields Number × List SanitizationEvent)
        → AreRedacted s rest.0
        → AreRedacted s (walk_field ops s key path v deep rest).0
    unfolding walk_field redact
    walk_field-AreRedacted key path v deep (rest, events) safe =
        elim (Option-cases (redaction_for s key)) [
          | inl free ↦ rw (free, walk_field) (rw free (tt, safe))
          | inr (RedactionStrategy.drop, rule) ↦ rw (rule, walk_field) safe
          | inr (RedactionStrategy.mask, rule) ↦ rw (rule, walk_field) (rw rule (refl, safe))
          | inr (RedactionStrategy.mask_with token, rule) ↦
              rw (rule, walk_field) (rw rule (refl, safe))
          | inr (RedactionStrategy.null_out, rule) ↦ rw (rule, walk_field) (rw rule (refl, safe))
          | inr (RedactionStrategy.hash, rule) ↦ rw (rule, walk_field) (rw rule ((v, refl), safe))
        ]

    normalize_child-IsSafe :
        (key path : String) (v : Value Number) (deep : Value Number × List SanitizationEvent)
        → is_recursive s ≡ true
        → IsSafe s deep.0
        → IsSafe s (normalize_child ops s key path v deep).0
    unfolding normalize_child IsSafe
    normalize_child-IsSafe key path (string text) deep all safe = tt
    normalize_child-IsSafe key path _ deep all safe = rw all safe

    walk_field-AreSafe :
        (key path : String) (v : Value Number) (deep : Value Number × List SanitizationEvent)
        (rest : Fields Number × List SanitizationEvent)
        → is_recursive s ≡ true
        → IsSafe s deep.0
        → AreSafe s rest.0
        → AreSafe s (walk_field ops s key path v deep rest).0
    unfolding walk_field redact IsSafe
    walk_field-AreSafe key path v deep (rest, events) all inner safe =
        elim (Option-cases (redaction_for s key)) [
          | inl free ↦
              rw (free, walk_field)
                (rw free (tt, normalize_child-IsSafe key path v deep all inner, safe))
          | inr (RedactionStrategy.drop, rule) ↦ rw (rule, walk_field) safe
          | inr (RedactionStrategy.mask, rule) ↦ rw (rule, walk_field) (rw rule (refl, tt, safe))
          | inr (RedactionStrategy.mask_with token, rule) ↦
              rw (rule, walk_field) (rw rule (refl, tt, safe))
          | inr (RedactionStrategy.null_out, rule) ↦
              rw (rule, walk_field) (rw rule (refl, tt, safe))
          | inr (RedactionStrategy.hash, rule) ↦
              rw (rule, walk_field) (rw rule ((v, refl), tt, safe))
        ]

    mutual
      unfolding walk IsSafe

      walk-IsSafe :
          (v : Value Number) (path : String)
          → is_recursive s ≡ true
          → IsSafe s (walk ops s v path).0
      walk-IsSafe (object fields) path all = walk_fields-AreSafe fields path all
      walk-IsSafe (array items) path all = rw all (walk_items-AreSafe items path 0 all)
      walk-IsSafe null path all = tt
      walk-IsSafe (boolean b) path all = tt
      walk-IsSafe (number n) path all = tt
      walk-IsSafe (string text) path all = tt

      walk_fields-AreSafe :
          (fields : Fields Number) (path : String)
          → is_recursive s ≡ true
          → AreSafe s (walk_fields ops s fields path).0
      walk_fields-AreSafe end path all = tt
      walk_fields-AreSafe (field key v rest) path all =
          walk_field-AreSafe key (child_path path key) v (walk ops s v (child_path path key))
            (walk_fields ops s rest path) all (walk-IsSafe v (child_path path key) all)
            (walk_fields-AreSafe rest path all)

      walk_items-AreSafe :
          (items : Items Number) (path : String) (i : ℕ)
          → is_recursive s ≡ true
          → AreSafeItems s (walk_items ops s items path i).0
      walk_items-AreSafe nil path i all = tt
      walk_items-AreSafe (cons v rest) path i all = (
        walk-IsSafe v (path <> "[" <> decimal i <> "]") all,
        walk_items-AreSafe rest path (i + 1) all,
      )

    walk_fields-AreRedacted :
        (fields : Fields Number) (path : String) → AreRedacted s (walk_fields ops s fields path).0
    unfolding walk
    walk_fields-AreRedacted end path = tt
    walk_fields-AreRedacted (field key v rest) path =
        walk_field-AreRedacted key (child_path path key) v (walk ops s v (child_path path key))
          (walk_fields ops s rest path) (walk_fields-AreRedacted rest path)

    -- Where no field has a rule, every value is safe.
    mutual
      unfolding IsSafe

      IsSafe-of_no_rules :
          (v : Value Number) → ((key : String) → redaction_for s key ≡ none) → IsSafe s v
      IsSafe-of_no_rules (object fields) free = AreSafe-of_no_rules fields free
      IsSafe-of_no_rules (array items) free = AreSafeItems-of_no_rules items free
      IsSafe-of_no_rules null free = tt
      IsSafe-of_no_rules (boolean b) free = tt
      IsSafe-of_no_rules (number n) free = tt
      IsSafe-of_no_rules (string text) free = tt

      AreSafe-of_no_rules :
          (fields : Fields Number)
          → ((key : String) → redaction_for s key ≡ none)
          → AreSafe s fields
      AreSafe-of_no_rules end free = tt
      AreSafe-of_no_rules (field key v rest) free = (
        subst (λ o. IsRedacted o v) (sym (free key)) tt,
        IsSafe-of_no_rules v free,
        AreSafe-of_no_rules rest free,
      )

      AreSafeItems-of_no_rules :
          (items : Items Number)
          → ((key : String) → redaction_for s key ≡ none)
          → AreSafeItems s items
      AreSafeItems-of_no_rules nil free = tt
      AreSafeItems-of_no_rules (cons v rest) free =
          (IsSafe-of_no_rules v free, AreSafeItems-of_no_rules rest free)

    AreRedacted-of_no_rules :
        (fields : Fields Number)
        → ((key : String) → redaction_for s key ≡ none)
        → AreRedacted s fields
    AreRedacted-of_no_rules end free = tt
    AreRedacted-of_no_rules (field key v rest) free =
        (subst (λ o. IsRedacted o v) (sym (free key)) tt, AreRedacted-of_no_rules rest free)

    find_rule-none :
        (rules : List RedactionRule) (key : String)
        → has_none rules ≡ true
        → find_rule rules key ≡ none
    unfolding find_rule
    find_rule-none [] key h = refl
    find_rule-none (r ∷ rs) key h = cc h

    redaction_for-none : is_noop s ≡ true → (key : String) → redaction_for s key ≡ none
    unfolding redaction_for is_noop
    redaction_for-none h key = find_rule-none s.redaction.rules key (ground arith)

    -- Where either policy is recursive, no field with a redaction rule, at any depth of a
    -- sanitized record, holds anything but what its rule puts there; a dropped field is gone.
    pub sanitize-IsSafe : (v : Value Number) → is_recursive s ≡ true → IsSafe s (sanitize ops s v).0
    unfolding sanitize
    sanitize-IsSafe v all = elim (Bool-cases (is_noop s)) [
      | inl noop ↦ rw (noop, sanitize) (IsSafe-of_no_rules v (redaction_for-none noop))
      | inr works ↦ rw (works, sanitize) (walk-IsSafe v "" all)
    ]

    walk-IsSafeAtTop : (v : Value Number) (path : String) → IsSafeAtTop s (walk ops s v path).0
    unfolding walk
    walk-IsSafeAtTop (object fields) path = walk_fields-AreRedacted fields path
    walk-IsSafeAtTop (array items) path = elim (Bool-cases (is_recursive s)) [
      | inl all ↦ rw all tt
      | inr top ↦ rw top tt
    ]
    walk-IsSafeAtTop null path = tt
    walk-IsSafeAtTop (boolean b) path = tt
    walk-IsSafeAtTop (number n) path = tt
    walk-IsSafeAtTop (string text) path = tt

    IsSafeAtTop-of_no_rules :
        (v : Value Number) → ((key : String) → redaction_for s key ≡ none) → IsSafeAtTop s v
    IsSafeAtTop-of_no_rules (object fields) free = AreRedacted-of_no_rules fields free
    IsSafeAtTop-of_no_rules _ free = tt

    -- Whatever the policies are, no field with a redaction rule in a sanitized record itself holds
    -- anything but what its rule puts there.
    sanitize-IsSafeAtTop : (v : Value Number) → IsSafeAtTop s (sanitize ops s v).0
    unfolding sanitize
    sanitize-IsSafeAtTop v = elim (Bool-cases (is_noop s)) [
      | inl noop ↦ rw (noop, sanitize) (IsSafeAtTop-of_no_rules v (redaction_for-none noop))
      | inr works ↦ rw (works, sanitize) (walk-IsSafeAtTop v "")
    ]
