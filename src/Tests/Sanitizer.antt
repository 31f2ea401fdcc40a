-- ===== src/Tests/Sanitizer.antt =====
-- The sanitizer of crates/statguardian-stream on a small record. The case mappings leave a text as
-- it is here.
use stat_guardian.Base.{ℕ, decimal, ◌≡◌, refl, true, false, List, [], ◌∷◌}
use stat_guardian.Base.Assoc.{get, insert}
use stat_guardian.Base.Chars.{trim_text}
use stat_guardian.Stream.Json.{Value, number, string, array, object, nil, cons, end, field}
use stat_guardian.Stream.Sanitize.{
  RedactionStrategy, Sanitizer, SanitizationKind, SanitizationEvent, SanitizationSummary, TextOps,
  fnv1a_64, hash_value, redact, normalize_child, count_up, leaf_of, kind_name, record_event, walk,
  sanitize,
}
use stat_guardian.Stream.Sanitize.Redaction.{IsSafe, sanitize-IsSafe}
use stat_guardian.Stream.Sanitize.Changes.{IsFaithful, sanitize-IsFaithful}

abbrev ops : TextOps ℕ
ops = record { value_to_string = λ _. "?"; to_lowercase = λ s. s; to_uppercase = λ s. s }

abbrev policy : Sanitizer
policy = record {
  redaction = record {
    rules =
        record { field_name = "ssn"; strategy = RedactionStrategy.mask }
        ∷ record { field_name = "id"; strategy = RedactionStrategy.hash }
        ∷ record { field_name = "pin"; strategy = RedactionStrategy.drop }
        ∷ [];
    recursive = true;
  };
  normalization = record {
    trim_fields = "name" ∷ [];
    lowercase_fields = [];
    uppercase_fields = [];
    recursive = false;
  };
}

abbrev person : Value ℕ
person = object (
    field "id" (string "7") (
      field "name" (string " Ada ") (
        field "family"
          (array (cons (object (field "pin" (number 1) (field "ssn" (string "1-2") end))) nil))
          end)))

abbrev clean_person : Value ℕ
clean_person = object (
    field "id" (string "af63aa4c86019796") (
      field "name" (string "Ada")
        (field "family" (array (cons (object (field "ssn" (string "[REDACTED]") end)) nil)) end)))

abbrev person_events : List SanitizationEvent
person_events =
    record { path = "id"; kind = SanitizationKind.hashed }
    ∷ record { path = "name"; kind = SanitizationKind.trimmed }
    ∷ record { path = "family[0].pin"; kind = SanitizationKind.dropped }
    ∷ record { path = "family[0].ssn"; kind = SanitizationKind.masked }
    ∷ []

fnv1a_64-empty : fnv1a_64 [] ≡ 0xcbf29ce484222325
unfolding fnv1a_64
fnv1a_64-empty = refl

sanitize-person : sanitize ops policy person ≡ (clean_person, person_events)
unfolding sanitize redact normalize_child walk hash_value trim_text decimal
sanitize-person = refl

sanitize-IsSafe_example : IsSafe ops policy (sanitize ops policy person).0
sanitize-IsSafe_example = sanitize-IsSafe ops policy person refl

sanitize-IsFaithful_example : IsFaithful person (sanitize ops policy person)
sanitize-IsFaithful_example = sanitize-IsFaithful ops policy person

abbrev masked_once : SanitizationSummary
masked_once = record { total_events = 1; by_kind = ("masked", 1) ∷ []; by_field = ("ssn", 1) ∷ [] }

abbrev dropped_event : SanitizationEvent
dropped_event = record { path = "family[0].pin"; kind = SanitizationKind.dropped }

record_event-masked_once : record_event dropped_event masked_once ≡ record {
  total_events = 2;
  by_kind = ("masked", 1) ∷ ("dropped", 1) ∷ [];
  by_field = ("ssn", 1) ∷ ("pin", 1) ∷ [];
}
unfolding record_event count_up leaf_of kind_name get insert
record_event-masked_once = refl
