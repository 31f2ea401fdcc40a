-- ===== src/Stream/Agent/Events/Metadata.antt =====
-- Which fields of the JSON object of an event are its metadata.
use mathlib.Core.Path.{subst, ap, sym, ◌∙◌}
use stat_guardian.Base.{
  String, Bool, true, false, Option, none, some, List, [], ◌≡◌, refl, ◌==◌, string_eq,
  if◌then◌else◌, inl, inr, Bool-cases,
}
use stat_guardian.Base.Assoc.{get, insert, get-insert}
use stat_guardian.Stream.Json.{Value, Fields}
use stat_guardian.Stream.Agent.{AgentEvent}
use stat_guardian.Stream.Agent.Events.{
  EventOps, get_field, is_known, metadata_loop, event_of, from_json,
}

module _ {Number : Type 0} where
  -- No key of the object comes twice.
  abbrev pub HasDistinctKeys : Fields Number → Type 0
  HasDistinctKeys Fields.end = Unit
  HasDistinctKeys (Fields.field k v obj) = (get_field k obj ≡ none) × HasDistinctKeys obj

-- A field that is found has its text, and any other what was there.
abbrev pub text_or_old :
    {Number : Type 0}
    → (Value Number → String)
    → Bool
    → Option (Value Number)
    → Option String
    → Option String
text_or_old show true v old = old
text_or_old show false none old = old
text_or_old show false (some v) old = some (show v)

get-kept :
    (b : Bool) (k j : String) (s : String) (m : List (String × String))
    → get k (if b then m else insert j s m)
      ≡ (if b then get k m else if j == k then some s else get k m)
get-kept true k j s m = refl
get-kept false k j s m = get-insert j k s m

module _ {Number : Type 0} (show : Value Number → String) where
  text_or_old-field :
      (k j : String) (v : Value Number) (found : Option (Value Number)) (old : Option String)
      → (j ≡ k → found ≡ none)
      → text_or_old show
          (is_known k)
          found
          (if is_known j then old else if j == k then some (show v) else old)
        ≡ text_or_old show (is_known k) (if j == k then some v else found) old
  text_or_old-field k j v found old new = elim (Bool-cases (j == k)) [
    | inr other ↦ elim (Bool-cases (is_known j)) [
      | inl e ↦ rw other (rw e refl)
      | inr e ↦ rw other (rw e refl)
    ]
    | inl same ↦
        let i : j ≡ k = (string_eq.is_same_iff j k).0 same in
        elim (Bool-cases (is_known k)) [
          | inl e ↦ rw same (rw (new i) (rw (ap is_known i) (rw e refl)))
          | inr e ↦ rw same (rw (new i) (rw (ap is_known i) (rw e refl)))
        ]
  ]

module _ {Number Cost : Type 0} (ops : EventOps Number Cost) where
  get-metadata_loop :
      (k : String) (obj : Fields Number) (m : List (String × String))
      → HasDistinctKeys obj
      → get k (metadata_loop ops obj m)
        ≡ text_or_old ops.show_value (is_known k) (get_field k obj) (get k m)
  unfolding metadata_loop get_field
  get-metadata_loop k Fields.end m h = elim (Bool-cases (is_known k)) [
    | inl e ↦ rw e refl
    | inr e ↦ rw e refl
  ]
  get-metadata_loop k (Fields.field j v obj) m (new, h) =
      let rest =
        get-metadata_loop k obj (if is_known j then m else insert j (ops.show_value v) m) h in
      let kept = get-kept (is_known j) k j (ops.show_value v) m in
      rest
      ∙ ap (text_or_old ops.show_value (is_known k) (get_field k obj)) kept
      ∙ text_or_old-field ops.show_value k j v _ _ (λ i. subst (λ x. get_field x obj ≡ none) i new)

  -- In the event of a JSON object whose keys are distinct, the metadata have under each key that
  -- is not known the text of the object's field, and nothing under any other key.
  pub from_json-metadata :
      (k : String) (obj : Fields Number) (event : AgentEvent Cost)
      → HasDistinctKeys obj
      → from_json ops (Value.object obj) ≡ inr event
      → get k event.metadata ≡ text_or_old ops.show_value (is_known k) (get_field k obj) none
  unfolding from_json event_of get
  from_json-metadata k obj event h parsed =
      let made : event_of ops obj ≡ event = cc parsed in
      ap (λ ev. get k ev.metadata) (sym made) ∙ get-metadata_loop k obj [] h
