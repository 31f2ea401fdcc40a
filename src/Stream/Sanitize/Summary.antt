-- ===== src/Stream/Sanitize/Summary.antt =====
-- The counts of a summary add up.
use stat_guardian.Base.{
  ℕ, ◌+◌, ◌≤◌, ◌<◌, String, ◌≡◌, inl, inr, none, some, List, [], ◌∷◌, string_eq, arith,
  Option-cases,
}
use stat_guardian.Base.Assoc.{get, insert}
use stat_guardian.Stream.Reader.{u64, u64_mod}
use stat_guardian.Stream.Sanitize.{
  SanitizationEvent, SanitizationSummary, count_up, kind_name, leaf_of, record_event,
}

abbrev pub total_of : List (String × ℕ) → ℕ
total_of [] = 0
total_of ((key, n) ∷ m) = n + total_of m

total_of-insert :
    (key : String) (v : ℕ) (m : List (String × ℕ))
    → total_of (insert key v m) + (elim (get key m) [ none ↦ 0 | some n ↦ n ]) ≡ total_of m + v
unfolding get insert
total_of-insert key v [] = omega arith
total_of-insert key v ((k, n) ∷ m) = ground (arith, total_of-insert key v m)

get-le : (key : String) (n : ℕ) (m : List (String × ℕ)) → get key m ≡ some n → n ≤ total_of m
unfolding get
get-le key n [] e = cc e
get-le key n ((k, c) ∷ m) e = ground (arith, get-le key n m)

total_of-count_up :
    (key : String) (m : List (String × ℕ))
    → total_of m + 1 < u64_mod
    → total_of (count_up key m) ≡ total_of m + 1
unfolding count_up
total_of-count_up key m small = elim (Option-cases (get key m)) [
  | inl new ↦ rw new (omega (arith, rw new at (total_of-insert key 1 m)))
  | inr (n, old) ↦
      let le = get-le key n m old in
      let next : u64 (n + 1) ≡ n + 1 = omega arith in
      rw (old, next) (omega (arith, rw old at (total_of-insert key (n + 1) m)))
]

-- The total is the sum of the counts by kind, and of those by field.
record IsBalanced (summary : SanitizationSummary) : Type 0 where
  kinds : total_of summary.by_kind ≡ summary.total_events
  fields : total_of summary.by_field ≡ summary.total_events

-- Recording an event below 2^64 keeps the total of a summary the sum of its counts by kind and of
-- its counts by field, and adds one to it.
record_event-IsBalanced :
    (event : SanitizationEvent) (summary : SanitizationSummary)
    → summary.total_events + 1 < u64_mod
    → IsBalanced summary
    → IsBalanced (record_event event summary)
      × ((record_event event summary).total_events ≡ summary.total_events + 1)
unfolding record_event
record_event-IsBalanced event summary small b =
    let kinds = total_of-count_up (kind_name event.kind) summary.by_kind (omega (arith, b.kinds)) in
    let fields =
      total_of-count_up (leaf_of event.path) summary.by_field (omega (arith, b.fields)) in
    (
      record { kinds = omega (arith, kinds, b.kinds); fields = omega (arith, fields, b.fields) },
      omega arith,
    )
