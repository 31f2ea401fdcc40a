-- ===== src/Stream/Validator/Finish.antt =====
-- What `finish` makes of the findings.
use Prim.Native.Nat.{compare as compare_ℕ, Ordering}
use mathlib.Core.List.{Perm}
use text.Mathlib.TextPositions.{compare_refl}
use stat_guardian.Base.{String, ◌≤◌}
use stat_guardian.Base.Dedup.{All-imp}
use Prim.Native.String.{compare}
use stat_guardian.Base.{
  ℕ, ◌≡◌, ◌≢◌, refl, sym, ap, ◌∙◌, ◌↔◌, inl, inr, true, false, Option, none, some, List, [], ◌∷◌,
  Memᴰ, Memᴰ-cons, Memᴰ-nil, arith, Bool-cases,
}
use stat_guardian.Base.Order.{
  IsOrder, IsOrder-nat, IsOrder-text, IsOrder-on, IsOrder-then_with, is_le, reverse_ordering,
}
use stat_guardian.Base.Sort.{
  AllPairs, sort_by, IsSorted, sort_by-IsSorted, sort_by-perm, Memᴰ-sort_by,
}
use stat_guardian.Core.Ast.{Severity}
use stat_guardian.Validators.Violation.{is_blocking_severity}
use stat_guardian.Stream.Report.{StreamFinding, MalformedRecord}
use stat_guardian.Stream.Validator.{RunState, compare_record, finding_cmp, any_blocking, finish}

IsOrder-compare_record : IsOrder compare_record
IsOrder-compare_record = record { flips = flips; trans = trans }
  where
    flips : (a b : Option ℕ) → compare_record b a ≡ reverse_ordering (compare_record a b)
    flips none none = refl
    flips none (some b) = refl
    flips (some a) none = refl
    flips (some a) (some b) = IsOrder-nat.flips a b

    trans :
        (a b c : Option ℕ)
        → is_le (compare_record a b) ≡ true
        → is_le (compare_record b c) ≡ true
        → is_le (compare_record a c) ≡ true
    trans none b none h k = refl
    trans none b (some c) h k = refl
    trans (some a) none c h k = cc h
    trans (some a) (some b) none h k = cc k
    trans (some a) (some b) (some c) h k = IsOrder-nat.trans a b c h k

IsOrder-finding_cmp : IsOrder finding_cmp
unfolding finding_cmp
IsOrder-finding_cmp =
    IsOrder-then_with _ _
      (IsOrder-on (λ (f : StreamFinding). f.record_index) compare_record IsOrder-compare_record)
      (IsOrder-then_with _ _ (IsOrder-on (λ (f : StreamFinding). f.column) compare IsOrder-text) (
        IsOrder-then_with _ _ (IsOrder-on (λ (f : StreamFinding). f.check) compare IsOrder-text)
          (IsOrder-on (λ (f : StreamFinding). f.batch) compare_ℕ IsOrder-nat)))

blocking_iff : (s : Severity) → (is_blocking_severity s ≡ true) ↔ (s ≡ Severity.blocking)
blocking_iff Severity.blocking = (λ _. refl, λ _. refl)
blocking_iff _ = (λ h. cc h, λ e. cc e)

any_blocking-false :
    (fs : List StreamFinding)
    → (any_blocking fs ≡ false) ↔ ((f : StreamFinding) → Memᴰ f fs → f.severity ≢ Severity.blocking)
unfolding any_blocking
any_blocking-false [] = (λ _ f m. absurd (Memᴰ-nil f m), λ _. refl)
any_blocking-false (f ∷ fs) = elim (Bool-cases (is_blocking_severity f.severity)) [
  | inl blocking ↦ rw blocking (
    λ h. cc h,
    λ none_blocks. absurd (none_blocks f (Memᴰ.head refl) ((blocking_iff f.severity).0 blocking)),
  )
  | inr passes ↦
      let (to, back) = any_blocking-false fs in
      rw passes (
        λ h g m. elim ((Memᴰ-cons g f fs).0 m) [
          | inl e ↦ λ b. cc (
            passes,
            (blocking_iff f.severity).1 (ap (λ (x : StreamFinding). x.severity) (sym e) ∙ b),
          )
          | inr later ↦ to h g later
        ],
        λ none_blocks. back (λ g m. none_blocks g (Memᴰ.tail m)),
      )
]

-- Findings of no record come first, the others by their record.
abbrev pub IsNotLater : Option ℕ → Option ℕ → Type 0
IsNotLater none b = Unit
IsNotLater (some a) none = ⊥
IsNotLater (some a) (some b) = a ≤ b

-- What may stand before what: records ascend, in one record columns, in one column checks, and in one
-- check batches.
pub record InOrder (a b : StreamFinding) : Type 0 where
  pub records : IsNotLater a.record_index b.record_index
  pub columns : a.record_index ≡ b.record_index → is_le (compare a.column b.column) ≡ true
  pub checks :
      a.record_index ≡ b.record_index → a.column ≡ b.column → is_le (compare a.check b.check) ≡ true
  pub batches :
      a.record_index ≡ b.record_index → a.column ≡ b.column → a.check ≡ b.check → a.batch ≤ b.batch

compare_record-IsNotLater : (a b : Option ℕ) → is_le (compare_record a b) ≡ true → IsNotLater a b
compare_record-IsNotLater none b h = tt
compare_record-IsNotLater (some a) none h = cc h
compare_record-IsNotLater (some a) (some b) h = ground arith

compare_record_self : (a b : Option ℕ) → a ≡ b → compare_record a b ≡ Ordering.eq
compare_record_self none none e = refl
compare_record_self none (some b) e = cc e
compare_record_self (some a) none e = cc e
compare_record_self (some a) (some b) e = let same : a ≡ b = cc e in ground arith

compare_self : (s t : String) → s ≡ t → compare s t ≡ Ordering.eq
compare_self s t e = ap (compare s) (sym e) ∙ compare_refl s

InOrder-of_le : (a b : StreamFinding) → is_le (finding_cmp a b) ≡ true → InOrder a b
unfolding finding_cmp
InOrder-of_le a b h =
    let record_le = compare_record-IsNotLater a.record_index b.record_index in
    let same_record = compare_record_self a.record_index b.record_index in
    let same_column = compare_self a.column b.column in
    let same_check = compare_self a.check b.check in
    record {
      records = record_le (ground arith);
      columns = λ r. ground (arith, same_record r);
      checks = λ r c. ground (arith, same_record r, same_column c);
      batches = λ r c k. ground (arith, same_record r, same_column c, same_check k);
    }

AllPairs-of_sorted :
    {A : Type 0} (cmp : A → A → Ordering) (R : A → A → Type 0)
    → ((a b : A) → is_le (cmp a b) ≡ true → R a b)
    → (xs : List A) → IsSorted cmp xs
    → AllPairs R xs
AllPairs-of_sorted cmp R f [] s = tt
AllPairs-of_sorted cmp R f (x ∷ xs) s = (All-imp xs (f x) s.0, AllPairs-of_sorted cmp R f xs s.1)

-- The report has the findings of the run, each as often as there, ordered by record (those of no
-- record first), column, check and batch, and the malformed records, each as often as there,
-- ordered by record. It passes exactly if no finding is blocking.
pub finish-ordered :
    (duration_ms : ℕ) (state : RunState)
    → AllPairs InOrder (finish duration_ms state).findings
      × Perm (finish duration_ms state).findings state.findings
      × AllPairs
          (λ (a b : MalformedRecord). a.record_index ≤ b.record_index)
          (finish duration_ms state).malformed
      × Perm (finish duration_ms state).malformed state.malformed
      × (((finish duration_ms state).passed ≡ true)
          ↔ ((f : StreamFinding) → Memᴰ f state.findings → f.severity ≢ Severity.blocking))
unfolding finish
finish-ordered duration_ms state =
    let sorted = sort_by finding_cmp state.findings in
    let same = λ (f : StreamFinding). Memᴰ-sort_by finding_cmp f state.findings in
    let by_record = λ (a b : MalformedRecord). compare_ℕ a.record_index b.record_index in
    let IsOrder-by_record =
      IsOrder-on (λ (r : MalformedRecord). r.record_index) compare_ℕ IsOrder-nat in
    let (to, back) = any_blocking-false sorted in
    (
      AllPairs-of_sorted finding_cmp InOrder InOrder-of_le sorted
          (sort_by-IsSorted finding_cmp IsOrder-finding_cmp state.findings),
      sort_by-perm finding_cmp state.findings,
      AllPairs-of_sorted by_record _ (λ a b h. ground arith) (sort_by by_record state.malformed)
          (sort_by-IsSorted by_record IsOrder-by_record state.malformed),
      sort_by-perm by_record state.malformed,
      (
        λ h f m. to (ground arith) f ((same f).1 m),
        λ none_blocks. rw (back (λ f m. none_blocks f ((same f).0 m))) refl,
      ),
    )
