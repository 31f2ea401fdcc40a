-- ===== src/Stream/Agent/Loops.antt =====
-- What `detect_loops` reports.
use mathlib.Core.Path.{subst}
use stat_guardian.Base.{
  ℕ, ◌≤◌, String, ◌≡◌, refl, sym, ◌∙◌, inl, inr, ◌||◌, List, [], ◌∷◌, ◌++◌, length, length-append,
  length-filter, length-drop, filter, map, contains, ◌==◌, nat_eq, string_eq, ltb, leb, arith,
  Bool-cases, Option-cases, if◌then◌else◌,
}
use stat_guardian.Base.Sort.{All}
use stat_guardian.Base.Dedup.{IsDistinct}
use stat_guardian.Base.Distinct.{append-IsDistinct}
use stat_guardian.Stream.Agent.{
  AgentEvent, LoopFinding, push_recent, update_loops, first_of, last_of, detect_call, detect_from,
  detect_loops,
}

-- A count that lies between the threshold and the window.
pub record IsWithin (window threshold : ℕ) (l : LoopFinding) : Type 0 where
  pub enough : threshold ≤ l.occurrences
  pub fits : l.occurrences ≤ window

abbrev pub signatures : List LoopFinding → List String
signatures = map (λ (l : LoopFinding). l.signature)

push_recent-length :
    (window : ℕ) (call : String × ℕ) (recent : List (String × ℕ))
    → length recent ≤ window
    → length (push_recent window call recent) ≤ window
unfolding push_recent
push_recent-length window call recent h =
    let recent' = recent ++ call ∷ [] in
    let longer = length-append recent (call ∷ []) in
    elim (Bool-cases (ltb window (length recent'))) [
      | inl over ↦ rw over (omega (arith, length-drop 1 recent', longer))
      | inr fits ↦ rw fits (ground arith)
    ]

update_loops-IsWithin :
    (window threshold : ℕ) (new : LoopFinding) (ls : List LoopFinding)
    → IsWithin window threshold new
    → All (IsWithin window threshold) ls
    → All (IsWithin window threshold) (update_loops new ls)
unfolding update_loops
update_loops-IsWithin window threshold new [] w all = (w, tt)
update_loops-IsWithin window threshold new (l ∷ ls) w all =
    elim (Bool-cases (l.signature == new.signature)) [
      | inl same ↦ rw same (record { enough = w.enough; fits = w.fits }, all.1)
      | inr other ↦ rw other (all.0, update_loops-IsWithin window threshold new ls w all.1)
    ]

signatures-update_loops :
    (new : LoopFinding) (ls : List LoopFinding)
    → signatures (update_loops new ls) ≡ (
        if contains (signatures ls) new.signature
        then signatures ls
        else signatures ls ++ new.signature ∷ [])
unfolding update_loops
signatures-update_loops new [] = refl
signatures-update_loops new (l ∷ ls) = ground (
  arith,
  signatures-update_loops new ls,
  string_eq.is_same_iff l.signature new.signature,
  string_eq.is_same_iff new.signature l.signature,
)

update_loops-IsDistinct :
    (new : LoopFinding) (ls : List LoopFinding)
    → IsDistinct (signatures ls)
    → IsDistinct (signatures (update_loops new ls))
update_loops-IsDistinct new ls d = elim (Bool-cases (contains (signatures ls) new.signature)) [
  | inl old ↦ subst IsDistinct (sym (signatures-update_loops new ls ∙ rw old refl)) d
  | inr fresh ↦
      subst IsDistinct (sym (signatures-update_loops new ls ∙ rw fresh refl))
        (append-IsDistinct (signatures ls) new.signature d fresh)
]

-- What holds of the recent calls and the findings between two events.
record IsTracked (window threshold : ℕ) (s : List (String × ℕ) × List LoopFinding) : Type 0 where
  recent : length s.0 ≤ window
  within : All (IsWithin window threshold) s.1
  distinct : IsDistinct (signatures s.1)

detect_call-IsTracked :
    (window threshold seq : ℕ) (sig : String) (s : List (String × ℕ) × List LoopFinding)
    → IsTracked window threshold s
    → IsTracked window threshold (detect_call window threshold (sig, seq) s)
unfolding detect_call
detect_call-IsTracked window threshold seq sig (recent, loops) t =
    let recent' = push_recent window (sig, seq) recent in
    let found = filter (λ (call : String × ℕ). call.0 == sig) recent' in
    let finding : LoopFinding = record {
      signature = sig;
      occurrences = length found;
      first_seq = first_of seq found;
      last_seq = last_of seq found;
    } in
    let short = push_recent-length window (sig, seq) recent t.recent in
    elim (Bool-cases (leb threshold (length found))) [
      | inl many ↦ rw many (record {
        recent = short;
        within =
            update_loops-IsWithin window threshold finding loops
              (record {
                enough = ground arith;
                fits =
                    omega
                      (arith, short, length-filter (λ (call : String × ℕ). call.0 == sig) recent');
              })
              t.within;
        distinct = update_loops-IsDistinct finding loops t.distinct;
      })
      | inr few ↦ rw few (record { recent = short; within = t.within; distinct = t.distinct })
    ]

abbrev pub AreWithin : ℕ → ℕ → List LoopFinding → Type 0
AreWithin window threshold ls = All (IsWithin window threshold) ls × IsDistinct (signatures ls)

module _ {Cost : Type 0} where
  detect_from-AreWithin :
      (window threshold : ℕ) (es : List (AgentEvent Cost))
      (s : List (String × ℕ) × List LoopFinding)
      → IsTracked window threshold s
      → AreWithin window threshold (detect_from window threshold es s)
  unfolding detect_from
  detect_from-AreWithin window threshold [] s t = (t.within, t.distinct)
  detect_from-AreWithin window threshold (e ∷ es) s t = elim (Option-cases e.call_signature) [
    | inl no_call ↦ rw (no_call, detect_from) (detect_from-AreWithin window threshold es s t)
    | inr (sig, call) ↦
        rw (call, detect_from)
          (detect_from-AreWithin window threshold es (detect_call window threshold (sig, e.seq) s)
            (detect_call-IsTracked window threshold e.seq sig s t))
  ]

  -- The count of every finding of detect_loops lies between the threshold and the window, and no
  -- signature stands in two findings.
  pub detect_loops-AreWithin :
      (events : List (AgentEvent Cost)) (window threshold : ℕ)
      → AreWithin window threshold (detect_loops events window threshold)
  unfolding detect_loops
  detect_loops-AreWithin events window threshold =
      elim (Bool-cases (window == 0 || threshold == 0)) [
        | inl off ↦ rw off (tt, tt)
        | inr on ↦ rw on (
            detect_from-AreWithin window threshold events ([], [])
              (record { recent = omega arith; within = tt; distinct = tt }))
      ]
