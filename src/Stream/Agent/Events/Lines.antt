-- ===== src/Stream/Agent/Events/Lines.antt =====
-- `parse_ndjson` on the lines of the input.
use stat_guardian.Base.{
  ℕ, String, ◌⊎◌, inl, inr, Option-cases, zero, suc, ◌<◌, ◌≡◌, refl, none, some, List, [], ◌∷◌,
  length,
}
use Prim.Native.Nat.{max}
use stat_guardian.Stream.Reader.{Reader, bytes_of, u64_mod, IoResult-cases, ok, err}
use stat_guardian.Stream.Reader.Lines.{IsClean, lines_of}
use stat_guardian.Stream.Report.{StreamResult, done, failed}
use stat_guardian.Stream.Ndjson.{RawLine, NdjsonSource, new, next_line, collect}
use stat_guardian.Stream.Ndjson.Lines.{records_of, collect-eq-records_of}
use stat_guardian.Stream.Json.{Value}
use stat_guardian.Stream.Agent.{AgentEvent}
use stat_guardian.Stream.Agent.Events.{EventOps, line_event, after_line, events_loop, parse_ndjson}

module _ {Number Cost : Type 0} (ops : EventOps Number Cost)
    (from_str : List ℕ → String ⊎ Value Number) where
  abbrev before_events :
      StreamResult (AgentEvent Cost)
      → StreamResult (List (AgentEvent Cost))
      → StreamResult (List (AgentEvent Cost))
  before_events (failed e) rest = failed e
  before_events (done event) (failed e) = failed e
  before_events (done event) (done events) = done (event ∷ events)

  -- The events of the records, or the error of the first record that is none.
  abbrev pub events_of : ℕ → List RawLine → StreamResult (List (AgentEvent Cost))
  events_of cap [] = done []
  events_of cap (line ∷ ls) = before_events (line_event ops from_str cap line) (events_of cap ls)

  after_line-some :
      (r : StreamResult (AgentEvent Cost)) (rest : StreamResult (List (AgentEvent Cost)))
      → after_line ops from_str r (some rest) ≡ some (before_events r rest)
  after_line-some (failed e) rest = refl
  after_line-some (done event) (failed e) = refl
  after_line-some (done event) (done events) = refl

  events_loop-collect :
      (cap fuel : ℕ) (src : NdjsonSource) (ls : List RawLine) (src' : NdjsonSource)
      → collect fuel src ≡ some (ok (ls, src'))
      → events_loop ops from_str cap fuel src ≡ some (events_of cap ls)
  unfolding events_loop collect
  events_loop-collect cap zero src ls src' h = cc h
  events_loop-collect cap (suc fuel) src ls src' h = elim (Option-cases (next_line src)) [
    | inl e ↦ absurd (let k : collect (suc fuel) src ≡ none = rw (e, collect) refl in cc (h, k))
    | inr (a, e) ↦ elim (IoResult-cases a) [
      | inl failing ↦ absurd (
          let k : collect (suc fuel) src ≡ some err =
            rw (e, collect) (rw (failing, collect) refl) in
          cc (h, k))
      | inr ((none, s), e') ↦
          let k : collect (suc fuel) src ≡ some (ok ([], s)) =
            rw (e, collect) (rw (e', collect) refl) in
          let empty : ls ≡ [] = cc (h, k) in
          rw (e, events_loop) (rw (e', events_loop) (rw empty refl))
      | inr ((some line, s), e') ↦ elim (Option-cases (collect fuel s)) [
        | inl e2 ↦ absurd (
            let k : collect (suc fuel) src ≡ none =
              rw (e, collect) (rw (e', collect) (rw (e2, collect) refl)) in
            cc (h, k))
        | inr (b, e2) ↦ elim (IoResult-cases b) [
          | inl failing ↦ absurd (
              let k : collect (suc fuel) src ≡ some err =
                rw (e, collect)
                  (rw (e', collect) (rw (e2, collect) (rw (failing, collect) refl))) in
              cc (h, k))
          | inr ((rest, s2), e3) ↦
              let k : collect (suc fuel) src ≡ some (ok (line ∷ rest, s2)) =
                rw (e, collect) (rw (e', collect) (rw (e2, collect) (rw (e3, collect) refl))) in
              let more : ls ≡ line ∷ rest = cc (h, k) in
              let found : collect fuel s ≡ some (ok (rest, s2)) = cc (e2, e3) in
              rw (e, events_loop)
                (rw (e', events_loop)
                  (rw more (
                    rw (events_loop-collect cap fuel s rest s2 found, events_loop)
                      (after_line-some _ _))))
        ]
      ]
    ]
  ]

  -- For every reader with no error and fewer than 2^64 bytes, in whatever buffers, parse_ndjson
  -- ends, and gives the events of the records of the lines in their order, or the error of the
  -- first record that is no event. The length of a line that is compared with the cap counts its
  -- newline.
  pub parse_ndjson-exact :
      (r : Reader) (max_record_bytes : ℕ)
      → IsClean r
      → length (bytes_of r) < u64_mod
      → parse_ndjson ops from_str r max_record_bytes
        ≡ some (
            events_of max_record_bytes
              (records_of (max max_record_bytes 1) 0 (lines_of (bytes_of r))))
  unfolding parse_ndjson
  parse_ndjson-exact r max_record_bytes clean small =
      let (src', found, _) = collect-eq-records_of r max_record_bytes clean small in
      events_loop-collect max_record_bytes (suc (length (bytes_of r))) (new r max_record_bytes) _
        src' found
