-- ===== src/Stream/Validator/Run/Buffers.antt =====
-- A run sees the bytes of its reader, not the buffers in which they come.
use mathlib.Core.Path.{subst}
use mathlib.Core.List.{append-nil}
use stat_guardian.Base.{
  ℕ, zero, suc, ◌<◌, String, ◌≡◌, refl, sym, ap, ◌∙◌, inl, inr, Option, some, List, [], ◌∷◌, length,
  arith, Bool-cases, Option-cases,
}
use stat_guardian.Stream.Reader.{Reader, bytes_of, u64_mod, ok}
use stat_guardian.Stream.Reader.Lines.{IsClean, lines_of, total, total-lines_of}
use stat_guardian.Stream.Ndjson.{RawLine, NdjsonSource, new, next_line}
use stat_guardian.Stream.Ndjson.Lines.{IsReady, Meets, first_record, counted, next_line-Meets}
use stat_guardian.Stream.Report.{StreamResult-cases, done}
use stat_guardian.Stream.Validator.{StreamOptions, RunState, new_state}
use stat_guardian.Stream.Validator.Run.{
  Calls, Batch, reached, max_of, stop_at, handle_line, run_loop, finish_run, validate_reader,
}
use stat_guardian.Stream.Validator.Run.Sources.{cursor, validate_bytes}

abbrev lines_ahead : NdjsonSource → List (List ℕ)
lines_ahead src = lines_of (bytes_of src.reader)

-- Two sources with the same lines ahead, at the same place.
record AreAlike (a b : NdjsonSource) : Type 0 where
  ready : IsReady a
  other_ready : IsReady b
  lines : lines_ahead a ≡ lines_ahead b
  same_cap : a.max_record_bytes ≡ b.max_record_bytes
  index : a.record_index ≡ b.record_index
  bytes : a.bytes_consumed ≡ b.bytes_consumed

length-bytes :
    (a b : NdjsonSource)
    → lines_ahead a ≡ lines_ahead b
    → length (bytes_of a.reader) ≡ length (bytes_of b.reader)
length-bytes a b lines =
    sym (total-lines_of (bytes_of a.reader)) ∙ ap total lines ∙ total-lines_of (bytes_of b.reader)

-- Both give the same record, and sources that are alike again.
record GoAlike (a b : NdjsonSource) : Type 0 where
  raw : Option RawLine
  next : NdjsonSource
  other_next : NdjsonSource
  answer : next_line a ≡ some (ok (raw, next))
  other_answer : next_line b ≡ some (ok (raw, other_next))
  alike : AreAlike next other_next

first_ahead : NdjsonSource → Option RawLine × List (List ℕ)
first_ahead src = first_record src.max_record_bytes src.record_index (lines_ahead src)

next_line-GoAlike : (a b : NdjsonSource) → AreAlike a b → GoAlike a b
unfolding first_ahead
next_line-GoAlike a b s =
    let same : first_ahead b ≡ first_ahead a = rw (s.lines, s.same_cap, s.index) refl in
    let (a', answer, adv) = next_line-Meets a s.ready in
    let (b', other_answer, other_adv) =
      subst (λ f. Meets b f (next_line b)) same (next_line-Meets b s.other_ready) in
    let lines = adv.lines ∙ sym other_adv.lines in
    record {
      raw = (first_ahead a).0;
      next = a';
      other_next = b';
      answer = answer;
      other_answer = other_answer;
      alike = record {
        ready = adv.ready;
        other_ready = other_adv.ready;
        lines = lines;
        same_cap = adv.same_cap ∙ s.same_cap ∙ sym other_adv.same_cap;
        index = adv.index ∙ ap (counted (first_ahead a).0) s.index ∙ sym other_adv.index;
        bytes = omega (
          arith,
          adv.bytes,
          other_adv.bytes,
          s.bytes,
          length-bytes a b s.lines,
          length-bytes a' b' lines,
        );
      };
    }

bytes_of-cursor : (bytes : List ℕ) → bytes_of (cursor bytes) ≡ bytes
unfolding bytes_of
bytes_of-cursor [] = refl
bytes_of-cursor (b ∷ bs) = ap (λ t. b ∷ t) (append-nil bs)

cursor-IsClean : (bytes : List ℕ) → IsClean (cursor bytes)
cursor-IsClean [] = tt
cursor-IsClean (b ∷ bs) = tt

new-AreAlike :
    (reader : Reader) (limit : ℕ)
    → IsClean reader
    → length (bytes_of reader) < u64_mod
    → AreAlike (new reader limit) (new (cursor (bytes_of reader)) limit)
unfolding new
new-AreAlike reader limit clean small =
    let same = bytes_of-cursor (bytes_of reader) in
    record {
      ready = record { clean = clean; small = omega arith };
      other_ready = record {
        clean = cursor-IsClean (bytes_of reader);
        small = omega (arith, ap length same);
      };
      lines = ap lines_of (sym same);
      same_cap = refl;
      index = refl;
      bytes = refl;
    }

module _ {Number Frame F64 : Type 0} (calls : Calls Number Frame F64) (options : StreamOptions)
    (duration_ms : ℕ) where
  -- What follows of a loop looks at the place of the source only.
  finish_run-alike :
      (a b : NdjsonSource) (state : RunState) (batch : Batch calls)
      → AreAlike a b
      → finish_run calls options duration_ms (some (done (a, state, batch)))
        ≡ finish_run calls options duration_ms (some (done (b, state, batch)))
  unfolding finish_run
  finish_run-alike a b state batch s = rw (s.index, s.bytes) refl

  stop_at-alike :
      (limit : String) (max : ℕ) (a b : NdjsonSource) (state : RunState) (batch : Batch calls)
      → GoAlike a b
      → finish_run calls options duration_ms
          (stop_at calls options limit max (next_line a) state batch)
        ≡ finish_run calls options duration_ms
            (stop_at calls options limit max (next_line b) state batch)
  unfolding stop_at
  stop_at-alike limit max a b state batch g = elim (Option-cases g.raw) [
    | inl e ↦
        rw (g.answer, g.other_answer)
          (rw e (finish_run-alike g.next g.other_next state batch g.alike))
    | inr (line, e) ↦
        rw (g.answer, g.other_answer) (rw e (finish_run-alike g.next g.other_next _ batch g.alike))
  ]

  run_loop-alike :
      (fuel : ℕ) (a b : NdjsonSource) (state : RunState) (batch : Batch calls)
      → AreAlike a b
      → finish_run calls options duration_ms (run_loop calls options fuel a state batch)
        ≡ finish_run calls options duration_ms (run_loop calls options fuel b state batch)
  unfolding run_loop
  run_loop-alike zero a b state batch s = refl
  run_loop-alike (suc fuel) a b state batch s =
      let g = next_line-GoAlike a b s in
      let max_records = options.limits.max_records in
      let max_bytes = options.limits.max_bytes in
      elim (Bool-cases (reached max_records b.record_index)) [
        | inl full ↦
            rw (ap (reached max_records) s.index ∙ full, full, run_loop)
              (stop_at-alike "max_records" (max_of max_records) a b state batch g)
        | inr room ↦
            let other_room = ap (reached max_records) s.index ∙ room in
            elim (Bool-cases (reached max_bytes b.bytes_consumed)) [
              | inl full ↦
                  rw (other_room, room, ap (reached max_bytes) s.bytes ∙ full, full, run_loop)
                    (stop_at-alike "max_bytes" (max_of max_bytes) a b state batch g)
              | inr more ↦
                  rw (other_room, room, ap (reached max_bytes) s.bytes ∙ more, more, run_loop)
                    (rw (g.answer, g.other_answer)
                      (elim (Option-cases g.raw) [
                        | inl e ↦ rw e (finish_run-alike g.next g.other_next state batch g.alike)
                        | inr (line, e) ↦
                            elim (StreamResult-cases (handle_line calls options line state batch)) [
                              | inl (problem, o) ↦ rw e (rw o refl)
                              | inr ((state', batch'), o) ↦ rw e (
                                  rw o
                                    (run_loop-alike fuel g.next g.other_next state' batch' g.alike))
                            ]
                      ]))
            ]
      ]

-- Over a reader with no error and fewer than 2^64 bytes, in whatever buffers, a run has the same
-- result as over its bytes in one buffer: the same report or the same error.
pub validate_reader-eq-validate_bytes :
    {Number Frame F64 : Type 0} (calls : Calls Number Frame F64) (options : StreamOptions)
    (dataset : String) (duration_ms : ℕ) (reader : Reader)
    → IsClean reader
    → length (bytes_of reader) < u64_mod
    → validate_reader calls options dataset duration_ms reader
      ≡ validate_bytes calls options dataset duration_ms (bytes_of reader)
unfolding validate_reader validate_bytes
validate_reader-eq-validate_bytes calls options dataset duration_ms reader clean small =
    let bytes = bytes_of reader in
    let fuel = suc (length bytes) in
    let limit = options.limits.max_record_bytes in
    let state = new_state dataset in
    rw (bytes_of-cursor bytes) (
      run_loop-alike calls options duration_ms fuel (new reader limit) (new (cursor bytes) limit)
        state [] (new-AreAlike reader limit clean small))
