-- ===== src/Io/Rows/Windows.antt =====
-- Rows that are pushed come out in frames of the size of the window.
use stat_guardian.Base.{
  ℕ, suc, ◌≤◌, ◌<◌, ◌≡◌, refl, String, true, false, Option, none, some, List, [], ◌∷◌, ◌++◌, length,
  length-append, leb, arith, inl, inr, Bool-cases,
}
use Prim.Native.Nat.{max}
use mathlib.Core.List.{append-nil, append_assoc}
use mathlib.Core.Path.{sym, ap, ◌∙◌}
use mathlib.Core.List.{map}
use stat_guardian.Base.Sort.{All}
use stat_guardian.Io.Errors.{IoResult, ok, err}
use stat_guardian.Io.System.{System}
use stat_guardian.Io.Rows.{
  StreamRow, RowBuffer, new_buffer, sorted_keys, frame_of, flush, optional, push,
}

abbrev pub flatten_rows : List (List StreamRow) → List StreamRow
flatten_rows [] = []
flatten_rows (window ∷ windows) = window ++ flatten_rows windows

module _ (sys : System) where
  abbrev pub Answer : Type 0
  Answer = IoResult sys.Polars (Option sys.Frame)

  -- All rows pushed one after the other, with what each push gives.
  unfoldable pub push_all : List StreamRow → RowBuffer → List Answer × RowBuffer
  unfolding push
  push_all [] b = ([], b)
  push_all (row ∷ rows) b =
      let step = push sys row b in let later = push_all rows step.1 in (step.0 ∷ later.0, later.1)

  -- The answers that are a frame or an error.
  abbrev pub given : List Answer → List Answer
  given [] = []
  given (ok none ∷ answers) = given answers
  given (ok (some df) ∷ answers) = ok (some df) ∷ given answers
  given (err e ∷ answers) = err e ∷ given answers

  abbrev pub answer_of : IoResult sys.Polars sys.Frame → Answer
  answer_of (ok df) = ok (some df)
  answer_of (err e) = err e

  given-answer_of :
      (r : IoResult sys.Polars sys.Frame) (answers : List Answer)
      → given (answer_of r ∷ answers) ≡ answer_of r ∷ given answers
  given-answer_of (ok df) answers = refl
  given-answer_of (err e) answers = refl

  optional-answer_of :
      (r : IoResult sys.Polars sys.Frame) (b : RowBuffer) → optional sys (r, b) ≡ (answer_of r, b)
  optional-answer_of (ok df) b = refl
  optional-answer_of (err e) b = refl

  -- Rows held and rows pushed come, in their order, in whole windows, each of which is given as
  -- the frame of its columns; what is left is held.
  abbrev pub Windowed :
      (window_size : ℕ)
      → (schema : List String) → (rows : List StreamRow) → List Answer × RowBuffer
      → Type 0
  Windowed window_size schema rows (answers, b) =
      (windows : List (List StreamRow)) × (rows ≡ flatten_rows windows ++ b.buffer)
      × All (λ window. length window ≡ max window_size 1) windows
      × (given answers ≡ map (λ window. answer_of (frame_of sys schema window)) windows)
      × (length b.buffer < max window_size 1)

  push-full :
      (row : StreamRow) (b : RowBuffer) (schema : List String)
      → b.schema ≡ some schema
      → b.window_size ≤ suc (length b.buffer)
      → push sys row b
        ≡ (answer_of (frame_of sys schema (b.buffer ++ row ∷ [])), record b { buffer = [] })
  unfolding push flush
  push-full row b schema h full =
      let size = length-append b.buffer (row ∷ []) in
      let test : leb b.window_size (length (b.buffer ++ row ∷ [])) ≡ true = ground (arith, size) in
      rw h (rw test (optional-answer_of _ _))

  push-more :
      (row : StreamRow) (b : RowBuffer) (schema : List String)
      → b.schema ≡ some schema
      → suc (length b.buffer) < b.window_size
      → push sys row b ≡ (ok none, record b { buffer = b.buffer ++ row ∷ [] })
  unfolding push
  push-more row b schema h more =
      let size = length-append b.buffer (row ∷ []) in
      let test : leb b.window_size (length (b.buffer ++ row ∷ [])) ≡ false = ground (arith, size) in
      rw h (rw test refl)

  push_all-from :
      (rows : List StreamRow) (b : RowBuffer) (schema : List String)
      → b.schema ≡ some schema
      → length b.buffer < max b.window_size 1
      → Windowed b.window_size schema (b.buffer ++ rows) (push_all rows b)
  unfolding push_all
  push_all-from [] b schema h held = ([], append-nil b.buffer, tt, refl, held)
  push_all-from (row ∷ rows) b schema h held =
      let size = length-append b.buffer (row ∷ []) in
      let assoc = append_assoc b.buffer (row ∷ []) rows in
      elim (Bool-cases (leb b.window_size (suc (length b.buffer)))) [
        | inl full ↦
            let reached : b.window_size ≤ suc (length b.buffer) = ground arith in
            let step = push-full row b schema h reached in
            let (windows, all, whole, frames, left) =
              push_all-from rows (record b { buffer = [] }) schema h (omega arith) in
            let answer = answer_of (frame_of sys schema (b.buffer ++ row ∷ [])) in
            rw step (
              (b.buffer ++ row ∷ []) ∷ windows,
              sym assoc
                  ∙ ap (λ t. (b.buffer ++ row ∷ []) ++ t) all
                  ∙ sym (append_assoc (b.buffer ++ row ∷ []) (flatten_rows windows) _),
              (omega (arith, size, held), whole),
              given-answer_of _ _ ∙ ap (λ t. answer ∷ t) frames,
              left,
            )
        | inr more ↦
            let step = push-more row b schema h (ground arith) in
            let (windows, all, whole, frames, left) =
              push_all-from rows (record b { buffer = b.buffer ++ row ∷ [] }) schema h
                (ground (arith, size)) in
            rw step (windows, sym assoc ∙ all, whole, frames, left)
      ]

  -- Rows pushed one by one into a new buffer come out, in their order, in frames of exactly the
  -- window size (at least one) with the columns of the first row; the rows behind the last frame
  -- are still held, and fewer than the window size.
  pub push_all-Windowed :
      (window_size : ℕ) (row : StreamRow) (rows : List StreamRow)
      → Windowed window_size
          (sorted_keys row)
          (row ∷ rows)
          (push_all (row ∷ rows) (new_buffer window_size))
  unfolding push_all new_buffer
  push_all-Windowed window_size row rows =
      push_all-from (row ∷ rows)
        (record { window_size = window_size; buffer = []; schema = some (sorted_keys row) })
        (sorted_keys row) refl (omega arith)
