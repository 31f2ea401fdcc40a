-- ===== src/Stream/Reader/Line.antt =====
-- One call of `read_line_capped` delivers the next line of the bytes, however they are buffered.
use native.Mathlib.Numerals.{add-one}
use mathlib.Core.Path.{subst₂}
use stat_guardian.Base.{
  ℕ, suc, ◌+◌, ◌-◌, ◌<◌, ◌≤◌, nat_eq, ◌≡◌, refl, ap, sym, ◌∙◌, Bool, true, false, none, some, List,
  [], ◌∷◌, ◌++◌, length, length-append, length-take, take, drop, take-append_left,
  take-append_right, arith, Option-cases, inl, inr, ltb, IsCut, IsCut-nil, take_all, take-take,
  ltb→lt, lt→ltb, ltb-false,
}
use stat_guardian.Stream.Reader.{
  chunk, interrupted, io_error, Reader, unread, bytes_of, position, used_of, copy_capped, u64,
  u64_mod, IoResult, ok, LineRead, read_loop, read_line_capped,
}
use stat_guardian.Stream.Reader.Lines.{
  IsClean, lines_of, extend_all, extend_all-cons, extend_all-nil, extend_all-append,
  lines_of_no_newline, lines_of_newline, position-lt, bytes_of-unread, unread-IsClean,
}

copy_capped-IsCut :
    (limit : ℕ) (p avail : List ℕ) (used : ℕ) (s : List ℕ × Bool)
    → used ≤ length avail
    → IsCut limit p s
    → IsCut limit (p ++ take used avail) (copy_capped limit avail used s)
unfolding copy_capped
copy_capped-IsCut limit p avail used (out, true) h c =
    let full : limit < length p = ltb→lt limit (length p) (sym c.1) in
    (
      c.0 ∙ sym (take-append_left limit p (take used avail) (omega arith)),
      sym (lt→ltb limit _ (omega (arith, length-append p (take used avail)))),
    )
copy_capped-IsCut limit p avail used (out, false) h c =
    let fits : length p ≤ limit = ltb-false limit (length p) (sym c.1) in
    let whole : out ≡ p = c.0 ∙ take_all limit p fits in
    (
      rw (
        whole,
        take-append_right limit p (take used avail) fits,
        take-take (limit - length p) used avail,
      ),
      rw whole (ground (arith, length-append p (take used avail), length-take used avail)),
    )

-- What a call that meets the lines `ls` gives: the end, or the first line's length, whether it is
-- longer than `limit`, its first `limit` bytes, and a reader that holds the other lines.
abbrev pub Delivers : ℕ → List (List ℕ) → IoResult LineRead → Type 0
Delivers limit [] o = (out : List ℕ) × (o ≡ ok (none, out, []))
Delivers limit (l ∷ ls) o =
    (rest : Reader) × (o ≡ ok (some (length l, ltb limit (length l)), take limit l, rest))
    × (lines_of (bytes_of rest) ≡ ls)
    × IsClean rest

read_loop_no_newline :
    (limit : ℕ) (s : List ℕ × Bool) (b : ℕ) (bs : List ℕ) (r : Reader) (total : ℕ)
    → position (b ∷ bs) ≡ none
    → read_loop limit (chunk b bs ∷ r) s total
      ≡ read_loop limit r
          (copy_capped limit (b ∷ bs) (length (b ∷ bs)) s)
          (u64 (total + length (b ∷ bs)))
unfolding read_loop used_of
read_loop_no_newline limit s b bs r total h =
    let used : used_of (b ∷ bs) ≡ length (b ∷ bs) = rw (h, used_of) in rw (h, read_loop) (rw used)

read_loop_newline :
    (limit : ℕ) (s : List ℕ × Bool) (b : ℕ) (bs : List ℕ) (r : Reader) (total i : ℕ)
    → position (b ∷ bs) ≡ some i
    → read_loop limit (chunk b bs ∷ r) s total ≡ (
        let s' = copy_capped limit (b ∷ bs) (i + 1) s in
        ok (some (u64 (total + (i + 1)), s'.1), s'.0, unread (drop (i + 1) (b ∷ bs)) r))
unfolding read_loop used_of
read_loop_newline limit s b bs r total i h =
    let used : used_of (b ∷ bs) ≡ i + 1 = rw (h, used_of) in rw (h, read_loop) (rw used)

-- At the end of input what was read so far is the last line.
Delivers-end :
    (limit : ℕ) (p : List ℕ) (s : List ℕ × Bool)
    → IsCut limit p s
    → Delivers limit (extend_all p (lines_of [])) (read_loop limit [] s (length p))
unfolding read_loop lines_of extend_all bytes_of
Delivers-end limit [] (out, exceeded) c = (out, refl)
Delivers-end limit (b ∷ p) (out, exceeded) c = rw (extend_all-nil b p) ([], ground arith, refl, tt)

-- A buffer with a newline gives the line that ends there.
Delivers-newline :
    (limit : ℕ) (p : List ℕ) (s : List ℕ × Bool) (b : ℕ) (bs : List ℕ) (r : Reader) (i : ℕ)
    → IsClean r
    → IsCut limit p s
    → length p + length (b ∷ bs) < u64_mod
    → position (b ∷ bs) ≡ some i
    → Delivers limit
        (extend_all p (lines_of ((b ∷ bs) ++ bytes_of r)))
        (read_loop limit (chunk b bs ∷ r) s (length p))
Delivers-newline limit p s b bs r i clean c h here =
    let line = take (suc i) (b ∷ bs) in
    let inside : suc i ≤ length (b ∷ bs) = omega (arith, position-lt (b ∷ bs) i here) in
    let cut : IsCut limit (p ++ line) (copy_capped limit (b ∷ bs) (suc i) s) =
      copy_capped-IsCut limit p (b ∷ bs) (suc i) s inside c in
    let size : length (p ++ line) ≡ length p + suc i =
      omega (arith, length-append p line, length-take (suc i) (b ∷ bs)) in
    let total : u64 (length p + suc i) ≡ length (p ++ line) = omega arith in
    rw
      (
        lines_of_newline (b ∷ bs) (bytes_of r) i here,
        extend_all-cons p line,
        read_loop_newline limit s b bs r (length p) i here,
        add-one,
      )
      (
        unread (drop (suc i) (b ∷ bs)) r,
        cc (total, cut.0, cut.1),
        rw bytes_of-unread refl,
        unread-IsClean (drop (suc i) (b ∷ bs)) r clean,
      )

-- The same from the middle of a line, after the bytes `p` of it.
read_loop-Delivers :
    (limit : ℕ) (p : List ℕ) (s : List ℕ × Bool) (r : Reader)
    → IsClean r
    → IsCut limit p s
    → length p + length (bytes_of r) < u64_mod
    → Delivers limit (extend_all p (lines_of (bytes_of r))) (read_loop limit r s (length p))
unfolding read_loop bytes_of
read_loop-Delivers limit p s [] clean c h = Delivers-end limit p s c
read_loop-Delivers limit p s (interrupted ∷ r) clean c h = read_loop-Delivers limit p s r clean c h
read_loop-Delivers limit p s (io_error ∷ r) clean c h = absurd clean
read_loop-Delivers limit p s (chunk b bs ∷ r) clean c h =
    let avail = b ∷ bs in
    let size = length-append p avail in
    let held = length-append bs (bytes_of r) in
    let s' = copy_capped limit avail (length avail) s in
    let cut : IsCut limit (p ++ avail) s' =
      rw (← ap (λ (q : List ℕ). p ++ q) (take_all (length avail) avail (omega arith)))
        (copy_capped-IsCut limit p avail (length avail) s (omega arith) c) in
    let rest = read_loop-Delivers limit (p ++ avail) s' r clean cut (omega arith) in
    let total : u64 (length p + length avail) ≡ length (p ++ avail) = omega arith in
    elim (Option-cases (position avail)) [
      | inl none_here ↦
          subst₂ (Delivers limit)
            (extend_all-append p avail (lines_of (bytes_of r))
              ∙ ap (extend_all p) (sym (lines_of_no_newline avail (bytes_of r) none_here)))
            (ap (read_loop limit r s') (sym total)
              ∙ sym (read_loop_no_newline limit s b bs r (length p) none_here))
            rest
      | inr (i, here) ↦ Delivers-newline limit p s b bs r i clean c (omega arith) here
    ]

-- Over a reader with no error and fewer than 2^64 bytes, read_line_capped gives the next line's
-- length, its newline counted, whether that is more than the cap, its first cap bytes, and a
-- reader that holds the other lines; at the end it gives none.
pub read_line_capped-Delivers :
    (limit : ℕ) (r : Reader)
    → IsClean r
    → length (bytes_of r) < u64_mod
    → Delivers limit (lines_of (bytes_of r)) (read_line_capped limit r)
unfolding read_line_capped extend_all
read_line_capped-Delivers limit r clean h =
    read_loop-Delivers limit [] ([], false) r clean (IsCut-nil limit) (omega arith)
