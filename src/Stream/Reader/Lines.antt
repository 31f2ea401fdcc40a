-- ===== src/Stream/Reader/Lines.antt =====
-- What a reader holds, whatever its buffers: its bytes, and the lines that they form.
use stat_guardian.Base.{
  ℕ, zero, suc, ◌+◌, ◌<◌, ◌≤◌, ◌==◌, nat_eq, ◌≡◌, refl, ap, none, some, List, [], ◌∷◌, ◌++◌, length,
  take, drop, if◌then◌else◌, arith,
}
use stat_guardian.Stream.Reader.{chunk, interrupted, io_error, Reader, bytes_of, unread, position}

-- No answer is an error other than `Interrupted`.
abbrev pub IsClean : Reader → Type 0
IsClean [] = Unit
IsClean (chunk b bs ∷ rest) = IsClean rest
IsClean (interrupted ∷ rest) = IsClean rest
IsClean (io_error ∷ rest) = ⊥

-- Put a byte, or bytes, before the first line.
pub extend : ℕ → List (List ℕ) → List (List ℕ)
extend b [] = (b ∷ []) ∷ []
extend b (l ∷ ls) = (b ∷ l) ∷ ls

-- Each line with its newline; the last may have none.
unfoldable pub lines_of : List ℕ → List (List ℕ)
unfolding extend
lines_of [] = []
lines_of (b ∷ bs) = let rest = lines_of bs in if b == b'\n' then (b ∷ []) ∷ rest else extend b rest

unfoldable pub extend_all : List ℕ → List (List ℕ) → List (List ℕ)
extend_all [] ls = ls
extend_all (b ∷ bs) ls = extend b (extend_all bs ls)

pub extend_all-cons : (p u : List ℕ) (ls : List (List ℕ)) → extend_all p (u ∷ ls) ≡ (p ++ u) ∷ ls
unfolding extend_all extend
extend_all-cons [] u ls = refl
extend_all-cons (b ∷ p) u ls = ap (extend b) (extend_all-cons p u ls)

pub extend_all-nil : (b : ℕ) (p : List ℕ) → extend_all (b ∷ p) [] ≡ (b ∷ p) ∷ []
unfolding extend_all extend
extend_all-nil b [] = refl
extend_all-nil b (c ∷ p) = ap (extend b) (extend_all-nil c p)

pub extend_all-append :
    (p q : List ℕ) (ls : List (List ℕ)) → extend_all (p ++ q) ls ≡ extend_all p (extend_all q ls)
unfolding extend_all
extend_all-append [] q ls = refl
extend_all-append (b ∷ p) q ls = ap (extend b) (extend_all-append p q ls)

-- A buffer without a newline only lengthens the line at hand.
pub lines_of_no_newline :
    (bs rest : List ℕ) → position bs ≡ none → lines_of (bs ++ rest) ≡ extend_all bs (lines_of rest)
unfolding lines_of extend_all position
lines_of_no_newline [] rest h = refl
lines_of_no_newline (b ∷ bs) rest h = ground (arith, lines_of_no_newline bs rest)

-- A buffer with a newline ends the line at hand there.
pub lines_of_newline :
    (bs rest : List ℕ) (i : ℕ)
    → position bs ≡ some i
    → lines_of (bs ++ rest) ≡ take (suc i) bs ∷ lines_of (drop (suc i) bs ++ rest)
unfolding lines_of position extend
lines_of_newline [] rest i h = cc
lines_of_newline (b ∷ bs) rest zero h = ground arith
lines_of_newline (b ∷ bs) rest (suc i) h = ground (arith, lines_of_newline bs rest i)

pub position-lt : (bs : List ℕ) (i : ℕ) → position bs ≡ some i → i < length bs
unfolding position
position-lt [] i h = cc
position-lt (b ∷ bs) zero h = omega arith
position-lt (b ∷ bs) (suc i) h = ground (arith, position-lt bs i)

pub bytes_of-unread : (bs : List ℕ) (r : Reader) → bytes_of (unread bs r) ≡ bs ++ bytes_of r
unfolding bytes_of unread
bytes_of-unread [] r = refl
bytes_of-unread (b ∷ bs) r = refl

pub unread-IsClean : (bs : List ℕ) (r : Reader) → IsClean r → IsClean (unread bs r)
unfolding unread
unread-IsClean [] r c = c
unread-IsClean (b ∷ bs) r c = c

-- The bytes of some lines together.
unfoldable pub total : List (List ℕ) → ℕ
total [] = 0
total (l ∷ ls) = length l + total ls

total-extend : (b : ℕ) (ls : List (List ℕ)) → total (extend b ls) ≡ suc (total ls)
unfolding total extend
total-extend b [] = omega arith
total-extend b (l ∷ ls) = omega arith

-- The lines have all the bytes, and none is empty.
pub total-lines_of : (bs : List ℕ) → total (lines_of bs) ≡ length bs
unfolding total lines_of
total-lines_of [] = refl
total-lines_of (b ∷ bs) = ground (arith, total-lines_of bs, total-extend b (lines_of bs))

length-extend : (b : ℕ) (ls : List (List ℕ)) → length (extend b ls) ≤ suc (length ls)
unfolding extend
length-extend b [] = omega arith
length-extend b (l ∷ ls) = omega arith

pub length-lines_of : (bs : List ℕ) → length (lines_of bs) ≤ length bs
unfolding lines_of
length-lines_of [] = omega arith
length-lines_of (b ∷ bs) = ground (arith, length-lines_of bs, length-extend b (lines_of bs))
