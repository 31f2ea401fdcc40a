-- ===== src/Stream/Reader/Bounds.antt =====
-- What is held of a line, over every reader, also one that fails or never ends a line.
use Prim.Native.Nat.{min}
use stat_guardian.Base.{
  ℕ, ◌+◌, ◌-◌, ◌≤◌, ◌≡◌, Bool, true, false, List, [], ◌∷◌, length, length-append, length-take, take,
  arith,
}
use stat_guardian.Stream.Reader.{
  Reader, chunk, interrupted, io_error, u64, ok, used_of, copy_capped, LineRead, read_loop,
  read_line_capped,
}

copy_capped-le :
    (limit : ℕ) (avail : List ℕ) (used : ℕ) (s : List ℕ × Bool)
    → length s.0 ≤ limit
    → length (copy_capped limit avail used s).0 ≤ limit
unfolding copy_capped
copy_capped-le limit avail used (out, true) h = h
copy_capped-le limit avail used (out, false) h =
    let copy = min used (limit - length out) in
    omega (arith, length-append out (take copy avail), length-take copy avail)

read_loop-le :
    (limit : ℕ) (r : Reader) (s : List ℕ × Bool) (total : ℕ) (read : LineRead)
    → length s.0 ≤ limit
    → read_loop limit r s total ≡ ok read
    → length read.1 ≤ limit
unfolding read_loop
read_loop-le limit [] (out, exceeded) total read h e = ground arith
read_loop-le limit (interrupted ∷ r) s total read h e = read_loop-le limit r s total read h e
read_loop-le limit (io_error ∷ r) s total read h e = cc
read_loop-le limit (chunk b bs ∷ r) s total read h e =
    let used = used_of (b ∷ bs) in
    let s' = copy_capped limit (b ∷ bs) used s in
    let fits = copy_capped-le limit (b ∷ bs) used s h in
    ground (arith, read_loop-le limit r s' (u64 (total + used)) read fits)

-- On every reader on which it returns, read_line_capped leaves at most cap bytes in its buffer.
pub read_line_capped-le :
    (limit : ℕ) (r : Reader) (read : LineRead)
    → read_line_capped limit r ≡ ok read
    → length read.1 ≤ limit
unfolding read_line_capped
read_line_capped-le limit r read e = read_loop-le limit r ([], false) 0 read (omega arith) e
