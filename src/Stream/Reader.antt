-- ===== src/Stream/Reader.antt =====
-- `read_line_capped` of crates/statguardian-stream/src/ndjson.rs over any `BufRead`.
-- A reader is the list of answers that its `fill_buf` has left to give.
pub mod Lines
pub mod Line
pub mod Bounds
use stat_guardian.Base.{
  ℕ, suc, ◌+◌, ◌-◌, ◌%◌, ◌^◌, ◌==◌, nat_eq, Bool, true, false, Option, none, some, List, [], ◌∷◌,
  ◌++◌, length, take, drop, ◌≡◌, refl, ◌⊎◌, inl, inr, if◌then◌else◌, ltb,
}
use Prim.Native.Nat.{zero, min}
use mathlib.Core.Option

-- `usize` and `u64` arithmetic wraps at 2 ^ 64 in a release build.
abbrev pub u64_mod : ℕ
u64_mod = 2 ^ 64

abbrev pub u64 : ℕ → ℕ
u64 n = n % 2 ^ 64

-- One answer of `fill_buf`: buffered bytes (never none: an empty buffer means the end of input),
-- an `Interrupted` error, or any other error.
pub data Fill : Type 0 where
  chunk : ℕ → List ℕ → Fill
  interrupted io_error : Fill

-- After the last answer comes the end of input.
abbrev pub Reader : Type 0
Reader = List Fill

pub data IoResult {ℓ} (A : Type ℓ) : Type ℓ where
  ok : A → IoResult A
  err : IoResult A

pub IoResult-cases {ℓ} : {A : Type ℓ} (o : IoResult A) → (o ≡ err) ⊎ ((a : A) × (o ≡ ok a))
IoResult-cases (ok a) = inr (a, refl)
IoResult-cases err = inl refl

-- The bytes that are left to read.
unfoldable pub bytes_of : Reader → List ℕ
bytes_of [] = []
bytes_of (chunk b bs ∷ rest) = b ∷ (bs ++ bytes_of rest)
bytes_of (interrupted ∷ rest) = bytes_of rest
bytes_of (io_error ∷ rest) = bytes_of rest

-- `consume(used)` on a buffer: what is left of it is offered again.
pub unread : List ℕ → Reader → Reader
unread [] rest = rest
unread (b ∷ bs) rest = chunk b bs ∷ rest

-- `iter().position(|&b| b == b'\n')`
pub position : List ℕ → Option ℕ
position [] = none
position (b ∷ bs) = let rest = position bs in if b == b'\n' then some 0 else Option.map suc rest

pub used_of : List ℕ → ℕ
used_of available = elim (position available) [ some i ↦ i + 1 | none ↦ length available ]

-- The buffer and the flag after `used` bytes of `available`.
pub copy_capped : ℕ → List ℕ → ℕ → List ℕ × Bool → List ℕ × Bool
copy_capped limit available used (out, true) = (out, true)
copy_capped limit available used (out, false) =
    let copy = min used (limit - length out) in (out ++ take copy available, ltb copy used)

abbrev pub LineRead : Type 0
LineRead = Option (ℕ × Bool) × List ℕ × Reader

-- The `loop`: `out`, `total` and `exceeded` are its variables.
pub read_loop : ℕ → Reader → List ℕ × Bool → ℕ → IoResult LineRead
read_loop limit [] (out, exceeded) total =
    ok (if total == 0 then none else some (total, exceeded), out, [])
read_loop limit (interrupted ∷ rest) state total = read_loop limit rest state total
read_loop limit (io_error ∷ rest) state total = err
read_loop limit (chunk b bs ∷ rest) state total =
    let available = b ∷ bs in
    let used = used_of available in
    let state' = copy_capped limit available used state in
    let total' = u64 (total + used) in
    elim (position available) [
      | some _ ↦ ok (some (total', state'.1), state'.0, unread (drop used available) rest)
      | none ↦ read_loop limit rest state' total'
    ]

unfoldable pub read_line_capped : ℕ → Reader → IoResult LineRead
unfolding read_loop position used_of copy_capped unread
read_line_capped limit reader = read_loop limit reader ([], false) 0
