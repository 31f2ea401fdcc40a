-- ===== src/Stats/Hll.antt =====
-- The registers of crates/statguardian-stats/src/hll.rs. A value is given by its hash: the
-- algorithm of `DefaultHasher` is not specified. The estimate from the registers is in the child
-- Estimate.
pub mod Registers
pub mod Estimate
use Prim.Native.Nat.{max}
use stat_guardian.Base.{ℕ, zero, suc, ◌+◌, ◌*◌, ◌/◌, ◌^◌, List, [], ◌∷◌, ltb, if◌then◌else◌}
use stat_guardian.Stream.Reader.{u64}

-- `u64::leading_zeros` from the bit below `width` on.
unfoldable pub leading_zeros : (width n : ℕ) → ℕ
leading_zeros zero n = 0
leading_zeros (suc width) n =
    let rest = leading_zeros width n in if ltb n (2 ^ width) then rest + 1 else 0

unfoldable pub zeros : ℕ → List ℕ
zeros zero = []
zeros (suc n) = 0 ∷ zeros n

abbrev pub num_registers : ℕ
num_registers = 16384

unfoldable pub new_sketch : List ℕ
unfolding zeros
new_sketch = zeros num_registers

-- The first 14 bits of a hash, and the place of the first bit that is set behind them.
abbrev pub index_of : ℕ → ℕ
index_of hash = hash / 2 ^ 50

unfoldable pub rank_of : ℕ → ℕ
unfolding leading_zeros
rank_of hash = leading_zeros 64 (u64 (hash * 2 ^ 14)) + 1

-- `registers[index] = registers[index].max(rank)`
unfoldable pub raise : ℕ → ℕ → List ℕ → List ℕ
raise index rank [] = []
raise zero rank (r ∷ rs) = max r rank ∷ rs
raise (suc index) rank (r ∷ rs) = r ∷ raise index rank rs

unfoldable pub add : ℕ → List ℕ → List ℕ
unfolding raise
add hash registers = raise (index_of hash) (rank_of hash) registers

unfoldable pub add_all : List ℕ → List ℕ → List ℕ
add_all [] registers = registers
add_all (hash ∷ hashes) registers = add_all hashes (add hash registers)
