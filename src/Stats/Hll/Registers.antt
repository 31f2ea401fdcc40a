-- ===== src/Stats/Hll/Registers.antt =====
-- How the registers of crates/statguardian-stats/src/hll.rs depend on the hashes added.
use mathlib.Core.List.Memᴰ
use stat_guardian.Base.{
  ℕ, zero, suc, ◌≡◌, refl, sym, ap, ◌∙◌, List, [], ◌∷◌, Memᴰ, Memᴰ-cons, arith, inl, inr,
}
use stat_guardian.Stats.Hll.{index_of, rank_of, raise, add, add_all}

raise_comm : (i j n m : ℕ) (rs : List ℕ) → raise i n (raise j m rs) ≡ raise j m (raise i n rs)
unfolding raise
raise_comm i j n m [] = refl
raise_comm zero zero n m (r ∷ rs) = ap (λ (k : ℕ). k ∷ rs) (omega arith)
raise_comm zero (suc j) n m (r ∷ rs) = refl
raise_comm (suc i) zero n m (r ∷ rs) = refl
raise_comm (suc i) (suc j) n m (r ∷ rs) = ap (◌∷◌ r) (raise_comm i j n m rs)

raise_idem : (i n : ℕ) (rs : List ℕ) → raise i n (raise i n rs) ≡ raise i n rs
unfolding raise
raise_idem i n [] = refl
raise_idem zero n (r ∷ rs) = ap (λ (k : ℕ). k ∷ rs) (omega arith)
raise_idem (suc i) n (r ∷ rs) = ap (◌∷◌ r) (raise_idem i n rs)

add_comm : (h k : ℕ) (rs : List ℕ) → add h (add k rs) ≡ add k (add h rs)
unfolding add
add_comm h k rs = raise_comm (index_of h) (index_of k) (rank_of h) (rank_of k) rs

add_all-add : (hs : List ℕ) (h : ℕ) (rs : List ℕ) → add_all hs (add h rs) ≡ add h (add_all hs rs)
unfolding add_all
add_all-add [] h rs = refl
add_all-add (k ∷ hs) h rs = ap (add_all hs) (add_comm k h rs) ∙ add_all-add hs h (add k rs)

add_idem : (h : ℕ) (rs : List ℕ) → add h (add h rs) ≡ add h rs
unfolding add
add_idem h rs = raise_idem (index_of h) (rank_of h) rs

-- A hash that was added changes nothing.
add-old : (hs : List ℕ) (h : ℕ) (rs : List ℕ) → Memᴰ h hs → add h (add_all hs rs) ≡ add_all hs rs
unfolding add_all
add-old [] h rs m = absurd (Memᴰ.not-nil m)
add-old (k ∷ hs) h rs m = elim ((Memᴰ-cons h k hs).0 m) [
  | inl e ↦
      ap (λ (j : ℕ). add j (add_all hs (add k rs))) e
      ∙ sym (add_all-add hs k (add k rs))
      ∙ ap (add_all hs) (add_idem k rs)
  | inr later ↦ add-old hs h (add k rs) later
]

add_all-old :
    (hs ks rs : List ℕ)
    → ((h : ℕ) → Memᴰ h hs → Memᴰ h ks)
    → add_all hs (add_all ks rs) ≡ add_all ks rs
unfolding add_all
add_all-old [] ks rs inside = refl
add_all-old (h ∷ hs) ks rs inside =
    ap (add_all hs) (add-old ks h rs (inside h ((Memᴰ-cons h h hs).1 (inl refl))))
    ∙ add_all-old hs ks rs (λ (k : ℕ) (m : Memᴰ k hs). inside k ((Memᴰ-cons k h hs).1 (inr m)))

add_all_comm : (hs ks rs : List ℕ) → add_all hs (add_all ks rs) ≡ add_all ks (add_all hs rs)
unfolding add_all
add_all_comm [] ks rs = refl
add_all_comm (h ∷ hs) ks rs =
    ap (add_all hs) (sym (add_all-add ks h rs)) ∙ add_all_comm hs ks (add h rs)

-- Two lists of hashes with the same members leave the same registers: neither order nor repetition
-- matters to the estimate.
pub add_all-same :
    (hs ks rs : List ℕ)
    → ((h : ℕ) → Memᴰ h hs → Memᴰ h ks)
    → ((h : ℕ) → Memᴰ h ks → Memᴰ h hs)
    → add_all hs rs ≡ add_all ks rs
add_all-same hs ks rs left right =
    sym (add_all-old ks hs rs right) ∙ add_all_comm ks hs rs ∙ add_all-old hs ks rs left
