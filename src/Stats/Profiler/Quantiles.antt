-- ===== src/Stats/Profiler/Quantiles.antt =====
-- A quantile is the value of its rank.
use stat_guardian.Base.{
  ◌≤◌, ◌-◌, Bool, true, false, not, filter, ap, ◌∙◌, ◌⊎◌, inl, inr, Bool-cases, ⊎_elim, ℕ, zero,
  suc, ◌<◌, ◌≡◌, refl, Option, some, List, [], ◌∷◌, Memᴰ, length, arith,
}
use Prim.Native.Nat.{Ordering, min}
use mathlib.Core.List.Memᴰ
use mathlib.Core.Path.{subst}
use stat_guardian.Base.Order.{is_le}
use stat_guardian.Base.Dedup.{All-imp}
use stat_guardian.Base.Sort.{
  All, All-mem, All_at, AllPairs, sort_by, insert_by, Memᴰ-sort_by, Memᴰ-insert_by,
}
use stat_guardian.Validators.Frame.{Floats, flatten}
use stat_guardian.Stats.Floats.{get_elem?, partial_cmp, cmp_or_equal}
use stat_guardian.Stats.Drift.Ends.{AreNumbers}
use stat_guardian.Stats.Profiler.{rank, ranked, quantile_manual}

get_elem?-within :
    {A : Type 0} (xs : List A) (i : ℕ)
    → i < length xs
    → (x : A) × (get_elem? xs i ≡ some x) × Memᴰ x xs
unfolding get_elem?
get_elem?-within [] i h = absurd (omega arith)
get_elem?-within (x ∷ xs) zero h = (x, refl, Memᴰ.head refl)
get_elem?-within (x ∷ xs) (suc i) h =
    let (y, found, m) = get_elem?-within xs i (omega arith) in (y, found, Memᴰ.tail m)

length-insert_by :
    {A : Type 0} (cmp : A → A → Ordering) (x : A) (ys : List A)
    → length (insert_by cmp x ys) ≡ suc (length ys)
unfolding insert_by
length-insert_by cmp x [] = refl
length-insert_by cmp x (y ∷ ys) = ground (arith, length-insert_by cmp x ys)

length-sort_by :
    {A : Type 0} (cmp : A → A → Ordering) (xs : List A) → length (sort_by cmp xs) ≡ length xs
unfolding sort_by
length-sort_by cmp [] = refl
length-sort_by cmp (x ∷ xs) =
    omega (arith, length-insert_by cmp x (sort_by cmp xs), length-sort_by cmp xs)

mem-get_elem? : {A : Type 0} (xs : List A) (i : ℕ) (x : A) → get_elem? xs i ≡ some x → Memᴰ x xs
unfolding get_elem?
mem-get_elem? [] i x h = cc h
mem-get_elem? (y ∷ ys) zero x h = Memᴰ.head (cc h)
mem-get_elem? (y ∷ ys) (suc i) x h = Memᴰ.tail (mem-get_elem? ys i x h)

filter-insert_by-length :
    {A : Type 0} (cmp : A → A → Ordering) (p : A → Bool) (x : A) (ys : List A)
    → length (filter p (insert_by cmp x ys)) ≡ length (filter p (x ∷ ys))
unfolding insert_by
filter-insert_by-length cmp p x [] = refl
filter-insert_by-length cmp p x (y ∷ ys) = ground (arith, filter-insert_by-length cmp p x ys)

filter-sort_by-length :
    {A : Type 0} (cmp : A → A → Ordering) (p : A → Bool) (xs : List A)
    → length (filter p (sort_by cmp xs)) ≡ length (filter p xs)
unfolding sort_by
filter-sort_by-length cmp p [] = refl
filter-sort_by-length cmp p (x ∷ xs) =
    ground (arith, filter-insert_by-length cmp p x (sort_by cmp xs), filter-sort_by-length cmp p xs)

filter-none_length :
    {A : Type 0} (p : A → Bool) (xs : List A) → All (λ x. p x ≡ false) xs → length (filter p xs) ≡ 0
filter-none_length p [] all = refl
filter-none_length p (x ∷ xs) all = rw (all.0) (filter-none_length p xs all.1)

module _ {F64 : Type 0} (f : Floats F64) where
  open f use {ops, literal, of_count, mul_f64, round_count}
  open ops use {lt_f64, le_f64, sub_f64}

  -- What IEEE 754 says of numbers: their order is linear, and `<` is the opposite of `>=`.
  pub record IsLinear : Type 0 where
    pub total :
        (a b : F64)
        → le_f64 a a ≡ true
        → le_f64 b b ≡ true
        → (le_f64 a b ≡ true) ⊎ (le_f64 b a ≡ true)
    pub trans : (a b c : F64) → le_f64 a b ≡ true → le_f64 b c ≡ true → le_f64 a c ≡ true
    pub strict : (a b : F64) → le_f64 a a ≡ true → le_f64 b b ≡ true → lt_f64 a b ≡ not (le_f64 b a)

  -- At most `k` values are less than `x`, and more than `k` are not greater.
  abbrev pub HasRank : ℕ → F64 → List F64 → Type 0
  HasRank k x vals =
      (length (filter (λ v. lt_f64 v x) vals) ≤ k) × (k < length (filter (λ v. le_f64 v x) vals))

  abbrev Ascends : List F64 → Type 0
  Ascends = AllPairs (λ a b. le_f64 a b ≡ true)

  module _ (linear : IsLinear) where
    cmp_or_equal-le :
        (a b : F64)
        → le_f64 a a ≡ true
        → le_f64 b b ≡ true
        → is_le (cmp_or_equal f a b) ≡ le_f64 a b
    unfolding cmp_or_equal partial_cmp
    cmp_or_equal-le a b h k =
        ground (arith, linear.strict a b h k, linear.strict b a k h, linear.total a b h k)

    insert_by-Ascends :
        (x : F64) (ys : List F64)
        → le_f64 x x ≡ true
        → AreNumbers f ys
        → Ascends ys
        → Ascends (insert_by (cmp_or_equal f) x ys)
    unfolding insert_by
    insert_by-Ascends x [] h all s = (tt, tt)
    insert_by-Ascends x (y ∷ ys) h all s =
        let same = cmp_or_equal-le x y h all.0 in
        elim (Bool-cases (le_f64 x y)) [
          | inl first ↦
              rw (same, first) ((first, All-imp ys (λ z le. linear.trans x y z first le) s.0), s)
          | inr later ↦
              let back : le_f64 y x ≡ true = ground (arith, linear.total x y h all.0) in
              let inserted = insert_by (cmp_or_equal f) x ys in
              rw (same, later)
                (
                  All-mem (λ z. le_f64 y z ≡ true) inserted
                      (λ z m.
                        ⊎_elim (λ e. rw e back)
                          (λ old. All_at (λ z. le_f64 y z ≡ true) ys s.0 z old)
                          ((Memᴰ-insert_by (cmp_or_equal f) z x ys).0 m)),
                  insert_by-Ascends x ys h all.1 s.1,
                )
        ]

    sort_by-AreNumbers :
        (xs : List F64) → AreNumbers f xs → AreNumbers f (sort_by (cmp_or_equal f) xs)
    sort_by-AreNumbers xs all =
        All-mem (λ z. le_f64 z z ≡ true) (sort_by (cmp_or_equal f) xs)
          (λ z m.
            All_at (λ z. le_f64 z z ≡ true) xs all z ((Memᴰ-sort_by (cmp_or_equal f) z xs).0 m))

    sort_by-Ascends : (xs : List F64) → AreNumbers f xs → Ascends (sort_by (cmp_or_equal f) xs)
    unfolding sort_by
    sort_by-Ascends [] all = tt
    sort_by-Ascends (x ∷ xs) all =
        insert_by-Ascends x (sort_by (cmp_or_equal f) xs) all.0 (sort_by-AreNumbers xs all.1)
          (sort_by-Ascends xs all.1)

    get_elem?-HasRank :
        (s : List F64) (k : ℕ) (x : F64)
        → AreNumbers f s
        → Ascends s
        → get_elem? s k ≡ some x
        → HasRank k x s
    unfolding get_elem?
    get_elem?-HasRank [] k x all s h = cc h
    get_elem?-HasRank (y ∷ ys) zero x all s h =
        let e : y ≡ x = cc h in
        let less = λ (v : F64). lt_f64 v y in
        let none_less = filter-none_length less (y ∷ ys) (
          linear.strict y y all.0 all.0 ∙ ap not all.0,
          All-mem (λ v. less v ≡ false) ys
              (λ v m.
                linear.strict v y (All_at (λ z. le_f64 z z ≡ true) ys all.1 v m) all.0
                ∙ ap not (All_at (λ z. le_f64 y z ≡ true) ys s.0 v m)),
        ) in
        subst (λ z. HasRank zero z (y ∷ ys)) e (omega (arith, none_less), rw (all.0) (omega arith))
    get_elem?-HasRank (y ∷ ys) (suc k) x all s h =
        let (few, many) = get_elem?-HasRank ys k x all.1 s.1 h in
        let below = All_at (λ z. le_f64 y z ≡ true) ys s.0 x (mem-get_elem? ys k x h) in
        (ground (arith, few), rw below (omega (arith, many)))

    ranked-HasRank :
        (q : F64) (vals : List F64) (v : F64) (k : ℕ)
        → Memᴰ v vals
        → AreNumbers f vals
        → min
            (round_count (mul_f64 q (sub_f64 (of_count (length vals)) (literal "1.0"))))
            (length vals - 1)
          ≡ k
        → (x : F64) × (ranked f q vals ≡ some x) × Memᴰ x vals × HasRank k x vals
    ranked-HasRank q [] v k m all e = absurd (Memᴰ.not-nil m)
    ranked-HasRank q (w ∷ ws) v k m all e =
        let vals = w ∷ ws in
        let cmp = cmp_or_equal f in
        let sorted = sort_by cmp vals in
        let size : length sorted ≡ suc (length ws) = length-sort_by cmp vals in
        let (x, found, inside) =
          get_elem?-within sorted (rank f q (length ws)) (omega (arith, size)) in
        let at : rank f q (length ws) ≡ k = omega (arith, e) in
        let (few, many) =
          get_elem?-HasRank sorted (rank f q (length ws)) x (sort_by-AreNumbers vals all)
            (sort_by-Ascends vals all) found in
        let less = filter-sort_by-length cmp (λ v. lt_f64 v x) vals in
        let upto = filter-sort_by-length cmp (λ v. le_f64 v x) vals in
        (
          x,
          found,
          (Memᴰ-sort_by cmp x vals).0 inside,
          (omega (arith, few, less, at), omega (arith, many, upto, at)),
        )

  -- Where the order of numbers is linear, as IEEE 754 has it, and a column has a value and no NaN,
  -- each quantile of it is one of its values, the one of the rank k nearest to q times one less
  -- than their count, within the list: at most k values are less, and more than k are not greater.
  pub quantile_manual-HasRank :
      (linear : IsLinear) (ca : List (Option F64)) (q v : F64) (k : ℕ)
      → Memᴰ v (flatten ca)
      → AreNumbers f (flatten ca)
      → min
          (round_count (mul_f64 q (sub_f64 (of_count (length (flatten ca))) (literal "1.0"))))
          (length (flatten ca) - 1)
        ≡ k
      → (x : F64) × (quantile_manual f ca q ≡ some x)
        × Memᴰ x (flatten ca)
        × HasRank k x (flatten ca)
  unfolding quantile_manual
  quantile_manual-HasRank linear ca q v k m all e = ranked-HasRank linear q (flatten ca) v k m all e
