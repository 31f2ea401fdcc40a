-- ===== src/Stats/Drift/Ends.antt =====
-- When the loop of `DriftEngine::ks_statistic` ends.
use stat_guardian.Base.{
  ℕ, zero, suc, ◌+◌, ◌≤◌, ◌<◌, ◌≡◌, refl, ap, ◌⊎◌, inl, inr, true, false, none, some, List, [], ◌∷◌,
  length, if◌then◌else◌, arith, Bool-cases,
}
use Prim.Native.Nat.{Ordering}
use stat_guardian.Base.Sort.{All, All-mem, All_at, insert_by, sort_by, Memᴰ-sort_by}
use stat_guardian.Base.Panic.{returns, ◌>>=◌}
use stat_guardian.Validators.Frame.{Floats}
use stat_guardian.Stats.Floats.{cmp_or_equal, any_nan, sort_floats}
use stat_guardian.Stats.Drift.{
  advance, next_value, KsState, ks_step, ks_done, ks_loop, ks_sorted, ks_values,
}

module _ {F64 : Type 0} (f : Floats F64) where
  open f use {ops, literal, of_count}
  open ops use {le_f64}

  -- What IEEE 754 says of `<=`: numbers are ordered, and infinity is the last of them.
  pub record IsIeee : Type 0 where
    pub total :
        (a b : F64)
        → le_f64 a a ≡ true
        → le_f64 b b ≡ true
        → (le_f64 a b ≡ true) ⊎ (le_f64 b a ≡ true)
    pub infinite : (a : F64) → le_f64 a a ≡ true → le_f64 a (literal "INFINITY") ≡ true

  -- No value is a NaN.
  abbrev pub AreNumbers : List F64 → Type 0
  AreNumbers = All (λ x. le_f64 x x ≡ true)

  advance-AreNumbers :
      (v : F64) (i : ℕ) (xs : List F64) → AreNumbers xs → AreNumbers (advance f v i xs).1
  unfolding advance
  advance-AreNumbers v i [] all = tt
  advance-AreNumbers v i (x ∷ xs) all = ground (arith, advance-AreNumbers v (i + 1) xs all.1)

  length-advance : (v : F64) (i : ℕ) (xs : List F64) → length (advance f v i xs).1 ≤ length xs
  unfolding advance
  length-advance v i [] = omega arith
  length-advance v i (x ∷ xs) = ground (arith, length-advance v (i + 1) xs)

  length-advance_head :
      (i : ℕ) (x : F64) (xs : List F64)
      → le_f64 x x ≡ true
      → length (advance f x i (x ∷ xs)).1 ≤ length xs
  unfolding advance
  length-advance_head i x xs h = ground (arith, length-advance x (i + 1) xs)

  abbrev rounds : KsState F64 → ℕ
  rounds s = length s.ref_rest + length s.cur_rest

  abbrev HasNumbers : KsState F64 → Type 0
  HasNumbers s = AreNumbers s.ref_rest × AreNumbers s.cur_rest

  module _ (ieee : IsIeee) (n_ref n_cur : F64) where
    ks_step-HasNumbers : (s : KsState F64) → HasNumbers s → HasNumbers (ks_step f n_ref n_cur s)
    unfolding ks_step
    ks_step-HasNumbers s (a, b) = ground (
      arith,
      advance-AreNumbers (next_value f s.ref_rest) s.i s.ref_rest a,
      advance-AreNumbers (next_value f s.cur_rest) s.j s.cur_rest b,
    )

    -- A round takes a value off one of the columns.
    lengths-step :
        (i j : ℕ) (xs ys : List F64)
        → AreNumbers xs
        → AreNumbers ys
        → 0 < length xs + length ys
        → let rv = next_value f xs in
          let cv = next_value f ys in
          length (if le_f64 rv cv then advance f rv i xs else (i, xs)).1
            + length (if le_f64 cv rv then advance f cv j ys else (j, ys)).1
          < length xs + length ys
    unfolding next_value
    lengths-step i j [] [] a b more = absurd (omega arith)
    lengths-step i j [] (y ∷ ys) a b more = ground (
      arith,
      ieee.infinite y b.0,
      length-advance_head j y ys b.0,
      length-advance (literal "INFINITY") i [],
    )
    lengths-step i j (x ∷ xs) [] a b more = ground (
      arith,
      ieee.infinite x a.0,
      length-advance_head i x xs a.0,
      length-advance (literal "INFINITY") j [],
    )
    lengths-step i j (x ∷ xs) (y ∷ ys) a b more = ground (
      arith,
      ieee.total x y a.0 b.0,
      length-advance_head i x xs a.0,
      length-advance_head j y ys b.0,
    )

    ks_done-left :
        (xs ys : List F64)
        → (elim xs [ [] ↦ elim ys [ [] ↦ true | _ ↦ false ] | _ ↦ false ]) ≡ false
        → 0 < length xs + length ys
    ks_done-left [] [] h = cc h
    ks_done-left [] (y ∷ ys) h = omega arith
    ks_done-left (x ∷ xs) ys h = omega arith

    rounds-step :
        (s : KsState F64)
        → HasNumbers s
        → ks_done s ≡ false
        → rounds (ks_step f n_ref n_cur s) < rounds s
    unfolding ks_step
    rounds-step s (a, b) more =
        let left = ks_done-left s.ref_rest s.cur_rest more in
        ground (arith, lengths-step s.i s.j s.ref_rest s.cur_rest a b left)

    ks_loop-ends :
        (fuel : ℕ) (s : KsState F64)
        → HasNumbers s
        → rounds s < fuel
        → (d : F64) × (ks_loop f fuel n_ref n_cur s ≡ some d)
    unfolding ks_loop
    ks_loop-ends zero s h enough = absurd (omega arith)
    ks_loop-ends (suc fuel) s h enough = elim (Bool-cases (ks_done s)) [
      | inl done ↦ (s.max_diff, rw done refl)
      | inr more ↦ rw more (
          ks_loop-ends fuel (ks_step f n_ref n_cur s) (ks_step-HasNumbers s h)
            (omega (arith, rounds-step s h more)))
    ]

  length-insert_by :
      (cmp : F64 → F64 → Ordering) (x : F64) (ys : List F64)
      → length (insert_by cmp x ys) ≡ length ys + 1
  unfolding insert_by
  length-insert_by cmp x [] = refl
  length-insert_by cmp x (y ∷ ys) = ground (arith, length-insert_by cmp x ys)

  length-sort_by :
      (cmp : F64 → F64 → Ordering) (xs : List F64) → length (sort_by cmp xs) ≡ length xs
  unfolding sort_by
  length-sort_by cmp [] = refl
  length-sort_by cmp (x ∷ xs) =
      omega (arith, length-insert_by cmp x (sort_by cmp xs), length-sort_by cmp xs)

  any_nan-false : (xs : List F64) → AreNumbers xs → any_nan f xs ≡ false
  unfolding any_nan
  any_nan-false [] all = refl
  any_nan-false (x ∷ xs) all = ground (arith, any_nan-false xs all.1)

  sort_floats-returns :
      (xs : List F64)
      → AreNumbers xs
      → (ys : List F64) × (sort_floats f xs ≡ returns ys) × AreNumbers ys × (length ys ≡ length xs)
  unfolding sort_floats
  sort_floats-returns xs all = (
    sort_by (cmp_or_equal f) xs,
    ground (arith, any_nan-false xs all),
    All-mem _ _ (λ x m.
        All_at (λ y. le_f64 y y ≡ true) xs all x ((Memᴰ-sort_by (cmp_or_equal f) x xs).0 m)),
    length-sort_by (cmp_or_equal f) xs,
  )

  ks_sorted-ends :
      IsIeee
      → (fuel : ℕ) (xs ys : List F64) → AreNumbers xs
      → AreNumbers ys
      → length xs + length ys < fuel
      → (d : F64) × (ks_sorted f fuel xs ys ≡ some d)
  unfolding ks_sorted
  ks_sorted-ends ieee fuel xs ys a b enough =
      ks_loop-ends ieee (of_count (length xs)) (of_count (length ys)) fuel
        (record { i = 0; ref_rest = xs; j = 0; cur_rest = ys; max_diff = literal "0.0" }) (a, b)
        enough

  -- Over values that are numbers, whose order is that of IEEE 754, the loop of ks_statistic ends
  -- within one round per value and one more, and the sorting does not panic.
  pub ks_values-ends :
      IsIeee
      → (ref_vals cur_vals : List F64) → AreNumbers ref_vals
      → AreNumbers cur_vals
      → (d : F64) × (ks_values f (length ref_vals + length cur_vals + 1) ref_vals cur_vals
          ≡ returns (some d))
  unfolding ks_values
  ks_values-ends ieee [] cur_vals a b = (literal "0.0", refl)
  ks_values-ends ieee (r ∷ rs) [] a b = (literal "0.0", refl)
  ks_values-ends ieee (r ∷ rs) (c ∷ cs) a b =
      let (xs, sorted, all, size) = sort_floats-returns (r ∷ rs) a in
      let (ys, sorted', all', size') = sort_floats-returns (c ∷ cs) b in
      let fuel = length (r ∷ rs) + length (c ∷ cs) + 1 in
      let (d, ends) = ks_sorted-ends ieee fuel xs ys all all' (omega arith) in
      (d, rw (sorted, ◌>>=◌) (rw (sorted', ◌>>=◌) (ap returns ends)))

  -- A NaN compares as false with every value.
  abbrev pub IsNan : F64 → Type 0
  IsNan x = (y : F64) → (le_f64 x y ≡ false) × (le_f64 y x ≡ false)

  ks_loop_stuck :
      (n_ref n_cur x : F64)
      → IsNan x
      → (fuel i j : ℕ) (ys : List F64) (d : F64)
      → ks_loop f fuel n_ref n_cur
          (record { i = i; ref_rest = x ∷ []; j = j; cur_rest = ys; max_diff = d })
        ≡ none
  unfolding ks_loop ks_step next_value
  ks_loop_stuck n_ref n_cur x nan zero i j ys d = refl
  ks_loop_stuck n_ref n_cur x nan (suc fuel) i j ys d =
      let (below, above) = nan (next_value f ys) in
      rw (below, above) (ks_loop_stuck n_ref n_cur x nan fuel i j ys _)

  -- For a reference whose only value is a NaN and a column of numbers, the loop of ks_statistic
  -- does not end, whatever the fuel.
  pub ks_values_hangs :
      (x : F64)
      → IsNan x
      → (c : F64) (cs : List F64) → AreNumbers (c ∷ cs)
      → (fuel : ℕ) → ks_values f fuel (x ∷ []) (c ∷ cs) ≡ returns none
  unfolding ks_values ks_sorted sort_by
  ks_values_hangs x nan c cs numbers fuel =
      let (ys, sorted, _, _) = sort_floats-returns (c ∷ cs) numbers in
      rw (sorted, ◌>>=◌) (ap returns (ks_loop_stuck _ _ x nan fuel 0 0 ys (literal "0.0")))
