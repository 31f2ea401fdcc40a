-- ===== src/Validators/Frame/Rows.antt =====
-- Which rows `failing` lists.
use stat_guardian.Base.{
  ℕ, zero, suc, ◌+◌, ◌≡◌, refl, inl, inr, ◌↔◌, Bool, true, false, Option, none, some, List, [], ◌∷◌,
  Memᴰ, Memᴰ-cons, Memᴰ-nil, arith, Bool-cases,
}
use stat_guardian.Validators.Frame.{failing_from, failing, value_at}

pub nil_of_no_member {ℓ} : {A : Type ℓ} (xs : List A) → ((a : A) → ¬ Memᴰ a xs) → xs ≡ []
nil_of_no_member [] h = refl
nil_of_no_member (x ∷ xs) h = absurd (h x (Memᴰ.head refl))

module _ {A : Type 0} (test : A → Bool) where
  -- The row holds a value that fails the test of a check.
  abbrev pub Fails : List (Option A) → ℕ → Type 0
  Fails vs i = (v : A) × (value_at vs i ≡ some v) × (test v ≡ true)

  -- No row does.
  abbrev pub NoneFails : List (Option A) → Type 0
  NoneFails vs = (i : ℕ) (v : A) → value_at vs i ≡ some v → test v ≡ false

  failing_from_sound :
      (k : ℕ) (vs : List (Option A)) (i : ℕ)
      → Memᴰ i (failing_from test k vs)
      → (j : ℕ) × (i ≡ j + k) × Fails vs j
  unfolding failing_from
  failing_from_sound k [] i m = absurd (Memᴰ-nil i m)
  failing_from_sound k (none ∷ vs) i m =
      let (j, e, at) = failing_from_sound (suc k) vs i m in (suc j, omega arith, at)
  failing_from_sound k (some v ∷ vs) i m = elim (Bool-cases (test v)) [
    | inl fails ↦ elim ((Memᴰ-cons i k (failing_from test (suc k) vs)).0 (rw fails at m)) [
      | inl e ↦ (0, omega arith, (v, refl, fails))
      | inr later ↦
          let (j, e, at) = failing_from_sound (suc k) vs i later in (suc j, omega arith, at)
    ]
    | inr holds ↦
        let (j, e, at) = failing_from_sound (suc k) vs i (rw holds at m) in (suc j, omega arith, at)
  ]

  failing_from_complete :
      (k : ℕ) (vs : List (Option A)) (j : ℕ) (v : A)
      → value_at vs j ≡ some v
      → test v ≡ true
      → Memᴰ (j + k) (failing_from test k vs)
  unfolding failing_from
  failing_from_complete k [] j v at fails = cc at
  failing_from_complete k (none ∷ vs) zero v at fails = cc at
  failing_from_complete k (none ∷ vs) (suc j) v at fails =
      let e : suc j + k ≡ j + suc k = omega arith in
      rw e (failing_from_complete (suc k) vs j v at fails)
  failing_from_complete k (some w ∷ vs) zero v at fails =
      let e : w ≡ v = cc at in rw (e, fails) (Memᴰ.head (omega arith))
  failing_from_complete k (some w ∷ vs) (suc j) v at fails =
      let e : suc j + k ≡ j + suc k = omega arith in
      let later = failing_from_complete (suc k) vs j v at fails in
      rw e (elim (Bool-cases (test w)) [ inl t ↦ rw t (Memᴰ.tail later) | inr t ↦ rw t later ])

  pub failing_iff : (vs : List (Option A)) (i : ℕ) → Memᴰ i (failing test vs) ↔ Fails vs i
  unfolding failing
  failing_iff vs i = (
    λ m.
        let (j, e, at) = failing_from_sound 0 vs i m in
        let same : i ≡ j = omega arith in rw same at,
    λ (v, at, fails).
        let same : i + 0 ≡ i = omega arith in rw same at (failing_from_complete 0 vs i v at fails),
  )

  pub failing-nil : (vs : List (Option A)) → (failing test vs ≡ []) ↔ NoneFails vs
  failing-nil vs = (
    λ e i v at. elim (Bool-cases (test v)) [
      | inl fails ↦ absurd (Memᴰ-nil i (rw e at ((failing_iff vs i).1 (v, at, fails))))
      | inr holds ↦ holds
    ],
    λ h.
        nil_of_no_member (failing test vs)
          (λ i m. let (v, at, fails) = (failing_iff vs i).0 m in cc (fails, h i v at)),
  )
