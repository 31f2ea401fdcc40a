-- ===== src/Io/Delta/Active.antt =====
-- Which files of a Delta table are read.
use mathlib.Core.List.Memᴰ
use stat_guardian.Base.{
  String, Bool, true, false, not, ◌⊎◌, inl, inr, ◌↔◌, Option, none, some, List, [], ◌∷◌, ◌≡◌, refl,
  map, ◌==◌, string_eq, Memᴰ, Memᴰ-filter, Memᴰ-append, Memᴰ-cons, arith,
}
use stat_guardian.Base.{Bool-cases, ⊎_elim, sym, ap, ◌∙◌}
use mathlib.Core.Path.{subst}
use stat_guardian.Base.Sort.{All}
use stat_guardian.Io.Delta.{
  DeltaAdd, DeltaRemove, DeltaAction, without, apply_add, apply_remove, apply_action, full_path,
  replay,
}

abbrev pub adds : String → DeltaAction → Bool
adds path a = elim a.add [ none ↦ false | some d ↦ d.path == path ]

abbrev pub removes : String → DeltaAction → Bool
removes path a = elim a.remove [ none ↦ false | some d ↦ d.path == path ]

-- Some action adds the path, and neither it nor an action behind it removes the path.
abbrev pub IsActive : String → List DeltaAction → Type 0
IsActive path [] = ⊥
IsActive path (a ∷ actions) =
    IsActive path actions ⊎ ((adds path a ≡ true) × All (λ b. removes path b ≡ false) (a ∷ actions))

mem_of-map {ℓ κ} :
    {A : Type ℓ} {B : Type κ} (g : A → B) (xs : List A) (b : B)
    → Memᴰ b (map g xs)
    → (a : A) × Memᴰ a xs × (b ≡ g a)
mem_of-map g [] b m = absurd (Memᴰ.not-nil m)
mem_of-map g (x ∷ xs) b m =
    ⊎_elim (λ e. (x, Memᴰ.head refl, e))
      (λ rest. let (a, there, e) = mem_of-map g xs b rest in (a, Memᴰ.tail there, e))
      ((Memᴰ-cons b (g x) (map g xs)).0 m)

module _ (table_root : String) where
  abbrev entry : String → String × String
  entry path = (path, full_path table_root path)

  Memᴰ-without :
      (path other : String) (m : List (String × String))
      → Memᴰ (entry path) (without other m) ↔ (Memᴰ (entry path) m × ((path == other) ≡ false))
  Memᴰ-without path other m =
      ground (arith, Memᴰ-filter (λ (p, f). not (p == other)) (entry path) m)

  Memᴰ-apply_add :
      (path : String) (a : Option DeltaAdd) (m : List (String × String))
      → Memᴰ (entry path) (apply_add table_root a m)
        ↔ (((elim a [ none ↦ false | some d ↦ d.path == path ]) ≡ true) ⊎ Memᴰ (entry path) m)
  Memᴰ-apply_add path none m = ground arith
  Memᴰ-apply_add path (some d) m = elim (Bool-cases (d.path == path)) [
    | inl same ↦
        let i : path ≡ d.path = sym ((string_eq.is_same_iff d.path path).0 same) in
        (
          λ _. inl same,
          λ _.
              (Memᴰ-append (entry path) (without d.path m) (entry d.path ∷ [])).1
                (inr (Memᴰ.head (ap entry i))),
        )
    | inr other ↦
        let differs : (path == d.path) ≡ false =
          ground (arith, string_eq.is_same_iff d.path path, string_eq.is_same_iff path d.path) in
        let rest = Memᴰ-without path d.path m in
        (
          λ h.
              ⊎_elim (λ old. inr (rest.0 old).0)
                (λ new.
                  ⊎_elim
                    (λ e. absurd (
                      let i : path ≡ d.path = ap (λ (p, f). p) e in
                      ground (arith, string_eq.is_same_iff path d.path)))
                    (λ none_left. absurd (Memᴰ.not-nil none_left))
                    ((Memᴰ-cons (entry path) (entry d.path) []).0 new))
                ((Memᴰ-append (entry path) (without d.path m) (entry d.path ∷ [])).0 h),
          λ h.
              (Memᴰ-append (entry path) (without d.path m) (entry d.path ∷ [])).1
                (inl (rest.1 (⊎_elim (λ same. absurd (ground arith)) (λ old. old) h, differs))),
        )
  ]

  Memᴰ-apply_remove :
      (path : String) (r : Option DeltaRemove) (m : List (String × String))
      → Memᴰ (entry path) (apply_remove r m)
        ↔ (((elim r [ none ↦ false | some d ↦ d.path == path ]) ≡ false) × Memᴰ (entry path) m)
  Memᴰ-apply_remove path none m = (λ h. (refl, h), λ h. h.1)
  Memᴰ-apply_remove path (some d) m = ground (
    arith,
    Memᴰ-without path d.path m,
    string_eq.is_same_iff path d.path,
    string_eq.is_same_iff d.path path,
  )

  Memᴰ-replay :
      (path : String) (actions : List DeltaAction) (m : List (String × String))
      → Memᴰ (entry path) (replay table_root actions m) ↔ (
          IsActive path actions ⊎ (Memᴰ (entry path) m × All (λ b. removes path b ≡ false) actions))
  unfolding replay
  Memᴰ-replay path [] m = (λ h. inr (h, tt), ⊎_elim (λ never. absurd never) (λ h. h.0))
  Memᴰ-replay path (a ∷ actions) m =
      let m' = apply_add table_root a.add m in
      let later = Memᴰ-replay path actions (apply_remove a.remove m') in
      let kept = Memᴰ-apply_remove path a.remove m' in
      let added = Memᴰ-apply_add path a.add m in
      (
        λ h.
            ⊎_elim (λ active. inl (inl active))
              (λ (held, free).
                let (stays, there) = kept.0 held in
                ⊎_elim (λ adds_it. inl (inr (adds_it, (stays, free))))
                  (λ old. inr (old, (stays, free))) (added.0 there))
              (later.0 h),
        λ h. later.1 (
            ⊎_elim
              (⊎_elim inl
                (λ (adds_it, (stays, free)). inr (kept.1 (stays, added.1 (inl adds_it)), free)))
              (λ (old, (stays, free)). inr (kept.1 (stays, added.1 (inr old)), free)) h),
      )

  IsFull : List (String × String) → Type 0
  IsFull m = (path file : String) → Memᴰ (path, file) m → file ≡ full_path table_root path

  without-IsFull :
      (other : String) (m : List (String × String)) → IsFull m → IsFull (without other m)
  unfolding IsFull
  without-IsFull other m h path file there =
      h path file ((Memᴰ-filter (λ (p, f). not (p == other)) (path, file) m).0 there).0

  apply_remove-IsFull :
      (r : Option DeltaRemove) (m : List (String × String)) → IsFull m → IsFull (apply_remove r m)
  apply_remove-IsFull none m h = h
  apply_remove-IsFull (some r) m h = without-IsFull r.path m h

  apply_add-IsFull :
      (a : Option DeltaAdd) (m : List (String × String))
      → IsFull m
      → IsFull (apply_add table_root a m)
  unfolding IsFull
  apply_add-IsFull none m h path file there = h path file there
  apply_add-IsFull (some d) m h path file there =
      ⊎_elim (λ old. without-IsFull d.path m h path file old)
        (λ new.
          ⊎_elim (λ e. ap (λ (p, f). f) e ∙ ap (λ (p, f). full_path table_root p) (sym e))
            (λ none_left. absurd (Memᴰ.not-nil none_left))
            ((Memᴰ-cons (path, file) (entry d.path) []).0 new))
        ((Memᴰ-append (path, file) (without d.path m) (entry d.path ∷ [])).0 there)

  replay-IsFull :
      (actions : List DeltaAction) (m : List (String × String))
      → IsFull m
      → IsFull (replay table_root actions m)
  unfolding replay IsFull
  replay-IsFull [] m h = h
  replay-IsFull (a ∷ actions) m h =
      replay-IsFull actions (apply_action table_root a m)
        (apply_remove-IsFull a.remove (apply_add table_root a.add m) (apply_add-IsFull a.add m h))

  -- The files of a log are those of its active paths.
  pub files-exact :
      (actions : List DeltaAction) (file : String)
      → Memᴰ file (map (λ (p, f). f) (replay table_root actions []))
        ↔ ((path : String) × IsActive path actions × (file ≡ full_path table_root path))
  unfolding IsFull
  files-exact actions file =
      let m = replay table_root actions [] in
      let full = replay-IsFull actions [] (λ p f never. absurd (Memᴰ.not-nil never)) in
      (
        λ h.
            let ((path, f), there, e) = mem_of-map (λ (p, f). f) m file h in
            let i : f ≡ full_path table_root path = full path f there in
            let held : Memᴰ (entry path) m = subst (λ g. Memᴰ (path, g) m) i there in
            ⊎_elim (λ active. (path, active, e ∙ i)) (λ (never, _). absurd (Memᴰ.not-nil never))
              ((Memᴰ-replay path actions []).0 held),
        λ (path, active, e).
            subst (λ g. Memᴰ g (map (λ (p, f). f) m)) (sym e)
              (Memᴰ.map (λ (p, f). f) ((Memᴰ-replay path actions []).1 (inl active))),
      )
