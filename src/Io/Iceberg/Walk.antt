-- ===== src/Io/Iceberg/Walk.antt =====
-- The walk over the folder of a table's data: where it ends, and what it finds.
use mathlib.Core.List.Memᴰ
use mathlib.Core.Path.{subst}
use stat_guardian.Base.{
  ℕ, zero, suc, String, true, false, ◌⊎◌, inl, inr, ◌↔◌, List, [], ◌∷◌, ◌++◌, ◌≡◌, refl, Memᴰ,
  Memᴰ-append, Memᴰ-cons, Bool-cases, ⊎_elim,
}
use stat_guardian.Base.Sort.{All}
use stat_guardian.Core.Parser.RoundTrip.Fields.{All-map}
use stat_guardian.Io.System.{System}
use stat_guardian.Io.Paths.{join, extension}
use stat_guardian.Io.Iceberg.Steps.{Steps, gives}
use stat_guardian.Io.Iceberg.Files.{
  extend_all, names_or_none, is_parquet, found_at, walkdir_parquet,
}

-- Code that gives a list of exactly the texts with a property.
abbrev pub Lists : {Polars : Type 0} → Steps Polars (List String) → (String → Type 0) → Type 0
Lists answer R =
    (paths : List String) × (answer ≡ gives paths) × ((p : String) → Memᴰ p paths ↔ R p)

extend_all-Lists :
    {Polars A : Type 0} (f : A → Steps Polars (List String)) (R : A → String → Type 0) (xs : List A)
    → All (λ x. Lists (f x) (R x)) xs
    → Lists (extend_all f xs) (λ p. (x : A) × Memᴰ x xs × R x p)
unfolding extend_all
extend_all-Lists f R [] all =
    ([], refl, λ p. (λ m. absurd (Memᴰ.not-nil m), λ (x, m, r). absurd (Memᴰ.not-nil m)))
extend_all-Lists f R (x ∷ xs) ((ys, first, here), all) =
    let (zs, rest, behind) = extend_all-Lists f R xs all in
    (
      ys ++ zs,
      rw first (rw rest refl),
      λ p. (
        λ m.
            ⊎_elim (λ l. (x, Memᴰ.head refl, (here p).0 l))
              (λ l. let (y, there, r) = (behind p).0 l in (y, Memᴰ.tail there, r))
              ((Memᴰ-append p ys zs).0 m),
        λ (y, m, r). (Memᴰ-append p ys zs).1 (
            ⊎_elim (λ e. inl ((here p).1 (subst (λ z. R z p) e r)))
              (λ later. inr ((behind p).1 (y, later, r))) ((Memᴰ-cons y x xs).0 m)),
      ),
    )

module _ (sys : System) where
  -- No directory of the tree is deeper than that.
  abbrev pub IsShallow : (depth : ℕ) → String → Type 0
  IsShallow zero dir = ⊥
  IsShallow (suc depth) dir =
      All (λ name. sys.is_dir (join dir name) ≡ true → IsShallow depth (join dir name))
        (names_or_none sys (sys.read_dir dir))

  -- A file of Parquet in a directory, or in one of its directories down to a depth.
  abbrev pub IsBelow : (depth : ℕ) → String → String → Type 0
  IsBelow zero dir file = ⊥
  IsBelow (suc depth) dir file =
      (name : String) × Memᴰ name (names_or_none sys (sys.read_dir dir))
      × (((sys.is_dir (join dir name) ≡ true) × IsBelow depth (join dir name) file)
          ⊎ ((sys.is_dir (join dir name) ≡ false)
              × ((is_parquet sys (extension (join dir name)) ≡ true) × (file ≡ join dir name))))

  -- What an entry of a directory adds.
  abbrev IsOfEntry : (depth : ℕ) → String → String → Type 0
  IsOfEntry depth path file =
      ((sys.is_dir path ≡ true) × IsBelow depth path file)
      ⊎ ((sys.is_dir path ≡ false) × ((is_parquet sys (extension path) ≡ true) × (file ≡ path)))

  found_at-Lists :
      (depth : ℕ) (path : String) (inside : Steps sys.Polars (List String))
      → (sys.is_dir path ≡ true → Lists inside (IsBelow depth path))
      → Lists (found_at sys path inside) (IsOfEntry depth path)
  unfolding found_at
  found_at-Lists depth path inside deeper = elim (Bool-cases (sys.is_dir path)) [
    | inl folder ↦
        let (paths, found, exact) = deeper folder in
        (
          paths,
          rw folder found,
          λ p. (
            λ m. inl (folder, (exact p).0 m),
            ⊎_elim (λ (_, below). (exact p).1 below) (λ (plain, _). absurd (cc (folder, plain))),
          ),
        )
    | inr plain ↦ elim (Bool-cases (is_parquet sys (extension path))) [
      | inl parquet ↦ (
        path ∷ [],
        rw (plain, parquet) refl,
        λ p. (
          λ m.
              ⊎_elim (λ e. inr (plain, (parquet, e))) (λ never. absurd (Memᴰ.not-nil never))
                ((Memᴰ-cons p path []).0 m),
          ⊎_elim (λ (folder, _). absurd (cc (folder, plain))) (λ (_, (_, e)). Memᴰ.head e),
        ),
      )
      | inr other ↦ (
        [],
        rw (plain, other) refl,
        λ p. (
          λ never. absurd (Memᴰ.not-nil never),
          ⊎_elim (λ (folder, _). absurd (cc (folder, plain)))
              (λ (_, (parquet, _)). absurd (cc (parquet, other))),
        ),
      )
    ]
  ]

  -- On a tree of directories that is no deeper than the walk may go, the walk ends, and finds
  -- exactly the files of Parquet in it.
  pub walkdir_parquet-exact :
      (depth : ℕ) (dir : String)
      → IsShallow depth dir
      → Lists (walkdir_parquet sys depth dir) (IsBelow depth dir)
  unfolding walkdir_parquet
  walkdir_parquet-exact zero dir h = absurd h
  walkdir_parquet-exact (suc depth) dir h =
      let names = names_or_none sys (sys.read_dir dir) in
      extend_all-Lists _ (λ name. IsOfEntry depth (join dir name)) names
        (All-map
          (λ name deeper.
            found_at-Lists depth (join dir name) _
              (λ is_dir. walkdir_parquet-exact depth (join dir name) (deeper is_dir)))
          names h)
