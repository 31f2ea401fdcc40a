-- ===== src/Io/Delta/Versions.antt =====
-- The commits of a Delta table up to a version.
use stat_guardian.Base.{
  ℕ, String, Bool, true, inl, inr, ◌↔◌, Option, List, [], ◌∷◌, ◌≡◌, refl, filter, map, leb, Memᴰ,
  Memᴰ-filter, arith, Bool-cases,
}
use stat_guardian.Base.Order.{IsOrder-nat, IsOrder-on}
use stat_guardian.Base.Sort.{All-filter, IsSorted, sort_by-IsSorted, Memᴰ-sort_by}
use Prim.Native.Nat.{compare}
use stat_guardian.Io.Errors.{ok}
use stat_guardian.Io.System.{System}
use stat_guardian.Io.Delta.{
  Commit, DeltaAction, commits_in, sort_commits, commits_upto, limit_of, full_path, read_actions,
  replay, resolve_active_files,
}
use stat_guardian.Io.Delta.Active.{IsActive, files-exact}

filter-IsSorted :
    (p : Commit → Bool) (cs : List Commit)
    → IsSorted (λ a b. compare a.0 b.0) cs
    → IsSorted (λ a b. compare a.0 b.0) (filter p cs)
filter-IsSorted p [] s = tt
filter-IsSorted p (c ∷ cs) s = elim (Bool-cases (p c)) [
  | inl kept ↦ rw kept (All-filter _ p cs s.0, filter-IsSorted p cs s.1)
  | inr dropped ↦ rw dropped (filter-IsSorted p cs s.1)
]

-- The commits up to a version come in the order of their versions.
abbrev pub IsHistory : ℕ → List Commit → List Commit → Type 0
IsHistory limit found commits =
    IsSorted (λ a b. compare a.0 b.0) commits
    × ((c : Commit) → Memᴰ c commits ↔ (Memᴰ c found × (leb c.0 limit ≡ true)))

commits_upto-IsHistory :
    (limit : ℕ) (found : List Commit) → IsHistory limit found (commits_upto limit found)
commits_upto-IsHistory limit found = (
  filter-IsSorted (λ c. leb c.0 limit) (sort_commits found)
      (sort_by-IsSorted (λ a b. compare a.0 b.0)
        (IsOrder-on (λ (c : Commit). c.0) compare IsOrder-nat) found),
  λ c. ground (
    arith,
    Memᴰ-filter (λ c. leb c.0 limit) c (sort_commits found),
    Memᴰ-sort_by (λ (a : Commit) b. compare a.0 b.0) c found,
  ),
)

module _ (sys : System) (parse_action : String → Option DeltaAction) where
  -- If the log directory can be read and every commit up to the version too, the commits read are
  -- exactly those of the directory up to the version, in ascending order, and a file is given
  -- exactly if some action adds its path and neither that action nor a later one removes it.
  pub resolve_active_files-exact :
      (log_dir table_root : String) (up_to_version : Option ℕ) (names : List String)
      (actions : List DeltaAction)
      → sys.read_dir log_dir ≡ inr names
      → read_actions sys parse_action
          (commits_upto (limit_of up_to_version) (commits_in log_dir names))
        ≡ ok actions
      → IsHistory
          (limit_of up_to_version)
          (commits_in log_dir names)
          (commits_upto (limit_of up_to_version) (commits_in log_dir names))
        × ((files : List String) × (resolve_active_files sys parse_action log_dir table_root
                up_to_version
              ≡ ok files)
            × ((file : String)
                → Memᴰ file files
                  ↔ ((path : String) × IsActive path actions × (file ≡ full_path table_root path))))
  unfolding resolve_active_files
  resolve_active_files-exact log_dir table_root up_to_version names actions listed read = (
    commits_upto-IsHistory _ _,
    (
      map (λ (p, f). f) (replay table_root actions []),
      rw listed (rw read refl),
      files-exact table_root actions,
    ),
  )
