-- ===== src/Io/Batches/Drain.antt =====
-- The batches of a file are its rows, and come to an end.
use Prim.Native.Nat.{min, max}
use stat_guardian.Base.{
  ℕ, zero, suc, ◌+◌, ◌-◌, ◌≤◌, ◌<◌, ◌^◌, ◌⊎◌, ◌≡◌, refl, String, true, false, Option, none, some,
  List, [], ◌∷◌, leb, arith, inl, inr, Bool-cases, ap, sym, ◌∙◌,
}
use mathlib.Core.Path.{subst}
use stat_guardian.Stream.Reader.{u64, u64_mod}
use stat_guardian.Io.Errors.{IoResult, ok, err}
use stat_guardian.Io.System.{System}
use stat_guardian.Io.Batches.{Batcher, new, next_of, next_batch}

module _ (sys : System) where
  abbrev pub push_batch :
      sys.Frame
      → Option (IoResult sys.Polars (List sys.Frame))
      → Option (IoResult sys.Polars (List sys.Frame))
  push_batch df (some (ok dfs)) = some (ok (df ∷ dfs))
  push_batch df rest = rest

  abbrev pub after_batch :
      IoResult sys.Polars (Option sys.Frame × Batcher sys)
      → (Batcher sys → Option (IoResult sys.Polars (List sys.Frame)))
      → Option (IoResult sys.Polars (List sys.Frame))
  after_batch (err e) rest = some (err e)
  after_batch (ok (none, b)) rest = some (ok [])
  after_batch (ok (some df, b)) rest = push_batch df (rest b)

  -- `while let Some(batch) = batcher.next_batch()? { .. }`, with what a read of the file would give
  -- at each call. `none` means that the fuel ran out.
  unfoldable pub drain :
      (fuel : ℕ)
      → (reads : ℕ → IoResult sys.Polars sys.Frame) → Batcher sys
      → Option (IoResult sys.Polars (List sys.Frame))
  drain zero reads b = none
  drain (suc fuel) reads b =
      after_batch (next_batch sys (reads 0) b) (drain fuel (λ i. reads (suc i)))

  -- The batches are the rows from an offset on, in their order and without a gap; each has between
  -- one row and the batch size, and less than the batch size only if it is the last.
  abbrev pub Covers : sys.Frame → (batch_size offset : ℕ) → List sys.Frame → Type 0
  Covers df batch_size offset [] = offset ≡ sys.height df
  Covers df batch_size offset (batch ∷ batches) =
      (len : ℕ) × (batch ≡ sys.slice df offset len)
      × (0 < len)
      × (len ≤ batch_size)
      × (len < batch_size → batches ≡ [])
      × Covers df batch_size (offset + len) batches

  Covers-le :
      (df : sys.Frame) (batch_size offset : ℕ) (batches : List sys.Frame)
      → Covers df batch_size offset batches
      → offset ≤ sys.height df
  Covers-le df batch_size offset [] h = omega arith
  Covers-le df batch_size offset (x ∷ xs) (len, _, _, _, _, h) =
      omega (arith, Covers-le df batch_size (offset + len) xs h)

  Covers-end :
      (df : sys.Frame) (batch_size offset : ℕ) (batches : List sys.Frame)
      → sys.height df ≤ offset
      → Covers df batch_size offset batches
      → batches ≡ []
  Covers-end df batch_size offset [] done h = refl
  Covers-end df batch_size offset (x ∷ xs) done (len, _, positive, _, _, h) =
      absurd (omega (arith, positive, Covers-le df batch_size (offset + len) xs h))

  -- A batcher that has the file and is somewhere in it.
  pub record IsLoaded (df : sys.Frame) (b : Batcher sys) : Type 0 where
    pub has_file : b.cached ≡ some df
    pub positive : 0 < b.batch_size
    pub small : b.batch_size < u64_mod
    pub within : b.offset ≤ sys.height df
    pub started : (b.offset ≡ 0) ⊎ ((b.batch_size ≤ b.offset) ⊎ (sys.height df ≤ b.offset))

  next_batch-loaded :
      (df : sys.Frame) (read : IoResult sys.Polars sys.Frame) (b : Batcher sys)
      → b.cached ≡ some df
      → next_batch sys read b ≡ ok (next_of sys df b)
  unfolding next_batch
  next_batch-loaded df read b h = rw h refl

  -- The end of the next batch, which does not wrap.
  cut_end :
      (df : sys.Frame) (b : Batcher sys)
      → sys.height df < 2 ^ 63
      → IsLoaded df b
      → b.offset < sys.height df
      → min (u64 (b.offset + b.batch_size)) (sys.height df)
        ≡ min (b.offset + b.batch_size) (sys.height df)
  cut_end df b bounded h more = ground arith

  drain-step :
      (fuel : ℕ) (reads : ℕ → IoResult sys.Polars sys.Frame) (b b' : Batcher sys) (x : sys.Frame)
      {xs : List sys.Frame}
      → next_batch sys (reads 0) b ≡ ok (some x, b')
      → drain fuel (λ i. reads (suc i)) b' ≡ some (ok xs)
      → drain (suc fuel) reads b ≡ some (ok (x ∷ xs))
  unfolding drain
  drain-step fuel reads b b' x h rest = rw (h, drain) (rw rest refl)

  drain-end :
      (fuel : ℕ) (reads : ℕ → IoResult sys.Polars sys.Frame) (b b' : Batcher sys)
      → next_batch sys (reads 0) b ≡ ok (none, b')
      → drain (suc fuel) reads b ≡ some (ok [])
  unfolding drain
  drain-end fuel reads b b' h = rw (h, drain) refl

  next_of-end :
      (df : sys.Frame) (b : Batcher sys)
      → leb (sys.height df) b.offset ≡ true
      → next_of sys df b ≡ (none, b)
  next_of-end df b h = rw h refl

  next_of-more :
      (df : sys.Frame) (b : Batcher sys)
      → leb (sys.height df) b.offset ≡ false
      → sys.height df < 2 ^ 63
      → IsLoaded df b
      → let end = min (b.offset + b.batch_size) (sys.height df) in
        next_of sys df b
        ≡ (some (sys.slice df b.offset (end - b.offset)), record b { offset = end })
  next_of-more df b h bounded loaded =
      rw (h, next_of) (rw (cut_end df b bounded loaded (ground arith)) refl)

  drain-loaded :
      (df : sys.Frame) (fuel : ℕ) (reads : ℕ → IoResult sys.Polars sys.Frame) (b : Batcher sys)
      → sys.height df < 2 ^ 63
      → IsLoaded df b
      → sys.height df - b.offset < fuel
      → (batches : List sys.Frame) × (drain fuel reads b ≡ some (ok batches))
        × Covers df b.batch_size b.offset batches
  drain-loaded df zero reads b bounded h enough = absurd (omega arith)
  drain-loaded df (suc fuel) reads b bounded h enough =
      let now = next_batch-loaded df (reads 0) b h.has_file in
      elim (Bool-cases (leb (sys.height df) b.offset)) [
        | inl ended ↦ (
          [],
          drain-end fuel reads b b (now ∙ ap ok (next_of-end df b ended)),
          ground (arith, h.within),
        )
        | inr more ↦
            let end = min (b.offset + b.batch_size) (sys.height df) in
            let b' = record b { offset = end } in
            let left : b.offset < sys.height df = ground arith in
            let loaded : IsLoaded df b' = record {
              has_file = h.has_file;
              positive = h.positive;
              small = h.small;
              within = omega arith;
              started = ground arith;
            } in
            let (batches, drained, covered) =
              drain-loaded df fuel (λ i. reads (suc i)) b' bounded loaded
                (omega (arith, h.positive)) in
            let here : end ≡ b.offset + (end - b.offset) = omega arith in
            let covered' = subst (λ o. Covers df b.batch_size o batches) here covered in
            (
              sys.slice df b.offset (end - b.offset) ∷ batches,
              drain-step fuel reads b b' _ (now ∙ ap ok (next_of-more df b more bounded h)) drained,
              (
                end - b.offset,
                refl,
                omega (arith, h.positive),
                omega arith,
                (λ short. Covers-end df b.batch_size end batches (omega (arith, short)) covered),
                covered',
              ),
            )
      ]

  next_batch-fresh :
      (df : sys.Frame) (read : IoResult sys.Polars sys.Frame) (b : Batcher sys)
      → b.cached ≡ none
      → read ≡ ok df
      → next_batch sys read b ≡ ok (next_of sys df (record b { cached = some df }))
  unfolding next_batch
  next_batch-fresh df read b h first = rw h (rw first refl)

  drain-same :
      (fuel : ℕ) (reads : ℕ → IoResult sys.Polars sys.Frame) (b b' : Batcher sys)
      → next_batch sys (reads 0) b ≡ next_batch sys (reads 0) b'
      → drain (suc fuel) reads b ≡ drain (suc fuel) reads b'
  unfolding drain
  drain-same fuel reads b b' h = rw (h, drain) refl

  -- Whatever the file becomes after the first call, the batches of the frame that this one read.
  pub drain-Covers :
      (path : String) (batch_size : ℕ) (df : sys.Frame) (reads : ℕ → IoResult sys.Polars sys.Frame)
      → reads 0 ≡ ok df
      → sys.height df < 2 ^ 63
      → batch_size < u64_mod
      → (batches : List sys.Frame) × (drain (suc (sys.height df)) reads (new path batch_size)
          ≡ some (ok batches))
        × Covers df (max batch_size 1) 0 batches
  unfolding new
  drain-Covers path batch_size df reads first bounded small =
      let fresh : Batcher sys = new path batch_size in
      let b = record fresh { cached = some df } in
      let loaded : IsLoaded df b = record {
        has_file = refl;
        positive = omega arith;
        small = omega (arith, small);
        within = omega arith;
        started = inl refl;
      } in
      let now =
        next_batch-fresh df (reads 0) fresh refl first
        ∙ sym (next_batch-loaded df (reads 0) b refl) in
      let (batches, drained, covered) =
        drain-loaded df (suc (sys.height df)) reads b bounded loaded (omega arith) in
      (batches, drain-same (sys.height df) reads fresh b now ∙ drained, covered)
