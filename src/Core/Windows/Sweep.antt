-- ===== src/Core/Windows/Sweep.antt =====
-- How windows are closed, and which closed windows are found afterwards.
use mathlib.Core.List.Memᴰ
use stat_guardian.Base.{
  ◌<◌, ◌+◌, ◌≡◌, refl, ap, ◌∙◌, ◌↔◌, Bool, true, false, not, inl, inr, List, [], ◌∷◌, filter, map,
  length, Memᴰ, Memᴰ-filter, Memᴰ-cons, arith, ⊎_elim,
}
use stat_guardian.Core.Windows.{
  SystemTime, since_epoch, before_epoch, time_lt, WindowId, StreamingWindow, close, Windows,
  retain_from, TumblingWindowExecutor, close_windows_before, get_closed_windows,
  SlidingWindowExecutor, evict_expired,
}
use stat_guardian.Core.Windows.Tumbling.{expired, retain_from_lem}

-- The order of times, on both sides of the epoch.
abbrev pub IsBefore : SystemTime → SystemTime → Type 0
IsBefore (since_epoch a) (since_epoch b) = a < b
IsBefore (since_epoch a) (before_epoch b) = ⊥
IsBefore (before_epoch a) (since_epoch b) = Unit
IsBefore (before_epoch a) (before_epoch b) = b < a

time_lt_iff : (s t : SystemTime) → (time_lt s t ≡ true) ↔ IsBefore s t
unfolding time_lt
time_lt_iff (since_epoch a) (since_epoch b) = ground arith
time_lt_iff (since_epoch a) (before_epoch b) = (λ h. cc h, λ never. absurd never)
time_lt_iff (before_epoch a) (since_epoch b) = (λ _. tt, λ _. refl)
time_lt_iff (before_epoch a) (before_epoch b) = ground arith

-- A map in which every window that ends before a time is closed and taken out.
pub record IsSwept (cutoff : SystemTime) (ws kept : Windows) (closed : List StreamingWindow)
    : Type 0 where
  pub taken :
      (w : StreamingWindow)
      → Memᴰ w closed ↔ (
          (entry : WindowId × StreamingWindow) × Memᴰ entry ws
          × IsBefore entry.1.end_time cutoff
          × (w ≡ record entry.1 { is_closed = true }))
  pub left :
      (entry : WindowId × StreamingWindow)
      → Memᴰ entry kept ↔ (Memᴰ entry ws × (¬ IsBefore entry.1.end_time cutoff))
  pub all : length closed + length kept ≡ length ws

mem_map :
    {A B : Type 0} (g : A → B) (b : B) (xs : List A)
    → Memᴰ b (map g xs) ↔ ((a : A) × Memᴰ a xs × (b ≡ g a))
mem_map g b [] = (λ m. absurd (Memᴰ.not-nil m), λ (a, m, e). absurd (Memᴰ.not-nil m))
mem_map g b (x ∷ xs) =
    let (to, back) = mem_map g b xs in
    (
      λ m.
          ⊎_elim (λ e. (x, Memᴰ.head refl, e)) (λ r. let (a, n, e) = to r in (a, Memᴰ.tail n, e))
            ((Memᴰ-cons b (g x) (map g xs)).0 m),
      λ (a, m, e). (Memᴰ-cons b (g x) (map g xs)).1 (
          ⊎_elim (λ same. inl (e ∙ ap g same)) (λ r. inr (back (a, r, e)))
            ((Memᴰ-cons a x xs).0 m)),
    )

length-split :
    {A : Type 0} (p : A → Bool) (xs : List A)
    → length (filter p xs) + length (filter (λ x. not (p x)) xs) ≡ length xs
length-split p [] = refl
length-split p (x ∷ xs) = ground (arith, length-split p xs)

length-map : {A B : Type 0} (g : A → B) (xs : List A) → length (map g xs) ≡ length xs
length-map g [] = refl
length-map g (x ∷ xs) = omega (arith, length-map g xs)

refuted_iff : {P : Type 0} (b : Bool) → (b ≡ true) ↔ P → (not b ≡ true) ↔ (¬ P)
refuted_iff true (to, back) = (λ h. cc h, λ h. absurd (h (to refl)))
refuted_iff false (to, back) = (λ _ p. cc (back p), λ _. refl)

abbrev pub Entry : Type 0
Entry = WindowId × StreamingWindow

retain_from-IsSwept :
    (cutoff : SystemTime) (ws : Windows)
    → IsSwept cutoff ws (retain_from cutoff ws).0 (retain_from cutoff ws).1
unfolding close
retain_from-IsSwept cutoff ws =
    let gone = filter (expired cutoff) ws in
    let stay = λ (entry : Entry). not (expired cutoff entry) in
    let shut = λ (entry : Entry). close entry.1 in
    rw (retain_from_lem cutoff ws) (record {
      taken = λ w. (
        λ m.
            let (entry, there, e) = (mem_map shut w gone).0 m in
            let (inside, over) = (Memᴰ-filter (expired cutoff) entry ws).0 there in
            (entry, inside, (time_lt_iff entry.1.end_time cutoff).0 over, e),
        λ (entry, inside, over, e). (mem_map shut w gone).1 (
          entry,
          (Memᴰ-filter (expired cutoff) entry ws).1
              (inside, (time_lt_iff entry.1.end_time cutoff).1 over),
          e,
        ),
      );
      left = λ entry.
          let (to, back) =
            refuted_iff (expired cutoff entry) (time_lt_iff entry.1.end_time cutoff) in
          let (split, join) = Memᴰ-filter stay entry ws in
          (
            λ m. let (inside, on) = split m in (inside, to on),
            λ (inside, on). join (inside, back on),
          );
      all = length_sum;
    })
  where
    length_sum :
        length (map (λ (entry : Entry). close entry.1) (filter (expired cutoff) ws))
          + length (filter (λ (entry : Entry). not (expired cutoff entry)) ws)
        ≡ length ws
    length_sum = omega (
      arith,
      length-map (λ (entry : Entry). close entry.1) (filter (expired cutoff) ws),
      length-split (expired cutoff) ws,
    )

-- The closed windows of a map, as get_closed_windows gives them.
closed_of_iff :
    (x : TumblingWindowExecutor) (w : StreamingWindow)
    → Memᴰ w (get_closed_windows x)
      ↔ ((w.is_closed ≡ true) × ((entry : Entry) × Memᴰ entry x.current_windows × (w ≡ entry.1)))
unfolding get_closed_windows
closed_of_iff x w =
    let entries = map (λ (entry : Entry). entry.1) x.current_windows in
    let (split, join) = Memᴰ-filter (λ (v : StreamingWindow). v.is_closed) w entries in
    let (to, back) = mem_map (λ (entry : Entry). entry.1) w x.current_windows in
    (λ m. let (there, shut) = split m in (shut, to there), λ (shut, there). join (back there, shut))

-- close_windows_before and evict_expired take exactly the windows out of the map that end before
-- the cutoff, give them back with is_closed set and all else as it was, and leave the others:
-- there are as many windows as before. What get_closed_windows gives afterwards are the windows
-- that were closed already and do not end before the cutoff: none of those that the call closed.
pub close-evict-exact :
    (x : TumblingWindowExecutor) (y : SlidingWindowExecutor) (cutoff : SystemTime)
    → IsSwept cutoff x.current_windows
        (close_windows_before x cutoff).1.current_windows
        (close_windows_before x cutoff).0
      × IsSwept cutoff y.current_windows
          (evict_expired y cutoff).1.current_windows
          (evict_expired y cutoff).0
      × ((w : StreamingWindow)
          → Memᴰ w (get_closed_windows (close_windows_before x cutoff).1) ↔ (
              (w.is_closed ≡ true)
              × ((entry : Entry) × Memᴰ entry x.current_windows
                  × (¬ IsBefore entry.1.end_time cutoff)
                  × (w ≡ entry.1))))
unfolding close_windows_before evict_expired
close-evict-exact x y cutoff =
    let swept = retain_from-IsSwept cutoff x.current_windows in
    let x' = (close_windows_before x cutoff).1 in
    (
      swept,
      retain_from-IsSwept cutoff y.current_windows,
      λ w.
          let (to, back) = closed_of_iff x' w in
          (
            λ m.
                let (shut, (entry, there, e)) = to m in
                let (inside, on) = (swept.left entry).0 there in (shut, (entry, inside, on, e)),
            λ (shut, (entry, inside, on, e)).
                back (shut, (entry, (swept.left entry).1 (inside, on), e)),
          ),
    )
