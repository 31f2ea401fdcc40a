-- ===== src/Core/Windows/Sliding.antt =====
-- Sliding windows: which windows an event gets, and when the search for them ends.
use mathlib.Core.List.Memᴰ
use mathlib.Core.Bool.{false≢true}
use mathlib.Core.Path.{subst}
use native.Mathlib.Nat.{mul-zero, suc-mul}
use stat_guardian.Base.{
  ℕ, zero, suc, ◌+◌, ◌*◌, ◌≤◌, ◌<◌, ◌≡◌, ◌↔◌, refl, sym, ◌∙◌, inl, inr, true, false, not, Option,
  none, some, List, [], ◌∷◌, ◌++◌, Any, Memᴰ-append, ltb, ltb→lt, ltb-false, filter, arith,
  Bool-cases, if◌then◌else◌,
}
use stat_guardian.Base.Sort.{All, All-append, All-filter}
use stat_guardian.Base.Assoc.{get, All-get}
use stat_guardian.Core.Windows.{
  since_epoch, time_lt, second, as_secs, from_secs, WindowId, slide, window_id_eq, StreamingWindow,
  new_window, Windows, Outcome, ok, ensure, SlidingWindowExecutor, slide_window, covers, found,
  put_before, slide_loop, evict_expired, get_windows_for_event,
}
use stat_guardian.Core.Windows.Tumbling.{get-ensure, All-ensure, expired, retain_from_lem}

-- Nanoseconds after the epoch at which slide `k` starts.
abbrev pub start_of : ℕ → ℕ → ℕ
start_of interval k = from_secs (k * as_secs interval)

-- An entry of the map of an executor with this size and interval.
pub record AlignedSlide (size interval : ℕ) (entry : WindowId × StreamingWindow) : Type 0 where
  pub number : ℕ
  pub key : entry.0 ≡ slide number (number * as_secs interval)
  pub starts : entry.1.start_time ≡ since_epoch (start_of interval number)
  pub ends : entry.1.end_time ≡ since_epoch (start_of interval number + size)

abbrev pub IsAlignedSlides : SlidingWindowExecutor → Type 0
IsAlignedSlides x = All (AlignedSlide x.window_size x.slide_interval) x.current_windows

-- A slide that holds the time `t`, all earlier slides having ended by then.
pub record IsNext (size interval t number : ℕ) : Type 0 where
  pub begun : start_of interval number ≤ t
  pub unended : t ≤ start_of interval number + size
  pub earlier : (j : ℕ) → j < number → start_of interval j + size ≤ t

-- The window of such a slide.
pub record Reported (size interval t : ℕ) (w : StreamingWindow) : Type 0 where
  pub number : ℕ
  pub next : IsNext size interval t number
  pub starts : w.start_time ≡ since_epoch (start_of interval number)
  pub ends : w.end_time ≡ since_epoch (start_of interval number + size)

abbrev pub StartsAt : ℕ → StreamingWindow → Type 0
StartsAt start w = w.start_time ≡ since_epoch start

-- From slide `k` on: exactly these windows.
pub record Swept (size interval t k : ℕ) (ws : List StreamingWindow) : Type 0 where
  pub sound : All (Reported size interval t) ws
  pub complete :
      (n : ℕ) → k ≤ n → IsNext size interval t n → Any (StartsAt (start_of interval n)) ws

abbrev with_windows : ℕ → ℕ → Windows → SlidingWindowExecutor
with_windows size interval windows = record {
  window_size = size;
  slide_interval = interval;
  current_windows = windows;
}

-- One round of the loop.
record Round (size interval t k : ℕ) (windows windows' : Windows) (here : List StreamingWindow)
    : Type 0 where
  aligned : All (AlignedSlide size interval) windows'
  sound : All (Reported size interval t) here
  complete : IsNext size interval t k → Any (StartsAt (start_of interval k)) here
  step :
      (fuel : ℕ)
      → slide_loop (suc fuel) (with_windows size interval windows) (since_epoch t) k ≡ (
          if time_lt (since_epoch t) (since_epoch (start_of interval k + size))
          then some (here, with_windows size interval windows')
          else put_before here
              (slide_loop fuel (with_windows size interval windows') (since_epoch t) (k + 1)))

covers_iff :
    (size interval t k : ℕ) (windows : Windows)
    → (covers (slide_window (with_windows size interval windows) k) (since_epoch t) ≡ true)
      ↔ ((start_of interval k ≤ t) × (t ≤ start_of interval k + size))
unfolding covers slide_window new_window time_lt
covers_iff size interval t k windows = ground arith

-- An aligned window under the key of slide `k` is that of slide `k`.
bounds_of_slide :
    (size interval k : ℕ) (w : StreamingWindow)
    → AlignedSlide size interval (slide k (k * as_secs interval), w)
    → (w.start_time ≡ since_epoch (start_of interval k))
      × (w.end_time ≡ since_epoch (start_of interval k + size))
bounds_of_slide size interval k w mine =
    let same : mine.number ≡ k = cc mine.key in
    subst
      (λ (n : ℕ).
        (w.start_time ≡ since_epoch (start_of interval n))
        × (w.end_time ≡ since_epoch (start_of interval n + size)))
      same (mine.starts, mine.ends)

abbrev Unended : ℕ → ℕ → ℕ → ℕ → Type 0
Unended size interval t k = (j : ℕ) → j < k → start_of interval j + size ≤ t

round :
    (size interval t k : ℕ) (windows : Windows)
    → All (AlignedSlide size interval) windows
    → Unended size interval t k
    → (windows' : Windows) × (here : List StreamingWindow) × Round size interval t k windows
        windows' here
round size interval t k windows aligned earlier =
    let x = with_windows size interval windows in
    let fresh = slide_window x k in
    let id = slide k (k * as_secs interval) in
    let kept = ensure id fresh windows in
    let (w, there) = get-ensure id fresh windows in
    let all : All (AlignedSlide size interval) kept =
      All-ensure (AlignedSlide size interval) id fresh windows aligned (
        unfold slide_window new_window in
        record { number = k; key = refl; starts = refl; ends = refl }) in
    let (starts, ends) =
      bounds_of_slide size interval k w
        (All-get (AlignedSlide size interval) id kept w all there) in
    elim (Bool-cases (covers fresh (since_epoch t))) [
      | inl hit ↦
          let (begun, unended) = (covers_iff size interval t k windows).0 hit in
          (
            kept,
            w ∷ [],
            record {
              aligned = all;
              sound = (
                record {
                  number = k;
                  next = record { begun = begun; unended = unended; earlier = earlier };
                  starts = starts;
                  ends = ends;
                },
                tt,
              );
              complete = λ _. (w, Memᴰ.head refl, starts);
              step = λ fuel. unfold slide_loop in rw (hit, there);
            },
          )
      | inr miss ↦ (
        windows,
        [],
        record {
          aligned = aligned;
          sound = tt;
          complete = λ n. absurd (
              false≢true
                (sym miss ∙ (covers_iff size interval t k windows).1 (n.begun, n.unended)));
          step = λ fuel. unfold slide_loop in rw miss;
        },
      )
    ]

-- With a slide of a second or more, slide `k` starts at `k` seconds or later.
start_of-le : (interval k : ℕ) → second ≤ interval → from_secs k ≤ start_of interval k
start_of-le interval zero h = omega arith
start_of-le interval (suc k) h =
    omega (arith, start_of-le interval k h, suc-mul k (as_secs interval))

Unended-suc :
    (size interval t k : ℕ)
    → Unended size interval t k
    → start_of interval k + size ≤ t
    → Unended size interval t (k + 1)
Unended-suc size interval t k earlier now j h = elim (Bool-cases (ltb j k)) [
  | inl below ↦ earlier j (ltb→lt j k below)
  | inr not_below ↦
      let same : k ≡ j = omega (arith, ltb-false j k not_below) in
      subst (λ (i : ℕ). start_of interval i + size ≤ t) same now
]

-- The loop's answer from slide `k` on, where all earlier slides have ended.
slide_loop-Swept :
    (fuel size interval t k : ℕ) (windows : Windows)
    → second ≤ interval
    → All (AlignedSlide size interval) windows
    → Unended size interval t k
    → k ≤ as_secs t + 1
    → as_secs t + 2 ≤ fuel + k
    → (ws : List StreamingWindow) × (windows' : Windows) × (slide_loop fuel
          (with_windows size interval windows)
          (since_epoch t)
          k
        ≡ some (ws, with_windows size interval windows'))
      × Swept size interval t k ws
      × All (AlignedSlide size interval) windows'
slide_loop-Swept zero size interval t k windows h aligned earlier le enough = absurd (omega arith)
slide_loop-Swept (suc fuel) size interval t k windows h aligned earlier le enough =
    let (windows', here, r) = round size interval t k windows aligned earlier in
    let end = start_of interval k + size in
    elim (Bool-cases (time_lt (since_epoch t) (since_epoch end))) [
      | inl last ↦ (
        here,
        windows',
        r.step fuel ∙ rw last refl,
        record {
          sound = r.sound;
          complete = λ n le next. elim (Bool-cases (ltb k n)) [
            | inl later ↦
                let ended = next.earlier k (ltb→lt k n later) in
                absurd (unfold time_lt in ground arith)
            | inr not_later ↦
                let same : n ≡ k = omega (arith, ltb-false k n not_later) in
                subst (λ (i : ℕ). Any (StartsAt (start_of interval i)) here) (sym same)
                  (r.complete (subst (IsNext size interval t) same next))
          ];
        },
        r.aligned,
      )
      | inr over ↦
          let ended : end ≤ t = unfold time_lt in ground arith in
          let (ws, windows'', answer, swept, aligned') =
            slide_loop-Swept fuel size interval t (k + 1) windows' h r.aligned
              (Unended-suc size interval t k earlier ended)
              (omega (arith, start_of-le interval k h)) (omega arith) in
          (
            here ++ ws,
            windows'',
            r.step fuel ∙ rw over (rw answer refl),
            record {
              sound = All-append (Reported size interval t) here ws r.sound swept.sound;
              complete = λ n le next. elim (Bool-cases (ltb k n)) [
                | inl later ↦
                    let (w, m, starts) = swept.complete n (omega (arith, ltb→lt k n later)) next in
                    (w, (Memᴰ-append w here ws).1 (inr m), starts)
                | inr not_later ↦
                    let same : n ≡ k = omega (arith, ltb-false k n not_later) in
                    let (w, m, starts) = r.complete (subst (IsNext size interval t) same next) in
                    (
                      w,
                      (Memᴰ-append w here ws).1 (inl m),
                      subst (λ (i : ℕ). StartsAt (start_of interval i) w) (sym same) starts,
                    )
              ];
            },
            aligned',
          )
    ]

-- No window that ended before `t` is left.
abbrev pub IsEvicted : ℕ → SlidingWindowExecutor → Type 0
IsEvicted t x = All (λ entry. expired (since_epoch t) entry ≡ false) x.current_windows

-- What an answer to an event at `t` nanoseconds after the epoch is.
abbrev pub Answered :
    SlidingWindowExecutor
    → ℕ
    → Option (Outcome (List StreamingWindow × SlidingWindowExecutor))
    → Type 0
Answered x t answer =
    (ws : List StreamingWindow) × (x' : SlidingWindowExecutor) × (answer ≡ some (ok (ws, x')))
    × Swept x.window_size x.slide_interval t 0 ws
    × IsAlignedSlides x'
    × IsEvicted t x'

All-kept :
    (t : ℕ) (ws : Windows)
    → All
        (λ entry. expired (since_epoch t) entry ≡ false)
        (filter (λ entry. not (expired (since_epoch t) entry)) ws)
All-kept t [] = tt
All-kept t (entry ∷ ws) = ground (arith, All-kept t ws)

-- With a slide of a second or more, aligned windows and fuel for one round per second since the
-- epoch and two more, the call ends; the event gets exactly the windows that hold its time and
-- before which all slides have ended; windows stay aligned and none that ended before the event is
-- left.
pub get_windows_for_event-Answered :
    (fuel t : ℕ) (x : SlidingWindowExecutor)
    → second ≤ x.slide_interval
    → IsAlignedSlides x
    → as_secs t + 2 ≤ fuel
    → Answered x t (get_windows_for_event fuel x (since_epoch t))
unfolding get_windows_for_event evict_expired
get_windows_for_event-Answered fuel t x h aligned enough =
    let size = x.window_size in
    let interval = x.slide_interval in
    let (ws, windows', answer, swept, aligned') =
      slide_loop-Swept fuel size interval t 0 x.current_windows h aligned
        (λ j below. absurd (omega arith)) (omega arith) (omega arith) in
    let split = retain_from_lem (since_epoch t) windows' in
    let keep = λ (entry : WindowId × StreamingWindow). not (expired (since_epoch t) entry) in
    (
      ws,
      with_windows size interval (filter keep windows'),
      rw (answer, get_windows_for_event) (rw split refl),
      swept,
      All-filter (AlignedSlide size interval) keep windows' aligned',
      All-kept t windows',
    )

-- A round whose window has ended goes on to the next.
slide_loop_over :
    (fuel size interval t k : ℕ) (windows : Windows)
    → start_of interval k + size ≤ t
    → (here : List StreamingWindow) × (windows' : Windows) × (slide_loop
          (suc fuel)
          (with_windows size interval windows)
          (since_epoch t)
          k
        ≡ put_before here
            (slide_loop fuel (with_windows size interval windows') (since_epoch t) (k + 1)))
unfolding slide_loop slide_window new_window
slide_loop_over fuel size interval t k windows over =
    let x = with_windows size interval windows in
    let fresh = slide_window x k in
    let kept = ensure fresh.window_id fresh windows in
    let past : time_lt (since_epoch t) fresh.end_time ≡ false = unfold time_lt in ground arith in
    elim (Bool-cases (covers fresh (since_epoch t))) [
      | inl hit ↦ (found (get fresh.window_id kept), kept, rw (past, hit))
      | inr miss ↦ ([], windows, rw (past, miss))
    ]

slide_loop_stuck :
    (fuel size interval t k : ℕ) (windows : Windows)
    → interval < second
    → size ≤ t
    → slide_loop fuel (with_windows size interval windows) (since_epoch t) k ≡ none
unfolding slide_loop
slide_loop_stuck zero size interval t k windows h over = refl
slide_loop_stuck (suc fuel) size interval t k windows h over =
    let no_seconds : as_secs interval ≡ 0 = omega arith in
    let start : start_of interval k ≡ 0 = rw no_seconds (rw mul-zero refl) in
    let (here, windows', step) =
      slide_loop_over fuel size interval t k windows (omega (arith, start)) in
    step ∙ rw (slide_loop_stuck fuel size interval t (k + 1) windows' h over) refl

-- With a slide below a second the loop does not end, whatever the fuel, once the time is at or
-- after the end of the first window.
pub get_windows_for_event_diverges :
    (fuel t : ℕ) (x : SlidingWindowExecutor)
    → x.slide_interval < second
    → x.window_size ≤ t
    → get_windows_for_event fuel x (since_epoch t) ≡ none
unfolding get_windows_for_event
get_windows_for_event_diverges fuel t x h over = rw (
  slide_loop_stuck fuel x.window_size x.slide_interval t 0 x.current_windows h over,
  get_windows_for_event,
)
