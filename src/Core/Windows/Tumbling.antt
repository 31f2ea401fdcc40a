-- ===== src/Core/Windows/Tumbling.antt =====
-- Tumbling windows: which window an event gets, and how windows are closed.
use mathlib.Core.Path.{subst}
use native.Mathlib.Nat.{div-add-mod, mod-lt, mul_comm, suc-mul}
use stat_guardian.Base.{
  ℕ, suc, ◌+◌, ◌*◌, ◌/◌, ◌≤◌, ◌<◌, String, ◌≡◌, refl, sym, ap, inl, inr, Bool, true, false, not,
  ◌||◌, none, some, [], ◌∷◌, ◌++◌, filter, map, ◌==◌, nat_eq, arith, Option-cases,
}
use stat_guardian.Base.Sort.{All}
use stat_guardian.Base.Assoc.{get, insert, get-insert, All-get, All-insert}
use stat_guardian.Core.Windows.{
  SystemTime, since_epoch, time_lt, second, as_secs, from_secs, WindowId, window, window_id_eq,
  StreamingWindow, new_window, add_event, close, Windows, ok, panicked, ensure, retain_from,
  TumblingWindowExecutor, window_of_duration, get_window_for_event,
}

-- An entry of the map: window `number` starts after that many windows' whole seconds.
pub record Aligned (size : ℕ) (entry : WindowId × StreamingWindow) : Type 0 where
  pub number : ℕ
  pub key : entry.0 ≡ window number
  pub starts : entry.1.start_time ≡ since_epoch (from_secs (number * as_secs size))
  pub ends : entry.1.end_time ≡ since_epoch (from_secs (number * as_secs size) + size)

abbrev pub IsAligned : TumblingWindowExecutor → Type 0
IsAligned x = All (Aligned x.window_size) x.current_windows

ensure_new :
    (id : WindowId) (fresh : StreamingWindow) (ws : Windows)
    → get id ws ≡ none
    → ensure id fresh ws ≡ insert id fresh ws
unfolding ensure
ensure_new id fresh ws absent = rw (absent, ensure)

ensure_old :
    (id : WindowId) (fresh w : StreamingWindow) (ws : Windows)
    → get id ws ≡ some w
    → ensure id fresh ws ≡ ws
unfolding ensure
ensure_old id fresh w ws there = rw (there, ensure)

-- After `ensure` the key is there, with its old window or the fresh one.
pub get-ensure :
    (id : WindowId) (fresh : StreamingWindow) (ws : Windows)
    → (w : StreamingWindow) × (get id (ensure id fresh ws) ≡ some w)
get-ensure id fresh ws = elim (Option-cases (get id ws)) [
  | inl absent ↦ (
    fresh,
    rw (ensure_new id fresh ws absent, get-insert) (rw ((window_id_eq.is_same_iff id id).1 refl)),
  )
  | inr (w, there) ↦ (w, rw (ensure_old id fresh w ws there) there)
]

pub All-ensure {μ} :
    (P : WindowId × StreamingWindow → Type μ) (id : WindowId) (fresh : StreamingWindow)
    (ws : Windows)
    → All P ws
    → P (id, fresh)
    → All P (ensure id fresh ws)
All-ensure P id fresh ws all p = elim (Option-cases (get id ws)) [
  | inl absent ↦
      subst (All P) (sym (ensure_new id fresh ws absent)) (All-insert P id fresh ws all p)
  | inr (w, there) ↦ subst (All P) (sym (ensure_old id fresh w ws there)) all
]

-- What an event after the epoch gets: the window of its second, which takes it.
pub record Placed (x : TumblingWindowExecutor) (t : ℕ) (w : StreamingWindow) : Type 0 where
  pub number : ℕ
  pub starts : w.start_time ≡ since_epoch (from_secs (number * as_secs x.window_size))
  pub ends : w.end_time ≡ since_epoch (from_secs (number * as_secs x.window_size) + x.window_size)
  pub after_start : from_secs (number * as_secs x.window_size) ≤ t
  pub before_next : t < from_secs (suc number * as_secs x.window_size)

number_bounds :
    (t n s : ℕ) → 0 < s → n ≡ as_secs t / s → (from_secs (n * s) ≤ t) × (t < from_secs (suc n * s))
number_bounds t n s pos e =
    let q = as_secs t in
    omega (arith, div-add-mod q s, mod-lt q pos, mul_comm s n, ap (λ (k : ℕ). s * k) e)

-- With a window size of a second or more and aligned windows, an event at or after the epoch gets
-- an answer: a reference into the map, to the window whose whole seconds hold its time; the
-- windows stay aligned.
pub get_window_for_event-Placed :
    (x : TumblingWindowExecutor) (t : ℕ)
    → second ≤ x.window_size
    → IsAligned x
    → (id : WindowId) × (x' : TumblingWindowExecutor) × (get_window_for_event x (since_epoch t)
        ≡ ok (id, x'))
      × ((w : StreamingWindow) × (get id x'.current_windows ≡ some w) × Placed x t w)
      × IsAligned x'
unfolding get_window_for_event
get_window_for_event-Placed x t size aligned =
    let s = as_secs x.window_size in
    let number = as_secs t / s in
    let start = from_secs (number * s) in
    let fresh =
      new_window (window number) (since_epoch start) (since_epoch (start + x.window_size)) in
    let windows = ensure (window number) fresh x.current_windows in
    let (w, there) = get-ensure (window number) fresh x.current_windows in
    let all : All (Aligned x.window_size) windows =
      All-ensure (Aligned x.window_size) (window number) fresh x.current_windows aligned
        (unfold new_window in record { number = number; key = refl; starts = refl; ends = refl }) in
    let mine = All-get (Aligned x.window_size) (window number) windows w all there in
    let same : mine.number ≡ number = cc mine.key in
    let whole : (as_secs x.window_size == 0) ≡ false = ground arith in
    let (after, before) = number_bounds t number s (omega arith) refl in
    (
      window number,
      record x { current_windows = windows },
      rw (whole, there, window_of_duration),
      (
        w,
        there,
        record {
          number = mine.number;
          starts = mine.starts;
          ends = mine.ends;
          after_start = rw same after;
          before_next = rw same before;
        },
      ),
      all,
    )

-- With a window size of a second or more, the window whose whole seconds hold a time, as
-- get_window_for_event gives it, takes an event of that time.
add_event_of_Placed :
    (x : TumblingWindowExecutor) (t : ℕ) (w : StreamingWindow) (event : String)
    → second ≤ x.window_size
    → Placed x t w
    → add_event w (since_epoch t) event
      ≡ ok (record w { events = w.events ++ (since_epoch t, event) ∷ [] })
unfolding add_event
add_event_of_Placed x t w event size p =
    let s = as_secs x.window_size in
    let start = from_secs (p.number * s) in
    let room : t < start + x.window_size = omega (arith, p.before_next, suc-mul p.number s) in
    let inside : (time_lt (since_epoch t) w.start_time || time_lt w.end_time (since_epoch t))
        ≡ false =
      rw (p.starts, p.ends) (unfold time_lt in ground (arith, p.after_start)) in
    rw inside

-- With a window size below a second, get_window_for_event panics for every time at or after the
-- epoch.
get_window_for_event_panics :
    (x : TumblingWindowExecutor) (t : ℕ)
    → x.window_size < second
    → get_window_for_event x (since_epoch t) ≡ panicked
unfolding get_window_for_event window_of_duration
get_window_for_event_panics x t small =
    let none_whole : (as_secs x.window_size == 0) ≡ true = ground arith in
    rw (none_whole, window_of_duration)

abbrev pub expired : SystemTime → WindowId × StreamingWindow → Bool
expired cutoff entry = time_lt entry.1.end_time cutoff

-- The loop splits the map in two by the end of each window.
pub retain_from_lem :
    (cutoff : SystemTime) (ws : Windows)
    → retain_from cutoff ws ≡ (
      filter (λ entry. not (expired cutoff entry)) ws,
      map (λ (entry : WindowId × StreamingWindow). close entry.1) (filter (expired cutoff) ws),
    )
unfolding retain_from
retain_from_lem cutoff [] = refl
retain_from_lem cutoff ((id, w) ∷ ws) = ground (arith, retain_from_lem cutoff ws)
