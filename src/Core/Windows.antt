-- ===== src/Core/Windows.antt =====
-- crates/statguardian-core/src/streaming.rs: windows over event time.
-- A `Duration` is its nanoseconds. The ids `window_{n}` and `sliding_{k}_{s}` are the numbers that
-- their texts show.
pub mod Tumbling
pub mod Sweep
pub mod Sliding
use stat_guardian.Base.{
  ℕ, zero, suc, ◌+◌, ◌-◌, ◌*◌, ◌/◌, String, ◌≡◌, refl, Bool, true, false, not, ◌&&◌, ◌||◌, Option,
  none, some, List, [], ◌∷◌, ◌++◌, length, map, filter, Eq, ◌==◌, nat_eq, eq_of_discrete,
  ℕ_discrete, if◌then◌else◌, ltb, leb,
}
use stat_guardian.Base.Assoc.{get, insert}

-- Nanoseconds after the epoch, or (one less than) before it.
pub data SystemTime : Type 0 where
  since_epoch : ℕ → SystemTime
  before_epoch : ℕ → SystemTime

unfoldable pub time_lt : SystemTime → SystemTime → Bool
time_lt (since_epoch a) (since_epoch b) = ltb a b
time_lt (since_epoch a) (before_epoch b) = false
time_lt (before_epoch a) (since_epoch b) = true
time_lt (before_epoch a) (before_epoch b) = ltb b a

-- `time + duration`
unfoldable pub add_time : SystemTime → ℕ → SystemTime
add_time (since_epoch a) d = since_epoch (a + d)
add_time (before_epoch a) d = if leb d a then before_epoch (a - d) else since_epoch (d - a - 1)

abbrev pub second : ℕ
second = 1_000_000_000

abbrev pub as_secs : ℕ → ℕ
as_secs d = d / 1_000_000_000

abbrev pub from_secs : ℕ → ℕ
from_secs s = s * 1_000_000_000

pub data WindowType : Type 0 where
  tumbling : ℕ → WindowType
  sliding : (size slide : ℕ) → WindowType
  session : ℕ → WindowType

pub record StreamConfig : Type 0 where
  pub window : WindowType
  pub watermark : Option ℕ
  pub allowed_lateness : Option ℕ

pub data WindowId : Type 0 where
  window : ℕ → WindowId
  slide : (count start : ℕ) → WindowId

unfoldable pub WindowId-discrete : Discrete WindowId
WindowId-discrete = hlevel ℕ_discrete

instance abbrev pub window_id_eq : Eq WindowId
window_id_eq = eq_of_discrete WindowId-discrete

pub record StreamingWindow : Type 0 where
  pub window_id : WindowId
  pub start_time : SystemTime
  pub end_time : SystemTime
  pub events : List (SystemTime × String)
  pub is_closed : Bool

-- A division by zero panics.
pub data Outcome {ℓ} (A : Type ℓ) : Type ℓ where
  ok : A → Outcome A
  err : String → Outcome A
  panicked : Outcome A

unfoldable pub new_window : WindowId → SystemTime → SystemTime → StreamingWindow
new_window id start end_time = record {
  window_id = id;
  start_time = start;
  end_time = end_time;
  events = [];
  is_closed = false;
}

-- On an error the window is as it was.
unfoldable pub add_event : StreamingWindow → SystemTime → String → Outcome StreamingWindow
unfolding time_lt
add_event w timestamp event =
    if time_lt timestamp w.start_time || time_lt w.end_time timestamp
    then err "Event timestamp outside window bounds"
    else ok (record w { events = w.events ++ (timestamp, event) ∷ [] })

unfoldable pub close : StreamingWindow → StreamingWindow
close w = record w { is_closed = true }

unfoldable pub event_count : StreamingWindow → ℕ
event_count w = length w.events

-- A `HashMap`, whose order no result but that of the closed windows shows.
abbrev pub Windows : Type 0
Windows = List (WindowId × StreamingWindow)

-- `duration_since(UNIX_EPOCH)` with its error as text
unfoldable pub since_unix_epoch : SystemTime → Outcome ℕ
since_unix_epoch (since_epoch t) = ok t
since_unix_epoch (before_epoch t) = err "second time provided was later than self"

-- `contains_key`, `insert`, `get`
unfoldable pub ensure : WindowId → StreamingWindow → Windows → Windows
ensure id fresh windows = elim (get id windows) [
  | some _ ↦ windows
  | none ↦ insert id fresh windows
]

-- The windows that `retain` keeps, and clones of those that it closes and drops.
unfoldable pub retain_from : SystemTime → Windows → Windows × List StreamingWindow
retain_from cutoff [] = ([], [])
retain_from cutoff ((id, w) ∷ ws) =
    let rest = retain_from cutoff ws in
    if time_lt w.end_time cutoff then (rest.0, close w ∷ rest.1) else ((id, w) ∷ rest.0, rest.1)

pub record TumblingWindowExecutor : Type 0 where
  pub window_size : ℕ
  pub current_windows : Windows

unfoldable pub new_tumbling : ℕ → TumblingWindowExecutor
new_tumbling window_size = record { window_size = window_size; current_windows = [] }

-- What a caller makes of a window through the reference `&mut` that it got, which is the key of the
-- window in the map: the window there is `w` afterwards.
unfoldable pub write_window :
    WindowId → StreamingWindow → TumblingWindowExecutor → TumblingWindowExecutor
write_window id w x = record x { current_windows = insert id w x.current_windows }

-- The part once the time is known, with `get_mut(..).unwrap()`.
unfoldable pub window_of_duration :
    TumblingWindowExecutor → ℕ → Outcome (WindowId × TumblingWindowExecutor)
unfolding new_window
window_of_duration x duration_since_epoch =
    let window_number = as_secs duration_since_epoch / as_secs x.window_size in
    let start = from_secs (window_number * as_secs x.window_size) in
    let fresh =
      new_window (window window_number) (since_epoch start) (since_epoch (start + x.window_size)) in
    let windows = ensure (window window_number) fresh x.current_windows in
    if as_secs x.window_size == 0 then panicked else elim (get (window window_number) windows) [
      | some w ↦ ok (window window_number, record x { current_windows = windows })
      | none ↦ panicked
    ]

unfoldable pub get_window_for_event :
    TumblingWindowExecutor → SystemTime → Outcome (WindowId × TumblingWindowExecutor)
unfolding since_unix_epoch window_of_duration
get_window_for_event x timestamp = elim (since_unix_epoch timestamp) [
  | ok duration_since_epoch ↦ window_of_duration x duration_since_epoch
  | err e ↦ err e
  | panicked ↦ panicked
]

unfoldable pub close_windows_before :
    TumblingWindowExecutor → SystemTime → List StreamingWindow × TumblingWindowExecutor
unfolding retain_from
close_windows_before x cutoff_time =
    let (kept, closed) = retain_from cutoff_time x.current_windows in
    (closed, record x { current_windows = kept })

unfoldable pub get_closed_windows : TumblingWindowExecutor → List StreamingWindow
get_closed_windows x =
    filter (λ w. w.is_closed)
      (map (λ (entry : WindowId × StreamingWindow). entry.1) x.current_windows)

pub record SlidingWindowExecutor : Type 0 where
  pub window_size : ℕ
  pub slide_interval : ℕ
  pub current_windows : Windows

unfoldable pub new_sliding : ℕ → ℕ → SlidingWindowExecutor
new_sliding window_size slide_interval = record {
  window_size = window_size;
  slide_interval = slide_interval;
  current_windows = [];
}

-- The start of slide `k`, in seconds, and its window.
abbrev pub slide_start : SlidingWindowExecutor → ℕ → ℕ
slide_start x k = k * as_secs x.slide_interval

unfoldable pub slide_window : SlidingWindowExecutor → ℕ → StreamingWindow
unfolding new_window
slide_window x k =
    let start = from_secs (slide_start x k) in
    new_window (slide k (slide_start x k)) (since_epoch start) (since_epoch (start + x.window_size))

-- `timestamp >= window_start && timestamp <= window_end`
unfoldable pub covers : StreamingWindow → SystemTime → Bool
unfolding time_lt
covers w timestamp = not (time_lt timestamp w.start_time) && not (time_lt w.end_time timestamp)

abbrev pub found : Option StreamingWindow → List StreamingWindow
found none = []
found (some w) = w ∷ []

-- The windows of a round before those of the later rounds.
abbrev pub put_before :
    List StreamingWindow
    → Option (List StreamingWindow × SlidingWindowExecutor)
    → Option (List StreamingWindow × SlidingWindowExecutor)
put_before here none = none
put_before here (some (ws, x)) = some (here ++ ws, x)

-- The `loop`, from `slide_count` on; `none` means that the fuel ran out.
unfoldable pub slide_loop :
    ℕ
    → SlidingWindowExecutor
    → SystemTime
    → ℕ
    → Option (List StreamingWindow × SlidingWindowExecutor)
unfolding slide_window covers ensure
slide_loop zero x timestamp slide_count = none
slide_loop (suc fuel) x timestamp slide_count =
    let w = slide_window x slide_count in
    let windows = ensure w.window_id w x.current_windows in
    let hit = covers w timestamp in
    let x' = if hit then record x { current_windows = windows } else x in
    let here = if hit then found (get w.window_id windows) else [] in
    let rest = slide_loop fuel x' timestamp (slide_count + 1) in
    if time_lt timestamp w.end_time then some (here, x') else put_before here rest

unfoldable pub evict_expired :
    SlidingWindowExecutor → SystemTime → List StreamingWindow × SlidingWindowExecutor
unfolding retain_from
evict_expired x cutoff_time =
    let (kept, evicted) = retain_from cutoff_time x.current_windows in
    (evicted, record x { current_windows = kept })

unfoldable pub get_windows_for_event :
    ℕ
    → SlidingWindowExecutor
    → SystemTime
    → Option (Outcome (List StreamingWindow × SlidingWindowExecutor))
unfolding since_unix_epoch slide_loop evict_expired
get_windows_for_event fuel x timestamp = elim (since_unix_epoch timestamp) [
  | ok _ ↦ elim (slide_loop fuel x timestamp 0) [
    | none ↦ none
    | some (windows, x') ↦ some (ok (windows, (evict_expired x' timestamp).1))
  ]
  | err e ↦ some (err e)
  | panicked ↦ some panicked
]
