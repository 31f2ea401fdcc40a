-- ===== src/Tests/Window.antt =====
-- The window executors of crates/statguardian-core/src/streaming.rs on concrete times.
use stat_guardian.Base.{◌↔◌, true, Memᴰ, ℕ_discrete, ◌≡◌, refl, false, none, some, [], ◌∷◌, arith}
use stat_guardian.Base.Assoc.{get, insert}
use stat_guardian.Core.Windows.{
  write_window, window_id_eq, since_epoch, WindowId, WindowId-discrete, ensure, window,
  StreamingWindow, close, ok, TumblingWindowExecutor, new_tumbling, get_window_for_event,
  close_windows_before, get_closed_windows, slide, slide_window, covers, time_lt,
  get_windows_for_event, SlidingWindowExecutor, evict_expired,
}
use stat_guardian.Core.Windows.Sliding.{
  Answered, get_windows_for_event-Answered, get_windows_for_event_diverges,
}
use stat_guardian.Core.Windows.Sweep.{IsBefore, IsSwept, Entry, close-evict-exact}
use stat_guardian.Core.Windows.Tumbling.{IsAligned, Placed, get_window_for_event-Placed}

-- Windows of 2 s, one of which is there: from 4 s to 6 s.
abbrev third : StreamingWindow
third = record {
  window_id = window 2;
  start_time = since_epoch 4_000_000_000;
  end_time = since_epoch 6_000_000_000;
  events = [];
  is_closed = false;
}

abbrev two_seconds : TumblingWindowExecutor
two_seconds = record { window_size = 2_000_000_000; current_windows = (window 2, third) ∷ [] }

two_seconds-IsAligned : IsAligned two_seconds
two_seconds-IsAligned = (record { number = 2; key = refl; starts = refl; ends = refl }, tt)

ask_third :
    get_window_for_event two_seconds (since_epoch 5_000_000_001) ≡ ok (window 2, two_seconds)
unfolding get_window_for_event get ensure WindowId-discrete ℕ_discrete
ask_third = refl

get_window_for_event-Placed_example :
    (id : WindowId) × (x' : TumblingWindowExecutor) × (get_window_for_event two_seconds
        (since_epoch 5_000_000_001)
      ≡ ok (id, x'))
    × ((w : StreamingWindow) × (get id x'.current_windows ≡ some w)
        × Placed two_seconds 5_000_000_001 w)
    × IsAligned x'
get_window_for_event-Placed_example =
    get_window_for_event-Placed two_seconds 5_000_000_001 (omega arith) two_seconds-IsAligned

third-Placed : Placed two_seconds 5_000_000_001 third
third-Placed = record {
  number = 2;
  starts = refl;
  ends = refl;
  after_start = omega arith;
  before_next = omega arith;
}

abbrev sliding_third : SlidingWindowExecutor
sliding_third = record {
  window_size = 2_000_000_000;
  slide_interval = 1_000_000_000;
  current_windows = (window 2, third) ∷ [];
}

-- A window that its user closed through the reference.
closed_third :
    get_closed_windows (write_window (window 2) (close third) two_seconds) ≡ close third ∷ []
unfolding get_closed_windows write_window close insert WindowId-discrete ℕ_discrete
closed_third = refl

close-evict-exact_example :
    IsSwept
      (since_epoch 6_000_000_001)
      two_seconds.current_windows
      (close_windows_before two_seconds (since_epoch 6_000_000_001)).1.current_windows
      (close_windows_before two_seconds (since_epoch 6_000_000_001)).0
    × IsSwept
        (since_epoch 6_000_000_001)
        sliding_third.current_windows
        (evict_expired sliding_third (since_epoch 6_000_000_001)).1.current_windows
        (evict_expired sliding_third (since_epoch 6_000_000_001)).0
    × ((w : StreamingWindow)
        → Memᴰ w
            (get_closed_windows (close_windows_before two_seconds (since_epoch 6_000_000_001)).1)
          ↔ ((w.is_closed ≡ true)
              × ((entry : Entry) × Memᴰ entry two_seconds.current_windows
                  × (¬ IsBefore entry.1.end_time (since_epoch 6_000_000_001))
                  × (w ≡ entry.1))))
close-evict-exact_example = close-evict-exact two_seconds sliding_third (since_epoch 6_000_000_001)

ask_first :
    get_window_for_event (new_tumbling 2_000_000_000) (since_epoch 4_000_000_000)
    ≡ ok (window 2, two_seconds)
unfolding get_window_for_event new_tumbling get insert ensure WindowId-discrete ℕ_discrete
ask_first = refl

-- Windows of 4 s, one a second.
abbrev four_by_one : SlidingWindowExecutor
four_by_one = record {
  window_size = 4_000_000_000;
  slide_interval = 1_000_000_000;
  current_windows = [];
}

abbrev first_slide : StreamingWindow
first_slide = record {
  window_id = slide 0 0;
  start_time = since_epoch 0;
  end_time = since_epoch 4_000_000_000;
  events = [];
  is_closed = false;
}

abbrev one_slide : SlidingWindowExecutor
one_slide = record four_by_one { current_windows = (slide 0 0, first_slide) ∷ [] }

-- The windows that start at 1 s and at 2 s also hold the time 3 s, and are not given.
ask_slides :
    get_windows_for_event 5 four_by_one (since_epoch 3_000_000_000)
    ≡ some (ok (first_slide ∷ [], one_slide))
unfolding get_windows_for_event slide_window covers evict_expired time_lt get insert ensure
    WindowId-discrete ℕ_discrete
ask_slides = refl

get_windows_for_event-Answered_example :
    Answered four_by_one 3_000_000_000
      (get_windows_for_event 5 four_by_one (since_epoch 3_000_000_000))
get_windows_for_event-Answered_example =
    get_windows_for_event-Answered 5 3_000_000_000 four_by_one (omega arith) tt (omega arith)

get_windows_for_event_diverges_example :
    get_windows_for_event 1000
      (record { window_size = 2; slide_interval = 500_000_000; current_windows = [] })
      (since_epoch 3)
    ≡ none
get_windows_for_event_diverges_example =
    get_windows_for_event_diverges 1000 3
      (record { window_size = 2; slide_interval = 500_000_000; current_windows = [] }) (omega arith)
      (omega arith)
