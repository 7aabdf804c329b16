-- ===== src/Tests/Replay.antt =====
-- A replay of three updates and a marker, at twice the speed of the clock.
use smart_dashboard.Base.{
  ℕ, ◌*◌, ◌≡◌, refl, true, false, List, [], ◌∷◌, Option, none, some, ℤ, pos, negsuc, map, take,
  if◌then◌else◌, Bool-cases, inl, inr, All, All-imp, if_keeps, arith,
}
use smart_dashboard.Base.Eq.{bytes_IsEq}
use smart_dashboard.Base.Assoc.{lookup}
use smart_dashboard.Base.Ordered.{assign, mapped, IsAscending}
use smart_dashboard.Replay.{
  ReplayEvent, data_event, marker_event, VariableUpdate, PlaybackMarkerKind, PlaybackMarker,
  LatestByKey, ReplayTransport, update, int_lt, timestamp_us, observe, observe_all,
  build_checkpoints, build_checkpoints_from, find_checkpoint_for_event, find_checkpoint_from,
  find_first_event_after_time, reconstruct, reconstruct_from, range, seek_playback_us,
}
use smart_dashboard.Replay.Checkpoints.{seek_count}
use smart_dashboard.Replay.Seek.{seek_playback_us-last_update, last_update}
use smart_dashboard.Replay.Playback.{IsSorted, played, played_event}
use smart_dashboard.Replay.Run.{
  IsReplaying, run_tick, seek, apply_all, ticks, Plays, ticks-Plays, apply_all-IsReplaying,
}
use smart_dashboard.Replay.Finish.{ticks-finish}
use smart_dashboard.Replay.Parse.{JsonApi, parse_capture_session}
use smart_dashboard.Replay.Load.{start, StartResult, start-StartResult}
use smart_dashboard.Replay.Numbers.{GoesOn, seqs_of, capture_session-GoesOn}

abbrev speed : ℕ → VariableUpdate ℕ
speed n = record { key = 83 ∷ []; value_type = pos 2; value = n; seq = n }

abbrev angle : VariableUpdate ℕ
angle = record { key = 65 ∷ []; value_type = pos 2; value = 7; seq = 1 }

abbrev events : List (ReplayEvent ℕ)
events =
    data_event (pos 0) (speed 1)
    ∷ marker_event (pos 5)
        (record { timestamp_us = pos 5; kind = PlaybackMarkerKind.went_stale; label = "stale" })
    ∷ data_event (pos 10) angle
    ∷ data_event (pos 20) (speed 2)
    ∷ []

abbrev replay : ReplayTransport ℕ ℕ
replay = record {
  running = true;
  playing = true;
  playback_rate = 2;
  duration_us = 20;
  cursor_us = 0;
  last_tick_us = 100;
  next_event_index = 0;
  events = events;
  markers = [];
  checkpoints = build_checkpoints events;
}

replay-IsReplaying : IsReplaying replay
unfolding IsSorted timestamp_us find_first_event_after_time
replay-IsReplaying = record {
  sorted = ((refl, (refl, (refl, tt))), ((refl, (refl, tt)), ((refl, tt), (tt, tt))));
  built = refl;
  within = omega arith;
  next = refl;
}

abbrev scaled : ℕ → ℕ → ℕ
scaled d rate = d * rate

abbrev bounded : ℕ → ℕ
bounded rate = rate

seek_playback_us-last_update_example :
    let (s', out) = seek_playback_us (pos 10) 100 replay in
    (s'.cursor_us ≡ 10)
    × (s'.next_event_index ≡ find_first_event_after_time s'.cursor_us events)
    × ((m : LatestByKey ℕ) × (out ≡ map update (mapped m))
        × IsAscending m
        × ((k : List ℕ)
            → lookup k m ≡ last_update k (take (seek_count s'.next_event_index events) events)))
seek_playback_us-last_update_example = seek_playback_us-last_update (pos 10) 100 replay refl

-- A seek to the start publishes the event at the start, though it is not before the cursor.
seek_start : (seek_playback_us (pos 0) 100 replay).1 ≡ update (speed 1) ∷ []
unfolding seek_playback_us reconstruct reconstruct_from find_checkpoint_for_event
    find_checkpoint_from build_checkpoints build_checkpoints_from observe observe_all range
    find_first_event_after_time timestamp_us mapped assign
seek_start = refl

apply_all-IsReplaying_example :
    IsReplaying (apply_all scaled bounded (seek (pos 30) 101 ∷ run_tick 105 ∷ []) replay).0
apply_all-IsReplaying_example =
    apply_all-IsReplaying scaled bounded (seek (pos 30) 101 ∷ run_tick 105 ∷ []) replay
      replay-IsReplaying

ticks-Plays_example : Plays replay (ticks scaled bounded (103 ∷ 106 ∷ []) replay)
ticks-Plays_example = ticks-Plays scaled bounded (103 ∷ 106 ∷ []) replay replay-IsReplaying

ticks-finish_example :
    let (s', out) = ticks scaled bounded (103 ∷ 106 ∷ 115 ∷ []) replay in
    (s'.playing ≡ false) × (s'.cursor_us ≡ 20) × (out ≡ map update (played 0 20 events))
ticks-finish_example =
    ticks-finish scaled bounded (103 ∷ 106 ∷ 115 ∷ []) replay replay-IsReplaying refl refl
      (omega arith) (omega arith)

-- The event at the duration is not among those that playback publishes.
last_unplayed : played 0 20 events ≡ speed 1 ∷ angle ∷ []
unfolding played played_event
last_unplayed = refl

insert_event : ReplayEvent ℕ → List (ReplayEvent ℕ) → List (ReplayEvent ℕ)
insert_event e [] = e ∷ []
insert_event e (x ∷ xs) =
    let rest = x ∷ insert_event e xs in
    if int_lt (timestamp_us x) (timestamp_us e) then rest else e ∷ x ∷ xs

sort : List (ReplayEvent ℕ) → List (ReplayEvent ℕ)
sort [] = []
sort (e ∷ es) = insert_event e (sort es)

abbrev NotBefore : ℤ → List (ReplayEvent ℕ) → Type 0
NotBefore t es = All (λ x. int_lt (timestamp_us x) t ≡ false) es

int_lt_asym : (t u : ℤ) → int_lt t u ≡ true → int_lt u t ≡ false
int_lt_asym (pos m) (pos n) h = ground arith
int_lt_asym (pos m) (negsuc n) h = absurd (ground arith)
int_lt_asym (negsuc m) (pos n) h = refl
int_lt_asym (negsuc m) (negsuc n) h = ground arith

int_lt_trans : (t u v : ℤ) → int_lt u t ≡ false → int_lt v u ≡ false → int_lt v t ≡ false
int_lt_trans (pos a) (pos b) (pos c) h k = ground arith
int_lt_trans (pos a) (pos b) (negsuc c) h k = absurd (ground arith)
int_lt_trans (pos a) (negsuc b) v h k = absurd (ground arith)
int_lt_trans (negsuc a) (pos b) (pos c) h k = refl
int_lt_trans (negsuc a) (pos b) (negsuc c) h k = absurd (ground arith)
int_lt_trans (negsuc a) (negsuc b) (pos c) h k = refl
int_lt_trans (negsuc a) (negsuc b) (negsuc c) h k = ground arith

insert-NotBefore :
    (t : ℤ) (e : ReplayEvent ℕ) (es : List (ReplayEvent ℕ))
    → int_lt (timestamp_us e) t ≡ false
    → NotBefore t es
    → NotBefore t (insert_event e es)
unfolding insert_event
insert-NotBefore t e [] h k = (h, tt)
insert-NotBefore t e (x ∷ xs) h k =
    if_keeps (NotBefore t) (int_lt (timestamp_us x) (timestamp_us e)) (x ∷ insert_event e xs)
      (e ∷ x ∷ xs) (k.0, insert-NotBefore t e xs h k.1) (h, k)

insert-IsSorted :
    (e : ReplayEvent ℕ) (es : List (ReplayEvent ℕ)) → IsSorted es → IsSorted (insert_event e es)
unfolding insert_event IsSorted
insert-IsSorted e [] h = (tt, tt)
insert-IsSorted e (x ∷ xs) h = elim (Bool-cases (int_lt (timestamp_us x) (timestamp_us e))) [
  | inl y ↦ rw y (
    insert-NotBefore (timestamp_us x) e xs (int_lt_asym (timestamp_us x) (timestamp_us e) y) h.0,
    insert-IsSorted e xs h.1,
  )
  | inr n ↦ rw n (
    (
      n,
      All-imp _ _ (λ z k. int_lt_trans (timestamp_us e) (timestamp_us x) (timestamp_us z) n k) xs
          h.0,
    ),
    h,
  )
]

sort-IsSorted : (es : List (ReplayEvent ℕ)) → IsSorted (sort es)
unfolding sort
sort-IsSorted [] = unfold IsSorted in tt
sort-IsSorted (e ∷ es) = insert-IsSorted e (sort es) (sort-IsSorted es)

-- An object is a number: an update of one key at that time.
abbrev api : JsonApi ℕ ℕ ℕ
api = record {
  text = λ j name fallback. fallback;
  long_long = λ j name. pos j;
  u_long_long = λ j name. j;
  key = λ j. 83 ∷ [];
  type_text = λ j. none;
  type_int = λ j. pos 2;
  boolean = λ j name. false;
  number = λ j name. j;
  variant_text = λ j name. "";
  signals = λ j.
      (record { key = 83 ∷ []; type = "double"; samples = 4 ∷ 5 ∷ [] })
      ∷ (record { key = 65 ∷ []; type = "bool"; samples = 6 ∷ [] })
      ∷ (record { key = 83 ∷ []; type = "double"; samples = 7 ∷ [] })
      ∷ [];
  normalized = λ t. t;
  contains = λ t u. false;
  key_contains = λ k t. false;
  is_low = λ d. false;
  anomaly_label = λ k. "";
  low_voltage_label = λ k d. "";
  bool_value = λ b. 0;
  double_value = λ d. d;
  string_value = λ t. 0;
}

abbrev sort_markers : List PlaybackMarker → List PlaybackMarker
sort_markers ms = ms

abbrev lines : Option (Option ℕ × List ℕ)
lines = some (none, 20 ∷ 10 ∷ [])

abbrev stopped : ReplayTransport ℕ ℕ
stopped = record replay { running = false; playing = false }

start-StartResult_example :
    StartResult sort sort_markers api sort-IsSorted 1 stopped
      (start sort sort_markers api 1 lines 50 stopped)
start-StartResult_example =
    start-StartResult sort sort_markers api sort-IsSorted 1 lines 50 stopped refl

capture_session-GoesOn_example : GoesOn 0 (seqs_of (83 ∷ []) (parse_capture_session api 0))
capture_session-GoesOn_example = capture_session-GoesOn api (83 ∷ []) 0
