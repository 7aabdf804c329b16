-- ===== src/Replay.antt =====
-- `ReplayDashboardTransport` of SmartDashboard/src/transport/dashboard_transport.cpp. A value is a
-- `QVariant`, which the code only copies, and a rate is a `double`: their types are parameters, and
-- so is the product of a time and a rate. A reading of the steady clock is an argument, and what
-- the two callbacks are called with is a result. The worker thread is a sequence of `tick`.
pub mod Checkpoints
pub mod Seek
pub mod Playback
pub mod Run
pub mod Finish
pub mod Parse
pub mod Load
pub mod Numbers
use smart_dashboard.Base.{
  ℕ, String, zero, suc, ◌+◌, ◌-◌, ◌*◌, ◌/◌, ◌%◌, min, Bool, true, false, not, ◌&&◌, ◌||◌, List, [],
  ◌∷◌, ◌++◌, map, Option, none, some, ltb, leb, ◌==◌, if◌then◌else◌, ℤ, pos, negsuc, pos_part,
  length, take, drop,
}
use smart_dashboard.Base.Ordered.{assign, mapped}

pub data ConnectionState : Type 0 where
  disconnected connecting connected stale : ConnectionState

pub record VariableUpdate (V : Type 0) : Type 0 where
  pub key : List ℕ
  pub value_type : ℤ
  pub value : V
  pub seq : ℕ

pub data PlaybackMarkerKind : Type 0 where
  connect disconnect went_stale anomaly generic : PlaybackMarkerKind

pub record PlaybackMarker : Type 0 where
  pub timestamp_us : ℤ
  pub kind : PlaybackMarkerKind
  pub label : String

-- A `ReplayEvent` of each kind, with the member that the code reads of that kind.
pub data ReplayEvent (V : Type 0) : Type 0 where
  data_event : ℤ → VariableUpdate V → ReplayEvent V
  connection_event marker_event : ℤ → PlaybackMarker → ReplayEvent V

abbrev pub LatestByKey : Type 0 → Type 0
LatestByKey V = List (List ℕ × VariableUpdate V)

pub record Checkpoint (V : Type 0) : Type 0 where
  pub event_index : ℕ
  pub latest_by_key : LatestByKey V

pub record ReplayTransport (V R : Type 0) : Type 0 where
  pub running : Bool
  pub playing : Bool
  pub playback_rate : R
  pub duration_us : ℕ
  pub cursor_us : ℕ
  pub last_tick_us : ℕ
  pub next_event_index : ℕ
  pub events : List (ReplayEvent V)
  pub markers : List PlaybackMarker
  pub checkpoints : List (Checkpoint V)

-- What a callback is called with.
pub data Output (V : Type 0) : Type 0 where
  state : ConnectionState → Output V
  update : VariableUpdate V → Output V

-- `<` of `std::int64_t`.
abbrev pub int_lt : ℤ → ℤ → Bool
int_lt (pos m) (pos n) = ltb m n
int_lt (pos m) (negsuc n) = false
int_lt (negsuc m) (pos n) = true
int_lt (negsuc m) (negsuc n) = ltb n m

-- `std::clamp(cursorUs, 0, duration)`
abbrev pub clamped : ℤ → ℕ → ℕ
clamped c duration = min (pos_part c) duration

module _ {V : Type 0} where
  unfoldable pub timestamp_us : ReplayEvent V → ℤ
  timestamp_us (data_event t u) = t
  timestamp_us (connection_event t m) = t
  timestamp_us (marker_event t m) = t

  -- The loop's step: only data changes the map.
  unfoldable pub observe : ReplayEvent V → LatestByKey V → LatestByKey V
  observe (data_event t u) latest = assign u.key u latest
  observe (connection_event t m) latest = latest
  observe (marker_event t m) latest = latest

  -- The loop of `SeekPlaybackUs` over a range of events.
  unfoldable pub observe_all : List (ReplayEvent V) → LatestByKey V → LatestByKey V
  observe_all [] latest = latest
  observe_all (e ∷ es) latest = observe_all es (observe e latest)

  -- The loop of `BuildCheckpointsLocked` from event i on.
  unfoldable pub build_checkpoints_from :
      ℕ → LatestByKey V → List (ReplayEvent V) → List (Checkpoint V)
  build_checkpoints_from i latest [] = []
  build_checkpoints_from i latest (e ∷ es) =
      let latest' = observe e latest in
      let rest = build_checkpoints_from (suc i) latest' es in
      if i == 0 || i % 1000 == 0
      then (record { event_index = i; latest_by_key = latest' }) ∷ rest
      else rest

  unfoldable pub build_checkpoints : List (ReplayEvent V) → List (Checkpoint V)
  build_checkpoints es = build_checkpoints_from 0 [] es

  unfoldable pub find_checkpoint_from :
      ℕ → Option (Checkpoint V) → List (Checkpoint V) → Option (Checkpoint V)
  find_checkpoint_from index candidate [] = candidate
  find_checkpoint_from index candidate (cp ∷ cps) =
      let rest = find_checkpoint_from index (some cp) cps in
      if ltb index cp.event_index then candidate else rest

  unfoldable pub find_checkpoint_for_event : ℕ → List (Checkpoint V) → Option (Checkpoint V)
  find_checkpoint_for_event index cps = find_checkpoint_from index none cps

  -- `std::lower_bound`, on events in the order of their timestamps.
  unfoldable pub find_first_event_after_time : ℕ → List (ReplayEvent V) → ℕ
  find_first_event_after_time cursor [] = 0
  find_first_event_after_time cursor (e ∷ es) =
      let rest = find_first_event_after_time cursor es in
      if int_lt (timestamp_us e) (pos cursor) then suc rest else 0

  -- The events of index `first` to `last`, without the last.
  unfoldable pub range : ℕ → ℕ → List (ReplayEvent V) → List (ReplayEvent V)
  range first last es = drop first (take last es)

  unfoldable pub reconstruct_from : ℕ → List (ReplayEvent V) → Option (Checkpoint V) → LatestByKey V
  reconstruct_from target es none = observe_all (range 0 target es) []
  reconstruct_from target es (some cp) =
      observe_all (range cp.event_index target es) cp.latest_by_key

  unfoldable pub reconstruct : ℕ → List (ReplayEvent V) → List (Checkpoint V) → LatestByKey V
  reconstruct target es cps = reconstruct_from target es (find_checkpoint_for_event target cps)

  -- The loop of a tick, from `index` on: the updates, and the index after the loop.
  unfoldable pub collect_updates : ℕ → ℕ → ℕ → List (ReplayEvent V) → List (VariableUpdate V) × ℕ
  collect_updates old end_index index [] = ([], index)
  collect_updates old end_index index (e ∷ es) =
      let (updates, index') = collect_updates old end_index (suc index) es in
      if ltb index end_index
      then elim e [
        | data_event t u ↦ (if int_lt t (pos old) then updates else u ∷ updates, index')
        | connection_event t m ↦ (updates, index')
        | marker_event t m ↦ (updates, index')
      ]
      else ([], index)

  module _ {R : Type 0} where
    unfoldable pub seek_playback_us :
        ℤ → ℕ → ReplayTransport V R → ReplayTransport V R × List (Output V)
    seek_playback_us cursor now s =
        let c = clamped cursor s.duration_us in
        let target = find_first_event_after_time c s.events in
        let latest = reconstruct target s.events s.checkpoints in
        (
          record s { cursor_us = c; next_event_index = target; last_tick_us = now },
          map update (mapped latest),
        )

    unfoldable pub set_playback_playing :
        Bool → ℕ → ReplayTransport V R → ReplayTransport V R × Bool
    set_playback_playing is_playing now s =
        if not s.running
        then (s, false)
        else (record s { playing = is_playing; last_tick_us = now }, true)

    -- `bounded` is `std::clamp(rate, 0.05, 8.0)`.
    unfoldable pub set_playback_rate :
        (R → R) → R → ℕ → ReplayTransport V R → ReplayTransport V R × Bool
    set_playback_rate bounded rate now s =
        if not s.running
        then (s, false)
        else (record s { playback_rate = bounded rate; last_tick_us = now }, true)

    unfoldable pub stop : ReplayTransport V R → ReplayTransport V R × List (Output V)
    stop s =
        if not s.running
        then (s, [])
        else (record s { running = false; playing = false }, state disconnected ∷ [])

    -- The state after the inner loop of a pass, and what it publishes.
    unfoldable pub moved :
        ℕ
        → ℕ
        → ReplayTransport V R
        → List (VariableUpdate V) × ℕ
        → ReplayTransport V R × List (Output V)
    moved cursor now s (updates, index) = (
      record s {
        last_tick_us = now;
        cursor_us = cursor;
        next_event_index = index;
        playing = not (leb s.duration_us cursor);
      },
      map update updates,
    )

    -- A pass while playing: the cursor goes on by `delta`.
    unfoldable pub advance : ℕ → ℕ → ReplayTransport V R → ReplayTransport V R × List (Output V)
    advance delta now s =
        let cursor = min (s.cursor_us + delta) s.duration_us in
        let end_index = find_first_event_after_time cursor s.events in
        moved cursor now s (
          collect_updates s.cursor_us end_index s.next_event_index
            (drop s.next_event_index s.events))

    -- One pass of `RunPlaybackLoop`; `scaled` is the product of a time and a rate, as an integer.
    unfoldable pub tick :
        (ℕ → R → ℕ) → ℕ → ReplayTransport V R → ReplayTransport V R × List (Output V)
    tick scaled now s =
        let advanced = advance (scaled (now - s.last_tick_us) s.playback_rate) now s in
        if not s.running
        then (s, [])
        else if not s.playing
        then (record s { last_tick_us = now }, [])
        else advanced
