-- ===== src/Replay/Load.antt =====
-- Loading a replay and starting it. A file that can be read and is not blank is the object that its
-- whole text is, if it is one, and the objects of its lines.
use smart_dashboard.Base.{
  ℕ, ◌≡◌, refl, Bool, true, false, List, [], ◌∷◌, ◌++◌, Option, none, some, if◌then◌else◌, ℤ, pos,
  negsuc, subst, sym, pos_part, All, arith,
}
use smart_dashboard.Replay.{
  ReplayEvent, data_event, connection_event, marker_event, PlaybackMarker, ReplayTransport, Output,
  state, disconnected, connected, timestamp_us, int_lt, build_checkpoints, seek_playback_us,
}
use smart_dashboard.Replay.Playback.{IsSorted}
use smart_dashboard.Replay.Run.{IsReplaying}
use smart_dashboard.Replay.Parse.{
  JsonApi, AutoMarkers, parse_replay_event, parse_lines, parse_capture_session,
}

at_most_self : (t : ℤ) → int_lt (pos (pos_part t)) t ≡ false
at_most_self (pos n) = ground arith
at_most_self (negsuc n) = refl

not_below :
    (n : ℕ) (t u : ℤ) → int_lt t u ≡ false → int_lt (pos n) t ≡ false → int_lt (pos n) u ≡ false
not_below n (pos a) (pos b) h k = ground arith
not_below n (pos a) (negsuc b) h k = refl
not_below n (negsuc a) (pos b) h k = absurd (ground arith)
not_below n (negsuc a) (negsuc b) h k = refl

module _ {V : Type 0} where
  unfoldable pub last_timestamp : List (ReplayEvent V) → ℤ
  last_timestamp [] = pos 0
  last_timestamp (e ∷ []) = timestamp_us e
  last_timestamp (e ∷ x ∷ es) = last_timestamp (x ∷ es)

  unfoldable pub event_markers : List (ReplayEvent V) → List PlaybackMarker
  event_markers [] = []
  event_markers (data_event t u ∷ es) = event_markers es
  event_markers (connection_event t m ∷ es) = m ∷ event_markers es
  event_markers (marker_event t m ∷ es) = m ∷ event_markers es

  within_duration :
      (es : List (ReplayEvent V))
      → IsSorted es
      → All (λ e. int_lt (pos (pos_part (last_timestamp es))) (timestamp_us e) ≡ false) es
  unfolding IsSorted last_timestamp
  within_duration [] h = tt
  within_duration (e ∷ []) h = (at_most_self (timestamp_us e), tt)
  within_duration (e ∷ x ∷ es) h =
      let rest = within_duration (x ∷ es) h.1 in
      (not_below _ (timestamp_us x) (timestamp_us e) h.0.0 rest.0, rest)

module _ {J V D : Type 0} where
  unfoldable pub load_document :
      JsonApi J V D → Option J → AutoMarkers → List (ReplayEvent V) × AutoMarkers
  load_document q none a = ([], a)
  load_document q (some root) a = elim (parse_capture_session q root) [
    | e ∷ es ↦ (e ∷ es, a)
    | [] ↦
        let (e, a') = parse_replay_event q root a in
        elim e [ none ↦ ([], a') | some x ↦ (x ∷ [], a') ]
  ]

  unfoldable pub load_events :
      JsonApi J V D → Option J → List J → List (ReplayEvent V) × AutoMarkers
  load_events q document lines =
      let (es, a) = load_document q document (record { pending = []; last_by_key = [] }) in
      let by_lines = parse_lines q lines a in elim es [ [] ↦ by_lines | e ∷ rest ↦ (e ∷ rest, a) ]

module _ {J V D R : Type 0} where
  module _ (sort : List (ReplayEvent V) → List (ReplayEvent V))
      (sort_markers : List PlaybackMarker → List PlaybackMarker) (q : JsonApi J V D) where
    -- `sort` and `sort_markers` are `std::sort` by the timestamps.
    unfoldable pub with_events :
        List (ReplayEvent V) → AutoMarkers → ReplayTransport V R → Option (ReplayTransport V R)
    with_events [] a s = none
    with_events (e ∷ rest) a s =
        let es = sort (e ∷ rest) in
        some (record s {
          events = es;
          duration_us = pos_part (last_timestamp es);
          markers = sort_markers (event_markers es ++ a.pending);
          checkpoints = build_checkpoints es;
        })

    unfoldable pub load_replay_file :
        Option (Option J × List J) → ReplayTransport V R → Option (ReplayTransport V R)
    load_replay_file none s = none
    load_replay_file (some (document, lines)) s =
        let (loaded, a) = load_events q document lines in with_events loaded a s

    -- `one` is the rate 1.0.
    unfoldable pub start_loaded :
        R
        → ℕ
        → ReplayTransport V R
        → Option (ReplayTransport V R)
        → ReplayTransport V R × (List (Output V) × Bool)
    start_loaded one now s none = (s, (state disconnected ∷ [], false))
    start_loaded one now s (some l) =
        let (s', out) = seek_playback_us (pos 0) now (record l {
          running = true;
          playing = false;
          playback_rate = one;
          cursor_us = 0;
          next_event_index = 0;
          last_tick_us = 0;
        }) in
        (s', (state connected ∷ out, true))

    unfoldable pub start :
        R
        → Option (Option J × List J)
        → ℕ
        → ReplayTransport V R
        → ReplayTransport V R × (List (Output V) × Bool)
    start one file now s =
        let loaded = start_loaded one now s (load_replay_file file s) in
        if s.running then (s, ([], true)) else loaded

    -- The transport has loaded events in the order of their times.
    abbrev IsLoaded : ReplayTransport V R → Type 0
    IsLoaded l =
        (l.checkpoints ≡ build_checkpoints l.events)
        × IsSorted l.events
        × (l.duration_us ≡ pos_part (last_timestamp l.events))

    abbrev IfLoaded : Option (ReplayTransport V R) → Type 0
    IfLoaded none = Unit
    IfLoaded (some l) = IsLoaded l

    module _ (sorts : (es : List (ReplayEvent V)) → IsSorted (sort es)) where
      with_events-IfLoaded :
          (es : List (ReplayEvent V)) (a : AutoMarkers) (s : ReplayTransport V R)
          → IfLoaded (with_events es a s)
      unfolding with_events
      with_events-IfLoaded [] a s = tt
      with_events-IfLoaded (e ∷ es) a s = (refl, sorts (e ∷ es), refl)

      load-IfLoaded :
          (file : Option (Option J × List J)) (s : ReplayTransport V R)
          → IfLoaded (load_replay_file file s)
      unfolding load_replay_file
      load-IfLoaded none s = tt
      load-IfLoaded (some (d, js)) s =
          with_events-IfLoaded (load_events q d js).0 (load_events q d js).1 s

      -- What a start leaves of a transport that was not running.
      abbrev pub StartResult :
          R → ReplayTransport V R → ReplayTransport V R × (List (Output V) × Bool) → Type 0
      StartResult one s (s', (out, false)) = (s' ≡ s) × (out ≡ state disconnected ∷ [])
      StartResult one s (s', (out, true)) =
          (s'.running ≡ true)
          × (s'.playing ≡ false)
          × (s'.playback_rate ≡ one)
          × (s'.cursor_us ≡ 0)
          × All (λ e. int_lt (pos s'.duration_us) (timestamp_us e) ≡ false) s'.events
          × IsReplaying s'

      start_loaded-StartResult :
          (one : R) (now : ℕ) (s : ReplayTransport V R) (o : Option (ReplayTransport V R))
          → IfLoaded o
          → StartResult one s (start_loaded one now s o)
      unfolding start_loaded seek_playback_us
      start_loaded-StartResult one now s none h = (refl, refl)
      start_loaded-StartResult one now s (some l) (c, g, d) = (
        refl,
        refl,
        refl,
        omega arith,
        subst (λ n. All (λ e. int_lt (pos n) (timestamp_us e) ≡ false) l.events) (sym d)
            (within_duration l.events g),
        record { sorted = g; built = c; within = omega arith; next = refl },
      )

      -- A start of a transport that does not run either fails, reports that it is disconnected and
      -- changes nothing, or leaves it running and paused at time 0, at the given rate, with its
      -- events in the order of their times, none of them after the duration, the checkpoints of
      -- these events, and its next event the first that is not before the cursor.
      pub start-StartResult :
          (one : R) (file : Option (Option J × List J)) (now : ℕ) (s : ReplayTransport V R)
          → s.running ≡ false
          → StartResult one s (start one file now s)
      unfolding start
      start-StartResult one file now s h =
          subst
            (λ b.
              StartResult one s
                (if b then (s, ([], true)) else start_loaded one now s (load_replay_file file s)))
            (sym h)
            (start_loaded-StartResult one now s (load_replay_file file s) (load-IfLoaded file s))
