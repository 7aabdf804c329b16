-- ===== src/Replay/Seek.antt =====
-- What `SeekPlaybackUs` publishes.
use smart_dashboard.Base.{
  ℕ, ◌≡◌, refl, ◌∙◌, ap, List, [], ◌∷◌, map, Option, none, some, ℤ, take, if◌then◌else◌, arith,
}
use smart_dashboard.Base.Eq.{bytes_IsEq, bytes_eq}
use smart_dashboard.Base.Assoc.{lookup}
use smart_dashboard.Base.Ordered.{mapped, IsAscending, lookup-assign, assign-IsAscending}
use smart_dashboard.Replay.{
  VariableUpdate, ReplayEvent, LatestByKey, data_event, connection_event, marker_event, observe,
  observe_all, build_checkpoints, find_first_event_after_time, reconstruct, clamped,
  ReplayTransport, update, seek_playback_us,
}
use smart_dashboard.Replay.Checkpoints.{seek_count, reconstruct-observe_all}

module _ {V : Type 0} where
  abbrev carries : List ℕ → ReplayEvent V → Option (VariableUpdate V)
  carries k (data_event t u) = if bytes_eq u.key k then some u else none
  carries k (connection_event t m) = none
  carries k (marker_event t m) = none

  abbrev pub or_else :
      Option (VariableUpdate V) → Option (VariableUpdate V) → Option (VariableUpdate V)
  or_else none d = d
  or_else (some u) d = some u

  -- The last update of a key among the events.
  unfoldable pub last_update : List ℕ → List (ReplayEvent V) → Option (VariableUpdate V)
  last_update k [] = none
  last_update k (e ∷ es) = or_else (last_update k es) (carries k e)

  lookup-observe :
      (k : List ℕ) (e : ReplayEvent V) (m : LatestByKey V)
      → lookup k (observe e m) ≡ or_else (carries k e) (lookup k m)
  unfolding observe
  lookup-observe k (data_event t u) m = ground (arith, lookup-assign u.key k u m)
  lookup-observe k (connection_event t c) m = refl
  lookup-observe k (marker_event t c) m = refl

  or_else_assoc :
      (a b c : Option (VariableUpdate V)) → or_else a (or_else b c) ≡ or_else (or_else a b) c
  or_else_assoc none b c = refl
  or_else_assoc (some u) b c = refl

  lookup-observe_all :
      (k : List ℕ) (es : List (ReplayEvent V)) (m : LatestByKey V)
      → lookup k (observe_all es m) ≡ or_else (last_update k es) (lookup k m)
  unfolding observe_all last_update
  lookup-observe_all k [] m = refl
  lookup-observe_all k (e ∷ es) m =
      lookup-observe_all k es (observe e m)
      ∙ ap (or_else (last_update k es)) (lookup-observe k e m)
      ∙ or_else_assoc (last_update k es) (carries k e) (lookup k m)

  observe-IsAscending :
      (e : ReplayEvent V) (m : LatestByKey V) → IsAscending m → IsAscending (observe e m)
  unfolding observe
  observe-IsAscending (data_event t u) m h = assign-IsAscending u.key u m h
  observe-IsAscending (connection_event t c) m h = h
  observe-IsAscending (marker_event t c) m h = h

  observe_all-IsAscending :
      (es : List (ReplayEvent V)) (m : LatestByKey V)
      → IsAscending m
      → IsAscending (observe_all es m)
  unfolding observe_all
  observe_all-IsAscending [] m h = h
  observe_all-IsAscending (e ∷ es) m h =
      observe_all-IsAscending es (observe e m) (observe-IsAscending e m h)

  or_else-none : (a : Option (VariableUpdate V)) → or_else a none ≡ a
  or_else-none none = refl
  or_else-none (some u) = refl

  -- A seek puts the cursor at the given time, held between 0 and the duration, and the next event
  -- at the first whose time is not before it. It publishes, in the order of their keys and once for
  -- each key, the last updates of the keys among the events before that one and, if its index is
  -- a multiple of 1000, that one.
  pub seek_playback_us-last_update :
      {R : Type 0} (cursor : ℤ) (now : ℕ) (s : ReplayTransport V R)
      → s.checkpoints ≡ build_checkpoints s.events
      → let (s', out) = seek_playback_us cursor now s in
        (s'.cursor_us ≡ clamped cursor s.duration_us)
        × (s'.next_event_index ≡ find_first_event_after_time s'.cursor_us s.events)
        × ((m : LatestByKey V) × (out ≡ map update (mapped m))
            × IsAscending m
            × ((k : List ℕ)
                → lookup k m
                  ≡ last_update k (take (seek_count s'.next_event_index s.events) s.events)))
  unfolding seek_playback_us
  seek_playback_us-last_update cursor now s c = (
    refl,
    refl,
    (
      observe_all (take (seek_count t s.events) s.events) [],
      ap (λ m. map update (mapped m))
          (ap (reconstruct t s.events) c ∙ reconstruct-observe_all t s.events),
      observe_all-IsAscending _ [] (unfold IsAscending in tt),
      λ k.
          lookup-observe_all k (take (seek_count t s.events) s.events) []
          ∙ unfold lookup in or_else-none _,
    ),
  )
    where
      t : ℕ
      t = find_first_event_after_time (clamped cursor s.duration_us) s.events
