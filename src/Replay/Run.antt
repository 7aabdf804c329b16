-- ===== src/Replay/Run.antt =====
-- Runs of the worker thread's loop, and sequences of the transport's operations.
use smart_dashboard.Base.{
  ℕ, ◌+◌, ◌-◌, ◌≤◌, min, ◌≡◌, refl, ap, ap₂, sym, ◌∙◌, Bool, not, List, [], ◌∷◌, ◌++◌, map,
  map-append, ℤ, arith, subst, drop, if_keeps,
}
use smart_dashboard.Replay.{
  ReplayTransport, Output, update, build_checkpoints, find_first_event_after_time, collect_updates,
  seek_playback_us, set_playback_playing, set_playback_rate, stop, moved, advance, tick,
}
use smart_dashboard.Replay.Playback.{
  IsSorted, played, played_none_self, played-append, collect-played,
}

-- The operations that the dashboard calls, and a pass of the loop, with their readings of the
-- clock.
pub data Op (R : Type 0) : Type 0 where
  run_tick : ℕ → Op R
  seek : ℤ → ℕ → Op R
  set_playing : Bool → ℕ → Op R
  set_rate : R → ℕ → Op R
  stop_now : Op R

module _ {V R : Type 0} where
  -- The transport has loaded events in the order of their times, and its next event is the first
  -- that is not before its cursor.
  pub record IsReplaying (s : ReplayTransport V R) : Type 0 where
    pub sorted : IsSorted s.events
    pub built : s.checkpoints ≡ build_checkpoints s.events
    pub within : s.cursor_us ≤ s.duration_us
    pub next : s.next_event_index ≡ find_first_event_after_time s.cursor_us s.events

  -- A step from the first state publishes the updates of the data events from the old cursor to
  -- the new one.
  abbrev pub Plays : ReplayTransport V R → ReplayTransport V R × List (Output V) → Type 0
  Plays s (s', out) =
      (out ≡ map update (played s.cursor_us s'.cursor_us s.events))
      × (s.cursor_us ≤ s'.cursor_us)
      × (s'.events ≡ s.events)
      × IsReplaying s'

  stays-Plays :
      (s s' : ReplayTransport V R)
      → s'.cursor_us ≡ s.cursor_us
      → s'.events ≡ s.events
      → IsReplaying s
      → IsReplaying s'
      → Plays s (s', [])
  stays-Plays s s' c e h h' = (
    sym (
        ap (map update)
          (ap (λ b. played s.cursor_us b s.events) c ∙ played_none_self s.cursor_us s.events)),
    omega (arith, c),
    e,
    h',
  )

  moved-Plays :
      (cursor now : ℕ) (s : ReplayTransport V R)
      → IsReplaying s
      → s.cursor_us ≤ cursor
      → cursor ≤ s.duration_us
      → Plays s (
          moved cursor now s
            (played s.cursor_us cursor s.events, find_first_event_after_time cursor s.events))
  unfolding moved
  moved-Plays cursor now s h a b =
      (refl, a, refl, record { sorted = h.sorted; built = h.built; within = b; next = refl })

  advance-Plays :
      (delta now : ℕ) (s : ReplayTransport V R) → IsReplaying s → Plays s (advance delta now s)
  unfolding advance
  advance-Plays delta now s h =
      subst (λ p. Plays s (moved cursor now s p)) (sym collected)
        (moved-Plays cursor now s h (omega (arith, h.within)) (omega arith))
    where
      cursor : ℕ
      cursor = min (s.cursor_us + delta) s.duration_us

      n : ℕ
      n = find_first_event_after_time cursor s.events

      collected :
          collect_updates s.cursor_us n s.next_event_index (drop s.next_event_index s.events)
          ≡ (played s.cursor_us cursor s.events, n)
      collected =
          ap (λ i. collect_updates s.cursor_us n s.next_event_index (drop i s.events)) h.next
          ∙ collect-played s.cursor_us cursor n 0 s.next_event_index s.events (omega arith)
              (omega (arith, h.next)) h.sorted (omega (arith, h.within))

  module _ (scaled : ℕ → R → ℕ) (bounded : R → R) where
    unfoldable pub apply : Op R → ReplayTransport V R → ReplayTransport V R × List (Output V)
    apply (run_tick now) s = tick scaled now s
    apply (seek c now) s = seek_playback_us c now s
    apply (set_playing b now) s = ((set_playback_playing b now s).0, [])
    apply (set_rate r now) s = ((set_playback_rate bounded r now s).0, [])
    apply stop_now s = stop s

    -- A sequence of operations, and what the callbacks are called with.
    unfoldable pub apply_all :
        List (Op R) → ReplayTransport V R → ReplayTransport V R × List (Output V)
    apply_all [] s = (s, [])
    apply_all (o ∷ os) s =
        let (s', out) = apply o s in let (s'', out') = apply_all os s' in (s'', out ++ out')

    tick-Plays : (now : ℕ) (s : ReplayTransport V R) → IsReplaying s → Plays s (tick scaled now s)
    unfolding tick
    tick-Plays now s h = if_keeps (Plays s) (not s.running) _ _ (stays-Plays s s refl refl h h) (
        if_keeps (Plays s) (not s.playing) _ _
          (stays-Plays s (record s { last_tick_us = now }) refl refl h
            (record { sorted = h.sorted; built = h.built; within = h.within; next = h.next }))
          (advance-Plays (scaled (now - s.last_tick_us) s.playback_rate) now s h))

    apply-IsReplaying :
        (o : Op R) (s : ReplayTransport V R) → IsReplaying s → IsReplaying (apply o s).0
    unfolding apply seek_playback_us set_playback_playing set_playback_rate stop
    apply-IsReplaying (run_tick now) s h = (tick-Plays now s h).3
    apply-IsReplaying (seek c now) s h = record {
      sorted = h.sorted;
      built = h.built;
      within = omega arith;
      next = refl;
    }
    apply-IsReplaying (set_playing b now) s h =
        if_keeps (λ (p : ReplayTransport V R × Bool). IsReplaying p.0) (not s.running) _ _ h
          (record { sorted = h.sorted; built = h.built; within = h.within; next = h.next })
    apply-IsReplaying (set_rate r now) s h =
        if_keeps (λ (p : ReplayTransport V R × Bool). IsReplaying p.0) (not s.running) _ _ h
          (record { sorted = h.sorted; built = h.built; within = h.within; next = h.next })
    apply-IsReplaying stop_now s h =
        if_keeps (λ (p : ReplayTransport V R × List (Output V)). IsReplaying p.0) (not s.running) _
          _ h (record { sorted = h.sorted; built = h.built; within = h.within; next = h.next })

    -- However the operations of a transport that has loaded its events are called between the
    -- passes of its loop, its cursor stays between 0 and the duration, its next event is the first
    -- that is not before the cursor, and its checkpoints are those of its events.
    pub apply_all-IsReplaying :
        (os : List (Op R)) (s : ReplayTransport V R)
        → IsReplaying s
        → IsReplaying (apply_all os s).0
    unfolding apply_all
    apply_all-IsReplaying [] s h = h
    apply_all-IsReplaying (o ∷ os) s h =
        apply_all-IsReplaying os (apply o s).0 (apply-IsReplaying o s h)

    -- Passes of the loop, at the readings of the clock.
    abbrev pub ticks : List ℕ → ReplayTransport V R → ReplayTransport V R × List (Output V)
    ticks nows s = apply_all (map run_tick nows) s

    joined :
        (s t : ReplayTransport V R) (p : ReplayTransport V R × List (Output V))
        (out : List (Output V))
        → IsReplaying s
        → Plays s (t, out)
        → Plays t p
        → Plays s (p.0, out ++ p.1)
    joined s t p out h (o, l, e, k) (o', l', e', k') = (
      ap₂ ◌++◌ o (o' ∙ ap (λ es. map update (played t.cursor_us p.0.cursor_us es)) e)
          ∙ sym (map-append update (played s.cursor_us t.cursor_us s.events) _)
          ∙ ap (map update)
              (played-append s.cursor_us t.cursor_us p.0.cursor_us s.events h.sorted l l'),
      omega arith,
      e' ∙ e,
      k',
    )

    -- Passes of the loop publish, in order and each once, the updates of the data events whose
    -- times are at least that of the cursor before them and below that of the cursor after them.
    pub ticks-Plays :
        (nows : List ℕ) (s : ReplayTransport V R) → IsReplaying s → Plays s (ticks nows s)
    unfolding apply_all apply
    ticks-Plays [] s h = stays-Plays s s refl refl h h
    ticks-Plays (now ∷ nows) s h =
        joined s _ (ticks nows (tick scaled now s).0) _ h (tick-Plays now s h)
          (ticks-Plays nows (tick scaled now s).0 (tick-Plays now s h).3)
