-- ===== src/Replay/Finish.antt =====
-- Playing a replay to its end.
use native.Mathlib.Decide.{dec_le}
use smart_dashboard.Base.{
  ℕ, ◌+◌, ◌-◌, ◌≤◌, ◌<◌, min, ◌≡◌, refl, ap, sym, ◌∙◌, subst, true, false, not, List, [], ◌∷◌, map,
  leb, le→leb, if◌then◌else◌, arith, if_keeps, ap₂, leb_ne,
}
use smart_dashboard.Replay.{ReplayTransport, Output, update, moved, advance, tick}
use smart_dashboard.Replay.Playback.{played}
use smart_dashboard.Replay.Run.{IsReplaying, apply, apply_all, ticks, ticks-Plays}

-- How far the clock's readings bring the cursor, when the loop last read it at `last`.
abbrev pub progress : {R : Type 0} → (ℕ → R → ℕ) → R → ℕ → List ℕ → ℕ
progress scaled rate last [] = 0
progress scaled rate last (now ∷ nows) = scaled (now - last) rate + progress scaled rate now nows

module _ {V R : Type 0} (scaled : ℕ → R → ℕ) (bounded : R → R) where
  -- Playback has stopped at time c.
  abbrev IsPaused : ℕ → ReplayTransport V R → Type 0
  IsPaused c s = (s.playing ≡ false) × (s.cursor_us ≡ c)

  IsPaused-tick :
      (now : ℕ) (s : ReplayTransport V R) (c : ℕ) → IsPaused c s → IsPaused c (tick scaled now s).0
  unfolding tick
  IsPaused-tick now s c h =
      if_keeps (λ (p : ReplayTransport V R × List (Output V)). IsPaused c p.0) (not s.running) _ _ h
        (subst
          (λ b.
            IsPaused c
              (if not b
                then (record s { last_tick_us = now }, [])
                else (advance (scaled (now - s.last_tick_us) s.playback_rate) now s)).0)
          (sym h.0) h)

  IsPaused-ticks :
      (nows : List ℕ) (s : ReplayTransport V R) (c : ℕ)
      → IsPaused c s
      → IsPaused c (ticks scaled bounded nows s).0
  unfolding apply_all apply
  IsPaused-ticks [] s c h = h
  IsPaused-ticks (now ∷ nows) s c h =
      IsPaused-ticks nows (tick scaled now s).0 c (IsPaused-tick now s c h)

  -- The state after a pass of a transport that plays.
  record Advanced (s s' : ReplayTransport V R) (now : ℕ) : Type 0 where
    running : s'.running ≡ true
    rate : s'.playback_rate ≡ s.playback_rate
    duration : s'.duration_us ≡ s.duration_us
    tick_at : s'.last_tick_us ≡ now
    cursor :
        s'.cursor_us
        ≡ min (s.cursor_us + scaled (now - s.last_tick_us) s.playback_rate) s.duration_us
    playing : s'.playing ≡ not (leb s.duration_us s'.cursor_us)

  tick_playing :
      (now : ℕ) (s : ReplayTransport V R)
      → s.running ≡ true
      → s.playing ≡ true
      → tick scaled now s ≡ advance (scaled (now - s.last_tick_us) s.playback_rate) now s
  unfolding tick
  tick_playing now s h k = simp (h, k) refl

  tick-Advanced :
      (now : ℕ) (s : ReplayTransport V R)
      → s.running ≡ true
      → s.playing ≡ true
      → Advanced s (tick scaled now s).0 now
  unfolding advance moved
  tick-Advanced now s h k =
      subst (λ (p : ReplayTransport V R × List (Output V)). Advanced s p.0 now)
        (sym (tick_playing now s h k))
        (record {
          running = h;
          rate = refl;
          duration = refl;
          tick_at = refl;
          cursor = refl;
          playing = refl;
        })

  ticks-IsPaused :
      (nows : List ℕ) (s : ReplayTransport V R)
      → s.running ≡ true
      → s.playing ≡ true
      → s.cursor_us < s.duration_us
      → s.duration_us ≤ s.cursor_us + progress scaled s.playback_rate s.last_tick_us nows
      → IsPaused s.duration_us (ticks scaled bounded nows s).0
  unfolding apply_all apply
  ticks-IsPaused [] s h k b d = absurd (omega arith)
  ticks-IsPaused (now ∷ nows) s h k b d = elim (dec_le s.duration_us s'.cursor_us) [
    | yes p ↦
        IsPaused-ticks nows s' s.duration_us
          (a.playing ∙ ap not (le→leb _ _ p), omega (arith, p, a.cursor))
    | no p ↦
        subst (λ d. IsPaused d (ticks scaled bounded nows s').0) a.duration
          (ticks-IsPaused nows s' a.running (a.playing ∙ ap not (leb_ne _ _ (omega arith)))
            (omega (arith, a.duration)) (omega (arith, a.duration, a.cursor, again)))
  ]
    where
      s' : ReplayTransport V R
      s' = (tick scaled now s).0

      a : Advanced s s' now
      a = tick-Advanced now s h k

      again :
          progress scaled s'.playback_rate s'.last_tick_us nows
          ≡ progress scaled s.playback_rate now nows
      again = ap₂ (λ r l. progress scaled r l nows) a.rate a.tick_at

  -- Once the clock's readings, scaled by the rate, cover what is left of a replay that plays, the
  -- passes of the loop have brought its cursor to the duration, have stopped the playback, and have
  -- published, in order and each once, the updates of the data events whose times are at least that
  -- of the first cursor and below the duration.
  pub ticks-finish :
      (nows : List ℕ) (s : ReplayTransport V R)
      → IsReplaying s
      → s.running ≡ true
      → s.playing ≡ true
      → s.cursor_us < s.duration_us
      → s.duration_us ≤ s.cursor_us + progress scaled s.playback_rate s.last_tick_us nows
      → let (s', out) = ticks scaled bounded nows s in
        (s'.playing ≡ false)
        × (s'.cursor_us ≡ s.duration_us)
        × (out ≡ map update (played s.cursor_us s.duration_us s.events))
  ticks-finish nows s i h k b d =
      let (stopped, at_end) = ticks-IsPaused nows s h k b d in
      (
        stopped,
        at_end,
        (ticks-Plays scaled bounded nows s i).0
            ∙ ap (λ c. map update (played s.cursor_us c s.events)) at_end,
      )
