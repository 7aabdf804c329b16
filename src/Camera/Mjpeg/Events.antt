-- ===== src/Camera/Mjpeg/Events.antt =====
-- Sequences of the calls and signals that reach a stream reader.
use mathlib.Core.Bool.{false≢true}
use smart_dashboard.Base.{
  ℕ, suc, ◌-◌, ◌≡◌, ◌⊎◌, inl, inr, refl, sym, subst, ap, Bool, true, false, not, List, [], ◌∷◌,
  ◌++◌, Option, none, some, leb, length, if◌then◌else◌, if_keeps, Bool-cases,
}
use smart_dashboard.Camera.Mjpeg.{parse_all}
use smart_dashboard.Camera.Mjpeg.Stream.{
  dash, State, disconnected, connecting, streaming, error, Signal, MjpegStream, same_state,
  set_state, set_error, stop, start, fail, count_frame, process_decoded, process_jpeg_frame,
  process_frames, parse_buffer, receive, first_receive, on_ready_read, on_stream_finished,
  on_stream_error,
}

same_state_eq : (a b : State) → same_state a b ≡ true → a ≡ b
same_state_eq disconnected disconnected h = refl
same_state_eq connecting connecting h = refl
same_state_eq streaming streaming h = refl
same_state_eq error error h = refl
same_state_eq a b h = absurd (false≢true h)

-- The reader either has no reply, no boundary, no bytes and is disconnected, or has a reply and is
-- connecting or streaming.
abbrev pub IsConsistent : {F : Type 0} → MjpegStream F → Type 0
IsConsistent s =
    ((s.has_reply ≡ false) × (s.state ≡ disconnected) × (s.boundary ≡ []) × (s.buffer ≡ []))
    ⊎ ((s.has_reply ≡ true) × ((s.state ≡ connecting) ⊎ (s.state ≡ streaming)))

-- The calls and signals that reach the reader, with what they carry.
pub data Event : Type 0 where
  started : Event
  stopped : Event
  ready_read : (ℕ → ℕ) → List ℕ → List ℕ → Event
  stream_finished : List ℕ → Event
  stream_error : Bool → List ℕ → Event

-- The reader has a reply and streams or connects.
abbrev IsOpen : {F : Type 0} → MjpegStream F → Type 0
IsOpen s = (s.has_reply ≡ true) × ((s.state ≡ connecting) ⊎ (s.state ≡ streaming))

module _ {F : Type 0} (I : Type 0) where
  set_state_new :
      (new : State) (s : MjpegStream F) → (set_state {I = I} new s).0 ≡ record s { state = new }
  unfolding set_state
  set_state_new new s = elim (Bool-cases (same_state s.state new)) [
    | inl y ↦ rw y (ap (λ st. record s { state = st }) (same_state_eq s.state new y))
    | inr n ↦ rw n refl
  ]

  stop-IsConsistent :
      (zero_rate : F) (s : MjpegStream F) → IsConsistent (stop {I = I} zero_rate s).0
  unfolding stop
  stop-IsConsistent zero_rate s =
      subst IsConsistent (sym (set_state_new disconnected _)) (inl (refl, refl, refl, refl))

  start-IsConsistent :
      (zero_rate : F) (s : MjpegStream F) → IsConsistent (start {I = I} zero_rate s).0
  unfolding start
  start-IsConsistent zero_rate s =
      subst (λ (t : MjpegStream F). IsConsistent (record t { has_reply = true }))
        (sym (set_state_new connecting _)) (inr (refl, inl refl))

  fail-IsConsistent :
      (zero_rate : F) (m : List ℕ) (s : MjpegStream F) → IsConsistent (fail {I = I} zero_rate m s).0
  unfolding fail
  fail-IsConsistent zero_rate m s = stop-IsConsistent zero_rate (set_error {I = I} m s).0

module _ {F I : Type 0} where
  abbrev Kept : MjpegStream F × List (Signal I) → Type 0
  Kept p = IsConsistent p.0

  module _ (decode : List ℕ → Option I) (rate : ℕ → ℕ → F) where
    count_frame-IsOpen : (ms : ℕ) (s : MjpegStream F) → IsOpen s → IsOpen (count_frame rate ms s)
    unfolding count_frame
    count_frame-IsOpen ms s h = if_keeps IsOpen (leb 1000 (ms - s.last_fps_measure_ms)) _ _ h h

    decoded-IsOpen :
        (ms : ℕ) (o : Option I) (s : MjpegStream F)
        → IsOpen s
        → IsOpen (process_decoded decode rate ms o s).0
    unfolding process_decoded
    decoded-IsOpen ms none s h = h
    decoded-IsOpen ms (some i) s h =
        count_frame-IsOpen ms (set_state {I = I} streaming s).0
          (subst IsOpen (sym (set_state_new I streaming s)) (h.0, inr refl))

    frames-IsOpen :
        (elapsed : ℕ → ℕ) (ds : List (List ℕ)) (s : MjpegStream F)
        → IsOpen s
        → IsOpen (process_frames decode rate elapsed ds s).0
    unfolding process_frames process_jpeg_frame
    frames-IsOpen elapsed [] s h = h
    frames-IsOpen elapsed (d ∷ ds) s h =
        frames-IsOpen (λ n. elapsed (suc n)) ds (process_jpeg_frame decode rate (elapsed 0) d s).0
          (decoded-IsOpen (elapsed 0) (decode d) s h)

    buffer-IsOpen :
        (elapsed : ℕ → ℕ) (s : MjpegStream F)
        → IsOpen s
        → IsOpen (parse_buffer decode rate elapsed s).0
    unfolding parse_buffer
    buffer-IsOpen elapsed s h =
        if_keeps (λ (p : MjpegStream F × List (Signal I)). IsOpen p.0) (leb (length s.boundary) 0) _
          _ h (frames-IsOpen elapsed (parse_all (dash ∷ dash ∷ s.boundary) s.buffer).0 s h)

    receive-IsOpen :
        (elapsed : ℕ → ℕ) (bytes : List ℕ) (s : MjpegStream F)
        → IsOpen s
        → IsOpen (receive decode rate elapsed bytes s).0
    unfolding receive
    receive-IsOpen elapsed bytes s h =
        buffer-IsOpen elapsed (record s { buffer = s.buffer ++ bytes }) h

    first-IsConsistent :
        (zero_rate : F) (m : List ℕ) (elapsed : ℕ → ℕ) (bytes : List ℕ) (o : Option (List ℕ))
        (s : MjpegStream F)
        → IsOpen s
        → IsConsistent (first_receive decode rate zero_rate m elapsed bytes o s).0
    unfolding first_receive
    first-IsConsistent zero_rate m elapsed bytes none s h = fail-IsConsistent I zero_rate m s
    first-IsConsistent zero_rate m elapsed bytes (some b) s h =
        inr (receive-IsOpen elapsed bytes (record s { boundary = b; boundary_parsed = true }) h)

    module _ (zero_rate : F) (parse_boundary : List ℕ → Option (List ℕ))
        (not_mjpeg : List ℕ → List ℕ) where
      unfoldable pub apply : Event → MjpegStream F → MjpegStream F × List (Signal I)
      apply started s = start zero_rate s
      apply stopped s = stop zero_rate s
      apply (ready_read elapsed content_type bytes) s =
          on_ready_read decode rate zero_rate parse_boundary not_mjpeg elapsed content_type bytes s
      apply (stream_finished message) s = on_stream_finished decode rate zero_rate message s
      apply (stream_error canceled message) s =
          on_stream_error decode rate zero_rate canceled message s

      unfoldable pub apply_all : List Event → MjpegStream F → MjpegStream F × List (Signal I)
      apply_all [] s = (s, [])
      apply_all (e ∷ es) s =
          let (s1, out1) = apply e s in let (s2, out2) = apply_all es s1 in (s2, out1 ++ out2)

      ready-IsConsistent :
          (elapsed : ℕ → ℕ) (ct bytes : List ℕ) (s : MjpegStream F)
          → IsConsistent s
          → IsConsistent
              (on_ready_read decode rate zero_rate parse_boundary not_mjpeg elapsed ct bytes s).0
      unfolding on_ready_read
      ready-IsConsistent elapsed ct bytes s (inl h) =
          subst
            (λ b.
              IsConsistent
                (if not b
                  then (s, [])
                  else if s.boundary_parsed
                  then receive decode rate elapsed bytes s
                  else if leb (length ct) 0
                  then receive decode rate elapsed bytes s
                  else (first_receive decode rate zero_rate (not_mjpeg ct) elapsed bytes
                      (parse_boundary ct) s)).0)
            (sym h.0) (inl h)
      ready-IsConsistent elapsed ct bytes s (inr h) = if_keeps Kept (not s.has_reply) _ _ (inr h) (
          if_keeps Kept s.boundary_parsed _ _ (inr (receive-IsOpen elapsed bytes s h)) (
            if_keeps Kept (leb (length ct) 0) _ _ (inr (receive-IsOpen elapsed bytes s h))
              (first-IsConsistent zero_rate (not_mjpeg ct) elapsed bytes (parse_boundary ct) s h)))

      apply-IsConsistent :
          (e : Event) (s : MjpegStream F) → IsConsistent s → IsConsistent (apply e s).0
      unfolding apply on_stream_finished on_stream_error
      apply-IsConsistent started s h = start-IsConsistent I zero_rate s
      apply-IsConsistent stopped s h = stop-IsConsistent I zero_rate s
      apply-IsConsistent (ready_read elapsed ct bytes) s h = ready-IsConsistent elapsed ct bytes s h
      apply-IsConsistent (stream_finished m) s h =
          if_keeps Kept s.has_reply _ _ (fail-IsConsistent I zero_rate m s)
            (stop-IsConsistent I zero_rate s)
      apply-IsConsistent (stream_error canceled m) s h =
          if_keeps Kept s.has_reply _ _
            (if_keeps Kept canceled _ _ h (fail-IsConsistent I zero_rate m s))
            (stop-IsConsistent I zero_rate s)

      -- Whatever calls and signals reach a consistent reader, and in whatever order, it is
      -- consistent afterwards: without a reply it is disconnected and holds no boundary and no
      -- bytes, with one it is connecting or streaming, and it is never left in the error state.
      pub apply_all-IsConsistent :
          (es : List Event) (s : MjpegStream F) → IsConsistent s → IsConsistent (apply_all es s).0
      unfolding apply_all
      apply_all-IsConsistent [] s h = h
      apply_all-IsConsistent (e ∷ es) s h =
          apply_all-IsConsistent es (apply e s).0 (apply-IsConsistent e s h)
