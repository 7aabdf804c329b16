-- ===== src/Camera/Mjpeg/Stream.antt =====
-- `MjpegStreamSource` of SmartDashboard/src/camera/mjpeg_stream_source.cpp. A `QString` is a list of
-- its code units. What the network answers, the decoder of images and the readings of the timer are
-- arguments, a frame rate is a `double`, whose type is a parameter, and what the object emits is a
-- result.
use smart_dashboard.Base.{
  ℕ, suc, ◌+◌, ◌-◌, ◌*◌, Bool, true, false, not, ◌&&◌, List, [], ◌∷◌, ◌++◌, map, Option, none, some,
  ltb, leb, ◌==◌, ◌>>=◌, if◌then◌else◌, length, take, drop,
}
use smart_dashboard.Camera.Mjpeg.{parse_all}

-- `CameraStreamSource::State`
pub data State : Type 0 where
  disconnected connecting streaming error : State

-- The signals of `CameraStreamSource`.
pub data Signal (I : Type 0) : Type 0 where
  state_changed : State → Signal I
  frame_ready : I → Signal I

-- `m_reply` is not the null pointer when `has_reply` is true.
pub record MjpegStream (F : Type 0) : Type 0 where
  pub has_reply : Bool
  pub state : State
  pub last_error : List ℕ
  pub boundary : List ℕ
  pub buffer : List ℕ
  pub boundary_parsed : Bool
  pub frame_count : ℕ
  pub fps : F
  pub last_fps_measure_ms : ℕ

abbrev pub same_state : State → State → Bool
same_state disconnected disconnected = true
same_state connecting connecting = true
same_state streaming streaming = true
same_state error error = true
same_state _ _ = false

abbrev pub dash : ℕ
dash = 45

abbrev pub quote : ℕ
quote = 34

abbrev starts_with : ℕ → List ℕ → Bool
starts_with c [] = false
starts_with c (x ∷ xs) = x == c

abbrev ends_with : ℕ → List ℕ → Bool
ends_with c [] = false
ends_with c (x ∷ []) = x == c
ends_with c (x ∷ y ∷ xs) = ends_with c (y ∷ xs)

unfoldable pub strip_quotes : List ℕ → List ℕ
strip_quotes b =
    if starts_with quote b && ends_with quote b then take (length b - 2) (drop 1 b) else b

unfoldable pub strip_dashes : List ℕ → List ℕ
strip_dashes [] = []
strip_dashes (c ∷ cs) = let rest = strip_dashes cs in if c == dash then rest else c ∷ cs

-- `toLatin1()`: a question mark stands for what Latin-1 lacks.
abbrev pub to_latin1 : List ℕ → List ℕ
to_latin1 cs = map (λ c. if ltb c 256 then c else 63) cs

-- The boundary from the text after `boundary=`, if there is one.
unfoldable pub boundary_of : List ℕ → Option (List ℕ)
boundary_of text =
    let b = strip_dashes (strip_quotes text) in
    if leb (length b) 0 then none else some (to_latin1 b)

-- The boundary, if the function answers true. `contains_multipart` and `boundary_index` are the
-- searches of the text that ignore case, and `trimmed` is Qt's.
unfoldable pub parse_boundary_from_content_type :
    (List ℕ → Bool) → (List ℕ → Option ℕ) → (List ℕ → List ℕ) → List ℕ → Option (List ℕ)
parse_boundary_from_content_type contains_multipart boundary_index trimmed text =
    if not (contains_multipart text)
    then none
    else (boundary_index text >>= λ i. boundary_of (trimmed (drop (i + 9) text)))

abbrev pub max_buffer_size : ℕ
max_buffer_size = 10 * 1024 * 1024

module _ {F : Type 0} where
  -- `rate` is the rate of a number of frames in a number of milliseconds.
  unfoldable pub count_frame : (ℕ → ℕ → F) → ℕ → MjpegStream F → MjpegStream F
  count_frame rate elapsed_ms s =
      let window = elapsed_ms - s.last_fps_measure_ms in
      if leb 1000 window
      then record s {
        fps = rate (suc s.frame_count) window;
        frame_count = 0;
        last_fps_measure_ms = elapsed_ms;
      }
      else record s { frame_count = suc s.frame_count }

module _ {F I : Type 0} where
  unfoldable pub set_state : State → MjpegStream F → MjpegStream F × List (Signal I)
  set_state new s =
      if same_state s.state new then (s, []) else (record s { state = new }, state_changed new ∷ [])

  unfoldable pub set_error : List ℕ → MjpegStream F → MjpegStream F × List (Signal I)
  set_error message s = set_state error (record s { last_error = message })

  -- `zero_rate` is the rate 0.0.
  unfoldable pub stop : F → MjpegStream F → MjpegStream F × List (Signal I)
  stop zero_rate s = set_state disconnected (record s {
    has_reply = false;
    buffer = [];
    boundary = [];
    boundary_parsed = false;
    frame_count = 0;
    fps = zero_rate;
  })

  unfoldable pub start : F → MjpegStream F → MjpegStream F × List (Signal I)
  start zero_rate s =
      let (s1, out1) = stop zero_rate s in
      let (s2, out2) = set_state connecting (record s1 {
        last_error = [];
        buffer = [];
        boundary = [];
        boundary_parsed = false;
        frame_count = 0;
        fps = zero_rate;
        last_fps_measure_ms = 0;
      }) in
      (record s2 { has_reply = true }, out1 ++ out2)

  -- An error, and the stop that follows it.
  unfoldable pub fail : F → List ℕ → MjpegStream F → MjpegStream F × List (Signal I)
  fail zero_rate message s =
      let (s1, out1) = set_error message s in
      let (s2, out2) = stop zero_rate s1 in (s2, out1 ++ out2)

  module _ (decode : List ℕ → Option I) (rate : ℕ → ℕ → F) where
    unfoldable pub process_decoded : ℕ → Option I → MjpegStream F → MjpegStream F × List (Signal I)
    process_decoded elapsed_ms none s = (s, [])
    process_decoded elapsed_ms (some image) s =
        let (s', out) = set_state streaming s in
        (count_frame rate elapsed_ms s', out ++ (frame_ready image ∷ []))

    unfoldable pub process_jpeg_frame : ℕ → List ℕ → MjpegStream F → MjpegStream F × List (Signal I)
    process_jpeg_frame elapsed_ms jpeg s = process_decoded elapsed_ms (decode jpeg) s

    -- The frames of a buffer in turn; `elapsed` are the readings of the timer.
    unfoldable pub process_frames :
        (ℕ → ℕ) → List (List ℕ) → MjpegStream F → MjpegStream F × List (Signal I)
    process_frames elapsed [] s = (s, [])
    process_frames elapsed (d ∷ ds) s =
        let (s1, out1) = process_jpeg_frame (elapsed 0) d s in
        let (s2, out2) = process_frames (λ n. elapsed (suc n)) ds s1 in (s2, out1 ++ out2)

    unfoldable pub capped : List ℕ → List ℕ
    capped buffer = if ltb max_buffer_size (length buffer) then [] else buffer

    unfoldable pub parse_buffer : (ℕ → ℕ) → MjpegStream F → MjpegStream F × List (Signal I)
    parse_buffer elapsed s =
        let (frames, left) = parse_all (dash ∷ dash ∷ s.boundary) s.buffer in
        let (s', out) = process_frames elapsed frames s in
        if leb (length s.boundary) 0 then (s, []) else (record s' { buffer = capped left }, out)

    unfoldable pub receive : (ℕ → ℕ) → List ℕ → MjpegStream F → MjpegStream F × List (Signal I)
    receive elapsed bytes s = parse_buffer elapsed (record s { buffer = s.buffer ++ bytes })

    -- The bytes after the boundary that was found in the content type.
    unfoldable pub first_receive :
        F
        → List ℕ
        → (ℕ → ℕ)
        → List ℕ
        → Option (List ℕ)
        → MjpegStream F
        → MjpegStream F × List (Signal I)
    first_receive zero_rate message elapsed bytes none s = fail zero_rate message s
    first_receive zero_rate message elapsed bytes (some b) s =
        receive elapsed bytes (record s { boundary = b; boundary_parsed = true })

    -- `parse_boundary` is `ParseBoundaryFromContentType`, `not_mjpeg` the message for a content
    -- type, and the lists are the content type and the bytes that the reply holds.
    unfoldable pub on_ready_read :
        F
        → (List ℕ → Option (List ℕ))
        → (List ℕ → List ℕ)
        → (ℕ → ℕ)
        → List ℕ
        → List ℕ
        → MjpegStream F
        → MjpegStream F × List (Signal I)
    on_ready_read zero_rate parse_boundary not_mjpeg elapsed content_type bytes s =
        if not s.has_reply
        then (s, [])
        else if s.boundary_parsed
        then receive elapsed bytes s
        else if leb (length content_type) 0
        then receive elapsed bytes s
        else (first_receive zero_rate (not_mjpeg content_type) elapsed bytes
            (parse_boundary content_type) s)

    -- `message` is the error's text, or the text for a stream that has ended.
    unfoldable pub on_stream_finished : F → List ℕ → MjpegStream F → MjpegStream F × List (Signal I)
    on_stream_finished zero_rate message s =
        if s.has_reply then fail zero_rate message s else stop zero_rate s

    unfoldable pub on_stream_error :
        F → Bool → List ℕ → MjpegStream F → MjpegStream F × List (Signal I)
    on_stream_error zero_rate canceled message s =
        if s.has_reply
        then (if canceled then (s, []) else fail zero_rate message s)
        else stop zero_rate s
