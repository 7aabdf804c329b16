-- ===== src/Tests/Camera.antt =====
-- A stream of two frames, and two cameras.
use smart_dashboard.Base.{ℕ, ◌≡◌, inl, refl, false, List, [], ◌∷◌, ◌++◌, Option, none, some, arith}
use smart_dashboard.Base.Eq.{bytes_IsEq}
use smart_dashboard.Base.Assoc.{lookup}
use smart_dashboard.Base.Ordered.{IsAscending}
use smart_dashboard.Camera.Mjpeg.{
  index_of, header_start, frame_end, frame_between, skip_at, parse_part, parse_parts, parse_all,
}
use smart_dashboard.Camera.Mjpeg.Chunks.{parse_parts-enough, then_parse, parse_all-append}
use smart_dashboard.Camera.Mjpeg.Stream.{State, MjpegStream}
use smart_dashboard.Camera.Mjpeg.Events.{
  IsConsistent, Event, started, ready_read, stream_finished, apply_all, apply_all-IsConsistent,
}
use smart_dashboard.Camera.Discovery.{Text, Aggregator, make_aggregated_name, get_stream_urls}
use smart_dashboard.Camera.Discovery.Maps.{
  AreMaps, Op, apply_all as tell_all, discovered, cleared, all_cleared, Tells, apply_all-Tells,
}
use smart_dashboard.Camera.Discovery.Sources.{
  Agrees, SourceOp, camera_added, camera_dropped, settings_loaded, run_source, run_source-Agrees,
}

-- The marker of the boundary "b".
abbrev marker : List ℕ
marker = 45 ∷ 45 ∷ 98 ∷ []

-- A part without headers whose frame is the byte n.
abbrev part : ℕ → List ℕ
part n = marker ++ (13 ∷ 10 ∷ 88 ∷ 13 ∷ 10 ∷ 13 ∷ 10 ∷ n ∷ 13 ∷ 10 ∷ [])

abbrev stream : List ℕ
stream = part 1 ++ (part 2 ++ marker)

two_frames : parse_all marker stream ≡ ((1 ∷ []) ∷ (2 ∷ []) ∷ [], marker)
unfolding parse_all parse_parts parse_part index_of header_start skip_at frame_end frame_between
two_frames = refl

parse_all-append_example :
    parse_all marker (part 1 ++ (13 ∷ [])) ≡ then_parse marker (parse_all marker (part 1)) (13 ∷ [])
parse_all-append_example = parse_all-append marker (part 1) (13 ∷ [])

parse_parts-enough_example :
    (parse_part marker (parse_parts 40 marker stream).1 ≡ none)
    × (parse_parts 40 marker stream ≡ parse_all marker stream)
parse_parts-enough_example = parse_parts-enough 40 marker stream (omega arith)

abbrev reader : MjpegStream ℕ
reader = record {
  has_reply = false;
  state = State.disconnected;
  last_error = [];
  boundary = [];
  buffer = [];
  boundary_parsed = false;
  frame_count = 0;
  fps = 0;
  last_fps_measure_ms = 0;
}

abbrev calls : List Event
calls = started ∷ ready_read (λ n. n) (109 ∷ []) stream ∷ stream_finished (101 ∷ []) ∷ []

abbrev decode : List ℕ → Option (List ℕ)
decode bytes = some bytes

abbrev rate : ℕ → ℕ → ℕ
rate frames ms = frames

abbrev boundary_of_type : List ℕ → Option (List ℕ)
boundary_of_type t = some (98 ∷ [])

abbrev message : List ℕ → List ℕ
message t = t

apply_all-IsConsistent_example :
    IsConsistent (apply_all decode rate 0 boundary_of_type message calls reader).0
apply_all-IsConsistent_example =
    apply_all-IsConsistent decode rate 0 boundary_of_type message calls reader
      (inl (refl, refl, refl, refl))

abbrev aggregator : Aggregator
aggregator = record { cameras = []; camera_owner = []; clearing_all = false }

aggregator-AreMaps : AreMaps aggregator
unfolding IsAscending lookup
aggregator-AreMaps = record { cameras = tt; owners = tt; same = λ k. refl }

abbrev tag : Text
tag = 83 ∷ []

abbrev ops : List Op
ops =
    discovered tag (102 ∷ []) ((104 ∷ []) ∷ [])
    ∷ discovered [] (103 ∷ []) ((105 ∷ []) ∷ [])
    ∷ cleared tag
    ∷ all_cleared (tag ∷ [] ∷ [])
    ∷ []

apply_all-Tells_example : Tells aggregator (tell_all ops aggregator)
apply_all-Tells_example = apply_all-Tells ops aggregator aggregator-AreMaps

aggregator-Agrees : Agrees tag [] aggregator
unfolding make_aggregated_name get_stream_urls lookup
aggregator-Agrees = record {
  kept = (aggregator-AreMaps, λ k. refl);
  ascending = unfold IsAscending in tt;
  agrees = λ k. refl;
}

abbrev source_ops : List SourceOp
source_ops =
    settings_loaded ((103 ∷ [], 105 ∷ []) ∷ [])
    ∷ camera_added (102 ∷ []) (104 ∷ [])
    ∷ camera_dropped (102 ∷ [])
    ∷ []

abbrev as_is : Text → Text
as_is t = t

run_source-Agrees_example :
    let (m', a') = run_source as_is (λ t. false) tag source_ops ([], aggregator) in Agrees tag m' a'
run_source-Agrees_example =
    run_source-Agrees as_is (λ t. false) tag source_ops [] aggregator aggregator-Agrees
