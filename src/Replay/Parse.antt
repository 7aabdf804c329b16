-- ===== src/Replay/Parse.antt =====
-- Reading replay events and capture sessions. What Qt makes of a JSON object and of a text is a
-- parameter.
use text.Mathlib.Text.{◌==◌ as str_eq}
use smart_dashboard.Base.{
  ℕ, ◌+◌, ◌-◌, Bool, true, not, ◌&&◌, ◌||◌, String, List, [], ◌∷◌, ◌++◌, Option, none, some, ltb,
  if◌then◌else◌, ℤ, pos, negsuc, inc64,
}
use smart_dashboard.Base.Eq.{bytes_IsEq, bytes_eq}
use smart_dashboard.Base.Assoc.{lookup}
use smart_dashboard.Base.Ordered.{assign}
use smart_dashboard.Replay.{
  VariableUpdate, PlaybackMarkerKind, connect, disconnect, went_stale, anomaly, generic,
  PlaybackMarker, ReplayEvent, data_event, connection_event, marker_event, int_lt,
}

-- A signal of a capture session, with the samples that are objects.
pub record Signal (J : Type 0) : Type 0 where
  pub key : List ℕ
  pub type : String
  pub samples : List J

-- J is `QJsonObject`, V is `QVariant` and D is `double`.
pub record JsonApi (J V D : Type 0) : Type 0 where
  -- `value(name).toString(fallback)`
  pub text : J → String → String → String
  -- `value(name).toVariant().toLongLong()` and its unsigned companion
  pub long_long : J → String → ℤ
  pub u_long_long : J → String → ℕ
  -- `value("key").toString()`, in UTF-8
  pub key : J → List ℕ
  -- `value("valueType").toVariant()`: its text in lower case if it is one, and its integer
  pub type_text : J → Option String
  pub type_int : J → ℤ
  -- `value(name).toBool()` and `value(name).toDouble()`
  pub boolean : J → String → Bool
  pub number : J → String → D
  -- `value(name).toVariant().toString()`
  pub variant_text : J → String → String
  -- The objects of `value("signals")`, and none if it is no array.
  pub signals : J → List (Signal J)
  -- `trimmed().toLower()`
  pub normalized : String → String
  pub contains : String → String → Bool
  -- `key.toLower().contains(text)`
  pub key_contains : List ℕ → String → Bool
  -- `numericValue > 0.0 && numericValue < 7.0`
  pub is_low : D → Bool
  pub anomaly_label : List ℕ → String
  pub low_voltage_label : List ℕ → D → String
  pub bool_value : Bool → V
  pub double_value : D → V
  pub string_value : String → V

-- What parsing keeps of the automatic markers.
pub record AutoMarkers : Type 0 where
  pub pending : List PlaybackMarker
  pub last_by_key : List (List ℕ × ℤ)

-- `sd::direct::ValueType`, as integers
abbrev pub bool_type : ℤ
bool_type = pos 1

abbrev pub double_type : ℤ
double_type = pos 2

abbrev pub string_type : ℤ
string_type = pos 3

abbrev int_eq : ℤ → ℤ → Bool
int_eq m n = not (int_lt m n) && not (int_lt n m)

abbrev min_spacing_us : ℕ
min_spacing_us = 1000000

-- Addition of a natural number to a `std::int64_t`, within its bounds.
abbrev pub add_nat : ℤ → ℕ → ℤ
add_nat (pos m) n = pos (m + n)
add_nat (negsuc m) n = if ltb m n then pos (n - m - 1) else negsuc (m - n)

-- `isSpaced`
unfoldable pub is_spaced : Option ℤ → ℤ → Bool
is_spaced none t = true
is_spaced (some last) t = not (int_lt t (add_nat last 1000000))

unfoldable pub add_auto_marker : List ℕ → ℤ → Option String → AutoMarkers → AutoMarkers
add_auto_marker key t none a = a
add_auto_marker key t (some label) a =
    if is_spaced (lookup key a.last_by_key) t
    then record {
      pending = a.pending ++ (record { timestamp_us = t; kind = anomaly; label = label } ∷ []);
      last_by_key = assign key t a.last_by_key;
    }
    else a

abbrev pub or_zero : Option ℕ → ℕ
or_zero none = 0
or_zero (some n) = n

abbrev pub count_of : List ℕ → List (List ℕ × ℕ) → ℕ
count_of k m = or_zero (lookup k m)

module _ {J V D : Type 0} (q : JsonApi J V D) where
  unfoldable pub to_playback_marker_kind : String → PlaybackMarkerKind
  to_playback_marker_kind text =
      let n = q.normalized text in
      if str_eq n "connected" || str_eq n "connect"
      then connect
      else if str_eq n "disconnected" || str_eq n "disconnect"
      then disconnect
      else if str_eq n "stale"
      then went_stale
      else if q.contains n "anomaly" || (q.contains n "brownout" || q.contains n "outlier")
      then anomaly
      else generic

  unfoldable pub value_type : J → ℤ
  value_type j = elim (q.type_text j) [
    | some t ↦
        if str_eq t "bool"
        then bool_type
        else if str_eq t "double"
        then double_type
        else string_type
    | none ↦ q.type_int j
  ]

  unfoldable pub parse_update : J → VariableUpdate V
  parse_update j = record {
    key = q.key j;
    value_type = value_type j;
    value =
        if int_eq (value_type j) bool_type
        then q.bool_value (q.boolean j "value")
        else if int_eq (value_type j) double_type
        then q.double_value (q.number j "value")
        else q.string_value (q.text j "value" "");
    seq = q.u_long_long j "seq";
  }

  -- The label of the automatic marker that an update asks for.
  unfoldable pub auto_label : J → Option String
  auto_label j =
      let k = q.key j in
      let v = q.number j "value" in
      if q.boolean j "anomaly"
      then some (q.anomaly_label k)
      else if int_eq (value_type j) double_type
          && ((q.key_contains k "brownout"
                || (q.key_contains k "battery" || q.key_contains k "voltage"))
              && q.is_low v)
      then some (q.low_voltage_label k v)
      else none

  -- The event, if the function answers true.
  unfoldable pub parse_replay_event : J → AutoMarkers → Option (ReplayEvent V) × AutoMarkers
  parse_replay_event j a =
      let kind = q.text j "eventKind" "data" in
      let t = q.long_long j "timestampUs" in
      let state_text = q.text j "state" "Disconnected" in
      let marker_type = q.text j "markerType" (q.text j "type" "marker") in
      if str_eq kind "connection_state"
      then (
        some (
            connection_event t (record {
              timestamp_us = t;
              kind = to_playback_marker_kind state_text;
              label = state_text;
            })),
        a,
      )
      else if str_eq kind "marker"
      then (
        some (
            marker_event t (record {
              timestamp_us = t;
              kind = to_playback_marker_kind marker_type;
              label = q.text j "label" marker_type;
            })),
        a,
      )
      else (
        if bytes_eq (q.key j) [] then none else some (data_event t (parse_update j)),
        add_auto_marker (q.key j) t (auto_label j) a,
      )

  -- The events of the lines that hold a JSON object, in their order.
  unfoldable pub parse_lines : List J → AutoMarkers → List (ReplayEvent V) × AutoMarkers
  parse_lines [] a = ([], a)
  parse_lines (j ∷ js) a =
      let (e, a') = parse_replay_event j a in
      let (es, a'') = parse_lines js a' in elim e [ none ↦ (es, a'') | some x ↦ (x ∷ es, a'') ]

  unfoldable pub sample_update : Signal J → J → ℕ → ReplayEvent V
  sample_update g j seq =
      let make : ℤ → V → ReplayEvent V = λ type value.
        data_event (q.long_long j "t_us")
          (record { key = g.key; value_type = type; value = value; seq = seq }) in
      if str_eq g.type "bool"
      then make bool_type (q.bool_value (q.boolean j "value"))
      else if str_eq g.type "double"
      then make double_type (q.double_value (q.number j "value"))
      else make string_type (q.string_value (q.variant_text j "value"))

  -- The inner loop, from the sequence number `seq` of the key on.
  unfoldable pub parse_samples : Signal J → ℕ → List J → List (ReplayEvent V) × ℕ
  parse_samples g seq [] = ([], seq)
  parse_samples g seq (j ∷ js) =
      let (es, last) = parse_samples g (inc64 seq) js in (sample_update g j (inc64 seq) ∷ es, last)

  -- The loop over the signals; `seq_by_key` is its map.
  unfoldable pub parse_signals : List (Signal J) → List (List ℕ × ℕ) → List (ReplayEvent V)
  parse_signals [] seq_by_key = []
  parse_signals (g ∷ gs) seq_by_key =
      let (es, last) = parse_samples g (count_of g.key seq_by_key) g.samples in
      let rest = parse_signals gs (assign g.key last seq_by_key) in
      let skipped = parse_signals gs seq_by_key in if bytes_eq g.key [] then skipped else es ++ rest

  unfoldable pub parse_capture_session : J → List (ReplayEvent V)
  parse_capture_session root = parse_signals (q.signals root) []
