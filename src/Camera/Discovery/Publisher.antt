-- ===== src/Camera/Discovery/Publisher.antt =====
-- SmartDashboard/src/camera/camera_publisher_discovery.cpp. What Qt makes of a text is a parameter.
use smart_dashboard.Base.{
  ℕ, ◌-◌, Bool, not, ◌&&◌, List, [], ◌∷◌, Option, none, some, if◌then◌else◌, leb, ◌==◌, length,
  take, drop,
}
use smart_dashboard.Base.Eq.{bytes_eq}
use smart_dashboard.Base.Ordered.{assign}
use smart_dashboard.Camera.Discovery.{
  Text, Cameras, Signal, camera_discovered, urls_eq, get_stream_urls,
}

-- A `QVariant` by the cases that `ParseStreamUrls` tells apart; the items of a list are its texts.
pub data Value : Type 0 where
  string_list : List Text → Value
  string : Text → Value
  list : List Text → Value
  other : Value

abbrev pub slash : ℕ
slash = 47

-- "/CameraPublisher/"
abbrev pub publisher_prefix : Text
publisher_prefix =
    47 ∷ 67 ∷ 97 ∷ 109 ∷ 101 ∷ 114 ∷ 97 ∷ 80 ∷ 117 ∷ 98 ∷ 108 ∷ 105 ∷ 115 ∷ 104 ∷ 101 ∷ 114 ∷ 47
    ∷ []

-- "/streams"
abbrev pub streams_suffix : Text
streams_suffix = 47 ∷ 115 ∷ 116 ∷ 114 ∷ 101 ∷ 97 ∷ 109 ∷ 115 ∷ []

abbrev pub starts_with : Text → Text → Bool
starts_with p xs = bytes_eq (take (length p) xs) p

abbrev pub ends_with : Text → Text → Bool
ends_with p xs = leb (length p) (length xs) && bytes_eq (drop (length xs - length p) xs) p

-- The text before the first slash, if there is one.
abbrev pub before_slash : Text → Option Text
before_slash [] = none
before_slash (c ∷ cs) = let rest = before_slash cs in if c == slash then some [] else keep c rest
  where
    keep : ℕ → Option Text → Option Text
    keep c none = none
    keep c (some t) = some (c ∷ t)

module _ (trimmed : Text → Text) (is_mjpg : Text → Bool) where
  -- `is_mjpg` is `startsWith("mjpg:", Qt::CaseInsensitive)`.
  unfoldable pub strip_stream_prefix : Text → Text
  strip_stream_prefix url = if is_mjpg url then drop 5 url else url

  unfoldable pub clean_urls : List Text → List Text
  clean_urls [] = []
  clean_urls (url ∷ urls) =
      let clean = strip_stream_prefix (trimmed url) in
      let rest = clean_urls urls in if leb (length clean) 0 then rest else clean ∷ rest

  unfoldable pub parse_stream_urls : Value → List Text
  parse_stream_urls (string_list urls) = clean_urls urls
  parse_stream_urls (string url) = clean_urls (url ∷ [])
  parse_stream_urls (list urls) = clean_urls urls
  parse_stream_urls other = []

  unfoldable pub update_camera : Text → List Text → Cameras → Cameras × List Signal
  update_camera name urls m =
      if urls_eq (get_stream_urls name m) urls
      then (m, [])
      else (assign name urls m, camera_discovered name urls ∷ [])

  unfoldable pub update_named : Option Text → List Text → Cameras → Cameras × List Signal
  update_named none urls m = (m, [])
  update_named (some []) urls m = (m, [])
  update_named (some (c ∷ name)) urls m = update_camera (c ∷ name) urls m

  unfoldable pub on_variable_update : Text → Value → Cameras → Cameras × List Signal
  on_variable_update key value m =
      if not (starts_with publisher_prefix key)
      then (m, [])
      else if not (ends_with streams_suffix key)
      then (m, [])
      else update_named (before_slash (drop (length publisher_prefix) key))
          (parse_stream_urls value) m
