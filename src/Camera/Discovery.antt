-- ===== src/Camera/Discovery.antt =====
-- SmartDashboard/src/camera/camera_discovery_aggregator.cpp, camera_publisher_discovery.cpp and
-- static_camera_source.cpp. A `QString` is a list of its code units, a `QMap` a list in the order
-- of its keys, and what an object emits is a result. The settings that the static source is kept in
-- are an argument and a result.
pub mod Maps
pub mod Clearing
pub mod Publisher
pub mod Seen
pub mod Sources
use smart_dashboard.Base.{
  ℕ, ◌+◌, ◌-◌, Bool, true, false, not, ◌&&◌, ◌||◌, List, [], ◌∷◌, ◌++◌, Option, none, some,
  if◌then◌else◌, leb, ltb, length, take, drop,
}
use smart_dashboard.Base.Eq.{bytes_IsEq, bytes_eq}
use smart_dashboard.Base.Assoc.{lookup, remove}
use smart_dashboard.Base.Ordered.{assign}

abbrev pub Text : Type 0
Text = List ℕ

abbrev pub Cameras : Type 0
Cameras = List (Text × List Text)

-- The signals of a source and of the aggregator; a source does not emit the second.
pub data Signal : Type 0 where
  camera_discovered : Text → List Text → Signal
  camera_removed : Text → Signal
  cameras_cleared : Signal

abbrev pub urls_eq : List Text → List Text → Bool
urls_eq [] [] = true
urls_eq (x ∷ xs) (y ∷ ys) = bytes_eq x y && urls_eq xs ys
urls_eq _ _ = false

-- `value(name)`: no URLs for a name that is missing.
abbrev pub or_empty : Option (List Text) → List Text
or_empty none = []
or_empty (some urls) = urls

unfoldable pub get_stream_urls : Text → Cameras → List Text
get_stream_urls name m = or_empty (lookup name m)

pub record Aggregator : Type 0 where
  pub cameras : Cameras
  pub camera_owner : List (Text × Text)
  pub clearing_all : Bool

-- "[", "]" and the space
unfoldable pub make_aggregated_name : Text → Text → Text
make_aggregated_name [] name = name
make_aggregated_name (c ∷ tag) name = (91 ∷ c ∷ tag) ++ (93 ∷ 32 ∷ name)

unfoldable pub on_provider_camera_discovered :
    Text → Text → List Text → Aggregator → Aggregator × List Signal
on_provider_camera_discovered tag name urls s =
    let key = make_aggregated_name tag name in
    if urls_eq (get_stream_urls key s.cameras) urls then (s, []) else (
      record s {
        cameras = assign key urls s.cameras;
        camera_owner = assign key tag s.camera_owner;
      },
      camera_discovered key urls ∷ [],
    )

-- The first loop of `OnProviderCamerasCleared`.
unfoldable pub owned_by : Text → List (Text × Text) → List Text
owned_by tag [] = []
owned_by tag ((key, owner) ∷ m) =
    let rest = owned_by tag m in if bytes_eq owner tag then key ∷ rest else rest

-- Its second loop.
unfoldable pub remove_all : List Text → Aggregator → Aggregator × List Signal
remove_all [] s = (s, [])
remove_all (key ∷ keys) s =
    let (s', out) =
      remove_all keys
        (record s { cameras = remove key s.cameras; camera_owner = remove key s.camera_owner }) in
    (s', camera_removed key ∷ out)

abbrev pub is_empty : Cameras → Bool
is_empty [] = true
is_empty (x ∷ m) = false

unfoldable pub on_provider_cameras_cleared : Text → Aggregator → Aggregator × List Signal
on_provider_cameras_cleared tag s =
    let (s', out) = remove_all (owned_by tag s.camera_owner) s in
    (s', out ++ (if is_empty s'.cameras && not s.clearing_all then cameras_cleared ∷ [] else []))

-- The loop of `ClearAll`: every provider, given by its tag, answers `Clear` by `CamerasCleared`.
unfoldable pub clear_providers : List Text → Aggregator → Aggregator × List Signal
clear_providers [] s = (s, [])
clear_providers (tag ∷ tags) s =
    let (s1, out1) = on_provider_cameras_cleared tag s in
    let (s2, out2) = clear_providers tags s1 in (s2, out1 ++ out2)

unfoldable pub clear_all : List Text → Aggregator → Aggregator × List Signal
clear_all tags s =
    let (s', out) = clear_providers tags (record s { clearing_all = true }) in
    (
      record s' { clearing_all = false; cameras = []; camera_owner = [] },
      out ++ (cameras_cleared ∷ []),
    )

-- The loop of `AddSource`, over the names of the source and their URLs.
unfoldable pub bootstrap : Text → Cameras → Aggregator → Aggregator × List Signal
bootstrap tag [] s = (s, [])
bootstrap tag ((name, urls) ∷ m) s =
    let (s1, out1) = on_provider_camera_discovered tag name urls s in
    let (s2, out2) = bootstrap tag m s1 in (s2, out1 ++ out2)

-- `StaticCameraSource` and `CameraPublisherDiscovery`, whose state is a map of cameras.
unfoldable pub add_camera : Text → Text → Cameras → Cameras × List Signal
add_camera name url m =
    let urls = url ∷ [] in
    if leb (length name) 0 || leb (length url) 0
    then (m, [])
    else if urls_eq (get_stream_urls name m) urls
    then (m, [])
    else (assign name urls m, camera_discovered name urls ∷ [])

unfoldable pub discover_all : Cameras → List Signal
discover_all [] = []
discover_all ((name, urls) ∷ m) = camera_discovered name urls ∷ discover_all m

unfoldable pub remove_found : Text → Option (List Text) → Cameras → Cameras × (List Signal × Bool)
remove_found name none m = (m, ([], false))
remove_found name (some urls) m =
    (remove name m, (cameras_cleared ∷ discover_all (remove name m), true))

unfoldable pub remove_camera : Text → Cameras → Cameras × (List Signal × Bool)
remove_camera name m = remove_found name (lookup name m) m

unfoldable pub clear : Cameras → Cameras × List Signal
clear m = ([], cameras_cleared ∷ [])

-- What `PersistToSettings` writes: the first URL of every camera that has one.
unfoldable pub persist_to_settings : Cameras → List (Text × Text)
persist_to_settings [] = []
persist_to_settings ((name, []) ∷ m) = persist_to_settings m
persist_to_settings ((name, url ∷ urls) ∷ m) = (name, url) ∷ persist_to_settings m

-- `trimmed` is Qt's.
unfoldable pub load_entries : (Text → Text) → List (Text × Text) → Cameras → Cameras
load_entries trimmed [] m = m
load_entries trimmed ((name, url) ∷ es) m =
    let kept = load_entries trimmed es (assign name (trimmed url ∷ []) m) in
    let skipped = load_entries trimmed es m in
    if leb (length (trimmed url)) 0 then skipped else kept

unfoldable pub load_from_settings :
    (Text → Text) → List (Text × Text) → Cameras → Cameras × List Signal
load_from_settings trimmed settings m =
    let m' = load_entries trimmed settings m in (m', discover_all m')
