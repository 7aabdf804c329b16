-- ===== src/Camera/Discovery/Maps.antt =====
-- The aggregator's two maps, and what its signals tell.
use smart_dashboard.Base.{
  ◌≡◌, refl, ap, ◌∙◌, Bool, true, false, not, ◌&&◌, List, [], ◌∷◌, ◌++◌, if◌then◌else◌, if_keeps,
  Option, none, some, arith,
}
use smart_dashboard.Base.Eq.{bytes_IsEq}
use smart_dashboard.Base.Assoc.{lookup, remove, lookup-remove}
use smart_dashboard.Base.Ordered.{
  assign, IsAscending, lookup-assign, assign-IsAscending, remove-IsAscending,
}
use smart_dashboard.Camera.Discovery.{
  Text, Cameras, Signal, camera_discovered, camera_removed, cameras_cleared, urls_eq,
  get_stream_urls, Aggregator, make_aggregated_name, on_provider_camera_discovered, owned_by,
  remove_all, is_empty, on_provider_cameras_cleared, clear_providers, clear_all, bootstrap,
}

-- What a listener that keeps a map of its own does with the signals.
unfoldable pub listen : Cameras → List Signal → Cameras
listen m [] = m
listen m (camera_discovered name urls ∷ out) = listen (assign name urls m) out
listen m (camera_removed name ∷ out) = listen (remove name m) out
listen m (cameras_cleared ∷ out) = listen [] out

listen-append : (m : Cameras) (xs ys : List Signal) → listen m (xs ++ ys) ≡ listen (listen m xs) ys
unfolding listen
listen-append m [] ys = refl
listen-append m (camera_discovered name urls ∷ xs) ys = listen-append (assign name urls m) xs ys
listen-append m (camera_removed name ∷ xs) ys = listen-append (remove name m) xs ys
listen-append m (cameras_cleared ∷ xs) ys = listen-append [] xs ys

abbrev pub is_some {ℓ} : {A : Type ℓ} → Option A → Bool
is_some none = false
is_some (some a) = true

-- Both maps are in the order of their keys and have the same keys.
pub record AreMaps (s : Aggregator) : Type 0 where
  pub cameras : IsAscending s.cameras
  pub owners : IsAscending s.camera_owner
  pub same : (k : Text) → is_some (lookup k s.cameras) ≡ is_some (lookup k s.camera_owner)

-- The operations of the aggregator, with what they are called with.
pub data Op : Type 0 where
  discovered : Text → Text → List Text → Op
  cleared : Text → Op
  all_cleared : List Text → Op
  source_added : Text → Cameras → Op

unfoldable pub apply : Op → Aggregator → Aggregator × List Signal
apply (discovered tag name urls) s = on_provider_camera_discovered tag name urls s
apply (cleared tag) s = on_provider_cameras_cleared tag s
apply (all_cleared tags) s = clear_all tags s
apply (source_added tag m) s = bootstrap tag m s

unfoldable pub apply_all : List Op → Aggregator → Aggregator × List Signal
apply_all [] s = (s, [])
apply_all (o ∷ os) s =
    let (s1, out1) = apply o s in let (s2, out2) = apply_all os s1 in (s2, out1 ++ out2)

-- A step that keeps the maps maps, and whose signals tell a listener the new map of cameras.
abbrev pub Tells : Aggregator → Aggregator × List Signal → Type 0
Tells s (s', out) = (listen s.cameras out ≡ s'.cameras) × AreMaps s'

then-Tells :
    (s s1 : Aggregator) (out1 : List Signal) (p : Aggregator × List Signal)
    → Tells s (s1, out1)
    → Tells s1 p
    → Tells s (p.0, out1 ++ p.1)
then-Tells s s1 out1 p a b =
    (listen-append s.cameras out1 p.1 ∙ ap (λ m. listen m p.1) a.0 ∙ b.0, b.1)

assign-AreMaps :
    (key tag : Text) (urls : List Text) (s : Aggregator)
    → AreMaps s
    → AreMaps (record s {
      cameras = assign key urls s.cameras;
      camera_owner = assign key tag s.camera_owner;
    })
assign-AreMaps key tag urls s h = record {
  cameras = assign-IsAscending key urls s.cameras h.cameras;
  owners = assign-IsAscending key tag s.camera_owner h.owners;
  same = λ k.
      ground (
        arith,
        lookup-assign key k urls s.cameras,
        lookup-assign key k tag s.camera_owner,
        h.same k,
      );
}

remove-AreMaps :
    (key : Text) (s : Aggregator)
    → AreMaps s
    → AreMaps
        (record s { cameras = remove key s.cameras; camera_owner = remove key s.camera_owner })
remove-AreMaps key s h = record {
  cameras = remove-IsAscending key s.cameras h.cameras;
  owners = remove-IsAscending key s.camera_owner h.owners;
  same = λ k.
      ground (arith, lookup-remove key k s.cameras, lookup-remove key k s.camera_owner, h.same k);
}

pub discovered-Tells :
    (tag name : Text) (urls : List Text) (s : Aggregator)
    → AreMaps s
    → Tells s (on_provider_camera_discovered tag name urls s)
unfolding on_provider_camera_discovered listen
discovered-Tells tag name urls s h =
    let key = make_aggregated_name tag name in
    if_keeps (Tells s) (urls_eq (get_stream_urls key s.cameras) urls) (s, [])
      (
        record s {
          cameras = assign key urls s.cameras;
          camera_owner = assign key tag s.camera_owner;
        },
        camera_discovered key urls ∷ [],
      )
      (refl, h) (refl, assign-AreMaps key tag urls s h)

remove_all-Tells : (ks : List Text) (s : Aggregator) → AreMaps s → Tells s (remove_all ks s)
unfolding remove_all listen
remove_all-Tells [] s h = (refl, h)
remove_all-Tells (k ∷ ks) s h =
    let rest = remove_all-Tells ks _ (remove-AreMaps k s h) in (rest.0, rest.1)

when_empty :
    (b : Bool) (m : Cameras) → listen m (if is_empty m && b then cameras_cleared ∷ [] else []) ≡ m
unfolding listen
when_empty true [] = refl
when_empty false [] = refl
when_empty b (x ∷ m) = refl

Tells-empty :
    (b : Bool) (s s' : Aggregator) (out : List Signal)
    → Tells s (s', out)
    → Tells s (s', out ++ (if is_empty s'.cameras && b then cameras_cleared ∷ [] else []))
Tells-empty b s s' out h = then-Tells s s' out (s', _) h (when_empty b s'.cameras, h.1)

pub cleared-Tells :
    (tag : Text) (s : Aggregator) → AreMaps s → Tells s (on_provider_cameras_cleared tag s)
unfolding on_provider_cameras_cleared
cleared-Tells tag s h =
    Tells-empty (not s.clearing_all) s _ _ (remove_all-Tells (owned_by tag s.camera_owner) s h)

providers-Tells : (tags : List Text) (s : Aggregator) → AreMaps s → Tells s (clear_providers tags s)
unfolding clear_providers
providers-Tells [] s h = (unfold listen in refl, h)
providers-Tells (tag ∷ tags) s h =
    let first = cleared-Tells tag s h in
    then-Tells s _ _ (clear_providers tags (on_provider_cameras_cleared tag s).0) first
      (providers-Tells tags _ first.1)

clear_all-Tells : (tags : List Text) (s : Aggregator) → AreMaps s → Tells s (clear_all tags s)
unfolding clear_all listen
clear_all-Tells tags s h =
    let p = clear_providers tags (record s { clearing_all = true }) in
    (
      listen-append s.cameras p.1 (cameras_cleared ∷ []),
      record {
        cameras = unfold IsAscending in tt;
        owners = unfold IsAscending in tt;
        same = λ k. unfold lookup in refl;
      },
    )

bootstrap-Tells :
    (tag : Text) (m : Cameras) (s : Aggregator) → AreMaps s → Tells s (bootstrap tag m s)
unfolding bootstrap
bootstrap-Tells tag [] s h = (unfold listen in refl, h)
bootstrap-Tells tag ((name, urls) ∷ m) s h =
    let first = discovered-Tells tag name urls s h in
    then-Tells s _ _ (bootstrap tag m (on_provider_camera_discovered tag name urls s).0) first
      (bootstrap-Tells tag m _ first.1)

apply-Tells : (o : Op) (s : Aggregator) → AreMaps s → Tells s (apply o s)
unfolding apply
apply-Tells (discovered tag name urls) s h = discovered-Tells tag name urls s h
apply-Tells (cleared tag) s h = cleared-Tells tag s h
apply-Tells (all_cleared tags) s h = clear_all-Tells tags s h
apply-Tells (source_added tag m) s h = bootstrap-Tells tag m s h

-- Whatever the aggregator's operations are, and in whatever order, a listener that starts from its
-- map of cameras and follows its signals has its map afterwards, and the aggregator's two maps stay
-- in the order of their keys and have the same keys.
pub apply_all-Tells : (os : List Op) (s : Aggregator) → AreMaps s → Tells s (apply_all os s)
unfolding apply_all
apply_all-Tells [] s h = (unfold listen in refl, h)
apply_all-Tells (o ∷ os) s h =
    let first = apply-Tells o s h in
    then-Tells s _ _ (apply_all os (apply o s).0) first (apply_all-Tells os _ first.1)
