-- ===== src/Camera/Discovery/Seen.antt =====
-- A source's signals, and what an aggregator that has no other source knows of them.
use smart_dashboard.Base.{
  ◌≡◌, refl, sym, ap, ◌∙◌, subst, true, false, List, [], ◌∷◌, ◌++◌, inl, inr, Bool-cases,
  if◌then◌else◌, Option, none, some, arith, beq_refl, if_keeps,
}
use smart_dashboard.Base.Eq.{bytes_IsEq, bytes_eq, bytes_eq_iff}
use smart_dashboard.Base.Assoc.{lookup}
use smart_dashboard.Base.Ordered.{assign, IsAscending, lookup-assign, lookup_first, bytes_eq_refl}
use smart_dashboard.Camera.Discovery.{
  Text, Cameras, Signal, camera_discovered, camera_removed, cameras_cleared, urls_eq, or_empty,
  get_stream_urls, Aggregator, make_aggregated_name, on_provider_camera_discovered,
  on_provider_cameras_cleared, discover_all,
}
use smart_dashboard.Camera.Discovery.Maps.{AreMaps, is_some, discovered-Tells, cleared-Tells}
use smart_dashboard.Camera.Discovery.Clearing.{cleared-cameras, owner_is}

-- The signals of a source with a tag, as the aggregator receives them.
unfoldable pub deliver : Text → List Signal → Aggregator → Aggregator
deliver tag [] a = a
deliver tag (camera_discovered name urls ∷ out) a =
    deliver tag out (on_provider_camera_discovered tag name urls a).0
deliver tag (cameras_cleared ∷ out) a = deliver tag out (on_provider_cameras_cleared tag a).0
deliver tag (camera_removed name ∷ out) a = deliver tag out a

-- The URLs that the aggregator knows for a camera of the source.
abbrev pub seen : Text → Text → Aggregator → List Text
seen tag name a = get_stream_urls (make_aggregated_name tag name) a.cameras

urls_eq→eq : (xs ys : List Text) → urls_eq xs ys ≡ true → xs ≡ ys
urls_eq→eq [] [] h = refl
urls_eq→eq [] (y ∷ ys) h = cc
urls_eq→eq (x ∷ xs) [] h = cc
urls_eq→eq (x ∷ xs) (y ∷ ys) h = ground (arith, urls_eq→eq xs ys, bytes_eq_iff x y)

append_eq : (xs n k : Text) → bytes_eq (xs ++ n) (xs ++ k) ≡ bytes_eq n k
append_eq [] n k = refl
append_eq (x ∷ xs) n k = rw (beq_refl x) (append_eq xs n k)

aggregated_eq :
    (tag n k : Text)
    → bytes_eq (make_aggregated_name tag n) (make_aggregated_name tag k) ≡ bytes_eq n k
unfolding make_aggregated_name
aggregated_eq [] n k = refl
aggregated_eq (c ∷ tag) n k = append_eq (91 ∷ c ∷ tag) (93 ∷ 32 ∷ n) (93 ∷ 32 ∷ k)

pub get-assign :
    (k j : Text) (urls : List Text) (m : Cameras)
    → get_stream_urls j (assign k urls m) ≡ (if bytes_eq k j then urls else get_stream_urls j m)
unfolding get_stream_urls
get-assign k j urls m =
    ap or_empty (lookup-assign k j urls m)
    ∙ elim (Bool-cases (bytes_eq k j)) [ inl y ↦ rw y refl | inr n ↦ rw n refl ]

-- A discovery sets the URLs of its camera and of no other.
pub seen-discovered :
    (tag name k : Text) (urls : List Text) (a : Aggregator)
    → seen tag k (on_provider_camera_discovered tag name urls a).0
      ≡ (if bytes_eq name k then urls else seen tag k a)
unfolding on_provider_camera_discovered
seen-discovered tag name k urls a =
    elim (Bool-cases (urls_eq (get_stream_urls key a.cameras) urls)) [
      | inl y ↦ rw y (elim (Bool-cases (bytes_eq name k)) [
        | inl z ↦ rw z (
            subst (λ j. get_stream_urls (make_aggregated_name tag j) a.cameras ≡ urls)
              ((bytes_eq_iff name k).0 z) (urls_eq→eq _ urls y))
        | inr z ↦ rw z refl
      ])
      | inr n ↦ rw n (
          get-assign key (make_aggregated_name tag k) urls a.cameras
          ∙ ap (λ b. if b then urls else seen tag k a) (aggregated_eq tag name k))
    ]
  where
    key : Text
    key = make_aggregated_name tag name

-- Every camera of the aggregator has the tag for its owner.
abbrev pub AllOwned : Text → Aggregator → Type 0
AllOwned tag a =
    (k : Text) → owner_is tag (lookup k a.camera_owner) ≡ is_some (lookup k a.camera_owner)

owned-discovered :
    (tag name : Text) (urls : List Text) (a : Aggregator)
    → AllOwned tag a
    → AllOwned tag (on_provider_camera_discovered tag name urls a).0
unfolding on_provider_camera_discovered
owned-discovered tag name urls a h =
    let key = make_aggregated_name tag name in
    if_keeps (λ (p : Aggregator × List Signal). AllOwned tag p.0)
      (urls_eq (get_stream_urls key a.cameras) urls) (a, [])
      (
        record a {
          cameras = assign key urls a.cameras;
          camera_owner = assign key tag a.camera_owner;
        },
        camera_discovered key urls ∷ [],
      )
      h (λ k. ground (arith, lookup-assign key k tag a.camera_owner, h k, bytes_eq_refl tag))

none_if {ℓ} : {A : Type ℓ} (o : Option A) → (if is_some o then none else o) ≡ none
none_if none = refl
none_if (some a) = refl

owner_none : (tag : Text) (o : Option Text) → is_some o ≡ false → owner_is tag o ≡ is_some o
owner_none tag none h = refl
owner_none tag (some t) h = cc

-- After the only provider has cleared its cameras, the aggregator has none.
pub cleared_none :
    (tag k : Text) (a : Aggregator)
    → AreMaps a
    → AllOwned tag a
    → lookup k (on_provider_cameras_cleared tag a).0.cameras ≡ none
cleared_none tag k a h o =
    cleared-cameras k tag a h ∙ rw (o k, sym (h.same k)) (none_if (lookup k a.cameras))

owned-cleared :
    (tag : Text) (a : Aggregator)
    → AreMaps a
    → AllOwned tag a
    → AllOwned tag (on_provider_cameras_cleared tag a).0
owned-cleared tag a h o k =
    owner_none tag _
      (sym ((cleared-Tells tag a h).1.same k) ∙ ap is_some (cleared_none tag k a h o))

-- The aggregator's maps are maps, of the cameras of its only source.
abbrev pub IsOnly : Text → Aggregator → Type 0
IsOnly tag a = AreMaps a × AllOwned tag a

pub deliver-IsOnly :
    (tag : Text) (out : List Signal) (a : Aggregator)
    → IsOnly tag a
    → IsOnly tag (deliver tag out a)
unfolding deliver
deliver-IsOnly tag [] a h = h
deliver-IsOnly tag (camera_discovered name urls ∷ out) a h =
    deliver-IsOnly tag out (on_provider_camera_discovered tag name urls a).0
      ((discovered-Tells tag name urls a h.0).1, owned-discovered tag name urls a h.1)
deliver-IsOnly tag (cameras_cleared ∷ out) a h =
    deliver-IsOnly tag out (on_provider_cameras_cleared tag a).0
      ((cleared-Tells tag a h.0).1, owned-cleared tag a h.0 h.1)
deliver-IsOnly tag (camera_removed name ∷ out) a h = deliver-IsOnly tag out a h

abbrev pub over : Option (List Text) → List Text → List Text
over none urls = urls
over (some urls) rest = urls

pub deliver-discover_all :
    (tag k : Text) (m : Cameras) (a : Aggregator)
    → IsAscending m
    → seen tag k (deliver tag (discover_all m) a) ≡ over (lookup k m) (seen tag k a)
unfolding deliver discover_all lookup
deliver-discover_all tag k [] a h = refl
deliver-discover_all tag k ((name, urls) ∷ m) a h =
    deliver-discover_all tag k m (on_provider_camera_discovered tag name urls a).0
      (unfold IsAscending in h.1)
    ∙ ap (over (lookup k m)) (seen-discovered tag name k urls a)
    ∙ elim (Bool-cases (bytes_eq name k)) [
      | inl y ↦
          let absent =
            subst (λ i. lookup i m ≡ none) ((bytes_eq_iff name k).0 y)
              (lookup_first name urls m h) in
          rw (y, absent) refl
      | inr n ↦ rw n refl
    ]

pub over_empty : (o : Option (List Text)) → over o [] ≡ or_empty o
over_empty none = refl
over_empty (some urls) = refl
