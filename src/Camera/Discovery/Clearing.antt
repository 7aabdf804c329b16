-- ===== src/Camera/Discovery/Clearing.antt =====
-- What is left when one provider has cleared its cameras.
use smart_dashboard.Base.{
  ◌≡◌, refl, ap, ◌∙◌, subst, Bool, false, ◌||◌, List, [], ◌∷◌, inl, inr, Bool-cases, if◌then◌else◌,
  Option, none, some, arith,
}
use smart_dashboard.Base.Eq.{bytes_IsEq, bytes_eq, bytes_eq_iff}
use smart_dashboard.Base.Assoc.{lookup, remove, lookup-remove}
use smart_dashboard.Base.Ordered.{IsAscending, lookup_first}
use smart_dashboard.Camera.Discovery.{
  Text, Aggregator, owned_by, remove_all, on_provider_cameras_cleared,
}
use smart_dashboard.Camera.Discovery.Maps.{AreMaps}

abbrev has_key : Text → List Text → Bool
has_key k [] = false
has_key k (j ∷ js) = bytes_eq j k || has_key k js

abbrev pub owner_is : Text → Option Text → Bool
owner_is tag none = false
owner_is tag (some owner) = bytes_eq owner tag

cameras-remove_all :
    (k : Text) (ks : List Text) (s : Aggregator)
    → lookup k (remove_all ks s).0.cameras ≡ (if has_key k ks then none else lookup k s.cameras)
unfolding remove_all
cameras-remove_all k [] s = refl
cameras-remove_all k (j ∷ ks) s = ground (
  arith,
  cameras-remove_all k ks
      (record s { cameras = remove j s.cameras; camera_owner = remove j s.camera_owner }),
  lookup-remove j k s.cameras,
)

owned_none :
    (k tag : Text) (m : List (Text × Text)) → lookup k m ≡ none → has_key k (owned_by tag m) ≡ false
unfolding owned_by lookup
owned_none k tag [] h = refl
owned_none k tag ((j, owner) ∷ m) h = ground (arith, owned_none k tag m)

has_key-owned_by :
    (k tag : Text) (m : List (Text × Text))
    → IsAscending m
    → has_key k (owned_by tag m) ≡ owner_is tag (lookup k m)
unfolding owned_by lookup IsAscending
has_key-owned_by k tag [] h = refl
has_key-owned_by k tag ((j, owner) ∷ m) h = elim (Bool-cases (bytes_eq j k)) [
  | inl y ↦
      let absent =
        owned_none k tag m
          (subst (λ i. lookup i m ≡ none) ((bytes_eq_iff j k).0 y) (lookup_first j owner m h)) in
      ground (arith, absent, y)
  | inr n ↦ ground (arith, n, has_key-owned_by k tag m h.1)
]

-- When a provider clears its cameras, the aggregator loses those that the provider's tag owns, and
-- keeps every other with its URLs.
pub cleared-cameras :
    (k tag : Text) (s : Aggregator)
    → AreMaps s
    → lookup k (on_provider_cameras_cleared tag s).0.cameras
      ≡ (if owner_is tag (lookup k s.camera_owner) then none else lookup k s.cameras)
unfolding on_provider_cameras_cleared
cleared-cameras k tag s h =
    cameras-remove_all k (owned_by tag s.camera_owner) s
    ∙ ap (λ b. if b then none else lookup k s.cameras)
        (has_key-owned_by k tag s.camera_owner h.owners)
