-- ===== src/NativeLink/Sessions/Snapshot.antt =====
-- What a snapshot tells the client that connects.
use smart_dashboard.Base.{
  ℕ, suc, ◌%◌, ◌^◌, ◌<◌, ◌≡◌, ◌↔◌, refl, sym, ◌∙◌, ap, ap₂, append-nil, Bool, true, false, ◌&&◌,
  String, List, [], ◌∷◌, ◌++◌, none, some, if◌then◌else◌, is_positive, pos_part, arith, map,
  Bool-cases, inl, inr,
}
use smart_dashboard.NativeLink.Types.{
  TopicKind, RetentionMode, DeliveryKind, FreshnessReason, TopicValue, TopicDescriptor,
  UpdateEnvelope, SnapshotEvent, TopicRuntime, NativeLinkCore,
}
use smart_dashboard.NativeLink.Topics.{is_state, is_latest_value}
use smart_dashboard.NativeLink.Events.{age_ms, build_envelope}
use smart_dashboard.NativeLink.Sessions.{
  is_replayed, descriptor_events, update_events, build_snapshot_for_client,
}

-- What a client collects from a snapshot: the descriptors, and the updates' paths and values.
pub collect_descriptors : List SnapshotEvent → List TopicDescriptor
collect_descriptors [] = []
collect_descriptors (e ∷ es) = elim e.descriptor [
  | none ↦ collect_descriptors es
  | some d ↦ d ∷ collect_descriptors es
]

pub collect_updates : List SnapshotEvent → List UpdateEnvelope
collect_updates [] = []
collect_updates (e ∷ es) = elim e.update [
  | none ↦ collect_updates es
  | some u ↦ u ∷ collect_updates es
]

-- Told of its value, by whether it has one, its kind, its retention and its replay flag.
abbrev pub tells_value : Bool → TopicKind → RetentionMode → Bool → Bool
tells_value true TopicKind.state RetentionMode.latest_value true = true
tells_value _ _ _ _ = false

-- The path and the value of each topic that keeps its value for new subscribers.
unfoldable pub replayed_values : List TopicRuntime → List (String × TopicValue)
replayed_values [] = []
replayed_values (t ∷ ts) =
    let d = t.descriptor in
    if tells_value t.has_latest_value d.topic_kind d.retention_mode d.replay_on_subscribe
    then (t.descriptor.topic_path, t.latest_value) ∷ replayed_values ts
    else replayed_values ts

abbrev pub path_value : UpdateEnvelope → String × TopicValue
path_value u = (u.topic_path, u.value)

collect_descriptors-append :
    (xs ys : List SnapshotEvent)
    → collect_descriptors (xs ++ ys) ≡ collect_descriptors xs ++ collect_descriptors ys
unfolding collect_descriptors
collect_descriptors-append [] ys = refl
collect_descriptors-append (x ∷ xs) ys = ground (arith, collect_descriptors-append xs ys)

collect_updates-append :
    (xs ys : List SnapshotEvent)
    → collect_updates (xs ++ ys) ≡ collect_updates xs ++ collect_updates ys
unfolding collect_updates
collect_updates-append [] ys = refl
collect_updates-append (x ∷ xs) ys = ground (arith, collect_updates-append xs ys)

collect-descriptor_events :
    (ts : List TopicRuntime)
    → (collect_descriptors (descriptor_events ts) ≡ map (λ t. t.descriptor) ts)
      × (collect_updates (descriptor_events ts) ≡ [])
unfolding collect_descriptors collect_updates descriptor_events
collect-descriptor_events [] = (refl, refl)
collect-descriptor_events (t ∷ ts) =
    let (d, u) = collect-descriptor_events ts in (ap (◌∷◌ t.descriptor) d, u)

build_envelope-path_value :
    (c : NativeLinkCore) (t : TopicRuntime) (k : DeliveryKind) (n now : ℕ)
    → path_value (build_envelope c t k n now) ≡ (t.descriptor.topic_path, t.latest_value)
unfolding build_envelope
build_envelope-path_value c t k n now = ground arith

is_replayed-eq :
    (has : Bool) (k : TopicKind) (m : RetentionMode) (replay : Bool)
    → (has && is_state k && is_latest_value m && replay) ≡ tells_value has k m replay
is_replayed-eq false k m replay = refl
is_replayed-eq true TopicKind.state RetentionMode.latest_value true = refl
is_replayed-eq true TopicKind.state RetentionMode.latest_value false = refl
is_replayed-eq true TopicKind.state RetentionMode.no_retention replay = refl
is_replayed-eq true TopicKind.command m replay = refl
is_replayed-eq true TopicKind.event m replay = refl

collect-update_events :
    (clock : ℕ → ℕ) (c : NativeLinkCore) (ts : List TopicRuntime)
    → (collect_descriptors (update_events clock c ts) ≡ [])
      × (map path_value (collect_updates (update_events clock c ts)) ≡ replayed_values ts)
unfolding collect_descriptors collect_updates update_events replayed_values
collect-update_events clock c [] = (refl, refl)
collect-update_events clock c (t ∷ ts) =
    let (d, u) = collect-update_events (λ n. clock (suc n)) c ts in
    let v = build_envelope-path_value c t DeliveryKind.snapshot_state 0 (clock 0) in
    let told =
      is_replayed-eq t.has_latest_value t.descriptor.topic_kind t.descriptor.retention_mode
        t.descriptor.replay_on_subscribe in
    elim (Bool-cases (is_replayed t)) [
      | inl y ↦ rw (y, sym told ∙ y) (d, ap₂ ◌∷◌ v u)
      | inr n ↦ rw (n, sym told ∙ n) (d, u)
    ]

-- A snapshot tells every topic's descriptor, in the order of registration, and the path and latest
-- value of exactly the topics that have a value, are of kind state, retain it and replay it.
pub snapshot-collect :
    (clock : ℕ → ℕ) (c : NativeLinkCore)
    → let s = build_snapshot_for_client clock c in
      (collect_descriptors s ≡ map (λ t. t.descriptor) c.topics)
      × (map path_value (collect_updates s) ≡ replayed_values c.topics)
unfolding build_snapshot_for_client collect_descriptors collect_updates
snapshot-collect clock c =
    let (d, n) = collect-descriptor_events c.topics in
    let (m, u) = collect-update_events clock c c.topics in
    (
      simp (collect_descriptors-append, d, m, append-nil),
      simp (collect_updates-append, n, append-nil) u,
    )

-- An envelope is stale, for the reason of its age, exactly when the topic has a positive time to
-- live and more milliseconds than that have passed since its latest value; if there is a positive
-- time to live it tells the age, modulo 2^32, and otherwise 0.
pub build_envelope-stale :
    (c : NativeLinkCore) (t : TopicRuntime) (k : DeliveryKind) (n now : ℕ)
    → let e = build_envelope c t k n now in
      let age = age_ms now t.latest_value_time in
      ((e.is_stale ≡ true)
        ↔ ((is_positive t.descriptor.ttl_ms ≡ true) × (pos_part t.descriptor.ttl_ms < age)))
      × ((e.is_stale ≡ true) ↔ (e.freshness_reason ≡ FreshnessReason.ttl_expired))
      × (e.age_ms_at_emit ≡ (if is_positive t.descriptor.ttl_ms then age % 2 ^ 32 else 0))
unfolding build_envelope
build_envelope-stale c t k n now = ground arith
