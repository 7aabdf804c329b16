-- ===== src/NativeLink/Sessions/Leases.antt =====
-- What a granted lease means, and what ends it.
use mathlib.Core.Option
use text.Mathlib.TextEquality.{eq_iff}
use smart_dashboard.Base.{
  ◌≡◌, ◌≢◌, refl, inl, inr, true, false, String, List, [], ◌∷◌, some, arith, Option-cases,
}
use smart_dashboard.NativeLink.Types.{TopicRuntime, TopicValue, NativeLinkCore}
use smart_dashboard.NativeLink.Topics.{
  is_lease_single_writer, find_topic, acquire_lease, release_lease,
}
use smart_dashboard.NativeLink.Topics.Lookup.{find-replace, find_topic-path}
use smart_dashboard.NativeLink.Publish.Authority.{MayWrite}
use smart_dashboard.NativeLink.Sessions.{
  get_topic_lease_info, try_get_latest_value, clear_leases, begin_new_session,
}

-- The topic that client `i` holds is found with its lease.
abbrev HeldBy : String → String → NativeLinkCore → Type 0
HeldBy p i c =
    (t : TopicRuntime) × (find_topic p c.topics ≡ some t)
    × (is_lease_single_writer t.descriptor.writer_policy ≡ true)
    × (t.lease_holder_client_id ≡ i)

acquire-HeldBy :
    (p i : String) (c : NativeLinkCore)
    → (acquire_lease p i c).1 ≡ true
    → HeldBy p i (acquire_lease p i c).0
unfolding acquire_lease
acquire-HeldBy p i c h = elim (Option-cases (find_topic p c.topics)) [
  | inl e ↦ ground arith
  | inr (t, e) ↦ (
    record t { lease_holder_client_id = i },
    ground (
      arith,
      eq_iff p p,
      find-replace p p (record t { lease_holder_client_id = i }) c.topics
          (find_topic-path p c.topics t e),
    ),
    ground arith,
    refl,
  )
]

module _ (p i : String) (named : i ≢ "") (c : NativeLinkCore) (held : HeldBy p i c) where
  info_of_held :
      get_topic_lease_info p c ≡ record { has_lease_holder = true; lease_holder_client_id = i }
  unfolding get_topic_lease_info
  info_of_held = let (t, f, l, e) = held in ground (arith, eq_iff t.lease_holder_client_id "")

  others_of_held :
      (j : String) → j ≢ i → (acquire_lease p j c ≡ (c, false)) × (release_lease p j c ≡ (c, false))
  unfolding acquire_lease release_lease
  others_of_held j ne =
      let (t, f, l, e) = held in
      (
        ground (arith, eq_iff t.lease_holder_client_id "", eq_iff t.lease_holder_client_id j),
        ground (arith, eq_iff t.lease_holder_client_id "", eq_iff t.lease_holder_client_id j),
      )

  writers_of_held : (w : TopicValue) (j : String) → MayWrite c p w j false → j ≡ i
  writers_of_held w j (u, g, m, a) = let (t, f, l, e) = held in ground arith

-- After a named client is granted a lease, the lease is reported as its own, every other client's
-- request and release are refused and change nothing, and a client that may write the topic is
-- that client.
pub acquire_lease-exclusive :
    (p i : String) (c : NativeLinkCore)
    → i ≢ ""
    → (acquire_lease p i c).1 ≡ true
    → let c' = (acquire_lease p i c).0 in
      (get_topic_lease_info p c' ≡ record { has_lease_holder = true; lease_holder_client_id = i })
      × ((j : String)
          → j ≢ i
          → (acquire_lease p j c' ≡ (c', false)) × (release_lease p j c' ≡ (c', false)))
      × ((w : TopicValue) (j : String) → MayWrite c' p w j false → j ≡ i)
acquire_lease-exclusive p i c named h =
    let held = acquire-HeldBy p i c h in
    let c' = (acquire_lease p i c).0 in
    (
      info_of_held p i named c' held,
      others_of_held p i named c' held,
      writers_of_held p i named c' held,
    )

abbrev without_lease : TopicRuntime → TopicRuntime
without_lease t = record t { lease_holder_client_id = "" }

find-clear_leases :
    (p : String) (ts : List TopicRuntime)
    → find_topic p (clear_leases ts) ≡ Option.map without_lease (find_topic p ts)
unfolding find_topic clear_leases
find-clear_leases p [] = refl
find-clear_leases p (t ∷ ts) = ground (arith, find-clear_leases p ts)

unwritable :
    (p : String) (w : TopicValue) (j : String) (c : NativeLinkCore)
    → ¬ MayWrite (begin_new_session c) p w j false
unfolding begin_new_session
unwritable p w j c (u, f, m, inl a) = cc
unwritable p w j c (u, f, m, inr (l, e, ne)) = elim (Option-cases (find_topic p c.topics)) [
  | inl g ↦ ground (arith, find-clear_leases p c.topics)
  | inr (t, g) ↦ ne (ground (arith, find-clear_leases p c.topics))
]

-- A new session ends every lease, so no client may write any topic until it is granted a lease
-- again; every topic keeps its latest value.
pub new_session-leases :
    (p : String) (c : NativeLinkCore)
    → let c' = begin_new_session c in
      (get_topic_lease_info p c' ≡ record { has_lease_holder = false; lease_holder_client_id = "" })
      × (try_get_latest_value p c' ≡ try_get_latest_value p c)
      × ((w : TopicValue) (j : String) → ¬ MayWrite c' p w j false)
unfolding begin_new_session get_topic_lease_info try_get_latest_value
new_session-leases p c = (
  ground (arith, find-clear_leases p c.topics, eq_iff "" ""),
  ground (arith, find-clear_leases p c.topics),
  λ w j. unwritable p w j c,
)
