-- ===== src/NativeLink/Calls/Inv.antt =====
-- The invariant of the core, kept by every call.
use smart_dashboard.Base.{
  ℕ, ◌+◌, ◌-◌, ap, ◌∙◌, map-append, ◌≤◌, ◌<◌, ◌≡◌, refl, ◌⊎◌, inl, inr, true, false, String, List,
  [], ◌∷◌, ◌++◌, none, some, arith, All, All-append, u64_mod, inc64_lem, Option-cases, Bool-cases,
}
use smart_dashboard.Base.Names.{Distinct, Distinct-snoc}
use smart_dashboard.NativeLink.Types.{TopicRuntime, TopicDescriptor, NativeLinkCore}
use smart_dashboard.NativeLink.Topics.{
  is_lease_single_writer, topic_value_matches, validate_descriptor, find_topic, replace_topic,
  new_topic, register_topic, acquire_lease, release_lease,
}
use smart_dashboard.NativeLink.Topics.Lookup.{
  paths, find_topic-path, find_topic-none, paths-replace, All-find, All-replace, Ascending,
  Ascending-snoc, Ascending-replace,
}
use smart_dashboard.NativeLink.Events.Delivery.{AreClientsOk}

-- A topic has a valid descriptor, a lease holder only under the lease policy, and a latest value
-- only of the declared type.
pub record IsTopicOk (t : TopicRuntime) : Type 0 where
  pub described : (validate_descriptor t.descriptor).succeeded ≡ true
  pub leased :
      (t.lease_holder_client_id ≡ "") ⊎ (is_lease_single_writer t.descriptor.writer_policy ≡ true)
  pub typed :
      (t.has_latest_value ≡ false)
      ⊎ (topic_value_matches t.descriptor.value_type t.latest_value.type ≡ true)

pub record AreTopicsOk (next : ℕ) (ts : List TopicRuntime) : Type 0 where
  pub ids : Ascending 1 next ts
  pub distinct : Distinct (paths ts)
  pub each : All IsTopicOk ts

-- The last number that a session has given out is one below the next.
pub record IsValid (c : NativeLinkCore) : Type 0 where
  pub topics_ok : AreTopicsOk c.next_topic_id c.topics
  pub numbered : 1 ≤ c.next_server_sequence
  pub clients_ok : AreClientsOk c.server_session_id (c.next_server_sequence - 1) c.clients

-- A topic is rewritten with its descriptor and its id kept.
pub replace-AreTopicsOk :
    (next : ℕ) (p : String) (t u : TopicRuntime) (ts : List TopicRuntime)
    → AreTopicsOk next ts
    → find_topic p ts ≡ some t
    → u.topic_id ≡ t.topic_id
    → u.descriptor ≡ t.descriptor
    → IsTopicOk u
    → AreTopicsOk next (replace_topic p u ts)
replace-AreTopicsOk next p t u ts v e i d k = record {
  ids = Ascending-replace p 1 next t u ts v.ids e i;
  distinct =
      rw (paths-replace p u ts (ap (λ x. x.topic_path) d ∙ find_topic-path p ts t e)) v.distinct;
  each = All-replace IsTopicOk p u ts v.each k;
}

register-AreTopicsOk :
    (next now : ℕ) (d : TopicDescriptor) (ts : List TopicRuntime)
    → AreTopicsOk next ts
    → (validate_descriptor d).succeeded ≡ true
    → find_topic d.topic_path ts ≡ none
    → AreTopicsOk (next + 1) (ts ++ (new_topic d next now ∷ []))
unfolding new_topic
register-AreTopicsOk next now d ts v k e = record {
  ids = Ascending-snoc 1 next _ ts v.ids refl;
  distinct =
      rw (map-append _ ts)
        (Distinct-snoc d.topic_path (paths ts) v.distinct (find_topic-none d.topic_path ts e));
  each =
      All-append IsTopicOk ts _ v.each
        (record { described = k; leased = inl refl; typed = inl refl }, tt);
}

pub register-IsValid :
    (clock : ℕ → ℕ) (d : TopicDescriptor) (c : NativeLinkCore)
    → IsValid c
    → c.next_topic_id + 1 < u64_mod
    → IsValid (register_topic clock d c).0
unfolding register_topic
register-IsValid clock d c v b = elim (Bool-cases (validate_descriptor d).succeeded) [
  | inr bad ↦ rw bad v
  | inl good ↦ elim (Option-cases (find_topic d.topic_path c.topics)) [
    | inr (t, e) ↦ rw (good, e) v
    | inl e ↦
        rw (good, e)
          (record {
            topics_ok =
                rw (inc64_lem c.next_topic_id b)
                  (register-AreTopicsOk c.next_topic_id (clock 0) d c.topics v.topics_ok good e);
            numbered = v.numbered;
            clients_ok = v.clients_ok;
          })
  ]
]

-- A holder is set only under the lease policy, or cleared.
lease-AreTopicsOk :
    (next : ℕ) (p i : String) (t : TopicRuntime) (ts : List TopicRuntime)
    → AreTopicsOk next ts
    → find_topic p ts ≡ some t
    → (i ≡ "") ⊎ (is_lease_single_writer t.descriptor.writer_policy ≡ true)
    → AreTopicsOk next (replace_topic p (record t { lease_holder_client_id = i }) ts)
lease-AreTopicsOk next p i t ts v e h =
    replace-AreTopicsOk next p t _ ts v e refl refl
      (record { described = known.described; leased = h; typed = known.typed })
  where
    known : IsTopicOk t
    known = All-find IsTopicOk p t ts v.each e

pub acquire-IsValid :
    (p i : String) (c : NativeLinkCore) → IsValid c → IsValid (acquire_lease p i c).0
unfolding acquire_lease
acquire-IsValid p i c v = elim (Option-cases (find_topic p c.topics)) [
  | inl e ↦ rw (e, acquire_lease) v
  | inr (t, e) ↦
      rw (e, acquire_lease)
        (ground (arith, lease-AreTopicsOk c.next_topic_id p i t c.topics v.topics_ok e))
]

pub release-IsValid :
    (p i : String) (c : NativeLinkCore) → IsValid c → IsValid (release_lease p i c).0
unfolding release_lease
release-IsValid p i c v = elim (Option-cases (find_topic p c.topics)) [
  | inl e ↦ rw (e, release_lease) v
  | inr (t, e) ↦
      rw (e, release_lease)
        (ground (arith, lease-AreTopicsOk c.next_topic_id p "" t c.topics v.topics_ok e))
]
