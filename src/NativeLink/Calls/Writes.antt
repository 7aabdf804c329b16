-- ===== src/NativeLink/Calls/Writes.antt =====
-- A write keeps the invariant, accepted or not.
use smart_dashboard.Base.{
  ℕ, ◌+◌, ◌-◌, ◌<◌, ◌≡◌, refl, inl, inr, Bool, true, not, ◌&&◌, String, some, arith, u64_mod,
  inc64_lem, add-sub_one, Option-cases, Bool-cases,
}
use smart_dashboard.NativeLink.Types.{
  DeliveryKind, WriteRejectReason, wrong_type, read_only, lease_required, lease_not_holder,
  TopicRuntime, TopicValue, NativeLinkCore,
}
use smart_dashboard.NativeLink.Topics.{is_command, topic_value_matches, find_topic}
use smart_dashboard.NativeLink.Topics.Lookup.{All-find}
use smart_dashboard.NativeLink.Events.{build_envelope, determine_live_delivery_kind}
use smart_dashboard.NativeLink.Events.Delivery.{
  AreClientsOk, build_envelope_lem, reject-AreClientsOk, live-AreClientsOk, ack-AreClientsOk,
}
use smart_dashboard.NativeLink.Publish.{reject, reject_unknown, accept, publish_internal}
use smart_dashboard.NativeLink.Calls.Inv.{IsTopicOk, AreTopicsOk, IsValid, replace-AreTopicsOk}

reject_unknown-IsValid :
    (p : String) (w : TopicValue) (source : String) (c : NativeLinkCore)
    → IsValid c
    → IsValid (reject_unknown p w source c).0
unfolding reject_unknown
reject_unknown-IsValid p w source c v = record {
  topics_ok = v.topics_ok;
  numbered = v.numbered;
  clients_ok = reject-AreClientsOk _ _ c.clients v.clients_ok source _ refl refl refl;
}

module _ (clock : ℕ → ℕ) (p : String) (t : TopicRuntime) (w : TopicValue) (source : String)
    (c : NativeLinkCore) (v : IsValid c) where
  reject-IsValid : (why : WriteRejectReason) → IsValid (reject clock t w source why c).0
  unfolding reject
  reject-IsValid why = record {
    topics_ok = v.topics_ok;
    numbered = v.numbered;
    clients_ok =
        let l = build_envelope_lem c t DeliveryKind.live_command_reject 0 (clock 0) in
        reject-AreClientsOk _ _ c.clients v.clients_ok source _ l.0 l.1 l.2;
  }

  module _ (allow : Bool) (found : find_topic p c.topics ≡ some t)
      (matches : topic_value_matches t.descriptor.value_type w.type ≡ true)
      (room : c.next_server_sequence + 1 < u64_mod) where
    accept-AreTopicsOk : AreTopicsOk c.next_topic_id (accept clock p t w source allow c).0.topics
    unfolding accept
    accept-AreTopicsOk =
        replace-AreTopicsOk c.next_topic_id p t _ c.topics v.topics_ok found refl refl
          (record { described = known.described; leased = known.leased; typed = inr matches })
      where
        known : IsTopicOk t
        known = All-find IsTopicOk p t c.topics v.topics_ok.each found

    accept-AreClientsOk :
        AreClientsOk c.server_session_id c.next_server_sequence
          (accept clock p t w source allow c).0.clients
    unfolding accept
    accept-AreClientsOk = elim (Bool-cases (not allow && is_command t.descriptor.topic_kind)) [
      | inl y ↦ rw y (
          ack-AreClientsOk _ _ c.clients v.clients_ok _ _ fields.0 fields.1 below source _ fields.0
            fields.1 refl)
      | inr n ↦ rw n (live-AreClientsOk _ _ c.clients v.clients_ok _ _ fields.0 fields.1 below)
    ]
      where
        fields :
            let e =
              build_envelope c
                (record t {
                  has_latest_value = true;
                  latest_value = w;
                  latest_source_client_id = source;
                  latest_value_time = clock 0;
                })
                (determine_live_delivery_kind t.descriptor.topic_kind)
                c.next_server_sequence
                (clock 1) in
            (e.server_session_id ≡ c.server_session_id)
            × (e.server_sequence ≡ c.next_server_sequence)
            × (e.delivery_kind ≡ determine_live_delivery_kind t.descriptor.topic_kind)
        fields = build_envelope_lem c _ _ c.next_server_sequence (clock 1)

        below : c.next_server_sequence - 1 < c.next_server_sequence
        below = omega (arith, v.numbered)

    accept-IsValid : IsValid (accept clock p t w source allow c).0
    unfolding accept
    accept-IsValid = record {
      topics_ok = accept-AreTopicsOk;
      numbered = omega (arith, inc64_lem c.next_server_sequence room);
      clients_ok =
          rw (inc64_lem c.next_server_sequence room, add-sub_one c.next_server_sequence)
            accept-AreClientsOk;
    }

pub publish_internal-IsValid :
    (clock : ℕ → ℕ) (p : String) (w : TopicValue) (source : String) (allow : Bool)
    (c : NativeLinkCore)
    → IsValid c
    → c.next_server_sequence + 1 < u64_mod
    → IsValid (publish_internal clock p w source allow c).0
unfolding publish_internal
publish_internal-IsValid clock p w source allow c v room =
    elim (Option-cases (find_topic p c.topics)) [
      | inl e ↦ rw (e, publish_internal) (reject_unknown-IsValid p w source c v)
      | inr (t, e) ↦
          rw (e, publish_internal)
            (ground (
              arith,
              reject-IsValid clock p t w source c v wrong_type,
              reject-IsValid clock p t w source c v read_only,
              reject-IsValid clock p t w source c v lease_required,
              reject-IsValid clock p t w source c v lease_not_holder,
              accept-IsValid clock p t w source c v allow e,
            ))
    ]
