-- ===== src/NativeLink/Publish.antt =====
-- plugins/NativeLinkTransport/src/native_link_core.cpp: `Publish` and `PublishFromServer`.
pub mod Authority
use text.Mathlib.Text.{◌==◌}
use smart_dashboard.Base.{
  ℕ, Bool, true, false, not, ◌&&◌, String, none, some, ℤ, if◌then◌else◌, inc64,
}
use smart_dashboard.NativeLink.Types.{
  DeliveryKind, FreshnessReason, WriteRejectReason, no_reason, unknown_topic, wrong_type, read_only,
  lease_required, lease_not_holder, TopicValue, UpdateEnvelope, WriteResult, TopicRuntime,
  NativeLinkCore,
}
use smart_dashboard.NativeLink.Topics.{
  is_command, is_server_only, is_lease_single_writer, topic_value_matches, find_topic,
  replace_topic,
}
use smart_dashboard.NativeLink.Events.{
  build_envelope, determine_live_delivery_kind, enqueue_live_event, enqueue_event_for_client,
}

-- One of the rejections of a write to a known topic.
unfoldable pub reject :
    (ℕ → ℕ)
    → TopicRuntime
    → TopicValue
    → String
    → WriteRejectReason
    → NativeLinkCore
    → NativeLinkCore × WriteResult
reject clock t v source why c =
    let e = build_envelope c t DeliveryKind.live_command_reject 0 (clock 0) in
    let e' = record e { value = v; rejection_reason = why } in
    (
      record c { clients = enqueue_event_for_client source e' c.clients },
      record { accepted = false; rejection_reason = why; server_sequence = 0 },
    )

unfoldable pub reject_unknown :
    String → TopicValue → String → NativeLinkCore → NativeLinkCore × WriteResult
reject_unknown p v source c =
    let e : UpdateEnvelope = record {
      server_session_id = c.server_session_id;
      server_sequence = 0;
      topic_id = 0;
      topic_path = p;
      source_client_id = source;
      delivery_kind = DeliveryKind.live_command_reject;
      value = v;
      ttl_ms = ℤ.pos 0;
      age_ms_at_emit = 0;
      is_stale = false;
      freshness_reason = FreshnessReason.live;
      rejection_reason = unknown_topic;
    } in
    (
      record c { clients = enqueue_event_for_client source e c.clients },
      record { accepted = false; rejection_reason = unknown_topic; server_sequence = 0 },
    )

-- The write itself: the latest value, the live event for every client and, for a client's command,
-- the acknowledgement for its sender.
unfoldable pub accept :
    (ℕ → ℕ)
    → String
    → TopicRuntime
    → TopicValue
    → String
    → Bool
    → NativeLinkCore
    → NativeLinkCore × WriteResult
accept clock p t v source allow c =
    let t' = record t {
      has_latest_value = true;
      latest_value = v;
      latest_source_client_id = source;
      latest_value_time = clock 0;
    } in
    let sequence = c.next_server_sequence in
    let e =
      build_envelope c t' (determine_live_delivery_kind t.descriptor.topic_kind) sequence
        (clock 1) in
    let cls = enqueue_live_event e c.clients in
    let ack = record e { delivery_kind = DeliveryKind.live_command_ack } in
    (
      record c {
        next_server_sequence = inc64 sequence;
        topics = replace_topic p t' c.topics;
        clients =
            if not allow && is_command t.descriptor.topic_kind
            then enqueue_event_for_client source ack cls
            else cls;
      },
      record { accepted = true; rejection_reason = no_reason; server_sequence = sequence },
    )

unfoldable pub publish_internal :
    (ℕ → ℕ) → String → TopicValue → String → Bool → NativeLinkCore → NativeLinkCore × WriteResult
publish_internal clock p v source allow c = elim (find_topic p c.topics) [
  | none ↦ reject_unknown p v source c
  | some t ↦
      if not (topic_value_matches t.descriptor.value_type v.type)
      then reject clock t v source wrong_type c
      else if is_server_only t.descriptor.writer_policy && not allow
      then reject clock t v source read_only c
      else if is_lease_single_writer t.descriptor.writer_policy
          && not allow
          && t.lease_holder_client_id == ""
      then reject clock t v source lease_required c
      else if is_lease_single_writer t.descriptor.writer_policy
          && not allow
          && not (t.lease_holder_client_id == source)
      then reject clock t v source lease_not_holder c
      else accept clock p t v source allow c
]

unfoldable pub publish :
    (ℕ → ℕ) → String → TopicValue → String → NativeLinkCore → NativeLinkCore × WriteResult
publish clock p v source c = publish_internal clock p v source false c

unfoldable pub publish_from_server :
    (ℕ → ℕ) → String → TopicValue → NativeLinkCore → NativeLinkCore × WriteResult
publish_from_server clock p v c = publish_internal clock p v "server" true c
