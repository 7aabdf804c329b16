-- ===== src/NativeLink/Events.antt =====
-- plugins/NativeLinkTransport/src/native_link_core.cpp: envelopes and the clients' queues.
pub mod Queues
pub mod Delivery
use text.Mathlib.Text.{◌==◌}
use smart_dashboard.Base.{
  ℕ, ◌-◌, ◌/◌, ◌%◌, ◌^◌, true, false, String, List, [], ◌∷◌, ◌++◌, if◌then◌else◌, ltb, is_positive,
  pos_part,
}
use smart_dashboard.NativeLink.Types.{
  TopicKind, state, command, event, DeliveryKind, FreshnessReason, no_reason, UpdateEnvelope,
  TopicRuntime, ClientRuntime, NativeLinkCore,
}

-- The envelope's fields that do not depend on the age.
abbrev base_envelope : NativeLinkCore → TopicRuntime → DeliveryKind → ℕ → UpdateEnvelope
base_envelope c t k sequence = record {
  server_session_id = c.server_session_id;
  server_sequence = sequence;
  topic_id = t.topic_id;
  topic_path = t.descriptor.topic_path;
  source_client_id = t.latest_source_client_id;
  delivery_kind = k;
  value = t.latest_value;
  ttl_ms = t.descriptor.ttl_ms;
  age_ms_at_emit = 0;
  is_stale = false;
  freshness_reason = FreshnessReason.live;
  rejection_reason = no_reason;
}

-- Milliseconds between two readings, rounded down.
abbrev pub age_ms : ℕ → ℕ → ℕ
age_ms now since = (now - since) / 1000000

unfoldable pub build_envelope :
    NativeLinkCore → TopicRuntime → DeliveryKind → ℕ → ℕ → UpdateEnvelope
build_envelope c t k sequence now =
    let e = base_envelope c t k sequence in
    let age = age_ms now t.latest_value_time in
    if is_positive t.descriptor.ttl_ms
    then if ltb (pos_part t.descriptor.ttl_ms) age
      then record e {
        age_ms_at_emit = age % 2 ^ 32;
        is_stale = true;
        freshness_reason = FreshnessReason.ttl_expired;
      }
      else record e { age_ms_at_emit = age % 2 ^ 32 }
    else e

unfoldable pub determine_live_delivery_kind : TopicKind → DeliveryKind
determine_live_delivery_kind state = DeliveryKind.live_state
determine_live_delivery_kind command = DeliveryKind.live_command
determine_live_delivery_kind event = DeliveryKind.live_event

abbrev pub push_event : UpdateEnvelope → ClientRuntime → ClientRuntime
push_event e cl = record cl { pending_events = cl.pending_events ++ (e ∷ []) }

unfoldable pub enqueue_live_event : UpdateEnvelope → List ClientRuntime → List ClientRuntime
enqueue_live_event e [] = []
enqueue_live_event e (cl ∷ cls) = push_event e cl ∷ enqueue_live_event e cls

unfoldable pub enqueue_event_for_client :
    String → UpdateEnvelope → List ClientRuntime → List ClientRuntime
enqueue_event_for_client i e [] = []
enqueue_event_for_client i e (cl ∷ cls) =
    if cl.client_id == i then push_event e cl ∷ cls else cl ∷ enqueue_event_for_client i e cls
