-- ===== src/NativeLink/Sessions.antt =====
-- plugins/NativeLinkTransport/src/native_link_core.cpp: clients, snapshots, queries and sessions.
pub mod Leases
pub mod Drain
pub mod Snapshot
use text.Mathlib.Text.{◌==◌}
use smart_dashboard.Base.{
  ℕ, suc, Bool, true, false, ◌&&◌, String, List, [], ◌∷◌, ◌++◌, Option, none, some, if◌then◌else◌,
  inc64,
}
use smart_dashboard.NativeLink.Types.{
  DeliveryKind, SnapshotEventKind, TopicValue, UpdateEnvelope, SnapshotEvent, TopicLeaseInfo,
  TopicRuntime, ClientRuntime, NativeLinkCore,
}
use smart_dashboard.NativeLink.Topics.{is_state, is_latest_value, find_topic, find_client}
use smart_dashboard.NativeLink.Events.{build_envelope}

abbrev pub marker : SnapshotEventKind → SnapshotEvent
marker k = record { kind = k; descriptor = none; update = none }

unfoldable pub descriptor_events : List TopicRuntime → List SnapshotEvent
descriptor_events [] = []
descriptor_events (t ∷ ts) =
    record {
      kind = SnapshotEventKind.descriptor_entry;
      descriptor = some t.descriptor;
      update = none;
    }
    ∷ descriptor_events ts

-- The tests before which `BuildSnapshotForClient` goes on to the next topic.
abbrev pub is_replayed : TopicRuntime → Bool
is_replayed t =
    t.has_latest_value
    && is_state t.descriptor.topic_kind
    && is_latest_value t.descriptor.retention_mode
    && t.descriptor.replay_on_subscribe

-- Topic number n reads the clock as `clock n`.
unfoldable pub update_events : (ℕ → ℕ) → NativeLinkCore → List TopicRuntime → List SnapshotEvent
update_events clock c [] = []
update_events clock c (t ∷ ts) =
    let rest = update_events (λ n. clock (suc n)) c ts in
    if is_replayed t
    then record {
      kind = SnapshotEventKind.update_entry;
      descriptor = none;
      update = some (build_envelope c t DeliveryKind.snapshot_state 0 (clock 0));
    }
      ∷ rest
    else rest

-- The client's id is not used.
unfoldable pub build_snapshot_for_client : (ℕ → ℕ) → NativeLinkCore → List SnapshotEvent
unfolding descriptor_events update_events
build_snapshot_for_client clock c =
    marker SnapshotEventKind.descriptor_snapshot_begin
    ∷ (descriptor_events c.topics
        ++ (marker SnapshotEventKind.descriptor_snapshot_end
            ∷ marker SnapshotEventKind.state_snapshot_begin
            ∷ (update_events clock c c.topics
                ++ (marker SnapshotEventKind.state_snapshot_end
                    ∷ marker SnapshotEventKind.live_begin
                    ∷ []))))

unfoldable pub connect_client :
    (ℕ → ℕ) → String → NativeLinkCore → NativeLinkCore × List SnapshotEvent
connect_client clock i c =
    let c' : NativeLinkCore = elim (find_client i c.clients) [
      | some _ ↦ c
      | none ↦ record c {
        clients = c.clients ++ (record { client_id = i; pending_events = [] } ∷ []);
      }
    ] in
    (c', build_snapshot_for_client clock c')

-- `m_clients.erase` of the first client with the id.
unfoldable pub erase_client : String → List ClientRuntime → List ClientRuntime
erase_client i [] = []
erase_client i (cl ∷ cls) = if cl.client_id == i then cls else cl ∷ erase_client i cls

unfoldable pub disconnect_client : String → NativeLinkCore → NativeLinkCore × Bool
disconnect_client i c = elim (find_client i c.clients) [
  | none ↦ (c, false)
  | some _ ↦ (record c { clients = erase_client i c.clients }, true)
]

-- The queue of the first client with the id is emptied.
unfoldable pub clear_pending : String → List ClientRuntime → List ClientRuntime
clear_pending i [] = []
clear_pending i (cl ∷ cls) =
    if cl.client_id == i then record cl { pending_events = [] } ∷ cls else cl ∷ clear_pending i cls

unfoldable pub drain_client_events : String → NativeLinkCore → NativeLinkCore × List UpdateEnvelope
drain_client_events i c = elim (find_client i c.clients) [
  | none ↦ (c, [])
  | some cl ↦ (record c { clients = clear_pending i c.clients }, cl.pending_events)
]

unfoldable pub try_get_latest_value : String → NativeLinkCore → Option TopicValue
try_get_latest_value p c = elim (find_topic p c.topics) [
  | none ↦ none
  | some t ↦ if t.has_latest_value then some t.latest_value else none
]

unfoldable pub get_topic_lease_info : String → NativeLinkCore → TopicLeaseInfo
get_topic_lease_info p c = elim (find_topic p c.topics) [
  | none ↦ record { has_lease_holder = false; lease_holder_client_id = "" }
  | some t ↦
      if t.lease_holder_client_id == ""
      then record { has_lease_holder = false; lease_holder_client_id = "" }
      else record { has_lease_holder = true; lease_holder_client_id = t.lease_holder_client_id }
]

unfoldable pub is_topic_registered : String → NativeLinkCore → Bool
is_topic_registered p c = elim (find_topic p c.topics) [ none ↦ false | some _ ↦ true ]

unfoldable pub clear_leases : List TopicRuntime → List TopicRuntime
clear_leases [] = []
clear_leases (t ∷ ts) = record t { lease_holder_client_id = "" } ∷ clear_leases ts

unfoldable pub clear_queues : List ClientRuntime → List ClientRuntime
clear_queues [] = []
clear_queues (cl ∷ cls) = record cl { pending_events = [] } ∷ clear_queues cls

unfoldable pub begin_new_session : NativeLinkCore → NativeLinkCore
unfolding clear_leases clear_queues
begin_new_session c = record {
  server_session_id = inc64 c.server_session_id;
  next_topic_id = c.next_topic_id;
  next_server_sequence = 1;
  topics = clear_leases c.topics;
  clients = clear_queues c.clients;
}
