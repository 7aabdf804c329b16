-- ===== src/Tests/NativeLink.antt =====
-- A server with one state topic and one command topic, and two clients.
use text.Mathlib.TextEquality.{eq_iff}
use smart_dashboard.Base.{
  ℕ, ℤ, ◌≡◌, ◌≢◌, ◌↔◌, refl, String, List, [], ◌∷◌, true, false, some, arith, length, map,
  is_positive, ◌<◌,
}
use smart_dashboard.NativeLink.Types.{
  TopicKind, ValueType, RetentionMode, WriterPolicy, DeliveryKind, FreshnessReason, TopicDescriptor,
  TopicRuntime, TopicValue, ClientRuntime, NativeLinkCore, empty_value,
}
use smart_dashboard.NativeLink.Topics.{
  init, acquire_lease, release_lease, find_topic, find_client, topic_value_matches,
}
use smart_dashboard.NativeLink.Events.{build_envelope, enqueue_live_event, enqueue_event_for_client}
use smart_dashboard.NativeLink.Publish.{publish_internal, reject, accept}
use smart_dashboard.NativeLink.Publish.Authority.{
  MayWrite, IsRefusal, IsWrite, publish-accepts_iff, publish_accepted, publish_rejected,
}
use smart_dashboard.NativeLink.Sessions.{
  begin_new_session, drain_client_events, get_topic_lease_info, try_get_latest_value,
  build_snapshot_for_client,
}
use smart_dashboard.NativeLink.Sessions.Drain.{
  waiting, IsDelivered, publish-delivers, drain-waiting,
}
use smart_dashboard.NativeLink.Sessions.Leases.{acquire_lease-exclusive, new_session-leases}
use smart_dashboard.NativeLink.Sessions.Snapshot.{
  collect_descriptors, collect_updates, replayed_values, path_value, snapshot-collect,
  build_envelope-stale,
}
use smart_dashboard.NativeLink.Calls.{Call, run}
use smart_dashboard.NativeLink.Calls.Inv.{IsValid}
use smart_dashboard.NativeLink.Calls.Reach.{run-IsValid}

abbrev speed : TopicDescriptor
speed = record {
  topic_path = "Drive/Speed";
  topic_kind = TopicKind.state;
  value_type = ValueType.double;
  schema_name = "";
  schema_version = ℤ.pos 1;
  retention_mode = RetentionMode.latest_value;
  replay_on_subscribe = true;
  ttl_ms = ℤ.pos 250;
  writer_policy = WriterPolicy.server_only;
  description = "";
}

abbrev arm : TopicDescriptor
arm = record speed {
  topic_path = "Arm/Enable";
  topic_kind = TopicKind.command;
  value_type = ValueType.bool;
  retention_mode = RetentionMode.no_retention;
  replay_on_subscribe = false;
  ttl_ms = ℤ.pos 0;
  writer_policy = WriterPolicy.lease_single_writer;
}

abbrev speed_topic : TopicRuntime
speed_topic = record {
  descriptor = speed;
  topic_id = 1;
  has_latest_value = true;
  latest_value = record empty_value { type = ValueType.double; double_value = 7 };
  latest_source_client_id = "server";
  latest_value_time = 1000000;
  lease_holder_client_id = "";
}

abbrev arm_topic : TopicRuntime
arm_topic = record {
  descriptor = arm;
  topic_id = 2;
  has_latest_value = false;
  latest_value = empty_value;
  latest_source_client_id = "";
  latest_value_time = 2000000;
  lease_holder_client_id = "";
}

abbrev operator : ClientRuntime
operator = record { client_id = "operator"; pending_events = [] }

abbrev observer : ClientRuntime
observer = record { client_id = "observer"; pending_events = [] }

abbrev server : NativeLinkCore
server = record {
  server_session_id = 1;
  next_topic_id = 3;
  next_server_sequence = 5;
  topics = speed_topic ∷ arm_topic ∷ [];
  clients = operator ∷ observer ∷ [];
}

-- The same server after the operator was granted the command topic.
abbrev leased : NativeLinkCore
leased = record server {
  topics = speed_topic ∷ record arm_topic { lease_holder_client_id = "operator" } ∷ [];
}

abbrev on : TopicValue
on = record empty_value { bool_value = true }

abbrev clock : ℕ → ℕ
clock n = 400000000

calls : List ((ℕ → ℕ) × Call)
calls =
    (clock, Call.register arm)
    ∷ (clock, Call.connect "operator")
    ∷ (clock, Call.acquire "Arm/Enable" "operator")
    ∷ (clock, Call.client_write "Arm/Enable" on "operator")
    ∷ (clock, Call.drain "operator")
    ∷ (clock, Call.new_session)
    ∷ []

run-IsValid_example : IsValid (run calls init)
unfolding calls
run-IsValid_example = run-IsValid calls (omega arith)

publish-accepts_iff_example :
    ((publish_internal clock "Arm/Enable" on "operator" false leased).1.accepted ≡ true)
    ↔ MayWrite leased "Arm/Enable" on "operator" false
publish-accepts_iff_example = publish-accepts_iff clock "Arm/Enable" on "operator" false leased

accepted_run : (publish_internal clock "Arm/Enable" on "operator" false leased).1.accepted ≡ true
unfolding publish_internal accept find_topic topic_value_matches
accepted_run = refl

refused_run : (publish_internal clock "Drive/Speed" on "operator" false leased).1.accepted ≡ false
unfolding publish_internal reject find_topic topic_value_matches
refused_run = refl

publish_accepted_example :
    IsWrite "Arm/Enable" on "Drive/Speed" leased
      (publish_internal clock "Arm/Enable" on "operator" false leased)
publish_accepted_example =
    publish_accepted clock "Arm/Enable" on "operator" false leased "Drive/Speed" accepted_run

publish_rejected_example :
    IsRefusal on "operator" leased (publish_internal clock "Drive/Speed" on "operator" false leased)
publish_rejected_example =
    publish_rejected clock "Drive/Speed" on "operator" false leased refused_run

connected : find_client "operator" leased.clients ≡ some operator
unfolding find_client
connected = refl

publish-delivers_example :
    IsDelivered "Arm/Enable" on "operator" false leased "operator"
      (publish_internal clock "Arm/Enable" on "operator" false leased)
publish-delivers_example =
    publish-delivers clock "Arm/Enable" on "operator" false leased "operator" operator accepted_run
      connected

-- The operator gets the command and its acknowledgement, the observer the command.
both_get_it :
    let c = (publish_internal clock "Arm/Enable" on "operator" false leased).0 in
    (length (waiting "operator" c.clients) ≡ 2) × (length (waiting "observer" c.clients) ≡ 1)
unfolding publish_internal accept find_topic topic_value_matches waiting find_client
    enqueue_live_event enqueue_event_for_client
both_get_it = (refl, refl)

drain-waiting_example :
    let (c', es) = drain_client_events "operator" leased in
    (es ≡ waiting "operator" leased.clients)
    × (waiting "observer" c'.clients ≡ waiting "observer" leased.clients)
drain-waiting_example = drain-waiting "operator" "observer" leased

named : ◌≢◌ {A = String} "operator" ""
named = ground (arith, eq_iff "operator" "")

granted : (acquire_lease "Arm/Enable" "operator" server).1 ≡ true
unfolding acquire_lease find_topic
granted = refl

acquire_lease-exclusive_example :
    let c' = (acquire_lease "Arm/Enable" "operator" server).0 in
    (get_topic_lease_info "Arm/Enable" c'
      ≡ record { has_lease_holder = true; lease_holder_client_id = "operator" })
    × ((j : String)
        → j ≢ "operator"
        → (acquire_lease "Arm/Enable" j c' ≡ (c', false))
          × (release_lease "Arm/Enable" j c' ≡ (c', false)))
    × ((w : TopicValue) (j : String) → MayWrite c' "Arm/Enable" w j false → j ≡ "operator")
acquire_lease-exclusive_example =
    acquire_lease-exclusive "Arm/Enable" "operator" server named granted

new_session-leases_example :
    let c' = begin_new_session leased in
    (get_topic_lease_info "Arm/Enable" c'
      ≡ record { has_lease_holder = false; lease_holder_client_id = "" })
    × (try_get_latest_value "Arm/Enable" c' ≡ try_get_latest_value "Arm/Enable" leased)
    × ((w : TopicValue) (j : String) → ¬ MayWrite c' "Arm/Enable" w j false)
new_session-leases_example = new_session-leases "Arm/Enable" leased

snapshot-collect_example :
    let s = build_snapshot_for_client clock leased in
    (collect_descriptors s ≡ speed ∷ arm ∷ [])
    × (map path_value (collect_updates s) ≡ ("Drive/Speed", speed_topic.latest_value) ∷ [])
unfolding replayed_values
snapshot-collect_example = snapshot-collect clock leased

-- 399 ms old with a time to live of 250 ms.
build_envelope-stale_example :
    let e = build_envelope leased speed_topic DeliveryKind.snapshot_state 0 400000000 in
    ((e.is_stale ≡ true) ↔ ((is_positive speed.ttl_ms ≡ true) × (250 < 399)))
    × ((e.is_stale ≡ true) ↔ (e.freshness_reason ≡ FreshnessReason.ttl_expired))
    × (e.age_ms_at_emit ≡ 399)
build_envelope-stale_example =
    build_envelope-stale leased speed_topic DeliveryKind.snapshot_state 0 400000000
