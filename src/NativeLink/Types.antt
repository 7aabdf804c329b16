-- ===== src/NativeLink/Types.antt =====
-- The data of plugins/NativeLinkTransport/include/native_link_core.h.
-- A `double` is moved and never computed with: it is its 64-bit pattern. `int` is ℤ.
use smart_dashboard.Base.{ℕ, ℤ, Bool, false, String, List, [], Option}

pub data TopicKind : Type 0 where
  state command event : TopicKind

pub data ValueType : Type 0 where
  bool double string string_array : ValueType

pub data RetentionMode : Type 0 where
  no_retention latest_value : RetentionMode

pub data WriterPolicy : Type 0 where
  server_only lease_single_writer : WriterPolicy

pub data DeliveryKind : Type 0 where
  snapshot_state live_state live_command live_command_ack live_command_reject live_event :
      DeliveryKind

pub data FreshnessReason : Type 0 where
  live ttl_expired : FreshnessReason

pub data SnapshotEventKind : Type 0 where
  descriptor_snapshot_begin descriptor_entry descriptor_snapshot_end state_snapshot_begin
        update_entry state_snapshot_end live_begin :
      SnapshotEventKind

pub data WriteRejectReason : Type 0 where
  no_reason unknown_topic wrong_type read_only lease_required lease_not_holder policy_violation :
      WriteRejectReason

pub record TopicValue : Type 0 where
  pub type : ValueType
  pub bool_value : Bool
  pub double_value : ℕ
  pub string_value : String
  pub string_array_value : List String

-- `TopicValue result;`
abbrev pub empty_value : TopicValue
empty_value = record {
  type = bool;
  bool_value = false;
  double_value = 0;
  string_value = "";
  string_array_value = [];
}

pub record TopicDescriptor : Type 0 where
  pub topic_path : String
  pub topic_kind : TopicKind
  pub value_type : ValueType
  pub schema_name : String
  pub schema_version : ℤ
  pub retention_mode : RetentionMode
  pub replay_on_subscribe : Bool
  pub ttl_ms : ℤ
  pub writer_policy : WriterPolicy
  pub description : String

-- `age_ms_at_emit` is the 32-bit pattern of the `int`.
pub record UpdateEnvelope : Type 0 where
  pub server_session_id : ℕ
  pub server_sequence : ℕ
  pub topic_id : ℕ
  pub topic_path : String
  pub source_client_id : String
  pub delivery_kind : DeliveryKind
  pub value : TopicValue
  pub ttl_ms : ℤ
  pub age_ms_at_emit : ℕ
  pub is_stale : Bool
  pub freshness_reason : FreshnessReason
  pub rejection_reason : WriteRejectReason

-- The pair of a flag and a member (`hasDescriptor`, `descriptor`) is an option.
pub record SnapshotEvent : Type 0 where
  pub kind : SnapshotEventKind
  pub descriptor : Option TopicDescriptor
  pub update : Option UpdateEnvelope

pub record RegisterTopicResult : Type 0 where
  pub succeeded : Bool
  pub message : String
  pub topic_id : ℕ

pub record WriteResult : Type 0 where
  pub accepted : Bool
  pub rejection_reason : WriteRejectReason
  pub server_sequence : ℕ

pub record TopicLeaseInfo : Type 0 where
  pub has_lease_holder : Bool
  pub lease_holder_client_id : String

-- `NativeLinkCore::TopicRuntime`. Times are readings of the clock, in nanoseconds.
pub record TopicRuntime : Type 0 where
  pub descriptor : TopicDescriptor
  pub topic_id : ℕ
  pub has_latest_value : Bool
  pub latest_value : TopicValue
  pub latest_source_client_id : String
  pub latest_value_time : ℕ
  pub lease_holder_client_id : String

-- `NativeLinkCore::ClientRuntime`, the oldest event first.
pub record ClientRuntime : Type 0 where
  pub client_id : String
  pub pending_events : List UpdateEnvelope

pub record NativeLinkCore : Type 0 where
  pub server_session_id : ℕ
  pub next_topic_id : ℕ
  pub next_server_sequence : ℕ
  pub topics : List TopicRuntime
  pub clients : List ClientRuntime
