-- ===== src/NativeLink/Topics.antt =====
-- plugins/NativeLinkTransport/src/native_link_core.cpp: topics, their registration and their leases.
-- A method that changes the core returns the new core. A method that reads the clock takes `clock`,
-- whose n-th value is the n-th reading that the call makes, in nanoseconds;
-- `std::chrono::steady_clock` never goes back.
pub mod Lookup
use text.Mathlib.Text.{◌==◌}
use smart_dashboard.Base.{
  ℕ, Bool, true, false, not, ◌&&◌, String, List, [], ◌∷◌, ◌++◌, Option, none, some, if◌then◌else◌,
  inc64,
}
use smart_dashboard.NativeLink.Types.{
  TopicKind, state, command, event, ValueType, bool, double, string, string_array, RetentionMode,
  no_retention, latest_value, WriterPolicy, server_only, lease_single_writer, TopicValue,
  empty_value, TopicDescriptor, RegisterTopicResult, TopicRuntime, ClientRuntime, NativeLinkCore,
}

-- `==` of the enumerations.
abbrev pub is_state : TopicKind → Bool
is_state state = true
is_state _ = false

abbrev pub is_command : TopicKind → Bool
is_command command = true
is_command _ = false

abbrev pub is_event : TopicKind → Bool
is_event event = true
is_event _ = false

abbrev pub is_latest_value : RetentionMode → Bool
is_latest_value latest_value = true
is_latest_value no_retention = false

abbrev pub is_server_only : WriterPolicy → Bool
is_server_only server_only = true
is_server_only lease_single_writer = false

abbrev pub is_lease_single_writer : WriterPolicy → Bool
is_lease_single_writer lease_single_writer = true
is_lease_single_writer server_only = false

unfoldable pub topic_value_matches : ValueType → ValueType → Bool
topic_value_matches bool bool = true
topic_value_matches double double = true
topic_value_matches string string = true
topic_value_matches string_array string_array = true
topic_value_matches _ _ = false

unfoldable pub bool_topic_value : Bool → TopicValue
bool_topic_value b = record empty_value { type = bool; bool_value = b }

unfoldable pub double_topic_value : ℕ → TopicValue
double_topic_value d = record empty_value { type = double; double_value = d }

unfoldable pub string_topic_value : String → TopicValue
string_topic_value s = record empty_value { type = string; string_value = s }

unfoldable pub string_array_topic_value : List String → TopicValue
string_array_topic_value ss = record empty_value { type = string_array; string_array_value = ss }

unfoldable pub init : NativeLinkCore
init = record {
  server_session_id = 1;
  next_topic_id = 1;
  next_server_sequence = 1;
  topics = [];
  clients = [];
}

-- `FindTopic`: the first topic with the path.
unfoldable pub find_topic : String → List TopicRuntime → Option TopicRuntime
find_topic p [] = none
find_topic p (t ∷ ts) = if t.descriptor.topic_path == p then some t else find_topic p ts

-- A write through the pointer that `FindTopic` returns.
unfoldable pub replace_topic : String → TopicRuntime → List TopicRuntime → List TopicRuntime
replace_topic p t [] = []
replace_topic p t (u ∷ us) =
    if u.descriptor.topic_path == p then t ∷ us else u ∷ replace_topic p t us

unfoldable pub find_client : String → List ClientRuntime → Option ClientRuntime
find_client i [] = none
find_client i (c ∷ cs) = if c.client_id == i then some c else find_client i cs

unfoldable pub validate_descriptor : TopicDescriptor → RegisterTopicResult
validate_descriptor d =
    if d.topic_path == ""
    then record { succeeded = false; message = "topic path is required"; topic_id = 0 }
    else if is_command d.topic_kind && d.replay_on_subscribe
    then record {
      succeeded = false;
      message = "command topics must not replay on subscribe";
      topic_id = 0;
    }
    else if not (is_state d.topic_kind) && is_latest_value d.retention_mode
    then record { succeeded = false; message = "only state topics may be retained"; topic_id = 0 }
    else if is_event d.topic_kind && not (is_server_only d.writer_policy)
    then record { succeeded = false; message = "event topics must be server-only"; topic_id = 0 }
    else record { succeeded = true; message = ""; topic_id = 0 }

unfoldable pub new_topic : TopicDescriptor → ℕ → ℕ → TopicRuntime
new_topic d id now = record {
  descriptor = d;
  topic_id = id;
  has_latest_value = false;
  latest_value = empty_value;
  latest_source_client_id = "";
  latest_value_time = now;
  lease_holder_client_id = "";
}

unfoldable pub register_topic :
    (ℕ → ℕ) → TopicDescriptor → NativeLinkCore → NativeLinkCore × RegisterTopicResult
unfolding new_topic
register_topic clock d c =
    if not (validate_descriptor d).succeeded
    then (c, validate_descriptor d)
    else elim (find_topic d.topic_path c.topics) [
      | some _ ↦
          (c, record { succeeded = false; message = "topic already registered"; topic_id = 0 })
      | none ↦ (
        record c {
          next_topic_id = inc64 c.next_topic_id;
          topics = c.topics ++ (new_topic d c.next_topic_id (clock 0) ∷ []);
        },
        record { succeeded = true; message = ""; topic_id = c.next_topic_id },
      )
    ]

unfoldable pub acquire_lease : String → String → NativeLinkCore → NativeLinkCore × Bool
acquire_lease p i c = elim (find_topic p c.topics) [
  | none ↦ (c, false)
  | some t ↦
      if not (is_lease_single_writer t.descriptor.writer_policy)
      then (c, false)
      else if not (t.lease_holder_client_id == "") && not (t.lease_holder_client_id == i)
      then (c, false)
      else (
        record c { topics = replace_topic p (record t { lease_holder_client_id = i }) c.topics },
        true,
      )
]

unfoldable pub release_lease : String → String → NativeLinkCore → NativeLinkCore × Bool
release_lease p i c = elim (find_topic p c.topics) [
  | none ↦ (c, false)
  | some t ↦ if not (t.lease_holder_client_id == i) then (c, false) else (
    record c { topics = replace_topic p (record t { lease_holder_client_id = "" }) c.topics },
    true,
  )
]
