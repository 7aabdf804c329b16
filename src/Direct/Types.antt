-- ===== src/Direct/Types.antt =====
-- SmartDashboard_Interface_direct/include/sd_direct_types.h and sd_direct_wire.h.
-- A string is the list of its bytes, and a `double` its 64-bit pattern: both are only copied.
use smart_dashboard.Base.{ℕ, Bool, false, List, []}

pub data ValueType : Type 0 where
  bool double string string_array : ValueType

pub record VariableValue : Type 0 where
  pub bool_value : Bool
  pub double_value : ℕ
  pub string_value : List ℕ
  pub string_array_value : List (List ℕ)

-- `VariableValue value;`
abbrev pub empty_value : VariableValue
empty_value = record {
  bool_value = false;
  double_value = 0;
  string_value = [];
  string_array_value = [];
}

pub record VariableUpdate : Type 0 where
  pub key : List ℕ
  pub type : ValueType
  pub value : VariableValue
  pub seq : ℕ
  pub source_timestamp_us : ℕ

abbrev pub magic_number : ℕ
magic_number = 0x53444442

abbrev pub version_number : ℕ
version_number = 1

abbrev pub key_max : ℕ
key_max = 128

abbrev pub string_max : ℕ
string_max = 256

abbrev pub string_array_max_count : ℕ
string_array_max_count = 32

-- `sizeof(wire::RingHeader)` and `sizeof(wire::MessageHeader)`, both aligned to 8.
abbrev pub ring_header_size : ℕ
ring_header_size = 72

abbrev pub header_size : ℕ
header_size = 32

-- `MsgType::Upsert`
abbrev pub upsert : ℕ
upsert = 1

pub record RingHeader : Type 0 where
  pub magic : ℕ
  pub version : ℕ
  pub capacity_bytes : ℕ
  pub write_index : ℕ
  pub read_index : ℕ
  pub published_seq : ℕ
  pub dropped_count : ℕ
  pub last_producer_heartbeat_us : ℕ
  pub last_consumer_heartbeat_us : ℕ
  pub consumer_instance_id : ℕ
  pub consumer_read_index : ℕ

pub record MessageHeader : Type 0 where
  pub message_bytes : ℕ
  pub message_type : ℕ
  pub value_type : ℕ
  pub seq : ℕ
  pub source_timestamp_us : ℕ
  pub key_len : ℕ
  pub value_len : ℕ

-- The shared mapping of an attached ring: the header, and the byte at each offset of the payload.
-- `capacity` is the copy of `capacityBytes` in `RingAttachResult`.
pub record Ring : Type 0 where
  pub header : RingHeader
  pub payload : ℕ → ℕ
  pub capacity : ℕ
