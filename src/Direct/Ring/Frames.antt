-- ===== src/Direct/Ring/Frames.antt =====
-- The frame of an update: its header, its bytes and their number.
use smart_dashboard.Base.{
  ℕ, ◌+◌, ◌%◌, ◌^◌, ◌<◌, ◌≡◌, List, ◌++◌, arith, length, take, min, length-append, length-take,
}
use smart_dashboard.Direct.Types.{
  ValueType, bool, double, string, string_array, VariableUpdate, key_max, header_size, upsert,
  MessageHeader,
}
use smart_dashboard.Direct.Codec.{compute_value_len, to_wire_type, header_bytes}
use smart_dashboard.Direct.Codec.RoundTrip.{
  value_bytes, length-value_bytes, length-header_bytes, delivered_value, IsWide,
}

abbrev pub frame_header : VariableUpdate → MessageHeader
frame_header u =
    let key_len = min (length u.key) key_max in
    let value_len = compute_value_len u.type u.value in
    record {
      message_bytes = (header_size + key_len + value_len) % 2 ^ 16;
      message_type = upsert;
      value_type = to_wire_type u.type;
      seq = u.seq;
      source_timestamp_us = u.source_timestamp_us;
      key_len = key_len;
      value_len = value_len;
    }

abbrev pub frame_bytes : VariableUpdate → List ℕ
frame_bytes u = header_bytes (frame_header u) ++ (take key_max u.key ++ value_bytes u.type u.value)

-- `totalBytes`
abbrev pub frame_size : VariableUpdate → ℕ
frame_size u = header_size + min (length u.key) key_max + compute_value_len u.type u.value

-- What a reader gets of an update.
abbrev pub delivered : VariableUpdate → VariableUpdate
delivered u = record u { key = take key_max u.key; value = delivered_value u.type u.value }

-- The numbers of an update are of their C++ types.
pub record IsSized (u : VariableUpdate) : Type 0 where
  pub seq_fits : u.seq < 2 ^ 64
  pub timestamp_fits : u.source_timestamp_us < 2 ^ 64
  pub double_fits : u.value.double_value < 2 ^ 64

pub length-frame_bytes : (u : VariableUpdate) → length (frame_bytes u) ≡ frame_size u
length-frame_bytes u = omega (
  arith,
  length-append (header_bytes (frame_header u)) (take key_max u.key ++ value_bytes u.type u.value),
  length-header_bytes (frame_header u),
  length-append (take key_max u.key) (value_bytes u.type u.value),
  length-take key_max u.key,
  length-value_bytes u.type u.value,
)

pub to_wire_type-lt : (t : ValueType) → to_wire_type t < 2 ^ 8
unfolding to_wire_type
to_wire_type-lt bool = omega arith
to_wire_type-lt double = omega arith
to_wire_type-lt string = omega arith
to_wire_type-lt string_array = omega arith

pub frame_header-IsWide : (u : VariableUpdate) → IsSized u → IsWide (frame_header u)
frame_header-IsWide u s = record {
  message_bytes_fit = omega arith;
  message_type_fit = omega arith;
  value_type_fit = to_wire_type-lt u.type;
  seq_fit = s.seq_fits;
  timestamp_fit = s.timestamp_fits;
  key_len_fit = omega arith;
  value_len_fit = omega (arith, length-value_bytes u.type u.value);
}
