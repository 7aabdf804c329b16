-- ===== src/Direct/Codec.antt =====
-- SmartDashboard_Interface_direct/src/sd_direct_ring.cpp: lengths, type codes, and the layout of
-- `wire::MessageHeader` in memory (low byte first, its padding zeroed by `msg {}`).
pub mod RoundTrip
use smart_dashboard.Base.{
  ℕ, zero, suc, ◌+◌, ◌%◌, ◌^◌, List, [], ◌∷◌, ◌++◌, length, take, drop, min, leb, ◌==◌,
  if◌then◌else◌,
}
use smart_dashboard.Direct.Types.{
  ValueType, bool, double, string, string_array, VariableValue, string_max, string_array_max_count,
  MessageHeader,
}
use smart_dashboard.Direct.Bytes.{le_bytes, from_le}

-- The loop of `ComputeValueLen` over the items that are sent.
items_len : List (List ℕ) → ℕ
items_len [] = 0
items_len (s ∷ ss) = 2 + min (length s) string_max + items_len ss

unfoldable pub compute_value_len : ValueType → VariableValue → ℕ
unfolding items_len
compute_value_len bool v = 1
compute_value_len double v = 8
compute_value_len string v = min (length v.string_value) string_max % 2 ^ 16
compute_value_len string_array v =
    (1 + items_len (take string_array_max_count v.string_array_value)) % 2 ^ 16

unfoldable pub to_wire_type : ValueType → ℕ
to_wire_type bool = 1
to_wire_type double = 2
to_wire_type string = 3
to_wire_type string_array = 4

-- Any other code is taken for a string.
unfoldable pub from_wire_type : ℕ → ValueType
from_wire_type n =
    if n == 1 then bool else if n == 2 then double else if n == 4 then string_array else string

-- `memcpy(msgBytes.data(), &msg, sizeof(msg))`
unfoldable pub header_bytes : MessageHeader → List ℕ
header_bytes h =
    le_bytes 2 h.message_bytes
    ++ (h.message_type
        ∷ h.value_type
        ∷ 0
        ∷ 0
        ∷ 0
        ∷ 0
        ∷ (le_bytes 8 h.seq
            ++ (le_bytes 8 h.source_timestamp_us
                ++ (le_bytes 2 h.key_len ++ (le_bytes 2 h.value_len ++ (0 ∷ 0 ∷ 0 ∷ 0 ∷ []))))))

abbrev field_at : ℕ → ℕ → List ℕ → ℕ
field_at offset n bytes = from_le (take n (drop offset bytes))

-- `memcpy(&msg, msgBytes.data(), sizeof(msg))`
unfoldable pub header_of : List ℕ → MessageHeader
header_of bytes = record {
  message_bytes = field_at 0 2 bytes;
  message_type = field_at 2 1 bytes;
  value_type = field_at 3 1 bytes;
  seq = field_at 8 8 bytes;
  source_timestamp_us = field_at 16 8 bytes;
  key_len = field_at 24 2 bytes;
  value_len = field_at 26 2 bytes;
}

-- The loop that reads the items of a string array: `count` of them at most, from the bytes that
-- are left. An item's length is cut to what is left.
unfoldable pub parse_items : ℕ → List ℕ → List (List ℕ)
parse_items zero bytes = []
parse_items (suc count) bytes =
    let rest = drop 2 bytes in
    let bounded_len = min (from_le (take 2 bytes)) (length rest) in
    if leb 2 (length bytes)
    then take bounded_len rest ∷ parse_items count (drop bounded_len rest)
    else []
