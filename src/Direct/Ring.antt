-- ===== src/Direct/Ring.antt =====
-- SmartDashboard_Interface_direct/src/sd_direct_ring.cpp: `AttachRing`, `WriteUpsert` and
-- `ReadNextUpsert` on an attached ring (one with null pointers is refused by both). `now` is the
-- reading of `GetSteadyNowUs`. Logging is left out.
pub mod Frames
pub mod Emit
pub mod Holds
pub mod Write
pub mod Read
use smart_dashboard.Base.{
  ℕ, ◌+◌, ◌-◌, ◌%◌, ◌^◌, Bool, true, false, not, ◌||◌, List, [], ◌∷◌, Option, none, some, length,
  take, drop, min, leb, ltb, ◌==◌, if◌then◌else◌, inc64,
}
use smart_dashboard.Direct.Types.{
  ValueType, bool, double, string, string_array, VariableValue, empty_value, VariableUpdate,
  magic_number, version_number, key_max, string_max, string_array_max_count, ring_header_size,
  header_size, upsert, RingHeader, MessageHeader, Ring,
}
use smart_dashboard.Direct.Bytes.{Memory, add32, le_bytes, from_le}
use smart_dashboard.Direct.Copy.{ring_free, copy_to_ring, copy_from_ring, advance}
use smart_dashboard.Direct.Codec.{
  compute_value_len, to_wire_type, from_wire_type, header_bytes, header_of, parse_items,
}

-- The layout in memory is another than the expected one.
abbrev pub needs_init : RingHeader → ℕ → Bool
needs_init h payload_capacity =
    not (h.magic == magic_number)
    || not (h.version == version_number)
    || not (h.capacity_bytes == payload_capacity)

abbrev pub fresh_ring : Memory → ℕ → ℕ → Ring
fresh_ring m mapping_bytes now =
    let payload_capacity = (mapping_bytes - ring_header_size) % 2 ^ 32 in
    record {
      header = record {
        magic = magic_number;
        version = version_number;
        capacity_bytes = payload_capacity;
        write_index = 0;
        read_index = 0;
        published_seq = 0;
        dropped_count = 0;
        last_producer_heartbeat_us = now;
        last_consumer_heartbeat_us = now;
        consumer_instance_id = 0;
        consumer_read_index = 0;
      };
      payload = λ j. if ltb j (mapping_bytes - ring_header_size) then 0 else m j;
      capacity = payload_capacity;
    }

-- A mapping is its header and its payload; `none` is the null pointer.
unfoldable pub attach_ring : Option (RingHeader × Memory) → ℕ → Bool → ℕ → Option Ring
attach_ring none mapping_bytes initialize now = none
attach_ring (some (h, m)) mapping_bytes initialize now =
    let payload_capacity = (mapping_bytes - ring_header_size) % 2 ^ 32 in
    if leb mapping_bytes ring_header_size
    then none
    else if not (needs_init h payload_capacity)
    then some (record { header = h; payload = m; capacity = h.capacity_bytes })
    else if not initialize
    then none
    else some (fresh_ring m mapping_bytes now)

-- The payload and the cursor of a write in progress.
abbrev pub Cursor : Type 0
Cursor = Memory × ℕ

-- One `CopyToRing` and the cursor's step past it.
abbrev pub emit : ℕ → List ℕ → Cursor → Cursor
emit cap bytes (m, c) = (copy_to_ring cap m c bytes, advance cap c (length bytes))

unfoldable pub emit_items : ℕ → List (List ℕ) → Cursor → Cursor
emit_items cap [] s = s
emit_items cap (item ∷ items) s =
    let item_len = min (length item) string_max in
    let s' = emit cap (le_bytes 2 item_len) s in
    emit_items cap items (if ltb 0 item_len then emit cap (take item_len item) s' else s')

unfoldable pub emit_value : ℕ → ValueType → VariableValue → ℕ → Cursor → Cursor
unfolding emit_items
emit_value cap bool v len s = emit cap ((if v.bool_value then 1 else 0) ∷ []) s
emit_value cap double v len s = emit cap (le_bytes 8 v.double_value) s
emit_value cap string v len s = emit cap (take len v.string_value) s
emit_value cap string_array v len s =
    let count = min (length v.string_array_value) string_array_max_count in
    emit_items cap (take count v.string_array_value) (emit cap (count ∷ []) s)

-- The ring, whether the update was written, and `outDroppedCount`, which starts as `dropped`.
unfoldable pub write_upsert :
    List ℕ → ValueType → VariableValue → ℕ → ℕ → ℕ → ℕ → Ring → Ring × Bool × ℕ
unfolding emit_value
write_upsert key type value seq timestamp now dropped r =
    let h = r.header in
    let cap = r.capacity in
    let key_len = min (length key) key_max in
    let value_len = compute_value_len type value in
    let total_bytes = header_size + key_len + value_len in
    let dropped' = inc64 h.dropped_count in
    let msg : MessageHeader = record {
      message_bytes = total_bytes % 2 ^ 16;
      message_type = upsert;
      value_type = to_wire_type type;
      seq = seq;
      source_timestamp_us = timestamp;
      key_len = key_len;
      value_len = value_len;
    } in
    let s₀ = emit cap (header_bytes msg) (r.payload, h.write_index) in
    let s₁ = if ltb 0 key_len then emit cap (take key_len key) s₀ else s₀ in
    let s₂ = if ltb 0 value_len then emit_value cap type value value_len s₁ else s₁ in
    if cap == 0
    then (r, false, dropped)
    else if leb cap total_bytes
    then (record r { header = record h { dropped_count = dropped' } }, false, dropped')
    else if ltb (ring_free r) total_bytes
    then (record r { header = record h { dropped_count = dropped' } }, false, dropped')
    else (
      record r {
        header = record h {
          write_index = s₂.1;
          published_seq = seq;
          last_producer_heartbeat_us = now;
        };
        payload = s₂.0;
      },
      true,
      h.dropped_count,
    )

-- The value of a frame, from the bytes at the cursor.
unfoldable pub read_value : Ring → ℕ → ValueType → ℕ → VariableValue
read_value r cursor bool len =
    if leb 1 len
    then record empty_value {
      bool_value = not (from_le (copy_from_ring r.capacity r.payload cursor 1) == 0);
    }
    else empty_value
read_value r cursor double len =
    if leb 8 len
    then record empty_value {
      double_value = from_le (copy_from_ring r.capacity r.payload cursor 8);
    }
    else empty_value
read_value r cursor string len = record empty_value {
  string_value = if ltb 0 len then copy_from_ring r.capacity r.payload cursor len else [];
}
read_value r cursor string_array len =
    let bytes = copy_from_ring r.capacity r.payload cursor len in
    if ltb 0 len
    then record empty_value {
      string_array_value = parse_items (from_le (take 1 bytes)) (drop 1 bytes);
    }
    else empty_value

-- The ring, the new read cursor, and the update if one was read.
unfoldable pub read_next_upsert : ℕ → Ring → ℕ → Ring × ℕ × Option VariableUpdate
unfolding read_value
read_next_upsert now r read_index =
    let h = r.header in
    let cap = r.capacity in
    let msg = header_of (copy_from_ring cap r.payload read_index header_size) in
    let key_at = advance cap read_index header_size in
    let value_at = if ltb 0 msg.key_len then advance cap key_at msg.key_len else key_at in
    let type = from_wire_type msg.value_type in
    let u : VariableUpdate = record {
      key = if ltb 0 msg.key_len then copy_from_ring cap r.payload key_at msg.key_len else [];
      type = type;
      value = read_value r value_at type msg.value_len;
      seq = msg.seq;
      source_timestamp_us = msg.source_timestamp_us;
    } in
    if cap == 0
    then (r, read_index, none)
    else if read_index == h.write_index
    then (r, read_index, none)
    else if ltb msg.message_bytes header_size
    then (r, h.write_index, none)
    else if not (msg.message_type == upsert)
    then (r, advance cap read_index msg.message_bytes, none)
    else if not (msg.message_bytes == header_size + (msg.key_len + msg.value_len))
    then (r, h.write_index, none)
    else (
      record r { header = record h { last_consumer_heartbeat_us = now } },
      advance cap value_at msg.value_len,
      some u,
    )

-- The overload that keeps its cursor in `consumerReadIndex`: it is stored after an update only.
unfoldable pub read_next_shared : ℕ → Ring → Ring × Option VariableUpdate
read_next_shared now r =
    let (r', cursor, out) = read_next_upsert now r r.header.consumer_read_index in
    elim out [
      | none ↦ (r', none)
      | some u ↦ (record r' { header = record r'.header { consumer_read_index = cursor } }, some u)
    ]
