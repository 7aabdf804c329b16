-- ===== src/Tests/Direct.antt =====
-- A ring of 100 bytes whose cursors stand close to its end, so that frames go round.
use smart_dashboard.Base.{ℕ, ◌<◌, ◌≡◌, ◌⊎◌, refl, List, [], ◌∷◌, true, false, none, some, arith}
use smart_dashboard.Direct.Types.{
  ValueType, VariableUpdate, empty_value, Ring, RingHeader, magic_number, version_number,
}
use smart_dashboard.Direct.Bytes.{store, load}
use smart_dashboard.Direct.Copy.{copy_from_ring, copy_to_ring, ring_free}
use smart_dashboard.Direct.Codec.{
  compute_value_len, header_of, header_bytes, to_wire_type, from_wire_type, parse_items,
}
use smart_dashboard.Direct.Ring.{attach_ring, write_upsert, read_next_upsert, read_next_shared}
use smart_dashboard.Direct.Ring.Holds.{Holds}
use smart_dashboard.Direct.Queue.{Op, write, read, release, written, got, released, run, run_queue}
use smart_dashboard.Direct.Queue.Refine.{run-eq-run_queue}
use smart_dashboard.Direct.Queue.Attach.{IsLaidOut, IsFresh, attach_ring-initialize}

abbrev header : RingHeader
header = record {
  magic = magic_number;
  version = version_number;
  capacity_bytes = 100;
  write_index = 90;
  read_index = 0;
  published_seq = 0;
  dropped_count = 0;
  last_producer_heartbeat_us = 0;
  last_consumer_heartbeat_us = 0;
  consumer_instance_id = 0;
  consumer_read_index = 90;
}

abbrev ring : Ring
ring = record { header = header; payload = λ _. 0; capacity = 100 }

abbrev reading : VariableUpdate
reading = record {
  key = 65 ∷ 66 ∷ [];
  type = ValueType.string;
  value = record empty_value { string_value = 7 ∷ 8 ∷ 9 ∷ [] };
  seq = 1;
  source_timestamp_us = 1000;
}

abbrev names : VariableUpdate
names = record reading {
  type = ValueType.string_array;
  value = record empty_value { string_array_value = (5 ∷ []) ∷ [] ∷ (6 ∷ 6 ∷ []) ∷ [] };
  seq = 2;
}

abbrev script : List Op
script =
    write reading 1
    ∷ write names 2
    ∷ write reading 3
    ∷ read 4
    ∷ write reading 5
    ∷ release
    ∷ write reading 6
    ∷ read 7
    ∷ []

empty-Holds : Holds ring 90 0 []
empty-Holds = record {
  small = omega arith;
  read_in = omega arith;
  cursor_at = refl;
  write_at = refl;
  room = omega arith;
  pending = refl;
  sized = tt;
}

run-eq-run_queue_example :
    run (record { ring = ring; cursor = 90 }) script ≡ run_queue 100 [] 0 script
run-eq-run_queue_example = run-eq-run_queue script ring 90 0 [] empty-Holds (omega arith)

-- Frames of 37 and 44 bytes: the third write finds no room until the first is read and released.
replies :
    run (record { ring = ring; cursor = 90 }) script
    ≡ written true
      ∷ written true
      ∷ written false
      ∷ got (some reading)
      ∷ written false
      ∷ released
      ∷ written true
      ∷ got (some names)
      ∷ []
unfolding run write_upsert read_next_upsert copy_to_ring copy_from_ring ring_free compute_value_len
    header_of header_bytes to_wire_type from_wire_type parse_items store load
replies = refl

attach_ring-initialize_example :
    (r : Ring) × (attach_ring (some (header, λ _. 0)) 172 true 5 ≡ some r)
    × (r.capacity ≡ 100)
    × ((IsLaidOut header 100 × (r.header ≡ header) × (r.payload ≡ (λ _. 0)))
        ⊎ (¬ IsLaidOut header 100 × IsFresh r × ((j : ℕ) → j < 100 → r.payload j ≡ 0)))
attach_ring-initialize_example =
    attach_ring-initialize header (λ _. 0) 172 5 (omega arith) (omega arith)

-- The zeroed payload makes the frame at offset 90 malformed when the writer stands elsewhere.
abbrev torn : Ring
torn = record ring { header = record header { write_index = 10 } }

-- The caller's cursor goes to the writer, the cursor in shared memory stays.
torn_read :
    (read_next_upsert 5 torn 90 ≡ (torn, 10, none)) × (read_next_shared 5 torn ≡ (torn, none))
unfolding read_next_shared read_next_upsert header_of copy_from_ring load
torn_read = (refl, refl)
