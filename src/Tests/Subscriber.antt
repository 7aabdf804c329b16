-- ===== src/Tests/Subscriber.antt =====
-- A subscriber of a ring of 100 bytes that holds one update.
use smart_dashboard.Base.{ℕ, ◌*◌, ◌-◌, ◌<◌, ◌≡◌, ◌≢◌, ◌⊎◌, ◌↔◌, refl, true, [], ◌∷◌, some, arith}
use smart_dashboard.Direct.Types.{
  ValueType, VariableUpdate, empty_value, RingHeader, Ring, magic_number, version_number,
}
use smart_dashboard.Direct.Codec.{compute_value_len}
use smart_dashboard.Direct.Ring.Holds.{Holds}
use smart_dashboard.Direct.Ring.Write.{written_ring, written-Holds}
use smart_dashboard.Direct.Subscriber.{ConnectionState, DirectSubscriber, check_heartbeat, pass}
use smart_dashboard.Direct.Subscriber.Drain.{IsPassed, pass-delivers}
use smart_dashboard.Direct.Subscriber.Heartbeat.{check_heartbeat-stale}

abbrev header : RingHeader
header = record {
  magic = magic_number;
  version = version_number;
  capacity_bytes = 100;
  write_index = 90;
  read_index = 0;
  published_seq = 0;
  dropped_count = 0;
  last_producer_heartbeat_us = 0;
  last_consumer_heartbeat_us = 0;
  consumer_instance_id = 0;
  consumer_read_index = 90;
}

abbrev ring : Ring
ring = record { header = header; payload = λ _. 0; capacity = 100 }

abbrev speed : VariableUpdate
speed = record {
  key = 83 ∷ [];
  type = ValueType.double;
  value = record empty_value { double_value = 4 };
  seq = 1;
  source_timestamp_us = 1000;
}

abbrev subscriber : DirectSubscriber
subscriber = record {
  stale_timeout_ms = 1;
  running = true;
  connection_state = ConnectionState.connecting;
  last_seq = 0;
  dropped_count = 0;
  instance_id = 7;
  last_producer_heartbeat_us = 500;
  last_heartbeat_change_us = 600;
  stale_logged = true;
  read_cursor = 90;
  ring = some (written_ring speed 1 0 ring);
}

empty-Holds : Holds ring 90 0 []
empty-Holds = record {
  small = omega arith;
  read_in = omega arith;
  cursor_at = refl;
  write_at = refl;
  room = omega arith;
  pending = refl;
  sized = tt;
}

speed-Holds : Holds (written_ring speed 1 0 ring) 90 0 (speed ∷ [])
unfolding compute_value_len
speed-Holds =
    written-Holds speed 1 0 ring 90 0 [] empty-Holds
      (record { seq_fits = omega arith; timestamp_fits = omega arith; double_fits = omega arith })
      (omega arith)

pass-delivers_example :
    IsPassed
      (speed ∷ [])
      (written_ring speed 1 0 ring)
      subscriber
      9
      (pass 2 true (λ n. 5) 9 subscriber)
pass-delivers_example =
    pass-delivers 2 (λ n. 5) 9 subscriber (written_ring speed 1 0 ring) 0 (speed ∷ []) refl
      speed-Holds (omega arith)

abbrev beat : ℕ
beat = 500

check_heartbeat-stale_example :
    let s' = check_heartbeat 2000 beat subscriber in
    ((s'.connection_state ≡ ConnectionState.stale) ↔ (
      (beat ≢ 0)
      × (1 * 1000 < 2000 - beat)
      × (beat ≡ subscriber.last_producer_heartbeat_us)
      × ((subscriber.last_heartbeat_change_us ≡ 0) ⊎ (1 * 1000 < 2000 - 600))))
    × ((s'.connection_state ≡ ConnectionState.connecting) ↔ (beat ≡ 0))
check_heartbeat-stale_example =
    check_heartbeat-stale 2000 beat subscriber (omega arith) (omega arith) (omega arith)
      (omega arith) (omega arith)
