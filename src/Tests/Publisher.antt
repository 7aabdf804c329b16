-- ===== src/Tests/Publisher.antt =====
-- A publisher on a ring of 100 bytes.
use smart_dashboard.Base.{
  ℕ, ◌+◌, ◌%◌, ◌≡◌, ◌⊎◌, refl, inl, inr, true, List, [], ◌∷◌, ◌++◌, Option, none, some, arith,
  length, u64_mod,
}
use smart_dashboard.Base.Eq.{bytes_IsEq}
use smart_dashboard.Base.Assoc.{lookup, insert}
use smart_dashboard.Direct.Types.{
  ValueType, VariableValue, empty_value, RingHeader, Ring, magic_number, version_number,
}
use smart_dashboard.Direct.Bytes.{Memory}
use smart_dashboard.Direct.Codec.{compute_value_len}
use smart_dashboard.Direct.Ring.{attach_ring}
use smart_dashboard.Direct.Ring.Holds.{Holds}
use smart_dashboard.Direct.Publisher.{
  PendingValue, PendingMap, DirectPublisher, new_publisher, start, retain, stage, flush_now,
  insert_all, consumer_active, copy_retained, merge_copy,
}
use smart_dashboard.Direct.Publisher.Threads.{Part, run, step, fresh, consumed, last_published}
use smart_dashboard.Direct.Publisher.Latest.{run-published}
use smart_dashboard.Direct.Publisher.Replay.{look-merge}
use smart_dashboard.Direct.Publisher.Flush.{stamp_all, admitted, PublisherHolds, flush-appends}

abbrev speed : List ℕ
speed = 83 ∷ []

abbrev number : ℕ → VariableValue
number d = record empty_value { double_value = d }

abbrev header : RingHeader
header = record {
  magic = magic_number;
  version = version_number;
  capacity_bytes = 100;
  write_index = 0;
  read_index = 0;
  published_seq = 0;
  dropped_count = 0;
  last_producer_heartbeat_us = 0;
  last_consumer_heartbeat_us = 1000;
  consumer_instance_id = 7;
  consumer_read_index = 0;
}

abbrev ring : Ring
ring = record { header = header; payload = λ _. 0; capacity = 100 }

abbrev region : ℕ → Option (Option (RingHeader × Memory) × ℕ)
region n = some (some (header, λ _. 0), 172)

abbrev one : PendingValue
one = record { type = ValueType.double; value = number 1 }

abbrev two : PendingValue
two = record { type = ValueType.double; value = number 2 }

abbrev IsOneOrTwo : PendingValue → Type 0
IsOneOrTwo v = (v ≡ one) ⊎ (v ≡ two)

-- A call that publishes comes between the worker's copy and its merge.
abbrev raced : List Part
raced =
    Part.retain_value speed one
    ∷ Part.stage_value speed one
    ∷ Part.begin region true true 1
    ∷ Part.look 2000
    ∷ Part.retain_value speed two
    ∷ Part.stage_value speed two
    ∷ Part.merge
    ∷ []

run-published_example :
    let p = (run raced (fresh 100)).publisher in
    (lookup speed p.retained ≡ last_published speed raced none)
    × ((v : PendingValue) → lookup speed p.pending ≡ some v → IsOneOrTwo v)
run-published_example =
    run-published raced 100 speed IsOneOrTwo
      ((λ e. inl refl), ((λ e. inl refl), ((λ e. inr refl), ((λ e. inr refl), tt))))

-- The older value is staged over the newer one.
older_staged :
    let p = (run raced (fresh 100)).publisher in
    (lookup speed p.retained ≡ some two) × (lookup speed p.pending ≡ some one)
unfolding run step new_publisher retain stage start attach_ring consumer_active copy_retained
    merge_copy insert_all lookup insert
older_staged = (refl, refl)

-- The worker has seen the subscriber 7 when another takes its place.
abbrev replaced : List Part
replaced =
    Part.retain_value speed one
    ∷ Part.stage_value speed one
    ∷ Part.begin region true true 1
    ∷ Part.consume 1500 7 0
    ∷ Part.look 2000
    ∷ Part.merge
    ∷ Part.consume 2100 9 0
    ∷ []

abbrev replaced_ring : Ring
replaced_ring = record ring {
  header = record header { last_consumer_heartbeat_us = 2100; consumer_instance_id = 9 };
}

abbrev published_two : List Part
published_two = Part.retain_value speed two ∷ Part.stage_value speed two ∷ []

look-merge_example :
    let s = run replaced (fresh 100) in
    ((k : List ℕ) (v : PendingValue)
      → last_published k replaced none ≡ some v
      → lookup k (step Part.merge (run published_two (step (Part.look 2200) s))).publisher.pending
        ≡ some v)
    × ((copy_retained 2200 (copy_retained 2200 s.publisher).0).1 ≡ [])
unfolding run step new_publisher retain stage start attach_ring consumer_active copy_retained
    merge_copy consumed
look-merge_example =
    look-merge replaced published_two 100 2200 replaced_ring
      (refl, refl, inr (omega arith, omega arith)) (refl, (refl, tt))

abbrev publisher : DirectPublisher
publisher = record {
  ring_buffer_bytes = 100;
  running = true;
  published_seq = 0;
  dropped_count = 0;
  ring = some ring;
  pending =
      (speed, record { type = ValueType.double; value = number 1 })
      ∷ (65 ∷ [], record { type = ValueType.double; value = number 2 })
      ∷ (66 ∷ [], record { type = ValueType.double; value = number 3 })
      ∷ [];
  retained = [];
  consumer_was_active = true;
  last_observed_consumer_instance_id = 7;
}

abbrev as_stored : PendingMap → PendingMap
as_stored m = m

abbrev clock : ℕ → ℕ
clock n = 5

empty-Holds : Holds ring 0 0 []
empty-Holds = record {
  small = omega arith;
  read_in = omega arith;
  cursor_at = refl;
  write_at = refl;
  room = omega arith;
  pending = refl;
  sized = tt;
}

-- Frames of 41 bytes: the third finds no room.
two_fit : length (admitted 100 0 (stamp_all clock 0 publisher.pending)) ≡ 2
unfolding admitted stamp_all compute_value_len
two_fit = refl

flush-appends_example :
    let (p', done) = flush_now as_stored clock 6 publisher in
    (done ≡ true)
    × (p'.pending ≡ [])
    × (p'.published_seq % u64_mod ≡ (0 + 3) % u64_mod)
    × PublisherHolds p' 100 0 0 ([] ++ admitted 100 (0 + 0) (stamp_all clock 0 publisher.pending))
unfolding stamp_all
flush-appends_example =
    flush-appends as_stored clock 6 publisher 100 0 0 [] (refl, (ring, refl, refl, empty-Holds))
      (
        record { seq_fits = omega arith; timestamp_fits = omega arith; double_fits = omega arith },
        (
          record {
            seq_fits = omega arith;
            timestamp_fits = omega arith;
            double_fits = omega arith;
          },
          (
            record {
              seq_fits = omega arith;
              timestamp_fits = omega arith;
              double_fits = omega arith;
            },
            tt,
          ),
        ),
      )
