-- ===== src/Direct/Publisher.antt =====
-- ClientInterface_direct/src/sd_direct_publisher_stub.cpp. What the operating system answers (the
-- mapping, the events) is an argument, a signal of an event is left out, and an `unordered_map` is
-- an association list: `order` is the order in which a loop goes over it. `StorePending` and
-- `MaybeReplayRetainedSnapshot` have one definition for each of their two locks, since other threads
-- come between them; what is staged while `FlushNow` writes counts as staged after it.
pub mod Threads
pub mod Latest
pub mod Replay
pub mod Flush
use smart_dashboard.Base.{
  ℕ, suc, ◌+◌, ◌-◌, Bool, true, false, not, ◌&&◌, ◌||◌, List, [], ◌∷◌, Option, none, some, leb,
  ◌==◌, if◌then◌else◌, inc64,
}
use smart_dashboard.Base.Eq.{bytes_IsEq}
use smart_dashboard.Base.Assoc.{insert}
use smart_dashboard.Direct.Types.{
  ValueType, bool, double, string, string_array, VariableValue, empty_value, ring_header_size,
  RingHeader, Ring,
}
use smart_dashboard.Direct.Bytes.{Memory}
use smart_dashboard.Direct.Ring.{attach_ring, write_upsert}

pub record PendingValue : Type 0 where
  pub type : ValueType
  pub value : VariableValue

abbrev pub PendingMap : Type 0
PendingMap = List (List ℕ × PendingValue)

-- `m_ring` is `none` while its header is the null pointer.
pub record DirectPublisher : Type 0 where
  pub ring_buffer_bytes : ℕ
  pub running : Bool
  pub published_seq : ℕ
  pub dropped_count : ℕ
  pub ring : Option Ring
  pub pending : PendingMap
  pub retained : PendingMap
  pub consumer_was_active : Bool
  pub last_observed_consumer_instance_id : ℕ

unfoldable pub new_publisher : ℕ → DirectPublisher
new_publisher ring_buffer_bytes = record {
  ring_buffer_bytes = ring_buffer_bytes;
  running = false;
  published_seq = 0;
  dropped_count = 0;
  ring = none;
  pending = [];
  retained = [];
  consumer_was_active = false;
  last_observed_consumer_instance_id = 0;
}

-- `open_region` answers a request for a number of bytes with the mapping and its size. The two
-- Booleans say whether the events were opened.
unfoldable pub start :
    (ℕ → Option (Option (RingHeader × Memory) × ℕ))
    → Bool
    → Bool
    → ℕ
    → DirectPublisher
    → DirectPublisher × Bool
start open_region data_event heartbeat_event now p =
    if p.running then (p, true) else elim (open_region (ring_header_size + p.ring_buffer_bytes)) [
      | none ↦ (p, false)
      | some (base, size) ↦ elim (attach_ring base size true now) [
        | none ↦ (p, false)
        | some r ↦
            let p' = record p {
              ring = some r;
              last_observed_consumer_instance_id = r.header.consumer_instance_id;
            } in
            if not data_event
            then (p', false)
            else if not heartbeat_event
            then (p', false)
            else (record p' { running = true }, true)
      ]
    ]

unfoldable pub retain : List ℕ → PendingValue → DirectPublisher → DirectPublisher
retain key v p = record p { retained = insert key v p.retained }

unfoldable pub stage : List ℕ → PendingValue → DirectPublisher → DirectPublisher
stage key v p = record p { pending = insert key v p.pending }

-- Without another thread between the two.
unfoldable pub store_pending :
    List ℕ → ValueType → VariableValue → DirectPublisher → DirectPublisher
store_pending key type value p =
    let v : PendingValue = record { type = type; value = value } in stage key v (retain key v p)

unfoldable pub publish_bool : List ℕ → Bool → DirectPublisher → DirectPublisher
publish_bool key b p = store_pending key bool (record empty_value { bool_value = b }) p

unfoldable pub publish_double : List ℕ → ℕ → DirectPublisher → DirectPublisher
publish_double key d p = store_pending key double (record empty_value { double_value = d }) p

unfoldable pub publish_string : List ℕ → List ℕ → DirectPublisher → DirectPublisher
publish_string key s p = store_pending key string (record empty_value { string_value = s }) p

unfoldable pub publish_string_array : List ℕ → List (List ℕ) → DirectPublisher → DirectPublisher
publish_string_array key ss p =
    store_pending key string_array (record empty_value { string_array_value = ss }) p

-- What the loop of `FlushNow` changes; `dropped` is its local variable.
pub record FlushState : Type 0 where
  pub ring : Option Ring
  pub published_seq : ℕ
  pub dropped_count : ℕ
  pub dropped : ℕ
  pub published_anything : Bool

unfoldable pub flush_entry : ℕ → ℕ → List ℕ → PendingValue → FlushState → FlushState
flush_entry timestamp now key v s =
    let seq = inc64 s.published_seq in
    elim s.ring [
      | none ↦ record s { published_seq = seq; dropped_count = s.dropped }
      | some r ↦
          let (r', wrote, dropped) =
            write_upsert key v.type v.value seq timestamp now s.dropped r in
          record {
            ring = some r';
            published_seq = seq;
            dropped_count = if wrote then s.dropped_count else dropped;
            dropped = dropped;
            published_anything = s.published_anything || wrote;
          }
    ]

-- Every entry has two readings of the clock set aside: its timestamp, and the heartbeat that a
-- successful write stores.
unfoldable pub flush_entries : (ℕ → ℕ) → PendingMap → FlushState → FlushState
flush_entries clock [] s = s
flush_entries clock ((key, v) ∷ es) s =
    flush_entries (λ n. clock (suc (suc n))) es (flush_entry (clock 0) (clock 1) key v s)

-- `now` is the reading of the clock at the end.
unfoldable pub flush_now :
    (PendingMap → PendingMap) → (ℕ → ℕ) → ℕ → DirectPublisher → DirectPublisher × Bool
unfolding flush_entries flush_entry
flush_now order clock now p =
    let s : FlushState = record {
      ring = p.ring;
      published_seq = p.published_seq;
      dropped_count = p.dropped_count;
      dropped = p.dropped_count;
      published_anything = false;
    } in
    let s' = flush_entries clock (order p.pending) s in
    if not p.running then (p, false) else (
      record p {
        ring = elim s'.ring [
          | none ↦ none
          | some r ↦
              some (record r { header = record r.header { last_producer_heartbeat_us = now } })
        ];
        published_seq = s'.published_seq;
        dropped_count = s'.dropped_count;
        pending = [];
      },
      true,
    )

unfoldable pub stop : (PendingMap → PendingMap) → (ℕ → ℕ) → ℕ → DirectPublisher → DirectPublisher
unfolding flush_now
stop order clock now p =
    if not p.running
    then p
    else record (flush_now order clock now p).0 { running = false; consumer_was_active = false }

-- The loop that copies the retained values over the pending ones.
unfoldable pub insert_all : PendingMap → PendingMap → PendingMap
insert_all [] m = m
insert_all ((key, v) ∷ es) m = insert key v (insert_all es m)

unfoldable pub consumer_active : ℕ → RingHeader → Bool
consumer_active now h =
    let beat = h.last_consumer_heartbeat_us in
    not (beat == 0) && leb beat now && leb (now - beat) 500000

-- `MaybeReplayRetainedSnapshot` as far as the copy of the retained values; no copy is the empty one.
unfoldable pub copy_retained : ℕ → DirectPublisher → DirectPublisher × PendingMap
copy_retained now p = elim p.ring [
  | none ↦ (p, [])
  | some r ↦
      let id = r.header.consumer_instance_id in
      let observed = if id == 0 then p.last_observed_consumer_instance_id else id in
      let changed = not (id == 0) && not (id == p.last_observed_consumer_instance_id) in
      if not (consumer_active now r.header)
      then (
        record p { consumer_was_active = false; last_observed_consumer_instance_id = observed },
        [],
      )
      else if p.consumer_was_active && not changed
      then (p, [])
      else (
        record p { consumer_was_active = true; last_observed_consumer_instance_id = observed },
        p.retained,
      )
]

-- The rest of it.
unfoldable pub merge_copy : PendingMap → DirectPublisher → DirectPublisher
merge_copy copy p = record p { pending = insert_all copy p.pending }
