-- ===== src/Direct/Subscriber.antt =====
-- SmartDashboard_Interface_direct/src/sd_direct_subscriber_stub.cpp. What the operating system
-- answers is an argument. The calls of `m_update` are a list, those of `m_state` are left out. One
-- pass of `RunLoop` is one step, so nothing is written during it.
pub mod Drain
pub mod Heartbeat
use smart_dashboard.Base.{
  ℕ, zero, suc, ◌+◌, ◌-◌, ◌*◌, ◌%◌, ◌^◌, Bool, true, false, not, List, [], ◌∷◌, Option, none, some,
  ltb, ◌==◌, if◌then◌else◌, u64_mod,
}
use smart_dashboard.Direct.Types.{VariableUpdate, ring_header_size, RingHeader, Ring}
use smart_dashboard.Direct.Bytes.{Memory}
use smart_dashboard.Direct.Ring.{attach_ring, read_next_upsert}

abbrev pub default_capacity_bytes : ℕ
default_capacity_bytes = 2 ^ 20

pub data ConnectionState : Type 0 where
  disconnected connecting connected stale : ConnectionState

pub record DirectSubscriber : Type 0 where
  pub stale_timeout_ms : ℕ
  pub running : Bool
  pub connection_state : ConnectionState
  pub last_seq : ℕ
  pub dropped_count : ℕ
  pub instance_id : ℕ
  pub last_producer_heartbeat_us : ℕ
  pub last_heartbeat_change_us : ℕ
  pub stale_logged : Bool
  pub read_cursor : ℕ
  pub ring : Option Ring

-- The loop that drains the ring, with fuel: the ring, the cursor, the last number and the updates.
unfoldable pub drain : ℕ → (ℕ → ℕ) → Ring → ℕ → ℕ → Ring × ℕ × ℕ × List VariableUpdate
drain zero clock r cursor last_seq = (r, cursor, last_seq, [])
drain (suc fuel) clock r cursor last_seq =
    let (r', cursor', out) = read_next_upsert (clock 0) r cursor in
    elim out [
      | none ↦ (r', cursor', last_seq, [])
      | some u ↦
          let (r'', cursor'', seq, us) = drain fuel (λ n. clock (suc n)) r' cursor' u.seq in
          (r'', cursor'', seq, u ∷ us)
    ]

-- Subtraction of `std::uint64_t`.
abbrev pub sub64 : ℕ → ℕ → ℕ
sub64 a b = (a + u64_mod - b) % u64_mod

-- The state that a pass sets, with the new time of the heartbeat's last change and `m_staleLogged`.
unfoldable pub check_heartbeat : ℕ → ℕ → DirectSubscriber → DirectSubscriber
check_heartbeat now heartbeat s =
    let stale_limit = s.stale_timeout_ms * 1000 % u64_mod in
    let moved = not (heartbeat == s.last_producer_heartbeat_us) in
    let change = if moved then now else s.last_heartbeat_change_us in
    let logged = if moved then false else s.stale_logged in
    let quiet = if change == 0 then sub64 now heartbeat else sub64 now change in
    let s' = record s {
      last_producer_heartbeat_us = heartbeat;
      last_heartbeat_change_us = change;
      stale_logged = logged;
    } in
    if heartbeat == 0
    then record s' { connection_state = connecting }
    else if not (ltb stale_limit (sub64 now heartbeat))
    then record s' { connection_state = connected; stale_logged = false }
    else if ltb stale_limit quiet
    then record s' { connection_state = stale; stale_logged = true }
    else record s' { connection_state = connected }

-- One pass of the loop: `woken` if the wait ended by the event or its timeout. The updates are the
-- calls of `m_update`.
unfoldable pub pass :
    ℕ → Bool → (ℕ → ℕ) → ℕ → DirectSubscriber → DirectSubscriber × List VariableUpdate
unfolding drain check_heartbeat
pass fuel woken clock now s = elim s.ring [
  | none ↦ (s, [])
  | some r ↦
      let drained = drain fuel clock r s.read_cursor s.last_seq in
      let (r', cursor, seq, us) = if woken then drained else (r, s.read_cursor, s.last_seq, []) in
      let s' = check_heartbeat now r'.header.last_producer_heartbeat_us s in
      (
        record s' {
          last_seq = seq;
          dropped_count = r'.header.dropped_count;
          read_cursor = cursor;
          ring = some (record r' {
            header = record r'.header {
              consumer_instance_id = s.instance_id;
              consumer_read_index = cursor;
              last_consumer_heartbeat_us = now;
            };
          });
        },
        us,
      )
]

-- `instance` is the result of `NextInstanceId`.
unfoldable pub start :
    ℕ
    → (ℕ → Option (Option (RingHeader × Memory) × ℕ))
    → Bool
    → Bool
    → ℕ
    → DirectSubscriber
    → DirectSubscriber × Bool
start instance_id open_region data_event heartbeat_event now s =
    let s₀ = record s {
      connection_state = connecting;
      instance_id = instance_id;
      last_producer_heartbeat_us = 0;
      last_heartbeat_change_us = 0;
      stale_logged = false;
    } in
    if s.running
    then (s, true)
    else elim (open_region (ring_header_size + default_capacity_bytes)) [
      | none ↦ (record s₀ { connection_state = disconnected }, false)
      | some (base, size) ↦ elim (attach_ring base size true now) [
        | none ↦ (record s₀ { connection_state = disconnected }, false)
        | some r ↦
            let cursor = r.header.write_index in
            let s₁ = record s₀ {
              read_cursor = cursor;
              ring = some (record r { header = record r.header { consumer_read_index = cursor } });
            } in
            if not data_event
            then (record s₁ { connection_state = disconnected }, false)
            else if not heartbeat_event
            then (record s₁ { connection_state = disconnected }, false)
            else (record s₁ { running = true }, true)
      ]
    ]

unfoldable pub stop : DirectSubscriber → DirectSubscriber
stop s = if not s.running then s else record s {
  running = false;
  last_producer_heartbeat_us = 0;
  last_heartbeat_change_us = 0;
  stale_logged = false;
  connection_state = disconnected;
}
