-- ===== src/Direct/Subscriber/Heartbeat.antt =====
-- When a subscriber takes its publisher for stale.
use smart_dashboard.Base.{ℕ, ◌*◌, ◌-◌, ◌<◌, ◌≤◌, ◌≡◌, ◌≢◌, ◌⊎◌, ◌↔◌, arith, u64_mod}
use smart_dashboard.Direct.Subscriber.{ConnectionState, DirectSubscriber, check_heartbeat}

-- With readings of the clock that do not go back and a limit below 2^64 microseconds, the publisher
-- is stale exactly when its heartbeat is not zero and is older than the limit, has not moved since
-- the last look, and has not been seen to move for longer than the limit; the state is connecting
-- exactly when the heartbeat is zero.
pub check_heartbeat-stale :
    (now heartbeat : ℕ) (s : DirectSubscriber)
    → 0 < now
    → now < u64_mod
    → heartbeat ≤ now
    → s.last_heartbeat_change_us ≤ now
    → s.stale_timeout_ms * 1000 < u64_mod
    → let limit = s.stale_timeout_ms * 1000 in
      let s' = check_heartbeat now heartbeat s in
      ((s'.connection_state ≡ ConnectionState.stale) ↔ (
        (heartbeat ≢ 0)
        × (limit < now - heartbeat)
        × (heartbeat ≡ s.last_producer_heartbeat_us)
        × ((s.last_heartbeat_change_us ≡ 0) ⊎ (limit < now - s.last_heartbeat_change_us))))
      × ((s'.connection_state ≡ ConnectionState.connecting) ↔ (heartbeat ≡ 0))
unfolding check_heartbeat
check_heartbeat-stale now heartbeat s a b c d e = ground arith
