-- ===== src/NativeLink/Calls/Reach.antt =====
-- Every sequence of calls keeps the invariant.
use smart_dashboard.Base.{
  ℕ, ◌+◌, ◌≤◌, ◌<◌, ◌≡◌, String, List, [], ◌∷◌, arith, length, u64_mod, Bool, true, false,
}
use smart_dashboard.NativeLink.Types.{TopicValue, NativeLinkCore}
use smart_dashboard.NativeLink.Topics.{init, register_topic, acquire_lease, release_lease}
use smart_dashboard.NativeLink.Publish.{
  reject, reject_unknown, accept, publish_internal, publish, publish_from_server,
}
use smart_dashboard.NativeLink.Sessions.{
  connect_client, disconnect_client, drain_client_events, begin_new_session,
}
use smart_dashboard.NativeLink.Calls.{Call, step, run}
use smart_dashboard.NativeLink.Calls.Inv.{
  IsValid, register-IsValid, acquire-IsValid, release-IsValid,
}
use smart_dashboard.NativeLink.Calls.Writes.{publish_internal-IsValid}
use smart_dashboard.NativeLink.Calls.Clients.{
  connect-IsValid, disconnect-IsValid, drain-IsValid, new_session-IsValid,
}

init-IsValid : IsValid init
unfolding init
init-IsValid = record {
  topics_ok = record { ids = omega arith; distinct = tt; each = tt };
  numbered = omega arith;
  clients_ok = record { distinct = tt; each = tt };
}

step-IsValid :
    (clock : ℕ → ℕ) (call : Call) (c : NativeLinkCore)
    → IsValid c
    → c.next_topic_id + 1 < u64_mod
    → c.next_server_sequence + 1 < u64_mod
    → IsValid (step clock call c)
unfolding step publish publish_from_server
step-IsValid clock (Call.register d) c v b s = register-IsValid clock d c v b
step-IsValid clock (Call.acquire p i) c v b s = acquire-IsValid p i c v
step-IsValid clock (Call.release p i) c v b s = release-IsValid p i c v
step-IsValid clock (Call.connect i) c v b s = connect-IsValid clock i c v
step-IsValid clock (Call.disconnect i) c v b s = disconnect-IsValid i c v
step-IsValid clock (Call.drain i) c v b s = drain-IsValid i c v
step-IsValid clock (Call.client_write p w i) c v b s =
    publish_internal-IsValid clock p w i false c v s
step-IsValid clock (Call.server_write p w) c v b s =
    publish_internal-IsValid clock p w "server" true c v s
step-IsValid clock Call.new_session c v b s = new_session-IsValid c v

publish-counters :
    (clock : ℕ → ℕ) (p : String) (w : TopicValue) (i : String) (allow : Bool) (c : NativeLinkCore)
    → let c' = (publish_internal clock p w i allow c).0 in
      (c'.next_topic_id ≡ c.next_topic_id) × (c'.next_server_sequence ≤ c.next_server_sequence + 1)
unfolding publish_internal reject reject_unknown accept
publish-counters clock p w i allow c = ground arith

-- A call gives out one topic id and one sequence number at most.
step-counters :
    (clock : ℕ → ℕ) (call : Call) (c : NativeLinkCore)
    → 1 ≤ c.next_server_sequence
    → let c' = step clock call c in
      (c'.next_topic_id ≤ c.next_topic_id + 1)
      × (c'.next_server_sequence ≤ c.next_server_sequence + 1)
unfolding step publish publish_from_server
step-counters clock (Call.register d) c h = unfold register_topic in ground arith
step-counters clock (Call.acquire p i) c h = unfold acquire_lease in ground arith
step-counters clock (Call.release p i) c h = unfold release_lease in ground arith
step-counters clock (Call.connect i) c h = unfold connect_client in ground arith
step-counters clock (Call.disconnect i) c h = unfold disconnect_client in ground arith
step-counters clock (Call.drain i) c h = unfold drain_client_events in ground arith
step-counters clock (Call.client_write p w i) c h =
    omega (arith, publish-counters clock p w i false c)
step-counters clock (Call.server_write p w) c h =
    omega (arith, publish-counters clock p w "server" true c)
step-counters clock Call.new_session c h = unfold begin_new_session in omega arith

run-IsValid_from :
    (calls : List ((ℕ → ℕ) × Call)) (c : NativeLinkCore)
    → IsValid c
    → c.next_topic_id + length calls < u64_mod
    → c.next_server_sequence + length calls < u64_mod
    → IsValid (run calls c)
unfolding run
run-IsValid_from [] c v b s = v
run-IsValid_from ((clock, call) ∷ calls) c v b s =
    let k = step-counters clock call c v.numbered in
    run-IsValid_from calls (step clock call c)
      (step-IsValid clock call c v (omega arith) (omega arith)) (omega (arith, k))
      (omega (arith, k))

-- After any sequence of fewer than 2^64 - 1 calls on a fresh core, topic paths and ids are distinct
-- and the ids rise in the order of registration, every topic has a valid descriptor, a lease holder
-- only under the lease policy and a latest value only of its declared type, client ids are
-- distinct, and in each client's queue every event is of the current session and is either a reject
-- without a number, or has a larger number than all events before it, or is the acknowledgement
-- with the number just before it.
pub run-IsValid :
    (calls : List ((ℕ → ℕ) × Call)) → length calls + 1 < u64_mod → IsValid (run calls init)
unfolding init
run-IsValid calls b = run-IsValid_from calls init init-IsValid (omega arith) (omega arith)
