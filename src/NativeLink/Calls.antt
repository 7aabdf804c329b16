-- ===== src/NativeLink/Calls.antt =====
-- plugins/NativeLinkTransport/src/native_link_core.cpp: sequences of calls on one core.
pub mod Inv
pub mod Writes
pub mod Clients
pub mod Reach
use smart_dashboard.Base.{ℕ, String, List, [], ◌∷◌}
use smart_dashboard.NativeLink.Types.{TopicValue, TopicDescriptor, NativeLinkCore}
use smart_dashboard.NativeLink.Topics.{register_topic, acquire_lease, release_lease}
use smart_dashboard.NativeLink.Publish.{publish, publish_from_server}
use smart_dashboard.NativeLink.Sessions.{
  connect_client, disconnect_client, drain_client_events, begin_new_session,
}

-- One call of the public interface that changes state.
pub data Call : Type 0 where
  register : TopicDescriptor → Call
  acquire release : String → String → Call
  connect disconnect drain : String → Call
  client_write : String → TopicValue → String → Call
  server_write : String → TopicValue → Call
  new_session : Call

unfoldable pub step : (ℕ → ℕ) → Call → NativeLinkCore → NativeLinkCore
step clock (register d) c = (register_topic clock d c).0
step clock (acquire p i) c = (acquire_lease p i c).0
step clock (release p i) c = (release_lease p i c).0
step clock (connect i) c = (connect_client clock i c).0
step clock (disconnect i) c = (disconnect_client i c).0
step clock (drain i) c = (drain_client_events i c).0
step clock (client_write p v i) c = (publish clock p v i c).0
step clock (server_write p v) c = (publish_from_server clock p v c).0
step clock new_session c = begin_new_session c

-- A sequence of calls, each with its readings of the clock.
unfoldable pub run : List ((ℕ → ℕ) × Call) → NativeLinkCore → NativeLinkCore
run [] c = c
run ((clock, call) ∷ calls) c = run calls (step clock call c)
