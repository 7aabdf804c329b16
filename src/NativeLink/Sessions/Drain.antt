-- ===== src/NativeLink/Sessions/Drain.antt =====
-- What a client receives.
use mathlib.Core.Option
use text.Mathlib.Text.{◌==◌}
use text.Mathlib.TextEquality.{eq_iff}
use smart_dashboard.Base.{
  ℕ, ◌≡◌, refl, sym, ap, ◌∙◌, Bool, true, not, ◌&&◌, String, List, [], ◌∷◌, ◌++◌, none, some, arith,
  if◌then◌else◌, append_assoc,
}
use smart_dashboard.NativeLink.Types.{
  TopicKind, DeliveryKind, UpdateEnvelope, WriteResult, TopicRuntime, TopicValue, ClientRuntime,
  NativeLinkCore,
}
use smart_dashboard.NativeLink.Topics.{is_command, find_client, find_topic}
use smart_dashboard.NativeLink.Events.{
  build_envelope, determine_live_delivery_kind, enqueue_live_event, enqueue_event_for_client,
  push_event,
}
use smart_dashboard.NativeLink.Publish.{accept, publish_internal}
use smart_dashboard.NativeLink.Publish.Authority.{accepted-eq-accept, publish_accepted}
use smart_dashboard.NativeLink.Topics.Lookup.{find_topic-path}
use smart_dashboard.NativeLink.Sessions.{clear_pending, drain_client_events}

-- The events that wait for a client: none for a client that is not connected.
unfoldable pub waiting : String → List ClientRuntime → List UpdateEnvelope
waiting i cls = elim (find_client i cls) [ none ↦ [] | some cl ↦ cl.pending_events ]

find-enqueue_event :
    (i j : String) (e : UpdateEnvelope) (cls : List ClientRuntime)
    → find_client j (enqueue_event_for_client i e cls)
      ≡ (if i == j then Option.map (push_event e) (find_client j cls) else find_client j cls)
unfolding find_client enqueue_event_for_client
find-enqueue_event i j e [] = ground arith
find-enqueue_event i j e (cl ∷ cls) =
    ground (
      arith,
      eq_iff i j,
      eq_iff cl.client_id i,
      eq_iff cl.client_id j,
      find-enqueue_event i j e cls,
    )

find-enqueue_live :
    (j : String) (e : UpdateEnvelope) (cls : List ClientRuntime)
    → find_client j (enqueue_live_event e cls) ≡ Option.map (push_event e) (find_client j cls)
unfolding find_client enqueue_live_event
find-enqueue_live j e [] = refl
find-enqueue_live j e (cl ∷ cls) = ground (arith, find-enqueue_live j e cls)

abbrev emptied : ClientRuntime → ClientRuntime
emptied cl = record cl { pending_events = [] }

find-clear_pending :
    (i j : String) (cls : List ClientRuntime)
    → find_client j (clear_pending i cls)
      ≡ (if i == j then Option.map emptied (find_client j cls) else find_client j cls)
unfolding find_client clear_pending
find-clear_pending i j [] = ground arith
find-clear_pending i j (cl ∷ cls) =
    ground
      (arith, eq_iff i j, eq_iff cl.client_id i, eq_iff cl.client_id j, find-clear_pending i j cls)

-- Draining hands over exactly the events that wait for the client, in order, leaves none for it,
-- and leaves every other client's.
pub drain-waiting :
    (i j : String) (c : NativeLinkCore)
    → let (c', es) = drain_client_events i c in
      (es ≡ waiting i c.clients)
      × (waiting j c'.clients ≡ (if i == j then [] else waiting j c.clients))
unfolding drain_client_events waiting
drain-waiting i j c = ground (arith, eq_iff i j, find-clear_pending i j c.clients)

-- The event that an accepted write of the topic `t` sends to everybody.
abbrev sent : (ℕ → ℕ) → TopicRuntime → TopicValue → String → NativeLinkCore → UpdateEnvelope
sent clock t w source c =
    build_envelope c
      (record t {
        has_latest_value = true;
        latest_value = w;
        latest_source_client_id = source;
        latest_value_time = clock 0;
      })
      (determine_live_delivery_kind t.descriptor.topic_kind) c.next_server_sequence (clock 1)

-- The event e, and for the client that sent a command its acknowledgement.
abbrev deliveries : TopicRuntime → String → Bool → String → UpdateEnvelope → List UpdateEnvelope
deliveries t source allow j e =
    e
    ∷ (if not allow && is_command t.descriptor.topic_kind && source == j
        then record e { delivery_kind = DeliveryKind.live_command_ack } ∷ []
        else [])

accept-waiting :
    (clock : ℕ → ℕ) (p : String) (t : TopicRuntime) (w : TopicValue) (source : String)
    (allow : Bool) (c : NativeLinkCore) (j : String) (cl : ClientRuntime)
    → find_client j c.clients ≡ some cl
    → let e = sent clock t w source c in
      waiting j (accept clock p t w source allow c).0.clients
      ≡ waiting j c.clients ++ deliveries t source allow j e
unfolding accept waiting
accept-waiting clock p t w source allow c j cl f = ground (
  arith,
  find-enqueue_live j (sent clock t w source c) c.clients,
  find-enqueue_event source j
      (record (sent clock t w source c) { delivery_kind = DeliveryKind.live_command_ack })
      (enqueue_live_event (sent clock t w source c) c.clients),
  append_assoc cl.pending_events (sent clock t w source c ∷ [])
      (record (sent clock t w source c) { delivery_kind = DeliveryKind.live_command_ack } ∷ []),
)

-- The kind of delivery that tells a client of a write while it is connected.
abbrev pub IsLive : TopicKind → DeliveryKind → Type 0
IsLive TopicKind.state k = k ≡ DeliveryKind.live_state
IsLive TopicKind.command k = k ≡ DeliveryKind.live_command
IsLive TopicKind.event k = k ≡ DeliveryKind.live_event

determine_live_delivery_kind-IsLive : (k : TopicKind) → IsLive k (determine_live_delivery_kind k)
unfolding determine_live_delivery_kind
determine_live_delivery_kind-IsLive TopicKind.state = refl
determine_live_delivery_kind-IsLive TopicKind.command = refl
determine_live_delivery_kind-IsLive TopicKind.event = refl

sent_lem :
    (clock : ℕ → ℕ) (t : TopicRuntime) (w : TopicValue) (source : String) (c : NativeLinkCore)
    → let e = sent clock t w source c in
      (e.value ≡ w)
      × (e.topic_path ≡ t.descriptor.topic_path)
      × (e.source_client_id ≡ source)
      × (e.server_sequence ≡ c.next_server_sequence)
      × (e.topic_id ≡ t.topic_id)
      × IsLive t.descriptor.topic_kind e.delivery_kind
unfolding build_envelope
sent_lem clock t w source c =
    ground (arith, determine_live_delivery_kind-IsLive t.descriptor.topic_kind)

-- What the client `j` gets of a write.
abbrev pub IsDelivered :
    String
    → TopicValue
    → String
    → Bool
    → NativeLinkCore
    → String
    → NativeLinkCore × WriteResult
    → Type 0
IsDelivered p w source allow c j (c', r) =
    (t : TopicRuntime) × (e : UpdateEnvelope) × (find_topic p c.topics ≡ some t)
    × (e.value ≡ w)
    × (e.topic_path ≡ p)
    × (e.source_client_id ≡ source)
    × (e.server_sequence ≡ r.server_sequence)
    × (e.topic_id ≡ t.topic_id)
    × IsLive t.descriptor.topic_kind e.delivery_kind
    × ((drain_client_events j c').1 ≡ (drain_client_events j c).1 ++ deliveries t source allow j e)

-- Draining the queue of any connected client after an accepted write returns what a drain before the
-- write would have returned, then one event that is live in the way of the topic's kind, with the
-- written value, the topic's path and id, the writer and the returned sequence number, and then, for
-- the client that sent a command and is not the server, the same event as the acknowledgement.
pub publish-delivers :
    (clock : ℕ → ℕ) (p : String) (w : TopicValue) (source : String) (allow : Bool)
    (c : NativeLinkCore) (j : String) (cl : ClientRuntime)
    → (publish_internal clock p w source allow c).1.accepted ≡ true
    → find_client j c.clients ≡ some cl
    → IsDelivered p w source allow c j (publish_internal clock p w source allow c)
publish-delivers clock p w source allow c j cl h f =
    let (t, g, o) = accepted-eq-accept clock p w source allow c h in
    let (v, n, s, q, i, live) = sent_lem clock t w source c in
    (
      t,
      sent clock t w source c,
      g,
      v,
      n ∙ find_topic-path p c.topics t g,
      s,
      q ∙ sym (publish_accepted clock p w source allow c p h).0,
      i,
      live,
      (drain-waiting j j (publish_internal clock p w source allow c).0).0
          ∙ ap (λ x. waiting j x.0.clients) o
          ∙ accept-waiting clock p t w source allow c j cl f
          ∙ ap (λ es. es ++ deliveries t source allow j (sent clock t w source c))
              (sym (drain-waiting j j c).0),
    )
