-- ===== src/NativeLink/Calls/Clients.antt =====
-- The calls on clients and sessions keep the invariant.
use text.Mathlib.Text.{◌==◌}
use smart_dashboard.Base.{
  ℕ, suc, ◌≡◌, refl, inl, inr, String, List, [], ◌∷◌, arith, All, All-append, map-append,
  Option-cases, Bool-cases, ap, false,
}
use smart_dashboard.Base.Names.{has, Distinct, Distinct-snoc}
use smart_dashboard.NativeLink.Types.{TopicRuntime, ClientRuntime, NativeLinkCore}
use smart_dashboard.NativeLink.Topics.{find_client}
use smart_dashboard.NativeLink.Topics.Lookup.{paths, Ascending}
use smart_dashboard.NativeLink.Events.Queues.{client_ids, find_client-none, QueueOrdered}
use smart_dashboard.NativeLink.Sessions.{
  connect_client, erase_client, disconnect_client, clear_pending, drain_client_events, clear_leases,
  clear_queues, begin_new_session,
}
use smart_dashboard.NativeLink.Calls.Inv.{IsTopicOk, IsValid}

pub connect-IsValid :
    (clock : ℕ → ℕ) (i : String) (c : NativeLinkCore)
    → IsValid c
    → IsValid (connect_client clock i c).0
unfolding connect_client
connect-IsValid clock i c v = elim (Option-cases (find_client i c.clients)) [
  | inr (cl, e) ↦ rw (e, connect_client) v
  | inl e ↦
      rw (e, connect_client)
        (record {
          topics_ok = v.topics_ok;
          numbered = v.numbered;
          clients_ok = record {
            distinct = rw (map-append _ c.clients) (
                Distinct-snoc i (client_ids c.clients) v.clients_ok.distinct
                  (find_client-none i c.clients e));
            each = All-append _ c.clients _ v.clients_ok.each (omega arith, tt);
          };
        })
]

module _ {ℓ} (P : ClientRuntime → Type ℓ) (i : String) where
  All-erase : (cls : List ClientRuntime) → All P cls → All P (erase_client i cls)
  unfolding erase_client
  All-erase [] h = tt
  All-erase (cl ∷ cls) h = elim (Bool-cases (cl.client_id == i)) [
    | inl y ↦ rw y h.1
    | inr n ↦ rw n (h.0, All-erase cls h.1)
  ]

  All-clear_pending :
      ((cl : ClientRuntime) → P (record cl { pending_events = [] }))
      → (cls : List ClientRuntime) → All P cls
      → All P (clear_pending i cls)
  unfolding clear_pending
  All-clear_pending f [] h = tt
  All-clear_pending f (cl ∷ cls) h = elim (Bool-cases (cl.client_id == i)) [
    | inl y ↦ rw y (f cl, h.1)
    | inr n ↦ rw n (h.0, All-clear_pending f cls h.1)
  ]

has-erase :
    (x i : String) (cls : List ClientRuntime)
    → has x (client_ids cls) ≡ false
    → has x (client_ids (erase_client i cls)) ≡ false
unfolding erase_client
has-erase x i [] h = refl
has-erase x i (cl ∷ cls) h = ground (arith, has-erase x i cls)

Distinct-erase :
    (i : String) (cls : List ClientRuntime)
    → Distinct (client_ids cls)
    → Distinct (client_ids (erase_client i cls))
unfolding erase_client
Distinct-erase i [] h = tt
Distinct-erase i (cl ∷ cls) h = elim (Bool-cases (cl.client_id == i)) [
  | inl y ↦ rw y h.1
  | inr n ↦ rw n (has-erase cl.client_id i cls h.0, Distinct-erase i cls h.1)
]

client_ids-clear_pending :
    (i : String) (cls : List ClientRuntime) → client_ids (clear_pending i cls) ≡ client_ids cls
unfolding clear_pending
client_ids-clear_pending i [] = refl
client_ids-clear_pending i (cl ∷ cls) = ground (arith, client_ids-clear_pending i cls)

pub disconnect-IsValid :
    (i : String) (c : NativeLinkCore) → IsValid c → IsValid (disconnect_client i c).0
unfolding disconnect_client
disconnect-IsValid i c v = elim (Option-cases (find_client i c.clients)) [
  | inl e ↦ rw (e, disconnect_client) v
  | inr (cl, e) ↦
      rw (e, disconnect_client)
        (record {
          topics_ok = v.topics_ok;
          numbered = v.numbered;
          clients_ok = record {
            distinct = Distinct-erase i c.clients v.clients_ok.distinct;
            each = All-erase _ i c.clients v.clients_ok.each;
          };
        })
]

pub drain-IsValid :
    (i : String) (c : NativeLinkCore) → IsValid c → IsValid (drain_client_events i c).0
unfolding drain_client_events
drain-IsValid i c v = elim (Option-cases (find_client i c.clients)) [
  | inl e ↦ rw (e, drain_client_events) v
  | inr (cl, e) ↦
      rw (e, drain_client_events)
        (record {
          topics_ok = v.topics_ok;
          numbered = v.numbered;
          clients_ok = record {
            distinct = rw (client_ids-clear_pending i c.clients) v.clients_ok.distinct;
            each = All-clear_pending _ i (λ _. omega arith) c.clients v.clients_ok.each;
          };
        })
]

paths-clear_leases : (ts : List TopicRuntime) → paths (clear_leases ts) ≡ paths ts
unfolding clear_leases
paths-clear_leases [] = refl
paths-clear_leases (t ∷ ts) = ap (◌∷◌ t.descriptor.topic_path) (paths-clear_leases ts)

Ascending-clear_leases :
    (lo hi : ℕ) (ts : List TopicRuntime) → Ascending lo hi ts → Ascending lo hi (clear_leases ts)
unfolding clear_leases
Ascending-clear_leases lo hi [] h = h
Ascending-clear_leases lo hi (t ∷ ts) h = (h.0, Ascending-clear_leases (suc t.topic_id) hi ts h.1)

All-clear_leases : (ts : List TopicRuntime) → All IsTopicOk ts → All IsTopicOk (clear_leases ts)
unfolding clear_leases
All-clear_leases [] h = tt
All-clear_leases (t ∷ ts) h = (
  record { described = h.0.described; leased = inl refl; typed = h.0.typed },
  All-clear_leases ts h.1,
)

client_ids-clear_queues :
    (cls : List ClientRuntime) → client_ids (clear_queues cls) ≡ client_ids cls
unfolding clear_queues
client_ids-clear_queues [] = refl
client_ids-clear_queues (cl ∷ cls) = ap (◌∷◌ cl.client_id) (client_ids-clear_queues cls)

All-clear_queues : (s : ℕ) (cls : List ClientRuntime) → All (QueueOrdered s 0) (clear_queues cls)
unfolding clear_queues
All-clear_queues s [] = tt
All-clear_queues s (cl ∷ cls) = (omega arith, All-clear_queues s cls)

pub new_session-IsValid : (c : NativeLinkCore) → IsValid c → IsValid (begin_new_session c)
unfolding begin_new_session
new_session-IsValid c v = record {
  topics_ok = record {
    ids = Ascending-clear_leases _ _ c.topics v.topics_ok.ids;
    distinct = rw (paths-clear_leases c.topics) v.topics_ok.distinct;
    each = All-clear_leases c.topics v.topics_ok.each;
  };
  numbered = omega arith;
  clients_ok = record {
    distinct = rw (client_ids-clear_queues c.clients) v.clients_ok.distinct;
    each = All-clear_queues _ c.clients;
  };
}
