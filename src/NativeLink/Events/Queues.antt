-- ===== src/NativeLink/Events/Queues.antt =====
-- The order of the events in a client's queue.
use text.Mathlib.Text.{◌==◌}
use smart_dashboard.Base.{
  ℕ, ◌≤◌, ◌<◌, ◌≡◌, refl, ap, ◌⊎◌, inl, inr, String, List, [], ◌∷◌, ◌++◌, map, arith, All, All-imp,
  Bool-cases, none, false,
}
use smart_dashboard.Base.Names.{has}
use smart_dashboard.NativeLink.Types.{DeliveryKind, UpdateEnvelope, ClientRuntime}
use smart_dashboard.NativeLink.Topics.{find_client}
use smart_dashboard.NativeLink.Events.{push_event, enqueue_live_event, enqueue_event_for_client}

abbrev pub client_ids : List ClientRuntime → List String
client_ids = map λ cl. cl.client_id

pub find_client-none :
    (i : String) (cls : List ClientRuntime)
    → find_client i cls ≡ none
    → has i (client_ids cls) ≡ false
unfolding find_client
find_client-none i [] h = refl
find_client-none i (cl ∷ cls) h = ground (arith, find_client-none i cls)

pub client_ids-enqueue_live :
    (e : UpdateEnvelope) (cls : List ClientRuntime)
    → client_ids (enqueue_live_event e cls) ≡ client_ids cls
unfolding enqueue_live_event
client_ids-enqueue_live e [] = refl
client_ids-enqueue_live e (cl ∷ cls) = ap (◌∷◌ cl.client_id) (client_ids-enqueue_live e cls)

pub client_ids-enqueue_event :
    (i : String) (e : UpdateEnvelope) (cls : List ClientRuntime)
    → client_ids (enqueue_event_for_client i e cls) ≡ client_ids cls
unfolding enqueue_event_for_client
client_ids-enqueue_event i e [] = refl
client_ids-enqueue_event i e (cl ∷ cls) = ground (arith, client_ids-enqueue_event i e cls)

-- The queue may follow sequence number `lo`, and ends with `hi` as the last number: an event is a
-- reject without a number, or has a larger number than all before it, or acknowledges the event
-- just before it. All are of session `s`.
abbrev pub Ordered : ℕ → ℕ → ℕ → List UpdateEnvelope → Type 0
Ordered s lo hi [] = lo ≤ hi
Ordered s lo hi (e ∷ es) =
    (e.server_session_id ≡ s)
    × (((e.server_sequence ≡ 0)
          × (e.delivery_kind ≡ DeliveryKind.live_command_reject)
          × Ordered s lo hi es)
        ⊎ (((lo < e.server_sequence)
              ⊎ ((e.server_sequence ≡ lo) × (e.delivery_kind ≡ DeliveryKind.live_command_ack)))
            × Ordered s e.server_sequence hi es))

pub Ordered-append :
    (s lo hi n : ℕ) (es fs : List UpdateEnvelope)
    → Ordered s lo hi es
    → ((k : ℕ) → k ≤ hi → Ordered s k n fs)
    → Ordered s lo n (es ++ fs)
Ordered-append s lo hi n [] fs h k = k lo h
Ordered-append s lo hi n (e ∷ es) fs (a, inl (z, r, h)) k =
    (a, inl (z, r, Ordered-append s lo hi n es fs h k))
Ordered-append s lo hi n (e ∷ es) fs (a, inr (l, h)) k =
    (a, inr (l, Ordered-append s e.server_sequence hi n es fs h k))

abbrev pub QueueOrdered : ℕ → ℕ → ClientRuntime → Type 0
QueueOrdered s hi cl = Ordered s 0 hi cl.pending_events

module _ {ℓ κ} (P : ClientRuntime → Type ℓ) (Q : ClientRuntime → Type κ) (e : UpdateEnvelope) where
  pub All-enqueue_live :
      ((cl : ClientRuntime) → P cl → Q (push_event e cl))
      → (cls : List ClientRuntime) → All P cls
      → All Q (enqueue_live_event e cls)
  unfolding enqueue_live_event
  All-enqueue_live f [] h = tt
  All-enqueue_live f (cl ∷ cls) h = (f cl h.0, All-enqueue_live f cls h.1)

  pub All-enqueue_event :
      (i : String)
      → ((cl : ClientRuntime) → P cl → Q cl)
      → ((cl : ClientRuntime) → P cl → Q (push_event e cl))
      → (cls : List ClientRuntime) → All P cls
      → All Q (enqueue_event_for_client i e cls)
  unfolding enqueue_event_for_client
  All-enqueue_event i g f [] h = tt
  All-enqueue_event i g f (cl ∷ cls) h = elim (Bool-cases (cl.client_id == i)) [
    | inl y ↦ rw y (f cl h.0, All-imp P Q g cls h.1)
    | inr n ↦ rw n (g cl h.0, All-enqueue_event i g f cls h.1)
  ]
