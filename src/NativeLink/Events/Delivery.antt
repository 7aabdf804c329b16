-- ===== src/NativeLink/Events/Delivery.antt =====
-- What the code puts into the queues keeps them in order.
use smart_dashboard.Base.{
  ℕ, ◌<◌, ◌≡◌, refl, inl, inr, String, List, [], ◌∷◌, ◌++◌, arith, All, subst, sym, append_assoc,
  ◌∙◌,
}
use smart_dashboard.Base.Names.{Distinct}
use smart_dashboard.NativeLink.Types.{
  DeliveryKind, UpdateEnvelope, TopicRuntime, ClientRuntime, NativeLinkCore,
}
use smart_dashboard.NativeLink.Events.{build_envelope, enqueue_live_event, enqueue_event_for_client}
use smart_dashboard.NativeLink.Events.Queues.{
  client_ids, client_ids-enqueue_live, client_ids-enqueue_event, Ordered, Ordered-append,
  QueueOrdered, All-enqueue_live, All-enqueue_event,
}

-- `last` is the last number that the session has given out.
pub record AreClientsOk (session last : ℕ) (cls : List ClientRuntime) : Type 0 where
  pub distinct : Distinct (client_ids cls)
  pub each : All (QueueOrdered session last) cls

pub build_envelope_lem :
    (c : NativeLinkCore) (t : TopicRuntime) (k : DeliveryKind) (n now : ℕ)
    → let e = build_envelope c t k n now in
      (e.server_session_id ≡ c.server_session_id) × (e.server_sequence ≡ n) × (e.delivery_kind ≡ k)
unfolding build_envelope
build_envelope_lem c t k n now = ground arith

module _ (s last : ℕ) (cls : List ClientRuntime) (v : AreClientsOk s last cls) where
  pub reject-AreClientsOk :
      (i : String) (e : UpdateEnvelope)
      → e.server_session_id ≡ s
      → e.server_sequence ≡ 0
      → e.delivery_kind ≡ DeliveryKind.live_command_reject
      → AreClientsOk s last (enqueue_event_for_client i e cls)
  reject-AreClientsOk i e h z k = record {
    distinct = rw (client_ids-enqueue_event i e cls) v.distinct;
    each =
        All-enqueue_event (QueueOrdered s last) (QueueOrdered s last) e i (λ cl q. q)
          (λ cl q.
            Ordered-append s 0 last last cl.pending_events (e ∷ []) q (λ m b. (h, inl (z, k, b))))
          cls v.each;
  }

  module _ (n : ℕ) (e : UpdateEnvelope) (h : e.server_session_id ≡ s) (m : e.server_sequence ≡ n)
      (b : last < n) where
    push-QueueOrdered :
        (es : List UpdateEnvelope) → Ordered s 0 last es → Ordered s 0 n (es ++ (e ∷ []))
    push-QueueOrdered es q =
        Ordered-append s 0 last n es (e ∷ []) q (λ k a. (h, inr (inl (omega arith), omega arith)))

    pub live-AreClientsOk : AreClientsOk s n (enqueue_live_event e cls)
    live-AreClientsOk = record {
      distinct = rw (client_ids-enqueue_live e cls) v.distinct;
      each =
          All-enqueue_live (QueueOrdered s last) (QueueOrdered s n) e
            (λ cl q. push-QueueOrdered cl.pending_events q) cls v.each;
    }

    -- The queue ends with `e`.
    abbrev EndsWith : ClientRuntime → Type 0
    EndsWith cl =
        (es : List UpdateEnvelope) × (Ordered s 0 last es) × (cl.pending_events ≡ es ++ (e ∷ []))

    pub ack-AreClientsOk :
        (i : String) (a : UpdateEnvelope)
        → a.server_session_id ≡ s
        → a.server_sequence ≡ n
        → a.delivery_kind ≡ DeliveryKind.live_command_ack
        → AreClientsOk s n (enqueue_event_for_client i a (enqueue_live_event e cls))
    ack-AreClientsOk i a ha ma ka = record {
      distinct =
          rw
            (client_ids-enqueue_event i a (enqueue_live_event e cls), client_ids-enqueue_live e cls)
            v.distinct;
      each =
          All-enqueue_event EndsWith (QueueOrdered s n) a i
            (λ cl w. subst (Ordered s 0 n) (sym w.2) (push-QueueOrdered w.0 w.1))
            (λ cl w.
              subst (λ es. Ordered s 0 n (es ++ (a ∷ []))) (sym w.2)
                (rw (append_assoc w.0 (e ∷ []) (a ∷ [])) (
                  Ordered-append s 0 last n w.0 (e ∷ a ∷ []) w.1 (λ k b'.
                    (h, inr (inl (omega arith), (ha, inr (inr (ma ∙ sym m, ka), omega arith))))))))
            (enqueue_live_event e cls)
            (All-enqueue_live (QueueOrdered s last) EndsWith e
              (λ cl q. (cl.pending_events, q, refl)) cls v.each);
    }
