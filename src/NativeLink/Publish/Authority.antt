-- ===== src/NativeLink/Publish/Authority.antt =====
-- Who may write, and what a write does to the topics.
use text.Mathlib.Text.{◌==◌}
use text.Mathlib.TextEquality.{eq_iff}
use mathlib.Core.Bool.{false≢true}
use smart_dashboard.Base.{
  sym, ap, ◌∙◌, subst, ℕ, ◌≡◌, ◌≢◌, ◌↔◌, ◌⊎◌, refl, inl, inr, Bool, true, false, String, none, some,
  arith, inc64, if◌then◌else◌, Option-cases,
}
use smart_dashboard.NativeLink.Types.{
  lease_single_writer, wrong_type, read_only, no_reason, lease_not_holder, lease_required,
  UpdateEnvelope, DeliveryKind, WriteRejectReason, WriteResult, TopicRuntime, TopicValue,
  NativeLinkCore,
}
use smart_dashboard.NativeLink.Topics.{topic_value_matches, find_topic}
use smart_dashboard.NativeLink.Topics.Lookup.{find-replace, find_topic-path}
use smart_dashboard.NativeLink.Events.{enqueue_event_for_client}
use smart_dashboard.NativeLink.Events.Delivery.{build_envelope_lem}
use smart_dashboard.NativeLink.Publish.{reject, reject_unknown, accept, publish_internal}
use smart_dashboard.NativeLink.Sessions.{try_get_latest_value}

-- The source holds the lease of a topic with the lease policy. No client is named by "".
abbrev pub HoldsLease : TopicRuntime → String → Type 0
HoldsLease t source =
    (t.descriptor.writer_policy ≡ lease_single_writer)
    × (t.lease_holder_client_id ≡ source)
    × (source ≢ "")

-- A known topic, a value of its type, and the server or the lease holder.
abbrev pub MayWrite : NativeLinkCore → String → TopicValue → String → Bool → Type 0
MayWrite c p w source allow =
    (t : TopicRuntime) × (find_topic p c.topics ≡ some t)
    × (topic_value_matches t.descriptor.value_type w.type ≡ true)
    × ((allow ≡ true) ⊎ HoldsLease t source)

accepts_known :
    (clock : ℕ → ℕ) (p : String) (w : TopicValue) (source : String) (allow : Bool)
    (c : NativeLinkCore) (t : TopicRuntime)
    → find_topic p c.topics ≡ some t
    → ((publish_internal clock p w source allow c).1.accepted ≡ true) ↔ (
        (topic_value_matches t.descriptor.value_type w.type ≡ true)
        × ((allow ≡ true) ⊎ HoldsLease t source))
unfolding publish_internal reject accept
accepts_known clock p w source allow c t e = (
  λ h. ground (
    arith,
    eq_iff t.lease_holder_client_id "",
    eq_iff t.lease_holder_client_id source,
    eq_iff source "",
  ),
  λ h. ground (
    arith,
    eq_iff t.lease_holder_client_id "",
    eq_iff t.lease_holder_client_id source,
    eq_iff source "",
  ),
)

none≢some {ℓ} : {A : Type ℓ} {a : A} → none ≢ some a
none≢some h = cc

accepts_unknown :
    (clock : ℕ → ℕ) (p : String) (w : TopicValue) (source : String) (allow : Bool)
    (c : NativeLinkCore)
    → find_topic p c.topics ≡ none
    → (publish_internal clock p w source allow c).1.accepted ≡ false
unfolding publish_internal reject_unknown
accepts_unknown clock p w source allow c e = rw (e, publish_internal)

-- A write is accepted exactly when the topic is registered, the value has the declared type, and
-- the writer is the server or the client, not named "", that holds the lease of a topic with the
-- lease policy.
pub publish-accepts_iff :
    (clock : ℕ → ℕ) (p : String) (w : TopicValue) (source : String) (allow : Bool)
    (c : NativeLinkCore)
    → ((publish_internal clock p w source allow c).1.accepted ≡ true) ↔ MayWrite c p w source allow
publish-accepts_iff clock p w source allow c = elim (Option-cases (find_topic p c.topics)) [
  | inl e ↦ (
    λ h. absurd (false≢true (sym (accepts_unknown clock p w source allow c e) ∙ h)),
    λ (t, f, m, a). absurd (none≢some (sym e ∙ f)),
  )
  | inr (t, e) ↦ (
    λ h. let (m, a) = (accepts_known clock p w source allow c t e).0 h in (t, e, m, a),
    λ (u, f, m, a). (accepts_known clock p w source allow c u f).1 (m, a),
  )
]

-- The five ways in which a write to a known topic ends.
outcomes :
    (clock : ℕ → ℕ) (p : String) (w : TopicValue) (source : String) (allow : Bool)
    (c : NativeLinkCore) (t : TopicRuntime)
    → find_topic p c.topics ≡ some t
    → let r = publish_internal clock p w source allow c in
      (r ≡ reject clock t w source wrong_type c)
      ⊎ (r ≡ reject clock t w source read_only c)
      ⊎ (r ≡ reject clock t w source lease_required c)
      ⊎ (r ≡ reject clock t w source lease_not_holder c)
      ⊎ (r ≡ accept clock p t w source allow c)
unfolding publish_internal
outcomes clock p w source allow c t e = ground arith

-- What a refusal returns and changes.
abbrev pub IsRefusal : TopicValue → String → NativeLinkCore → NativeLinkCore × WriteResult → Type 0
IsRefusal w source c (c', r) =
    (e : UpdateEnvelope) × (c' ≡ record c { clients = enqueue_event_for_client source e c.clients })
    × (e.delivery_kind ≡ DeliveryKind.live_command_reject)
    × (e.rejection_reason ≡ r.rejection_reason)
    × (r.rejection_reason ≢ no_reason)
    × (e.value ≡ w)
    × (e.server_sequence ≡ 0)
    × (r.server_sequence ≡ 0)

reject-IsRefusal :
    (clock : ℕ → ℕ) (t : TopicRuntime) (w : TopicValue) (source : String) (why : WriteRejectReason)
    (c : NativeLinkCore)
    → why ≢ no_reason
    → IsRefusal w source c (reject clock t w source why c)
unfolding reject
reject-IsRefusal clock t w source why c ne =
    let l = build_envelope_lem c t DeliveryKind.live_command_reject 0 (clock 0) in
    (_, refl, l.2, refl, ne, refl, l.1, refl)

reject-refuses :
    (clock : ℕ → ℕ) (t : TopicRuntime) (w : TopicValue) (source : String) (why : WriteRejectReason)
    (c : NativeLinkCore)
    → (reject clock t w source why c).1.accepted ≡ false
unfolding reject
reject-refuses clock t w source why c = refl

accept-accepts :
    (clock : ℕ → ℕ) (p : String) (t : TopicRuntime) (w : TopicValue) (source : String)
    (allow : Bool) (c : NativeLinkCore)
    → (accept clock p t w source allow c).1.accepted ≡ true
unfolding accept
accept-accepts clock p t w source allow c = refl

-- A refused write leaves the topics, the topic ids and the sequence numbers alone, returns a reason
-- and no sequence number, and at most adds one event, a reject with that reason and the offered
-- value, for the writer.
pub publish_rejected :
    (clock : ℕ → ℕ) (p : String) (w : TopicValue) (source : String) (allow : Bool)
    (c : NativeLinkCore)
    → (publish_internal clock p w source allow c).1.accepted ≡ false
    → IsRefusal w source c (publish_internal clock p w source allow c)
publish_rejected clock p w source allow c h = elim (Option-cases (find_topic p c.topics)) [
  | inl e ↦
      unfold publish_internal reject_unknown in
      rw (e, publish_internal) (_, refl, refl, refl, (λ x. cc), refl, refl, refl)
  | inr (t, e) ↦ elim (outcomes clock p w source allow c t e) [
    | inl o ↦ refused t wrong_type (λ x. cc) o
    | inr (inl o) ↦ refused t read_only (λ x. cc) o
    | inr (inr (inl o)) ↦ refused t lease_required (λ x. cc) o
    | inr (inr (inr (inl o))) ↦ refused t lease_not_holder (λ x. cc) o
    | inr (inr (inr (inr o))) ↦
        absurd (
          false≢true (sym h ∙ ap (λ x. x.1.accepted) o ∙ accept-accepts clock p t w source allow c))
  ]
]
  where
    refused :
        (t : TopicRuntime) (why : WriteRejectReason)
        → why ≢ no_reason
        → publish_internal clock p w source allow c ≡ reject clock t w source why c
        → IsRefusal w source c (publish_internal clock p w source allow c)
    refused t why ne o =
        subst (IsRefusal w source c) (sym o) (reject-IsRefusal clock t w source why c ne)

-- What an accepted write returns and changes, seen at a topic path `q`.
abbrev pub IsWrite :
    String → TopicValue → String → NativeLinkCore → NativeLinkCore × WriteResult → Type 0
IsWrite p w q c (c', r) =
    (r.server_sequence ≡ c.next_server_sequence)
    × (c'.next_server_sequence ≡ inc64 c.next_server_sequence)
    × (r.rejection_reason ≡ no_reason)
    × (try_get_latest_value q c' ≡ (if p == q then some w else try_get_latest_value q c))

accept-IsWrite :
    (clock : ℕ → ℕ) (p : String) (t : TopicRuntime) (w : TopicValue) (source : String)
    (allow : Bool) (c : NativeLinkCore) (q : String)
    → find_topic p c.topics ≡ some t
    → IsWrite p w q c (accept clock p t w source allow c)
unfolding accept try_get_latest_value
accept-IsWrite clock p t w source allow c q e = ground (
  arith,
  find-replace p q
      (record t {
        has_latest_value = true;
        latest_value = w;
        latest_source_client_id = source;
        latest_value_time = clock 0;
      })
      c.topics (find_topic-path p c.topics t e),
)

pub accepted-eq-accept :
    (clock : ℕ → ℕ) (p : String) (w : TopicValue) (source : String) (allow : Bool)
    (c : NativeLinkCore)
    → (publish_internal clock p w source allow c).1.accepted ≡ true
    → (t : TopicRuntime) × (find_topic p c.topics ≡ some t)
      × (publish_internal clock p w source allow c ≡ accept clock p t w source allow c)
accepted-eq-accept clock p w source allow c h = elim (Option-cases (find_topic p c.topics)) [
  | inl e ↦ absurd (false≢true (sym (accepts_unknown clock p w source allow c e) ∙ h))
  | inr (t, e) ↦ (
    t,
    e,
    elim (outcomes clock p w source allow c t e) [
      | inl o ↦ refused t wrong_type o
      | inr (inl o) ↦ refused t read_only o
      | inr (inr (inl o)) ↦ refused t lease_required o
      | inr (inr (inr (inl o))) ↦ refused t lease_not_holder o
      | inr (inr (inr (inr o))) ↦ o
    ],
  )
]
  where
    refused :
        (t : TopicRuntime) (why : WriteRejectReason)
        → publish_internal clock p w source allow c ≡ reject clock t w source why c
        → publish_internal clock p w source allow c ≡ accept clock p t w source allow c
    refused t why o =
        absurd
          (false≢true (sym (ap (λ x. x.1.accepted) o ∙ reject-refuses clock t w source why c) ∙ h))

-- An accepted write returns the next sequence number and counts it, and from then on the topic's
-- latest value is the written one; every other topic keeps its latest value.
pub publish_accepted :
    (clock : ℕ → ℕ) (p : String) (w : TopicValue) (source : String) (allow : Bool)
    (c : NativeLinkCore) (q : String)
    → (publish_internal clock p w source allow c).1.accepted ≡ true
    → IsWrite p w q c (publish_internal clock p w source allow c)
publish_accepted clock p w source allow c q h =
    let (t, e, o) = accepted-eq-accept clock p w source allow c h in
    subst (IsWrite p w q c) (sym o) (accept-IsWrite clock p t w source allow c q e)
