-- ===== src/NativeLink/Topics/Lookup.antt =====
-- Topics found and rewritten by their path.
use mathlib.Core.Option
use text.Mathlib.Text.{◌==◌}
use text.Mathlib.TextEquality.{eq_iff}
use smart_dashboard.Base.{
  ℕ, ◌≤◌, suc, ◌+◌, ◌≡◌, refl, subst, false, String, List, [], ◌∷◌, ◌++◌, none, some, if◌then◌else◌,
  arith, All, map, Bool-cases, inl, inr,
}
use smart_dashboard.Base.Names.{has}
use smart_dashboard.NativeLink.Types.{TopicRuntime}
use smart_dashboard.NativeLink.Topics.{find_topic, replace_topic}

abbrev pub paths : List TopicRuntime → List String
paths = map λ t. t.descriptor.topic_path

pub find_topic-path :
    (p : String) (ts : List TopicRuntime) (t : TopicRuntime)
    → find_topic p ts ≡ some t
    → t.descriptor.topic_path ≡ p
unfolding find_topic
find_topic-path p [] t h = cc
find_topic-path p (u ∷ us) t h =
    ground (arith, eq_iff u.descriptor.topic_path p, find_topic-path p us t)

pub find_topic-none :
    (p : String) (ts : List TopicRuntime) → find_topic p ts ≡ none → has p (paths ts) ≡ false
unfolding find_topic
find_topic-none p [] h = refl
find_topic-none p (u ∷ us) h = ground (arith, find_topic-none p us)

pub paths-replace :
    (p : String) (t : TopicRuntime) (ts : List TopicRuntime)
    → t.descriptor.topic_path ≡ p
    → paths (replace_topic p t ts) ≡ paths ts
unfolding replace_topic
paths-replace p t [] e = refl
paths-replace p t (u ∷ us) e =
    ground (arith, eq_iff u.descriptor.topic_path p, paths-replace p t us e)

-- A lookup after a write through the pointer that a lookup returned.
pub find-replace :
    (p q : String) (t : TopicRuntime) (ts : List TopicRuntime)
    → t.descriptor.topic_path ≡ p
    → find_topic q (replace_topic p t ts)
      ≡ (if p == q then Option.map (λ _. t) (find_topic p ts) else find_topic q ts)
unfolding find_topic replace_topic
find-replace p q t [] e = ground arith
find-replace p q t (u ∷ us) e = ground (
  arith,
  eq_iff p q,
  eq_iff t.descriptor.topic_path q,
  eq_iff u.descriptor.topic_path p,
  eq_iff u.descriptor.topic_path q,
  find-replace p q t us e,
)

module _ {ℓ} (P : TopicRuntime → Type ℓ) (p : String) (t : TopicRuntime) where
  pub All-find : (ts : List TopicRuntime) → All P ts → find_topic p ts ≡ some t → P t
  unfolding find_topic
  All-find [] h e = cc
  All-find (u ∷ us) h e = elim (Bool-cases (u.descriptor.topic_path == p)) [
    | inl y ↦ subst P (ground arith) h.0
    | inr n ↦ All-find us h.1 (ground arith)
  ]

  pub All-replace : (ts : List TopicRuntime) → All P ts → P t → All P (replace_topic p t ts)
  unfolding replace_topic
  All-replace [] h k = tt
  All-replace (u ∷ us) h k = elim (Bool-cases (u.descriptor.topic_path == p)) [
    | inl y ↦ rw y (k, h.1)
    | inr n ↦ rw n (h.0, All-replace us h.1 k)
  ]

-- The topics' ids rise along the list, from `lo` on and below `hi`.
abbrev pub Ascending : ℕ → ℕ → List TopicRuntime → Type 0
Ascending lo hi [] = lo ≤ hi
Ascending lo hi (t ∷ ts) = (lo ≤ t.topic_id) × Ascending (suc t.topic_id) hi ts

pub Ascending-snoc :
    (lo hi : ℕ) (t : TopicRuntime) (ts : List TopicRuntime)
    → Ascending lo hi ts
    → t.topic_id ≡ hi
    → Ascending lo (hi + 1) (ts ++ (t ∷ []))
Ascending-snoc lo hi t [] h e = omega arith
Ascending-snoc lo hi t (u ∷ us) h e = (h.0, Ascending-snoc (suc u.topic_id) hi t us h.1 e)

pub Ascending-replace :
    (p : String) (lo hi : ℕ) (t u : TopicRuntime) (ts : List TopicRuntime)
    → Ascending lo hi ts
    → find_topic p ts ≡ some t
    → u.topic_id ≡ t.topic_id
    → Ascending lo hi (replace_topic p u ts)
unfolding find_topic replace_topic
Ascending-replace p lo hi t u [] h e k = cc
Ascending-replace p lo hi t u (x ∷ xs) h e k =
    ground (arith, Ascending-replace p (suc x.topic_id) hi t u xs h.1)
