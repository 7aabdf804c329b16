-- ===== src/Replay/Checkpoints.antt =====
-- What `SeekPlaybackUs` reconstructs from a checkpoint.
use native.Mathlib.Decide.{dec_lt}
use smart_dashboard.Base.{
  ℕ, suc, ◌+◌, ◌-◌, ◌%◌, ◌≤◌, ◌<◌, ◌≡◌, ◌≢◌, ◌⊎◌, inl, inr, refl, sym, ap, ◌∙◌, subst, ◌&&◌, List,
  [], ◌∷◌, ◌++◌, append-nil, append_assoc, Option, none, some, ltb, ◌==◌, if◌then◌else◌, length,
  take, length-append, take-append, take-length_le, drop-append_self, arith,
}
use smart_dashboard.Base.Ordered.{assign-assign}
use smart_dashboard.Replay.{
  ReplayEvent, LatestByKey, Checkpoint, data_event, connection_event, marker_event, observe,
  observe_all, build_checkpoints_from, build_checkpoints, find_checkpoint_from,
  find_checkpoint_for_event, range, reconstruct_from, reconstruct,
}

module _ {V : Type 0} where
  observe-observe : (e : ReplayEvent V) (m : LatestByKey V) → observe e (observe e m) ≡ observe e m
  unfolding observe
  observe-observe (data_event t u) m = assign-assign u.key u m
  observe-observe (connection_event t k) m = refl
  observe-observe (marker_event t k) m = refl

  observe_all-append :
      (xs ys : List (ReplayEvent V)) (m : LatestByKey V)
      → observe_all (xs ++ ys) m ≡ observe_all ys (observe_all xs m)
  unfolding observe_all
  observe_all-append [] ys m = refl
  observe_all-append (x ∷ xs) ys m = observe_all-append xs ys (observe x m)

  -- A checkpoint of the events p for event t: the newest of those at or before t whose index is a
  -- multiple of 1000.
  record IsCheckpoint (t : ℕ) (p : List (ReplayEvent V)) (cp : Checkpoint V) : Type 0 where
    before : List (ReplayEvent V)
    at : ReplayEvent V
    after : List (ReplayEvent V)
    splits : p ≡ before ++ (at ∷ after)
    index : cp.event_index ≡ length before
    latest : cp.latest_by_key ≡ observe at (observe_all before [])
    reached : cp.event_index ≤ t
    multiple : cp.event_index % 1000 ≡ 0
    newest : (n : ℕ) → n < length p → n ≤ t → n % 1000 ≡ 0 → n ≤ cp.event_index

  abbrev IsCandidate : ℕ → List (ReplayEvent V) → Option (Checkpoint V) → Type 0
  IsCandidate t p o =
      ((o ≡ none) × (p ≡ [])) ⊎ ((cp : Checkpoint V) × (o ≡ some cp) × IsCheckpoint t p cp)

  -- The events that a seek to event t has seen: those before it, and itself when it has a
  -- checkpoint.
  abbrev pub seek_count : ℕ → List (ReplayEvent V) → ℕ
  seek_count t es = if t % 1000 == 0 && ltb t (length es) then suc t else t

  range-append :
      (d : ℕ) (xs ys : List (ReplayEvent V))
      → range (length xs) (length xs + d) (xs ++ ys) ≡ take d ys
  unfolding range
  range-append d xs ys = rw (take-append d xs ys, drop-append_self xs (take d ys)) refl

  -- From the map after event x, the loop from x on ends where one from the start ends.
  from_checkpoint :
      (d : ℕ) (xs ys : List (ReplayEvent V)) (x : ReplayEvent V)
      → observe_all
          (range (length xs) (length xs + suc d) (xs ++ (x ∷ ys)))
          (observe x (observe_all xs []))
        ≡ observe_all (take (length xs + suc d) (xs ++ (x ∷ ys))) []
  unfolding observe_all
  from_checkpoint d xs ys x =
      rw
        (
          range-append (suc d) xs (x ∷ ys),
          take-append (suc d) xs (x ∷ ys),
          observe_all-append xs (x ∷ take d ys) [],
        )
        (ap (observe_all (take d ys)) (observe-observe x (observe_all xs [])))

  at_checkpoint :
      (xs ys : List (ReplayEvent V)) (x : ReplayEvent V)
      → observe_all
          (range (length xs) (length xs + 0) (xs ++ (x ∷ ys)))
          (observe x (observe_all xs []))
        ≡ observe_all (take (length xs + 1) (xs ++ (x ∷ ys))) []
  unfolding observe_all
  at_checkpoint xs ys x =
      rw (range-append 0 xs (x ∷ ys), take-append 1 xs (x ∷ ys), observe_all-append xs (x ∷ []) [])
        refl

  from_candidate :
      (es : List (ReplayEvent V)) (cp : Checkpoint V) (t : ℕ)
      → IsCheckpoint t es cp
      → observe_all (range cp.event_index t es) cp.latest_by_key
        ≡ observe_all (take (seek_count t es) es) []
  from_candidate es cp t c = elim (dec_lt cp.event_index t) [
    | yes p ↦
        over (suc (t - length c.before - 1)) _
          (from_checkpoint (t - length c.before - 1) c.before c.after c.at) (omega (arith, c.index))
          (ground (arith, c.newest t, c.index))
    | no p ↦ over 0 _ (at_checkpoint c.before c.after c.at) (omega (arith, c.index, c.reached)) (
        ground
          (arith, c.reached, c.multiple, c.index, at_most, length-append c.before (c.at ∷ c.after)))
  ]
    where
      at_most : length es ≡ length (c.before ++ (c.at ∷ c.after))
      at_most = ap length c.splits

      over :
          (d n : ℕ)
          → observe_all
              (range (length c.before) (length c.before + d) (c.before ++ (c.at ∷ c.after)))
              (observe c.at (observe_all c.before []))
            ≡ observe_all (take n (c.before ++ (c.at ∷ c.after))) []
          → t ≡ length c.before + d
          → seek_count t es ≡ n
          → observe_all (range cp.event_index t es) cp.latest_by_key
            ≡ observe_all (take (seek_count t es) es) []
      over d n e f g =
          ap (λ i. observe_all (range i t es) cp.latest_by_key) c.index
          ∙ ap (observe_all (range (length c.before) t es)) c.latest
          ∙ rw (g, f, c.splits) e

  find_past :
      (t i : ℕ) (o : Option (Checkpoint V)) (m : LatestByKey V) (es : List (ReplayEvent V))
      → t < i
      → find_checkpoint_from t o (build_checkpoints_from i m es) ≡ o
  unfolding find_checkpoint_from build_checkpoints_from
  find_past t i o m [] h = refl
  find_past t i o m (e ∷ es) h = ground (arith, find_past t (suc i) o (observe e m) es)

  find_stride :
      (t i : ℕ) (o : Option (Checkpoint V)) (m : LatestByKey V) (e : ReplayEvent V)
      (es : List (ReplayEvent V))
      → i ≤ t
      → i % 1000 ≡ 0
      → find_checkpoint_from t o (build_checkpoints_from i m (e ∷ es))
        ≡ find_checkpoint_from t
            (some (record { event_index = i; latest_by_key = observe e m }))
            (build_checkpoints_from (suc i) (observe e m) es)
  unfolding find_checkpoint_from build_checkpoints_from
  find_stride t i o m e es h k = ground arith

  find_skip :
      (t i : ℕ) (o : Option (Checkpoint V)) (m : LatestByKey V) (e : ReplayEvent V)
      (es : List (ReplayEvent V))
      → i % 1000 ≢ 0
      → find_checkpoint_from t o (build_checkpoints_from i m (e ∷ es))
        ≡ find_checkpoint_from t o (build_checkpoints_from (suc i) (observe e m) es)
  unfolding build_checkpoints_from
  find_skip t i o m e es k = ground arith

  -- A candidate stays one when no later event up to t has a checkpoint.
  extend :
      (t : ℕ) (p es : List (ReplayEvent V)) (cp : Checkpoint V)
      → IsCheckpoint t p cp
      → ((n : ℕ) → n < length (p ++ es) → n ≤ t → n % 1000 ≡ 0 → n < length p)
      → IsCheckpoint t (p ++ es) cp
  extend t p es cp c h = record {
    before = c.before;
    at = c.at;
    after = c.after ++ es;
    splits = ap (λ q. q ++ es) c.splits ∙ append_assoc c.before (c.at ∷ c.after) es;
    index = c.index;
    latest = c.latest;
    reached = c.reached;
    multiple = c.multiple;
    newest = λ n a b d. c.newest n (h n a b d) b d;
  }

  stride-IsCheckpoint :
      (t : ℕ) (p : List (ReplayEvent V)) (e : ReplayEvent V) (i : ℕ) (m : LatestByKey V)
      → i ≡ length p
      → m ≡ observe_all p []
      → i ≤ t
      → i % 1000 ≡ 0
      → IsCheckpoint t (p ++ (e ∷ [])) (record { event_index = i; latest_by_key = observe e m })
  stride-IsCheckpoint t p e i m ei em h k = record {
    before = p;
    at = e;
    after = [];
    splits = refl;
    index = ei;
    latest = ap (observe e) em;
    reached = h;
    multiple = k;
    newest = λ n a b d. omega (arith, a, length-append p (e ∷ []));
  }

  observed :
      (p : List (ReplayEvent V)) (e : ReplayEvent V) (m : LatestByKey V)
      → m ≡ observe_all p []
      → observe e m ≡ observe_all (p ++ (e ∷ [])) []
  unfolding observe_all
  observed p e m f = ap (observe e) f ∙ sym (observe_all-append p (e ∷ []) [])

  find-IsCandidate :
      (t : ℕ) (p es : List (ReplayEvent V)) (o : Option (Checkpoint V)) (i : ℕ) (m : LatestByKey V)
      → i ≡ length p
      → m ≡ observe_all p []
      → i ≤ suc t
      → IsCandidate t p o
      → IsCandidate t (p ++ es) (find_checkpoint_from t o (build_checkpoints_from i m es))
  find-IsCandidate t p [] o i m ei em h c =
      unfold find_checkpoint_from build_checkpoints_from in
      subst (λ q. IsCandidate t q o) (sym (append-nil p)) c
  find-IsCandidate t p (e ∷ es) o i m ei em h c = elim (dec_lt t i) [
    | yes l ↦ subst (IsCandidate t (p ++ (e ∷ es))) (sym (find_past t i o m (e ∷ es) l)) (elim c [
      | inl (a, b) ↦ absurd (omega (arith, ap length b))
      | inr (cp, a, b) ↦ inr (cp, a, extend t p (e ∷ es) cp b (λ n j k d. omega arith))
    ])
    | no l ↦ elim (dec_lt 0 (i % 1000)) [
      | no z ↦ next _ (find_stride t i o m e es (omega arith) (omega arith)) (
          find-IsCandidate t (p ++ (e ∷ [])) es (some _) (suc i) (observe e m) longer
            (observed p e m em) (omega arith)
            (inr (_, refl, stride-IsCheckpoint t p e i m ei em (omega arith) (omega arith))))
      | yes z ↦ next _ (find_skip t i o m e es (λ x. omega arith)) (
          find-IsCandidate t (p ++ (e ∷ [])) es o (suc i) (observe e m) longer (observed p e m em)
            (omega arith)
            (elim c [
              | inl (a, b) ↦ absurd (omega (arith, ap length b))
              | inr (cp, a, b) ↦ inr (cp, a, extend t p (e ∷ []) cp b (λ n j k d. skipped n z j d))
            ]))
    ]
  ]
    where
      longer : suc i ≡ length (p ++ (e ∷ []))
      longer = omega (arith, length-append p (e ∷ []))

      skipped : (n : ℕ) → 0 < i % 1000 → n < length (p ++ (e ∷ [])) → n % 1000 ≡ 0 → n < length p
      skipped n z j d = elim (dec_lt n (length p)) [
        | yes y ↦ y
        | no y ↦
            let same : n ≡ i = omega (arith, length-append p (e ∷ [])) in
            absurd (omega (arith, ap (λ j. j % 1000) same))
      ]

      next :
          (o' : Option (Checkpoint V))
          → find_checkpoint_from t o (build_checkpoints_from i m (e ∷ es)) ≡ o'
          → IsCandidate t ((p ++ (e ∷ [])) ++ es) o'
          → IsCandidate t
              (p ++ (e ∷ es))
              (find_checkpoint_from t o (build_checkpoints_from i m (e ∷ es)))
      next o' f g =
          subst
            (λ q. IsCandidate t q (find_checkpoint_from t o (build_checkpoints_from i m (e ∷ es))))
            (append_assoc p (e ∷ []) es) (subst (IsCandidate t ((p ++ (e ∷ [])) ++ es)) (sym f) g)

  candidate :
      (t : ℕ) (es : List (ReplayEvent V))
      → IsCandidate t es (find_checkpoint_for_event t (build_checkpoints es))
  unfolding find_checkpoint_for_event build_checkpoints
  candidate t es =
      find-IsCandidate t [] es none 0 [] refl (unfold observe_all in refl) (omega arith)
        (inl (refl, refl))

  -- What a seek to event t reconstructs, from the checkpoint that it starts at, is what all events
  -- before t give, and event t too if t is a multiple of 1000 and the index of an event.
  pub reconstruct-observe_all :
      (t : ℕ) (es : List (ReplayEvent V))
      → reconstruct t es (build_checkpoints es) ≡ observe_all (take (seek_count t es) es) []
  unfolding reconstruct reconstruct_from range observe_all
  reconstruct-observe_all t es = elim (candidate t es) [
    | inl (a, b) ↦ rw a (
        rw b (
          ap (λ q. observe_all q [])
            (take-length_le t [] (omega arith)
              ∙ sym (take-length_le (seek_count t []) [] (omega arith)))))
    | inr (cp, a, c) ↦ rw a (from_candidate es cp t c)
  ]
