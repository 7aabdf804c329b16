-- ===== src/Replay/Numbers.antt =====
-- The sequence numbers of a capture session.
use text.Mathlib.Text.{◌==◌ as str_eq}
use smart_dashboard.Base.{
  if_keeps, ℕ, ◌≡◌, refl, sym, subst, ap, ◌∙◌, true, false, List, [], ◌∷◌, ◌++◌, inl, inr,
  Bool-cases, if◌then◌else◌, inc64,
}
use smart_dashboard.Base.Eq.{bytes_IsEq, bytes_eq, bytes_eq_iff}
use smart_dashboard.Base.Assoc.{lookup}
use smart_dashboard.Base.Ordered.{assign, lookup-assign}
use smart_dashboard.Replay.{ReplayEvent, data_event, connection_event, marker_event}
use smart_dashboard.Replay.Parse.{
  JsonApi, Signal, sample_update, parse_samples, or_zero, count_of, parse_signals,
  parse_capture_session,
}

-- The numbers go on from n, one by one.
unfoldable pub GoesOn : ℕ → List ℕ → Type 0
GoesOn n [] = Unit
GoesOn n (m ∷ ms) = (m ≡ inc64 n) × GoesOn m ms

count_of-assign :
    (k j : List ℕ) (n : ℕ) (m : List (List ℕ × ℕ))
    → count_of k (assign j n m) ≡ (if bytes_eq j k then n else count_of k m)
count_of-assign k j n m =
    ap or_zero (lookup-assign j k n m)
    ∙ (elim (Bool-cases (bytes_eq j k)) [ inl y ↦ rw y refl | inr z ↦ rw z refl ])

self : (k : List ℕ) → bytes_eq k k ≡ true
self k = (bytes_eq_iff k k).1 refl

module _ {V : Type 0} where
  -- The sequence numbers of the updates of a key.
  unfoldable pub seqs_of : List ℕ → List (ReplayEvent V) → List ℕ
  seqs_of k [] = []
  seqs_of k (data_event t u ∷ es) =
      let rest = seqs_of k es in if bytes_eq u.key k then u.seq ∷ rest else rest
  seqs_of k (connection_event t m ∷ es) = seqs_of k es
  seqs_of k (marker_event t m ∷ es) = seqs_of k es

module _ {J V D : Type 0} (q : JsonApi J V D) where
  seqs_of-sample_update :
      (k : List ℕ) (g : Signal J) (j : J) (n : ℕ) (es : List (ReplayEvent V))
      → seqs_of k (sample_update q g j n ∷ es)
        ≡ (if bytes_eq g.key k then n ∷ seqs_of k es else seqs_of k es)
  unfolding seqs_of sample_update
  seqs_of-sample_update k g j n es =
      if_keeps Adds (str_eq g.type "bool") _ _ refl
        (if_keeps Adds (str_eq g.type "double") _ _ refl refl)
    where
      Adds : ReplayEvent V → Type 0
      Adds e = seqs_of k (e ∷ es) ≡ (if bytes_eq g.key k then n ∷ seqs_of k es else seqs_of k es)

  samples_same :
      (k : List ℕ) (g : Signal J) (n : ℕ) (js : List J) (ys : List (ReplayEvent V))
      → bytes_eq g.key k ≡ true
      → GoesOn (parse_samples q g n js).1 (seqs_of k ys)
      → GoesOn n (seqs_of k ((parse_samples q g n js).0 ++ ys))
  unfolding parse_samples GoesOn
  samples_same k g n [] ys e h = h
  samples_same k g n (j ∷ js) ys e h =
      subst (GoesOn n) (sym (seqs_of-sample_update k g j (inc64 n) _))
        (rw e (refl, samples_same k g (inc64 n) js ys e h))

  samples_other :
      (k : List ℕ) (g : Signal J) (n m : ℕ) (js : List J) (ys : List (ReplayEvent V))
      → bytes_eq g.key k ≡ false
      → GoesOn m (seqs_of k ys)
      → GoesOn m (seqs_of k ((parse_samples q g n js).0 ++ ys))
  unfolding parse_samples
  samples_other k g n m [] ys e h = h
  samples_other k g n m (j ∷ js) ys e h =
      subst (GoesOn m) (sym (seqs_of-sample_update k g j (inc64 n) _))
        (rw e (samples_other k g (inc64 n) m js ys e h))

  signals-GoesOn :
      (k : List ℕ) (gs : List (Signal J)) (m : List (List ℕ × ℕ))
      → GoesOn (count_of k m) (seqs_of k (parse_signals q gs m))
  unfolding parse_signals
  signals-GoesOn k [] m = unfold seqs_of GoesOn in tt
  signals-GoesOn k (g ∷ gs) m = elim (Bool-cases (bytes_eq g.key [])) [
    | inl y ↦ rw y (signals-GoesOn k gs m)
    | inr n ↦ rw n (elim (Bool-cases (bytes_eq g.key k)) [
      | inl y ↦
          subst
            (λ k.
              GoesOn (count_of k m)
                (seqs_of k ((parse_samples q g (count_of g.key m) g.samples).0 ++ rest)))
            ((bytes_eq_iff g.key k).0 y)
            (samples_same g.key g (count_of g.key m) g.samples rest (self g.key) (
              subst (λ c. GoesOn c (seqs_of g.key rest))
                (count_of-assign g.key g.key last m ∙ rw (self g.key) refl)
                (signals-GoesOn g.key gs (assign g.key last m))))
      | inr z ↦ samples_other k g (count_of g.key m) (count_of k m) g.samples rest z (
          subst (λ c. GoesOn c (seqs_of k rest)) (count_of-assign k g.key last m ∙ rw z refl)
            (signals-GoesOn k gs (assign g.key last m)))
    ])
  ]
    where
      last : ℕ
      last = (parse_samples q g (count_of g.key m) g.samples).1

      rest : List (ReplayEvent V)
      rest = parse_signals q gs (assign g.key last m)

  -- The updates of each key in a capture session are numbered 1, 2, 3 and so on, modulo 2^64, in
  -- the order in which they stand.
  pub capture_session-GoesOn :
      (k : List ℕ) (root : J) → GoesOn 0 (seqs_of k (parse_capture_session q root))
  unfolding parse_capture_session lookup
  capture_session-GoesOn k root = signals-GoesOn k (q.signals root) []
