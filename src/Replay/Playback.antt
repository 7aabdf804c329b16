-- ===== src/Replay/Playback.antt =====
-- What one pass of `RunPlaybackLoop` publishes, on events in the order of their times.
use smart_dashboard.Base.{
  ℕ, suc, ◌+◌, ◌≤◌, ◌≡◌, refl, ap, ap₂, sym, ◌∙◌, Bool, true, false, not, ◌&&◌, List, [], ◌∷◌, ◌++◌,
  if◌then◌else◌, Bool-cases, ℤ, pos, negsuc, All, All-imp, drop, arith, lt→ltb, le→ltb, ◌<◌, inl,
  inr,
}
use smart_dashboard.Replay.{
  VariableUpdate, ReplayEvent, data_event, connection_event, marker_event, timestamp_us, int_lt,
  find_first_event_after_time, collect_updates,
}

abbrev pub before : ℤ → ℕ → Bool
before t cursor = int_lt t (pos cursor)

before_le : (t : ℤ) (a b : ℕ) → a ≤ b → before t a ≡ true → before t b ≡ true
before_le (pos n) a b h k = ground arith
before_le (negsuc n) a b h k = refl

before_sorted : (t u : ℤ) (a : ℕ) → int_lt u t ≡ false → before t a ≡ false → before u a ≡ false
before_sorted (pos n) (pos m) a h k = ground arith
before_sorted (pos n) (negsuc m) a h k = absurd (ground arith)
before_sorted (negsuc n) u a h k = absurd (ground arith)

module _ {V : Type 0} where
  -- No event is before one that precedes it.
  unfoldable pub IsSorted : List (ReplayEvent V) → Type 0
  IsSorted [] = Unit
  IsSorted (e ∷ es) = All (λ x. int_lt (timestamp_us x) (timestamp_us e) ≡ false) es × IsSorted es

  -- The update of a data event whose time is at least a and below b, in front of the others.
  unfoldable pub played_event :
      ℕ → ℕ → ReplayEvent V → List (VariableUpdate V) → List (VariableUpdate V)
  played_event a b (data_event t u) us = if not (before t a) && before t b then u ∷ us else us
  played_event a b (connection_event t m) us = us
  played_event a b (marker_event t m) us = us

  -- The updates of the data events whose times are at least a and below b.
  unfoldable pub played : ℕ → ℕ → List (ReplayEvent V) → List (VariableUpdate V)
  played a b [] = []
  played a b (e ∷ es) = played_event a b e (played a b es)

  after_sorted :
      (a : ℕ) (e : ReplayEvent V) (es : List (ReplayEvent V))
      → IsSorted (e ∷ es)
      → before (timestamp_us e) a ≡ false
      → All (λ x. before (timestamp_us x) a ≡ false) es
  unfolding IsSorted
  after_sorted a e es h k =
      All-imp _ _ (λ x f. before_sorted (timestamp_us e) (timestamp_us x) a f k) es h.0

  played_none :
      (a b : ℕ) (es : List (ReplayEvent V))
      → All (λ x. before (timestamp_us x) b ≡ false) es
      → played a b es ≡ []
  unfolding played played_event timestamp_us
  played_none a b [] h = refl
  played_none a b (data_event t u ∷ es) h = ground (arith, played_none a b es h.1)
  played_none a b (connection_event t m ∷ es) h = played_none a b es h.1
  played_none a b (marker_event t m ∷ es) h = played_none a b es h.1

  pub played_none_self : (a : ℕ) (es : List (ReplayEvent V)) → played a a es ≡ []
  unfolding played played_event
  played_none_self a [] = refl
  played_none_self a (data_event t u ∷ es) = ground (arith, played_none_self a es)
  played_none_self a (connection_event t m ∷ es) = played_none_self a es
  played_none_self a (marker_event t m ∷ es) = played_none_self a es

  pub played-append :
      (a b c : ℕ) (es : List (ReplayEvent V))
      → IsSorted es
      → a ≤ b
      → b ≤ c
      → played a b es ++ played b c es ≡ played a c es
  unfolding played played_event timestamp_us IsSorted
  played-append a b c [] s h k = refl
  played-append a b c (connection_event t m ∷ es) s h k = played-append a b c es s.1 h k
  played-append a b c (marker_event t m ∷ es) s h k = played-append a b c es s.1 h k
  played-append a b c (data_event t u ∷ es) s h k = elim (Bool-cases (before t b)) [
    | inl y ↦ ground (arith, played-append a b c es s.1 h k, before_le t b c k, y)
    | inr n ↦
        let nil = played_none a b es (after_sorted b (data_event t u) es s n) in
        ground (arith, played-append a b c es s.1 h k, before_le t a b h, nil, n)
  ]

  find_before :
      (c : ℕ) (e : ReplayEvent V) (es : List (ReplayEvent V))
      → before (timestamp_us e) c ≡ true
      → find_first_event_after_time c (e ∷ es) ≡ suc (find_first_event_after_time c es)
  unfolding find_first_event_after_time
  find_before c e es h = rw h refl

  find_at :
      (c : ℕ) (e : ReplayEvent V) (es : List (ReplayEvent V))
      → before (timestamp_us e) c ≡ false
      → find_first_event_after_time c (e ∷ es) ≡ 0
  unfolding find_first_event_after_time
  find_at c e es h = rw h refl

  collect_step :
      (a b n k m : ℕ) (e : ReplayEvent V) (es : List (ReplayEvent V)) (us : List (VariableUpdate V))
      → k < n
      → before (timestamp_us e) a ≡ false
      → before (timestamp_us e) b ≡ true
      → collect_updates a n (suc k) es ≡ (us, m)
      → collect_updates a n k (e ∷ es) ≡ (played_event a b e us, m)
  unfolding collect_updates played_event timestamp_us
  collect_step a b n k m (data_event t u) es us l f g h = rw (lt→ltb k n l, h, f, g) refl
  collect_step a b n k m (connection_event t c) es us l f g h = rw (lt→ltb k n l, h) refl
  collect_step a b n k m (marker_event t c) es us l f g h = rw (lt→ltb k n l, h) refl

  collect_end :
      (a n : ℕ) (e : ReplayEvent V) (es : List (ReplayEvent V))
      → collect_updates a n n (e ∷ es) ≡ ([], n)
  unfolding collect_updates
  collect_end a n e es = rw (le→ltb n n (omega arith)) refl

  collect_none : (a n j : ℕ) → n ≡ j → collect_updates {V = V} a n j [] ≡ ([], n)
  unfolding collect_updates
  collect_none a n j h = ap (λ i. ([], i)) (sym h)

  skip_event :
      (a b : ℕ) (e : ReplayEvent V) (us : List (VariableUpdate V))
      → before (timestamp_us e) a ≡ true
      → played_event a b e us ≡ us
  unfolding played_event timestamp_us
  skip_event a b (data_event t u) us h = rw h refl
  skip_event a b (connection_event t m) us h = refl
  skip_event a b (marker_event t m) us h = refl

  -- From an index whose event and the later ones are at a or after it.
  collect_after :
      (a b n k : ℕ) (es : List (ReplayEvent V))
      → n ≡ k + find_first_event_after_time b es
      → IsSorted es
      → All (λ x. before (timestamp_us x) a ≡ false) es
      → collect_updates a n k es ≡ (played a b es, n)
  unfolding played
  collect_after a b n k [] e s h =
      collect_none a n k (unfold find_first_event_after_time in omega (arith, e))
  collect_after a b n k (x ∷ es) e s h = elim (Bool-cases (before (timestamp_us x) b)) [
    | inl y ↦
        collect_step a b n k n x es (played a b es) (omega (arith, find_before b x es y)) h.0 y (
          collect_after a b n (suc k) es (omega (arith, find_before b x es y))
            (unfold IsSorted in s.1) h.1)
    | inr z ↦
        let nk : n ≡ k = omega (arith, find_at b x es z) in
        ap (λ i. collect_updates a i k (x ∷ es)) nk
        ∙ collect_end a k x es
        ∙ ap₂ (λ us i. (us, i)) (sym (played_none a b (x ∷ es) (z, after_sorted b x es s z)))
            (sym nk)
  ]

  -- From the first event that is not before a.
  pub collect-played :
      (a b n k j : ℕ) (es : List (ReplayEvent V))
      → n ≡ k + find_first_event_after_time b es
      → j ≡ k + find_first_event_after_time a es
      → IsSorted es
      → a ≤ b
      → collect_updates a n j (drop (find_first_event_after_time a es) es) ≡ (played a b es, n)
  unfolding played
  collect-played a b n k j [] e f s h =
      unfold find_first_event_after_time in collect_none a n j (omega (arith, e, f))
  collect-played a b n k j (x ∷ es) e f s h = elim (Bool-cases (before (timestamp_us x) a)) [
    | inl y ↦
        ap (λ i. collect_updates a n j (drop i (x ∷ es))) (find_before a x es y)
        ∙ collect-played a b n (suc k) j es
            (omega (arith, find_before b x es (before_le (timestamp_us x) a b h y)))
            (omega (arith, find_before a x es y)) (unfold IsSorted in s.1) h
        ∙ ap (λ us. (us, n)) (sym (skip_event a b x (played a b es) y))
    | inr z ↦
        let jk : j ≡ k = omega (arith, find_at a x es z) in
        ap₂ (λ i m. collect_updates a n m (drop i (x ∷ es))) (find_at a x es z) jk
        ∙ collect_after a b n k (x ∷ es) e s (z, after_sorted a x es s z)
  ]
