-- ===== src/Model/VariableStore/Winner.antt =====
-- Which update of a key is kept.
use text.Mathlib.Text.{◌==◌}
use text.Mathlib.TextEquality.{eq_iff}
use mathlib.Core.Option
use mathlib.Core.Bool.{false≢true}
use native.Mathlib.Nat.{le_trans, le_of_lt}
use native.Mathlib.Decide.{dec_le}
use smart_dashboard.Base.{
  ◌≢◌, append_assoc, append-nil, subst, All-append, All-imp, ℕ, ◌≤◌, ◌<◌, ◌≡◌, ◌⊎◌, refl, sym, ap,
  ◌∙◌, inl, inr, String, List, [], ◌∷◌, ◌++◌, none, some, arith, All, if◌then◌else◌, Bool-cases,
}
use smart_dashboard.Base.Eq.{string_IsEq}
use smart_dashboard.Base.Assoc.{lookup, lookup-insert}
use smart_dashboard.Model.VariableStore.{
  VariableRecord, VariableStore, merge, upsert, reset_sequence_tracking, run,
}

module _ {V : Type 0} where
  -- Every update of the key among them has a sequence number at most n, or below n.
  abbrev pub AtMost : String → ℕ → List (VariableRecord V) → Type 0
  AtMost k n us = All (λ u. u.key ≡ k → u.seq ≤ n) us

  abbrev pub Below : String → ℕ → List (VariableRecord V) → Type 0
  Below k n us = All (λ u. u.key ≡ k → u.seq < n) us

  -- The record is an update of the key that no update of it before outnumbers, and none after
  -- equals.
  pub record IsWinner (k : String) (us : List (VariableRecord V)) (r : VariableRecord V)
      : Type 0 where
    pub before : List (VariableRecord V)
    pub after : List (VariableRecord V)
    pub splits : us ≡ before ++ (r ∷ after)
    pub keyed : r.key ≡ k
    pub earlier : AtMost k r.seq before
    pub later : Below k r.seq after

  pub lookup-upsert :
      (k : String) (u : VariableRecord V) (s : VariableStore V)
      → lookup k (upsert u s).0
        ≡ (if u.key == k then some (merge (lookup u.key s) u) else lookup k s)
  unfolding upsert
  lookup-upsert k u s = lookup-insert u.key k (merge (lookup u.key s) u) s

  -- What the store knows of a key after some updates.
  abbrev pub Knows : String → List (VariableRecord V) → VariableStore V → Type 0
  Knows k us s =
      ((lookup k s ≡ none) × All (λ u. u.key ≢ k) us)
      ⊎ ((r : VariableRecord V) × (lookup k s ≡ some r) × IsWinner k us r)

  merge_newer : (r u : VariableRecord V) → r.key ≡ u.key → r.seq ≤ u.seq → merge (some r) u ≡ u
  unfolding merge
  merge_newer r u e h = ground arith

  merge_older : (r u : VariableRecord V) → u.seq < r.seq → merge (some r) u ≡ r
  unfolding merge
  merge_older r u h = ground arith

  -- An update that does not replace the winner comes behind it.
  behind :
      (k : String) (us : List (VariableRecord V)) (r u : VariableRecord V)
      → IsWinner k us r
      → (u.key ≡ k → u.seq < r.seq)
      → IsWinner k (us ++ (u ∷ [])) r
  behind k us r u w h = record {
    before = w.before;
    after = w.after ++ (u ∷ []);
    splits = ap (λ xs. xs ++ (u ∷ [])) w.splits ∙ append_assoc w.before (r ∷ w.after) (u ∷ []);
    keyed = w.keyed;
    earlier = w.earlier;
    later = All-append _ w.after (u ∷ []) w.later (h, tt);
  }

  newest :
      (k : String) (us : List (VariableRecord V)) (u : VariableRecord V)
      → u.key ≡ k
      → AtMost k u.seq us
      → IsWinner k (us ++ (u ∷ [])) u
  newest k us u e h = record {
    before = us;
    after = [];
    splits = refl;
    keyed = e;
    earlier = h;
    later = tt;
  }

  winner_AtMost :
      (k : String) (us : List (VariableRecord V)) (r : VariableRecord V) (n : ℕ)
      → IsWinner k us r
      → r.seq ≤ n
      → AtMost k n us
  winner_AtMost k us r n w h = subst (AtMost k n) (sym w.splits) (
      All-append _ w.before (r ∷ w.after)
        (All-imp _ _ (λ u f e. le_trans (f e) h) w.before w.earlier)
        ((λ e. h), All-imp _ _ (λ u f e. le_trans (le_of_lt (f e)) h) w.after w.later))

  step-Knows :
      (k : String) (us : List (VariableRecord V)) (s : VariableStore V) (u : VariableRecord V)
      → Knows k us s
      → Knows k (us ++ (u ∷ [])) (upsert u s).0
  unfolding merge
  step-Knows k us s u w = elim (Bool-cases (u.key == k)) [
    | inr n ↦
        other (λ e. absurd (false≢true (sym n ∙ (eq_iff u.key k).1 e))) (lookup-upsert k u s ∙ rw n)
          w
    | inl y ↦ same ((eq_iff u.key k).0 y) (lookup-upsert k u s ∙ rw y) w
  ]
    where
      other :
          u.key ≢ k
          → lookup k (upsert u s).0 ≡ lookup k s
          → Knows k us s
          → Knows k (us ++ (u ∷ [])) (upsert u s).0
      other ne e (inl (l, a)) = inl (e ∙ l, All-append _ us (u ∷ []) a (ne, tt))
      other ne e (inr (r, l, v)) = inr (r, e ∙ l, behind k us r u v (λ f. absurd (ne f)))

      same :
          u.key ≡ k
          → lookup k (upsert u s).0 ≡ some (merge (lookup u.key s) u)
          → Knows k us s
          → Knows k (us ++ (u ∷ [])) (upsert u s).0
      same f e (inl (l, a)) = inr (
        u,
        e ∙ ap (λ o. some (merge o u)) (ap (λ j. lookup j s) f ∙ l) ∙ refl,
        newest k us u f (All-imp _ _ (λ x ne g. absurd (ne g)) us a),
      )
      same f e (inr (r, l, v)) = elim (dec_le r.seq u.seq) [
        | yes p ↦ inr (
          u,
          e
              ∙ ap (λ o. some (merge o u)) (ap (λ j. lookup j s) f ∙ l)
              ∙ ap some (merge_newer r u (v.keyed ∙ sym f) p),
          newest k us u f (winner_AtMost k us r u.seq v p),
        )
        | no p ↦ inr (
          r,
          e
              ∙ ap (λ o. some (merge o u)) (ap (λ j. lookup j s) f ∙ l)
              ∙ ap some (merge_older r u (omega arith)),
          behind k us r u v (λ g. omega arith),
        )
      ]

  run-Knows :
      (k : String) (past us : List (VariableRecord V)) (s : VariableStore V)
      → Knows k past s
      → Knows k (past ++ us) (run s us)
  unfolding run
  run-Knows k past [] s w = subst (λ xs. Knows k xs s) (sym (append-nil past)) w
  run-Knows k past (u ∷ us) s w =
      subst (λ xs. Knows k xs (run (upsert u s).0 us)) (append_assoc past (u ∷ []) us)
        (run-Knows k (past ++ (u ∷ [])) us (upsert u s).0 (step-Knows k past s u w))

  -- After any updates of an empty store, a key is unknown if no update was of it, and otherwise its
  -- record is one of its updates, with a sequence number that is at least that of every update of
  -- the key before it and above that of every one after it.
  pub run-winner : (k : String) (us : List (VariableRecord V)) → Knows k us (run [] us)
  run-winner k us = run-Knows k [] us [] (unfold lookup in inl (refl, tt))

  lookup-reset :
      (k : String) (s : VariableStore V)
      → lookup k (reset_sequence_tracking s)
        ≡ Option.map (λ (r : VariableRecord V). record r { seq = 0 }) (lookup k s)
  unfolding lookup reset_sequence_tracking
  lookup-reset k [] = refl
  lookup-reset k ((j, r) ∷ s) = ground (arith, lookup-reset k s)

  -- After the sequence numbers are reset, the next update of a key that the store holds is stored,
  -- whatever its sequence number.
  pub upsert-reset :
      (u r : VariableRecord V) (s : VariableStore V)
      → lookup u.key s ≡ some r
      → lookup u.key (upsert u (reset_sequence_tracking s)).0
        ≡ some (record r { type = u.type; value = u.value; seq = u.seq })
  unfolding merge
  upsert-reset u r s e =
      lookup-upsert u.key u (reset_sequence_tracking s)
      ∙ ground (arith, eq_iff u.key u.key, lookup-reset u.key s)
