-- ===== src/Direct/Retained/Slots.antt =====
-- Which entry a `Put` overwrites.
use smart_dashboard.Base.{
  ℕ, zero, suc, ◌+◌, ◌<◌, ◌≤◌, ◌≡◌, ◌⊎◌, refl, sym, subst, lt→ltb, le→ltb, inl, inr, Bool, true,
  false, ◌&&◌, List, [], ◌∷◌, Option, none, some, arith, take, All, Bool-cases,
}
use native.Mathlib.Decide.{dec_lt}
use smart_dashboard.Base.Eq.{bytes_eq}
use smart_dashboard.Direct.Retained.{RetainedEntry, c_string, slot}

unfoldable pub get : ℕ → List RetainedEntry → Option RetainedEntry
get n [] = none
get zero (e ∷ es) = some e
get (suc n) (e ∷ es) = get n es

-- The entry is occupied and has the key.
abbrev pub has_key : List ℕ → RetainedEntry → Bool
has_key key e = e.occupied && bytes_eq (c_string e.key) key

abbrev pub Without : List ℕ → List RetainedEntry → Type 0
Without key es = All (λ e. has_key key e ≡ false) es

abbrev pub Occupied : List RetainedEntry → Type 0
Occupied es = All (λ x. x.occupied ≡ true) es

-- The index `s`, of entries that are counted from `i`, is that of the first with the key.
abbrev HitAt : List ℕ → ℕ → List RetainedEntry → ℕ → Type 0
HitAt key i es s =
    (n : ℕ) × (e : RetainedEntry) × (s ≡ i + n)
    × (get n es ≡ some e)
    × (has_key key e ≡ true)
    × Without key (take n es)

-- It is that of an entry that is not occupied, and none has the key.
abbrev FreeAt : List ℕ → ℕ → List RetainedEntry → ℕ → Type 0
FreeAt key i es s =
    (n : ℕ) × (e : RetainedEntry) × (s ≡ i + n)
    × (get n es ≡ some e)
    × (e.occupied ≡ false)
    × Without key es

-- It is that of an entry with a smaller number than `q` and no larger one than any other.
abbrev OldestAt : ℕ → ℕ → List RetainedEntry → ℕ → Type 0
OldestAt i q es s =
    (n : ℕ) × (e : RetainedEntry) × (s ≡ i + n)
    × (get n es ≡ some e)
    × (e.seq < q)
    × All (λ x. e.seq ≤ x.seq) es

not_occupied : (key : List ℕ) (e : RetainedEntry) → e.occupied ≡ false → has_key key e ≡ false
not_occupied key e v = ground arith

other :
    (key : List ℕ) (e : RetainedEntry)
    → e.occupied ≡ true
    → has_key key e ≡ false
    → bytes_eq (c_string e.key) key ≡ false
other key e y h = ground arith

module _ (key : List ℕ) where
  HitAt-cons :
      (i s : ℕ) (e : RetainedEntry) (es : List RetainedEntry)
      → has_key key e ≡ false
      → HitAt key (suc i) es s
      → HitAt key i (e ∷ es) s
  unfolding get
  HitAt-cons i s e es w (n, x, a, g, h, k) = (suc n, x, omega arith, g, h, (w, k))

  HitAt-head :
      (i : ℕ) (e : RetainedEntry) (es : List RetainedEntry)
      → has_key key e ≡ true
      → HitAt key i (e ∷ es) i
  unfolding get
  HitAt-head i e es h = (0, e, omega arith, refl, h, tt)

  -- Once there is a free entry, it is chosen unless the key is met.
  abbrev Kept : ℕ → ℕ → List RetainedEntry → ℕ → Type 0
  Kept i j es s = ((s ≡ j) × Without key es) ⊎ HitAt key i es s

  Kept-cons :
      (i j s : ℕ) (e : RetainedEntry) (es : List RetainedEntry)
      → has_key key e ≡ false
      → Kept (suc i) j es s
      → Kept i j (e ∷ es) s
  Kept-cons i j s e es w (inl (a, b)) = inl (a, (w, b))
  Kept-cons i j s e es w (inr h) = inr (HitAt-cons i s e es w h)

  -- The four branches of the loop's body.
  module _ (i : ℕ) (e : RetainedEntry) (es : List RetainedEntry) (free : Option ℕ) (q o : ℕ) where
    slot_vacant :
        e.occupied ≡ false
        → slot key i (e ∷ es) free q o
          ≡ slot key (suc i) es (elim free [ none ↦ some i | some j ↦ some j ]) q o
    unfolding slot
    slot_vacant v = rw v refl

    slot_found : has_key key e ≡ true → slot key i (e ∷ es) free q o ≡ i
    unfolding slot
    slot_found h = ground arith

    slot_older :
        e.occupied ≡ true
        → has_key key e ≡ false
        → e.seq < q
        → slot key i (e ∷ es) free q o ≡ slot key (suc i) es free e.seq i
    unfolding slot
    slot_older y h l = rw (y, other key e y h, lt→ltb e.seq q l) refl

    slot_kept :
        e.occupied ≡ true
        → has_key key e ≡ false
        → q ≤ e.seq
        → slot key i (e ∷ es) free q o ≡ slot key (suc i) es free q o
    unfolding slot
    slot_kept y h l = rw (y, other key e y h, le→ltb e.seq q l) refl

  slot_free :
      (i : ℕ) (es : List RetainedEntry) (j q o : ℕ) → Kept i j es (slot key i es (some j) q o)
  unfolding slot
  slot_free i [] j q o = inl (refl, tt)
  slot_free i (e ∷ es) j q o = elim (Bool-cases e.occupied) [
    | inr v ↦
        subst (Kept i j (e ∷ es)) (sym (slot_vacant i e es (some j) q o v))
          (Kept-cons i j _ e es (not_occupied key e v) (slot_free (suc i) es j q o))
    | inl y ↦ elim (Bool-cases (has_key key e)) [
      | inl m ↦
          subst (Kept i j (e ∷ es)) (sym (slot_found i e es (some j) q o m))
            (inr (HitAt-head i e es m))
      | inr m ↦ elim (dec_lt e.seq q) [
        | yes l ↦
            subst (Kept i j (e ∷ es)) (sym (slot_older i e es (some j) q o y m l))
              (Kept-cons i j _ e es m (slot_free (suc i) es j e.seq i))
        | no l ↦
            subst (Kept i j (e ∷ es)) (sym (slot_kept i e es (some j) q o y m (omega arith)))
              (Kept-cons i j _ e es m (slot_free (suc i) es j q o))
      ]
    ]
  ]

  -- What the whole loop does: with no free entry and no key met, the oldest is kept in `o`.
  abbrev pub Chosen : ℕ → ℕ → ℕ → List RetainedEntry → ℕ → Type 0
  Chosen i q o es s =
      HitAt key i es s
      ⊎ (FreeAt key i es s
          ⊎ (Occupied es
              × Without key es
              × (((s ≡ o) × All (λ x. q ≤ x.seq) es) ⊎ OldestAt i q es s)))

  Chosen-vacant :
      (i q o s : ℕ) (e : RetainedEntry) (es : List RetainedEntry)
      → e.occupied ≡ false
      → Kept (suc i) i es s
      → Chosen i q o (e ∷ es) s
  unfolding get
  Chosen-vacant i q o s e es v (inl (a, b)) =
      inr (inl (0, e, omega arith, refl, v, (not_occupied key e v, b)))
  Chosen-vacant i q o s e es v (inr h) = inl (HitAt-cons i s e es (not_occupied key e v) h)

  Chosen-kept :
      (i q o s : ℕ) (e : RetainedEntry) (es : List RetainedEntry)
      → e.occupied ≡ true
      → has_key key e ≡ false
      → q ≤ e.seq
      → Chosen (suc i) q o es s
      → Chosen i q o (e ∷ es) s
  unfolding get
  Chosen-kept i q o s e es y w l (inl h) = inl (HitAt-cons i s e es w h)
  Chosen-kept i q o s e es y w l (inr (inl (n, x, a, g, v, k))) =
      inr (inl (suc n, x, omega arith, g, v, (w, k)))
  Chosen-kept i q o s e es y w l (inr (inr (c, k, inl (a, b)))) =
      inr (inr ((y, c), (w, k), inl (a, (l, b))))
  Chosen-kept i q o s e es y w l (inr (inr (c, k, inr (n, x, a, g, b, d)))) =
      inr (inr ((y, c), (w, k), inr (suc n, x, omega arith, g, b, (omega arith, d))))

  Chosen-older :
      (i q o s : ℕ) (e : RetainedEntry) (es : List RetainedEntry)
      → e.occupied ≡ true
      → has_key key e ≡ false
      → e.seq < q
      → Chosen (suc i) e.seq i es s
      → Chosen i q o (e ∷ es) s
  unfolding get
  Chosen-older i q o s e es y w l (inl h) = inl (HitAt-cons i s e es w h)
  Chosen-older i q o s e es y w l (inr (inl (n, x, a, g, v, k))) =
      inr (inl (suc n, x, omega arith, g, v, (w, k)))
  Chosen-older i q o s e es y w l (inr (inr (c, k, inl (a, b)))) =
      inr (inr ((y, c), (w, k), inr (0, e, omega arith, refl, l, (omega arith, b))))
  Chosen-older i q o s e es y w l (inr (inr (c, k, inr (n, x, a, g, b, d)))) =
      inr (inr ((y, c), (w, k), inr (suc n, x, omega arith, g, omega arith, (omega arith, d))))

  pub slot-Chosen :
      (i : ℕ) (es : List RetainedEntry) (q o : ℕ) → Chosen i q o es (slot key i es none q o)
  unfolding slot
  slot-Chosen i [] q o = inr (inr (tt, tt, inl (refl, tt)))
  slot-Chosen i (e ∷ es) q o = elim (Bool-cases e.occupied) [
    | inr v ↦
        subst (Chosen i q o (e ∷ es)) (sym (slot_vacant i e es none q o v))
          (Chosen-vacant i q o _ e es v (slot_free (suc i) es i q o))
    | inl y ↦ elim (Bool-cases (has_key key e)) [
      | inl m ↦
          subst (Chosen i q o (e ∷ es)) (sym (slot_found i e es none q o m))
            (inl (HitAt-head i e es m))
      | inr m ↦ elim (dec_lt e.seq q) [
        | yes l ↦
            subst (Chosen i q o (e ∷ es)) (sym (slot_older i e es none q o y m l))
              (Chosen-older i q o _ e es y m l (slot-Chosen (suc i) es e.seq i))
        | no l ↦
            subst (Chosen i q o (e ∷ es)) (sym (slot_kept i e es none q o y m (omega arith)))
              (Chosen-kept i q o _ e es y m (omega arith) (slot-Chosen (suc i) es q o))
      ]
    ]
  ]
