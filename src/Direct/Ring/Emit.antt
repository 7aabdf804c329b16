-- ===== src/Direct/Ring/Emit.antt =====
-- The writer's copies as one write of the frame's bytes.
use native.Mathlib.Nat.{mod-add-mod, mod-eq_of_lt, add-zero}
use smart_dashboard.Base.{
  ℕ, zero, suc, ◌+◌, ◌%◌, ◌^◌, ◌≤◌, ◌<◌, ◌≡◌, refl, sym, ap, ap₂, ◌∙◌, List, [], ◌∷◌, ◌++◌, arith,
  length, take, min, ltb, if◌then◌else◌, length-append, length-take, lt→ltb, Bool-cases, inl, inr,
}
use smart_dashboard.Direct.Types.{
  ValueType, bool, double, string, string_array, VariableValue, VariableUpdate, key_max, string_max,
  string_array_max_count,
}
use smart_dashboard.Direct.Bytes.{Memory, le_bytes}
use smart_dashboard.Direct.Copy.Wrap.{put, put-append, copy_to-eq-put}
use smart_dashboard.Direct.Codec.{compute_value_len, header_bytes}
use smart_dashboard.Direct.Codec.RoundTrip.{
  items_bytes, value_bytes, length-value_bytes, length-header_bytes,
}
use smart_dashboard.Direct.Ring.{Cursor, emit, emit_items, emit_value}
use smart_dashboard.Direct.Ring.Frames.{frame_header, frame_bytes, frame_size}

min-zero : (n : ℕ) → min n 0 ≡ 0
min-zero n = omega arith

small_min : (n : ℕ) → min n string_max % 2 ^ 16 ≡ min n string_max
small_min n = omega arith

min-suc : (a b : ℕ) → min (suc a) (suc b) ≡ suc (min a b)
min-suc a b = omega arith

module _ {ℓ} {A : Type ℓ} where
  take-nil : (k : ℕ) → take {A = A} k [] ≡ []
  take-nil zero = refl
  take-nil (suc k) = refl

  take-min : (n : ℕ) (xs : List A) → take (min (length xs) n) xs ≡ take n xs
  take-min n [] = take-nil (min 0 n) ∙ sym (take-nil n)
  take-min zero (x ∷ xs) = rw (min-zero (suc (length xs)))
  take-min (suc n) (x ∷ xs) = rw (min-suc (length xs) n) (ap (◌∷◌ x) (take-min n xs))

module _ (cap : ℕ) where
  -- The payload and the cursor after the bytes.
  abbrev pub emitted : Cursor → List ℕ → Cursor
  emitted s bs = (put cap s.0 s.1 bs, (s.1 + length bs) % cap)

  pub emitted-append :
      (s : Cursor) (xs ys : List ℕ) → s.1 < cap → emitted (emitted s xs) ys ≡ emitted s (xs ++ ys)
  emitted-append s xs ys h =
      ap₂ (λ (m : Memory) (c : ℕ). (m, c)) (sym (put-append cap s.0 s.1 xs ys h))
        (mod-add-mod (s.1 + length xs) cap (length ys)
          ∙ ap (λ n. n % cap) (omega (arith, length-append xs ys)))

  emitted-nil : (s : Cursor) → s.1 < cap → emitted s [] ≡ s
  emitted-nil s h = ap (λ c. (s.0, c)) (rw add-zero (mod-eq_of_lt h))

  pub emitted-lt : (s : Cursor) (bs : List ℕ) → s.1 < cap → (emitted s bs).1 < cap
  emitted-lt s bs h = omega arith

  module _ (small : cap ≤ 2 ^ 31) where
    pub emit-eq :
        (bs : List ℕ) (s : Cursor) → s.1 < cap → length bs ≤ cap → emit cap bs s ≡ emitted s bs
    emit-eq bs (m, c) h k =
        ap₂ (λ (m : Memory) (c : ℕ). (m, c)) (copy_to-eq-put cap c small h m bs k)
          (ap (λ n. n % cap) (omega arith))

    -- An emission that is left out when there is nothing to emit.
    pub emit_if-eq :
        (n : ℕ) (bs : List ℕ) (s : Cursor)
        → n ≡ length bs
        → s.1 < cap
        → length bs ≤ cap
        → (if ltb 0 n then emit cap bs s else s) ≡ emitted s bs
    emit_if-eq n [] s e h k = rw e (sym (emitted-nil s h))
    emit_if-eq n (b ∷ bs) s e h k =
        rw (e, lt→ltb 0 (suc (length bs)) (omega arith)) (emit-eq (b ∷ bs) s h k)

    emit_items-eq :
        (items : List (List ℕ)) (s : Cursor)
        → s.1 < cap
        → length (items_bytes items) ≤ cap
        → emit_items cap items s ≡ emitted s (items_bytes items)
    unfolding emit_items
    emit_items-eq [] s h k = sym (emitted-nil s h)
    emit_items-eq (x ∷ xs) s h k =
        ap (λ t. emit_items cap xs (if ltb 0 n then emit cap t s' else s')) (take-min string_max x)
        ∙ ap (λ s'. emit_items cap xs (if ltb 0 n then emit cap T s' else s'))
            (emit-eq L s h (omega (arith, sizes)))
        ∙ ap (emit_items cap xs) (
            emit_if-eq n T (emitted s L) (omega (arith, length-take string_max x))
              (emitted-lt s L h) (omega (arith, sizes)))
        ∙ emit_items-eq xs (emitted (emitted s L) T) (emitted-lt (emitted s L) T (emitted-lt s L h))
            (omega (arith, sizes))
        ∙ emitted-append (emitted s L) T (items_bytes xs) (emitted-lt s L h)
        ∙ emitted-append s L (T ++ items_bytes xs) h
      where
        n : ℕ
        n = min (length x) string_max

        L : List ℕ
        L = le_bytes 2 n

        T : List ℕ
        T = take string_max x

        s' : Cursor
        s' = emit cap L s

        sizes : length (items_bytes (x ∷ xs)) ≡ 2 + (length T + length (items_bytes xs))
        sizes =
            omega (arith, length-append L (T ++ items_bytes xs), length-append T (items_bytes xs))

    pub emit_value-eq :
        (t : ValueType) (v : VariableValue) (s : Cursor)
        → s.1 < cap
        → length (value_bytes t v) ≤ cap
        → emit_value cap t v (compute_value_len t v) s ≡ emitted s (value_bytes t v)
    unfolding emit_value value_bytes compute_value_len
    emit_value-eq bool v s h k = emit-eq _ s h k
    emit_value-eq double v s h k = emit-eq _ s h k
    emit_value-eq string v s h k =
        ap (λ n. emit cap (take n v.string_value) s) (small_min (length v.string_value))
        ∙ ap (λ t. emit cap t s) (take-min string_max v.string_value)
        ∙ emit-eq _ s h k
    emit_value-eq string_array v s h k =
        ap (λ xs. emit_items cap xs (emit cap (n ∷ []) s))
          (take-min string_array_max_count v.string_array_value)
        ∙ ap (emit_items cap items) (emit-eq (n ∷ []) s h (omega arith))
        ∙ emit_items-eq items (emitted s (n ∷ [])) (emitted-lt s (n ∷ []) h) (omega arith)
        ∙ emitted-append s (n ∷ []) (items_bytes items) h
      where
        n : ℕ
        n = min (length v.string_array_value) string_array_max_count

        items : List (List ℕ)
        items = take string_array_max_count v.string_array_value

    nil_of_length : (xs : List ℕ) → length xs ≡ 0 → xs ≡ []
    nil_of_length [] e = refl
    nil_of_length (x ∷ xs) e = absurd (omega arith)

    emit_value_if-eq :
        (t : ValueType) (v : VariableValue) (s : Cursor)
        → s.1 < cap
        → length (value_bytes t v) ≤ cap
        → (if ltb 0 (compute_value_len t v)
            then emit_value cap t v (compute_value_len t v) s
            else s)
          ≡ emitted s (value_bytes t v)
    emit_value_if-eq t v s h k = elim (Bool-cases (ltb 0 (compute_value_len t v))) [
      | inl y ↦ rw y (emit_value-eq t v s h k)
      | inr n ↦
          rw (n, nil_of_length (value_bytes t v) (ground (arith, (length-value_bytes t v).0)))
            (sym (emitted-nil s h))
    ]

    -- The copies of `WriteUpsert`, in their order.
    abbrev pub stages : VariableUpdate → Cursor → Cursor
    stages u s =
        let key_len = min (length u.key) key_max in
        let value_len = compute_value_len u.type u.value in
        let s₀ = emit cap (header_bytes (frame_header u)) s in
        let s₁ = if ltb 0 key_len then emit cap (take key_len u.key) s₀ else s₀ in
        if ltb 0 value_len then emit_value cap u.type u.value value_len s₁ else s₁

    pub stages-eq :
        (u : VariableUpdate) (s : Cursor)
        → s.1 < cap
        → frame_size u ≤ cap
        → stages u s ≡ emitted s (frame_bytes u)
    stages-eq u s h k =
        ap (λ s₀. rest (if ltb 0 n then emit cap (take n u.key) s₀ else s₀))
          (emit-eq H s h (omega (arith, length-header_bytes (frame_header u))))
        ∙ ap (λ t. rest (if ltb 0 n then emit cap t (emitted s H) else emitted s H))
            (take-min key_max u.key)
        ∙ ap rest (
            emit_if-eq n T (emitted s H) (omega (arith, length_key)) (emitted-lt s H h)
              (omega (arith, length_key)))
        ∙ emit_value_if-eq u.type u.value (emitted (emitted s H) T)
            (emitted-lt (emitted s H) T (emitted-lt s H h))
            (omega (arith, length-value_bytes u.type u.value))
        ∙ emitted-append (emitted s H) T (value_bytes u.type u.value) (emitted-lt s H h)
        ∙ emitted-append s H (T ++ value_bytes u.type u.value) h
      where
        n : ℕ
        n = min (length u.key) key_max

        H : List ℕ
        H = header_bytes (frame_header u)

        T : List ℕ
        T = take key_max u.key

        length_key : length T ≡ n
        length_key = omega (arith, length-take key_max u.key)

        rest : Cursor → Cursor
        rest s₁ =
            if ltb 0 (compute_value_len u.type u.value)
            then emit_value cap u.type u.value (compute_value_len u.type u.value) s₁
            else s₁
