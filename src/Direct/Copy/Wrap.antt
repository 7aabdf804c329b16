-- ===== src/Direct/Copy/Wrap.antt =====
-- The two-part copies are copies byte by byte that go round at the capacity.
use native.Mathlib.Nat.{mod-eq_of_lt, mod-eq-sub-mod, mod-add-mod, mod_self, add-zero, zero-add}
use native.Mathlib.Decide.{dec_lt}
use smart_dashboard.Base.{
  ℕ, zero, suc, ◌+◌, ◌-◌, ◌%◌, ◌^◌, ◌≤◌, ◌<◌, ◌≡◌, ◌≢◌, refl, sym, ap, ap₂, ◌∙◌, List, [], ◌∷◌,
  ◌++◌, length, take, drop, arith, false, suc-beq_zero, beq_ne, beq_refl, lt→ltb, append_assoc,
  append-nil, subst, ltb, min, take-append-drop, length-take, length-drop, take-length_le,
}
use smart_dashboard.Direct.Bytes.{Memory, update, sub32, store, load}
use smart_dashboard.Direct.Copy.{copy_to_ring, copy_from_ring}

module _ (cap : ℕ) where
  -- The n bytes from offset i on, and a write from offset i on, going round at the capacity.
  abbrev pub window : Memory → ℕ → ℕ → List ℕ
  window m i zero = []
  window m i (suc n) = m i ∷ window m ((i + 1) % cap) n

  abbrev pub put : Memory → ℕ → List ℕ → Memory
  put m i [] = m
  put m i (b ∷ bs) = put (update m i b) ((i + 1) % cap) bs

  suc-add : (a b : ℕ) → suc a + b ≡ suc (a + b)
  suc-add a b = omega arith

  shift : (i a : ℕ) → ((i + 1) % cap + a) % cap ≡ (i + suc a) % cap
  shift i a = rw mod-add-mod (ap (λ k. k % cap) (omega arith))

  pub length-window : (m : Memory) (i n : ℕ) → length (window m i n) ≡ n
  length-window m i zero = refl
  length-window m i (suc n) = ap suc (length-window m ((i + 1) % cap) n)

  pub window-append :
      (m : Memory) (i a b : ℕ)
      → i < cap
      → window m i (a + b) ≡ window m i a ++ window m ((i + a) % cap) b
  window-append m i zero b h = rw (zero-add, add-zero, mod-eq_of_lt h)
  window-append m i (suc a) b h = rw (suc-add a b) (
      ap (◌∷◌ (m i)) (
        window-append m ((i + 1) % cap) a b (omega arith)
        ∙ ap (λ k. window m ((i + 1) % cap) a ++ window m k b) (shift i a)))

  pub put-append :
      (m : Memory) (i : ℕ) (xs ys : List ℕ)
      → i < cap
      → put m i (xs ++ ys) ≡ put (put m i xs) ((i + length xs) % cap) ys
  put-append m i [] ys h = rw (add-zero, mod-eq_of_lt h)
  put-append m i (x ∷ xs) ys h =
      put-append (update m i x) ((i + 1) % cap) xs ys (omega arith)
      ∙ ap (λ k. put (put m i (x ∷ xs)) k ys) (shift i (length xs))

  put-eq-store :
      (m : Memory) (i : ℕ) (bs : List ℕ) → i + length bs ≤ cap → put m i bs ≡ store m i bs
  unfolding store
  put-eq-store m i [] h = refl
  put-eq-store m i (b ∷ []) h = refl
  put-eq-store m i (b ∷ c ∷ bs) h =
      rw (mod-eq_of_lt {n = i + 1} {m = cap} (omega arith))
        (put-eq-store (update m i b) (i + 1) (c ∷ bs) (omega arith))

  window-eq-load : (m : Memory) (i n : ℕ) → i + n ≤ cap → window m i n ≡ load m i n
  unfolding load
  window-eq-load m i zero h = refl
  window-eq-load m i (suc zero) h = refl
  window-eq-load m i (suc (suc n)) h =
      rw (mod-eq_of_lt {n = i + 1} {m = cap} (omega arith))
        (ap (◌∷◌ (m i)) (window-eq-load m (i + 1) (suc n) (omega arith)))

min-eq_of_le : (a b : ℕ) → b ≤ a → min a b ≡ b
min-eq_of_le a b h = omega arith

min_other : (a b : ℕ) → a ≤ b → min a b ≡ a
min_other a b h = omega arith

ltb_irrefl : (a : ℕ) → ltb a a ≡ false
ltb_irrefl a = ground arith

module _ (cap i : ℕ) (small : cap ≤ 2 ^ 31) (inside : i < cap) (m : Memory) where
  sub32-cap : sub32 cap i ≡ cap - i
  sub32-cap = omega arith

  whole_round : (i + (cap - i)) % cap ≡ 0
  whole_round = rw cap_again (mod_self cap)
    where
      cap_again : i + (cap - i) ≡ cap
      cap_again = omega arith

  put_two_parts :
      (bs : List ℕ)
      → cap - i ≤ length bs
      → length bs ≤ cap
      → put cap m i bs ≡ store (store m i (take (cap - i) bs)) 0 (drop (cap - i) bs)
  put_two_parts bs h k =
      ap (put cap m i) (sym (take-append-drop (cap - i) bs))
      ∙ put-append cap m i first rest inside
      ∙ ap₂ (λ x y. put cap x y rest) (put-eq-store cap m i first (omega (arith, length_first)))
          (ap (λ x. (i + x) % cap) length_first ∙ whole_round)
      ∙ put-eq-store cap (store m i first) 0 rest (omega (arith, length-drop (cap - i) bs))
    where
      first : List ℕ
      first = take (cap - i) bs

      rest : List ℕ
      rest = drop (cap - i) bs

      length_first : length first ≡ cap - i
      length_first = omega (arith, length-take (cap - i) bs)

  pub copy_to-eq-put : (bs : List ℕ) → length bs ≤ cap → copy_to_ring cap m i bs ≡ put cap m i bs
  unfolding copy_to_ring
  copy_to-eq-put [] h = refl
  copy_to-eq-put (b ∷ bs) h = elim (dec_lt (cap - i) (length (b ∷ bs))) [
    | yes p ↦
        rw
          (
            suc-beq_zero,
            sub32-cap,
            min-eq_of_le (length (b ∷ bs)) (cap - i) (omega arith),
            lt→ltb _ _ p,
          )
          (sym (put_two_parts (b ∷ bs) (omega arith) h))
    | no p ↦
        rw
          (
            suc-beq_zero,
            sub32-cap,
            min_other (length (b ∷ bs)) (cap - i) (omega arith),
            ltb_irrefl (length (b ∷ bs)),
            take-length_le (length (b ∷ bs)) (b ∷ bs) (omega arith),
          )
          (sym (put-eq-store cap m i (b ∷ bs) (omega arith)))
  ]

  window_two_parts :
      (n : ℕ)
      → cap - i ≤ n
      → n ≤ cap
      → window cap m i n ≡ load m i (cap - i) ++ load m 0 (n - (cap - i))
  window_two_parts n h k =
      ap (window cap m i) (omega arith)
      ∙ window-append cap m i (cap - i) (n - (cap - i)) inside
      ∙ ap₂ ◌++◌ (window-eq-load cap m i (cap - i) (omega arith)) (
          ap (λ x. window cap m x (n - (cap - i))) whole_round
          ∙ window-eq-load cap m 0 (n - (cap - i)) (omega arith))

  pub copy_from-eq-window : (n : ℕ) → n ≤ cap → copy_from_ring cap m i n ≡ window cap m i n
  unfolding copy_from_ring
  copy_from-eq-window zero h = refl
  copy_from-eq-window (suc k) h = elim (dec_lt (cap - i) (suc k)) [
    | yes p ↦
        rw (suc-beq_zero, sub32-cap, min-eq_of_le (suc k) (cap - i) (omega arith), lt→ltb _ _ p)
          (sym (window_two_parts (suc k) (omega arith) h))
    | no p ↦
        rw (suc-beq_zero, sub32-cap, min_other (suc k) (cap - i) (omega arith), ltb_irrefl (suc k))
          (sym (window-eq-load cap m i (suc k) (omega arith)))
  ]

pub once : (cap x : ℕ) → cap ≤ x → x < cap + cap → x % cap ≡ x - cap
once cap x h k = mod-eq-sub-mod h ∙ mod-eq_of_lt (omega arith)

-- A write of bytes to the offsets that follow a window makes the window longer by them.
module _ (cap r : ℕ) (inside : r < cap) where
  pub add-mod-ne : (k n : ℕ) → k < n → n < cap → (r + k) % cap ≢ (r + n) % cap
  add-mod-ne k n a b = elim (dec_lt (r + k) cap) [
    | yes p ↦ elim (dec_lt (r + n) cap) [
      | yes q ↦ omega (arith, mod-eq_of_lt p, mod-eq_of_lt q)
      | no q ↦ omega (arith, mod-eq_of_lt p, once cap (r + n) (omega arith) (omega arith))
    ]
    | no p ↦ omega (
      arith,
      once cap (r + k) (omega arith) (omega arith),
      once cap (r + n) (omega arith) (omega arith),
    )
  ]

  window-update_ne :
      (m : Memory) (w b i n : ℕ)
      → i < cap
      → ((k : ℕ) → k < n → (i + k) % cap ≢ w)
      → window cap (update m w b) i n ≡ window cap m i n
  window-update_ne m w b i zero h f = refl
  window-update_ne m w b i (suc n) h f =
      ap₂ ◌∷◌ (rw (beq_ne i w (λ e. f 0 (omega arith) (rw (add-zero, mod-eq_of_lt h) e)))) (
        window-update_ne m w b ((i + 1) % cap) n (omega arith)
          (λ k a. subst (λ x. x ≢ w) (sym (shift cap i k)) (f (suc k) (omega arith))))

  pub window-put :
      (m : Memory) (bs : List ℕ) (n : ℕ)
      → n + length bs ≤ cap
      → window cap (put cap m ((r + n) % cap) bs) r (n + length bs) ≡ window cap m r n ++ bs
  window-put m [] n h = rw (add-zero, append-nil)
  window-put m (b ∷ bs) n h =
      ap₂ (λ i k. window cap (put cap m' i bs) r k) next (omega arith)
      ∙ window-put m' bs (n + 1) (omega arith)
      ∙ ap (λ x. x ++ bs) one_more
      ∙ append_assoc (window cap m r n) (b ∷ []) bs
    where
      w : ℕ
      w = (r + n) % cap

      m' : Memory
      m' = update m w b

      next : (w + 1) % cap ≡ (r + (n + 1)) % cap
      next = mod-add-mod (r + n) cap 1 ∙ ap (λ x. x % cap) (omega arith)

      one_more : window cap m' r (n + 1) ≡ window cap m r n ++ (b ∷ [])
      one_more =
          window-append cap m' r n 1 inside
          ∙ ap₂ ◌++◌ (window-update_ne m w b r n inside (λ k a. add-mod-ne k n a (omega arith)))
              (rw (beq_refl w))
