-- ===== src/Direct/Ring/Read.antt =====
-- The reader takes the oldest frame, and gets the update that was written.
use native.Mathlib.Nat.{mod-add-mod, mod-eq_of_lt, add-zero}
use smart_dashboard.Base.{
  ℕ, zero, suc, ◌+◌, ◌%◌, ◌^◌, ◌≤◌, ◌<◌, ◌≡◌, ◌≢◌, refl, sym, ap, ap₂, ◌∙◌, true, List, [], ◌∷◌,
  ◌++◌, some, arith, length, take, min, ltb, ◌==◌, if◌then◌else◌, append_assoc, lt→ltb, le→ltb,
  beq_ne, length-take,
}
use smart_dashboard.Direct.Types.{
  ValueType, bool, double, string, string_array, VariableValue, empty_value, VariableUpdate,
  key_max, header_size, Ring,
}
use smart_dashboard.Direct.Bytes.{Memory}
use smart_dashboard.Direct.Copy.{copy_from_ring, advance}
use smart_dashboard.Direct.Copy.Wrap.{
  window, window-append, length-window, copy_from-eq-window, add-mod-ne,
}
use smart_dashboard.Direct.Codec.{compute_value_len, header_of, header_bytes}
use smart_dashboard.Direct.Codec.RoundTrip.{
  value_bytes, decode_value, decode-value_bytes, length-value_bytes, length-header_bytes,
  header_of-header_bytes, from_wire_type-to_wire_type,
}
use smart_dashboard.Direct.Ring.{read_value, read_next_upsert}
use smart_dashboard.Direct.Ring.Frames.{
  IsSized, frame_header, frame_size, delivered, frame_header-IsWide,
}
use smart_dashboard.Direct.Ring.Holds.{all_bytes, all_size, Holds, cursor-lt}

append_split :
    (xs xs' ys ys' : List ℕ)
    → xs ++ ys ≡ xs' ++ ys'
    → length xs ≡ length xs'
    → (xs ≡ xs') × (ys ≡ ys')
append_split [] [] ys ys' e l = (refl, e)
append_split [] (y ∷ xs') ys ys' e l = absurd (omega arith)
append_split (x ∷ xs) [] ys ys' e l = absurd (omega arith)
append_split (x ∷ xs) (y ∷ xs') ys ys' e l =
    let (p, q) = append_split xs xs' ys ys' (cc) (omega arith) in (ap₂ ◌∷◌ (cc) p, q)

-- The parts of a window whose bytes are known.
window_split :
    (cap : ℕ) (m : Memory) (i a b : ℕ) (xs ys : List ℕ)
    → i < cap
    → length xs ≡ a
    → window cap m i (a + b) ≡ xs ++ ys
    → (window cap m i a ≡ xs) × (window cap m ((i + a) % cap) b ≡ ys)
window_split cap m i a b xs ys h l e =
    append_split (window cap m i a) xs (window cap m ((i + a) % cap) b) ys
      (sym (window-append cap m i a b h) ∙ e) (length-window cap m i a ∙ sym l)

array_pos : (v : VariableValue) → 0 < compute_value_len string_array v
unfolding value_bytes
array_pos v = omega (arith, (length-value_bytes string_array v).0)

module _ (r : Ring) (small : r.capacity ≤ 2 ^ 31) where
  advance-eq :
      (c n : ℕ) → c < r.capacity → n ≤ r.capacity → advance r.capacity c n ≡ (c + n) % r.capacity
  advance-eq c n h k = ap (λ x. x % r.capacity) (omega arith)

  -- A copy, or a step, that is left out when there is nothing to copy.
  copy_if-eq :
      (c n : ℕ)
      → c < r.capacity
      → n ≤ r.capacity
      → (if ltb 0 n then copy_from_ring r.capacity r.payload c n else [])
        ≡ window r.capacity r.payload c n
  copy_if-eq c zero h k = refl
  copy_if-eq c (suc n) h k =
      rw (lt→ltb 0 (suc n) (omega arith))
        (copy_from-eq-window r.capacity c small h r.payload (suc n) k)

  advance_if-eq :
      (c n : ℕ)
      → c < r.capacity
      → n ≤ r.capacity
      → (if ltb 0 n then advance r.capacity c n else c) ≡ (c + n) % r.capacity
  advance_if-eq c zero h k = rw add-zero (sym (mod-eq_of_lt h))
  advance_if-eq c (suc n) h k = rw (lt→ltb 0 (suc n) (omega arith)) (advance-eq c (suc n) h k)

  read_array :
      (c n : ℕ)
      → c < r.capacity
      → n ≤ r.capacity
      → 0 < n
      → read_value r c string_array n ≡ decode_value string_array (window r.capacity r.payload c n)
  unfolding read_value decode_value
  read_array c n h k p = rw (lt→ltb 0 n p, copy_from-eq-window r.capacity c small h r.payload n k)

  read_value-eq :
      (t : ValueType) (v : VariableValue) (c : ℕ)
      → c < r.capacity
      → compute_value_len t v ≤ r.capacity
      → read_value r c t (compute_value_len t v)
        ≡ decode_value t (window r.capacity r.payload c (compute_value_len t v))
  unfolding read_value decode_value compute_value_len
  read_value-eq bool v c h k = rw (copy_from-eq-window r.capacity c small h r.payload 1 k)
  read_value-eq double v c h k = rw (copy_from-eq-window r.capacity c small h r.payload 8 k)
  read_value-eq string v c h k =
      ap (λ bs. record empty_value { string_value = bs })
        (copy_if-eq c (compute_value_len string v) h k)
  read_value-eq string_array v c h k =
      read_array c (compute_value_len string_array v) h k (array_pos v)

module _ (now : ℕ) (r : Ring) (cursor lag : ℕ) (u : VariableUpdate) (us : List VariableUpdate)
    (h : Holds r cursor lag (u ∷ us)) where
  abbrev cap : ℕ
  cap = r.capacity

  abbrev k : ℕ
  k = min (length u.key) key_max

  abbrev n : ℕ
  n = compute_value_len u.type u.value

  inside : cursor < cap
  inside = cursor-lt r cursor lag (u ∷ us) h

  -- The windows of the header, the key, the value and the frames behind.
  record Parts : Type 0 where
    header_part : window cap r.payload cursor header_size ≡ header_bytes (frame_header u)
    key_part : window cap r.payload ((cursor + header_size) % cap) k ≡ take key_max u.key
    value_part :
        window cap r.payload (((cursor + header_size) % cap + k) % cap) n
        ≡ value_bytes u.type u.value
    rest_part :
        window cap r.payload ((((cursor + header_size) % cap + k) % cap + n) % cap) (all_size us)
        ≡ all_bytes us

  parts : Parts
  parts =
      let (a, e) =
        window_split cap r.payload cursor header_size (k + (n + all_size us))
          (header_bytes (frame_header u))
          (take key_max u.key ++ (value_bytes u.type u.value ++ all_bytes us)) inside
          (length-header_bytes (frame_header u))
          (ap (window cap r.payload cursor) (omega arith)
            ∙ h.pending
            ∙ append_assoc (header_bytes (frame_header u))
                (take key_max u.key ++ value_bytes u.type u.value) (all_bytes us)
            ∙ ap (◌++◌ (header_bytes (frame_header u)))
                (append_assoc (take key_max u.key) (value_bytes u.type u.value) (all_bytes us))) in
      let (b, f) =
        window_split cap r.payload ((cursor + header_size) % cap) k (n + all_size us)
          (take key_max u.key) (value_bytes u.type u.value ++ all_bytes us) (omega arith)
          (omega (arith, length-take key_max u.key)) e in
      let (c, g) =
        window_split cap r.payload (((cursor + header_size) % cap + k) % cap) n (all_size us)
          (value_bytes u.type u.value) (all_bytes us) (omega arith)
          (length-value_bytes u.type u.value).0 f in
      record { header_part = a; key_part = b; value_part = c; rest_part = g }

  frame_fits : frame_size u < 2 ^ 16
  frame_fits = omega (arith, length-value_bytes u.type u.value)

  header_eq :
      IsSized u → header_of (copy_from_ring cap r.payload cursor header_size) ≡ frame_header u
  header_eq s =
      ap header_of (
        copy_from-eq-window cap cursor h.small inside r.payload header_size (omega (arith, h.room))
        ∙ parts.header_part)
      ∙ header_of-header_bytes (frame_header u) (frame_header-IsWide u s)

  not_empty : cursor ≢ r.header.write_index
  not_empty e =
      add-mod-ne cap r.header.consumer_read_index h.read_in lag (lag + all_size (u ∷ us))
        (omega arith) h.room (sym h.cursor_at ∙ e ∙ h.write_at)

  key_at-eq : advance cap cursor header_size ≡ (cursor + header_size) % cap
  key_at-eq = advance-eq r h.small cursor header_size inside (omega (arith, h.room))

  pub next_cursor :
      ((((cursor + header_size) % cap + k) % cap) + n) % cap ≡ (cursor + frame_size u) % cap
  next_cursor =
      ap (λ x. (x + n) % cap) (mod-add-mod (cursor + header_size) cap k)
      ∙ mod-add-mod (cursor + header_size + k) cap n
      ∙ ap (λ x. x % cap) (omega arith)

  pub read-eq :
      IsSized u
      → read_next_upsert now r cursor ≡ (
        record r { header = record r.header { last_consumer_heartbeat_us = now } },
        (cursor + frame_size u) % cap,
        some (delivered u),
      )
  unfolding read_next_upsert
  read-eq s = rw (
    header_eq s,
    beq_ne cap 0 (omega (arith, h.room)),
    beq_ne cursor r.header.write_index not_empty,
    mod-eq_of_lt frame_fits,
    le→ltb (frame_size u) header_size (omega arith),
    key_at-eq,
    from_wire_type-to_wire_type u.type,
    size_match,
    copy_if-eq r h.small key_at k (omega arith) (omega (arith, h.room)),
    advance_if-eq r h.small key_at k (omega arith) (omega (arith, h.room)),
    read_value-eq r h.small u.type u.value value_at (omega arith) (omega (arith, h.room)),
    parts.key_part,
    parts.value_part,
    decode-value_bytes u.type u.value s.double_fits,
    advance-eq r h.small value_at n (omega arith) (omega (arith, h.room)),
    next_cursor,
  )
    where
      key_at : ℕ
      key_at = (cursor + header_size) % cap

      value_at : ℕ
      value_at = (key_at + k) % cap

      size_match : (frame_size u == header_size + (k + n)) ≡ true
      size_match = ground arith

  -- The frames behind stay held.
  pub rest-Holds :
      Holds
        (record r { header = record r.header { last_consumer_heartbeat_us = now } })
        ((cursor + frame_size u) % cap)
        (lag + frame_size u)
        us
  rest-Holds = record {
    small = h.small;
    read_in = h.read_in;
    cursor_at =
        ap (λ c. (c + frame_size u) % cap) h.cursor_at
        ∙ mod-add-mod (r.header.consumer_read_index + lag) cap (frame_size u)
        ∙ ap (λ x. x % cap) (omega arith);
    write_at = h.write_at ∙ ap (λ x. x % cap) (omega arith);
    room = omega (arith, h.room);
    pending = ap (λ c. window cap r.payload c (all_size us)) (sym next_cursor) ∙ parts.rest_part;
    sized = h.sized.1;
  }
