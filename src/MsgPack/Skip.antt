-- ===== src/MsgPack/Skip.antt =====
-- `SkipElement` of plugins/NT4Transport/src/nt4_client.cpp, on fuel for the depth of an element.
use native.Mathlib.Decide.{dec_le, dec_lt}
use smart_dashboard.Base.{
  ℕ, zero, suc, ◌+◌, ◌-◌, ◌*◌, ◌/◌, ◌%◌, ◌^◌, ◌≤◌, ◌<◌, ◌≡◌, refl, sym, ap, ◌∙◌, true, false, ◌||◌,
  List, [], ◌∷◌, ◌++◌, append_assoc, Option, none, some, inl, inr, Bool-cases, leb, lt→ltb, le→ltb,
  le→leb, leb_ne, ◌==◌, if◌then◌else◌, length, length-append, drop, drop-append_self, ℤ, pos,
  negsuc, arith,
}
use smart_dashboard.MsgPack.{
  be_bytes, read_be, bits, fits, half8, half16, half32, half64, write_int, write_wide, write_uint,
  write_double, write_bool, string_header, write_string,
}
use smart_dashboard.MsgPack.RoundTrip.{
  length-be_bytes, read_be-be_bytes, Element, IsElement, int_element, uint_element, double_element,
  bool_element, string_element, write_element,
}

-- What a call of `SkipElement` comes to: no fuel, `false`, or `true` with the bytes after the element.
pub data Skipped : Type 0 where
  out_of_fuel refused : Skipped
  past : List ℕ → Skipped

abbrev pub and_then : Skipped → (List ℕ → Skipped) → Skipped
and_then out_of_fuel go = out_of_fuel
and_then refused go = refused
and_then (past xs) go = go xs

-- A number in front, without which the call answers `false`.
abbrev pub with_count : Option (ℕ × List ℕ) → (ℕ → List ℕ → Skipped) → Skipped
with_count none go = refused
with_count (some (n, xs)) go = go n xs

unfoldable pub skip_bytes : ℕ → List ℕ → Skipped
skip_bytes n xs = if leb n (length xs) then past (drop n xs) else refused

-- The loop over the elements of an array or a map.
unfoldable pub skip_count : (List ℕ → Skipped) → ℕ → List ℕ → Skipped
skip_count go zero xs = past xs
skip_count go (suc n) xs = and_then (go xs) (skip_count go n)

-- The `switch`.
unfoldable pub skip_payload : (List ℕ → Skipped) → ℕ → List ℕ → Skipped
skip_payload go b xs =
    if b == 204 || b == 208
    then skip_bytes 1 xs
    else if b == 205 || b == 209
    then skip_bytes 2 xs
    else if b == 206 || (b == 210 || b == 202)
    then skip_bytes 4 xs
    else if b == 207 || (b == 211 || b == 203)
    then skip_bytes 8 xs
    else if b == 217
    then with_count (read_be 1 (λ n. n) xs) skip_bytes
    else if b == 218
    then with_count (read_be 2 (λ n. n) xs) skip_bytes
    else if b == 219
    then with_count (read_be 4 (λ n. n) xs) skip_bytes
    else if b == 220
    then with_count (read_be 2 (λ n. n) xs) (skip_count go)
    else if b == 221
    then with_count (read_be 4 (λ n. n) xs) (skip_count go)
    else refused

unfoldable pub skip_element : ℕ → List ℕ → Skipped
skip_element zero xs = out_of_fuel
skip_element (suc fuel) [] = refused
skip_element (suc fuel) (b ∷ xs) =
    if leb b 127 || leb 224 b
    then past xs
    else if b == 192 || (b == 194 || b == 195)
    then past xs
    else if b / 32 == 5
    then skip_bytes (b % 32) xs
    else if b / 16 == 9
    then skip_count (skip_element fuel) (b % 16) xs
    else if b / 16 == 8
    then skip_count (skip_element fuel) (b % 16 * 2) xs
    else skip_payload (skip_element fuel) b xs

skip_bytes-append : (n : ℕ) (xs ys : List ℕ) → length xs ≡ n → skip_bytes n (xs ++ ys) ≡ past ys
unfolding skip_bytes
skip_bytes-append n xs ys e =
    rw
      (
        sym e,
        le→leb (length xs) (length (xs ++ ys)) (omega (arith, length-append xs ys)),
        drop-append_self xs ys,
      )
      refl

skip_bytes-be_bytes : (n v : ℕ) (rest : List ℕ) → skip_bytes n (be_bytes n v ++ rest) ≡ past rest
skip_bytes-be_bytes n v rest = skip_bytes-append n (be_bytes n v) rest (length-be_bytes n v)

module _ (fuel : ℕ) (rest : List ℕ) where
  skip-write_wide : (v : ℤ) → skip_element (suc fuel) (write_wide v ++ rest) ≡ past rest
  unfolding skip_element skip_payload write_wide
  skip-write_wide v = elim (Bool-cases (fits half8 v)) [
    | inl a ↦ rw a (skip_bytes-be_bytes 1 (bits half8 v) rest)
    | inr a ↦ rw a (elim (Bool-cases (fits half16 v)) [
      | inl b ↦ rw b (skip_bytes-be_bytes 2 (bits half16 v) rest)
      | inr b ↦ rw b (elim (Bool-cases (fits half32 v)) [
        | inl c ↦ rw c (skip_bytes-be_bytes 4 (bits half32 v) rest)
        | inr c ↦ rw c (skip_bytes-be_bytes 8 (bits half64 v) rest)
      ])
    ])
  ]

  skip-low : (n : ℕ) → n ≤ 127 → skip_element (suc fuel) (n ∷ rest) ≡ past rest
  unfolding skip_element
  skip-low n h = rw (le→leb n 127 h) refl

  skip-write_int : (v : ℤ) → skip_element (suc fuel) (write_int v ++ rest) ≡ past rest
  unfolding write_int
  skip-write_int (pos n) = elim (dec_le n 127) [
    | yes a ↦ rw (le→leb n 127 a) (skip-low n a)
    | no a ↦ rw (leb_ne n 127 (omega arith)) (skip-write_wide (pos n))
  ]
  skip-write_int (negsuc n) = elim (dec_lt n 32) [
    | yes a ↦ rw (lt→ltb n 32 a) (
        unfold skip_element in
        rw (leb_ne (255 - n) 127 (omega arith), le→leb 224 (255 - n) (omega arith)) refl)
    | no a ↦ rw (le→ltb n 32 (omega arith)) (skip-write_wide (negsuc n))
  ]

  skip-write_uint : (v : ℕ) → skip_element (suc fuel) (write_uint v ++ rest) ≡ past rest
  unfolding write_uint skip_element skip_payload
  skip-write_uint v = elim (dec_le v 127) [
    | yes a ↦ rw (le→leb v 127 a, le→leb v 127 a) refl
    | no a ↦ rw (leb_ne v 127 (omega arith)) (elim (Bool-cases (leb v 255)) [
      | inl b ↦ rw b (skip_bytes-be_bytes 1 v rest)
      | inr b ↦ rw b (elim (Bool-cases (leb v 65535)) [
        | inl c ↦ rw c (skip_bytes-be_bytes 2 v rest)
        | inr c ↦ rw c (elim (Bool-cases (leb v 4294967295)) [
          | inl d ↦ rw d (skip_bytes-be_bytes 4 v rest)
          | inr d ↦ rw d (skip_bytes-be_bytes 8 v rest)
        ])
      ])
    ])
  ]

  skip-string_header :
      (len : ℕ)
      → len < 2 ^ 32
      → skip_element (suc fuel) (string_header len ++ rest) ≡ skip_bytes len rest
  unfolding string_header skip_element skip_payload
  skip-string_header len h = elim (dec_le len 31) [
    | yes a ↦
        let high : (160 + len) / 32 ≡ 5 = omega arith in
        let low : (160 + len) % 32 ≡ len = omega arith in
        rw (le→leb len 31 a) (ground (arith, high, low))
    | no a ↦ elim (dec_le len 255) [
      | yes b ↦
          rw (leb_ne len 31 (omega arith), le→leb len 255 b)
            (ap (λ o. with_count o skip_bytes) (read_be-be_bytes 1 (λ n. n) len rest (omega arith)))
      | no b ↦ elim (dec_le len 65535) [
        | yes c ↦
            rw (leb_ne len 31 (omega arith), leb_ne len 255 (omega arith), le→leb len 65535 c)
              (ap (λ o. with_count o skip_bytes)
                (read_be-be_bytes 2 (λ n. n) len rest (omega arith)))
        | no c ↦
            let low : len % 4294967296 ≡ len = omega arith in
            rw
              (
                leb_ne len 31 (omega arith),
                leb_ne len 255 (omega arith),
                leb_ne len 65535 (omega arith),
                low,
              )
              (ap (λ o. with_count o skip_bytes)
                (read_be-be_bytes 4 (λ n. n) len rest (omega arith)))
      ]
    ]
  ]

-- An element that the writer wrote, within the bounds of its type and a string shorter than 2^32
-- bytes, is passed over by `SkipElement`, and exactly what follows it is left.
pub skip_element-write_element :
    (fuel : ℕ) (e : Element) (rest : List ℕ)
    → IsElement e
    → skip_element (suc fuel) (write_element e ++ rest) ≡ past rest
unfolding write_element write_double write_bool skip_element skip_payload
skip_element-write_element fuel (int_element v) rest h = skip-write_int fuel rest v
skip_element-write_element fuel (uint_element v) rest h = skip-write_uint fuel rest v
skip_element-write_element fuel (double_element d) rest h = skip_bytes-be_bytes 8 d rest
skip_element-write_element fuel (bool_element true) rest h = refl
skip_element-write_element fuel (bool_element false) rest h = refl
skip_element-write_element fuel (string_element s) rest h =
    unfold write_string in
    ap (skip_element (suc fuel)) (append_assoc (string_header (length s)) s rest)
    ∙ skip-string_header fuel (s ++ rest) (length s) h
    ∙ skip_bytes-append (length s) s rest refl
