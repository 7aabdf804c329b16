-- ===== src/MsgPack/RoundTrip.antt =====
-- What the writer writes, the reader reads.
use native.Mathlib.Nat.{pow-suc}
use native.Mathlib.Decide.{dec_le, dec_lt}
use smart_dashboard.Base.{
  ℕ, zero, suc, ◌+◌, ◌-◌, ◌*◌, ◌/◌, ◌%◌, ◌^◌, ◌<◌, ◌≡◌, refl, sym, ap, ◌∙◌, Bool, true, false, List,
  [], ◌∷◌, ◌++◌, append_assoc, some, lt→ltb, le→ltb, ltb→lt, Bool-cases, inl, inr, le→leb, leb_ne,
  ◌>>=◌, length, length-append, take-append_self, drop-append_self, ℤ, pos, negsuc, arith,
}
use smart_dashboard.MsgPack.{
  be_bytes, from_be, from_be_after, take_exact, with_number, read_be, signed, bits, fits, half8,
  half16, half32, half64, int_payload, read_int, read_uint, as_uint, read_bool, read_double,
  string_len, take_len, read_string, write_int, write_wide, write_uint, write_double, write_bool,
  string_header, write_string,
}

pub length-be_bytes : (n v : ℕ) → length (be_bytes n v) ≡ n
length-be_bytes zero v = refl
length-be_bytes (suc n) v =
    omega (arith, length-append (be_bytes n (v / 256)) (v % 256 ∷ []), length-be_bytes n (v / 256))

from_be-append :
    (high b : ℕ) (xs : List ℕ)
    → from_be_after high (xs ++ (b ∷ [])) ≡ from_be_after high xs * 256 + b
from_be-append high b [] = refl
from_be-append high b (x ∷ xs) = from_be-append (high * 256 + x) b xs

from_be-be_bytes : (n v : ℕ) → v < 256 ^ n → from_be (be_bytes n v) ≡ v
from_be-be_bytes zero v h = omega arith
from_be-be_bytes (suc n) v h =
    from_be-append 0 (v % 256) (be_bytes n (v / 256))
    ∙ omega (arith, from_be-be_bytes n (v / 256) (omega (arith, pow-suc 256 n)))

take_exact-append :
    (n : ℕ) (xs ys : List ℕ) → length xs ≡ n → take_exact n (xs ++ ys) ≡ some (xs, ys)
unfolding take_exact
take_exact-append n xs ys e =
    rw
      (
        sym e,
        le→leb (length xs) (length (xs ++ ys)) (omega (arith, length-append xs ys)),
        take-append_self xs ys,
        drop-append_self xs ys,
      )
      refl

module _ {A : Type 0} where
  pub read_be-be_bytes :
      (n : ℕ) (f : ℕ → A) (v : ℕ) (rest : List ℕ)
      → v < 256 ^ n
      → read_be n f (be_bytes n v ++ rest) ≡ some (f v, rest)
  unfolding read_be
  read_be-be_bytes n f v rest h =
      ap (λ o. o >>= with_number f) (take_exact-append n (be_bytes n v) rest (length-be_bytes n v))
      ∙ ap (λ w. some (f w, rest)) (from_be-be_bytes n v h)

-- An integer of the width whose lowest is -h.
abbrev pub IsWithin : ℕ → ℤ → Type 0
IsWithin h (pos n) = n < h
IsWithin h (negsuc n) = n < h

signed-bits : (h : ℕ) (v : ℤ) → IsWithin h v → signed h (bits h v) ≡ v
signed-bits h (pos n) k = rw (lt→ltb n h k) refl
signed-bits h (negsuc n) k = rw (le→ltb (2 * h - n - 1) h (omega arith)) (ap negsuc (omega arith))

bits-signed : (h n : ℕ) → n < 2 * h → bits h (signed h n) ≡ n
bits-signed h n k = elim (dec_lt n h) [
  | yes l ↦ rw (lt→ltb n h l) refl
  | no l ↦ rw (le→ltb n h (omega arith)) (omega arith)
]

bits_lt : (h : ℕ) (v : ℤ) → IsWithin h v → bits h v < 2 * h
bits_lt h (pos n) k = omega arith
bits_lt h (negsuc n) k = omega arith

fits-IsWithin : (h : ℕ) (v : ℤ) → fits h v ≡ true → IsWithin h v
fits-IsWithin h (pos n) e = ltb→lt n h e
fits-IsWithin h (negsuc n) e = ltb→lt n h e

pub read_uint-write_uint :
    (v : ℕ) (rest : List ℕ) → v < 2 ^ 64 → read_uint (write_uint v ++ rest) ≡ some (v, rest)
unfolding read_uint read_int write_uint int_payload
read_uint-write_uint v rest h = elim (dec_le v 127) [
  | yes a ↦ rw (le→leb v 127 a, le→leb v 127 a) refl
  | no a ↦ elim (dec_le v 255) [
    | yes b ↦
        rw (leb_ne v 127 (omega arith), le→leb v 255 b)
          (ap (λ o. o >>= as_uint) (read_be-be_bytes 1 pos v rest (omega arith)))
    | no b ↦ elim (dec_le v 65535) [
      | yes c ↦
          rw (leb_ne v 127 (omega arith), leb_ne v 255 (omega arith), le→leb v 65535 c)
            (ap (λ o. o >>= as_uint) (read_be-be_bytes 2 pos v rest (omega arith)))
      | no c ↦ elim (dec_le v 4294967295) [
        | yes d ↦
            rw
              (
                leb_ne v 127 (omega arith),
                leb_ne v 255 (omega arith),
                leb_ne v 65535 (omega arith),
                le→leb v 4294967295 d,
              )
              (ap (λ o. o >>= as_uint) (read_be-be_bytes 4 pos v rest (omega arith)))
        | no d ↦
            rw
              (
                leb_ne v 127 (omega arith),
                leb_ne v 255 (omega arith),
                leb_ne v 65535 (omega arith),
                leb_ne v 4294967295 (omega arith),
              )
              (ap (λ o. o >>= as_uint) (read_be-be_bytes 8 (signed half64) v rest (omega arith))
                ∙ ap (λ n. some (n, rest)) (bits-signed half64 v (omega arith)))
      ]
    ]
  ]
]

-- The reader's answer for the bits of an integer of n bytes.
read_bits :
    (n h : ℕ) (v : ℤ) (rest : List ℕ)
    → 2 * h ≡ 256 ^ n
    → IsWithin h v
    → read_be n (signed h) (be_bytes n (bits h v) ++ rest) ≡ some (v, rest)
read_bits n h v rest e k =
    read_be-be_bytes n (signed h) (bits h v) rest (omega (arith, bits_lt h v k))
    ∙ ap (λ w. some (w, rest)) (signed-bits h v k)

read_int-write_wide :
    (v : ℤ) (rest : List ℕ) → IsWithin half64 v → read_int (write_wide v ++ rest) ≡ some (v, rest)
unfolding read_int write_wide int_payload
read_int-write_wide v rest k = elim (Bool-cases (fits half8 v)) [
  | inl a ↦ rw a (read_bits 1 half8 v rest refl (fits-IsWithin half8 v a))
  | inr a ↦ rw a (elim (Bool-cases (fits half16 v)) [
    | inl b ↦ rw b (read_bits 2 half16 v rest refl (fits-IsWithin half16 v b))
    | inr b ↦ rw b (elim (Bool-cases (fits half32 v)) [
      | inl c ↦ rw c (read_bits 4 half32 v rest refl (fits-IsWithin half32 v c))
      | inr c ↦ rw c (read_bits 8 half64 v rest refl k)
    ])
  ])
]

pub read_int-write_int :
    (v : ℤ) (rest : List ℕ) → IsWithin half64 v → read_int (write_int v ++ rest) ≡ some (v, rest)
unfolding write_int
read_int-write_int (pos n) rest k = elim (dec_le n 127) [
  | yes a ↦ rw (le→leb n 127 a) (unfold read_int in rw (le→leb n 127 a) refl)
  | no a ↦ rw (leb_ne n 127 (omega arith)) (read_int-write_wide (pos n) rest k)
]
read_int-write_int (negsuc n) rest k = elim (dec_lt n 32) [
  | yes a ↦ rw (lt→ltb n 32 a) (
      unfold read_int in
      rw
        (
          leb_ne (255 - n) 127 (omega arith),
          le→leb 224 (255 - n) (omega arith),
          le→ltb (255 - n) half8 (omega arith),
        )
        (ap (λ m. some (negsuc m, rest)) (omega arith)))
  | no a ↦ rw (le→ltb n 32 (omega arith)) (read_int-write_wide (negsuc n) rest k)
]

read_string-header :
    (len : ℕ) (xs : List ℕ)
    → len < 2 ^ 32
    → read_string (string_header len ++ xs) ≡ take_exact len xs
unfolding read_string string_header string_len
read_string-header len xs h = elim (dec_le len 31) [
  | yes a ↦
      let high : (160 + len) / 32 ≡ 5 = omega arith in
      let low : (160 + len) % 32 ≡ len = omega arith in rw (le→leb len 31 a, high, low) refl
  | no a ↦ elim (dec_le len 255) [
    | yes b ↦
        rw (leb_ne len 31 (omega arith), le→leb len 255 b)
          (ap (λ o. o >>= take_len) (read_be-be_bytes 1 (λ n. n) len xs (omega arith)))
    | no b ↦ elim (dec_le len 65535) [
      | yes c ↦
          rw (leb_ne len 31 (omega arith), leb_ne len 255 (omega arith), le→leb len 65535 c)
            (ap (λ o. o >>= take_len) (read_be-be_bytes 2 (λ n. n) len xs (omega arith)))
      | no c ↦
          let low : len % 4294967296 ≡ len = omega arith in
          rw
            (
              leb_ne len 31 (omega arith),
              leb_ne len 255 (omega arith),
              leb_ne len 65535 (omega arith),
              low,
            )
            (ap (λ o. o >>= take_len) (read_be-be_bytes 4 (λ n. n) len xs (omega arith)))
    ]
  ]
]

read_string-write_string :
    (s rest : List ℕ) → length s < 2 ^ 32 → read_string (write_string s ++ rest) ≡ some (s, rest)
unfolding write_string
read_string-write_string s rest h =
    ap read_string (append_assoc (string_header (length s)) s rest)
    ∙ read_string-header (length s) (s ++ rest) h
    ∙ take_exact-append (length s) s rest refl

-- An element that the writer can write, within the bounds of its type in C++.
pub data Element : Type 0 where
  int_element : ℤ → Element
  uint_element : ℕ → Element
  double_element : ℕ → Element
  bool_element : Bool → Element
  string_element : List ℕ → Element

abbrev pub IsElement : Element → Type 0
IsElement (int_element v) = IsWithin half64 v
IsElement (uint_element v) = v < 2 ^ 64
IsElement (double_element d) = d < 2 ^ 64
IsElement (bool_element b) = Unit
IsElement (string_element s) = length s < 2 ^ 32

unfoldable pub write_element : Element → List ℕ
write_element (int_element v) = write_int v
write_element (uint_element v) = write_uint v
write_element (double_element d) = write_double d
write_element (bool_element b) = write_bool b
write_element (string_element s) = write_string s

module _ (of_float : ℕ → ℕ) (of_int : ℤ → ℕ) where
  -- The reader for the type of the element takes it off the bytes and leaves the rest.
  abbrev pub ReadsBack : Element → List ℕ → List ℕ → Type 0
  ReadsBack (int_element v) bytes rest = read_int bytes ≡ some (v, rest)
  ReadsBack (uint_element v) bytes rest = read_uint bytes ≡ some (v, rest)
  ReadsBack (double_element d) bytes rest = read_double of_float of_int bytes ≡ some (d, rest)
  ReadsBack (bool_element b) bytes rest = read_bool bytes ≡ some (b, rest)
  ReadsBack (string_element s) bytes rest = read_string bytes ≡ some (s, rest)

  -- An integer, an unsigned integer, a double, a bool or a string that is written, each within the
  -- bounds of its type and the string shorter than 2^32 bytes, is read back by the reader for its
  -- type, and what follows it is left.
  pub write_element-ReadsBack :
      (e : Element) (rest : List ℕ) → IsElement e → ReadsBack e (write_element e ++ rest) rest
  unfolding write_element write_double write_bool read_double read_bool
  write_element-ReadsBack (int_element v) rest h = read_int-write_int v rest h
  write_element-ReadsBack (uint_element v) rest h = read_uint-write_uint v rest h
  write_element-ReadsBack (double_element d) rest h =
      read_be-be_bytes 8 (λ n. n) d rest (omega arith)
  write_element-ReadsBack (bool_element true) rest h = refl
  write_element-ReadsBack (bool_element false) rest h = refl
  write_element-ReadsBack (string_element s) rest h = read_string-write_string s rest h
