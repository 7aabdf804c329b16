-- ===== src/MsgPack.antt =====
-- `MsgPackReader` and `MsgPackWriter` of plugins/NT4Transport/src/nt4_client.cpp. A reader is the
-- bytes from its position on; where a call that answers false leaves the position is left out. A
-- `double` is its 64-bit pattern, and the conversions to it are parameters.
pub mod RoundTrip
pub mod Frame
pub mod Skip
pub mod Depth
use smart_dashboard.Base.{
  ℕ, zero, suc, ◌+◌, ◌-◌, ◌*◌, ◌/◌, ◌%◌, Bool, true, false, List, [], ◌∷◌, ◌++◌, Option, none, some,
  ltb, leb, ◌==◌, ◌>>=◌, if◌then◌else◌, length, take, drop, ℤ, pos, negsuc,
}

-- Big-endian numbers.
abbrev pub be_bytes : ℕ → ℕ → List ℕ
be_bytes zero v = []
be_bytes (suc n) v = be_bytes n (v / 256) ++ (v % 256 ∷ [])

abbrev pub from_be_after : ℕ → List ℕ → ℕ
from_be_after high [] = high
from_be_after high (b ∷ bs) = from_be_after (high * 256 + b) bs

abbrev pub from_be : List ℕ → ℕ
from_be bs = from_be_after 0 bs

-- The next n bytes, and those after them.
unfoldable pub take_exact : ℕ → List ℕ → Option (List ℕ × List ℕ)
take_exact n xs = if leb n (length xs) then some (take n xs, drop n xs) else none

module _ {A : Type 0} where
  abbrev pub with_number : (ℕ → A) → List ℕ × List ℕ → Option (A × List ℕ)
  with_number f (bs, rest) = some (f (from_be bs), rest)

  -- What f makes of a number of n bytes.
  unfoldable pub read_be : ℕ → (ℕ → A) → List ℕ → Option (A × List ℕ)
  read_be n f xs = take_exact n xs >>= with_number f

-- An integer of the width whose lowest is -h, from its bits and back.
abbrev pub signed : ℕ → ℕ → ℤ
signed h n = if ltb n h then pos n else negsuc (2 * h - n - 1)

abbrev pub bits : ℕ → ℤ → ℕ
bits h (pos n) = n
bits h (negsuc n) = 2 * h - n - 1

-- -h ≤ v < h
abbrev pub fits : ℕ → ℤ → Bool
fits h (pos n) = ltb n h
fits h (negsuc n) = ltb n h

abbrev pub half8 : ℕ
half8 = 128

abbrev pub half16 : ℕ
half16 = 32768

abbrev pub half32 : ℕ
half32 = 2147483648

abbrev pub half64 : ℕ
half64 = 9223372036854775808

-- The `switch` of `ReadInt`.
unfoldable pub int_payload : ℕ → List ℕ → Option (ℤ × List ℕ)
int_payload b xs =
    if b == 204
    then read_be 1 pos xs
    else if b == 205
    then read_be 2 pos xs
    else if b == 206
    then read_be 4 pos xs
    else if b == 207
    then read_be 8 (signed half64) xs
    else if b == 208
    then read_be 1 (signed half8) xs
    else if b == 209
    then read_be 2 (signed half16) xs
    else if b == 210
    then read_be 4 (signed half32) xs
    else if b == 211
    then read_be 8 (signed half64) xs
    else none

unfoldable pub read_int : List ℕ → Option (ℤ × List ℕ)
read_int [] = none
read_int (b ∷ xs) =
    if leb b 127
    then some (pos b, xs)
    else if leb 224 b
    then some (signed half8 b, xs)
    else int_payload b xs

-- `static_cast<uint64_t>`
abbrev pub as_uint : ℤ × List ℕ → Option (ℕ × List ℕ)
as_uint (v, rest) = some (bits half64 v, rest)

unfoldable pub read_uint : List ℕ → Option (ℕ × List ℕ)
read_uint xs = read_int xs >>= as_uint

unfoldable pub read_bool : List ℕ → Option (Bool × List ℕ)
read_bool [] = none
read_bool (b ∷ xs) =
    if b == 195 then some (true, xs) else if b == 194 then some (false, xs) else none

-- `of_float` and `of_int` are the patterns of a `float` and of an integer as a `double`.
module _ (of_float : ℕ → ℕ) (of_int : ℤ → ℕ) where
  abbrev pub as_double : ℤ × List ℕ → Option (ℕ × List ℕ)
  as_double (v, rest) = some (of_int v, rest)

  unfoldable pub read_double : List ℕ → Option (ℕ × List ℕ)
  read_double [] = none
  read_double (b ∷ xs) =
      if b == 203
      then read_be 8 (λ n. n) xs
      else if b == 202
      then read_be 4 of_float xs
      else (read_int (b ∷ xs) >>= as_double)

-- The length of a string, by its first byte.
unfoldable pub string_len : ℕ → List ℕ → Option (ℕ × List ℕ)
string_len b xs =
    if b / 32 == 5
    then some (b % 32, xs)
    else if b == 217
    then read_be 1 (λ n. n) xs
    else if b == 218
    then read_be 2 (λ n. n) xs
    else if b == 219
    then read_be 4 (λ n. n) xs
    else none

abbrev pub take_len : ℕ × List ℕ → Option (List ℕ × List ℕ)
take_len (len, xs) = take_exact len xs

unfoldable pub read_string : List ℕ → Option (List ℕ × List ℕ)
read_string [] = none
read_string (b ∷ xs) = string_len b xs >>= take_len

unfoldable pub read_array_header : List ℕ → Option (ℕ × List ℕ)
read_array_header [] = none
read_array_header (b ∷ xs) =
    if b / 16 == 9
    then some (b % 16, xs)
    else if b == 220
    then read_be 2 (λ n. n) xs
    else if b == 221
    then read_be 4 (λ n. n) xs
    else none

-- The loop of `ReadStringArray`.
abbrev pub in_front : List ℕ → List (List ℕ) × List ℕ → Option (List (List ℕ) × List ℕ)
in_front s (ss, rest) = some (s ∷ ss, rest)

abbrev pub then_strings :
    (List ℕ → Option (List (List ℕ) × List ℕ)) → List ℕ × List ℕ → Option (List (List ℕ) × List ℕ)
then_strings more (s, rest) = more rest >>= in_front s

unfoldable pub read_strings : ℕ → List ℕ → Option (List (List ℕ) × List ℕ)
read_strings zero xs = some ([], xs)
read_strings (suc n) xs = read_string xs >>= then_strings (read_strings n)

abbrev pub strings_of : ℕ × List ℕ → Option (List (List ℕ) × List ℕ)
strings_of (n, xs) = read_strings n xs

unfoldable pub read_string_array : List ℕ → Option (List (List ℕ) × List ℕ)
read_string_array xs = read_array_header xs >>= strings_of

unfoldable pub write_fix_array : ℕ → List ℕ
write_fix_array count = (144 + count % 16) ∷ []

-- What `WriteInt` does with a number that does not fit its first byte.
unfoldable pub write_wide : ℤ → List ℕ
write_wide v =
    if fits half8 v
    then 208 ∷ be_bytes 1 (bits half8 v)
    else if fits half16 v
    then 209 ∷ be_bytes 2 (bits half16 v)
    else if fits half32 v
    then 210 ∷ be_bytes 4 (bits half32 v)
    else 211 ∷ be_bytes 8 (bits half64 v)

unfoldable pub write_int : ℤ → List ℕ
write_int (pos n) = if leb n 127 then n ∷ [] else write_wide (pos n)
write_int (negsuc n) = if ltb n 32 then (255 - n) ∷ [] else write_wide (negsuc n)

unfoldable pub write_uint : ℕ → List ℕ
write_uint v =
    if leb v 127
    then v ∷ []
    else if leb v 255
    then 204 ∷ be_bytes 1 v
    else if leb v 65535
    then 205 ∷ be_bytes 2 v
    else if leb v 4294967295
    then 206 ∷ be_bytes 4 v
    else 207 ∷ be_bytes 8 v

unfoldable pub write_double : ℕ → List ℕ
write_double d = 203 ∷ be_bytes 8 d

unfoldable pub write_bool : Bool → List ℕ
write_bool b = (if b then 195 else 194) ∷ []

unfoldable pub string_header : ℕ → List ℕ
string_header len =
    if leb len 31
    then (160 + len) ∷ []
    else if leb len 255
    then 217 ∷ be_bytes 1 len
    else if leb len 65535
    then 218 ∷ be_bytes 2 len
    else 219 ∷ be_bytes 4 (len % 4294967296)

unfoldable pub write_string : List ℕ → List ℕ
write_string s = string_header (length s) ++ s
