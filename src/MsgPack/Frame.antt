-- ===== src/MsgPack/Frame.antt =====
-- `BuildValueFrame` of plugins/NT4Transport/src/nt4_client.cpp, and the reading of such a frame up to
-- its value, as the loop of `HandleBinaryMessage` does it.
use smart_dashboard.Base.{
  ℕ, ◌<◌, ◌^◌, ◌≡◌, ap, ◌∙◌, Bool, false, List, ◌++◌, append_assoc, Option, none, some, ltb, ◌>>=◌,
  if◌then◌else◌, ℤ, pos, arith,
}
use smart_dashboard.MsgPack.{
  read_array_header, read_int, read_uint, write_fix_array, write_int, write_uint, write_bool,
  write_double, write_string, half64,
}
use smart_dashboard.MsgPack.RoundTrip.{IsWithin, read_int-write_int, read_uint-write_uint}

pub data TypeCode : Type 0 where
  boolean double int float string raw boolean_arr double_arr int_arr float_arr string_arr : TypeCode

abbrev pub code_of : TypeCode → ℕ
code_of boolean = 0
code_of double = 1
code_of int = 2
code_of float = 3
code_of string = 4
code_of raw = 5
code_of boolean_arr = 16
code_of double_arr = 17
code_of int_arr = 18
code_of float_arr = 19
code_of string_arr = 20

-- The members that `BuildValueFrame` reads.
pub record TopicValue : Type 0 where
  pub bool_value : Bool
  pub double_value : ℕ
  pub string_value : List ℕ

-- The `switch` of `BuildValueFrame`.
unfoldable pub write_value : TypeCode → TopicValue → List ℕ
write_value boolean v = write_bool v.bool_value
write_value double v = write_double v.double_value
write_value string v = write_string v.string_value
write_value _ v = write_bool false

-- `now` is the reading of the clock in microseconds.
unfoldable pub build_value_frame : ℤ → ℕ → TypeCode → TopicValue → List ℕ
build_value_frame pubuid now code v =
    write_fix_array 4
    ++ (write_int pubuid
        ++ (write_uint now ++ (write_int (pos (code_of code)) ++ write_value code v)))

-- The elements of a frame before its value.
pub record FrameStart : Type 0 where
  pub array_len : ℕ
  pub topic_id : ℤ
  pub timestamp : ℕ
  pub type_code : ℤ

abbrev pub with_code : ℕ → ℤ → ℕ → ℤ × List ℕ → Option (FrameStart × List ℕ)
with_code n id t (code, rest) =
    some (record { array_len = n; topic_id = id; timestamp = t; type_code = code }, rest)

abbrev pub with_timestamp : ℕ → ℤ → ℕ × List ℕ → Option (FrameStart × List ℕ)
with_timestamp n id (t, rest) = read_int rest >>= with_code n id t

abbrev pub with_id : ℕ → ℤ × List ℕ → Option (FrameStart × List ℕ)
with_id n (id, rest) = read_uint rest >>= with_timestamp n id

abbrev pub with_len : ℕ × List ℕ → Option (FrameStart × List ℕ)
with_len (n, rest) = if ltb n 4 then none else (read_int rest >>= with_id n)

-- It is `none` where the loop of `HandleBinaryMessage` is left before the value.
unfoldable pub read_frame_start : List ℕ → Option (FrameStart × List ℕ)
read_frame_start xs = read_array_header xs >>= with_len

code_lt : (code : TypeCode) → code_of code < half64
code_lt boolean = omega arith
code_lt double = omega arith
code_lt int = omega arith
code_lt float = omega arith
code_lt string = omega arith
code_lt raw = omega arith
code_lt boolean_arr = omega arith
code_lt double_arr = omega arith
code_lt int_arr = omega arith
code_lt float_arr = omega arith
code_lt string_arr = omega arith

-- Reading a frame that the client built, its id within 64 bits and its time below 2^64, gives four
-- elements, the id, the time and the code of the type, and leaves the written value with what
-- follows it.
pub read_frame_start-build_value_frame :
    (pubuid : ℤ) (now : ℕ) (code : TypeCode) (v : TopicValue) (rest : List ℕ)
    → IsWithin half64 pubuid
    → now < 2 ^ 64
    → read_frame_start (build_value_frame pubuid now code v ++ rest)
      ≡ some (
        record {
          array_len = 4;
          topic_id = pubuid;
          timestamp = now;
          type_code = pos (code_of code);
        },
        write_value code v ++ rest,
      )
unfolding read_frame_start build_value_frame read_array_header write_fix_array
read_frame_start-build_value_frame pubuid now code v rest h k =
    ap (λ xs. read_int xs >>= with_id 4) (append_assoc (write_int pubuid) _ rest)
    ∙ ap (λ o. o >>= with_id 4) (read_int-write_int pubuid _ h)
    ∙ ap (λ xs. read_uint xs >>= with_timestamp 4 pubuid) (append_assoc (write_uint now) _ rest)
    ∙ ap (λ o. o >>= with_timestamp 4 pubuid) (read_uint-write_uint now _ k)
    ∙ ap (λ xs. read_int xs >>= with_code 4 pubuid now)
        (append_assoc (write_int (pos (code_of code))) _ rest)
    ∙ ap (λ o. o >>= with_code 4 pubuid now)
        (read_int-write_int (pos (code_of code)) _ (code_lt code))
