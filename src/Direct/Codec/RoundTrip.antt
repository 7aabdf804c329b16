-- ===== src/Direct/Codec/RoundTrip.antt =====
-- The bytes of a frame, and what is read back from them.
use smart_dashboard.Base.{
  ℕ, suc, ◌*◌, ◌^◌, ◌≤◌, ◌<◌, ◌≡◌, refl, ap, ◌∙◌, true, not, List, [], ◌∷◌, ◌++◌, map, arith,
  length, take, drop, min, leb, ◌==◌, if◌then◌else◌, length-append, length-take, take-append_self,
  drop-append_self,
}
use smart_dashboard.Direct.Types.{
  ValueType, bool, double, string, string_array, VariableValue, empty_value, string_max,
  string_array_max_count, header_size, MessageHeader,
}
use smart_dashboard.Direct.Bytes.{le_bytes, from_le, from_le-le_bytes}
use smart_dashboard.Direct.Codec.{
  items_len, compute_value_len, to_wire_type, from_wire_type, header_bytes, header_of, parse_items,
}

-- The items as they lie in a frame: each with its length in two bytes before it.
abbrev pub items_bytes : List (List ℕ) → List ℕ
items_bytes [] = []
items_bytes (s ∷ ss) =
    le_bytes 2 (min (length s) string_max) ++ (take string_max s ++ items_bytes ss)

unfoldable pub value_bytes : ValueType → VariableValue → List ℕ
value_bytes bool v = (if v.bool_value then 1 else 0) ∷ []
value_bytes double v = le_bytes 8 v.double_value
value_bytes string v = take string_max v.string_value
value_bytes string_array v =
    min (length v.string_array_value) string_array_max_count
    ∷ items_bytes (take string_array_max_count v.string_array_value)

length-items_bytes : (ss : List (List ℕ)) → length (items_bytes ss) ≡ items_len ss
unfolding items_len
length-items_bytes [] = refl
length-items_bytes (s ∷ ss) = omega (
  arith,
  length-append (le_bytes 2 (min (length s) string_max)) (take string_max s ++ items_bytes ss),
  length-append (take string_max s) (items_bytes ss),
  length-take string_max s,
  length-items_bytes ss,
)

items_len_le : (ss : List (List ℕ)) → items_len ss ≤ 258 * length ss
unfolding items_len
items_len_le [] = omega arith
items_len_le (s ∷ ss) = omega (arith, items_len_le ss)

-- The length that the header declares is that of the bytes: the 16 bits are never too few.
pub length-value_bytes :
    (t : ValueType) (v : VariableValue)
    → (length (value_bytes t v) ≡ compute_value_len t v) × (compute_value_len t v ≤ 8257)
unfolding value_bytes compute_value_len
length-value_bytes bool v = (refl, omega arith)
length-value_bytes double v = (refl, omega arith)
length-value_bytes string v = (omega (arith, length-take string_max v.string_value), omega arith)
length-value_bytes string_array v =
    let xs = take string_array_max_count v.string_array_value in
    let n = length-take string_array_max_count v.string_array_value in
    (omega (arith, length-items_bytes xs, items_len_le xs, n), omega (arith, items_len_le xs, n))

pub length-header_bytes : (h : MessageHeader) → length (header_bytes h) ≡ header_size
unfolding header_bytes
length-header_bytes h = refl

-- The fields fit their widths.
pub record IsWide (h : MessageHeader) : Type 0 where
  pub message_bytes_fit : h.message_bytes < 2 ^ 16
  pub message_type_fit : h.message_type < 2 ^ 8
  pub value_type_fit : h.value_type < 2 ^ 8
  pub seq_fit : h.seq < 2 ^ 64
  pub timestamp_fit : h.source_timestamp_us < 2 ^ 64
  pub key_len_fit : h.key_len < 2 ^ 16
  pub value_len_fit : h.value_len < 2 ^ 16

pub header_of-header_bytes : (h : MessageHeader) → IsWide h → header_of (header_bytes h) ≡ h
unfolding header_of header_bytes
header_of-header_bytes h w = ground (
  arith,
  from_le-le_bytes 2 h.message_bytes w.message_bytes_fit,
  from_le-le_bytes 8 h.seq w.seq_fit,
  from_le-le_bytes 8 h.source_timestamp_us w.timestamp_fit,
  from_le-le_bytes 2 h.key_len w.key_len_fit,
  from_le-le_bytes 2 h.value_len w.value_len_fit,
)

pub from_wire_type-to_wire_type : (t : ValueType) → from_wire_type (to_wire_type t) ≡ t
unfolding from_wire_type to_wire_type
from_wire_type-to_wire_type bool = refl
from_wire_type-to_wire_type double = refl
from_wire_type-to_wire_type string = refl
from_wire_type-to_wire_type string_array = refl

parse-cons :
    (c : ℕ) (xs ys : List ℕ)
    → length xs < 2 ^ 16
    → parse_items (suc c) (le_bytes 2 (length xs) ++ (xs ++ ys)) ≡ xs ∷ parse_items c ys
unfolding parse_items
parse-cons c xs ys h = rw (enough, bounded, take-append_self xs ys, drop-append_self xs ys)
  where
    enough : leb 2 (suc (suc (length (xs ++ ys)))) ≡ true
    enough = ground arith

    bounded : min (from_le (le_bytes 2 (length xs))) (length (xs ++ ys)) ≡ length xs
    bounded = omega (arith, from_le-le_bytes 2 (length xs) h, length-append xs ys)

parse-items_bytes :
    (ss : List (List ℕ)) → parse_items (length ss) (items_bytes ss) ≡ map (take string_max) ss
parse-items_bytes [] = unfold parse_items in refl
parse-items_bytes (s ∷ ss) =
    ap (λ n. parse_items (suc (length ss)) (le_bytes 2 n ++ (take string_max s ++ items_bytes ss)))
      (omega (arith, length-take string_max s))
    ∙ parse-cons (length ss) (take string_max s) (items_bytes ss)
        (omega (arith, length-take string_max s))
    ∙ ap (◌∷◌ (take string_max s)) (parse-items_bytes ss)

-- What a reader gets of a value: the part that its type names, with long strings cut to 256 bytes
-- and long arrays to 32 items.
unfoldable pub delivered_value : ValueType → VariableValue → VariableValue
delivered_value bool v = record empty_value { bool_value = v.bool_value }
delivered_value double v = record empty_value { double_value = v.double_value }
delivered_value string v = record empty_value { string_value = take string_max v.string_value }
delivered_value string_array v = record empty_value {
  string_array_value = map (take string_max) (take string_array_max_count v.string_array_value);
}

-- The value in a frame, from its bytes alone.
unfoldable pub decode_value : ValueType → List ℕ → VariableValue
decode_value bool bytes = record empty_value { bool_value = not (from_le (take 1 bytes) == 0) }
decode_value double bytes = record empty_value { double_value = from_le (take 8 bytes) }
decode_value string bytes = record empty_value { string_value = bytes }
decode_value string_array bytes = record empty_value {
  string_array_value = parse_items (from_le (take 1 bytes)) (drop 1 bytes);
}

pub decode-value_bytes :
    (t : ValueType) (v : VariableValue)
    → v.double_value < 2 ^ 64
    → decode_value t (value_bytes t v) ≡ delivered_value t v
unfolding decode_value value_bytes delivered_value
decode-value_bytes bool v h = ground arith
decode-value_bytes double v h =
    ap (λ n. record empty_value { double_value = n }) (from_le-le_bytes 8 v.double_value h)
decode-value_bytes string v h = refl
decode-value_bytes string_array v h =
    ap (λ xs. record empty_value { string_array_value = xs })
      (ap (λ n. parse_items n (items_bytes (take string_array_max_count v.string_array_value)))
          (omega (arith, length-take string_array_max_count v.string_array_value))
        ∙ parse-items_bytes (take string_array_max_count v.string_array_value))
