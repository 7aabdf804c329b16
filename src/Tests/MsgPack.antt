-- ===== src/Tests/MsgPack.antt =====
-- Elements and a frame in MessagePack.
use smart_dashboard.Base.{
  ℕ, List, ◌≡◌, refl, true, [], ◌∷◌, ◌++◌, none, some, ℤ, pos, negsuc, arith,
}
use smart_dashboard.MsgPack.{
  take_exact, read_array_header, string_len, read_string, read_strings, read_string_array,
  write_int, write_wide,
}
use smart_dashboard.MsgPack.RoundTrip.{
  int_element, string_element, write_element, ReadsBack, write_element-ReadsBack,
}
use smart_dashboard.MsgPack.Skip.{
  past, out_of_fuel, skip_element, skip_count, skip_bytes, skip_element-write_element,
}
use smart_dashboard.MsgPack.Depth.{Finishes, skip_element-Finishes}
use smart_dashboard.MsgPack.Frame.{
  TypeCode, TopicValue, write_value, build_value_frame, read_frame_start,
  read_frame_start-build_value_frame,
}

abbrev same : ℕ → ℕ
same n = n

abbrev magnitude : ℤ → ℕ
magnitude (pos n) = n
magnitude (negsuc n) = n

write_element-ReadsBack_example :
    ReadsBack same magnitude
      (int_element (negsuc 299))
      (write_element (int_element (negsuc 299)) ++ (7 ∷ []))
      (7 ∷ [])
write_element-ReadsBack_example =
    write_element-ReadsBack same magnitude (int_element (negsuc 299)) (7 ∷ []) (omega arith)

-- -300 takes two bytes after its first.
minus_300 : write_int (negsuc 299) ≡ 209 ∷ 254 ∷ 212 ∷ []
unfolding write_int write_wide
minus_300 = refl

-- An array of two strings.
two_strings :
    read_string_array (146 ∷ 161 ∷ 97 ∷ 162 ∷ 98 ∷ 99 ∷ 5 ∷ [])
    ≡ some ((97 ∷ []) ∷ (98 ∷ 99 ∷ []) ∷ [], 5 ∷ [])
unfolding read_string_array read_array_header read_strings read_string string_len take_exact
two_strings = refl

-- A string whose bytes are missing is refused.
cut_string : read_string (162 ∷ 98 ∷ []) ≡ none
unfolding read_string string_len take_exact
cut_string = refl

abbrev value : TopicValue
value = record { bool_value = true; double_value = 0; string_value = [] }

read_frame_start-build_value_frame_example :
    read_frame_start (build_value_frame (pos 1) 1000000 TypeCode.boolean value ++ [])
    ≡ some (
      record { array_len = 4; topic_id = pos 1; timestamp = 1000000; type_code = pos 0 },
      write_value TypeCode.boolean value ++ [],
    )
read_frame_start-build_value_frame_example =
    read_frame_start-build_value_frame (pos 1) 1000000 TypeCode.boolean value [] (omega arith)
      (omega arith)

skip_element-write_element_example :
    skip_element 1 (write_element (string_element (104 ∷ 105 ∷ [])) ++ (7 ∷ [])) ≡ past (7 ∷ [])
skip_element-write_element_example =
    skip_element-write_element 0 (string_element (104 ∷ 105 ∷ [])) (7 ∷ []) (omega arith)

-- An array in an array, and a byte after it.
abbrev nested : List ℕ
nested = 146 ∷ 145 ∷ 5 ∷ 161 ∷ 97 ∷ 7 ∷ []

nested_skipped : skip_element 3 nested ≡ past (7 ∷ [])
unfolding skip_element skip_count skip_bytes
nested_skipped = refl

skip_element-Finishes_example : Finishes 6 (skip_element 7 nested)
skip_element-Finishes_example = skip_element-Finishes 7 nested (omega arith)

-- Less fuel than the depth of the element is not enough.
nested_too_deep : skip_element 2 nested ≡ out_of_fuel
unfolding skip_element skip_count
nested_too_deep = refl
