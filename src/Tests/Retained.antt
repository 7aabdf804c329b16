-- ===== src/Tests/Retained.antt =====
-- A table of two places.
use smart_dashboard.Base.{
  ap, ◌+◌, sym, ℕ, ◌≤◌, ◌≡◌, refl, Bool, true, false, List, [], ◌∷◌, some, arith, All,
}
use mathlib.Core.Bool.{false≢true}
use smart_dashboard.Direct.Types.{ValueType, VariableUpdate, empty_value}
use smart_dashboard.Direct.Retained.{
  RetainedEntry, empty_entry, bar, put, try_get, new_entry, slot, set_at, c_string, split_escaped,
  unpack, join, type_code,
}
use smart_dashboard.Direct.Retained.Escape.{line, split-line}
use smart_dashboard.Direct.Retained.Slots.{get}
use smart_dashboard.Direct.Retained.Table.{put-others, put-evicts}

abbrev saved : List RetainedEntry → Bool
saved es = true

abbrev names : VariableUpdate
names = record {
  key = 65 ∷ [];
  type = ValueType.string_array;
  value = record empty_value { string_array_value = (66 ∷ []) ∷ [] ∷ (67 ∷ 68 ∷ []) ∷ [] };
  seq = 5;
  source_timestamp_us = 9;
}

abbrev limit : VariableUpdate
limit = record names {
  key = 70 ∷ [];
  type = ValueType.double;
  value = record empty_value { double_value = 3 };
  seq = 2;
}

abbrev mode : VariableUpdate
mode = record limit { key = 71 ∷ []; seq = 6 }

abbrev empty_table : List RetainedEntry
empty_table = empty_entry ∷ empty_entry ∷ []

abbrev full_table : List RetainedEntry
full_table =
    record empty_entry { occupied = true; type = 2; seq = 5; key = 65 ∷ [] }
    ∷ record empty_entry { occupied = true; type = 2; seq = 2; key = 70 ∷ []; double_value = 3 }
    ∷ []

-- The smaller sequence number makes place for the third key.
mode_in : (put saved mode full_table).0 ≡ set_at 1 (new_entry mode) full_table
unfolding put slot set_at new_entry c_string type_code
mode_in = refl

-- An array without items comes back as one with an empty item.
no_items : unpack [] (join []) ≡ [] ∷ []
unfolding unpack join
no_items = refl

-- Tells the two keys apart.
abbrev byte_sum : List ℕ → ℕ
byte_sum [] = 0
byte_sum (c ∷ cs) = c + byte_sum cs

put-others_example :
    try_get (70 ∷ []) ValueType.double empty_value (put saved names full_table).0
    ≡ try_get (70 ∷ []) ValueType.double empty_value full_table
unfolding c_string
put-others_example =
    put-others saved names full_table (70 ∷ []) ValueType.double empty_value
      (omega arith, ((λ e. absurd (omega arith)), tt)) (λ h. false≢true (sym h.1.0))
      (λ e. absurd (omega (arith, ap byte_sum e)))

put-evicts_example :
    (n : ℕ) × (e : RetainedEntry) × (get n full_table ≡ some e)
    × All (λ x. e.seq ≤ x.seq) full_table
    × ((put saved mode full_table).0 ≡ set_at n (new_entry mode) full_table)
unfolding c_string
put-evicts_example =
    put-evicts saved mode full_table (omega arith) (refl, (refl, tt)) (refl, (refl, tt))
      (omega arith, (omega arith, tt))

split-line_example :
    split_escaped false [] (line (49 ∷ []) ((bar ∷ 92 ∷ 65 ∷ []) ∷ [] ∷ []))
    ≡ (49 ∷ []) ∷ (bar ∷ 92 ∷ 65 ∷ []) ∷ [] ∷ []
split-line_example = split-line (49 ∷ []) ((bar ∷ 92 ∷ 65 ∷ []) ∷ [] ∷ [])
