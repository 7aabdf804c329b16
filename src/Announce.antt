-- ===== src/Announce.antt =====
-- `JsonFindObjectEnd` of plugins/NT4Transport/src/nt4_client.cpp, with which announcements are read. A
-- text is a list of bytes.
pub mod Objects
use smart_dashboard.Base.{
  ℕ, zero, suc, ◌+◌, ◌-◌, Bool, true, false, not, ◌&&◌, List, [], ◌∷◌, Option, none, some, ◌==◌,
  if◌then◌else◌, drop,
}

-- The change of `depth` at a byte outside strings; the loop ends before a depth below zero.
abbrev pub next_depth : ℕ → ℕ → ℕ
next_depth c depth = if c == 123 then suc depth else if c == 125 then depth - 1 else depth

-- The loop at the position i, where `skip` is the `++i` after a backslash.
unfoldable pub scan_object : ℕ → Bool → Bool → ℕ → List ℕ → Option ℕ
scan_object depth in_string skip i [] = none
scan_object depth in_string true i (c ∷ cs) = scan_object depth in_string false (suc i) cs
scan_object depth true false i (c ∷ cs) = scan_object depth (not (c == 34)) (c == 92) (suc i) cs
scan_object depth false false i (c ∷ cs) =
    let rest = scan_object (next_depth c depth) (c == 34) false (suc i) cs in
    if c == 125 && depth == 1 then some i else rest

unfoldable pub scan_from_open : ℕ → List ℕ → Option ℕ
scan_from_open open_pos [] = none
scan_from_open open_pos (c ∷ cs) =
    if c == 123 then scan_object 0 false false open_pos (c ∷ cs) else none

unfoldable pub json_find_object_end : List ℕ → ℕ → Option ℕ
json_find_object_end json open_pos = scan_from_open open_pos (drop open_pos json)
