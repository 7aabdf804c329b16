-- ===== src/Tests/Announce.antt =====
-- The end of an object in a text.
use smart_dashboard.Base.{◌≡◌, refl, none, some, [], ◌∷◌, ◌++◌, arith}
use smart_dashboard.Announce.{scan_object, scan_from_open, json_find_object_end}
use smart_dashboard.Announce.Objects.{Quoted, Body, print, json_find_object_end-print}

-- {"}\"":{}}
abbrev nested_body : Body
nested_body =
    Body.quoted (Quoted.char 125 (Quoted.escape 34 Quoted.end))
      (Body.plain 58 (Body.object Body.done Body.done))

json_find_object_end-print_example :
    json_find_object_end (32 ∷ [] ++ (123 ∷ (print nested_body ++ (125 ∷ 125 ∷ [])))) 1 ≡ some 10
json_find_object_end-print_example =
    json_find_object_end-print (32 ∷ []) (125 ∷ []) nested_body
      ((omega arith, omega arith, tt), (omega arith, omega arith, omega arith, (tt, tt)))

-- No brace closes the object.
unmatched : json_find_object_end (123 ∷ 123 ∷ 125 ∷ []) 0 ≡ none
unfolding json_find_object_end scan_from_open scan_object
unmatched = refl
