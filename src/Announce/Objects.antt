-- ===== src/Announce/Objects.antt =====
-- The brace that `JsonFindObjectEnd` of plugins/NT4Transport/src/nt4_client.cpp finds.
use smart_dashboard.Base.{
  ℕ, suc, ◌+◌, ◌≡◌, ◌≢◌, ap, ap₂, ◌∙◌, true, not, false, List, [], ◌∷◌, ◌++◌, append_assoc, some,
  beq_ne, length, length-append, drop-append_self, arith,
}
use smart_dashboard.Announce.{scan_object, scan_from_open, json_find_object_end}

-- What stands between the quotes of a string.
pub data Quoted : Type 0 where
  end : Quoted
  char escape : ℕ → Quoted → Quoted

-- What stands between the braces of an object.
pub data Body : Type 0 where
  done : Body
  plain : ℕ → Body → Body
  quoted : Quoted → Body → Body
  object : Body → Body → Body

abbrev pub print_quoted : Quoted → List ℕ
print_quoted end = []
print_quoted (char c s) = c ∷ print_quoted s
print_quoted (escape c s) = 92 ∷ c ∷ print_quoted s

abbrev pub print : Body → List ℕ
print done = []
print (plain c t) = c ∷ print t
print (quoted s t) = 34 ∷ (print_quoted s ++ (34 ∷ print t))
print (object a t) = 123 ∷ (print a ++ (125 ∷ print t))

-- A byte that is not escaped is neither a quote nor a backslash.
abbrev pub IsQuoted : Quoted → Type 0
IsQuoted end = Unit
IsQuoted (char c s) = c ≢ 34 × c ≢ 92 × IsQuoted s
IsQuoted (escape c s) = IsQuoted s

-- A byte outside strings is neither a quote nor a brace.
abbrev pub IsBody : Body → Type 0
IsBody done = Unit
IsBody (plain c t) = c ≢ 34 × c ≢ 123 × c ≢ 125 × IsBody t
IsBody (quoted s t) = IsQuoted s × IsBody t
IsBody (object a t) = IsBody a × IsBody t

module _ (depth : ℕ) where
  at_position :
      {i j : ℕ} (cs : List ℕ)
      → i ≡ j
      → scan_object depth false false i cs ≡ scan_object depth false false j cs
  at_position cs e = ap (λ i. scan_object depth false false i cs) e

  scan-quoted :
      (i : ℕ) (s : Quoted) (rest : List ℕ)
      → IsQuoted s
      → scan_object depth true false i (print_quoted s ++ (34 ∷ rest))
        ≡ scan_object depth false false (suc (length (print_quoted s) + i)) rest
  unfolding scan_object
  scan-quoted i end rest h = at_position rest (omega arith)
  scan-quoted i (char c s) rest (a, b, h) =
      ap₂ (λ p q. scan_object depth (not p) q (suc i) (print_quoted s ++ (34 ∷ rest)))
        (beq_ne c 34 a) (beq_ne c 92 b)
      ∙ scan-quoted (suc i) s rest h
      ∙ at_position rest (omega arith)
  scan-quoted i (escape c s) rest h =
      scan-quoted (suc (suc i)) s rest h ∙ at_position rest (omega arith)

scan-close :
    (depth i : ℕ) (cs : List ℕ)
    → scan_object (suc (suc depth)) false false i (125 ∷ cs)
      ≡ scan_object (suc depth) false false (suc i) cs
unfolding scan_object
scan-close depth i cs =
    rw (beq_ne (suc (suc depth)) 1 (omega arith))
      (ap (λ d. scan_object d false false (suc i) cs) (omega arith))

-- A body inside an object is passed over, whatever its depth.
scan-print :
    (depth i : ℕ) (t : Body) (rest : List ℕ)
    → IsBody t
    → scan_object (suc depth) false false i (print t ++ rest)
      ≡ scan_object (suc depth) false false (length (print t) + i) rest
unfolding scan_object
scan-print depth i done rest h = at_position (suc depth) rest (omega arith)
scan-print depth i (plain c t) rest (a, b, d, h) =
    rw (beq_ne c 34 a, beq_ne c 123 b, beq_ne c 125 d)
      (scan-print depth (suc i) t rest h ∙ at_position (suc depth) rest (omega arith))
scan-print depth i (quoted s t) rest (a, h) =
    let n = length (print_quoted s) in
    ap (scan_object (suc depth) true false (suc i))
      (append_assoc (print_quoted s) (34 ∷ print t) rest)
    ∙ scan-quoted (suc depth) (suc i) s (print t ++ rest) a
    ∙ scan-print depth (suc (n + suc i)) t rest h
    ∙ at_position (suc depth) rest (omega (arith, length-append (print_quoted s) (34 ∷ print t)))
scan-print depth i (object a t) rest (g, h) =
    let n = length (print a) in
    ap (scan_object (suc (suc depth)) false false (suc i))
      (append_assoc (print a) (125 ∷ print t) rest)
    ∙ scan-print (suc depth) (suc i) a (125 ∷ (print t ++ rest)) g
    ∙ scan-close depth (n + suc i) (print t ++ rest)
    ∙ scan-print depth (suc (n + suc i)) t rest h
    ∙ at_position (suc depth) rest (omega (arith, length-append (print a) (125 ∷ print t)))

-- In a text that opens an object at a position, `JsonFindObjectEnd` finds the brace that closes this
-- object, past objects and strings within it, when a byte outside strings is neither a quote nor a
-- brace, and one that is not escaped inside a string neither a quote nor a backslash.
pub json_find_object_end-print :
    (before rest : List ℕ) (t : Body)
    → IsBody t
    → json_find_object_end (before ++ (123 ∷ (print t ++ (125 ∷ rest)))) (length before)
      ≡ some (length (print t) + suc (length before))
unfolding json_find_object_end scan_from_open scan_object
json_find_object_end-print before rest t h =
    ap (scan_from_open (length before)) (drop-append_self before (123 ∷ (print t ++ (125 ∷ rest))))
    ∙ scan-print 0 (suc (length before)) t (125 ∷ rest) h
