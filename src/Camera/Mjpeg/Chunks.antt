-- ===== src/Camera/Mjpeg/Chunks.antt =====
-- The loop of `ParseBuffer`: it ends, and cutting the stream into chunks does not change its frames.
use smart_dashboard.Base.{
  ℕ, zero, suc, ◌+◌, ◌-◌, ◌≤◌, ◌<◌, ◌≡◌, refl, ap, ap₂, sym, ◌∙◌, List, [], ◌∷◌, ◌++◌, append_assoc,
  none, some, inl, inr, Option-cases, length, length-drop, drop, drop-append_le, arith, bind_some,
}
use smart_dashboard.Camera.Mjpeg.{
  index_of, header_end, header_start, frame_end, frame_between, parse_part, after_part, next_parts,
  parse_parts, parse_all,
}
use smart_dashboard.Camera.Mjpeg.Search.{
  index_of_bounds, index_of-append, header_start-append, frame_end-append, frame_end_le,
  frame_between-append,
}

-- The indices that a pass finds.
record FoundPart (marker buffer : List ℕ) (frame : List (List ℕ)) (rest : List ℕ) : Type 0 where
  position : ℕ
  end : ℕ
  next : ℕ
  at_position : index_of marker 0 buffer ≡ some position
  at_end : index_of header_end (header_start marker position buffer) buffer ≡ some end
  at_next : index_of marker (end + 4) buffer ≡ some next
  is_frame : frame ≡ frame_between (end + 4) (frame_end next buffer) buffer
  is_rest : rest ≡ drop next buffer

find_part :
    (marker buffer : List ℕ) (frame : List (List ℕ)) (rest : List ℕ)
    → parse_part marker buffer ≡ some (frame, rest)
    → FoundPart marker buffer frame rest
unfolding parse_part
find_part marker buffer frame rest e =
    let (p, ep, e1) = bind_some _ _ _ e in
    let (d, ed, e2) = bind_some _ _ _ e1 in
    let (n, en, e3) = bind_some _ _ _ e2 in
    record {
      position = p;
      end = d;
      next = n;
      at_position = ep;
      at_end = ed;
      at_next = en;
      is_frame = cc;
      is_rest = cc;
    }

part-append :
    (marker b c : List ℕ) (frame : List (List ℕ)) (rest : List ℕ)
    → parse_part marker b ≡ some (frame, rest)
    → parse_part marker (b ++ c) ≡ some (frame, rest ++ c)
unfolding parse_part
part-append marker b c frame rest e =
    let w = find_part marker b frame rest e in
    let bd = index_of_bounds header_end (header_start marker w.position b) w.end b w.at_end in
    let bn = index_of_bounds marker (w.end + 4) w.next b w.at_next in
    let at : header_start marker w.position (b ++ c) ≡ header_start marker w.position b =
      header_start-append marker w.position b c (omega (arith, bd)) in
    rw (index_of-append marker 0 w.position b c w.at_position) (
      rw
        (ap (λ i. index_of header_end i (b ++ c)) at
          ∙ index_of-append header_end (header_start marker w.position b) w.end b c w.at_end)
        (rw (index_of-append marker (w.end + 4) w.next b c w.at_next) (
          ap₂ (λ f r. some (f, r))
            (ap (λ last. frame_between (w.end + 4) last (b ++ c))
                (frame_end-append w.next b c (omega (arith, bn)) (omega (arith, bn)))
              ∙ frame_between-append (w.end + 4) (frame_end w.next b) b c (omega (arith, bn))
                  (omega (arith, bn, frame_end_le w.next b))
              ∙ sym w.is_frame)
            (drop-append_le w.next b c (omega (arith, bn)) ∙ ap (λ r. r ++ c) (sym w.is_rest)))))

part_shorter :
    (marker b : List ℕ) (frame : List (List ℕ)) (rest : List ℕ)
    → parse_part marker b ≡ some (frame, rest)
    → length rest < length b
part_shorter marker b frame rest e =
    let w = find_part marker b frame rest e in
    let bn = index_of_bounds marker (w.end + 4) w.next b w.at_next in
    omega (arith, bn, ap length w.is_rest, length-drop w.next b)

part_nothing : (marker : List ℕ) → parse_part marker [] ≡ none
unfolding parse_part index_of
part_nothing marker = refl

-- The loop by its passes.
parts_none :
    (n : ℕ) (marker b : List ℕ) → parse_part marker b ≡ none → parse_parts n marker b ≡ ([], b)
unfolding parse_parts
parts_none zero marker b e = refl
parts_none (suc n) marker b e = ap (next_parts b (parse_parts n marker)) e

parts_some :
    (n : ℕ) (marker b : List ℕ) (frame : List (List ℕ)) (rest : List ℕ)
    → parse_part marker b ≡ some (frame, rest)
    → parse_parts (suc n) marker b ≡ after_part frame (parse_parts n marker rest)
unfolding parse_parts
parts_some n marker b frame rest e = ap (next_parts b (parse_parts n marker)) e

-- Two amounts of fuel that are at least the number of bytes give the same, and the loop is left
-- where a pass finds no part.
parts_fuel :
    (n k : ℕ) (marker b : List ℕ)
    → length b ≤ n
    → length b ≤ k
    → (parse_part marker (parse_parts n marker b).1 ≡ none)
      × (parse_parts n marker b ≡ parse_parts k marker b)
parts_fuel zero k marker [] h l =
    let e = part_nothing marker in
    (
      ap (λ r. parse_part marker r.1) (parts_none 0 marker [] e) ∙ e,
      parts_none 0 marker [] e ∙ sym (parts_none k marker [] e),
    )
parts_fuel zero k marker (x ∷ b) h l = absurd (omega arith)
parts_fuel (suc n) k marker b h l = elim (Option-cases (parse_part marker b)) [
  | inl e ↦ (
    ap (λ r. parse_part marker r.1) (parts_none (suc n) marker b e) ∙ e,
    parts_none (suc n) marker b e ∙ sym (parts_none k marker b e),
  )
  | inr ((frame, rest), e) ↦
      let less = part_shorter marker b frame rest e in
      let (stuck, same) = parts_fuel n (k - 1) marker rest (omega arith) (omega arith) in
      let more : suc (k - 1) ≡ k = omega arith in
      (
        ap (λ r. parse_part marker r.1) (parts_some n marker b frame rest e) ∙ stuck,
        parts_some n marker b frame rest e
            ∙ ap (after_part frame) same
            ∙ sym (parts_some (k - 1) marker b frame rest e)
            ∙ ap (λ i. parse_parts i marker b) more,
      )
]

-- With as much fuel as bytes, or more, the loop is left where a pass finds no whole part, and it
-- does what it does with as much fuel as bytes.
pub parse_parts-enough :
    (n : ℕ) (marker b : List ℕ)
    → length b ≤ n
    → (parse_part marker (parse_parts n marker b).1 ≡ none)
      × (parse_parts n marker b ≡ parse_all marker b)
unfolding parse_all
parse_parts-enough n marker b h = parts_fuel n (length b) marker b h (omega arith)

-- The frames of what has arrived, followed by those of what is left with what arrives next, and
-- what is left of these.
abbrev pub then_parse : List ℕ → List (List ℕ) × List ℕ → List ℕ → List (List ℕ) × List ℕ
then_parse marker (frames, left) c = after_part frames (parse_all marker (left ++ c))

all_some :
    (marker b : List ℕ) (frame : List (List ℕ)) (rest : List ℕ)
    → parse_part marker b ≡ some (frame, rest)
    → parse_all marker b ≡ after_part frame (parse_all marker rest)
unfolding parse_all
all_some marker b frame rest e =
    let less = part_shorter marker b frame rest e in
    let more : length b ≡ suc (length b - 1) = omega arith in
    ap (λ i. parse_parts i marker b) more
    ∙ parts_some (length b - 1) marker b frame rest e
    ∙ ap (after_part frame) (parse_parts-enough (length b - 1) marker rest (omega arith)).1

parts-append :
    (n : ℕ) (marker b c : List ℕ)
    → length b ≤ n
    → parse_all marker (b ++ c) ≡ then_parse marker (parse_parts n marker b) c
parts-append zero marker [] c h =
    sym (ap (λ r. then_parse marker r c) (parts_none 0 marker [] (part_nothing marker)))
parts-append zero marker (x ∷ b) c h = absurd (omega arith)
parts-append (suc n) marker b c h = elim (Option-cases (parse_part marker b)) [
  | inl e ↦ sym (ap (λ r. then_parse marker r c) (parts_none (suc n) marker b e))
  | inr ((frame, rest), e) ↦
      let less = part_shorter marker b frame rest e in
      all_some marker (b ++ c) frame (rest ++ c) (part-append marker b c frame rest e)
      ∙ ap (after_part frame) (parts-append n marker rest c (omega arith))
      ∙ ap (λ fs. (fs, (then_parse marker (parse_parts n marker rest) c).1))
          (sym (append_assoc frame (parse_parts n marker rest).0 _))
      ∙ sym (ap (λ r. then_parse marker r c) (parts_some n marker b frame rest e))
]

-- Cutting what arrives in two, and parsing the first part before the second arrives, gives the same
-- frames and leaves the same bytes as parsing all of it at once.
pub parse_all-append :
    (marker b c : List ℕ) → parse_all marker (b ++ c) ≡ then_parse marker (parse_all marker b) c
unfolding parse_all
parse_all-append marker b c = parts-append (length b) marker b c (omega arith)
