-- ===== src/Camera/Mjpeg.antt =====
-- The loop of `ParseBuffer` in SmartDashboard/src/camera/mjpeg_stream_source.cpp. A `QByteArray` is
-- a list of bytes.
pub mod Search
pub mod Chunks
pub mod Stream
pub mod Events
use smart_dashboard.Base.{
  ℕ, zero, suc, ◌+◌, ◌-◌, Bool, true, false, not, ◌&&◌, ◌||◌, List, [], ◌∷◌, ◌++◌, map, Option,
  none, some, ltb, leb, ◌>>=◌, ◌==◌, if◌then◌else◌, length, take, drop,
}
use mathlib.Core.Option

abbrev pub is_prefix : List ℕ → List ℕ → Bool
is_prefix [] ys = true
is_prefix (x ∷ xs) [] = false
is_prefix (x ∷ xs) (y ∷ ys) = x == y && is_prefix xs ys

-- `indexOf(pattern, from)`, for a pattern that is not empty.
unfoldable pub index_of : List ℕ → ℕ → List ℕ → Option ℕ
index_of pattern from [] = none
index_of pattern (suc from) (x ∷ xs) = Option.map suc (index_of pattern from xs)
index_of pattern zero (x ∷ xs) =
    let rest = Option.map suc (index_of pattern zero xs) in
    if is_prefix pattern (x ∷ xs) then some 0 else rest

-- The byte at an index is c; false outside the bytes.
abbrev pub at_is : ℕ → ℕ → List ℕ → Bool
at_is c i [] = false
at_is c zero (x ∷ xs) = x == c
at_is c (suc i) (x ∷ xs) = at_is c i xs

unfoldable pub skip_at : ℕ → ℕ → List ℕ → ℕ
skip_at c i xs = if at_is c i xs then suc i else i

abbrev pub cr : ℕ
cr = 13

abbrev pub lf : ℕ
lf = 10

abbrev pub header_end : List ℕ
header_end = 13 ∷ 10 ∷ 13 ∷ 10 ∷ []

unfoldable pub frame_end : ℕ → List ℕ → ℕ
frame_end next buffer =
    if leb 2 next && (at_is cr (next - 2) buffer && at_is lf (next - 1) buffer)
    then next - 2
    else next

unfoldable pub header_start : List ℕ → ℕ → List ℕ → ℕ
header_start marker position buffer =
    skip_at lf (skip_at cr (position + length marker) buffer) buffer

-- The bytes from index `first` to `last`, none if that is no index after it.
unfoldable pub frame_between : ℕ → ℕ → List ℕ → List (List ℕ)
frame_between first last buffer =
    if ltb first last then take (last - first) (drop first buffer) ∷ [] else []

-- One pass of the loop of `ParseBuffer`: the frame, if the part has one, and what is left of the
-- buffer. It is `none` where the loop is left.
unfoldable pub parse_part : List ℕ → List ℕ → Option (List (List ℕ) × List ℕ)
parse_part marker buffer = do
  position ← index_of marker 0 buffer
  end ← index_of header_end (header_start marker position buffer) buffer
  next ← index_of marker (end + 4) buffer
  some (frame_between (end + 4) (frame_end next buffer) buffer, drop next buffer)

-- The frame of a pass in front of those of the passes after it, and what these leave.
abbrev pub after_part : List (List ℕ) → List (List ℕ) × List ℕ → List (List ℕ) × List ℕ
after_part frame (frames, left) = (frame ++ frames, left)

abbrev pub next_parts :
    List ℕ
    → (List ℕ → List (List ℕ) × List ℕ)
    → Option (List (List ℕ) × List ℕ)
    → List (List ℕ) × List ℕ
next_parts buffer go none = ([], buffer)
next_parts buffer go (some (frame, rest)) = after_part frame (go rest)

-- The loop, on fuel: the frames, and what is left of the buffer.
unfoldable pub parse_parts : ℕ → List ℕ → List ℕ → List (List ℕ) × List ℕ
parse_parts zero marker buffer = ([], buffer)
parse_parts (suc fuel) marker buffer =
    next_parts buffer (parse_parts fuel marker) (parse_part marker buffer)

-- A pass takes at least one byte off the buffer.
unfoldable pub parse_all : List ℕ → List ℕ → List (List ℕ) × List ℕ
parse_all marker buffer = parse_parts (length buffer) marker buffer
