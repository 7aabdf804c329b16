-- ===== src/MsgPack/Depth.antt =====
-- `SkipElement` of plugins/NT4Transport/src/nt4_client.cpp ends, with fuel for every byte.
use smart_dashboard.Base.{
  ℕ, zero, suc, ◌*◌, ◌/◌, ◌%◌, ◌≤◌, ◌<◌, ◌≡◌, ap, ◌||◌, List, [], ◌∷◌, Option, none, some, inl, inr,
  Option-cases, leb, ◌==◌, bind_some, if_keeps, length, take, drop, length-drop, arith,
}
use smart_dashboard.MsgPack.{take_exact, with_number, read_be, from_be}
use smart_dashboard.MsgPack.Skip.{
  Skipped, out_of_fuel, refused, past, and_then, with_count, skip_bytes, skip_count, skip_payload,
  skip_element,
}

-- The fuel was enough, and at most m bytes are left after an element that is passed.
abbrev IsEnded : ℕ → Skipped → Type 0
IsEnded m out_of_fuel = 1 ≤ 0
IsEnded m refused = Unit
IsEnded m (past zs) = length zs ≤ m

-- The fuel was enough, and fewer than m bytes are left after an element that is passed.
abbrev pub Finishes : ℕ → Skipped → Type 0
Finishes m out_of_fuel = 1 ≤ 0
Finishes m refused = Unit
Finishes m (past zs) = length zs < m

fewer : (m : ℕ) (r : Skipped) → IsEnded m r → Finishes (suc m) r
fewer m out_of_fuel h = h
fewer m refused h = tt
fewer m (past zs) h = omega arith

and_then-IsEnded :
    (m : ℕ) (r : Skipped) (go : List ℕ → Skipped)
    → IsEnded m r
    → ((ys : List ℕ) → length ys ≤ m → IsEnded m (go ys))
    → IsEnded m (and_then r go)
and_then-IsEnded m out_of_fuel go h g = h
and_then-IsEnded m refused go h g = tt
and_then-IsEnded m (past ys) go h g = g ys h

skip_bytes-IsEnded : (m n : ℕ) (xs : List ℕ) → length xs ≤ m → IsEnded m (skip_bytes n xs)
unfolding skip_bytes
skip_bytes-IsEnded m n xs h =
    if_keeps (IsEnded m) (leb n (length xs)) (past (drop n xs)) refused
      (omega (arith, length-drop n xs)) tt

-- Bytes of at most m are gone through in the given way.
abbrev AllEnded : ℕ → (List ℕ → Skipped) → Type 0
AllEnded m go = (ys : List ℕ) → length ys ≤ m → IsEnded m (go ys)

skip_count-IsEnded :
    (go : List ℕ → Skipped) (m n : ℕ) → AllEnded m go → AllEnded m (skip_count go n)
unfolding skip_count
skip_count-IsEnded go m zero h xs l = l
skip_count-IsEnded go m (suc n) h xs l =
    and_then-IsEnded m (go xs) (skip_count go n) (h xs l) (skip_count-IsEnded go m n h)

take_exact-length :
    (n : ℕ) (xs : List ℕ) (p : List ℕ × List ℕ) → take_exact n xs ≡ some p → length p.1 ≤ length xs
unfolding take_exact
take_exact-length n xs =
    if_keeps
      (λ (o : Option (List ℕ × List ℕ)).
        (p : List ℕ × List ℕ) → o ≡ some p → length p.1 ≤ length xs)
      (leb n (length xs)) (some (take n xs, drop n xs)) none
      (λ p e.
        let same : (take n xs, drop n xs) ≡ p = cc in
        omega (arith, ap (λ (q : List ℕ × List ℕ). length q.1) same, length-drop n xs))
      (λ p e. cc)

read_be-length :
    (n : ℕ) (xs : List ℕ) (p : ℕ × List ℕ) → read_be n (λ k. k) xs ≡ some p → length p.1 ≤ length xs
unfolding read_be
read_be-length n xs p e =
    let (q, f, g) = bind_some (take_exact n xs) (with_number (λ k. k)) p e in
    let same : (from_be q.0, q.1) ≡ p = cc in
    omega (arith, take_exact-length n xs q f, ap (λ (r : ℕ × List ℕ). length r.1) same)

-- A number, and then what goes on from it.
with_count-IsEnded :
    (m n : ℕ) (xs : List ℕ) (go : ℕ → List ℕ → Skipped)
    → length xs ≤ m
    → ((k : ℕ) → AllEnded m (go k))
    → IsEnded m (with_count (read_be n (λ k. k) xs) go)
with_count-IsEnded m n xs go l h = elim (Option-cases (read_be n (λ k. k) xs)) [
  | inl e ↦ rw e tt
  | inr (p, e) ↦ rw e (h p.0 p.1 (omega (arith, read_be-length n xs p e)))
]

skip_payload-IsEnded :
    (go : List ℕ → Skipped) (m b : ℕ) (xs : List ℕ)
    → AllEnded m go
    → length xs ≤ m
    → IsEnded m (skip_payload go b xs)
unfolding skip_payload
skip_payload-IsEnded go m b xs h l =
    let P : Skipped → Type 0 = IsEnded m in
    let bytes = λ (n : ℕ). skip_bytes-IsEnded m n xs l in
    let len = λ (n : ℕ). with_count-IsEnded m n xs skip_bytes l (skip_bytes-IsEnded m) in
    let count =
      λ (n : ℕ). with_count-IsEnded m n xs (skip_count go) l (λ k. skip_count-IsEnded go m k h) in
    if_keeps P (b == 204 || b == 208) (skip_bytes 1 xs) _ (bytes 1) (
      if_keeps P (b == 205 || b == 209) (skip_bytes 2 xs) _ (bytes 2) (
        if_keeps P (b == 206 || (b == 210 || b == 202)) (skip_bytes 4 xs) _ (bytes 4) (
          if_keeps P (b == 207 || (b == 211 || b == 203)) (skip_bytes 8 xs) _ (bytes 8) (
            if_keeps P (b == 217) (with_count (read_be 1 (λ k. k) xs) skip_bytes) _ (len 1) (
              if_keeps P (b == 218) (with_count (read_be 2 (λ k. k) xs) skip_bytes) _ (len 2) (
                if_keeps P (b == 219) (with_count (read_be 4 (λ k. k) xs) skip_bytes) _ (len 4) (
                  if_keeps P (b == 220) (with_count (read_be 2 (λ k. k) xs) (skip_count go)) _
                    (count 2)
                    (if_keeps P (b == 221) (with_count (read_be 4 (λ k. k) xs) (skip_count go)) _
                      (count 4) tt))))))))

-- With more fuel than there are bytes `SkipElement` does not run out of it: it answers false, or it
-- answers true and has passed at least one byte.
pub skip_element-Finishes :
    (fuel : ℕ) (xs : List ℕ) → length xs < fuel → Finishes (length xs) (skip_element fuel xs)
unfolding skip_element
skip_element-Finishes zero xs h = absurd (omega arith)
skip_element-Finishes (suc fuel) [] h = tt
skip_element-Finishes (suc fuel) (b ∷ xs) h =
    let m = length xs in
    let P : Skipped → Type 0 = IsEnded m in
    let inner : AllEnded m (skip_element fuel) =
      (λ ys l. ended m ys (skip_element fuel ys) l (skip_element-Finishes fuel ys (omega arith))) in
    let count = λ (n : ℕ). skip_count-IsEnded (skip_element fuel) m n inner xs (omega arith) in
    fewer m (skip_element (suc fuel) (b ∷ xs)) (
      if_keeps P (leb b 127 || leb 224 b) (past xs) _ (omega arith) (
        if_keeps P (b == 192 || (b == 194 || b == 195)) (past xs) _ (omega arith) (
          if_keeps P (b / 32 == 5) (skip_bytes (b % 32) xs) _
            (skip_bytes-IsEnded m (b % 32) xs (omega arith))
            (if_keeps P (b / 16 == 9) (skip_count (skip_element fuel) (b % 16) xs) _
              (count (b % 16))
              (if_keeps P (b / 16 == 8) (skip_count (skip_element fuel) (b % 16 * 2) xs) _
                (count (b % 16 * 2))
                (skip_payload-IsEnded (skip_element fuel) m b xs inner (omega arith)))))))
  where
    ended :
        (m : ℕ) (ys : List ℕ) (r : Skipped) → length ys ≤ m → Finishes (length ys) r → IsEnded m r
    ended m ys out_of_fuel l h = h
    ended m ys refused l h = tt
    ended m ys (past zs) l h = omega arith
