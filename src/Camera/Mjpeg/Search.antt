-- ===== src/Camera/Mjpeg/Search.antt =====
-- Searching a buffer that grows at its end.
use mathlib.Core.Option
use smart_dashboard.Base.{
  ℕ, zero, suc, ◌+◌, ◌-◌, ◌≤◌, ◌<◌, ◌≡◌, refl, ap, sym, ◌∙◌, true, false, List, [], ◌∷◌, ◌++◌,
  Option, none, some, inl, inr, Bool-cases, length, drop, length-drop, take-append_le,
  drop-append_le, arith,
}
use smart_dashboard.Camera.Mjpeg.{
  is_prefix, index_of, at_is, skip_at, cr, lf, frame_end, header_start, frame_between,
}

prefix-append : (p xs ys : List ℕ) → length p ≤ length xs → is_prefix p (xs ++ ys) ≡ is_prefix p xs
prefix-append [] xs ys h = refl
prefix-append (a ∷ p) [] ys h = absurd (omega arith)
prefix-append (a ∷ p) (x ∷ xs) ys h = rw (prefix-append p xs ys (omega arith)) refl

prefix_length : (p xs : List ℕ) → is_prefix p xs ≡ true → length p ≤ length xs
prefix_length [] xs h = omega arith
prefix_length (a ∷ p) [] h = absurd (ground arith)
prefix_length (a ∷ p) (x ∷ xs) h =
    let rest : is_prefix p xs ≡ true = ground arith in omega (arith, prefix_length p xs rest)

map-suc-some :
    (o : Option ℕ) (n : ℕ) → Option.map suc o ≡ some n → (m : ℕ) × (o ≡ some m) × (n ≡ suc m)
map-suc-some none n e = cc
map-suc-some (some m) n e = (m, refl, cc)

found_here :
    (p : List ℕ) (x n : ℕ) (xs : List ℕ)
    → is_prefix p (x ∷ xs) ≡ true
    → index_of p 0 (x ∷ xs) ≡ some n
    → n ≡ 0
unfolding index_of
found_here p x n xs h e =
    let here : index_of p 0 (x ∷ xs) ≡ some 0 = rw h refl in
    let both : some 0 ≡ some n = sym here ∙ e in cc

found_later :
    (p : List ℕ) (x n : ℕ) (xs : List ℕ)
    → is_prefix p (x ∷ xs) ≡ false
    → index_of p 0 (x ∷ xs) ≡ some n
    → (m : ℕ) × (index_of p 0 xs ≡ some m) × (n ≡ suc m)
unfolding index_of
found_later p x n xs h e =
    let later : index_of p 0 (x ∷ xs) ≡ Option.map suc (index_of p 0 xs) = rw h refl in
    map-suc-some (index_of p 0 xs) n (sym later ∙ e)

-- An index that is found leaves room for the pattern.
pub index_of_bounds :
    (p : List ℕ) (f n : ℕ) (xs : List ℕ)
    → index_of p f xs ≡ some n
    → (f ≤ n) × (n + length p ≤ length xs)
unfolding index_of
index_of_bounds p f n [] e = cc
index_of_bounds p (suc f) n (x ∷ xs) e =
    let (m, g, h) = map-suc-some (index_of p f xs) n e in
    let (a, b) = index_of_bounds p f m xs g in (omega arith, omega arith)
index_of_bounds p zero n (x ∷ xs) e = elim (Bool-cases (is_prefix p (x ∷ xs))) [
  | inl y ↦ (omega arith, omega (arith, found_here p x n xs y e, prefix_length p (x ∷ xs) y))
  | inr z ↦
      let (m, g, h) = found_later p x n xs z e in
      let (a, b) = index_of_bounds p 0 m xs g in (omega arith, omega arith)
]

pub index_of-append :
    (p : List ℕ) (f n : ℕ) (xs ys : List ℕ)
    → index_of p f xs ≡ some n
    → index_of p f (xs ++ ys) ≡ some n
unfolding index_of
index_of-append p f n [] ys e = cc
index_of-append p (suc f) n (x ∷ xs) ys e =
    let (m, g, h) = map-suc-some (index_of p f xs) n e in
    ap (Option.map suc) (index_of-append p f m xs ys g) ∙ ap some (sym h)
index_of-append p zero n (x ∷ xs) ys e = elim (Bool-cases (is_prefix p (x ∷ xs))) [
  | inl y ↦
      rw (prefix-append p (x ∷ xs) ys (prefix_length p (x ∷ xs) y) ∙ y)
        (ap some (sym (found_here p x n xs y e)))
  | inr z ↦
      let (m, g, h) = found_later p x n xs z e in
      let (a, b) = index_of_bounds p 0 m xs g in
      rw (prefix-append p (x ∷ xs) ys (omega arith) ∙ z)
        (ap (Option.map suc) (index_of-append p 0 m xs ys g) ∙ ap some (sym h))
]

at_is-append : (c i : ℕ) (xs ys : List ℕ) → i < length xs → at_is c i (xs ++ ys) ≡ at_is c i xs
at_is-append c i [] ys h = absurd (omega arith)
at_is-append c zero (x ∷ xs) ys h = refl
at_is-append c (suc i) (x ∷ xs) ys h = at_is-append c i xs ys (omega arith)

skip_at-append :
    (c i : ℕ) (xs ys : List ℕ) → i < length xs → skip_at c i (xs ++ ys) ≡ skip_at c i xs
unfolding skip_at
skip_at-append c i xs ys h = rw (at_is-append c i xs ys h) refl

skip_at_le : (c i : ℕ) (xs : List ℕ) → i ≤ skip_at c i xs
unfolding skip_at
skip_at_le c i xs = ground arith

-- The start of a part's headers, in a buffer that holds their end.
pub header_start-append :
    (marker : List ℕ) (position : ℕ) (xs ys : List ℕ)
    → header_start marker position xs < length xs
    → header_start marker position (xs ++ ys) ≡ header_start marker position xs
unfolding header_start
header_start-append marker position xs ys h =
    let i = position + length marker in
    let j = skip_at cr i xs in
    let a = skip_at_le cr i xs in
    let b = skip_at_le lf j xs in
    ap (λ k. skip_at lf k (xs ++ ys)) (skip_at-append cr i xs ys (omega arith))
    ∙ skip_at-append lf j xs ys (omega arith)

pub frame_end-append :
    (next : ℕ) (xs ys : List ℕ)
    → 0 < next
    → next ≤ length xs
    → frame_end next (xs ++ ys) ≡ frame_end next xs
unfolding frame_end
frame_end-append next xs ys h k =
    rw
      (
        at_is-append cr (next - 2) xs ys (omega arith),
        at_is-append lf (next - 1) xs ys (omega arith),
      )
      refl

pub frame_end_le : (next : ℕ) (xs : List ℕ) → frame_end next xs ≤ next
unfolding frame_end
frame_end_le next xs = ground arith

pub frame_between-append :
    (first last : ℕ) (xs ys : List ℕ)
    → first ≤ length xs
    → last ≤ length xs
    → frame_between first last (xs ++ ys) ≡ frame_between first last xs
unfolding frame_between
frame_between-append first last xs ys h k =
    rw
      (
        drop-append_le first xs ys h,
        take-append_le (last - first) (drop first xs) ys (omega (arith, length-drop first xs)),
      )
      refl
