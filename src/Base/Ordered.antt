-- ===== src/Base/Ordered.antt =====
-- `std::map<std::string, V>`, as an association list in the order of its keys, and the order of
-- strings of bytes.
use Prim.Native.Nat.{ℕ}
use mathlib.Core.Path.{◌≡◌, refl, sym, subst}
use mathlib.Core.Logic.{inl, inr}
use mathlib.Core.Bool.{Bool, true, false, ◌&&◌, ◌||◌, false≢true}
use mathlib.Core.List.{List, [], ◌∷◌}
use native.Mathlib.Omega.{arith}
use smart_dashboard.Base.Tests.{ltb, Bool-cases, ◌==◌, if◌then◌else◌}
use smart_dashboard.Base.Eq.{bytes_eq, bytes_eq_iff, bytes_IsEq}
use smart_dashboard.Base.Assoc.{lookup, remove}
use mathlib.Core.Option.{some, none}

abbrev pub bytes_lt : List ℕ → List ℕ → Bool
bytes_lt xs [] = false
bytes_lt [] (y ∷ ys) = true
bytes_lt (x ∷ xs) (y ∷ ys) = ltb x y || (x == y && bytes_lt xs ys)

pub bytes_eq_refl : (xs : List ℕ) → bytes_eq xs xs ≡ true
bytes_eq_refl xs = (bytes_eq_iff xs xs).1 refl

-- Of two strings that differ, one is below the other.
bytes_lt_total :
    (xs ys : List ℕ) → bytes_eq xs ys ≡ false → bytes_lt ys xs ≡ false → bytes_lt xs ys ≡ true
bytes_lt_total [] [] h k = absurd (false≢true (sym h))
bytes_lt_total [] (y ∷ ys) h k = refl
bytes_lt_total (x ∷ xs) [] h k = absurd (false≢true (sym k))
bytes_lt_total (x ∷ xs) (y ∷ ys) h k = ground (arith, bytes_lt_total xs ys)

bytes_lt_irrefl : (xs : List ℕ) → bytes_lt xs xs ≡ false
bytes_lt_irrefl [] = refl
bytes_lt_irrefl (x ∷ xs) = ground (arith, bytes_lt_irrefl xs)

bytes_lt_trans :
    (xs ys zs : List ℕ) → bytes_lt xs ys ≡ true → bytes_lt ys zs ≡ true → bytes_lt xs zs ≡ true
bytes_lt_trans xs [] zs h k = absurd (false≢true h)
bytes_lt_trans xs (y ∷ ys) [] h k = absurd (false≢true k)
bytes_lt_trans [] (y ∷ ys) (z ∷ zs) h k = refl
bytes_lt_trans (x ∷ xs) (y ∷ ys) (z ∷ zs) h k = ground (arith, bytes_lt_trans xs ys zs)

bytes_lt_ne : (xs ys : List ℕ) → bytes_lt xs ys ≡ true → bytes_eq ys xs ≡ false
bytes_lt_ne xs ys h = ground (arith, bytes_eq_iff ys xs, bytes_lt_irrefl xs)

module _ {ℓ} {V : Type ℓ} where
  -- `operator[]` and an assignment.
  unfoldable pub assign : List ℕ → V → List (List ℕ × V) → List (List ℕ × V)
  assign k v [] = (k, v) ∷ []
  assign k v ((j, w) ∷ m) =
      let rest = (j, w) ∷ assign k v m in
      if bytes_eq j k then (k, v) ∷ m else if bytes_lt k j then (k, v) ∷ (j, w) ∷ m else rest

  unfoldable pub mapped : List (List ℕ × V) → List V
  mapped [] = []
  mapped ((k, v) ∷ m) = v ∷ mapped m

  pub assign-assign :
      (k : List ℕ) (v : V) (m : List (List ℕ × V)) → assign k v (assign k v m) ≡ assign k v m
  unfolding assign
  assign-assign k v [] = ground (arith, bytes_eq_refl k)
  assign-assign k v ((j, w) ∷ m) = ground (arith, bytes_eq_refl k, assign-assign k v m)

  -- The first key, if there is one, is above k.
  unfoldable pub IsAbove : List ℕ → List (List ℕ × V) → Type 0
  IsAbove k [] = Unit
  IsAbove k ((j, v) ∷ m) = bytes_lt k j ≡ true

  -- The keys ascend.
  unfoldable pub IsAscending : List (List ℕ × V) → Type 0
  IsAscending [] = Unit
  IsAscending ((k, v) ∷ m) = IsAbove k m × IsAscending m

  pub lookup-assign :
      (k j : List ℕ) (v : V) (m : List (List ℕ × V))
      → lookup j (assign k v m) ≡ (if bytes_eq k j then some v else lookup j m)
  unfolding assign lookup
  lookup-assign k j v [] = refl
  lookup-assign k j v ((i, w) ∷ m) =
      ground (arith, bytes_eq_iff k j, bytes_eq_iff i k, bytes_eq_iff i j, lookup-assign k j v m)

  assign-IsAbove :
      (i k : List ℕ) (v : V) (m : List (List ℕ × V))
      → bytes_lt i k ≡ true
      → IsAbove i m
      → IsAbove i (assign k v m)
  unfolding assign IsAbove
  assign-IsAbove i k v [] h a = h
  assign-IsAbove i k v ((j, w) ∷ m) h a = elim (Bool-cases (bytes_eq j k)) [
    | inl y ↦ rw y h
    | inr n ↦ rw n (elim (Bool-cases (bytes_lt k j)) [ inl y ↦ rw y h | inr z ↦ rw z a ])
  ]

  pub assign-IsAscending :
      (k : List ℕ) (v : V) (m : List (List ℕ × V)) → IsAscending m → IsAscending (assign k v m)
  unfolding assign IsAscending IsAbove
  assign-IsAscending k v [] h = (tt, tt)
  assign-IsAscending k v ((j, w) ∷ m) (a, h) = elim (Bool-cases (bytes_eq j k)) [
    | inl y ↦ rw y (subst (λ i. IsAbove i m) ((bytes_eq_iff j k).0 y) a, h)
    | inr n ↦ rw n (elim (Bool-cases (bytes_lt k j)) [
      | inl y ↦ rw y (y, (a, h))
      | inr z ↦ rw z (assign-IsAbove j k v m (bytes_lt_total j k n z) a, assign-IsAscending k v m h)
    ])
  ]

  above : (k j : List ℕ) (m : List (List ℕ × V)) → bytes_lt k j ≡ true → IsAbove j m → IsAbove k m
  unfolding IsAbove
  above k j [] a h = tt
  above k j ((i, w) ∷ m) a h = bytes_lt_trans k j i a h

  -- A key below the first of an ascending map is not in it.
  lookup_below :
      (k : List ℕ) (m : List (List ℕ × V)) → IsAbove k m → IsAscending m → lookup k m ≡ none
  unfolding lookup IsAbove IsAscending
  lookup_below k [] a h = refl
  lookup_below k ((j, v) ∷ m) a h =
      rw (bytes_lt_ne k j a) (lookup_below k m (above k j m a h.0) h.1)

  -- The first key of an ascending map comes once.
  pub lookup_first :
      (k : List ℕ) (v : V) (m : List (List ℕ × V)) → IsAscending ((k, v) ∷ m) → lookup k m ≡ none
  unfolding IsAscending
  lookup_first k v m h = lookup_below k m h.0 h.1

  remove-IsAbove :
      (i k : List ℕ) (m : List (List ℕ × V)) → IsAbove i m → IsAscending m → IsAbove i (remove k m)
  unfolding remove IsAbove IsAscending
  remove-IsAbove i k [] a h = tt
  remove-IsAbove i k ((j, v) ∷ m) a h = elim (Bool-cases (bytes_eq j k)) [
    | inl y ↦ rw y (remove-IsAbove i k m (above i j m a h.0) h.1)
    | inr n ↦ rw n a
  ]

  pub remove-IsAscending :
      (k : List ℕ) (m : List (List ℕ × V)) → IsAscending m → IsAscending (remove k m)
  unfolding remove IsAscending
  remove-IsAscending k [] h = tt
  remove-IsAscending k ((j, v) ∷ m) h = elim (Bool-cases (bytes_eq j k)) [
    | inl y ↦ rw y (remove-IsAscending k m h.1)
    | inr n ↦ rw n (remove-IsAbove j k m h.0 h.1, remove-IsAscending k m h.1)
  ]
