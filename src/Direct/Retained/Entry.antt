-- ===== src/Direct/Retained/Entry.antt =====
-- What an entry keeps of an update.

use smart_dashboard.Base.{
  ℕ, ◌≤◌, ◌≡◌, ◌≢◌, ◌∙◌, refl, ap, true, false, List, [], ◌∷◌, arith, length, take, All, All-imp,
  beq_ne, take-length_le, All-append,
}
use smart_dashboard.Base.Eq.{bytes_eq_iff}
use smart_dashboard.Direct.Types.{
  ValueType, bool, double, string, string_array, VariableValue, VariableUpdate,
}
use smart_dashboard.Direct.Retained.{
  RetainedEntry, max_key_bytes, c_string, new_entry, entry_value, answers, type_code, separator,
  max_string_bytes, join, unpack,
}
use smart_dashboard.Direct.Retained.Escape.{unpack-join}
use smart_dashboard.Direct.Retained.Slots.{has_key}

-- What the table can hold whole: at most 191 bytes without a zero as a key, and so on.
abbrev pub NonZero : List ℕ → Type 0
NonZero s = All (λ c. c ≢ 0) s

abbrev pub IsKey : List ℕ → Type 0
IsKey key = (length key ≤ max_key_bytes) × NonZero key

c_string-whole : (s : List ℕ) → NonZero s → c_string s ≡ s
unfolding c_string
c_string-whole [] h = refl
c_string-whole (c ∷ cs) h = rw (beq_ne c 0 h.0) (ap (◌∷◌ c) (c_string-whole cs h.1))

c_string-take : (n : ℕ) (s : List ℕ) → length s ≤ n → NonZero s → c_string (take n s) ≡ s
c_string-take n s l h = ap c_string (take-length_le n s l) ∙ c_string-whole s h

key-new_entry : (u : VariableUpdate) → IsKey u.key → c_string (new_entry u).key ≡ u.key
unfolding new_entry
key-new_entry u k = by_type u.type
  where
    e : c_string (take max_key_bytes u.key) ≡ u.key
    e = c_string-take max_key_bytes u.key k.0 k.1

    by_type : (t : ValueType) → c_string (new_entry (record u { type = t })).key ≡ u.key
    by_type bool = e
    by_type double = e
    by_type string = e
    by_type string_array = e

occupied-new_entry : (u : VariableUpdate) → (new_entry u).occupied ≡ true
unfolding new_entry
occupied-new_entry u = by_type u.type
  where
    by_type : (t : ValueType) → (new_entry (record u { type = t })).occupied ≡ true
    by_type bool = refl
    by_type double = refl
    by_type string = refl
    by_type string_array = refl

type-new_entry : (u : VariableUpdate) → (new_entry u).type ≡ type_code u.type
unfolding new_entry type_code
type-new_entry u = by_type u.type
  where
    by_type : (t : ValueType) → (new_entry (record u { type = t })).type ≡ type_code t
    by_type bool = refl
    by_type double = refl
    by_type string = refl
    by_type string_array = refl

pub answers-new_entry :
    (u : VariableUpdate) → IsKey u.key → answers u.key u.type (new_entry u) ≡ true
answers-new_entry u k = ground (
  arith,
  occupied-new_entry u,
  type-new_entry u,
  key-new_entry u k,
  bytes_eq_iff (c_string (new_entry u).key) u.key,
)

pub silent-new_entry :
    (u : VariableUpdate) (key : List ℕ) (t : ValueType)
    → IsKey u.key
    → key ≢ u.key
    → answers key t (new_entry u) ≡ false
silent-new_entry u key t k ne =
    ground (arith, key-new_entry u k, bytes_eq_iff (c_string (new_entry u).key) key)

pub silent_key :
    (k key : List ℕ) (t : ValueType) (e : RetainedEntry)
    → has_key k e ≡ true
    → key ≢ k
    → answers key t e ≡ false
silent_key k key t e h ne =
    ground (arith, bytes_eq_iff (c_string e.key) k, bytes_eq_iff (c_string e.key) key)

pub silent_free :
    (key : List ℕ) (t : ValueType) (e : RetainedEntry)
    → e.occupied ≡ false
    → answers key t e ≡ false
silent_free key t e h = ground arith

-- What the table can hold whole of a value: a string of at most 511 bytes without a zero, and an
-- array of at least one item, without zeros and separators, that is joined to at most 511 bytes.
abbrev pub IsStorable : ValueType → VariableValue → Type 0
IsStorable bool v = Unit
IsStorable double v = Unit
IsStorable string v = (length v.string_value ≤ max_string_bytes) × NonZero v.string_value
IsStorable string_array v =
    (v.string_array_value ≢ [])
    × (length (join v.string_array_value) ≤ max_string_bytes)
    × All (λ s. NonZero s × All (λ c. c ≢ separator) s) v.string_array_value

-- A value with the field of the type taken from another.
abbrev pub with_value : ValueType → VariableValue → VariableValue → VariableValue
with_value bool v out = record out { bool_value = v.bool_value }
with_value double v out = record out { double_value = v.double_value }
with_value string v out = record out { string_value = v.string_value }
with_value string_array v out = record out { string_array_value = v.string_array_value }

NonZero-join :
    (ss : List (List ℕ)) → All (λ s. NonZero s × All (λ c. c ≢ separator) s) ss → NonZero (join ss)
unfolding join
NonZero-join [] h = tt
NonZero-join (s ∷ []) h = h.0.0
NonZero-join (s ∷ t ∷ ss) h =
    All-append _ s (separator ∷ join (t ∷ ss)) h.0.0
      ((λ e. absurd (omega arith)), NonZero-join (t ∷ ss) h.1)

unpack_whole :
    (ss : List (List ℕ))
    → ss ≢ []
    → All (λ s. NonZero s × All (λ c. c ≢ separator) s) ss
    → unpack [] (join ss) ≡ ss
unpack_whole [] ne h = absurd (ne refl)
unpack_whole (s ∷ ss) ne h = unpack-join s ss h.0.1 (All-imp _ _ (λ x q. q.1) ss h.1)

pub entry_value-new_entry :
    (u : VariableUpdate) (out : VariableValue)
    → IsStorable u.type u.value
    → entry_value (new_entry u) u.type out ≡ with_value u.type u.value out
unfolding new_entry entry_value
entry_value-new_entry u out = by_type u.type
  where
    by_type :
        (t : ValueType)
        → IsStorable t u.value
        → entry_value (new_entry (record u { type = t })) t out ≡ with_value t u.value out
    by_type bool s = refl
    by_type double s = refl
    by_type string s =
        ap (λ x. record out { string_value = x })
          (c_string-take max_string_bytes u.value.string_value s.0 s.1)
    by_type string_array (ne, l, h) =
        ap (λ x. record out { string_array_value = x })
          (ap (unpack []) (
              c_string-take max_string_bytes (join u.value.string_array_value) l
                (NonZero-join u.value.string_array_value h))
            ∙ unpack_whole u.value.string_array_value ne h)
