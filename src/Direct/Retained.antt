-- ===== src/Direct/Retained.antt =====
-- ClientInterface_direct/src/sd_direct_retained_store.cpp: an open store's table of entries, and
-- the escaping of its file's fields. The mutex makes each call one step. What `PersistLocked`
-- answers (it writes the table to a file) is an argument.
pub mod Escape
pub mod Slots
pub mod Entry
pub mod Table
use smart_dashboard.Base.{
  ℕ, suc, ◌^◌, ◌-◌, Bool, true, false, not, ◌&&◌, ◌||◌, List, [], ◌∷◌, ◌++◌, Option, none, some,
  take, ltb, ◌==◌, if◌then◌else◌,
}
use smart_dashboard.Base.Eq.{bytes_eq}
use smart_dashboard.Direct.Types.{
  ValueType, bool, double, string, string_array, VariableValue, VariableUpdate,
}

abbrev pub max_key_bytes : ℕ
max_key_bytes = 191

abbrev pub max_string_bytes : ℕ
max_string_bytes = 511

-- '\\', '|', '\n', '\r' and '\x1f'.
abbrev pub backslash : ℕ
backslash = 92

abbrev pub bar : ℕ
bar = 124

abbrev pub separator : ℕ
separator = 31

abbrev pub is_escaped : ℕ → Bool
is_escaped c = c == backslash || c == bar || c == 10 || c == 13

unfoldable pub escape : List ℕ → List ℕ
escape [] = []
escape (c ∷ cs) = if is_escaped c then backslash ∷ c ∷ escape cs else c ∷ escape cs

-- The Boolean is `escaped`.
unfoldable pub unescape : Bool → List ℕ → List ℕ
unescape escaped [] = []
unescape true (c ∷ cs) = c ∷ unescape false cs
unescape false (c ∷ cs) = if c == backslash then unescape true cs else c ∷ unescape false cs

-- `escaped` and `current` of `SplitEscaped`.
unfoldable pub split_escaped : Bool → List ℕ → List ℕ → List (List ℕ)
split_escaped false current [] = unescape false current ∷ []
split_escaped true current [] = unescape false (current ++ (backslash ∷ [])) ∷ []
split_escaped true current (c ∷ cs) = split_escaped false (current ++ (backslash ∷ c ∷ [])) cs
split_escaped false current (c ∷ cs) =
    let started = split_escaped true current cs in
    let next = unescape false current ∷ split_escaped false [] cs in
    let longer = split_escaped false (current ++ (c ∷ [])) cs in
    if c == backslash then started else if c == bar then next else longer

-- Each `char` array is the bytes copied into it, behind which it is zero. The members of the union
-- are fields: only the one of the entry's type is read.
pub record RetainedEntry : Type 0 where
  pub occupied : Bool
  pub type : ℕ
  pub seq : ℕ
  pub source_timestamp_us : ℕ
  pub key : List ℕ
  pub bool_value : Bool
  pub double_value : ℕ
  pub string_value : List ℕ
  pub string_array_value : List ℕ

abbrev pub empty_entry : RetainedEntry
empty_entry = record {
  occupied = false;
  type = 0;
  seq = 0;
  source_timestamp_us = 0;
  key = [];
  bool_value = false;
  double_value = 0;
  string_value = [];
  string_array_value = [];
}

-- A `char` array read as a string: up to its first zero.
unfoldable pub c_string : List ℕ → List ℕ
c_string [] = []
c_string (c ∷ cs) = if c == 0 then [] else c ∷ c_string cs

unfoldable pub join : List (List ℕ) → List ℕ
join [] = []
join (s ∷ []) = s
join (s ∷ t ∷ ss) = s ++ (separator ∷ join (t ∷ ss))

-- The loop of `TryGet` that splits a packed array; the first argument is `current`.
unfoldable pub unpack : List ℕ → List ℕ → List (List ℕ)
unpack current [] = current ∷ []
unpack current (c ∷ cs) =
    let next = current ∷ unpack [] cs in
    let longer = unpack (current ++ (c ∷ [])) cs in if c == separator then next else longer

-- `static_cast<std::uint8_t>` of a value type.
unfoldable pub type_code : ValueType → ℕ
type_code bool = 1
type_code double = 2
type_code string = 3
type_code string_array = 4

unfoldable pub new_entry : VariableUpdate → RetainedEntry
unfolding join
new_entry u =
    let e = record empty_entry {
      occupied = true;
      type = type_code u.type;
      seq = u.seq;
      source_timestamp_us = u.source_timestamp_us;
      key = take max_key_bytes u.key;
    } in
    elim u.type [
      | bool ↦ record e { bool_value = u.value.bool_value }
      | double ↦ record e { double_value = u.value.double_value }
      | string ↦ record e { string_value = take max_string_bytes u.value.string_value }
      | string_array ↦ record e {
        string_array_value = take max_string_bytes (join u.value.string_array_value);
      }
    ]

-- The loop of `Put` from index `i` on: `free` and `oldest` are indices.
unfoldable pub slot : List ℕ → ℕ → List RetainedEntry → Option ℕ → ℕ → ℕ → ℕ
slot key i [] free oldest_seq oldest = elim free [ none ↦ oldest | some j ↦ j ]
slot key i (e ∷ es) free oldest_seq oldest =
    let first : Option ℕ = elim free [ none ↦ some i | some j ↦ some j ] in
    let skipped = slot key (suc i) es first oldest_seq oldest in
    let older = slot key (suc i) es free e.seq i in
    let kept = slot key (suc i) es free oldest_seq oldest in
    if not e.occupied
    then skipped
    else if bytes_eq (c_string e.key) key
    then i
    else if ltb e.seq oldest_seq
    then older
    else kept

unfoldable pub set_at : ℕ → RetainedEntry → List RetainedEntry → List RetainedEntry
set_at i x [] = []
set_at ℕ.zero x (e ∷ es) = x ∷ es
set_at (suc i) x (e ∷ es) = e ∷ set_at i x es

-- The table and what `Put` returns.
unfoldable pub put :
    (List RetainedEntry → Bool) → VariableUpdate → List RetainedEntry → List RetainedEntry × Bool
unfolding set_at slot
put persist_locked u es =
    let es' = set_at (slot u.key 0 es none (2 ^ 64 - 1) 0) (new_entry u) es in
    (es', persist_locked es')

-- `outValue` with the entry's value.
unfoldable pub entry_value : RetainedEntry → ValueType → VariableValue → VariableValue
unfolding unpack
entry_value e bool out = record out { bool_value = e.bool_value }
entry_value e double out = record out { double_value = e.double_value }
entry_value e string out = record out { string_value = c_string e.string_value }
entry_value e string_array out = record out {
  string_array_value = unpack [] (c_string e.string_array_value);
}

-- The tests after which `TryGet` takes an entry.
abbrev pub answers : List ℕ → ValueType → RetainedEntry → Bool
answers key type e = e.occupied && e.type == type_code type && bytes_eq (c_string e.key) key

unfoldable pub try_get :
    List ℕ → ValueType → VariableValue → List RetainedEntry → Option VariableValue
unfolding entry_value
try_get key type out [] = none
try_get key type out (e ∷ es) =
    let rest = try_get key type out es in
    if answers key type e then some (entry_value e type out) else rest
