-- ===== src/Direct/Retained/Table.antt =====
-- What the table answers after a `Put`.
use mathlib.Core.Option.{some-injective}
use smart_dashboard.Base.{
  ℕ, zero, suc, ◌+◌, ◌-◌, ◌^◌, ◌<◌, ◌≤◌, ◌≡◌, ◌≢◌, ◌∙◌, refl, subst, ap, inl, inr, Bool, false,
  List, [], ◌∷◌, none, some, arith, length, All, All-imp,
}
use smart_dashboard.Direct.Types.{ValueType, VariableValue, VariableUpdate}
use smart_dashboard.Direct.Retained.{RetainedEntry, new_entry, slot, set_at, put, answers, try_get}
use smart_dashboard.Direct.Retained.Slots.{get, Without, Occupied, slot-Chosen}
use smart_dashboard.Direct.Retained.Entry.{IsKey, silent-new_entry, silent_key, silent_free}

-- Overwriting an entry that does not answer with one that does not changes no answer.
try_get-set_other :
    (key : List ℕ) (t : ValueType) (out : VariableValue) (x : RetainedEntry) (n : ℕ)
    (es : List RetainedEntry) (e : RetainedEntry)
    → get n es ≡ some e
    → answers key t e ≡ false
    → answers key t x ≡ false
    → try_get key t out (set_at n x es) ≡ try_get key t out es
unfolding get set_at try_get
try_get-set_other key t out x n [] e g b a = absurd (ground arith)
try_get-set_other key t out x zero (y ∷ es) e g b a = ground (arith, g)
try_get-set_other key t out x (suc n) (y ∷ es) e g b a =
    ground (arith, try_get-set_other key t out x n es e g b a)

-- The index that `Put` overwrites.
abbrev index : VariableUpdate → List RetainedEntry → ℕ
index u es = slot u.key 0 es none (2 ^ 64 - 1) 0

get_first : (es : List RetainedEntry) → 0 < length es → (e : RetainedEntry) × (get 0 es ≡ some e)
unfolding get
get_first [] h = absurd (omega arith)
get_first (e ∷ es) h = (e, refl)

-- While a place is left, or the key has one, an update changes the answers for its own key only.
pub put-others :
    (persist_locked : List RetainedEntry → Bool) (u : VariableUpdate) (es : List RetainedEntry)
    (key : List ℕ) (t : ValueType) (out : VariableValue)
    → IsKey u.key
    → ¬ (Occupied es × Without u.key es)
    → key ≢ u.key
    → try_get key t out (put persist_locked u es).0 ≡ try_get key t out es
unfolding put
put-others persist_locked u es key t out k room ne = elim (slot-Chosen u.key 0 es (2 ^ 64 - 1) 0) [
  | inl (n, e, a, g, m, w) ↦ same n e a g (silent_key u.key key t e m ne)
  | inr (inl (n, e, a, g, v, w)) ↦ same n e a g (silent_free key t e v)
  | inr (inr (c, w, d)) ↦ absurd (room (c, w))
]
  where
    same :
        (n : ℕ) (e : RetainedEntry)
        → index u es ≡ 0 + n
        → get n es ≡ some e
        → answers key t e ≡ false
        → try_get key t out (set_at (index u es) (new_entry u) es) ≡ try_get key t out es
    same n e a g s =
        ap (λ i. try_get key t out (set_at i (new_entry u) es)) (a ∙ omega arith)
        ∙ try_get-set_other key t out (new_entry u) n es e g s (silent-new_entry u key t k ne)

-- Later updates, of other keys, each with a place of its own or a free one.
abbrev pub LeavesPlace :
    (List RetainedEntry → Bool) → List ℕ → List VariableUpdate → List RetainedEntry → Type 0
LeavesPlace persist_locked key [] es = Unit
LeavesPlace persist_locked key (u ∷ us) es =
    IsKey u.key
    × ¬ (Occupied es × Without u.key es)
    × (key ≢ u.key)
    × LeavesPlace persist_locked key us (put persist_locked u es).0

unfoldable pub put_all :
    (List RetainedEntry → Bool) → List VariableUpdate → List RetainedEntry → List RetainedEntry
put_all persist_locked [] es = es
put_all persist_locked (u ∷ us) es = put_all persist_locked us (put persist_locked u es).0

All-get :
    (P : RetainedEntry → Type 0) (n : ℕ) (es : List RetainedEntry) (e : RetainedEntry)
    → get n es ≡ some e
    → All P es
    → P e
unfolding get
All-get P n [] e g h = absurd (ground arith)
All-get P zero (x ∷ es) e g h = subst P (some-injective x e g) h.0
All-get P (suc n) (x ∷ es) e g h = All-get P n es e g h.1

-- When every place is taken by other keys, the update overwrites the entry with the smallest
-- sequence number and nothing else.
pub put-evicts :
    (persist_locked : List RetainedEntry → Bool) (u : VariableUpdate) (es : List RetainedEntry)
    → 0 < length es
    → Occupied es
    → Without u.key es
    → All (λ x. x.seq < 2 ^ 64) es
    → (n : ℕ) × (e : RetainedEntry) × (get n es ≡ some e)
      × All (λ x. e.seq ≤ x.seq) es
      × ((put persist_locked u es).0 ≡ set_at n (new_entry u) es)
unfolding put
put-evicts persist_locked u es h c w b = elim (slot-Chosen u.key 0 es (2 ^ 64 - 1) 0) [
  | inl (n, e, a, g, m, v) ↦ absurd (ground (arith, All-get _ n es e g w))
  | inr (inl (n, e, a, g, v, x)) ↦ absurd (ground (arith, All-get _ n es e g c))
  | inr (inr (x, y, inl (a, d))) ↦
      let (e, g) = get_first es h in
      (
        0,
        e,
        g,
        All-imp _ _ (λ z q. omega (arith, q, All-get _ 0 es e g b)) es d,
        ap (λ i. set_at i (new_entry u) es) a,
      )
  | inr (inr (x, y, inr (n, e, a, g, l, d))) ↦
      (n, e, g, d, ap (λ i. set_at i (new_entry u) es) (a ∙ omega arith))
]
