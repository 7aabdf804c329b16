-- ===== src/Direct/Ring/Holds.antt =====
-- What it means that the ring holds a list of unread frames.
use native.Mathlib.Nat.{mod-eq_of_lt}
use native.Mathlib.Decide.{dec_lt}
use smart_dashboard.Base.{
  ℕ, ◌+◌, ◌-◌, ◌%◌, ◌^◌, ◌≤◌, ◌<◌, ◌≡◌, refl, sym, ap, ◌∙◌, List, [], ◌∷◌, ◌++◌, arith, length, All,
  length-append, append-nil, append_assoc,
}
use smart_dashboard.Direct.Types.{VariableUpdate, Ring}
use smart_dashboard.Direct.Copy.{ring_used, ring_free}
use smart_dashboard.Direct.Copy.Wrap.{window, once}
use smart_dashboard.Direct.Ring.Frames.{IsSized, frame_bytes, frame_size, length-frame_bytes}

-- The bytes of some frames, one after the other, and their number.
abbrev pub all_bytes : List VariableUpdate → List ℕ
all_bytes [] = []
all_bytes (u ∷ us) = frame_bytes u ++ all_bytes us

abbrev pub all_size : List VariableUpdate → ℕ
all_size [] = 0
all_size (u ∷ us) = frame_size u + all_size us

pub length-all_bytes : (us : List VariableUpdate) → length (all_bytes us) ≡ all_size us
length-all_bytes [] = refl
length-all_bytes (u ∷ us) =
    omega (
      arith,
      length-append (frame_bytes u) (all_bytes us),
      length-frame_bytes u,
      length-all_bytes us,
    )

pub all_bytes-snoc :
    (us : List VariableUpdate) (u : VariableUpdate)
    → all_bytes (us ++ (u ∷ [])) ≡ all_bytes us ++ frame_bytes u
all_bytes-snoc [] u = append-nil (frame_bytes u)
all_bytes-snoc (x ∷ xs) u =
    ap (◌++◌ (frame_bytes x)) (all_bytes-snoc xs u)
    ∙ sym (append_assoc (frame_bytes x) (all_bytes xs) (frame_bytes u))

pub all_size-snoc :
    (us : List VariableUpdate) (u : VariableUpdate)
    → all_size (us ++ (u ∷ [])) ≡ all_size us + frame_size u
all_size-snoc [] u = omega arith
all_size-snoc (x ∷ xs) u = omega (arith, all_size-snoc xs u)

-- The ring holds exactly the frames `us` that a reader at `cursor` has not read. `lag` bytes lie
-- between the read index that the writer sees and that cursor.
pub record Holds (r : Ring) (cursor lag : ℕ) (us : List VariableUpdate) : Type 0 where
  pub small : r.capacity ≤ 2 ^ 31
  pub read_in : r.header.consumer_read_index < r.capacity
  pub cursor_at : cursor ≡ (r.header.consumer_read_index + lag) % r.capacity
  pub write_at :
      r.header.write_index ≡ (r.header.consumer_read_index + (lag + all_size us)) % r.capacity
  pub room : lag + all_size us < r.capacity
  pub pending : window r.capacity r.payload cursor (all_size us) ≡ all_bytes us
  pub sized : All IsSized us

module _ (r : Ring) (cursor lag : ℕ) (us : List VariableUpdate) (h : Holds r cursor lag us) where
  -- The bytes that the writer takes for occupied.
  used_straight :
      r.header.write_index ≡ r.header.consumer_read_index + (lag + all_size us)
      → ring_used r ≡ lag + all_size us
  unfolding ring_used
  used_straight e = ground (arith, h.small, h.read_in, h.room)

  used_round :
      r.capacity ≤ r.header.consumer_read_index + (lag + all_size us)
      → r.header.write_index ≡ r.header.consumer_read_index + (lag + all_size us) - r.capacity
      → ring_used r ≡ lag + all_size us
  unfolding ring_used
  used_round k e = ground (arith, h.small, h.read_in, h.room)

  pub ring_used-Holds : ring_used r ≡ lag + all_size us
  ring_used-Holds = elim (dec_lt (r.header.consumer_read_index + (lag + all_size us)) r.capacity) [
    | yes p ↦ used_straight (h.write_at ∙ mod-eq_of_lt p)
    | no p ↦ used_round (omega arith) (
        h.write_at
        ∙ once r.capacity (r.header.consumer_read_index + (lag + all_size us)) (omega arith)
            (omega (arith, h.read_in, h.room)))
  ]

  pub ring_free-Holds : ring_free r ≡ r.capacity - (lag + all_size us) - 1
  unfolding ring_free
  ring_free-Holds = ground (arith, ring_used-Holds)

  pub write_index-lt : r.header.write_index < r.capacity
  write_index-lt = omega (arith, h.write_at, h.room)

  pub cursor-lt : cursor < r.capacity
  cursor-lt = omega (arith, h.cursor_at, h.room)
