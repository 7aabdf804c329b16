-- ===== src/Direct/Queue/Attach.antt =====
-- Attaching to a mapping, and the queue and the cursor that follow.
use native.Mathlib.Nat.{mod-eq_of_lt}
use smart_dashboard.Base.{
  ℕ, ◌+◌, ◌-◌, ◌%◌, ◌^◌, ◌≤◌, ◌<◌, ◌≡◌, refl, sym, ◌∙◌, inl, inr, true, List, [], some, ◌⊎◌, arith,
  lt→ltb, Bool-cases,
}
use smart_dashboard.Direct.Types.{RingHeader, Ring, magic_number, version_number, ring_header_size}
use smart_dashboard.Direct.Bytes.{Memory}
use smart_dashboard.Direct.Ring.{needs_init, fresh_ring, attach_ring}
use smart_dashboard.Direct.Ring.Holds.{Holds}
use smart_dashboard.Direct.Queue.{Op, run, run_queue}
-- The updates that are to be written have numbers of their C++ types.
use smart_dashboard.Direct.Queue.Refine.{AreSized, run-eq-run_queue}

-- A ring that no reader or writer has used since it was laid out.
abbrev pub IsFresh : Ring → Type 0
IsFresh r =
    (r.header.magic ≡ magic_number)
    × (r.header.version ≡ version_number)
    × (r.header.capacity_bytes ≡ r.capacity)
    × (r.header.write_index ≡ 0)
    × (r.header.consumer_read_index ≡ 0)
    × (r.header.dropped_count ≡ 0)

-- The header has the magic number, the version and the capacity of the mapping.
abbrev pub IsLaidOut : RingHeader → ℕ → Type 0
IsLaidOut h cap = (h.magic ≡ magic_number) × (h.version ≡ version_number) × (h.capacity_bytes ≡ cap)

-- Attaching to a mapping of more than 72 and fewer than 2^32 bytes with leave to initialize yields a
-- ring of the bytes past the header: the header and the payload that are there if magic number,
-- version and capacity are right, and a fresh ring with a zeroed payload if one of them is not.
pub attach_ring-initialize :
    (h : RingHeader) (m : Memory) (mapping_bytes now : ℕ)
    → ring_header_size < mapping_bytes
    → mapping_bytes < 2 ^ 32
    → let cap = mapping_bytes - ring_header_size in
      (r : Ring) × (attach_ring (some (h, m)) mapping_bytes true now ≡ some r)
      × (r.capacity ≡ cap)
      × ((IsLaidOut h cap × (r.header ≡ h) × (r.payload ≡ m))
          ⊎ (¬ IsLaidOut h cap × IsFresh r × ((j : ℕ) → j < cap → r.payload j ≡ 0)))
unfolding attach_ring
attach_ring-initialize h m mapping_bytes now a b =
    elim (Bool-cases (needs_init h ((mapping_bytes - ring_header_size) % 2 ^ 32))) [
      | inl y ↦ (
        fresh_ring m mapping_bytes now,
        ground arith,
        omega arith,
        inr (
          (λ l. ground arith),
          ground arith,
          λ j k. rw (lt→ltb j (mapping_bytes - ring_header_size) k),
        ),
      )
      | inr n ↦ (
        record { header = h; payload = m; capacity = h.capacity_bytes },
        ground arith,
        ground arith,
        inl (ground arith, refl, refl),
      )
    ]

pub fresh-Holds : (r : Ring) → r.capacity ≤ 2 ^ 31 → 0 < r.capacity → IsFresh r → Holds r 0 0 []
fresh-Holds r small pos f = record {
  small = small;
  read_in = omega (arith, f.4);
  cursor_at = sym at_start;
  write_at = f.3 ∙ sym at_start;
  room = pos;
  pending = refl;
  sized = tt;
}
  where
    at_start : (r.header.consumer_read_index + 0) % r.capacity ≡ 0
    at_start = omega (arith, f.4, mod-eq_of_lt pos)

-- On a fresh ring of at most 2^31 bytes, read from offset 0, every sequence of writes, reads and
-- releases gets the replies of the empty queue.
pub fresh-run :
    (ops : List Op) (r : Ring)
    → IsFresh r
    → r.capacity ≤ 2 ^ 31
    → 0 < r.capacity
    → AreSized ops
    → run (record { ring = r; cursor = 0 }) ops ≡ run_queue r.capacity [] 0 ops
fresh-run ops r f small pos s = run-eq-run_queue ops r 0 0 [] (fresh-Holds r small pos f) s
