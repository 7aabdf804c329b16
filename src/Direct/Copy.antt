-- ===== src/Direct/Copy.antt =====
-- SmartDashboard_Interface_direct/src/sd_direct_ring.cpp: occupancy and the copies that go round.
pub mod Wrap
use smart_dashboard.Base.{
  ℕ, ◌+◌, ◌-◌, ◌%◌, List, [], ◌++◌, length, take, drop, min, leb, ltb, ◌==◌, if◌then◌else◌,
}
use smart_dashboard.Direct.Bytes.{Memory, add32, sub32, store, load}
use smart_dashboard.Direct.Types.{Ring}

unfoldable pub ring_used : Ring → ℕ
ring_used r =
    let w = r.header.write_index in
    let c = r.header.consumer_read_index in
    if leb c w then sub32 w c else sub32 r.capacity (sub32 c w)

unfoldable pub ring_free : Ring → ℕ
unfolding ring_used
ring_free r = sub32 (sub32 r.capacity (ring_used r)) 1

-- The list holds the `count` bytes to copy.
unfoldable pub copy_to_ring : ℕ → Memory → ℕ → List ℕ → Memory
copy_to_ring cap m index bytes =
    let count = length bytes in
    let first_part = min count (sub32 cap index) in
    let m' = store m index (take first_part bytes) in
    if count == 0
    then m
    else if ltb first_part count
    then store m' 0 (drop first_part bytes)
    else m'

unfoldable pub copy_from_ring : ℕ → Memory → ℕ → ℕ → List ℕ
copy_from_ring cap m index count =
    let first_part = min count (sub32 cap index) in
    let head = load m index first_part in
    if count == 0
    then []
    else if ltb first_part count
    then head ++ load m 0 (count - first_part)
    else head

-- A cursor moved on by n bytes: `(cursor + n) % ring.capacity`.
abbrev pub advance : ℕ → ℕ → ℕ → ℕ
advance cap cursor n = add32 cursor n % cap
