-- ===== src/Direct/Queue/Refine.antt =====
-- The ring behaves as the bounded queue.
use native.Mathlib.Nat.{mod-add-mod, mod-eq_of_lt, add-zero}
use native.Mathlib.Decide.{dec_lt}
use smart_dashboard.Base.{
  ℕ, ◌+◌, ◌%◌, ◌≤◌, ◌<◌, ◌≡◌, refl, sym, ap, ap₂, ◌∙◌, inl, inr, true, false, List, [], ◌∷◌, ◌++◌,
  some, none, arith, lt→ltb, le→ltb, beq_ne, beq_refl, inc64,
}
use smart_dashboard.Direct.Types.{VariableUpdate, Ring}
use smart_dashboard.Direct.Ring.{write_upsert, read_next_upsert}
use smart_dashboard.Direct.Ring.Frames.{IsSized, frame_size, delivered}
use smart_dashboard.Direct.Ring.Holds.{all_size, Holds, ring_free-Holds, write_index-lt, cursor-lt}
use smart_dashboard.Direct.Ring.Write.{written_ring, write-fits, write_refused, written-Holds}
use smart_dashboard.Direct.Ring.Read.{read-eq, rest-Holds}
use smart_dashboard.Direct.Queue.{
  Op, write, read, release, written, got, released, run, fits, run_queue,
}

-- The updates that are to be written have numbers of their C++ types.
abbrev pub AreSized : List Op → Type 0
AreSized [] = Unit
AreSized (write u now ∷ ops) = IsSized u × AreSized ops
AreSized (read now ∷ ops) = AreSized ops
AreSized (release ∷ ops) = AreSized ops

pub read_empty :
    (now : ℕ) (r : Ring) (cursor lag : ℕ)
    → Holds r cursor lag []
    → read_next_upsert now r cursor ≡ (r, cursor, none)
unfolding read_next_upsert
read_empty now r cursor lag h =
    rw (beq_ne r.capacity 0 (omega (arith, h.room)), at_end, beq_refl r.header.write_index)
  where
    at_end : cursor ≡ r.header.write_index
    at_end =
        h.cursor_at
        ∙ ap (λ n. (r.header.consumer_read_index + n) % r.capacity) (sym (add-zero lag))
        ∙ sym h.write_at

-- After a refused write, only the count of refused writes has changed.
pub dropped-Holds :
    (r : Ring) (cursor lag : ℕ) (us : List VariableUpdate) (n : ℕ)
    → Holds r cursor lag us
    → Holds (record r { header = record r.header { dropped_count = n } }) cursor lag us
dropped-Holds r cursor lag us n h = record {
  small = h.small;
  read_in = h.read_in;
  cursor_at = h.cursor_at;
  write_at = h.write_at;
  room = h.room;
  pending = h.pending;
  sized = h.sized;
}

pub released-Holds :
    (r : Ring) (cursor lag : ℕ) (us : List VariableUpdate)
    → Holds r cursor lag us
    → Holds (record r { header = record r.header { consumer_read_index = cursor } }) cursor 0 us
released-Holds r cursor lag us h = record {
  small = h.small;
  read_in = cursor-lt r cursor lag us h;
  cursor_at = sym (rw add-zero (mod-eq_of_lt (cursor-lt r cursor lag us h)));
  write_at =
      h.write_at
      ∙ ap (λ n. n % r.capacity) (omega arith)
      ∙ sym (mod-add-mod (r.header.consumer_read_index + lag) r.capacity (all_size us))
      ∙ ap₂ (λ c n. (c + n) % r.capacity) (sym h.cursor_at) (omega arith);
  room = omega (arith, h.room);
  pending = h.pending;
  sized = h.sized;
}

module _ (r : Ring) (cursor lag : ℕ) (us : List VariableUpdate) (h : Holds r cursor lag us)
    (u : VariableUpdate) (now dropped : ℕ) where
  pub write_fitting :
      lag + all_size us + frame_size u < r.capacity
      → write_upsert u.key u.type u.value u.seq u.source_timestamp_us now dropped r
        ≡ (written_ring u now dropped r, true, r.header.dropped_count)
  write_fitting p =
      write-fits u now dropped r h.small (write_index-lt r cursor lag us h) (omega arith)
        (omega (arith, ring_free-Holds r cursor lag us h))

  pub write_unfitting :
      r.capacity ≤ lag + all_size us + frame_size u
      → write_upsert u.key u.type u.value u.seq u.source_timestamp_us now dropped r ≡ (
        record r { header = record r.header { dropped_count = inc64 r.header.dropped_count } },
        false,
        inc64 r.header.dropped_count,
      )
  write_unfitting p = elim (dec_lt (frame_size u) r.capacity) [
    | yes q ↦
        write_refused u now dropped r (λ e. absurd (omega (arith, h.room)))
          (inr (omega (arith, ring_free-Holds r cursor lag us h, h.room)))
    | no q ↦ write_refused u now dropped r (λ e. absurd (omega (arith, h.room))) (inl (omega arith))
  ]

fits_yes :
    (cap : ℕ) (us : List VariableUpdate) (held : ℕ) (u : VariableUpdate)
    → held + all_size us + frame_size u < cap
    → fits cap us held u ≡ true
unfolding fits
fits_yes cap us held u h = lt→ltb _ _ h

fits_no :
    (cap : ℕ) (us : List VariableUpdate) (held : ℕ) (u : VariableUpdate)
    → cap ≤ held + all_size us + frame_size u
    → fits cap us held u ≡ false
unfolding fits
fits_no cap us held u h = le→ltb _ _ h

-- From a ring of at most 2^31 bytes that holds the unread updates, behind `lag` bytes read but not
-- released, every sequence of writes, reads and releases gets the replies of the bounded queue.
pub run-eq-run_queue :
    (ops : List Op) (r : Ring) (cursor lag : ℕ) (us : List VariableUpdate)
    (h : Holds r cursor lag us)
    → AreSized ops
    → run (record { ring = r; cursor = cursor }) ops ≡ run_queue r.capacity us lag ops
unfolding run run_queue written_ring
run-eq-run_queue [] r cursor lag us h s = refl
run-eq-run_queue (write u now ∷ ops) r cursor lag us h s =
    elim (dec_lt (lag + all_size us + frame_size u) r.capacity) [
      | yes p ↦
          rw (write_fitting r cursor lag us h u now 0 p, fits_yes r.capacity us lag u p)
            (ap (◌∷◌ (written true)) (
              run-eq-run_queue ops _ cursor lag (us ++ (u ∷ []))
                (written-Holds u now 0 r cursor lag us h s.0 p) s.1))
      | no p ↦
          rw
            (
              write_unfitting r cursor lag us h u now 0 (omega arith),
              fits_no r.capacity us lag u (omega arith),
            )
            (ap (◌∷◌ (written false))
              (run-eq-run_queue ops _ cursor lag us (dropped-Holds r cursor lag us _ h) s.1))
    ]
run-eq-run_queue (read now ∷ ops) r cursor lag [] h s =
    rw (read_empty now r cursor lag h)
      (ap (◌∷◌ (got none)) (run-eq-run_queue ops r cursor lag [] h s))
run-eq-run_queue (read now ∷ ops) r cursor lag (u ∷ us) h s =
    rw (read-eq now r cursor lag u us h h.sized.0) (
      ap (◌∷◌ (got (some (delivered u))))
        (run-eq-run_queue ops _ _ _ us (rest-Holds now r cursor lag u us h) s))
run-eq-run_queue (release ∷ ops) r cursor lag us h s =
    ap (◌∷◌ released) (run-eq-run_queue ops _ cursor 0 us (released-Holds r cursor lag us h) s)
