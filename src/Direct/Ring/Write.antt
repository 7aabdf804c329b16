-- ===== src/Direct/Ring/Write.antt =====
-- The writer appends a frame exactly when it fits.
use native.Mathlib.Nat.{mod-add-mod}
use smart_dashboard.Base.{
  ℕ, ◌+◌, ◌%◌, ◌^◌, ◌≤◌, ◌<◌, ◌≡◌, ◌≢◌, ◌⊎◌, inl, inr, sym, ap, ap₂, ◌∙◌, true, false, List, [],
  ◌∷◌, ◌++◌, arith, length, leb, All-append, inc64, lt→ltb, le→ltb, beq_ne, leb_ne, le→leb,
  Bool-cases,
}
use smart_dashboard.Direct.Types.{VariableUpdate, Ring}
use smart_dashboard.Direct.Copy.{ring_free}
use smart_dashboard.Direct.Copy.Wrap.{window, put, window-put}
use smart_dashboard.Direct.Ring.{Cursor, write_upsert}
use smart_dashboard.Direct.Ring.Frames.{IsSized, frame_bytes, frame_size, length-frame_bytes}
use smart_dashboard.Direct.Ring.Emit.{emitted, stages-eq}
use smart_dashboard.Direct.Ring.Holds.{all_size, all_bytes-snoc, all_size-snoc, Holds, cursor-lt}

module _ (u : VariableUpdate) (now dropped : ℕ) (r : Ring) where
  -- What the writer copies, if it does, is the frame, and its cursor ends behind the frame.
  unfoldable pub written_ring : Ring
  written_ring =
      let s = emitted r.capacity (r.payload, r.header.write_index) (frame_bytes u) in
      record r {
        header = record r.header {
          write_index = s.1;
          published_seq = u.seq;
          last_producer_heartbeat_us = now;
        };
        payload = s.0;
      }

  pub write-fits :
      r.capacity ≤ 2 ^ 31
      → r.header.write_index < r.capacity
      → frame_size u < r.capacity
      → frame_size u ≤ ring_free r
      → write_upsert u.key u.type u.value u.seq u.source_timestamp_us now dropped r
        ≡ (written_ring, true, r.header.dropped_count)
  unfolding write_upsert written_ring
  write-fits small inside below fits =
      rw
        (
          beq_ne r.capacity 0 (omega arith),
          leb_ne r.capacity (frame_size u) below,
          le→ltb (ring_free r) (frame_size u) fits,
        )
        (ap
          (λ (s : Cursor). (
            record r {
              header = record r.header {
                write_index = s.1;
                published_seq = u.seq;
                last_producer_heartbeat_us = now;
              };
              payload = s.0;
            },
            true,
            r.header.dropped_count,
          ))
          (stages-eq r.capacity small u (r.payload, r.header.write_index) inside (omega arith)))

  pub write_refused :
      r.capacity ≢ 0
      → (r.capacity ≤ frame_size u) ⊎ (ring_free r < frame_size u)
      → write_upsert u.key u.type u.value u.seq u.source_timestamp_us now dropped r ≡ (
        record r { header = record r.header { dropped_count = inc64 r.header.dropped_count } },
        false,
        inc64 r.header.dropped_count,
      )
  unfolding write_upsert
  write_refused ne (inl b) = rw (beq_ne r.capacity 0 ne, le→leb r.capacity (frame_size u) b)
  write_refused ne (inr b) = elim (Bool-cases (leb r.capacity (frame_size u))) [
    | inl y ↦ rw (beq_ne r.capacity 0 ne, y)
    | inr n ↦ rw (beq_ne r.capacity 0 ne, n, lt→ltb (ring_free r) (frame_size u) b)
  ]

-- A frame that fits is held behind those before it.
pub written-Holds :
    (u : VariableUpdate) (now dropped : ℕ) (r : Ring) (cursor lag : ℕ) (us : List VariableUpdate)
    (h : Holds r cursor lag us)
    → IsSized u
    → lag + all_size us + frame_size u < r.capacity
    → Holds (written_ring u now dropped r) cursor lag (us ++ (u ∷ []))
unfolding written_ring
written-Holds u now dropped r cursor lag us h s fits = record {
  small = h.small;
  read_in = h.read_in;
  cursor_at = h.cursor_at;
  write_at =
      ap (λ w. (w + length (frame_bytes u)) % cap) h.write_at
      ∙ mod-add-mod (cri + (lag + all_size us)) cap (length (frame_bytes u))
      ∙ ap (λ n. n % cap) (omega (arith, length-frame_bytes u, all_size-snoc us u));
  room = omega (arith, all_size-snoc us u);
  pending =
      ap₂ (λ n w. window cap (put cap r.payload w (frame_bytes u)) cursor n)
        (omega (arith, all_size-snoc us u, length-frame_bytes u)) write_index-eq
      ∙ window-put cap cursor (cursor-lt r cursor lag us h) r.payload (frame_bytes u) (all_size us)
          (omega (arith, length-frame_bytes u))
      ∙ ap (λ bs. bs ++ frame_bytes u) h.pending
      ∙ sym (all_bytes-snoc us u);
  sized = All-append IsSized us (u ∷ []) h.sized (s, tt);
}
  where
    cap : ℕ
    cap = r.capacity

    cri : ℕ
    cri = r.header.consumer_read_index

    write_index-eq : r.header.write_index ≡ (cursor + all_size us) % cap
    write_index-eq =
        h.write_at
        ∙ ap (λ n. n % cap) (omega arith)
        ∙ sym (mod-add-mod (cri + lag) cap (all_size us))
        ∙ ap (λ c. (c + all_size us) % cap) (sym h.cursor_at)
