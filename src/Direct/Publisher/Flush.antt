-- ===== src/Direct/Publisher/Flush.antt =====
-- What a flush leaves in the ring.
use smart_dashboard.Base.{
  ℕ, suc, ◌+◌, ◌%◌, ◌≡◌, ◌∙◌, refl, sym, ap, subst, true, false, List, [], ◌∷◌, ◌++◌, some,
  if◌then◌else◌, ltb, arith, length, All, append-nil, append_assoc, inc64, u64_mod, lt→ltb, le→ltb,
}
use native.Mathlib.Decide.{dec_lt}
use smart_dashboard.Direct.Types.{VariableUpdate, Ring}
use smart_dashboard.Direct.Ring.Frames.{IsSized, frame_size}
use smart_dashboard.Direct.Ring.Holds.{all_size, Holds}
use smart_dashboard.Direct.Ring.Write.{written_ring, written-Holds}
use smart_dashboard.Direct.Queue.Refine.{dropped-Holds, write_fitting, write_unfitting}
use smart_dashboard.Direct.Publisher.{
  PendingValue, PendingMap, DirectPublisher, FlushState, flush_entry, flush_entries, flush_now,
}

-- The update that an entry becomes: its value, the sequence number after `seq`, and the time.
abbrev pub stamped : ℕ → ℕ → List ℕ → PendingValue → VariableUpdate
stamped seq time key v = record {
  key = key;
  type = v.type;
  value = v.value;
  seq = inc64 seq;
  source_timestamp_us = time;
}

-- The updates of a flush, in order, with numbers that go on from `seq`.
unfoldable pub stamp_all : (ℕ → ℕ) → ℕ → PendingMap → List VariableUpdate
stamp_all clock seq [] = []
stamp_all clock seq ((key, v) ∷ es) =
    stamped seq (clock 0) key v ∷ stamp_all (λ n. clock (suc (suc n))) (inc64 seq) es

-- The updates that find room when `used` bytes of the ring are taken.
unfoldable pub admitted : ℕ → ℕ → List VariableUpdate → List VariableUpdate
admitted cap used [] = []
admitted cap used (u ∷ us) =
    let room = admitted cap (used + frame_size u) us in
    let full = admitted cap used us in if ltb (used + frame_size u) cap then u ∷ room else full

-- The state of a flush on a ring that holds the updates.
abbrev FlushHolds : FlushState → ℕ → ℕ → ℕ → List VariableUpdate → Type 0
FlushHolds s cap cursor lag us =
    (r : Ring) × (s.ring ≡ some r) × (r.capacity ≡ cap) × Holds r cursor lag us

entry-FlushHolds :
    (time now : ℕ) (key : List ℕ) (v : PendingValue) (s : FlushState) (cap cursor lag : ℕ)
    (us : List VariableUpdate)
    → FlushHolds s cap cursor lag us
    → IsSized (stamped s.published_seq time key v)
    → FlushHolds
        (flush_entry time now key v s)
        cap
        cursor
        lag
        (us ++ admitted cap (lag + all_size us) (stamped s.published_seq time key v ∷ []))
unfolding flush_entry admitted written_ring
entry-FlushHolds time now key v s cap cursor lag us (r, e, c, h) sized =
    elim (dec_lt (lag + all_size us + frame_size u) cap) [
      | yes p ↦
          rw
            (e, lt→ltb _ _ p, write_fitting r cursor lag us h u now s.dropped (omega (arith, c, p)))
            (
              _,
              refl,
              c,
              written-Holds u now s.dropped r cursor lag us h sized (omega (arith, c, p)),
            )
      | no p ↦
          rw
            (
              e,
              le→ltb (lag + all_size us + frame_size u) cap (omega arith),
              write_unfitting r cursor lag us h u now s.dropped (omega (arith, c)),
              append-nil us,
            )
            (_, refl, c, dropped-Holds r cursor lag us _ h)
    ]
  where
    u : VariableUpdate
    u = stamped s.published_seq time key v

all_size-append : (us vs : List VariableUpdate) → all_size (us ++ vs) ≡ all_size us + all_size vs
all_size-append [] vs = omega arith
all_size-append (u ∷ us) vs = omega (arith, all_size-append us vs)

admitted-cons :
    (cap used : ℕ) (u : VariableUpdate) (vs : List VariableUpdate)
    → admitted cap used (u ∷ vs)
      ≡ admitted cap used (u ∷ []) ++ admitted cap (used + all_size (admitted cap used (u ∷ []))) vs
unfolding admitted
admitted-cons cap used u vs = elim (dec_lt (used + frame_size u) cap) [
  | yes p ↦ rw (lt→ltb _ _ p) (ap (λ n. u ∷ admitted cap n vs) (omega arith))
  | no p ↦
      rw (le→ltb (used + frame_size u) cap (omega arith))
        (ap (λ n. admitted cap n vs) (omega arith))
]

published_seq-flush_entry :
    (time now : ℕ) (key : List ℕ) (v : PendingValue) (s : FlushState)
    → (flush_entry time now key v s).published_seq ≡ inc64 s.published_seq
unfolding flush_entry
published_seq-flush_entry time now key v s = ground arith

entries-FlushHolds :
    (clock : ℕ → ℕ) (es : PendingMap) (s : FlushState) (cap cursor lag : ℕ)
    (us : List VariableUpdate)
    → FlushHolds s cap cursor lag us
    → All IsSized (stamp_all clock s.published_seq es)
    → FlushHolds
        (flush_entries clock es s)
        cap
        cursor
        lag
        (us ++ admitted cap (lag + all_size us) (stamp_all clock s.published_seq es))
unfolding flush_entries stamp_all admitted
entries-FlushHolds clock [] s cap cursor lag us h k = rw (append-nil us) h
entries-FlushHolds clock ((key, v) ∷ es) s cap cursor lag us h k =
    subst (FlushHolds (flush_entries next es s') cap cursor lag) joined (
      entries-FlushHolds next es s' cap cursor lag (us ++ one)
        (entry-FlushHolds (clock 0) (clock 1) key v s cap cursor lag us h k.0) (rw seq k.1))
  where
    next : ℕ → ℕ
    next n = clock (suc (suc n))

    u : VariableUpdate
    u = stamped s.published_seq (clock 0) key v

    one : List VariableUpdate
    one = admitted cap (lag + all_size us) (u ∷ [])

    s' : FlushState
    s' = flush_entry (clock 0) (clock 1) key v s

    seq : s'.published_seq ≡ inc64 s.published_seq
    seq = published_seq-flush_entry (clock 0) (clock 1) key v s

    rest : List VariableUpdate
    rest = stamp_all next (inc64 s.published_seq) es

    joined :
        (us ++ one)
          ++ admitted cap (lag + all_size (us ++ one)) (stamp_all next s'.published_seq es)
        ≡ us ++ admitted cap (lag + all_size us) (u ∷ rest)
    joined =
        ap (λ n. (us ++ one) ++ admitted cap (lag + all_size (us ++ one)) (stamp_all next n es)) seq
        ∙ ap (λ n. (us ++ one) ++ admitted cap n rest) (omega (arith, all_size-append us one))
        ∙ append_assoc us one _
        ∙ ap (◌++◌ us) (sym (admitted-cons cap (lag + all_size us) u rest))

published_seq-flush_entries :
    (clock : ℕ → ℕ) (es : PendingMap) (s : FlushState)
    → (flush_entries clock es s).published_seq % u64_mod ≡ (s.published_seq + length es) % u64_mod
unfolding flush_entries
published_seq-flush_entries clock [] s = omega arith
published_seq-flush_entries clock ((key, v) ∷ es) s = omega (
  arith,
  published_seq-flush_entries (λ n. clock (suc (suc n))) es
      (flush_entry (clock 0) (clock 1) key v s),
  published_seq-flush_entry (clock 0) (clock 1) key v s,
)

beat-Holds :
    (r : Ring) (now cursor lag : ℕ) (us : List VariableUpdate)
    → Holds r cursor lag us
    → Holds
        (record r { header = record r.header { last_producer_heartbeat_us = now } })
        cursor
        lag
        us
beat-Holds r now cursor lag us h = record {
  small = h.small;
  read_in = h.read_in;
  cursor_at = h.cursor_at;
  write_at = h.write_at;
  room = h.room;
  pending = h.pending;
  sized = h.sized;
}

-- The publisher is running on a ring that holds the updates.
abbrev pub PublisherHolds : DirectPublisher → ℕ → ℕ → ℕ → List VariableUpdate → Type 0
PublisherHolds p cap cursor lag us =
    (p.running ≡ true)
    × ((r : Ring) × (p.ring ≡ some r) × (r.capacity ≡ cap) × Holds r cursor lag us)

-- A flush of a running publisher puts the staged values behind what the ring holds, in the order of
-- its traversal and with consecutive sequence numbers, leaving out those that find no room, and
-- nothing stays staged.
pub flush-appends :
    (order : PendingMap → PendingMap) (clock : ℕ → ℕ) (now : ℕ) (p : DirectPublisher)
    (cap cursor lag : ℕ) (us : List VariableUpdate)
    → PublisherHolds p cap cursor lag us
    → All IsSized (stamp_all clock p.published_seq (order p.pending))
    → let (p', done) = flush_now order clock now p in
      (done ≡ true)
      × (p'.pending ≡ [])
      × (p'.published_seq % u64_mod ≡ (p.published_seq + length (order p.pending)) % u64_mod)
      × PublisherHolds p' cap cursor lag (
          us
          ++ admitted cap (lag + all_size us) (stamp_all clock p.published_seq (order p.pending)))
unfolding flush_now
flush-appends order clock now p cap cursor lag us (run, h) k =
    let s : FlushState = record {
      ring = p.ring;
      published_seq = p.published_seq;
      dropped_count = p.dropped_count;
      dropped = p.dropped_count;
      published_anything = false;
    } in
    let (r, e, c, g) = entries-FlushHolds clock (order p.pending) s cap cursor lag us h k in
    simp (run, e)
      (
        refl,
        refl,
        published_seq-flush_entries clock (order p.pending) s,
        (refl, (_, refl, c, beat-Holds r now cursor lag _ g)),
      )
