-- ===== src/Direct/Subscriber/Drain.antt =====
-- What a pass of the subscriber delivers.
use smart_dashboard.Base.{
  ℕ, zero, suc, ◌<◌, ◌≡◌, refl, sym, subst, ap, true, List, [], ◌∷◌, map, Option, none, some, arith,
  length,
}
use smart_dashboard.Direct.Types.{VariableUpdate, Ring}
use smart_dashboard.Direct.Ring.Frames.{delivered}
use smart_dashboard.Direct.Ring.Holds.{Holds}
use smart_dashboard.Direct.Ring.Read.{read-eq, rest-Holds}
use smart_dashboard.Direct.Queue.Refine.{read_empty, released-Holds}
use smart_dashboard.Direct.Subscriber.{DirectSubscriber, drain, pass}

-- The number of the last update, or the one before if there is none.
abbrev pub last_number : ℕ → List VariableUpdate → ℕ
last_number n [] = n
last_number n (u ∷ us) = last_number u.seq us

-- What a drain of a ring that holds the updates leaves and returns.
abbrev IsDrained : ℕ → List VariableUpdate → Ring × ℕ × ℕ × List VariableUpdate → ℕ → Type 0
IsDrained cap us (r, cursor, seq, out) last_seq =
    (r.capacity ≡ cap)
    × ((lag : ℕ) × Holds r cursor lag [])
    × (seq ≡ last_number last_seq us)
    × (out ≡ map delivered us)

-- The body of the loop behind the read.
abbrev continued :
    ℕ → (ℕ → ℕ) → ℕ → Ring × ℕ × Option VariableUpdate → Ring × ℕ × ℕ × List VariableUpdate
continued fuel clock last_seq (r, cursor, out) = elim out [
  | none ↦ (r, cursor, last_seq, [])
  | some u ↦
      let (r', cursor', seq, us) = drain fuel (λ n. clock (suc n)) r cursor u.seq in
      (r', cursor', seq, u ∷ us)
]

drain-Holds :
    (us : List VariableUpdate) (fuel : ℕ) (clock : ℕ → ℕ) (r : Ring) (cursor lag last_seq : ℕ)
    → Holds r cursor lag us
    → length us < fuel
    → IsDrained r.capacity us (drain fuel clock r cursor last_seq) last_seq
unfolding drain
drain-Holds us zero clock r cursor lag last_seq h k = absurd (omega arith)
drain-Holds [] (suc fuel) clock r cursor lag last_seq h k =
    subst (λ x. IsDrained r.capacity [] (continued fuel clock last_seq x) last_seq)
      (sym (read_empty (clock 0) r cursor lag h)) (refl, (lag, h), refl, refl)
drain-Holds (u ∷ us) (suc fuel) clock r cursor lag last_seq h k =
    let (a, b, c, d) =
      drain-Holds us fuel (λ n. clock (suc n)) _ _ _ u.seq
        (rest-Holds (clock 0) r cursor lag u us h) (omega arith) in
    subst (λ x. IsDrained r.capacity (u ∷ us) (continued fuel clock last_seq x) last_seq)
      (sym (read-eq (clock 0) r cursor lag u us h h.sized.0)) (a, b, c, ap (◌∷◌ (delivered u)) d)

marked-Holds :
    (r : Ring) (instance_id now cursor lag : ℕ) (us : List VariableUpdate)
    → Holds r cursor lag us
    → Holds
        (record r {
          header = record r.header {
            consumer_instance_id = instance_id;
            consumer_read_index = cursor;
            last_consumer_heartbeat_us = now;
          };
        })
        cursor
        0
        us
marked-Holds r instance_id now cursor lag us h =
    let g = released-Holds r cursor lag us h in
    record {
      small = g.small;
      read_in = g.read_in;
      cursor_at = g.cursor_at;
      write_at = g.write_at;
      room = g.room;
      pending = g.pending;
      sized = g.sized;
    }

-- What a pass at the time `now` does with the updates.
abbrev pub IsPassed :
    List VariableUpdate
    → Ring
    → DirectSubscriber
    → ℕ
    → DirectSubscriber × List VariableUpdate
    → Type 0
IsPassed us r s now (s', out) =
    (out ≡ map delivered us)
    × (s'.last_seq ≡ last_number s.last_seq us)
    × ((r' : Ring) × (s'.ring ≡ some r')
        × (r'.capacity ≡ r.capacity)
        × Holds r' s'.read_cursor 0 []
        × (r'.header.consumer_instance_id ≡ s.instance_id)
        × (r'.header.last_consumer_heartbeat_us ≡ now))

pass_attached :
    (fuel : ℕ) (clock : ℕ → ℕ) (now : ℕ) (s : DirectSubscriber) (r : Ring) (lag : ℕ)
    (us : List VariableUpdate)
    → Holds r s.read_cursor lag us
    → length us < fuel
    → IsPassed us r s now (pass fuel true clock now (record s { ring = some r }))
unfolding pass
pass_attached fuel clock now s r lag us h k =
    let (a, b, c, d) = drain-Holds us fuel clock r s.read_cursor lag s.last_seq h k in
    (d, c, (_, refl, a, marked-Holds _ s.instance_id now _ _ _ b.1, refl, refl))

-- A pass of a subscriber that was woken, on a ring that holds some updates, with fuel for one read
-- more than there are, hands each over in order and remembers the last number; it leaves the ring
-- empty and released up to its cursor, with its own heartbeat and name.
pub pass-delivers :
    (fuel : ℕ) (clock : ℕ → ℕ) (now : ℕ) (s : DirectSubscriber) (r : Ring) (lag : ℕ)
    (us : List VariableUpdate)
    → s.ring ≡ some r
    → Holds r s.read_cursor lag us
    → length us < fuel
    → IsPassed us r s now (pass fuel true clock now s)
pass-delivers fuel clock now s r lag us e h k =
    subst (λ x. IsPassed us r s now (pass fuel true clock now (record s { ring = x }))) (sym e)
      (pass_attached fuel clock now s r lag us h k)
