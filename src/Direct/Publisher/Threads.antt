-- ===== src/Direct/Publisher/Threads.antt =====
-- Threads that use a publisher of ClientInterface_direct/src/sd_direct_publisher_stub.cpp at once.
use smart_dashboard.Base.{
  if_keeps, ℕ, ◌≡◌, ◌⊎◌, refl, inl, inr, Bool, true, false, not, List, [], ◌∷◌, Option, none, some,
  if◌then◌else◌, arith, Bool-cases,
}
use smart_dashboard.Base.Eq.{beq, bytes_IsEq}
use smart_dashboard.Base.Assoc.{lookup, lookup-insert}
use smart_dashboard.Direct.Types.{RingHeader}
use smart_dashboard.Direct.Bytes.{Memory}
use smart_dashboard.Direct.Publisher.{
  PendingValue, PendingMap, DirectPublisher, new_publisher, start, retain, stage, flush_now, stop,
  insert_all, copy_retained, merge_copy,
}

-- What runs without another thread between: a call, one of the two parts of `StorePending` or of the
-- worker's `MaybeReplayRetainedSnapshot`, or the stores of a subscriber to the shared header.
pub data Part : Type 0 where
  begin : (ℕ → Option (Option (RingHeader × Memory) × ℕ)) → Bool → Bool → ℕ → Part
  retain_value stage_value : List ℕ → PendingValue → Part
  flush close : (PendingMap → PendingMap) → (ℕ → ℕ) → ℕ → Part
  look : ℕ → Part
  merge : Part
  consume : ℕ → ℕ → ℕ → Part

-- A publisher, and the `retainedCopy` of its worker.
pub record Threads : Type 0 where
  pub publisher : DirectPublisher
  pub copy : PendingMap

unfoldable pub consumed : ℕ → ℕ → ℕ → DirectPublisher → DirectPublisher
consumed heartbeat id read_index p = elim p.ring [
  | none ↦ p
  | some r ↦ record p {
    ring = some (record r {
      header = record r.header {
        last_consumer_heartbeat_us = heartbeat;
        consumer_instance_id = id;
        consumer_read_index = read_index;
      };
    });
  }
]

unfoldable pub step : Part → Threads → Threads
step (Part.begin region d h now) s = record s { publisher = (start region d h now s.publisher).0 }
step (Part.retain_value k v) s = record s { publisher = retain k v s.publisher }
step (Part.stage_value k v) s = record s { publisher = stage k v s.publisher }
step (Part.flush order clock now) s = record s {
  publisher = (flush_now order clock now s.publisher).0;
}
step (Part.close order clock now) s = record s { publisher = stop order clock now s.publisher }
step (Part.look now) s =
    let (p, copy) = copy_retained now s.publisher in record { publisher = p; copy = copy }
step Part.merge s = record { publisher = merge_copy s.copy s.publisher; copy = [] }
step (Part.consume heartbeat id read_index) s = record s {
  publisher = consumed heartbeat id read_index s.publisher;
}

unfoldable pub run : List Part → Threads → Threads
run [] s = s
run (c ∷ cs) s = run cs (step c s)

abbrev pub fresh : ℕ → Threads
fresh bytes = record { publisher = new_publisher bytes; copy = [] }

-- The value that the last call that publishes the key gives it, in the order of the first lock.
unfoldable pub last_published : List ℕ → List Part → Option PendingValue → Option PendingValue
last_published k [] o = o
last_published k (Part.retain_value j v ∷ cs) o =
    last_published k cs (if beq j k then some v else o)
last_published k (_ ∷ cs) o = last_published k cs o

-- Every value that a call publishes for the key satisfies P.
abbrev pub PublishesOnly : List ℕ → (PendingValue → Type 0) → List Part → Type 0
PublishesOnly k P [] = Unit
PublishesOnly k P (Part.retain_value j v ∷ cs) = (beq j k ≡ true → P v) × PublishesOnly k P cs
PublishesOnly k P (Part.stage_value j v ∷ cs) = (beq j k ≡ true → P v) × PublishesOnly k P cs
PublishesOnly k P (_ ∷ cs) = PublishesOnly k P cs

pub lookup-insert_all :
    (k : List ℕ) (es m : PendingMap)
    → lookup k (insert_all es m) ≡ elim (lookup k es) [ none ↦ lookup k m | some v ↦ some v ]
unfolding insert_all lookup
lookup-insert_all k [] m = refl
lookup-insert_all k ((j, v) ∷ es) m =
    ground (arith, lookup-insert j k v (insert_all es m), lookup-insert_all k es m)

-- A change that retains the same, and stages the same or nothing.
abbrev pub IsKept : DirectPublisher → DirectPublisher → Type 0
IsKept p p' = (p'.retained ≡ p.retained) × ((p'.pending ≡ []) ⊎ (p'.pending ≡ p.pending))

pub flush-IsKept :
    (order : PendingMap → PendingMap) (clock : ℕ → ℕ) (now : ℕ) (p : DirectPublisher)
    → IsKept p (flush_now order clock now p).0
unfolding flush_now
flush-IsKept order clock now p = elim (Bool-cases p.running) [
  | inl y ↦ rw y (refl, inl refl)
  | inr n ↦ rw n (refl, inr refl)
]

pub stop-IsKept :
    (order : PendingMap → PendingMap) (clock : ℕ → ℕ) (now : ℕ) (p : DirectPublisher)
    → IsKept p (stop order clock now p)
unfolding stop
stop-IsKept order clock now p =
    if_keeps (IsKept p) (not p.running) p
      (record (flush_now order clock now p).0 { running = false; consumer_was_active = false })
      (refl, inr refl) (flush-IsKept order clock now p)

pub start-IsKept :
    (region : ℕ → Option (Option (RingHeader × Memory) × ℕ)) (d h : Bool) (now : ℕ)
    (p : DirectPublisher)
    → IsKept p (start region d h now p).0
unfolding start
start-IsKept region d h now p = ground arith

pub copy_retained-IsKept : (now : ℕ) (p : DirectPublisher) → IsKept p (copy_retained now p).0
unfolding copy_retained
copy_retained-IsKept now p = ground arith

-- What is copied is nothing or all that is retained.
pub copied :
    (now : ℕ) (p : DirectPublisher)
    → ((copy_retained now p).1 ≡ []) ⊎ ((copy_retained now p).1 ≡ p.retained)
unfolding copy_retained
copied now p = ground arith

pub consumed-IsKept :
    (heartbeat id read_index : ℕ) (p : DirectPublisher)
    → IsKept p (consumed heartbeat id read_index p)
unfolding consumed
consumed-IsKept heartbeat id read_index p = ground arith
