-- ===== src/Direct/Queue.antt =====
-- What the ring promises: a queue of updates, bounded in bytes, that refuses what does not fit.
pub mod Refine
pub mod Attach
use smart_dashboard.Base.{
  ℕ, ◌+◌, ◌<◌, Bool, true, false, List, [], ◌∷◌, ◌++◌, Option, none, some, ltb, if◌then◌else◌,
}
use smart_dashboard.Direct.Types.{VariableUpdate, Ring}
use smart_dashboard.Direct.Ring.{write_upsert, read_next_upsert}
use smart_dashboard.Direct.Ring.Frames.{frame_size, delivered}
use smart_dashboard.Direct.Ring.Holds.{all_size}

-- What the two sides do, each with its reading of the clock: the publisher writes an update, and
-- the subscriber reads the next one, or tells the publisher how far it has read.
pub data Op : Type 0 where
  write : VariableUpdate → ℕ → Op
  read : ℕ → Op
  release : Op

pub data Reply : Type 0 where
  written : Bool → Reply
  got : Option VariableUpdate → Reply
  released : Reply

-- The ring and the subscriber's read cursor.
pub record Link : Type 0 where
  pub ring : Ring
  pub cursor : ℕ

unfoldable pub run : Link → List Op → List Reply
run l [] = []
run l (write u now ∷ ops) =
    let (r, done, _) = write_upsert u.key u.type u.value u.seq u.source_timestamp_us now 0 l.ring in
    written done ∷ run (record l { ring = r }) ops
run l (read now ∷ ops) =
    let (r, c, out) = read_next_upsert now l.ring l.cursor in
    got out ∷ run (record { ring = r; cursor = c }) ops
run l (release ∷ ops) =
    released
    ∷ run
        (record l {
          ring = record l.ring { header = record l.ring.header { consumer_read_index = l.cursor } };
        })
        ops

-- There is room for the frame besides the unread bytes and those read but not released.
unfoldable pub fits : ℕ → List VariableUpdate → ℕ → VariableUpdate → Bool
fits cap us held u = ltb (held + all_size us + frame_size u) cap

-- The replies of the queue: a write succeeds exactly when the frame fits, a read takes the oldest.
unfoldable pub run_queue : ℕ → List VariableUpdate → ℕ → List Op → List Reply
run_queue cap us held [] = []
run_queue cap us held (write u now ∷ ops) =
    written (fits cap us held u)
    ∷ run_queue cap (if fits cap us held u then us ++ (u ∷ []) else us) held ops
run_queue cap [] held (read now ∷ ops) = got none ∷ run_queue cap [] held ops
run_queue cap (u ∷ us) held (read now ∷ ops) =
    got (some (delivered u)) ∷ run_queue cap us (held + frame_size u) ops
run_queue cap us held (release ∷ ops) = released ∷ run_queue cap us 0 ops
