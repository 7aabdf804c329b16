-- ===== src/Direct/Publisher/Replay.antt =====
-- `MaybeReplayRetainedSnapshot` of ClientInterface_direct/src/sd_direct_publisher_stub.cpp, with other
-- threads between its two parts.
use smart_dashboard.Base.{
  ℕ, ◌≡◌, ◌≢◌, ◌⊎◌, refl, ap, ◌∙◌, Bool, true, false, List, [], ◌∷◌, none, some, arith, All,
}
use smart_dashboard.Base.Eq.{bytes_IsEq}
use smart_dashboard.Base.Assoc.{lookup}
use smart_dashboard.Direct.Types.{Ring}
use smart_dashboard.Direct.Publisher.{
  PendingValue, DirectPublisher, new_publisher, consumer_active, copy_retained, merge_copy,
}
use smart_dashboard.Direct.Publisher.Threads.{
  Part, Threads, step, run, fresh, last_published, lookup-insert_all,
}
use smart_dashboard.Direct.Publisher.Latest.{run-retained}

-- The subscriber is there, and was not at the last look, or is another one than then.
abbrev pub IsDue : ℕ → Ring → DirectPublisher → Type 0
IsDue now r p =
    (p.ring ≡ some r)
    × (consumer_active now r.header ≡ true)
    × ((p.consumer_was_active ≡ false)
        ⊎ ((r.header.consumer_instance_id ≢ 0)
            × (r.header.consumer_instance_id ≢ p.last_observed_consumer_instance_id)))

copy_due :
    (now : ℕ) (r : Ring) (p : DirectPublisher)
    → IsDue now r p
    → (copy_retained now p).1 ≡ p.retained
unfolding copy_retained
copy_due now r p (e, a, b) = ground arith

copy_again :
    (now : ℕ) (r : Ring) (p : DirectPublisher)
    → IsDue now r p
    → (copy_retained now (copy_retained now p).0).1 ≡ []
unfolding copy_retained
copy_again now r p (e, a, b) = ground arith

-- A part of the worker's replay.
abbrev pub replays : Part → Bool
replays (Part.look now) = true
replays Part.merge = true
replays _ = false

step-copy : (c : Part) (s : Threads) → replays c ≡ false → (step c s).copy ≡ s.copy
unfolding step
step-copy (Part.begin region d h now) s e = refl
step-copy (Part.retain_value j v) s e = refl
step-copy (Part.stage_value j v) s e = refl
step-copy (Part.flush order clock now) s e = refl
step-copy (Part.close order clock now) s e = refl
step-copy (Part.look now) s e = cc
step-copy Part.merge s e = cc
step-copy (Part.consume heartbeat id read_index) s e = refl

run-copy :
    (cs : List Part) (s : Threads) → All (λ c. replays c ≡ false) cs → (run cs s).copy ≡ s.copy
unfolding run
run-copy [] s h = refl
run-copy (c ∷ cs) s h = run-copy cs (step c s) h.1 ∙ step-copy c s h.0

merge_looked :
    (ds : List Part) (now : ℕ) (r : Ring) (s : Threads) (k : List ℕ) (v : PendingValue)
    → IsDue now r s.publisher
    → All (λ c. replays c ≡ false) ds
    → lookup k s.publisher.retained ≡ some v
    → lookup k (step Part.merge (run ds (step (Part.look now) s))).publisher.pending ≡ some v
unfolding step merge_copy
merge_looked ds now r s k v due quiet e =
    let s' = run ds (step (Part.look now) s) in
    let same : s'.copy ≡ s.publisher.retained =
      run-copy ds (step (Part.look now) s) quiet ∙ copy_due now r s.publisher due in
    lookup-insert_all k s'.copy s'.publisher.pending
    ∙ ap (λ o. elim o [ none ↦ lookup k s'.publisher.pending | some w ↦ some w ])
        (ap (lookup k) same ∙ e)

-- When the worker looks and finds a subscriber that was not there at its last look, or another one
-- than then, its merge stages for every key that was published before the look the value that was
-- published last before it, whatever the other threads do in between; and a second look at once
-- copies nothing.
pub look-merge :
    (cs ds : List Part) (bytes now : ℕ) (r : Ring)
    → let s = run cs (fresh bytes) in
      IsDue now r s.publisher
      → All (λ c. replays c ≡ false) ds
      → ((k : List ℕ) (v : PendingValue)
          → last_published k cs none ≡ some v
          → lookup k (step Part.merge (run ds (step (Part.look now) s))).publisher.pending ≡ some v)
        × ((copy_retained now (copy_retained now s.publisher).0).1 ≡ [])
unfolding new_publisher lookup
look-merge cs ds bytes now r due quiet =
    let s = run cs (fresh bytes) in
    (
      λ k v e. merge_looked ds now r s k v due quiet (run-retained cs k (fresh bytes) ∙ e),
      copy_again now r s.publisher due,
    )
