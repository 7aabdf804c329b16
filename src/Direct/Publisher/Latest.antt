-- ===== src/Direct/Publisher/Latest.antt =====
-- What a publisher of ClientInterface_direct/src/sd_direct_publisher_stub.cpp retains and stages, however
-- its threads take turns.
use smart_dashboard.Base.{
  ℕ, ◌≡◌, refl, sym, ap, ◌∙◌, subst, inl, inr, true, List, [], ◌∷◌, Option, none, some, Bool-cases,
}
use smart_dashboard.Base.Eq.{beq, bytes_IsEq}
use smart_dashboard.Base.Assoc.{lookup, insert, lookup-insert}
use smart_dashboard.Direct.Publisher.{
  PendingValue, PendingMap, DirectPublisher, new_publisher, start, flush_now, stop, retain, stage,
  copy_retained, merge_copy,
}
use smart_dashboard.Direct.Publisher.Threads.{
  Part, Threads, step, run, fresh, last_published, PublishesOnly, lookup-insert_all, IsKept,
  flush-IsKept, stop-IsKept, start-IsKept, copy_retained-IsKept, copied, consumed, consumed-IsKept,
}

abbrev Satisfies : (PendingValue → Type 0) → Option PendingValue → Type 0
Satisfies P none = Unit
Satisfies P (some v) = P v

module _ (k : List ℕ) (P : PendingValue → Type 0) where
  -- The key has no value in the map, or one that satisfies P.
  abbrev In : PendingMap → Type 0
  In m = Satisfies P (lookup k m)

  abbrev IsSourced : Threads → Type 0
  IsSourced s = In s.publisher.retained × In s.publisher.pending × In s.copy

  nothing-In : In []
  nothing-In = unfold lookup in tt

  insert-In :
      (j : List ℕ) (v : PendingValue) (m : PendingMap)
      → (beq j k ≡ true → P v)
      → In m
      → In (insert j v m)
  insert-In j v m h i =
      subst (Satisfies P) (sym (lookup-insert j k v m))
        (elim (Bool-cases (beq j k)) [ inl y ↦ rw y (h y) | inr n ↦ rw n i ])

  kept-In :
      (p p' : DirectPublisher)
      → IsKept p p'
      → In p.retained × In p.pending
      → In p'.retained × In p'.pending
  kept-In p p' (e, inl f) (r, q) = (subst In (sym e) r, subst In (sym f) nothing-In)
  kept-In p p' (e, inr f) (r, q) = (subst In (sym e) r, subst In (sym f) q)

  over-In :
      (o p : Option PendingValue)
      → Satisfies P o
      → Satisfies P p
      → Satisfies P (elim o [ none ↦ p | some v ↦ some v ])
  over-In none p h i = i
  over-In (some v) p h i = h

  kept-IsSourced :
      (s : Threads) (p' : DirectPublisher)
      → IsKept s.publisher p'
      → IsSourced s
      → IsSourced (record s { publisher = p' })
  kept-IsSourced s p' h (r, q, c) = let (r', q') = kept-In s.publisher p' h (r, q) in (r', q', c)

  step-IsSourced :
      (c : Part) (s : Threads) → PublishesOnly k P (c ∷ []) → IsSourced s → IsSourced (step c s)
  unfolding step retain stage merge_copy
  step-IsSourced (Part.begin region d h now) s o i =
      kept-IsSourced s (start region d h now s.publisher).0
        (start-IsKept region d h now s.publisher) i
  step-IsSourced (Part.retain_value j v) s o (r, q, c) =
      (insert-In j v s.publisher.retained o.0 r, q, c)
  step-IsSourced (Part.stage_value j v) s o (r, q, c) =
      (r, insert-In j v s.publisher.pending o.0 q, c)
  step-IsSourced (Part.flush order clock now) s o i =
      kept-IsSourced s (flush_now order clock now s.publisher).0
        (flush-IsKept order clock now s.publisher) i
  step-IsSourced (Part.close order clock now) s o i =
      kept-IsSourced s (stop order clock now s.publisher) (stop-IsKept order clock now s.publisher)
        i
  step-IsSourced (Part.look now) s o (r, q, c) =
      let (r', q') =
        kept-In s.publisher (copy_retained now s.publisher).0 (copy_retained-IsKept now s.publisher)
          (r, q) in
      (
        r',
        q',
        elim (copied now s.publisher) [
          | inl e ↦ subst In (sym e) nothing-In
          | inr e ↦ subst In (sym e) r
        ],
      )
  step-IsSourced Part.merge s o (r, q, c) = (
    r,
    subst (Satisfies P) (sym (lookup-insert_all k s.copy s.publisher.pending))
        (over-In (lookup k s.copy) (lookup k s.publisher.pending) c q),
    nothing-In,
  )
  step-IsSourced (Part.consume heartbeat id read_index) s o i =
      kept-IsSourced s (consumed heartbeat id read_index s.publisher)
        (consumed-IsKept heartbeat id read_index s.publisher) i

  PublishesOnly-cons :
      (c : Part) (cs : List Part)
      → PublishesOnly k P (c ∷ cs)
      → PublishesOnly k P (c ∷ []) × PublishesOnly k P cs
  PublishesOnly-cons (Part.begin region d h now) cs o = (tt, o)
  PublishesOnly-cons (Part.retain_value j v) cs o = ((o.0, tt), o.1)
  PublishesOnly-cons (Part.stage_value j v) cs o = ((o.0, tt), o.1)
  PublishesOnly-cons (Part.flush order clock now) cs o = (tt, o)
  PublishesOnly-cons (Part.close order clock now) cs o = (tt, o)
  PublishesOnly-cons (Part.look now) cs o = (tt, o)
  PublishesOnly-cons Part.merge cs o = (tt, o)
  PublishesOnly-cons (Part.consume heartbeat id read_index) cs o = (tt, o)

  run-IsSourced :
      (cs : List Part) (s : Threads) → PublishesOnly k P cs → IsSourced s → IsSourced (run cs s)
  unfolding run
  run-IsSourced [] s o i = i
  run-IsSourced (c ∷ cs) s o i =
      let (first, rest) = PublishesOnly-cons c cs o in
      run-IsSourced cs (step c s) rest (step-IsSourced c s first i)

step-retained :
    (c : Part) (k : List ℕ) (s : Threads)
    → lookup k (step c s).publisher.retained
      ≡ last_published k (c ∷ []) (lookup k s.publisher.retained)
unfolding step last_published retain stage merge_copy
step-retained (Part.begin region d h now) k s =
    ap (lookup k) (start-IsKept region d h now s.publisher).0
step-retained (Part.retain_value j v) k s = lookup-insert j k v s.publisher.retained
step-retained (Part.stage_value j v) k s = refl
step-retained (Part.flush order clock now) k s =
    ap (lookup k) (flush-IsKept order clock now s.publisher).0
step-retained (Part.close order clock now) k s =
    ap (lookup k) (stop-IsKept order clock now s.publisher).0
step-retained (Part.look now) k s = ap (lookup k) (copy_retained-IsKept now s.publisher).0
step-retained Part.merge k s = refl
step-retained (Part.consume heartbeat id read_index) k s =
    ap (lookup k) (consumed-IsKept heartbeat id read_index s.publisher).0

last_published-cons :
    (k : List ℕ) (c : Part) (cs : List Part) (o : Option PendingValue)
    → last_published k (c ∷ cs) o ≡ last_published k cs (last_published k (c ∷ []) o)
unfolding last_published
last_published-cons k (Part.begin region d h now) cs o = refl
last_published-cons k (Part.retain_value j v) cs o = refl
last_published-cons k (Part.stage_value j v) cs o = refl
last_published-cons k (Part.flush order clock now) cs o = refl
last_published-cons k (Part.close order clock now) cs o = refl
last_published-cons k (Part.look now) cs o = refl
last_published-cons k Part.merge cs o = refl
last_published-cons k (Part.consume heartbeat id read_index) cs o = refl

pub run-retained :
    (cs : List Part) (k : List ℕ) (s : Threads)
    → lookup k (run cs s).publisher.retained ≡ last_published k cs (lookup k s.publisher.retained)
unfolding run
run-retained [] k s = unfold last_published in refl
run-retained (c ∷ cs) k s =
    run-retained cs k (step c s)
    ∙ ap (last_published k cs) (step-retained c k s)
    ∙ sym (last_published-cons k c cs (lookup k s.publisher.retained))

-- However calls, the parts of publishing and of replaying, and a subscriber's stores follow one another
-- on a new publisher, the value retained for a key is the one that was published last for it, and a
-- value that is staged for the key is one that was published for it: it satisfies whatever all of
-- these satisfy.
pub run-published :
    (cs : List Part) (bytes : ℕ) (k : List ℕ) (P : PendingValue → Type 0)
    → PublishesOnly k P cs
    → let p = (run cs (fresh bytes)).publisher in
      (lookup k p.retained ≡ last_published k cs none)
      × ((v : PendingValue) → lookup k p.pending ≡ some v → P v)
unfolding new_publisher lookup
run-published cs bytes k P o = (
  run-retained cs k (fresh bytes),
  (λ v e. subst (Satisfies P) e (run-IsSourced k P cs (fresh bytes) o (tt, tt, tt)).1),
)
