-- ===== src/Network/Sync/Barrier.antt =====
-- What the synchroniser is for: a layer ends only when each of its senders has been heard once.
use bmrng.Prelude.{
  ℕ, suc, ◌+◌, ◌<◌, ◌≡◌, inl, inr, Bool, true, false, Option, some, length, get_elem?, set,
  length-set, length-replicate, arith,
}
use bmrng.Prelude.Int.{ℤ, pos}
use bmrng.Prelude.Outcome.{ok}
use bmrng.Network.Sync.{Synchronizer, mark, mark_index, done, trigger, reset, next_stage, Callback}
use bmrng.Network.Sync.Marking.{get_elem?-lt}
use bmrng.Network.Sync.System.{
  System, Step, pass, enter, refuse, leave, give_up, leave_refused, fire, kick, restart, is_due,
  Reach, here, next, start, count_fired, count_true, count_true-le, first_unmarked, count_true-set,
  count_true-replicate, count_true_full, Inv, start-Inv, Marked, mark-Marked,
}

enter-Inv :
    (y : System) (n : ℕ) (s : Synchronizer)
    → Inv y
    → Marked y.sync s
    → Inv (record y { sync = s; passed = n; inside = suc y.inside })
enter-Inv y n s v m = ground (
  arith,
  m.result,
  length-set y.sync.started m.index true,
  count_true-set y.sync.started m.index m.unmarked,
)

leave-Inv :
    (y : System) (n : ℕ) (s : Synchronizer) (fired : Bool)
    → Inv y
    → y.inside ≡ suc n
    → done y.sync ≡ ok (s, fired)
    → Inv (record y { sync = s; inside = n; triggers = count_fired fired y.triggers })
unfolding done
leave-Inv y n s fired v e h = ground (arith, count_true-le y.sync.started)

leave_refused-Inv :
    (y : System) (n : ℕ) (s : Synchronizer) (fired : Bool)
    → Inv y
    → done y.sync ≡ ok (s, fired)
    → Inv (record y {
      sync = s;
      refused = n;
      triggers = count_fired fired y.triggers;
      disturbed = suc y.disturbed;
    })
unfolding done
leave_refused-Inv y n s fired v h = ground (arith, count_true-le y.sync.started)

fire-Inv :
    (y : System) (n : ℕ)
    → Inv y
    → y.triggers ≡ suc n
    → Inv (record y { sync = trigger y.sync; triggers = n })
unfolding trigger
fire-Inv y n v e =
    let size = (next_stage y.sync).0 in
    ground
      (arith, count_true-le y.sync.started, length-replicate size false, count_true-replicate size)

kick-Inv :
    (y : System)
    → Inv y
    → Inv (record y {
      sync = trigger y.sync;
      disturbed = y.disturbed + (count_true y.sync.started + y.triggers);
    })
unfolding trigger
kick-Inv y v =
    let size = (next_stage y.sync).0 in
    ground
      (arith, count_true-le y.sync.started, length-replicate size false, count_true-replicate size)

restart-Inv :
    (y : System) (round layer : ℤ) (threshold : ℕ)
    → Inv y
    → Inv (record y {
      sync = reset y.sync round layer threshold;
      disturbed = y.disturbed + (y.inside + y.triggers);
    })
unfolding reset
restart-Inv y round layer threshold v =
    ground (arith, length-replicate threshold false, count_true-replicate threshold)

Step-Inv : {y z : System} → Step y z → Inv y → Inv z
Step-Inv (pass y layer h) v = ground (arith, v)
Step-Inv (enter y n id s e h) v = enter-Inv y n s v (mark-Marked y.sync id s h)
Step-Inv (refuse y n id why e h) v = ground (arith, v)
Step-Inv (leave y n s fired e h) v = leave-Inv y n s fired v e h
Step-Inv (give_up y n e) v = ground (arith, v)
Step-Inv (leave_refused y n s fired e h) v = leave_refused-Inv y n s fired v h
Step-Inv (fire y n e) v = fire-Inv y n v e
Step-Inv (kick y) v = kick-Inv y v
Step-Inv (restart y round layer threshold) v = restart-Inv y round layer threshold v

-- What holds of a synchroniser however the server's calls interleave. There is one slot for each
-- message expected, no more messages are counted than that, there are no more marks than messages
-- counted and callers inside, and while all expected messages, at least one, have been counted, a
-- trigger is outstanding. As long as no refused caller has called `Done`, no `Trigger` from outside
-- has come while a sender was marked or a trigger outstanding, and no `Reset` while a caller was
-- inside or a trigger outstanding, the messages counted and the callers inside are together as many
-- as the marks, and a trigger is outstanding exactly when all expected messages have been counted.
pub Reach-Inv : {y z : System} → Reach y z → Inv y → Inv z
Reach-Inv here v = v
Reach-Inv (next r st) v = Step-Inv st (Reach-Inv r v)

undisturbed :
    (y : System)
    → Inv y
    → y.disturbed ≡ 0
    → (y.sync.processed + y.inside ≡ count_true y.sync.started) × (y.triggers ≡ is_due y.sync)
undisturbed y v calm = elim v.settled [
  | inl bad ↦ absurd (omega (arith, bad, calm))
  | inr good ↦ good
]

-- No layer is left early. In every state that the server's calls reach without a disturbance, that is
-- without a `Done` of a refused caller, a `Trigger` from outside while a sender was marked or a trigger
-- outstanding, or a `Reset` while a caller was inside or a trigger outstanding: when a `Trigger` that
-- `Done` has started is about to run, nobody is still inside, the messages counted are as many as
-- expected, and each of the layer's senders has been marked.
pub fire_complete :
    (round layer : ℤ) (threshold : ℕ) (callback : Option Callback) {y : System} (n : ℕ)
    → Reach (start round layer threshold callback) y
    → y.disturbed ≡ 0
    → y.triggers ≡ suc n
    → (y.inside ≡ 0)
      × (y.sync.processed ≡ y.sync.threshold)
      × ((i : ℕ) → i < y.sync.threshold → get_elem? y.sync.started i ≡ some true)
fire_complete round layer threshold callback {y} n r calm e =
    let v = Reach-Inv r (start-Inv round layer threshold callback) in
    let (counted, one) = undisturbed y v calm in
    let size = v.sized in
    let most = count_true-le y.sync.started in
    let all : y.sync.processed ≡ y.sync.threshold = ground (arith, one, e) in
    (
      omega (arith, counted, all, size, most),
      all,
      λ i lt.
          count_true_full y.sync.started i (omega (arith, counted, all, size, most))
            (omega (arith, size, lt)),
    )

-- The layer cannot get stuck with all callers gone: in every reachable state where nobody is inside
-- and no trigger is outstanding, while a message is expected, some sender is still unmarked, and
-- `SyncOnce` lets that sender in.
pub idle_admits :
    (round layer : ℤ) (threshold : ℕ) (callback : Option Callback) {y : System}
    → Reach (start round layer threshold callback) y
    → y.inside ≡ 0
    → y.triggers ≡ 0
    → 0 < y.sync.threshold
    → (i : ℕ) × (t : Synchronizer) × (mark y.sync (pos i) ≡ ok t)
unfolding mark mark_index
idle_admits round layer threshold callback {y} r quiet calm some_due =
    let v = Reach-Inv r (start-Inv round layer threshold callback) in
    let below : count_true y.sync.started < length y.sync.started =
      ground (arith, v, count_true-le y.sync.started) in
    let (i, e) = first_unmarked y.sync.started below in
    (
      i,
      record y.sync { started = set y.sync.started i true },
      ground (arith, get_elem?-lt y.sync.started i e),
    )
