-- ===== src/Network/Sync/System.antt =====
-- The callers of a `Synchronizer` in server/pool.go and server/server.go as interleaved steps. A caller
-- waits, is marked or refused, and leaves by `Done`; `go s.Trigger()` runs at some later time.
use bmrng.Prelude.{
  ℕ, zero, suc, ◌+◌, ◌≤◌, ◌<◌, ◌≡◌, refl, ap, ◌⊎◌, inr, Bool, true, false, ◌&&◌, ltb, ◌==◌,
  if◌then◌else◌, Option, some, List, [], ◌∷◌, length, get_elem?, set, replicate, length-replicate,
  arith,
}
use bmrng.Prelude.Int.{ℤ, pos, negsuc}
use bmrng.Prelude.Outcome.{Error, ok, err}
use bmrng.Network.Sync.{Synchronizer, new, passes, mark, mark_index, done, trigger, reset, Callback}

-- `passed` callers are between the wait of `SyncOnce` and its mark, `inside` are marked and before
-- `Done`, `refused` got an error and may call `Done` all the same; `triggers` are started and not yet
-- run. `disturbed` counts what takes the count of messages away from the marks: a `Done` of a refused
-- caller, and the marks and callers that a `Trigger` or `Reset` from outside passes over.
pub record System : Type 0 where
  pub sync : Synchronizer
  pub passed : ℕ
  pub inside : ℕ
  pub refused : ℕ
  pub triggers : ℕ
  pub disturbed : ℕ

abbrev pub start : ℤ → ℤ → ℕ → Option Callback → System
start round layer threshold callback = record {
  sync = new round layer threshold callback;
  passed = 0;
  inside = 0;
  refused = 0;
  triggers = 0;
  disturbed = 0;
}

abbrev pub count_fired : Bool → ℕ → ℕ
count_fired true n = suc n
count_fired false n = n

pub count_true : List Bool → ℕ
count_true [] = 0
count_true (true ∷ bs) = suc (count_true bs)
count_true (false ∷ bs) = count_true bs

pub data Step : System → System → Type 0 where
  pass :
      (y : System) (layer : ℤ)
      → passes y.sync layer ≡ true
      → Step y (record y { passed = suc y.passed })
  enter :
      (y : System) (n : ℕ) (id : ℤ) (s : Synchronizer)
      → y.passed ≡ suc n
      → mark y.sync id ≡ ok s
      → Step y (record y { sync = s; passed = n; inside = suc y.inside })
  refuse :
      (y : System) (n : ℕ) (id : ℤ) (why : Error)
      → y.passed ≡ suc n
      → mark y.sync id ≡ err why
      → Step y (record y { passed = n; refused = suc y.refused })
  leave :
      (y : System) (n : ℕ) (s : Synchronizer) (fired : Bool)
      → y.inside ≡ suc n
      → done y.sync ≡ ok (s, fired)
      → Step y (record y { sync = s; inside = n; triggers = count_fired fired y.triggers })
  -- `WorkerPoolProcessGroup` returns without `Done` if it was refused.
  give_up : (y : System) (n : ℕ) → y.refused ≡ suc n → Step y (record y { refused = n })
  -- `WorkerPoolProcessStream` has deferred `Done` by then.
  leave_refused :
      (y : System) (n : ℕ) (s : Synchronizer) (fired : Bool)
      → y.refused ≡ suc n
      → done y.sync ≡ ok (s, fired)
      → Step y (record y {
        sync = s;
        refused = n;
        triggers = count_fired fired y.triggers;
        disturbed = suc y.disturbed;
      })
  fire :
      (y : System) (n : ℕ)
      → y.triggers ≡ suc n
      → Step y (record y { sync = trigger y.sync; triggers = n })
  -- `RoundStart` calls `Trigger` itself, to end the layer of the clients.
  kick :
      (y : System)
      → Step y (record y {
        sync = trigger y.sync;
        disturbed = y.disturbed + (count_true y.sync.started + y.triggers);
      })
  -- The server calls `Reset` to set up a round.
  restart :
      (y : System) (round layer : ℤ) (threshold : ℕ)
      → Step y (record y {
        sync = reset y.sync round layer threshold;
        disturbed = y.disturbed + (y.inside + y.triggers);
      })

pub data Reach (y : System) : System → Type 0 where
  here : Reach y y
  next : {z w : System} → Reach y z → Step z w → Reach y w

pub count_true-le : (bs : List Bool) → count_true bs ≤ length bs
unfolding count_true
count_true-le [] = omega arith
count_true-le (true ∷ bs) = omega (arith, count_true-le bs)
count_true-le (false ∷ bs) = omega (arith, count_true-le bs)

pub count_true-replicate : (n : ℕ) → count_true (replicate n false) ≡ 0
unfolding count_true
count_true-replicate zero = refl
count_true-replicate (suc n) = count_true-replicate n

pub count_true-set :
    (bs : List Bool) (i : ℕ)
    → get_elem? bs i ≡ some false
    → count_true (set bs i true) ≡ suc (count_true bs)
unfolding count_true
count_true-set [] i h = cc
count_true-set (b ∷ bs) zero h = ground arith
count_true-set (true ∷ bs) (suc i) h = ap suc (count_true-set bs i h)
count_true-set (false ∷ bs) (suc i) h = count_true-set bs i h

-- Where every mark is set, each index reads `true`.
pub count_true_full :
    (bs : List Bool) (i : ℕ)
    → count_true bs ≡ length bs
    → i < length bs
    → get_elem? bs i ≡ some true
unfolding count_true
count_true_full [] i h lt = elim lt [ ]
count_true_full (true ∷ bs) zero h lt = refl
count_true_full (false ∷ bs) zero h lt = absurd (omega (arith, count_true-le bs))
count_true_full (true ∷ bs) (suc i) h lt = count_true_full bs i (omega arith) (omega arith)
count_true_full (false ∷ bs) (suc i) h lt = absurd (omega (arith, count_true-le bs))

-- A mark is missing as long as there are fewer marks than slots.
pub first_unmarked :
    (bs : List Bool) → count_true bs < length bs → (i : ℕ) × (get_elem? bs i ≡ some false)
unfolding count_true
first_unmarked [] h = elim h [ ]
first_unmarked (true ∷ bs) h = let (i, e) = first_unmarked bs (omega arith) in (suc i, e)
first_unmarked (false ∷ bs) h = (0, refl)

-- Whether a layer's last message has been counted.
abbrev pub is_due : Synchronizer → ℕ
is_due s = if s.processed == s.threshold && ltb 0 s.threshold then 1 else 0

-- Without a disturbance a trigger is outstanding exactly while the last message of the layer has been
-- counted, and the messages counted and the callers inside are the marks; in any case no mark is
-- without its message or caller, and no layer that is due is without a trigger.
pub record Inv (y : System) : Type 0 where
  pub sized : length y.sync.started ≡ y.sync.threshold
  pub bounded : y.sync.processed ≤ y.sync.threshold
  pub covered : count_true y.sync.started ≤ y.sync.processed + y.inside
  pub armed : is_due y.sync ≤ y.triggers
  pub settled :
      (0 < y.disturbed)
      ⊎ ((y.sync.processed + y.inside ≡ count_true y.sync.started) × (y.triggers ≡ is_due y.sync))

pub start-Inv :
    (round layer : ℤ) (threshold : ℕ) (callback : Option Callback)
    → Inv (start round layer threshold callback)
unfolding new
start-Inv round layer threshold callback =
    let size = length-replicate threshold false in
    let none_marked = count_true-replicate threshold in
    record {
      sized = size;
      bounded = omega arith;
      covered = omega (arith, none_marked);
      armed = ground arith;
      settled = inr (omega (arith, none_marked), ground arith);
    }

-- What a successful mark did.
pub record Marked (s t : Synchronizer) : Type 0 where
  pub index : ℕ
  pub unmarked : get_elem? s.started index ≡ some false
  pub result : t ≡ record s { started = set s.started index true }

mark_index-Marked :
    (s : Synchronizer) (i : ℕ) (t : Synchronizer) → mark_index s i ≡ ok t → Marked s t
unfolding mark_index
mark_index-Marked s i t h = record { index = i; unmarked = ground arith; result = ground arith }

pub mark-Marked : (s : Synchronizer) (id : ℤ) (t : Synchronizer) → mark s id ≡ ok t → Marked s t
unfolding mark
mark-Marked s (pos i) t h = mark_index-Marked s i t (ground arith)
mark-Marked s (negsuc i) t h = record { index = i; unmarked = ground arith; result = ground arith }
