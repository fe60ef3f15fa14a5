-- ===== src/Server/Handler/Waiting.antt =====
-- Which rounds a message is let in at.
use bmrng.Prelude.{
  ◌≡◌, ◌≢◌, ◌↔◌, refl, sym, subst, ◌∙◌, Bool, true, false, ◌||◌, if-branch, some, List, [], ◌∷◌,
  inl, inr, arith, ◌⊎◌, Bool-cases,
}
use bmrng.Prelude.Int.{ℤ, pos, negsuc, beq, beq_iff, ltz, ltz_irrefl}
use bmrng.Prelude.Outcome.{ok, err, bad_metadata}
use bmrng.Network.Sync.{blocked}
use bmrng.Server.Handler.{must_wait, wait_for_round}

-- The handler's rounds that a caller sees, the one it starts with first.
unfoldable pub Seen : ℤ → List ℤ → ℤ → Type 0
Seen current [] r = current ≡ r
Seen current (next ∷ wakes) r = (current ≡ r) ⊎ Seen next wakes r

-- A message is let in at a round of the handler that is not blocked and not before the message's: if
-- `WaitForRound` returns without an error, one of the rounds that the caller has seen is such.
pub wait_for_round-ok :
    (round current : ℤ) (wakes : List ℤ)
    → wait_for_round round current wakes ≡ some (ok tt)
    → (r : ℤ) × Seen current wakes r × (must_wait round r ≡ false)
unfolding wait_for_round Seen
wait_for_round-ok round current [] h = elim (if-branch (must_wait round current) h) [
  | inl (_, e) ↦ absurd (ground (arith, e))
  | inr (free, _) ↦ (current, refl, free)
]
wait_for_round-ok round current (next ∷ wakes) h = elim (if-branch (must_wait round current) h) [
  | inr (free, _) ↦ (current, inl refl, free)
  | inl (_, e) ↦ elim (if-branch (ltz round next) e) [
    | inl (_, e₁) ↦ absurd (ground (arith, e₁))
    | inr (_, e₁) ↦
        (let (r, there, free) = wait_for_round-ok round next wakes e₁ in (r, inr there, free))
  ]
]

at_once :
    (round current : ℤ) (wakes : List ℤ)
    → must_wait round current ≡ false
    → wait_for_round round current wakes ≡ some (ok tt)
unfolding wait_for_round
at_once round current [] free = rw free
at_once round current (next ∷ wakes) free = rw free

-- The rounds at which a caller wakes up: some that are not after the message's and that it goes on to
-- wait at, and then the message's own round.
unfoldable pub Comes : ℤ → List ℤ → Type 0
Comes round [] = ⊥
Comes round (next ∷ wakes) =
    ((next ≡ round) × (round ≢ blocked))
    ⊎ ((must_wait round next ≡ true) × (ltz round next ≡ false) × Comes round wakes)

own_round :
    (round next : ℤ)
    → ltz round next ≡ false
    → must_wait round next ≡ false
    → (next ≡ round) × (round ≢ blocked)
unfolding must_wait
own_round round next late free =
    let (ahead, off) = neither (ltz next round) (beq next blocked) free in
    let same = ltz-same round next late ahead in
    (same, λ e. not_true (sym ((beq_iff next blocked).1 (same ∙ e)) ∙ off))
  where
    neither : (a b : Bool) → (a || b) ≡ false → (a ≡ false) × (b ≡ false)
    neither true b h = absurd (ground (arith, h))
    neither false b h = (refl, h)

    not_true : ¬ (true ≡ false)
    not_true e = ground (arith, e)

    ltz-same : (a b : ℤ) → ltz a b ≡ false → ltz b a ≡ false → b ≡ a
    ltz-same (pos a) (pos b) p q = ground arith
    ltz-same (pos a) (negsuc b) p q = ground arith
    ltz-same (negsuc a) (pos b) p q = ground arith
    ltz-same (negsuc a) (negsuc b) p q = ground arith

not_own :
    (round : ℤ) → round ≢ blocked → (ltz round round ≡ false) × (must_wait round round ≡ false)
unfolding must_wait
not_own round apart = (
  ltz_irrefl round,
  rw (ltz_irrefl round) (elim (Bool-cases (beq round blocked)) [
    | inl e ↦ absurd (apart ((beq_iff round blocked).0 e))
    | inr e ↦ e
  ]),
)

woken :
    (round current next : ℤ) (wakes : List ℤ)
    → must_wait round current ≡ true
    → ltz round next ≡ false
    → wait_for_round round current (next ∷ wakes) ≡ wait_for_round round next wakes
unfolding wait_for_round
woken round current next wakes waits late = rw (wait_for_round, waits, late)

refused :
    (round current next : ℤ) (wakes : List ℤ)
    → must_wait round current ≡ true
    → ltz round next ≡ true
    → wait_for_round round current (next ∷ wakes) ≡ some (err bad_metadata)
unfolding wait_for_round
refused round current next wakes waits late = rw (wait_for_round, waits, late)

came :
    (round current : ℤ) (wakes : List ℤ)
    → must_wait round current ≡ true
    → wait_for_round round current wakes ≡ some (ok tt)
    → Comes round wakes
unfolding Comes wait_for_round
came round current [] waits h = absurd (ground (arith, waits, h))
came round current (next ∷ wakes) waits h = elim (Bool-cases (ltz round next)) [
  | inl late ↦ absurd (ground (arith, h, refused round current next wakes waits late))
  | inr early ↦ elim (Bool-cases (must_wait round next)) [
    | inl again ↦ inr (
      again,
      early,
      came round next wakes again (sym (woken round current next wakes waits early) ∙ h),
    )
    | inr free ↦ inl (own_round round next early free)
  ]
]

let_in :
    (round current : ℤ) (wakes : List ℤ)
    → must_wait round current ≡ true
    → Comes round wakes
    → wait_for_round round current wakes ≡ some (ok tt)
unfolding Comes
let_in round current [] waits c = absurd c
let_in round current (next ∷ wakes) waits (inl (same, apart)) =
    let (early, free) = not_own round apart in
    woken round current next wakes waits (subst (λ r. ltz round r ≡ false) (sym same) early)
    ∙ at_once round next wakes (subst (λ r. must_wait round r ≡ false) (sym same) free)
let_in round current (next ∷ wakes) waits (inr (again, early, c)) =
    woken round current next wakes waits early ∙ let_in round next wakes again c

-- When a message is let in. A caller of `WaitForRound` gets through exactly if it does not have to
-- wait, which is so at the message's round and at any later one but the blocked one, or if it has to
-- wait and the rounds it wakes up at are first some that are not after the message's and that it goes
-- on to wait at, and then the message's own round, which is not the blocked one. So an old message is
-- refused only if it had to wait.
pub wait_for_round_iff :
    (round current : ℤ) (wakes : List ℤ)
    → (wait_for_round round current wakes ≡ some (ok tt))
      ↔ ((must_wait round current ≡ false) ⊎ ((must_wait round current ≡ true) × Comes round wakes))
wait_for_round_iff round current wakes = (
  λ h. elim (Bool-cases (must_wait round current)) [
    | inl waits ↦ inr (waits, came round current wakes waits h)
    | inr free ↦ inl free
  ],
  λ c. elim c [
    | inl free ↦ at_once round current wakes free
    | inr (waits, later) ↦ let_in round current wakes waits later
  ],
)
