-- ===== src/Network/Batching/Sending.antt =====
-- Writing all of a message, however little each `Write` takes.
use native.Mathlib.Decide.{dec_lt}
use bmrng.Prelude.{
  ℕ, zero, suc, ◌+◌, ◌-◌, ◌≤◌, ◌<◌, ◌≡◌, refl, sym, ap, ◌∙◌, Option, none, ◌++◌, length, take, drop,
  lt→ltb, le→ltb, length-drop, take-add, take_all, arith,
}
use bmrng.Prelude.Outcome.{Error, ok}
use bmrng.Prelude.Bytes.{Bytes}
use bmrng.Network.Batching.{send_loop, send}

-- A connection that takes what it is given, a byte at least and no more than there are, without error.
pub record IsWriter (accept : Bytes → ℕ × Option Error) : Type 0 where
  pub takes : (b : Bytes) → 0 < length b → (0 < (accept b).0) × ((accept b).0 ≤ length b)
  pub succeeds : (b : Bytes) → 0 < length b → (accept b).1 ≡ none

send_stop :
    (fuel : ℕ) (accept : Bytes → ℕ × Option Error) (b out : Bytes) (written : ℕ)
    → length b ≤ written
    → send_loop fuel accept b written out ≡ (out, ok tt)
unfolding send_loop
send_stop zero accept b out written h = refl
send_stop (suc fuel) accept b out written h = rw (send_loop, le→ltb written (length b) h)

send_step :
    (fuel : ℕ) (accept : Bytes → ℕ × Option Error) (b out : Bytes) (written : ℕ)
    → written < length b
    → (accept (drop written b)).1 ≡ none
    → send_loop (suc fuel) accept b written out
      ≡ send_loop fuel accept b
          (written + (accept (drop written b)).0)
          (out ++ take (accept (drop written b)).0 (drop written b))
unfolding send_loop
send_step fuel accept b out written inside good =
    rw (send_loop, lt→ltb written (length b) inside, good)

send_loop_lem :
    (fuel : ℕ) (accept : Bytes → ℕ × Option Error) (b : Bytes) (written : ℕ)
    → IsWriter accept
    → length b - written ≤ fuel
    → send_loop fuel accept b written (take written b) ≡ (b, ok tt)
send_loop_lem zero accept b written w enough =
    send_stop zero accept b (take written b) written (omega arith)
    ∙ ap (λ x. (x, ok tt)) (take_all written b (omega arith))
send_loop_lem (suc fuel) accept b written w enough = elim (dec_lt written (length b)) [
  | no over ↦
      send_stop (suc fuel) accept b (take written b) written (omega arith)
      ∙ ap (λ x. (x, ok tt)) (take_all written b (omega arith))
  | yes inside ↦
      (let left = drop written b in
        let size = length-drop written b in
        let (some_taken, no_more) = w.takes left (omega arith) in
        let n = (accept left).0 in
        send_step fuel accept b (take written b) written inside (w.succeeds left (omega arith))
        ∙ (ap (send_loop fuel accept b (written + n)) (sym (take-add written n b))
            ∙ send_loop_lem fuel accept b (written + n) w (omega (arith, some_taken))))
]

-- All of a message is sent. On a connection that takes a byte at least of whatever it is given, the
-- bytes that go out are those of the message, once and in order, and no error is returned: the loop
-- ends within as many writes as there are bytes.
pub send_all :
    (accept : Bytes → ℕ × Option Error) (b : Bytes) → IsWriter accept → send accept b ≡ (b, ok tt)
unfolding send
send_all accept b w = send_loop_lem (length b) accept b 0 w (omega arith)
