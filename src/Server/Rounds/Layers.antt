-- ===== src/Server/Rounds/Layers.antt =====
-- A lightning round, layer after layer: any number of messages, and the threshold of each layer.
use bmrng.Prelude.{ℕ, ◌+◌, ◌≤◌, ◌≡◌, sym, subst, ◌∙◌, Bool, arith}
use bmrng.Prelude.Int.{ℤ}
use bmrng.Prelude.Outcome.{ok}
use bmrng.Prelude.Bytes.{Bytes}
use bmrng.Server.Rounds.{Server, Task, handle_lightning_message, pass_on, on_threshold, finish}
use bmrng.Server.Rounds.Keeping.{control, control-pass_on, control-parse_then}
use bmrng.Server.Rounds.Opened.{IsOpen, IsOpen-message, IsOpen-finish, on_threshold-IsOpen}
use bmrng.Server.Rounds.Thresholds.{IsLightning, omega-zero, IsLightning-threshold}

module _ {Expanded : Type 0} where
  module _ (xor_key_stream : Bytes → Bytes → Bytes → Bytes) (verify : Bytes → Bytes → Bytes → Bool)
      (verify_expanded : Expanded → Bytes → Bytes → Bool) where
    -- A lightning message, or the threshold of the layer that the server is at; indexed by the number
    -- of thresholds.
    pub data Step (s t : Server Expanded) : ℕ → Type 0 where
      message :
          (b : Bytes)
          → (handle_lightning_message xor_key_stream verify verify_expanded s b).0 ≡ t
          → Step s t 0
      threshold :
          (u : Server Expanded) (layer next : ℤ) (k : ℕ) (task : Task)
          → s.c.layer ≡ layer
          → on_threshold s layer ≡ ok (u, (k, next), task)
          → finish u layer task ≡ ok t
          → Step s t 1

    pub data Reach (s : Server Expanded) : Server Expanded → ℕ → Type 0 where
      here : Reach s s 0
      step : {t u : Server Expanded} {n k : ℕ} → Reach s t n → Step t u k → Reach s u (n + k)

    control-message :
        (s : Server Expanded) (b : Bytes)
        → control (handle_lightning_message xor_key_stream verify verify_expanded s b).0 ≡ control s
    unfolding handle_lightning_message
    control-message s b =
        control-parse_then xor_key_stream verify verify_expanded s b pass_on control-pass_on

    -- A lightning round goes through its layers in order. From a server that has been set up for
    -- `m + 1` layers, whatever messages come and whenever the thresholds are reached, after `n`
    -- thresholds the server is at the layer `n`; there are at most `m + 1` of them; and the round is
    -- complete exactly after the last.
    pub Reach-IsLightning :
        {s t : Server Expanded} {n : ℕ} (m : ℕ)
        → IsLightning m 0 (control s)
        → Reach s t n
        → IsLightning m n (control t) × (n ≤ m + 1)
    Reach-IsLightning m start here = (start, omega arith)
    Reach-IsLightning m start (step {t} {u} {n} r (message b e)) =
        let (at, bound) = Reach-IsLightning m start r in
        (
          subst (λ v. IsLightning m (n + 0) (control v)) e
              (subst (IsLightning m (n + 0)) (sym (control-message t b))
                (subst (λ i. IsLightning m i (control t)) (omega-zero n) at)),
          omega (arith, bound),
        )
    Reach-IsLightning m start (step {t} {u} {n} r (threshold v layer next k task e called ended)) =
        let (at, bound) = Reach-IsLightning m start r in
        let same = sym (at.0) ∙ e in
        let (then_at, within) =
          IsLightning-threshold m n t v u next k task at
            (subst (λ z. on_threshold t z ≡ ok (v, (k, next), task)) (sym same) called)
            (subst (λ z. finish v z task ≡ ok u) (sym same) ended) in
        (then_at, omega (arith, within))

    -- The layer that the server is at stays open until its threshold, which opens the next.
    pub Reach-IsOpen :
        {s t : Server Expanded} {n : ℕ} (m : ℕ)
        → IsLightning m 0 (control s)
        → IsOpen m 0 s
        → Reach s t n
        → n ≤ m
        → IsOpen m n t
    Reach-IsOpen m start opened here below = opened
    Reach-IsOpen m start opened (step {t} {u} {n} r (message b e)) below =
        subst (IsOpen m (n + 0)) e (
          IsOpen-message xor_key_stream verify verify_expanded m (n + 0) t b (
            subst (λ i. IsOpen m i t) (omega-zero n)
              (Reach-IsOpen m start opened r (omega (arith, below)))))
    Reach-IsOpen m start opened (step {t} {u} {n} r (threshold v layer next k task e called ended))
          below =
        let (at, _) = Reach-IsLightning m start r in
        let same = sym (at.0) ∙ e in
        IsOpen-finish m n v u task (subst (λ z. finish v z task ≡ ok u) (sym same) ended) (
          on_threshold-IsOpen m n t v next k task at (omega (arith, below))
            (Reach-IsOpen m start opened r (omega (arith, below)))
            (subst (λ z. on_threshold t z ≡ ok (v, (k, next), task)) (sym same) called))
