-- ===== src/Config/Groups/Rounds.antt =====
-- The rounds of a group of config/anytrustGroup.go that has no duplicates to draw.
use mathlib.Core.List.{Mem, Nodup, mem-cons, Nodup-append, append_assoc, append-nil}
use mathlib.Core.List.{mem-append_right}
use mathlib.Core.Logic.Or
use bmrng.Prelude.{
  ℕ, zero, suc, ◌+◌, ◌≤◌, ◌<◌, ◌≡◌, refl, sym, ap, ap₂, subst, ◌∙◌, false, Option, some, List, [],
  ◌∷◌, ◌++◌, length, take, drop, length-append, le→leb, lt→leb, ==_ne, arith,
}
use bmrng.Prelude.Outcome.{ok}
use bmrng.Prelude.Bytes.{Bytes}
use bmrng.Config.Shuffler.{Shuffler}
use bmrng.Config.Groups.{Draw, contains, element_at, extend, draw_server, draw_group}

contains-not_mem : (x : ℕ) (ys : List ℕ) → ¬ Mem x ys → contains x ys ≡ false
unfolding contains
contains-not_mem x [] out = refl
contains-not_mem x (y ∷ ys) out = rw (
  ==_ne x y (λ e. out (mem-cons.1 (Or.inl e))),
  contains-not_mem x ys (λ m. out (mem-cons.1 (Or.inr m))),
)

element_at-append :
    (pre : List ℕ) (x : ℕ) (rest : List ℕ) → element_at (pre ++ x ∷ rest) (length pre) ≡ ok x
unfolding element_at
element_at-append [] x rest = refl
element_at-append (y ∷ pre) x rest = element_at-append pre x rest

-- What is drawn from: the servers of the groups before, those of the group at hand, and the rest.
abbrev pub at_place : {S : Type 0} → List ℕ → List ℕ → List ℕ → Shuffler S → Draw S
at_place pre servers rest r = record {
  permutation = (pre ++ servers) ++ rest;
  index = length (pre ++ servers);
  servers = servers;
  shuffler = r;
}

module _ {S : Type 0} (read : S → ℕ → Option (Bytes × S)) where
  move_one :
      (pre servers : List ℕ) (x : ℕ) (rest : List ℕ) (r : Shuffler S)
      → record (at_place pre servers (x ∷ rest) r) {
        index = length (pre ++ servers) + 1;
        servers = servers ++ x ∷ [];
      }
        ≡ at_place pre (servers ++ x ∷ []) rest r
  move_one pre servers x rest r =
      let next = append_assoc pre servers (x ∷ []) in
      ap₂ (λ p i. record { permutation = p; index = i; servers = servers ++ x ∷ []; shuffler = r })
        (sym (append_assoc (pre ++ servers) (x ∷ []) rest) ∙ ap (λ l. l ++ rest) next)
        (omega (arith, length-append (pre ++ servers) (x ∷ [])) ∙ ap length next)

  -- A server that is not in the group yet is drawn.
  draw_server_lem :
      (n : ℕ) (pre servers : List ℕ) (x : ℕ) (rest : List ℕ) (r : Shuffler S)
      → ¬ Mem x servers
      → draw_server read n (at_place pre servers (x ∷ rest) r)
        ≡ ok (at_place pre (servers ++ x ∷ []) rest r)
  unfolding draw_server extend
  draw_server_lem n pre servers x rest r out =
      rw
        (
          lt→leb (length ((pre ++ servers) ++ x ∷ rest)) (length (pre ++ servers))
              (omega (arith, length-append (pre ++ servers) (x ∷ rest))),
          element_at-append (pre ++ servers) x rest,
          contains-not_mem x servers out,
        )
        (ap ok (move_one pre servers x rest r))

  draw_group-next :
      (fuel n size : ℕ) (d d' : Draw S)
      → length d.servers < size
      → draw_server read n d ≡ ok d'
      → draw_group read (suc fuel) n size d ≡ draw_group read fuel n size d'
  unfolding draw_group
  draw_group-next fuel n size d d' h e = rw (draw_group, lt→leb size (length d.servers) h, e)

  draw_group-full :
      (fuel n size : ℕ) (d : Draw S)
      → size ≤ length d.servers
      → draw_group read fuel n size d ≡ some (ok d)
  unfolding draw_group
  draw_group-full zero n size d h = rw (draw_group, le→leb size (length d.servers) h)
  draw_group-full (suc fuel) n size d h = rw (draw_group, le→leb size (length d.servers) h)

  not_drawn :
      (pre servers : List ℕ) (x : ℕ) (rest : List ℕ)
      → Nodup ((pre ++ servers) ++ x ∷ rest)
      → ¬ Mem x servers
  not_drawn pre servers x rest d m =
      (Nodup-append.0 d).2 x (mem-append_right pre m) (mem-cons.1 (Or.inl refl))

  -- A group takes the next servers of the permutation, in as many rounds.
  pub draw_group_lem :
      (k fuel n size : ℕ) (pre servers rest : List ℕ) (r : Shuffler S)
      → k ≤ fuel
      → length servers + k ≡ size
      → k ≤ length rest
      → Nodup ((pre ++ servers) ++ rest)
      → draw_group read fuel n size (at_place pre servers rest r)
        ≡ some (ok (at_place pre (servers ++ take k rest) (drop k rest) r))
  draw_group_lem zero fuel n size pre servers rest r h l le d =
      draw_group-full fuel n size (at_place pre servers rest r) (omega (arith, l))
      ∙ ap (λ s. some (ok (at_place pre s rest r))) (sym (append-nil servers))
  draw_group_lem (suc k) zero n size pre servers rest r h l le d = absurd (omega (arith, h))
  draw_group_lem (suc k) (suc fuel) n size pre servers [] r h l le d = absurd (omega (arith, le))
  draw_group_lem (suc k) (suc fuel) n size pre servers (x ∷ rest) r h l le d =
      let servers' = servers ++ x ∷ [] in
      draw_group-next fuel n size (at_place pre servers (x ∷ rest) r) (at_place pre servers' rest r)
        (omega (arith, l)) (draw_server_lem n pre servers x rest r (not_drawn pre servers x rest d))
      ∙ (draw_group_lem k fuel n size pre servers' rest r (omega (arith, h))
            (omega (arith, l, length-append servers (x ∷ []))) (omega (arith, le)) (shift d)
          ∙ ap (λ s. some (ok (at_place pre s (drop k rest) r)))
              (append_assoc servers (x ∷ []) (take k rest)))
    where
      shift : Nodup ((pre ++ servers) ++ x ∷ rest) → Nodup ((pre ++ (servers ++ x ∷ [])) ++ rest)
      shift d' =
          subst Nodup
            (sym (append_assoc (pre ++ servers) (x ∷ []) rest)
              ∙ ap (λ l'. l' ++ rest) (append_assoc pre servers (x ∷ [])))
            d'
