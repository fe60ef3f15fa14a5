-- ===== src/Server/Members/Finishing.antt =====
-- A group's round of final messages.
use bmrng.Prelude.{
  ℕ, ◌≤◌, ◌≡◌, refl, sym, ap, ◌∙◌, Bool, true, if-branch, inl, inr, none, some, List, length, arith,
}
use bmrng.Prelude.Int.{ℤ}
use bmrng.Prelude.Outcome.{ok, ok-injective}
use bmrng.Prelude.Bytes.{Bytes}
use bmrng.Server.Checkpoint.{all_signatures_accounted_for}
use bmrng.Server.Checkpoint.Counting.{marked-le-length}
use bmrng.Server.Checkpoint.Complete.{
  all_used, all_signatures_accounted_for_lem, reset_signature_marking_lem,
}
use bmrng.Server.Checkpoint.Once.{after}
use bmrng.Server.Members.{GroupMember, on_threshold, new_lightning_round, get_messages}

-- The member once it has handled messages from trustees.
abbrev pub with_messages : (Bytes → Bytes → Bytes → Bool) → GroupMember → List Bytes → GroupMember
with_messages v g ms = record g { checkpoint = after v g.checkpoint ms }

-- A group gives out its messages when every key has spoken. After `NewLightningRound` a caller of
-- `GetMessages` waits. If `OnThreshold` then returns, after any messages from trustees, every
-- anonymous key is marked, the caller gets the final messages of this round, and they are no more
-- than the keys there are.
pub on_threshold-new_lightning_round :
    (verify_message : Bytes → Bytes → Bytes → Bool) (g h : GroupMember) (layer : ℤ)
    (ms : List Bytes) (n : ℕ) (next : ℤ)
    → let g' = with_messages verify_message (new_lightning_round g layer) ms in
      on_threshold g' layer ≡ ok (h, n, next)
      → (get_messages g' ≡ none)
        × (all_used g'.checkpoint.anonymous_signing_keys.keys ≡ true)
        × (get_messages h ≡ some g'.checkpoint.final_messages)
        × (length g'.checkpoint.final_messages ≤ length g.checkpoint.anonymous_signing_keys.keys)
unfolding on_threshold new_lightning_round get_messages
on_threshold-new_lightning_round v g h layer ms n next e =
    let start = (new_lightning_round g layer).checkpoint in
    let (counted, unmarked, same_keys) =
      reset_signature_marking_lem g.checkpoint.anonymous_signing_keys in
    let (counts, kept_keys, says, kept) = all_signatures_accounted_for_lem v start ms counted in
    let d = after v start ms in
    let bound = marked-le-length d.anonymous_signing_keys.keys in
    elim (if-branch (all_signatures_accounted_for d) e) [
      | inl (all, returned) ↦ (
        refl,
        sym says ∙ all,
        ready (with_messages v (new_lightning_round g layer) ms)
            (ap (λ r. r.0) (ok-injective returned)),
        omega (arith, kept, counts, counted, unmarked, kept_keys, same_keys, bound),
      )
      | inr (_, panicked) ↦ absurd (ground (arith, panicked))
    ]
  where
    ready :
        (x : GroupMember) {y : GroupMember}
        → record x { messages_ready = true } ≡ y
        → get_messages y ≡ some x.checkpoint.final_messages
    ready x q = ap get_messages (sym q)
