-- ===== src/Server/Checkpoint/Complete.antt =====
-- When all keys are accounted for.
use bmrng.Prelude.{
  ◌+◌, ◌≤◌, ◌≡◌, refl, ap, sym, ◌∙◌, Bool, true, false, ==_iff, ◌&&◌, List, [], ◌∷◌, length,
  length-append, arith, ◌==◌,
}
use bmrng.Prelude.Outcome.{Outcome}
use bmrng.Prelude.Bytes.{Bytes}
use bmrng.Server.Checkpoint.{
  VerificationKeyTable, reset_signature_marking, Checkpoint, all_signatures_accounted_for,
  handle_trustee_message,
}
use bmrng.Server.Checkpoint.Counting.{
  IsCounted, marked, marked-le-length, marked-unmark, length-unmark, get_and_mark-IsCounted,
}
use bmrng.Server.Checkpoint.Once.{after, Handled, unchanged, kept, burnt, handle-Handled}

-- Every key is marked.
pub all_used : List (Bytes × Bool) → Bool
all_used [] = true
all_used ((k, used) ∷ rest) = used && all_used rest

marked-all_used : (m : List (Bytes × Bool)) → (marked m == length m) ≡ all_used m
unfolding marked all_used
marked-all_used [] = refl
marked-all_used ((k, true) ∷ rest) =
    ground (arith, marked-all_used rest, ==_iff (marked rest) (length rest))
marked-all_used ((k, false) ∷ rest) = ground (arith, marked-le-length rest)

-- Each message kept has marked a key of its own.
record Balanced (c d : Checkpoint) : Type 0 where
  counts : IsCounted d.anonymous_signing_keys
  same_keys : length d.anonymous_signing_keys.keys ≡ length c.anonymous_signing_keys.keys
  more : c.anonymous_signing_keys.count ≤ d.anonymous_signing_keys.count
  kept_marked :
      length d.final_messages + c.anonymous_signing_keys.count
      ≤ length c.final_messages + d.anonymous_signing_keys.count

Balanced-after :
    (verify_message : Bytes → Bytes → Bytes → Bool) (c d : Checkpoint) (ms : List Bytes)
    → Balanced c d
    → Balanced c (after verify_message d ms)
unfolding after
Balanced-after v c d [] h = h
Balanced-after v c d (m ∷ ms) h =
    Balanced-after v c (handle_trustee_message v d m).0 ms (one _ (handle-Handled v d m) h)
  where
    one :
        {c d : Checkpoint} {m : Bytes} (r : Checkpoint × Outcome (Unit {0}))
        → Handled v d m r
        → Balanced c d
        → Balanced c r.0
    one _ (unchanged f) h = h
    one {d = d} _ (kept fm u q) h =
        let (a, b, e) = get_and_mark-IsCounted d.anonymous_signing_keys u _ h.counts q in
        record {
          counts = a;
          same_keys = e ∙ h.same_keys;
          more = omega (arith, b, h.more);
          kept_marked =
              omega (arith, b, h.kept_marked, length-append d.final_messages (fm.message ∷ []));
        }
    one {d = d} _ (burnt fm u q) h =
        let (a, b, e) = get_and_mark-IsCounted d.anonymous_signing_keys u _ h.counts q in
        record {
          counts = a;
          same_keys = e ∙ h.same_keys;
          more = omega (arith, b, h.more);
          kept_marked = omega (arith, b, h.kept_marked);
        }

-- From a checkpoint whose counter counts its marked keys, any messages lead to one of that kind, with
-- the same number of keys. `AllSignaturesAccountedFor` then says exactly whether every key is marked,
-- and the messages kept on the way are no more than the keys marked on the way.
pub all_signatures_accounted_for_lem :
    (verify_message : Bytes → Bytes → Bytes → Bool) (c : Checkpoint) (ms : List Bytes)
    → IsCounted c.anonymous_signing_keys
    → let d = after verify_message c ms in
      IsCounted d.anonymous_signing_keys
      × (length d.anonymous_signing_keys.keys ≡ length c.anonymous_signing_keys.keys)
      × (all_signatures_accounted_for d ≡ all_used d.anonymous_signing_keys.keys)
      × (length d.final_messages + c.anonymous_signing_keys.count
          ≤ length c.final_messages + d.anonymous_signing_keys.count)
unfolding all_signatures_accounted_for
all_signatures_accounted_for_lem v c ms counted =
    let h = Balanced-after v c c ms (record {
      counts = counted;
      same_keys = refl;
      more = omega arith;
      kept_marked = omega arith;
    }) in
    let d = after v c ms in
    (
      h.counts,
      h.same_keys,
      ap (λ n. n == length d.anonymous_signing_keys.keys) h.counts
          ∙ marked-all_used d.anonymous_signing_keys.keys,
      h.kept_marked,
    )

-- After a reset of the marks the counter is right, no key is marked, and none is lost.
pub reset_signature_marking_lem :
    (t : VerificationKeyTable)
    → IsCounted (reset_signature_marking t)
      × (marked (reset_signature_marking t).keys ≡ 0)
      × (length (reset_signature_marking t).keys ≡ length t.keys)
unfolding reset_signature_marking
reset_signature_marking_lem t =
    (sym (marked-unmark t.keys), marked-unmark t.keys, length-unmark t.keys)
