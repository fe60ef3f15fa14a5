-- ===== src/Server/Sender/Responses.antt =====
-- The answers of a group to the sender.
use bmrng.Prelude.{
  ℕ, zero, suc, ◌+◌, ◌≡◌, refl, sym, ap, ◌∙◌, ltb, Bool, true, false, some, List, [], ◌∷◌, ◌++◌,
  length, map, length-append, lt→ltb, le→ltb, arith,
}
use bmrng.Prelude.Assoc.{bytes_eq, lookup, insert, lookup-insert_self, insert-insert, insert-lookup}
use bmrng.Prelude.Outcome.{Outcome, ok, attempt, ◌>>=◌}
use bmrng.Prelude.Bytes.{Bytes, make, slice}
use bmrng.Prelude.Pack.{slice_part, slice_tail, copy_last}
use bmrng.Crypto.Dhkx.{Group, IsGroup, additive_shares, accumulate}
use bmrng.Crypto.Dhkx.Sharing.{accumulate-additive_shares}
use bmrng.Crypto.Keys.{key_size}
use bmrng.Prelude.Int.{ℤ}
use bmrng.Network.Message.{SignedMessage, get_signed_data, data_of}
use bmrng.Server.Checkpoint.{point_size, response_length}
use bmrng.Server.Sender.{
  Progress, CheckpointSender, interpret_response, accumulate_one, response_loop, handle_response,
}

-- Messages that their senders have signed, with what `verify_sender` says, and the data of each.
pub data AreSigned (verify_sender : ℤ → Bytes → Bytes → Outcome Bool)
    : List SignedMessage → List Bytes → Type 0 where
  none_signed : AreSigned verify_sender [] []
  one_signed :
      {sm : SignedMessage} {sms : List SignedMessage} {d : Bytes} {ds : List Bytes}
      (sm' : SignedMessage) (signed : Bytes)
      → get_signed_data sm ≡ ok (sm', signed)
      → verify_sender sm'.metadata.sender signed sm'.signature ≡ ok true
      → data_of sm' ≡ ok d
      → AreSigned verify_sender sms ds
      → AreSigned verify_sender (sm ∷ sms) (d ∷ ds)

two_parts :
    (k b : Bytes) → length k ≡ key_size → length b ≡ point_size → length (k ++ b) ≡ response_length
two_parts k b lk lb = omega (arith, length-append k b)

module _ {Scalar Point : Type 0} (g : Group Scalar Point) (point_bytes : Point → Bytes)
    (interpret_point : Bytes → Outcome Point) where
  -- A response is read back.
  interpret_response-append :
      (k : Bytes) (q : Point)
      → length k ≡ key_size
      → length (point_bytes q) ≡ point_size
      → interpret_point (point_bytes q) ≡ ok q
      → interpret_response interpret_point (k ++ point_bytes q) ≡ ok (k, q)
  unfolding interpret_response
  interpret_response-append k q lk lq codec = rw (
    two_parts k (point_bytes q) lk lq,
    slice_part [] k (point_bytes q) 0 key_size refl (omega arith),
    copy_last [] (make key_size) k 0 key_size refl (sym lk) (omega arith),
    slice_tail k (point_bytes q) key_size response_length lk
        (sym (two_parts k (point_bytes q) lk lq)),
    codec,
  )

  -- What a member of the group answers, for one key.
  unfoldable pub answer : Bytes → Point → Bytes
  answer k q = k ++ point_bytes q

  loop_step :
      (fuel : ℕ) (s s' : CheckpointSender Point) (d : Bytes) (pos : ℕ)
      → ltb pos (length d) ≡ true
      → (slice d pos (pos + response_length) >>= λ b.
          interpret_response interpret_point b >>= accumulate_one g s)
        ≡ ok s'
      → response_loop g interpret_point (suc fuel) s d pos
        ≡ response_loop g interpret_point fuel s' d (pos + response_length)
  unfolding response_loop
  loop_step fuel s s' d pos inside read = rw (response_loop, inside, read)

  loop_stop :
      (fuel : ℕ) (s : CheckpointSender Point) (d : Bytes) (pos : ℕ)
      → ltb pos (length d) ≡ false
      → response_loop g interpret_point fuel s d pos ≡ (s, ok tt)
  unfolding response_loop
  loop_stop zero s d pos outside = refl
  loop_stop (suc fuel) s d pos outside = rw (response_loop, outside)

  one_answer :
      (s : CheckpointSender Point) (p : Progress Point) (k : Bytes) (q : Point)
      → length k ≡ key_size
      → length (point_bytes q) ≡ point_size
      → interpret_point (point_bytes q) ≡ ok q
      → lookup k s.reverse_messages ≡ some p
      → (slice (answer k q) 0 (0 + response_length) >>= λ b.
          interpret_response interpret_point b >>= accumulate_one g s)
        ≡ ok (record s {
          reverse_messages =
              insert k (record p { partial_key = g.add_points p.partial_key q }) s.reverse_messages;
        })
  unfolding answer accumulate_one
  one_answer s p k q lk lq codec known =
      rw
        (
          slice_tail [] (k ++ point_bytes q) 0 response_length refl
              (sym (two_parts k (point_bytes q) lk lq)),
          interpret_response-append k q lk lq codec,
        )
        (rw (accumulate_one, known))

  -- `HandleResponse` on the data of an answer with one response.
  response_loop-answer :
      (s : CheckpointSender Point) (p : Progress Point) (k : Bytes) (q : Point)
      → length k ≡ key_size
      → length (point_bytes q) ≡ point_size
      → interpret_point (point_bytes q) ≡ ok q
      → lookup k s.reverse_messages ≡ some p
      → response_loop g interpret_point (length (answer k q)) s (answer k q) 0 ≡ (
        record s {
          reverse_messages =
              insert k (record p { partial_key = g.add_points p.partial_key q }) s.reverse_messages;
        },
        ok tt,
      )
  unfolding answer
  response_loop-answer s p k q lk lq codec known =
      let size = two_parts k (point_bytes q) lk lq in
      let s' = record s {
        reverse_messages =
            insert k (record p { partial_key = g.add_points p.partial_key q }) s.reverse_messages;
      } in
      rw size (
        loop_step 63 s s' (answer k q) 0 (lt→ltb 0 (length (answer k q)) (omega arith))
          (one_answer s p k q lk lq codec known)
        ∙ loop_stop 63 s' (answer k q) response_length
            (le→ltb response_length (length (answer k q)) (omega arith)))

  -- `HandleResponse` on the data of several messages, one after the other.
  unfoldable handle_data :
      CheckpointSender Point → List Bytes → CheckpointSender Point × Outcome (Unit {0})
  handle_data s [] = (s, ok tt)
  handle_data s (d ∷ ds) =
      (let (s', r) = response_loop g interpret_point (length d) s d 0 in
        attempt s' r λ _. handle_data s' ds)

  -- `HandleResponse`, of several messages one after the other.
  unfoldable pub handle_responses :
      (ℤ → Bytes → Bytes → Outcome Bool)
      → CheckpointSender Point
      → List SignedMessage
      → CheckpointSender Point × Outcome (Unit {0})
  handle_responses verify_sender s [] = (s, ok tt)
  handle_responses verify_sender s (sm ∷ sms) =
      (let (s', r) = handle_response g interpret_point verify_sender s sm in
        attempt s' r λ _. handle_responses verify_sender s' sms)

  -- Messages with the signatures of their senders pass the check.
  handle_responses-AreSigned :
      (verify_sender : ℤ → Bytes → Bytes → Outcome Bool) (s : CheckpointSender Point)
      {sms : List SignedMessage} {ds : List Bytes}
      → AreSigned verify_sender sms ds
      → handle_responses verify_sender s sms ≡ handle_data s ds
  unfolding handle_responses handle_data handle_response
  handle_responses-AreSigned verify_sender s none_signed = refl
  handle_responses-AreSigned verify_sender s
        (one_signed {sms = sms} {d = d} {ds = ds} sm' signed e valid e' rest) =
      let then_same : ◌≡◌ {A = CheckpointSender Point → CheckpointSender Point × Outcome (Unit {0})}
          (λ s'. handle_responses verify_sender s' sms) (λ s'. handle_data s' ds) =
        λ i. λ s'. handle_responses-AreSigned verify_sender s' rest i in
      rw (e, valid, e')
        (ap
          (λ (h : CheckpointSender Point → CheckpointSender Point × Outcome (Unit {0})).
            (let (s', r) = response_loop g interpret_point (length d) s d 0 in
              attempt s' r λ _. h s'))
          then_same)

  -- Answers for one key add up in its progress, and change nothing else.
  handle_data-answers :
      (s : CheckpointSender Point) (p : Progress Point) (k : Bytes) (qs : List Point)
      → length k ≡ key_size
      → ((q : Point) → length (point_bytes q) ≡ point_size)
      → ((q : Point) → interpret_point (point_bytes q) ≡ ok q)
      → lookup k s.reverse_messages ≡ some p
      → handle_data s (map (answer k) qs) ≡ (
        record s {
          reverse_messages =
              insert k
                (record p { partial_key = accumulate g p.partial_key qs })
                s.reverse_messages;
        },
        ok tt,
      )
  unfolding handle_data accumulate
  handle_data-answers s p k [] lk lq codec known =
      ap (λ m. (record s { reverse_messages = m }, ok tt))
        (sym (insert-lookup k p s.reverse_messages known))
  handle_data-answers s p k (q ∷ qs) lk lq codec known =
      let p' = record p { partial_key = g.add_points p.partial_key q } in
      let s' = record s { reverse_messages = insert k p' s.reverse_messages } in
      rw (
        response_loop-answer s p k q lk (lq q) (codec q) known,
        handle_data-answers s' p' k qs lk lq codec (lookup-insert_self k p' s.reverse_messages),
        insert-insert k (record p { partial_key = accumulate g (g.add_points p.partial_key q) qs })
            p' s.reverse_messages,
      )

  -- The answers of a whole group are its decryption key. If each member answers for one key, in a
  -- message that it signed, with the product of a point and its share of a secret, the sender's
  -- progress for that key, with nothing accumulated before, holds the product of the point and the
  -- secret, and no call fails.
  pub handle_responses-additive_shares :
      (h : IsGroup g) (verify_sender : ℤ → Bytes → Bytes → Outcome Bool)
      (s : CheckpointSender Point) (p : Progress Point) (k : Bytes) (secret : Scalar) (n : ℕ)
      (random : ℕ → Scalar) (shares : List Scalar) (pt : Point) (sms : List SignedMessage)
      → length k ≡ key_size
      → ((q : Point) → length (point_bytes q) ≡ point_size)
      → ((q : Point) → interpret_point (point_bytes q) ≡ ok q)
      → lookup k s.reverse_messages ≡ some p
      → p.partial_key ≡ g.identity
      → additive_shares g secret n random ≡ ok shares
      → AreSigned verify_sender sms (map (answer k) (map (λ share. g.scale share pt) shares))
      → handle_responses verify_sender s sms ≡ (
        record s {
          reverse_messages =
              insert k (record p { partial_key = g.scale secret pt }) s.reverse_messages;
        },
        ok tt,
      )
  handle_responses-additive_shares h verify_sender s p k secret n random shares pt sms lk lq codec
        known fresh made signed =
      handle_responses-AreSigned verify_sender s signed
      ∙ (handle_data-answers s p k (map (λ share. g.scale share pt) shares) lk lq codec known
          ∙ ap
              (λ q. (
                record s {
                  reverse_messages = insert k (record p { partial_key = q }) s.reverse_messages;
                },
                ok tt,
              ))
              (ap (λ q. accumulate g q (map (λ share. g.scale share pt) shares)) fresh
                ∙ accumulate-additive_shares g h secret n random shares pt made))
