-- ===== src/Server/Sender/Opening.antt =====
-- The receipts that the sender decrypts with what the groups answered.
use mathlib.Core.Option
use bmrng.Prelude.{
  ◌≡◌, refl, sym, ap, ◌∙◌, Bool, true, false, Bool-cases, inl, inr, if◌then◌else◌, Option, none,
  some, List, subst, length, ℕ, map, arith,
}
use bmrng.Prelude.Assoc.{
  bytes_eq, bytes_beq, bytes_beq_iff, lookup, insert, lookup-insert, lookup-insert_self,
}
use bmrng.Prelude.Int.{ℤ, beq, beq_iff}
use bmrng.Prelude.Outcome.{Outcome, ok, attempt}
use bmrng.Prelude.Bytes.{Bytes}
use bmrng.Crypto.Sealing.{overhead}
use bmrng.Crypto.Sealing.Opening.{IsStreamCipher, nonce_bytes}
use bmrng.Crypto.Dhkx.{Group, IsGroup, additive_shares}
use bmrng.Crypto.Keys.{key_size}
use bmrng.Network.Message.{SignedMessage}
use bmrng.Server.Checkpoint.{point_size}
use bmrng.Server.Envelopes.Peeling.{box}
use bmrng.Server.Sender.Responses.{
  AreSigned, answer, handle_responses, handle_responses-additive_shares,
}
use bmrng.Server.Sender.Visiting.{IsDistinct, IsReady, visits, settled, decrypt_group-IsReady}
use bmrng.Server.Sender.{Progress, CheckpointSender, decrypt_group}

-- A key that is not in the map need not be visited.
outside :
    {A : Type 0} (f : A → A) (o : Option A) (visited : Bool)
    → ((a : A) → o ≡ some a → visited ≡ true)
    → (if visited then Option.map f o else o) ≡ Option.map f o
outside f o true h = refl
outside f none false h = refl
outside f (some a) false h = absurd (ground (arith, h a refl))

module _ {Scalar Point : Type 0} (g : Group Scalar Point) (point_bytes : Point → Bytes)
    (xor_key_stream : Bytes → Bytes → Bytes → Bytes) where
  -- The receipts of a group come out. The members of a group answer for the key of one receipt, each
  -- in a message that it signed, with the product of a point and its share of the group's secret; the
  -- receipt is one that a client sealed, for the round and layer behind the last and for this server,
  -- with the product of that point and the group's secret, it is not used, and nothing is accumulated
  -- for it. Then `HandleResponse` on the answers and `DecryptGroup`, in whatever order it visits every
  -- key of the map once, succeed; this receipt is used and has its client's message; so does every
  -- other receipt of the group, where it was sealed with what was accumulated for it before and was
  -- not used; the receipts of other groups are as they were. Scalars and points have to be a field and
  -- its group, points have 32 bytes that they are read back from, and keys 32.
  pub decrypt_group-handle_responses :
      (h : IsGroup g) (interpret_point : Bytes → Outcome Point)
      (verify_sender : ℤ → Bytes → Bytes → Outcome Bool) (s : CheckpointSender Point)
      (p : Progress Point) (k : Bytes) (secret : Scalar) (n : ℕ) (random : ℕ → Scalar)
      (shares : List Scalar) (pt : Point) (sms : List SignedMessage) (order : List Bytes)
      (messages signer : Bytes → Bytes)
      → IsStreamCipher xor_key_stream
      → length k ≡ key_size
      → ((q : Point) → length (point_bytes q) ≡ point_size)
      → ((q : Point) → interpret_point (point_bytes q) ≡ ok q)
      → ((d : Bytes) → length (signer d) ≡ overhead)
      → lookup k s.reverse_messages ≡ some p
      → p.partial_key ≡ g.identity
      → p.used ≡ false
      → p.boomerang
        ≡ box xor_key_stream
            (messages k)
            (point_bytes (g.scale secret pt))
            signer
            (nonce_bytes s.c.num_layers s.c.num_layers s.c.my_id)
      → additive_shares g secret n random ≡ ok shares
      → AreSigned verify_sender sms
          (map (answer g point_bytes interpret_point k) (map (λ share. g.scale share pt) shares))
      → IsDistinct order
      → ((l : Bytes) (q : Progress Point)
          → lookup l s.reverse_messages ≡ some q
          → visits l order ≡ true)
      → ((l : Bytes) (q : Progress Point)
          → bytes_beq k l ≡ false
          → lookup l s.reverse_messages ≡ some q
          → beq q.group p.group ≡ true
          → IsReady g point_bytes xor_key_stream s signer (messages l) q)
      → (m : List (Bytes × Progress Point)) × ((let (s', r) =
              handle_responses g point_bytes interpret_point verify_sender s sms in
            attempt s' r λ _. decrypt_group g point_bytes xor_key_stream s' p.group order)
          ≡ (record s { reverse_messages = m }, ok tt))
        × ((l : Bytes)
            → lookup l m ≡ (
                if bytes_beq k l
                then some (record p {
                  partial_key = g.scale secret pt;
                  used = true;
                  boomerang = messages k;
                })
                else Option.map (settled p.group (messages l)) (lookup l s.reverse_messages)))
  unfolding settled
  decrypt_group-handle_responses h interpret_point verify_sender s p k secret n random shares pt sms
        order messages signer cipher lk lq codec sig known fresh unused sealed made signed distinct
        all ready =
      let p' = record p { partial_key = g.scale secret pt } in
      let changed : (l : Bytes)
          → bytes_beq k l ≡ false
          → lookup l (insert k p' s.reverse_messages) ≡ lookup l s.reverse_messages =
        λ l other.
          lookup-insert k l p' s.reverse_messages
          ∙ ap (λ b. if b then some p' else lookup l s.reverse_messages) other in
      let this_ready : (l : Bytes) (q : Progress Point)
          → bytes_beq k l ≡ true
          → lookup l (insert k p' s.reverse_messages) ≡ some q
          → IsReady g point_bytes xor_key_stream s signer (messages l) q =
        λ l q this e.
          subst (λ j. IsReady g point_bytes xor_key_stream s signer (messages j) q)
            ((bytes_beq_iff k l).0 this)
            (subst (IsReady g point_bytes xor_key_stream s signer (messages k))
              (ap (λ o. elim o [ none ↦ p' | some v ↦ v ])
                (sym (lookup-insert_self k p' s.reverse_messages)
                  ∙ (ap (λ j. lookup j (insert k p' s.reverse_messages))
                        ((bytes_beq_iff k l).0 this)
                      ∙ e)))
              (unused, sealed)) in
      let (m, decrypted, found) =
        decrypt_group-IsReady g point_bytes xor_key_stream
          (record s { reverse_messages = insert k p' s.reverse_messages }) p.group messages signer
          order cipher (λ q. omega (arith, lq q)) sig distinct
          (λ l q inside e same. (elim (Bool-cases (bytes_beq k l)) [
            | inl this ↦ this_ready l q this e
            | inr other ↦ ready l q other (sym (changed l other) ∙ e) same
          ])) in
      (
        m,
        rw
            (handle_responses-additive_shares g point_bytes interpret_point h verify_sender s p k
              secret n random shares pt sms lk lq codec known fresh made signed)
            decrypted,
        λ l. elim (Bool-cases (bytes_beq k l)) [
          | inl this ↦
              subst
                (λ j. lookup j m ≡ (
                  if bytes_beq k j
                  then some (record p' { used = true; boomerang = messages k })
                  else Option.map (settled p.group (messages j)) (lookup j s.reverse_messages)))
                ((bytes_beq_iff k l).0 this)
                (found k
                  ∙ rw
                      (
                        all k p known,
                        lookup-insert_self k p' s.reverse_messages,
                        (beq_iff p.group p.group).1 refl,
                        (bytes_beq_iff k k).1 refl,
                      )
                      refl)
          | inr other ↦ rw other (
              found l
              ∙ (ap (λ o. if visits l order then Option.map (settled p.group (messages l)) o else o)
                    (changed l other)
                  ∙ outside (settled p.group (messages l)) (lookup l s.reverse_messages)
                      (visits l order) (all l)))
        ],
      )
