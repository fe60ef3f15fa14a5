-- ===== src/Server/Sender/Visiting.antt =====
-- `DecryptGroup` over the keys of the map, in any order in which Go visits them.
use mathlib.Core.Option
use bmrng.Prelude.{
  ◌≤◌, ◌≡◌, refl, sym, ap, subst, ◌∙◌, Bool, true, false, Bool-cases, inl, inr, if◌then◌else◌,
  Option, none, some, List, [], ◌∷◌, ◌++◌, length, take, arith,
}
use bmrng.Prelude.Assoc.{
  bytes_eq, bytes_beq, bytes_beq_iff, lookup, insert, lookup-insert, lookup-insert_self,
}
use bmrng.Prelude.Int.{ℤ, beq}
use bmrng.Prelude.Outcome.{ok}
use bmrng.Prelude.Bytes.{Bytes}
use bmrng.Crypto.Dhkx.{Group}
use bmrng.Crypto.Sealing.{symmetric_key_size, block_size, overhead}
use bmrng.Crypto.Sealing.Opening.{
  IsStreamCipher, encrypted, nonce_bytes, length-nonce_bytes, nonce_lem, secret_open_lem,
}
use bmrng.Server.Envelopes.Peeling.{box}
use bmrng.Server.Sender.{Progress, CheckpointSender, handle_one, decrypt_found, decrypt_group}

-- Whether a key is visited.
unfoldable pub visits : Bytes → List Bytes → Bool
visits l [] = false
visits l (k ∷ order) = if bytes_beq k l then true else visits l order

-- No key is visited twice.
unfoldable pub IsDistinct : List Bytes → Type 0
IsDistinct [] = Unit
IsDistinct (k ∷ order) = (visits k order ≡ false) × IsDistinct order

-- A receipt of the group is used and has its message; one of another group is as it was.
unfoldable pub settled : {Point : Type 0} → ℤ → Bytes → Progress Point → Progress Point
settled group message p =
    if beq p.group group then record p { used = true; boomerang = message } else p

module _ {Scalar Point : Type 0} (g : Group Scalar Point) (point_bytes : Point → Bytes)
    (xor_key_stream : Bytes → Bytes → Bytes → Bytes) where
  -- A receipt that is not used, and that a client sealed for the round and layer behind the last, and
  -- for this server, with the key whose point has been accumulated.
  abbrev pub IsReady : CheckpointSender Point → (Bytes → Bytes) → Bytes → Progress Point → Type 0
  IsReady s signer message p =
      (p.used ≡ false)
      × (p.boomerang
          ≡ box xor_key_stream message (point_bytes p.partial_key) signer
              (nonce_bytes s.c.num_layers s.c.num_layers s.c.my_id))

  handle_one-IsReady :
      (s : CheckpointSender Point) (p : Progress Point) (l message : Bytes) (signer : Bytes → Bytes)
      → IsStreamCipher xor_key_stream
      → symmetric_key_size ≤ length (point_bytes p.partial_key)
      → ((d : Bytes) → length (signer d) ≡ overhead)
      → IsReady s signer message p
      → handle_one g point_bytes xor_key_stream s l p ≡ (
        record s {
          reverse_messages =
              insert l (record p { used = true; boomerang = message }) s.reverse_messages;
        },
        ok tt,
      )
  unfolding handle_one box encrypted
  handle_one-IsReady s p l message signer cipher lk sig (fresh, sealed) =
      let n = nonce_bytes s.c.num_layers s.c.num_layers s.c.my_id in
      let ln = length-nonce_bytes s.c.num_layers s.c.num_layers s.c.my_id in
      let key = point_bytes p.partial_key in
      let c = encrypted xor_key_stream key n message in
      rw (
        nonce_lem s.c.num_layers s.c.num_layers s.c.my_id,
        sealed,
        secret_open_lem xor_key_stream c (signer (n ++ c)) n key ln lk (sig _),
        cipher.involutive (take symmetric_key_size key) (take block_size n) message,
        fresh,
      )

  -- What the map has for a key after the visit of `order`.
  abbrev found_after :
      CheckpointSender Point → ℤ → (Bytes → Bytes) → List Bytes → Bytes → Option (Progress Point)
  found_after s group messages order l =
      if visits l order
      then Option.map (settled group (messages l)) (lookup l s.reverse_messages)
      else lookup l s.reverse_messages

  decrypt_found-IsReady :
      (s : CheckpointSender Point) (group : ℤ) (messages signer : Bytes → Bytes) (k : Bytes)
      → IsStreamCipher xor_key_stream
      → ((q : Point) → symmetric_key_size ≤ length (point_bytes q))
      → ((d : Bytes) → length (signer d) ≡ overhead)
      → ((p : Progress Point)
          → lookup k s.reverse_messages ≡ some p
          → beq p.group group ≡ true
          → IsReady s signer (messages k) p)
      → (m : List (Bytes × Progress Point)) × (decrypt_found g point_bytes xor_key_stream s group k
            (lookup k s.reverse_messages)
          ≡ (record s { reverse_messages = m }, ok tt))
        × (lookup k m ≡ Option.map (settled group (messages k)) (lookup k s.reverse_messages))
        × ((l : Bytes) → bytes_beq k l ≡ false → lookup l m ≡ lookup l s.reverse_messages)
  unfolding decrypt_found settled
  decrypt_found-IsReady s group messages signer k cipher lk sig ready =
      cases (lookup k s.reverse_messages) refl
    where
      cases :
          (o : Option (Progress Point))
          → lookup k s.reverse_messages ≡ o
          → (m : List (Bytes × Progress Point)) × (decrypt_found g point_bytes xor_key_stream s
                group k o
              ≡ (record s { reverse_messages = m }, ok tt))
            × (lookup k m ≡ Option.map (settled group (messages k)) o)
            × ((l : Bytes) → bytes_beq k l ≡ false → lookup l m ≡ lookup l s.reverse_messages)
      cases none e = (s.reverse_messages, refl, e, λ l other. refl)
      cases (some p) e = elim (Bool-cases (beq p.group group)) [
        | inl same ↦ (
          insert k (record p { used = true; boomerang = messages k }) s.reverse_messages,
          rw same (
              handle_one-IsReady s p k (messages k) signer cipher (lk p.partial_key) sig
                (ready p e same)),
          rw same (
              lookup-insert_self k (record p { used = true; boomerang = messages k })
                s.reverse_messages),
          λ l other.
              lookup-insert k l (record p { used = true; boomerang = messages k })
                s.reverse_messages
              ∙ ap
                  (λ b.
                    if b
                    then some (record p { used = true; boomerang = messages k })
                    else lookup l s.reverse_messages)
                  other,
        )
        | inr foreign ↦ (s.reverse_messages, rw foreign refl, rw foreign e, λ l other. refl)
      ]

  -- Every receipt of the group that is visited comes out, whatever the order.
  pub decrypt_group-IsReady :
      (s : CheckpointSender Point) (group : ℤ) (messages signer : Bytes → Bytes)
      (order : List Bytes)
      → IsStreamCipher xor_key_stream
      → ((q : Point) → symmetric_key_size ≤ length (point_bytes q))
      → ((d : Bytes) → length (signer d) ≡ overhead)
      → IsDistinct order
      → ((l : Bytes) (p : Progress Point)
          → visits l order ≡ true
          → lookup l s.reverse_messages ≡ some p
          → beq p.group group ≡ true
          → IsReady s signer (messages l) p)
      → (m : List (Bytes × Progress Point)) × (decrypt_group g point_bytes xor_key_stream s group
            order
          ≡ (record s { reverse_messages = m }, ok tt))
        × ((l : Bytes) → lookup l m ≡ found_after s group messages order l)
  unfolding decrypt_group visits IsDistinct
  decrypt_group-IsReady s group messages signer [] cipher lk sig distinct ready =
      (s.reverse_messages, refl, λ l. refl)
  decrypt_group-IsReady s group messages signer (k ∷ order) cipher lk sig (new, distinct) ready =
      let old = s.reverse_messages in
      let (m, found, mine, kept) =
        decrypt_found-IsReady s group messages signer k cipher lk sig
          (λ p. ready k p (rw ((bytes_beq_iff k k).1 refl) refl)) in
      let (m', rest, ends) =
        decrypt_group-IsReady (record s { reverse_messages = m }) group messages signer order cipher
          lk sig distinct
          (λ l p inside e.
            (let other = apart k l order new inside in
              ready l p (rw other inside) (sym (kept l other) ∙ e))) in
      (
        m',
        rw found rest,
        λ l. elim (Bool-cases (bytes_beq k l)) [
          | inl same ↦
              subst (λ j. lookup j m' ≡ found_after s group messages (k ∷ order) j)
                ((bytes_beq_iff k l).0 same) (here k m' m order new mine (ends k))
          | inr other ↦ rw other (
              ends l
              ∙ ap (λ o. if visits l order then Option.map (settled group (messages l)) o else o)
                  (kept l other))
        ],
      )
    where
      here :
          (k : Bytes) (m' m : List (Bytes × Progress Point)) (order : List Bytes)
          → visits k order ≡ false
          → lookup k m ≡ Option.map (settled group (messages k)) (lookup k s.reverse_messages)
          → lookup k m' ≡ found_after (record s { reverse_messages = m }) group messages order k
          → lookup k m' ≡ found_after s group messages (k ∷ order) k
      here k m' m order new mine end = end ∙ rw (new, (bytes_beq_iff k k).1 refl) mine

      apart :
          (k l : Bytes) (order : List Bytes)
          → visits k order ≡ false
          → visits l order ≡ true
          → bytes_beq k l ≡ false
      apart k l order new inside = elim (Bool-cases (bytes_beq k l)) [
        | inl same ↦ absurd (
            ground
              (arith, subst (λ j. visits j order ≡ false) ((bytes_beq_iff k l).0 same) new, inside))
        | inr other ↦ other
      ]
