-- ===== src/Server/Onion.antt =====
-- server/processMessages/onion.go: the parser that peels the messages of a layer, and the router that
-- packs what is inside for the next server. The stream cipher and signatures are parameters.
pub mod Accepting
pub mod Usage
pub mod Once
pub mod Routing
pub mod Examples
use bmrng.Prelude.{
  ℕ, ◌+◌, Bool, true, false, ◌==◌, if◌then◌else◌, Option, none, some, List, [], ◌∷◌, get_elem?,
}
use bmrng.Prelude.Int.{ℤ, add, int_eq}
use bmrng.Prelude.Assoc.{lookup, insert}
use bmrng.Prelude.Outcome.{
  Outcome, ok, err, panic, attempt, key_not_found, decryption_failure, duplicate, require, ◌>>=◌,
  ◌>>◌,
}
use bmrng.Prelude.Bytes.{Bytes}
use bmrng.Crypto.Keys.{lookup_key}
use bmrng.Crypto.Sealing.{nonce, secret_open}
use bmrng.Network.Buffer.{MemReadWriter, write}
use bmrng.Server.Envelopes.{
  LightningEnvelope, interpret_lightning, lightning_signed_data, lightning_signature,
  marshal_lightning,
}
use bmrng.Server.KeyTable.{BootstrapKey, KeyLookupTable, find_key, num_keys, set_used, reset_usage}

-- What the parser reads of `CommonState`.
pub record Position : Type 0 where
  pub round : ℤ
  pub layer : ℤ
  pub num_layers : ℤ
  pub my_id : ℤ

pub record OnionParser (Expanded : Type 0) : Type 0 where
  pub c : Position
  pub count : ℕ
  pub key_table : KeyLookupTable Expanded
  pub reverse : Bool

-- The router: a buffer for each server.
abbrev pub LightningRouter : Type 0
LightningRouter = List (ℤ × MemReadWriter)

module _ {Expanded : Type 0} where
  -- `NewOnionParser`.
  unfoldable pub new : Position → KeyLookupTable Expanded → Bool → OnionParser Expanded
  new c table reverse = record { c = c; count = 0; key_table = table; reverse = reverse }

  -- The layer of the nonce, different for messages in reverse.
  unfoldable pub nonce_layer : OnionParser Expanded → ℤ
  nonce_layer o = if o.reverse then add o.c.layer o.c.num_layers else o.c.layer

  unfoldable pub all_keys_accounted_for : OnionParser Expanded → OnionParser Expanded × Bool
  all_keys_accounted_for o =
      if o.count == num_keys o.key_table
      then (record o { key_table = reset_usage o.key_table }, true)
      else (o, false)

  module _ (xor_key_stream : Bytes → Bytes → Bytes → Bytes) (verify : Bytes → Bytes → Bytes → Bool)
      (verify_expanded : Expanded → Bytes → Bytes → Bool) where
    -- The verification with the expanded key, if there is one.
    unfoldable pub verify_with : Option Expanded → Bytes → Bytes → Bytes → Bool
    verify_with none key m s = verify key m s
    verify_with (some e) key m s = verify_expanded e m s

    unfoldable pub signature_valid : BootstrapKey Expanded → Bool → Bytes → Bytes → Bool
    unfolding verify_with
    signature_valid k reverse m s =
        if reverse
        then verify_with k.expanded_outgoing_verification_key k.outgoing_verification_key m s
        else verify_with k.expanded_verification_key k.verification_key m s

    unfoldable pub decryption_key : BootstrapKey Expanded → Bool → Bytes
    decryption_key k reverse = if reverse then k.outgoing_shared_key else k.shared_key

    -- What is checked and decrypted of an envelope with the key found for it.
    unfoldable pub open_with :
        OnionParser Expanded → LightningEnvelope → BootstrapKey Expanded → Outcome Bytes
    unfolding signature_valid decryption_key nonce_layer
    open_with o lm k = do
      n ← nonce o.c.round (nonce_layer o) o.c.my_id
      (lm', m) ← lightning_signed_data o.c.round (nonce_layer o) o.c.my_id lm
      s ← lightning_signature lm'
      require (signature_valid k o.reverse m s) decryption_failure
      secret_open xor_key_stream lm'.signed_ciphertext n (decryption_key k o.reverse)

    -- The key is used, under the lock.
    unfoldable pub use_key :
        OnionParser Expanded
        → ℕ
        → BootstrapKey Expanded
        → Bytes
        → OnionParser Expanded × Outcome (Bytes × ℕ)
    use_key o i k decrypted = if k.used then (o, err duplicate) else (
      record o {
        count = o.count + 1;
        key_table = record o.key_table { heap = set_used i true o.key_table.heap };
      },
      ok (decrypted, i),
    )

    -- With the pointer that the table had, nil or to a record.
    unfoldable pub parse_with :
        OnionParser Expanded
        → LightningEnvelope
        → Option ℕ
        → OnionParser Expanded × Outcome (Bytes × ℕ)
    unfolding open_with use_key
    parse_with o lm none = (o, err key_not_found)
    parse_with o lm (some i) = elim (get_elem? o.key_table.heap i) [
      | none ↦ (o, panic)
      | some k ↦ attempt o (open_with o lm k) λ decrypted. use_key o i k decrypted
    ]

    -- `AuthenticatedOnionParse`.
    unfoldable pub authenticated_onion_parse :
        OnionParser Expanded → Bytes → OnionParser Expanded × Outcome (Bytes × ℕ)
    unfolding parse_with
    authenticated_onion_parse o message =
        attempt o (interpret_lightning message)
          λ lm. parse_with o lm (find_key o.key_table lm.key o.reverse)

  -- The envelope for the next server, or in reverse for the one before.
  unfoldable pub outgoing_envelope : Bytes → BootstrapKey Expanded → Bool → Outcome Bytes
  outgoing_envelope decrypted k reverse = do
    key ← lookup_key (if reverse then k.verification_key else k.outgoing_verification_key)
    marshal_lightning (record { key = key; signed_ciphertext = decrypted; raw = [] })

  -- `AuthenticatedOnionPack`.
  unfoldable pub authenticated_onion_pack :
      LightningRouter → Bytes → BootstrapKey Expanded → Bool → Outcome LightningRouter
  unfolding outgoing_envelope
  authenticated_onion_pack l decrypted k reverse = do
    let dest = if reverse then k.prev_server else k.next_server
    b ← outgoing_envelope decrypted k reverse
    buffer ← elim (lookup dest l) [ none ↦ panic | some buffer ↦ ok buffer ]
    buffer' ← write buffer b
    ok (insert dest buffer' l)
