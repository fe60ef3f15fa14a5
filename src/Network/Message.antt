-- ===== src/Network/Message.antt =====
-- network/messages/signedMessage.go: a message with its metadata and signature in one buffer. `Data`
-- is the window of `Raw` behind the metadata, of `data_len` bytes; it is no copy.
pub mod RoundTrip
pub mod Examples
use bmrng.Prelude.{ℕ, ◌+◌, ◌-◌, ltb, if◌then◌else◌, Option, none, some, length}
use bmrng.Prelude.Int.{ℤ}
use bmrng.Prelude.Outcome.{Outcome, ok, ◌>>=◌}
use bmrng.Prelude.Bytes.{Bytes, make, slice, copy_at}
use bmrng.Network.Metadata.{Metadata, metadata_size, pack_to, interpret_from}

abbrev pub signature_size : ℕ
signature_size = 64

pub record SignedMessage : Type 0 where
  pub metadata : Metadata
  pub raw : Bytes
  pub data_len : ℕ
  pub signature : Bytes

-- The protobuf message of the RPC.
pub record NetworkMessage : Type 0 where
  pub message_type : ℤ
  pub body : Bytes
  pub signature : Bytes

-- `NewSignedMessage`.
unfoldable pub new : ℕ → Metadata → SignedMessage
new data_len metadata = record {
  metadata = metadata;
  raw = make (data_len + metadata_size + signature_size);
  data_len = data_len;
  signature = make 0;
}

-- `PackTo(m.Data)`: the sender fills the window.
unfoldable pub put_data : SignedMessage → Bytes → Outcome SignedMessage
put_data s d = do
  raw ← copy_at s.raw metadata_size (metadata_size + s.data_len) d
  ok (record s { raw = raw })

-- `GetSignedData`: the metadata is written in front, and the bytes to sign are returned.
unfoldable pub get_signed_data : SignedMessage → Outcome (SignedMessage × Bytes)
get_signed_data s = do
  raw ← pack_to s.metadata s.raw
  d ← slice raw 0 (metadata_size + s.data_len)
  ok (record s { raw = raw }, d)

-- `SignMessage` and `PreHashSign`, with the signature of the bytes given.
unfoldable pub sign : (Bytes → Bytes) → SignedMessage → Outcome SignedMessage
sign signer s = do (t, d) ← get_signed_data s; ok (record t { signature = signer d })

-- `AsArray`: the signature is copied behind the data.
unfoldable pub as_array : SignedMessage → Outcome (SignedMessage × Bytes)
as_array s = do
  raw ← copy_at s.raw (s.data_len + metadata_size) (length s.raw) s.signature
  b ← slice raw 0 (s.data_len + metadata_size + signature_size)
  ok (record s { raw = raw }, b)

-- `AsNetworkMessage`.
unfoldable pub as_network_message : SignedMessage → Outcome NetworkMessage
as_network_message s = do
  d ← slice s.raw 0 (metadata_size + s.data_len)
  ok (record { message_type = s.metadata.kind; body = d; signature = s.signature })

-- `ParseSignedMessage`: `none` is the `nil` of a message that is too short.
unfoldable pub parse_signed_message : NetworkMessage → Outcome (Option SignedMessage)
parse_signed_message m =
    if ltb (length m.body) metadata_size
    then ok none
    else interpret_from m.body >>= λ metadata. ok (
        some (record {
          metadata = metadata;
          raw = m.body;
          data_len = length m.body - metadata_size;
          signature = m.signature;
        }))

-- `m.Data`.
unfoldable pub data_of : SignedMessage → Outcome Bytes
data_of s = slice s.raw metadata_size (metadata_size + s.data_len)
