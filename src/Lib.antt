-- ===== src/Lib.antt =====
-- Trellis, an anonymous messaging network. A client sends its message in an envelope of one onion per
-- layer. In each layer a server peels the messages of its links, shuffles them and sends them on; a
-- layer begins when the messages of all senders are in. Anytrust groups register clients and sign
-- the tokens that clients set their paths up with.
--
-- The parts modelled:
--   * Network.Sync: network/synchronization/synchronization.go. `Synchronizer` is the Go struct;
--     `passes` is the condition that `Sync` waits for, `mark` is `SyncOnce` behind the wait, `done`,
--     `trigger` and `reset` are the methods. Each runs under a lock and is one step; `SyncOnce` lets
--     the lock of its wait go before it marks, and is two. Sync/System has the step relation of the
--     callers in server.go and pool.go, the direct `Trigger` of `RoundStart` and the `Done` after a
--     refused `SyncOnce` among them, Sync/Marking and Sync/Barrier what follows.
--   * Config.Shuffler: config/randomness.go, over a source of random bytes `read`. Shuffler/Permutation
--     has the theorems on `Perm` and `SelectRandom`, Shuffler/Seed follows the bytes of the seed.
--   * Config.Groups: config/anytrustGroup.go, the draw of the anytrust groups. Groups/Drawing is about random
--     groups, Groups/Separating and Groups/Choosing about groups that share no server. A duplicate may
--     come up again and again, so the rounds are bounded by fuel; without one a group takes as many
--     rounds as it has servers.
--   * Network.Buffer: network/buffers/inMemory.go. `MemReadWriter` holds the messages of a link; a
--     message that is read in part is kept in `element`, from `offset` on. Buffer/Stream says what is
--     left to be read, Buffer/Rounds and Buffer/Chunks follow `ReadNextChunk`, Buffer/Writes `Write`,
--     Buffer/Transmit all of them.
--   * Network.Metadata and Network.Message: network/messages/signedMessage.go, the metadata of seven
--     words and the message around it, for a link (`as_array`) and for an RPC
--     (`as_network_message`, `parse_signed_message`).
--   * Crypto.Keys and Crypto.Sealing: crypto/signatures.go and crypto/sigcryption.go, the encodings of
--     keys and the encrypt-then-sign boxes.
--   * Server.Envelopes: server/common/marshalling.go, the envelope that a server peels and the final
--     message. Envelopes/Peeling follows one envelope from the client that seals it to the server.
--   * Server.Checkpoint: server/checkpoint/. `VerificationKeyTable` holds the keys that the anytrust
--     group has seen tokens for; `handle_checkpoint_message` admits a key and
--     `handle_trustee_message` takes the message signed with it.
--   * Server.Preparer: server/prepareMessages/server.go and the codecs of marshalling.go, the clients
--     of a group and the tokens that they are given. Preparer/Effects says what a call does to the map.
--   * Server.KeyTable and Server.Onion: server/processMessages/keyTable.go and onion.go. The two maps of
--     the table point to the same records, which are kept in a store. Onion/Accepting follows a
--     client's envelope through the parser, Onion/Routing the plaintext to the next server, and
--     Onion/Once any sequence of messages.
--   * Server.Lengths: server/prepareMessages/lengths.go, the lengths of lightning messages, of receipts
--     and of path messages. Lengths/Closed has the table of lightning messages in closed form,
--     and Client/Sizes compares it with what clients send.
--   * Crypto.Dhkx, Crypto.Pairing and Crypto.Token: crypto/dhkx.go, crypto/pairing/pairing.go and
--     crypto/token/, key agreement, both ways to deal additive shares, and blind signatures, over
--     records of operations with the laws of a group. Token/Issuing follows a
--     token from `prepare` through the shares of the signers to its verification.
--   * Server.Paths and Server.Establishment: the path messages of server/common/ and their parser,
--     server/processMessages/pathEstablishment.go. Establishment/Recording says what a server records
--     and sends on, Establishment/Checking what the signature on the receipt is checked against.
--   * Server.Routers and Server.Sender: server/processMessages/trusteeSender.go and checkpointSender.go,
--     the way from the last layer to the anytrust groups and the decryption of their answers. The keys of
--     the map are visited in an order that is an argument; Sender/Visiting follows it, Sender/Responses
--     and Sender/Opening the answers.
--   * Server.Client: server/prepareMessages/client.go. Client/Relaying takes the onion that a client
--     seals through one server, Client/Delivering through all of them.
--   * Server.Rounds and Server.Setup: server/server.go, the layers of a round with their thresholds, its
--     set up and the submission by clients. Rounds/Layers has the order of the layers,
--     Rounds/Opened what is open at each, Rounds/Progress its threshold, and Setup/Starting a round from
--     its set up on.
--   * Server.Members, Server.Handler and Server.Pool: server/groupMember.go, handler.go and pool.go, what
--     a server keeps for a group, what each message goes through before it is handled, and the queue.
--     Pool/Link takes the messages of a link from the buffer of the sender to the queue of the receiver.
--   * Network.Batching: network/batching.go, the batches that a link is read in and the loop of writes.
--
-- Not modelled: the size of the anytrust groups, which is computed in floating point, the key exchange, the proofs of discrete logarithms and
-- the coordinator; connections and the calls that wait for another server; the files of clients. Out of
-- scope: generated RPC code, the bindings of mcl, kyber and edwards25519, TLS and gRPC connections,
-- and command lines.
--
-- Conventions: bytes are numbers in lists; writers bound them by `% 256`. A Go `int` is an unbounded
-- ℤ (Prelude/Int), its conversions to `uint32` and `uint64` are written out. A Go call that can fail
-- is an `Outcome` (Prelude/Outcome): a value, an `error` of errors/errors.go, or a panic. Slices out of
-- range panic (Prelude/Bytes). A method that changes its receiver returns it. Loops are structural, or
-- run on fuel that is the number of bytes or of elements left, which the theorems show to be enough.
-- A handler that has changed its receiver before it fails returns both (`attempt`). Locks are not
-- modelled: what runs under one lock is one step. Signatures, curves and sources of
-- randomness are parameters.
pub mod Config
pub mod Crypto
pub mod Network
pub mod Prelude
pub mod Server
