-- ===== src/Server/Handler.antt =====
-- server/handler.go: what every message goes through before it is handled. The handler's round changes
-- while a caller waits; the rounds that the caller finds when it wakes up are a list.
pub mod Waiting
pub mod Examples
use bmrng.Prelude.{
  ℕ, Bool, true, false, ◌||◌, if◌then◌else◌, Option, none, some, List, [], ◌∷◌, Option-cases,
}
use bmrng.Prelude.Int.{ℤ, pos, negsuc, beq, ltz, is_negative, int_eq}
use bmrng.Prelude.Assoc.{lookup}
use bmrng.Prelude.Outcome.{
  Outcome, ok, err, panic, bad_metadata, unrecognized, wrong_server, bad_element, ◌>>=◌,
}
use bmrng.Prelude.Bytes.{Bytes}
use bmrng.Network.Message.{NetworkMessage, SignedMessage, parse_signed_message}
use bmrng.Network.Sync.{blocked}
use bmrng.Crypto.Keys.{interpret_key}
use bmrng.Server.Checkpoint.{VerificationKeyTable, add}
use bmrng.Server.KeyTable.{KeyLookupTable, add_key}

-- The types of messages, in the order of their numbers.
abbrev pub client_register : ℤ
client_register = pos 0

abbrev pub client_token_request : ℤ
client_token_request = pos 1

abbrev pub client_message_submission : ℤ
client_message_submission = pos 2

abbrev pub key_share_push : ℤ
key_share_push = pos 3

abbrev pub group_checkpoint_token : ℤ
group_checkpoint_token = pos 8

abbrev pub group_checkpoint_signature : ℤ
group_checkpoint_signature = pos 9

abbrev pub client_get_receipt : ℤ
client_get_receipt = pos 10

-- The loop test of `WaitForRound`.
unfoldable pub must_wait : ℤ → ℤ → Bool
must_wait round current = ltz current round || beq current blocked

-- `WaitForRound`, from the handler's round `current` on: none while the caller still waits.
unfoldable pub wait_for_round : ℤ → ℤ → List ℤ → Option (Outcome (Unit {0}))
unfolding must_wait
wait_for_round round current [] = if must_wait round current then none else some (ok tt)
wait_for_round round current (next ∷ wakes) =
    let rest = wait_for_round round next wakes in
    if must_wait round current
    then (if ltz round next then some (err bad_metadata) else rest)
    else some (ok tt)

-- `checkForGroup`: whether the message is one of a group, and whether the server is in it.
unfoldable pub check_for_group : {Member : Type 0} → ℤ → ℤ → List (ℤ × Member) → Bool × Bool
check_for_group kind group aliases =
    if beq kind client_register
      || beq kind client_token_request
      || beq kind group_checkpoint_token
      || beq kind group_checkpoint_signature
    then (true, elim (lookup group aliases) [ none ↦ false | some _ ↦ true ])
    else (false, true)

-- The handler that a message of a client goes to.
pub data Operation : Type 0 where
  receive_key_share register_client handle_token_request : Operation
  handle_submission_message get_receipt : Operation

-- The switch of `HandleSignedMessage`.
unfoldable pub operation_of : ℤ → Outcome Operation
operation_of kind =
    if beq kind key_share_push
    then ok receive_key_share
    else if beq kind client_register
    then ok register_client
    else if beq kind client_token_request
    then ok handle_token_request
    else if beq kind client_message_submission
    then ok handle_submission_message
    else if beq kind client_get_receipt
    then ok get_receipt
    else err unrecognized

-- `HandleSignedMessage` behind the wait; the error handler panics.
unfoldable pub dispatch :
    {Member : Type 0} → List (ℤ × Member) → SignedMessage → Outcome (Operation × SignedMessage)
unfolding check_for_group operation_of
dispatch aliases m =
    (let (group_op, exists) = check_for_group m.metadata.kind m.metadata.group aliases in
      if group_op
      then (if exists then (operation_of m.metadata.kind >>= λ op. ok (op, m)) else panic)
      else (operation_of m.metadata.kind >>= λ op. ok (op, m)))

-- Once the caller of `WaitForRound` is through, or not.
unfoldable pub after_wait :
    {Member : Type 0}
    → List (ℤ × Member)
    → SignedMessage
    → Option (Outcome (Unit {0}))
    → Option (Outcome (Operation × SignedMessage))
unfolding dispatch
after_wait aliases m none = none
after_wait aliases m (some r) = some (r >>= λ _. dispatch aliases m)

-- With the message that was parsed; nil is one that is too short.
unfoldable pub handle_parsed :
    {Member : Type 0}
    → List (ℤ × Member)
    → ℤ
    → List ℤ
    → Outcome (Option SignedMessage)
    → Option (Outcome (Operation × SignedMessage))
unfolding after_wait wait_for_round
handle_parsed aliases current wakes (ok none) = some (err bad_metadata)
handle_parsed aliases current wakes (ok (some m)) =
    after_wait aliases m (wait_for_round m.metadata.round current wakes)
handle_parsed aliases current wakes (err why) = some (err why)
handle_parsed aliases current wakes panic = some panic

-- `HandleSignedMessage`, up to the handler that it calls.
unfoldable pub handle_signed_message :
    {Member : Type 0}
    → List (ℤ × Member)
    → ℤ
    → List ℤ
    → NetworkMessage
    → Option (Outcome (Operation × SignedMessage))
unfolding handle_parsed
handle_signed_message aliases current wakes m =
    handle_parsed aliases current wakes (parse_signed_message m)

-- What `SkipPathGen` is sent.
pub record SkipPathGenMessage : Type 0 where
  pub layer : ℤ
  pub group : ℤ
  pub forwarding_server : ℤ
  pub forward_key : Bytes
  pub sending_server : ℤ
  pub sending_key : Bytes

-- A key whose parsing error is dropped is empty.
unfoldable pub key_or_empty : Outcome Bytes → Outcome Bytes
key_or_empty (ok k) = ok k
key_or_empty (err why) = ok []
key_or_empty panic = panic

-- `SkipPathGen`, of a group: the key is added without a token.
unfoldable pub skip_path_gen_group :
    VerificationKeyTable → SkipPathGenMessage → Outcome VerificationKeyTable
unfolding key_or_empty
skip_path_gen_group t k = key_or_empty (interpret_key k.sending_key) >>= add t

-- `SkipPathGen`, of a layer: the path is added without its message.
unfoldable pub skip_path_gen_layer :
    {Expanded Point : Type 0}
    → Bool
    → (Bytes → Option Point)
    → (Point → Bytes)
    → (Bytes → Outcome Expanded)
    → KeyLookupTable Expanded
    → SkipPathGenMessage
    → Outcome (KeyLookupTable Expanded)
unfolding key_or_empty
skip_path_gen_layer pre_expand_keys to_curve_point agree expand_key t k = do
  sending_key ← key_or_empty (interpret_key k.sending_key)
  forwarding_key ← key_or_empty (interpret_key k.forward_key)
  pt ← elim (to_curve_point sending_key) [ none ↦ err bad_element | some pt ↦ ok pt ]
  elim (add_key pre_expand_keys to_curve_point agree expand_key t sending_key (agree pt)
      k.sending_server k.forwarding_server forwarding_key) [
        | ok (u, i) ↦ ok u
        | err why ↦ ok t
        | panic ↦ panic
      ]
