-- ===== src/Server/Members.antt =====
-- server/groupMember.go: what a server keeps for each anytrust group that it is in. The group's keys
-- are arguments of the handlers of Server/Checkpoint and Server/Preparer.
pub mod Finishing
pub mod Examples
use bmrng.Prelude.{ℕ, Bool, true, false, if◌then◌else◌, Option, none, some, List, []}
use bmrng.Prelude.Int.{ℤ, pos, succ}
use bmrng.Prelude.Outcome.{Outcome, ok, panic}
use bmrng.Prelude.Bytes.{Bytes}
use bmrng.Network.Sync.{Synchronizer, Callback, reset, new as new_synchronizer}
use bmrng.Server.Checkpoint.{
  Checkpoint, all_signatures_accounted_for, reset_signature_marking, new as new_checkpoint,
}

pub record GroupMember : Type 0 where
  pub num_servers : ℕ
  pub round : ℤ
  pub checkpoint : Checkpoint
  pub synchronizer : Synchronizer
  pub messages_ready : Bool

-- `NewGroupMember`; `callback` is the member's own `OnThreshold`.
unfoldable pub new : ℕ → ℤ → ℤ → Callback → GroupMember
new num_servers round num_layers callback = record {
  num_servers = num_servers;
  round = round;
  checkpoint = new_checkpoint num_layers;
  synchronizer = new_synchronizer round (pos 0) num_servers (some callback);
  messages_ready = false;
}

-- `OnThreshold`: the next threshold and layer.
unfoldable pub on_threshold : GroupMember → ℤ → Outcome (GroupMember × ℕ × ℤ)
on_threshold g layer =
    if all_signatures_accounted_for g.checkpoint
    then ok (record g { messages_ready = true }, g.num_servers, succ layer)
    else panic

-- `NewLightningRound`.
unfoldable pub new_lightning_round : GroupMember → ℤ → GroupMember
new_lightning_round g checkpoint_layer = record g {
  checkpoint = record g.checkpoint {
    final_messages = [];
    anonymous_signing_keys = reset_signature_marking g.checkpoint.anonymous_signing_keys;
  };
  messages_ready = false;
  synchronizer = reset g.synchronizer g.round checkpoint_layer g.num_servers;
}

-- `GetMessages`: none while the caller waits.
unfoldable pub get_messages : GroupMember → Option (List Bytes)
get_messages g = if g.messages_ready then some g.checkpoint.final_messages else none
