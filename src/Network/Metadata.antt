-- ===== src/Network/Metadata.antt =====
-- network/messages/signedMessage.go: the metadata in front of every message, as seven little-endian
-- 32-bit words.
pub mod RoundTrip
use bmrng.Prelude.{ℕ, ◌*◌}
use bmrng.Prelude.Int.{ℤ, pos, to_u32, from_u32}
use bmrng.Prelude.Outcome.{Outcome, ok, ◌>>=◌}
use bmrng.Prelude.Bytes.{Bytes}
use bmrng.Prelude.Pack.{put_le, get_le}

-- `kind` is the field `Type`; `group` and `kind` are `int32`, `num_messages` is `uint32`.
pub record Metadata : Type 0 where
  pub kind : ℤ
  pub round : ℤ
  pub layer : ℤ
  pub sender : ℤ
  pub dest : ℤ
  pub group : ℤ
  pub num_messages : ℕ

abbrev pub metadata_size : ℕ
metadata_size = 4 * 7

-- `PackTo`.
unfoldable pub pack_to : Metadata → Bytes → Outcome Bytes
pack_to m b = do
  b₁ ← put_le 4 b 0 m.num_messages
  b₂ ← put_le 4 b₁ 4 (to_u32 m.kind)
  b₃ ← put_le 4 b₂ 8 (to_u32 m.round)
  b₄ ← put_le 4 b₃ 12 (to_u32 m.layer)
  b₅ ← put_le 4 b₄ 16 (to_u32 m.sender)
  b₆ ← put_le 4 b₅ 20 (to_u32 m.dest)
  b₇ ← put_le 4 b₆ 24 (to_u32 m.group)
  ok b₇

-- `InterpretFrom`: `int(...)` of an unsigned word is never negative.
unfoldable pub interpret_from : Bytes → Outcome Metadata
interpret_from b = do
  num_messages ← get_le 4 b 0
  kind ← get_le 4 b 4
  round ← get_le 4 b 8
  layer ← get_le 4 b 12
  sender ← get_le 4 b 16
  dest ← get_le 4 b 20
  group ← get_le 4 b 24
  ok (record {
    kind = from_u32 kind;
    round = pos round;
    layer = pos layer;
    sender = pos sender;
    dest = pos dest;
    group = from_u32 group;
    num_messages = num_messages;
  })
