-- ===== src/Network/Message/Examples.antt =====
-- Concrete messages.
use bmrng.Prelude.{false}
use bmrng.Prelude.{◌≡◌, some, [], ◌∷◌, ◌++◌, length, arith}
use bmrng.Prelude.Int.{pos, negsuc, is_negative}
use bmrng.Prelude.Outcome.{ok, ◌>>=◌}
use bmrng.Prelude.Bytes.{Bytes, make}
use bmrng.Network.Metadata.{Metadata, pack_to, interpret_from}
use bmrng.Network.Metadata.RoundTrip.{
  header, on_wire, IsPlain, interpret_from-pack_to, interpret_from-header,
  interpret_from-not_negative,
}
use bmrng.Network.Message.{
  new, put_data, get_signed_data, sign, as_network_message, parse_signed_message, data_of,
}
use bmrng.Network.Message.RoundTrip.{received, send-receive}

abbrev batch : Metadata
batch = record {
  kind = pos 3;
  round = pos 12;
  layer = pos 2;
  sender = pos 5;
  dest = pos 6;
  group = negsuc 0;
  num_messages = 40;
}

-- A client's request carries the layer -1.
abbrev request : Metadata
request = record batch { layer = negsuc 0 }

-- A stand-in for the signatures of a key: 64 bytes that depend on the message.
abbrev checksum : Bytes → Bytes
checksum b = length b ∷ make 63

interpret_from-pack_to_example :
    (pack_to request (make 30) >>= interpret_from) ≡ ok (on_wire request)
interpret_from-pack_to_example =
    interpret_from-pack_to request (make 30) (omega arith) (omega arith)

batch-IsPlain : IsPlain batch
batch-IsPlain = record {
  kind_fits = omega arith;
  group_fits = omega arith;
  num_messages_fits = omega arith;
  round_fits = omega arith;
  layer_fits = omega arith;
  sender_fits = omega arith;
  dest_fits = omega arith;
}

interpret_from-not_negative_example :
    (is_negative (on_wire request).round ≡ false)
    × (is_negative (on_wire request).layer ≡ false)
    × (is_negative (on_wire request).sender ≡ false)
    × (is_negative (on_wire request).dest ≡ false)
interpret_from-not_negative_example =
    interpret_from-not_negative (header request ++ []) (on_wire request)
      (interpret_from-header request [] (omega arith))

send-receive_example :
    ((put_data (new 3 request) (7 ∷ 8 ∷ 9 ∷ [])
        >>= sign checksum
        >>= as_network_message
        >>= parse_signed_message)
      ≡ ok (some (received checksum request (7 ∷ 8 ∷ 9 ∷ []))))
    × (data_of (received checksum request (7 ∷ 8 ∷ 9 ∷ [])) ≡ ok (7 ∷ 8 ∷ 9 ∷ []))
    × (get_signed_data (received checksum request (7 ∷ 8 ∷ 9 ∷ []))
        ≡ ok (received checksum request (7 ∷ 8 ∷ 9 ∷ []), header request ++ 7 ∷ 8 ∷ 9 ∷ []))
send-receive_example = send-receive checksum request (7 ∷ 8 ∷ 9 ∷ []) (omega arith)
