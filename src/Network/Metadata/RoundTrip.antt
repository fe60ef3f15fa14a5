-- ===== src/Network/Metadata/RoundTrip.antt =====
-- What a receiver reads of the metadata that a sender packed.
use mathlib.Core.List.{append_assoc, append-nil}
use bmrng.Prelude.{false}
use bmrng.Prelude.{
  ℕ, ◌+◌, ◌*◌, ◌^◌, ◌≤◌, ◌<◌, ◌≡◌, refl, ap, ◌∙◌, List, [], ◌∷◌, ◌++◌, length, fill, length-append,
  arith,
}
use bmrng.Prelude.Int.{
  pos, to_u32, from_u32, to_u32-lt, from_u32-to_u32, to_u32_same, IsInt32, IsUint32, is_negative,
}
use bmrng.Prelude.Outcome.{Outcome, ok, ◌>>=◌}
use bmrng.Prelude.Bytes.{Bytes, le_bytes, length-le_bytes}
use bmrng.Prelude.Pack.{put_le, get_le, put_le-next, get_le-part}
use bmrng.Network.Metadata.{Metadata, metadata_size, pack_to, interpret_from}

-- The words of the header, in the order of the wire.
abbrev words : Metadata → List ℕ
words m =
    m.num_messages
    ∷ to_u32 m.kind
    ∷ to_u32 m.round
    ∷ to_u32 m.layer
    ∷ to_u32 m.sender
    ∷ to_u32 m.dest
    ∷ to_u32 m.group
    ∷ []

unfoldable pub word_bytes : List ℕ → Bytes
word_bytes [] = []
word_bytes (w ∷ ws) = le_bytes 4 w ++ word_bytes ws

unfoldable pub header : Metadata → Bytes
header m = word_bytes (words m)

length-word_bytes : (ws : List ℕ) → length (word_bytes ws) ≡ 4 * length ws
unfolding word_bytes
length-word_bytes [] = refl
length-word_bytes (w ∷ ws) =
    omega (
      arith,
      length-append (le_bytes 4 w) (word_bytes ws),
      length-le_bytes 4 w,
      length-word_bytes ws,
    )

pub length-header : (m : Metadata) → length (header m) ≡ metadata_size
unfolding header
length-header m = length-word_bytes (words m)

-- Writing words one behind the other, and what is done with the buffer then.
put_words : List ℕ → ℕ → (Bytes → Outcome Bytes) → Bytes → Outcome Bytes
put_words [] lo k b = k b
put_words (w ∷ ws) lo k b = put_le 4 b lo w >>= λ b'. put_words ws (lo + 4) k b'

put_words-fill :
    (ws : List ℕ) (lo : ℕ) (b out : Bytes)
    → length out ≡ lo
    → lo + 4 * length ws ≤ length b
    → put_words ws lo ok (fill b 0 out) ≡ ok (fill b 0 (out ++ word_bytes ws))
unfolding put_words word_bytes
put_words-fill [] lo b out p r = rw (append-nil out)
put_words-fill (w ∷ ws) lo b out p r = rw (put_le-next 4 b out lo w p (omega arith)) (
    put_words-fill ws (lo + 4) b (out ++ le_bytes 4 w)
      (omega (arith, length-append out (le_bytes 4 w), length-le_bytes 4 w)) (omega arith)
    ∙ rw (append_assoc out (le_bytes 4 w) (word_bytes ws)))

-- `PackTo` writes the header over the first 28 bytes of a buffer that has them.
pub pack_to-fill :
    (m : Metadata) (b : Bytes) → metadata_size ≤ length b → pack_to m b ≡ ok (fill b 0 (header m))
unfolding pack_to header put_words
pack_to-fill m b h = put_words-fill (words m) 0 b [] refl h

word_bytes-append : (us ws : List ℕ) → word_bytes (us ++ ws) ≡ word_bytes us ++ word_bytes ws
unfolding word_bytes
word_bytes-append [] ws = refl
word_bytes-append (u ∷ us) ws =
    rw (word_bytes-append us ws, append_assoc (le_bytes 4 u) (word_bytes us) (word_bytes ws))

-- The word behind `us`.
get_le-word :
    (us : List ℕ) (w : ℕ) (ws : List ℕ) (rest : Bytes) (lo : ℕ)
    → 4 * length us ≡ lo
    → w < 256 ^ 4
    → get_le 4 (word_bytes (us ++ w ∷ ws) ++ rest) lo ≡ ok w
unfolding word_bytes
get_le-word us w ws rest lo p h =
    rw
      (
        word_bytes-append us (w ∷ ws),
        append_assoc (word_bytes us) (le_bytes 4 w ++ word_bytes ws) rest,
        append_assoc (le_bytes 4 w) (word_bytes ws) rest,
      )
      (get_le-part 4 (word_bytes us) (word_bytes ws ++ rest) lo w (length-word_bytes us ∙ p) h)

-- What the receiver makes of the metadata.
abbrev pub on_wire : Metadata → Metadata
on_wire m = record {
  kind = from_u32 (to_u32 m.kind);
  round = pos (to_u32 m.round);
  layer = pos (to_u32 m.layer);
  sender = pos (to_u32 m.sender);
  dest = pos (to_u32 m.dest);
  group = from_u32 (to_u32 m.group);
  num_messages = m.num_messages;
}

-- A header, with anything behind it, is read back as the same metadata, where each `int` has been
-- reduced to its low 32 bits and is not negative.
pub interpret_from-header :
    (m : Metadata) (rest : Bytes)
    → m.num_messages < 2 ^ 32
    → interpret_from (header m ++ rest) ≡ ok (on_wire m)
unfolding interpret_from header
interpret_from-header m rest h =
    let n = m.num_messages in
    let k = to_u32 m.kind in
    let r = to_u32 m.round in
    let l = to_u32 m.layer in
    let s = to_u32 m.sender in
    let d = to_u32 m.dest in
    let g = to_u32 m.group in
    rw (
      get_le-word [] n (k ∷ r ∷ l ∷ s ∷ d ∷ g ∷ []) rest 0 refl h,
      get_le-word (n ∷ []) k (r ∷ l ∷ s ∷ d ∷ g ∷ []) rest 4 refl (to_u32-lt m.kind),
      get_le-word (n ∷ k ∷ []) r (l ∷ s ∷ d ∷ g ∷ []) rest 8 refl (to_u32-lt m.round),
      get_le-word (n ∷ k ∷ r ∷ []) l (s ∷ d ∷ g ∷ []) rest 12 refl (to_u32-lt m.layer),
      get_le-word (n ∷ k ∷ r ∷ l ∷ []) s (d ∷ g ∷ []) rest 16 refl (to_u32-lt m.sender),
      get_le-word (n ∷ k ∷ r ∷ l ∷ s ∷ []) d (g ∷ []) rest 20 refl (to_u32-lt m.dest),
      get_le-word (n ∷ k ∷ r ∷ l ∷ s ∷ d ∷ []) g [] rest 24 refl (to_u32-lt m.group),
    )

-- The metadata that survives the wire.
pub record IsPlain (m : Metadata) : Type 0 where
  pub kind_fits : IsInt32 m.kind
  pub group_fits : IsInt32 m.group
  pub num_messages_fits : m.num_messages < 2 ^ 32
  pub round_fits : IsUint32 m.round
  pub layer_fits : IsUint32 m.layer
  pub sender_fits : IsUint32 m.sender
  pub dest_fits : IsUint32 m.dest

on_wire_same : (m : Metadata) → IsPlain m → on_wire m ≡ m
on_wire_same m p = rw (
  to_u32_same m.round p.round_fits,
  to_u32_same m.layer p.layer_fits,
  to_u32_same m.sender p.sender_fits,
  to_u32_same m.dest p.dest_fits,
  from_u32-to_u32 m.kind p.kind_fits,
  from_u32-to_u32 m.group p.group_fits,
)

-- Metadata packed into a buffer of at least 28 bytes is read back as what `uint32` keeps of it: each
-- `int` modulo 2^32 and, but for the type and the group, not negative.
pub interpret_from-pack_to :
    (m : Metadata) (b : Bytes)
    → m.num_messages < 2 ^ 32
    → metadata_size ≤ length b
    → (pack_to m b >>= interpret_from) ≡ ok (on_wire m)
interpret_from-pack_to m b h long = rw (pack_to-fill m b long) (interpret_from-header m _ h)

-- Metadata whose fields are all in the range of their word is read back unchanged, from any buffer
-- of at least 28 bytes that it was packed into.
pub interpret_from-pack_to_same :
    (m : Metadata) (b : Bytes)
    → IsPlain m
    → metadata_size ≤ length b
    → (pack_to m b >>= interpret_from) ≡ ok m
interpret_from-pack_to_same m b p long =
    interpret_from-pack_to m b p.num_messages_fits long ∙ ap ok (on_wire_same m p)

-- No bytes are read as metadata of a negative round, layer, sender or destination: a test for a
-- negative layer behind the parser never holds.
pub interpret_from-not_negative :
    (b : Bytes) (m : Metadata)
    → interpret_from b ≡ ok m
    → (is_negative m.round ≡ false)
      × (is_negative m.layer ≡ false)
      × (is_negative m.sender ≡ false)
      × (is_negative m.dest ≡ false)
unfolding interpret_from
interpret_from-not_negative b m h = ground arith
