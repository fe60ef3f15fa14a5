-- ===== src/Server/Lengths.antt =====
-- server/prepareMessages/lengths.go: the tables of the message lengths of each layer. An index of a
-- slice is checked at run time; the number of layers is not negative.
pub mod Closed
pub mod Examples
use bmrng.Prelude.{
  ℕ, zero, suc, ◌+◌, ◌-◌, Bool, true, false, ltb, leb, ◌&&◌, if◌then◌else◌, Option, none, some,
  List, [], ◌∷◌, length, get_elem?, set, replicate,
}
use bmrng.Prelude.Outcome.{Outcome, ok, panic, ◌>>=◌}
use bmrng.Crypto.Keys.{key_size}
use bmrng.Crypto.Sealing.{overhead}
use bmrng.Server.Envelopes.{final_message_base_length}

-- `lengths[i] += k`.
unfoldable pub raise : List ℕ → ℕ → ℕ → Outcome (List ℕ)
raise ls i k = elim (get_elem? ls i) [ none ↦ panic | some n ↦ ok (set ls i (n + k)) ]

-- The loop of `OnionLengths` over the layers below `n`, the last first.
unfoldable pub onion_loop : ℕ → ℕ → List ℕ → List ℕ
onion_loop zero size ls = ls
onion_loop (suc layer) size ls = onion_loop layer (size + overhead) (set ls layer size)

-- `OnionLengths`.
unfoldable pub onion_lengths : ℕ → ℕ → List ℕ
onion_lengths layers size = onion_loop (layers + 1) size (replicate (layers + 1) 0)

-- The loop that adds the key to the first `n` lengths, from the index `i` on.
unfoldable pub raise_loop : ℕ → ℕ → ℕ → List ℕ → Outcome (List ℕ)
raise_loop zero i k ls = ok ls
raise_loop (suc n) i k ls = raise ls i k >>= raise_loop n (i + 1) k

-- `LightningMessageLengths`.
unfoldable pub lightning_message_lengths : ℕ → ℕ → Outcome (List ℕ)
lightning_message_lengths layers payload_size = do
  let lengths = onion_lengths layers (payload_size + final_message_base_length)
  lengths' ← raise_loop layers 0 key_size lengths
  raise lengths' layers key_size

-- `lengths[layer] = lengths[layer-1] + k`.
unfoldable pub follow : List ℕ → ℕ → ℕ → Outcome (List ℕ)
follow ls layer k = elim (get_elem? ls (layer - 1)) [
  | none ↦ panic
  | some n ↦ if ltb layer (length ls) then ok (set ls layer (n + k)) else panic
]

-- The two loops of `BoomerangLengths`, from `layer` on: up to `limit_size` a layer adds an overhead,
-- and then it adds nothing. `n` bounds the rounds that are left.
unfoldable pub growing_loop : ℕ → ℕ → ℕ → ℕ → List ℕ → Outcome (List ℕ)
growing_loop zero layer limit_size num_layers ls = ok ls
growing_loop (suc n) layer limit_size num_layers ls =
    elim (leb layer limit_size && ltb layer num_layers) [
      | true ↦ follow ls layer overhead >>= growing_loop n (layer + 1) limit_size num_layers
      | false ↦ ok ls
    ]

unfoldable pub level_loop : ℕ → ℕ → ℕ → List ℕ → Outcome (List ℕ)
level_loop zero layer num_layers ls = ok ls
level_loop (suc n) layer num_layers ls = elim (ltb layer num_layers) [
  | true ↦ follow ls layer 0 >>= level_loop n (layer + 1) num_layers
  | false ↦ ok ls
]

-- `BoomerangLengths`.
unfoldable pub boomerang_lengths : ℕ → ℕ → ℕ → Outcome (List ℕ)
boomerang_lengths num_layers size limit_size = do
  ls₁ ← if ltb 0 num_layers then ok (set (replicate num_layers 0) 0 size) else panic
  ls₂ ← growing_loop num_layers 1 limit_size num_layers ls₁
  ls₃ ← level_loop num_layers (limit_size + 1) num_layers ls₂
  raise ls₃ (num_layers - 1) overhead

-- `lengths[i] -= k`, of a length that is not smaller.
unfoldable pub lower : List ℕ → ℕ → ℕ → Outcome (List ℕ)
lower ls i k = elim (get_elem? ls i) [ none ↦ panic | some n ↦ ok (set ls i (n - k)) ]

-- `WireBoomerangLengths`.
unfoldable pub wire_boomerang_lengths : ℕ → ℕ → ℕ → Outcome (List ℕ)
wire_boomerang_lengths num_layers size limit_size = do
  ls ← boomerang_lengths num_layers size limit_size
  ls' ← lower ls (num_layers - 1) overhead
  raise_loop (num_layers - 1) 1 key_size ls'

-- The loop of `PathEstablishmentLengths` over the layers below `n`, the last first.
unfoldable pub path_loop : ℕ → ℕ → List ℕ → List ℕ → Outcome (List ℕ)
path_loop zero token_size reverse_lengths ls = ok ls
path_loop (suc l) token_size reverse_lengths ls = do
  next ← elim (get_elem? ls (l + 1)) [ none ↦ panic | some n ↦ ok n ]
  receipt ← elim (get_elem? reverse_lengths l) [ none ↦ panic | some n ↦ ok n ]
  path_loop l token_size reverse_lengths
      (set ls l (overhead + key_size + token_size + next + receipt))

-- `PathEstablishmentLengths`; the size of tokens is that of their points.
unfoldable pub path_establishment_lengths : ℕ → ℕ → ℕ → ℕ → Outcome (List ℕ)
path_establishment_lengths token_size layers receipt_size limit_size = do
  reverse_lengths ← boomerang_lengths layers receipt_size limit_size
  ls ← path_loop layers token_size reverse_lengths (replicate (layers + 1) 0)
  raise_loop (layers + 1) 0 (key_size + token_size) ls
