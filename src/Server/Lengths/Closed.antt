-- ===== src/Server/Lengths/Closed.antt =====
-- The lengths of lightning messages in closed form, and the messages that have them.
use bmrng.Prelude.{
  ℕ, zero, suc, ◌+◌, ◌-◌, ◌*◌, ◌≤◌, ◌<◌, ◌≡◌, refl, sym, ap, ◌∙◌, none, some, List, [], ◌∷◌, length,
  get_elem?, set, replicate, length-set, get_elem?-set_self, get_elem?-set_ne, length-replicate,
  arith,
}
use native.Mathlib.Decide.{dec_lt}
use bmrng.Prelude.Outcome.{ok}
use bmrng.Crypto.Keys.{key_size}
use bmrng.Crypto.Sealing.{overhead}
use bmrng.Server.Envelopes.{final_message_base_length}
use bmrng.Server.Lengths.{raise, onion_loop, onion_lengths, raise_loop, lightning_message_lengths}

length-onion_loop : (n size : ℕ) (ls : List ℕ) → length (onion_loop n size ls) ≡ length ls
unfolding onion_loop
length-onion_loop zero size ls = refl
length-onion_loop (suc n) size ls =
    length-onion_loop n (size + overhead) (set ls n size) ∙ length-set ls n size

onion_loop-above :
    (n size l : ℕ) (ls : List ℕ) → n ≤ l → get_elem? (onion_loop n size ls) l ≡ get_elem? ls l
unfolding onion_loop
onion_loop-above zero size l ls h = refl
onion_loop-above (suc n) size l ls h =
    onion_loop-above n (size + overhead) l (set ls n size) (omega arith)
    ∙ get_elem?-set_ne ls size (λ e. omega (arith, e))

last_layer :
    (n size l : ℕ) (ls : List ℕ)
    → l ≡ n
    → n < length ls
    → get_elem? (onion_loop n (size + overhead) (set ls n size)) l
      ≡ some (size + (suc n - 1 - l) * overhead)
last_layer n size l ls e k =
    ap (get_elem? (onion_loop n (size + overhead) (set ls n size))) e
    ∙ (onion_loop-above n (size + overhead) n (set ls n size) (omega arith)
        ∙ (get_elem?-set_self ls n size k ∙ ap some (omega (arith, e))))

onion_loop-below :
    (n size l : ℕ) (ls : List ℕ)
    → l < n
    → n ≤ length ls
    → get_elem? (onion_loop n size ls) l ≡ some (size + (n - 1 - l) * overhead)
unfolding onion_loop
onion_loop-below zero size l ls h k = absurd (omega arith)
onion_loop-below (suc n) size l ls h k = elim (dec_lt l n) [
  | yes below ↦
      onion_loop-below n (size + overhead) l (set ls n size) below
        (omega (arith, length-set ls n size))
      ∙ ap some (omega arith)
  | no above ↦ last_layer n size l ls (omega arith) (omega arith)
]

-- A layer's onion has an overhead for each layer that is still to come.
onion_lengths_lem :
    (layers size l : ℕ)
    → l ≤ layers
    → get_elem? (onion_lengths layers size) l ≡ some (size + (layers - l) * overhead)
unfolding onion_lengths
onion_lengths_lem layers size l h =
    onion_loop-below (layers + 1) size l (replicate (layers + 1) 0) (omega arith)
      (omega (arith, length-replicate {A = ℕ} (layers + 1) 0))
    ∙ ap some (omega arith)

-- `raise` at an index that is there.
raise_lem :
    (ls : List ℕ) (i k x : ℕ) → get_elem? ls i ≡ some x → raise ls i k ≡ ok (set ls i (x + k))
unfolding raise
raise_lem ls i k x h = rw (raise, h)

get_elem?-below : (ls : List ℕ) (i : ℕ) → i < length ls → (x : ℕ) × (get_elem? ls i ≡ some x)
get_elem?-below [] i h = absurd (omega arith)
get_elem?-below (x ∷ ls) zero h = (x, refl)
get_elem?-below (x ∷ ls) (suc i) h = get_elem?-below ls i (omega arith)

some-below : (ls : List ℕ) (i x : ℕ) → get_elem? ls i ≡ some x → i < length ls
some-below [] i x h = absurd (clash h)
  where
    clash : {x : ℕ} → none ≡ some x → ⊥
    clash e = cc
some-below (y ∷ ls) zero x h = omega arith
some-below (y ∷ ls) (suc i) x h = omega (arith, some-below ls i x h)

-- What the loop of raises does to each length.
record Raised (n i k : ℕ) (ls out : List ℕ) : Type 0 where
  same_length : length out ≡ length ls
  inside : (l x : ℕ) → i ≤ l → l < i + n → get_elem? ls l ≡ some x → get_elem? out l ≡ some (x + k)
  outside : (l : ℕ) → i + n ≤ l → get_elem? out l ≡ get_elem? ls l
  before : (l : ℕ) → l < i → get_elem? out l ≡ get_elem? ls l

inside_step :
    (n i k y : ℕ) (ls out : List ℕ)
    → Raised n (i + 1) k (set ls i (y + k)) out
    → get_elem? ls i ≡ some y
    → (l x : ℕ) → i ≤ l
    → l < i + suc n
    → get_elem? ls l ≡ some x
    → get_elem? out l ≡ some (x + k)
inside_step n i k y ls out r found l x p q e = elim (dec_lt i l) [
  | yes later ↦
      r.inside l x (omega arith) (omega arith)
        (get_elem?-set_ne ls (y + k) (λ same. omega (arith, same)) ∙ e)
  | no not_later ↦ at_index (omega arith)
]
  where
    same_value : {a b : ℕ} → some a ≡ some b → a ≡ b
    same_value h = cc

    at_index : l ≡ i → get_elem? out l ≡ some (x + k)
    at_index here =
        ap (get_elem? out) here
        ∙ (r.before i (omega arith)
            ∙ (get_elem?-set_self ls i (y + k) (some-below ls i y found)
                ∙ ap (λ z. some (z + k))
                    (same_value (sym found ∙ (ap (get_elem? ls) (sym here) ∙ e)))))

raise_loop-Raised :
    (n i k : ℕ) (ls : List ℕ)
    → i + n ≤ length ls
    → (out : List ℕ) × (raise_loop n i k ls ≡ ok out) × Raised n i k ls out
unfolding raise_loop
raise_loop-Raised zero i k ls h = (
  ls,
  refl,
  record {
    same_length = refl;
    inside = λ l x p q e. absurd (omega arith);
    outside = λ l p. refl;
    before = λ l p. refl;
  },
)
raise_loop-Raised (suc n) i k ls h =
    let (y, found) = get_elem?-below ls i (omega arith) in
    let next = set ls i (y + k) in
    let (out, run, r) =
      raise_loop-Raised n (i + 1) k next (omega (arith, length-set ls i (y + k))) in
    (
      out,
      rw (raise_lem ls i k y found) run,
      record {
        same_length = r.same_length ∙ length-set ls i (y + k);
        inside = inside_step n i k y ls out r found;
        outside =
            λ l p. r.outside l (omega arith) ∙ get_elem?-set_ne ls (y + k) (λ e. omega (arith, e));
        before =
            λ l p. r.before l (omega arith) ∙ get_elem?-set_ne ls (y + k) (λ e. omega (arith, e));
      },
    )

-- The length of a lightning message on the wire in closed form: a table of `layers + 1` lengths is
-- returned, and the one of a layer is the payload, the key and the signature of the final message, and
-- one signature more for each layer that is still to come.
pub lightning_message_lengths_lem :
    (layers payload_size : ℕ)
    → (ls : List ℕ) × (lightning_message_lengths layers payload_size ≡ ok ls)
      × ((l : ℕ)
          → l ≤ layers
          → get_elem? ls l
            ≡ some (payload_size + final_message_base_length + (layers - l) * overhead + key_size))
unfolding lightning_message_lengths onion_lengths
lightning_message_lengths_lem layers payload_size =
    let size = payload_size + final_message_base_length in
    let onion = onion_lengths layers size in
    let long =
      length-onion_loop (layers + 1) size (replicate (layers + 1) 0)
      ∙ length-replicate {A = ℕ} (layers + 1) 0 in
    let (ls, run, r) = raise_loop-Raised layers 0 key_size onion (omega (arith, long)) in
    let top = r.outside layers (omega arith) ∙ onion_lengths_lem layers size layers (omega arith) in
    let top_length = size + (layers - layers) * overhead in
    (
      set ls layers (top_length + key_size),
      rw (run) (raise_lem ls layers key_size top_length top),
      λ l p. elim (dec_lt l layers) [
        | yes below ↦
            get_elem?-set_ne ls (top_length + key_size) (λ same. omega (arith, same))
            ∙ r.inside l (size + (layers - l) * overhead) (omega arith) (omega arith)
                (onion_lengths_lem layers size l p)
        | no not_below ↦
            ap (get_elem? (set ls layers (top_length + key_size))) (omega arith)
            ∙ (get_elem?-set_self ls layers (top_length + key_size)
                  (omega (arith, long, r.same_length))
                ∙ ap some (omega arith))
      ],
    )
