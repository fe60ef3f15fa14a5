-- ===== src/Crypto/Token/Examples.antt =====
-- The field of two elements, as the scalars and the points of both groups.
use bmrng.Prelude.{◌≡◌, ◌≢◌, refl, ℕ, Bool, true, false, ◌==◌, [], ◌∷◌}
use bmrng.Prelude.Outcome.{ok}
use bmrng.Prelude.Bytes.{Bytes}
use bmrng.Crypto.Dhkx.{Group, IsGroup, additive_shares, shares_loop, accumulate_scalars}
use bmrng.Crypto.Dhkx.Sharing.{accumulate_scalars-additive_shares}
use bmrng.Crypto.Token.Issuing.{issue, create-prepare}

abbrev pub xor : Bool → Bool → Bool
xor true true = false
xor true false = true
xor false b = b

abbrev pub both : Bool → Bool → Bool
both true b = b
both false b = false

abbrev pub bit_group : Group Bool Bool
bit_group = record {
  zero_scalar = false;
  one_scalar = true;
  add = xor;
  neg = λ b. b;
  mul = both;
  inv = λ b. b;
  identity = false;
  add_points = xor;
  scale = both;
}

xor_assoc : (r s t : Bool) → xor (xor r s) t ≡ xor r (xor s t)
xor_assoc true true true = refl
xor_assoc true true false = refl
xor_assoc true false t = refl
xor_assoc false s t = refl

xor_comm : (r s : Bool) → xor r s ≡ xor s r
xor_comm true true = refl
xor_comm true false = refl
xor_comm false true = refl
xor_comm false false = refl

xor_zero : (s : Bool) → xor s false ≡ s
xor_zero true = refl
xor_zero false = refl

xor_self : (s : Bool) → xor s s ≡ false
xor_self true = refl
xor_self false = refl

both_comm : (r s : Bool) → both r s ≡ both s r
both_comm true true = refl
both_comm true false = refl
both_comm false true = refl
both_comm false false = refl

both_self : (s : Bool) → s ≢ false → both s s ≡ true
both_self true h = refl
both_self false h = absurd (h refl)

both-xor : (r s p : Bool) → both (xor r s) p ≡ xor (both r p) (both s p)
both-xor true true true = refl
both-xor true true false = refl
both-xor true false true = refl
both-xor true false false = refl
both-xor false s p = refl

both-both : (r s p : Bool) → both (both r s) p ≡ both r (both s p)
both-both true s p = refl
both-both false s p = refl

pub bit_group-IsGroup : IsGroup bit_group
bit_group-IsGroup = record {
  add_assoc = xor_assoc;
  add_comm = xor_comm;
  add_zero = xor_zero;
  add_neg = xor_self;
  mul_comm = both_comm;
  mul_inv = both_self;
  scale_zero = λ p. refl;
  scale_one = λ p. refl;
  scale-add = both-xor;
  scale-mul = both-both;
  add_points_assoc = xor_assoc;
  add_points_identity = xor_zero;
}

-- The shares of `true` for three members, with the scalars drawn in the rounds 1 and 2.
abbrev bits : ℕ → Bool
bits i = i == 1

shares_test : additive_shares bit_group true 3 bits ≡ ok (false ∷ true ∷ false ∷ [])
unfolding additive_shares shares_loop
shares_test = refl

accumulate_scalars-additive_shares_example :
    accumulate_scalars bit_group false (false ∷ true ∷ false ∷ []) ≡ true
accumulate_scalars-additive_shares_example =
    accumulate_scalars-additive_shares bit_group bit_group-IsGroup true 3 bits
      (false ∷ true ∷ false ∷ []) shares_test

-- Every message hashes to the point `true`, and a signature is checked against the product.
abbrev hash_to_bit : Bytes → Bool
hash_to_bit m = true

abbrev is_product : Bool → Bool → Bool → Bool
is_product x s h = xor true (xor s (both x h))

is_product-both : (s p : Bool) → is_product (both s true) (both s p) p ≡ true
is_product-both true true = refl
is_product-both true false = refl
is_product-both false true = refl
is_product-both false false = refl

create-prepare_example :
    issue bit_group bit_group true hash_to_bit false
      (λ _. true)
      is_product
      true
      true
      2
      bits
      (5 ∷ [])
    ≡ ok (true, true)
create-prepare_example =
    create-prepare bit_group bit_group true hash_to_bit false (λ _. true) is_product
      bit_group-IsGroup true true 2 bits (5 ∷ []) (λ e. cc) (λ s. refl) is_product-both
