-- ===== src/IdentityProof/Totality.antt =====
-- Inputs on which the serialisation of identity-proof.ts succeeds, and the elements it feeds to the
-- circuit.
use Prim.Native.String.{String}
use zkredit.Prelude.{ℕ, ◌%◌, ◌^◌, ◌<◌, ◌≡◌, refl, List, [], ◌∷◌, ◌++◌, length, show, arith, All}
use zkredit.Bytes.{IsByte, to_hex}
use zkredit.Prelude.Int.{pos}
use zkredit.BigInt.{big_int}
use zkredit.BigInt.Laws.{big_int-show}
use zkredit.Effects.Sync.{ok}
use zkredit.IdentityProof.{
  to_be_32, at, concat, g1, g2, from_be, random_field_element, bn254_r, addr_to_field_element,
  FullProof, IdentityProof, signal_words, count_bytes, proof_blob, assemble,
}
use zkredit.IdentityProof.Words.{to_be_32-show, from_be-lt}

-- A printed number of at most 256 bits.
abbrev pub IsElement : String → Type 0
IsElement d = (n : ℕ) × (d ≡ show n) × (n < 2 ^ 256)

to_be_32-total : (d : String) → IsElement d → (bytes : List ℕ) × (to_be_32 d ≡ ok bytes)
to_be_32-total d (n, e, h) = let (bytes, done, _) = to_be_32-show n h in (bytes, rw e done)

-- The form of `proof.pi_a` and `proof.pi_c`, and of `proof.pi_b`.
abbrev pub IsG1 : List String → Type 0
IsG1 p =
    (x : String) × (y : String) × (z : List String) × (p ≡ x ∷ y ∷ z) × IsElement x × IsElement y

abbrev pub IsG2 : List (List String) → Type 0
IsG2 p =
    (x : List String) × (y : List String) × (z : List (List String)) × (p ≡ x ∷ y ∷ z)
    × IsG1 x
    × IsG1 y

g1-total : (p : List String) → IsG1 p → (bytes : List ℕ) × (g1 p ≡ ok bytes)
unfolding g1 at
g1-total p (x, y, z, e, hx, hy) =
    let (bx, ex) = to_be_32-total x hx in
    let (by, ey) = to_be_32-total y hy in (concat (bx ∷ by ∷ []), rw (e, ex, ey))

g2-total : (p : List (List String)) → IsG2 p → (bytes : List ℕ) × (g2 p ≡ ok bytes)
unfolding g2 at
g2-total p (x, y, z, e, (x0, x1, xz, ex, hx0, hx1), (y0, y1, yz, ey, hy0, hy1)) =
    let (b0, e0) = to_be_32-total x0 hx0 in
    let (b1, e1) = to_be_32-total x1 hx1 in
    let (c0, f0) = to_be_32-total y0 hy0 in
    let (c1, f1) = to_be_32-total y1 hy1 in
    (concat (b1 ∷ b0 ∷ c1 ∷ c0 ∷ []), rw (e, ex, ey, e1, e0, f1, f0))

signal_words-total :
    (signals : List String)
    → All IsElement signals
    → (bytes : List ℕ) × (signal_words signals ≡ ok bytes)
unfolding signal_words
signal_words-total [] h = ([], refl)
signal_words-total (s ∷ signals) (hs, h) =
    let (word, e) = to_be_32-total s hs in
    let (words, es) = signal_words-total signals h in (word ++ words, rw (e, es))

-- A proof in the form that snarkjs returns, with numbers below 2^256 as coordinates and signals
-- and with a public signal, is assembled without an error.
pub assemble-total :
    (secret : String) (p : FullProof) (s : String) (more : List String)
    → IsG1 p.pi_a
    → IsG2 p.pi_b
    → IsG1 p.pi_c
    → p.public_signals ≡ s ∷ more
    → All IsElement (s ∷ more)
    → (r : IdentityProof) × (assemble secret p ≡ ok r)
unfolding assemble proof_blob
assemble-total secret p s more ha hb hc split (hs, hm) =
    let (a, ea) = g1-total p.pi_a ha in
    let (b, eb) = g2-total p.pi_b hb in
    let (c, ec) = g1-total p.pi_c hc in
    let (words, ew) = signal_words-total (s ∷ more) (hs, hm) in
    let (word, es) = to_be_32-total s hs in
    (
      record {
        secret_dec = secret;
        commitment_hex = to_hex word;
        proof_bytes = concat (a ∷ b ∷ c ∷ count_bytes (length (s ∷ more)) ∷ words ∷ []);
      },
      rw (split, ea, eb, ec, ew, es),
    )

-- The secret made of 31 random bytes, and the element of an address for any digest, are read by
-- BigInt as numbers below the order of the BN254 scalar field.
pub field_elements-lt :
    (random digest : List ℕ)
    → length random ≡ 31
    → All IsByte random
    → ((n : ℕ) × (big_int (random_field_element random) ≡ ok (pos n)) × (n < bn254_r))
      × ((n : ℕ) × (big_int (addr_to_field_element digest) ≡ ok (pos n)) × (n < bn254_r))
unfolding random_field_element addr_to_field_element
field_elements-lt random digest size h =
    let bound : from_be random < 256 ^ length random = from_be-lt random h in
    let bound' : from_be random < 256 ^ 31 = rw size at bound in
    (
      (from_be random, big_int-show (from_be random), omega arith),
      (from_be digest % bn254_r, big_int-show (from_be digest % bn254_r), omega arith),
    )
