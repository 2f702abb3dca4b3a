-- ===== src/Groth16.antt =====
-- contracts/shared/src/groth16.rs: the verifier that reads the blob of identity-proof.ts. Points and
-- scalars are the bytes that they are read from; the arithmetic of BN254 is the host's.
pub mod Slices
pub mod Equation
pub mod Reads
pub mod Refinement
pub mod Assembled
use zkredit.Prelude.{ℕ, zero, suc, ◌+◌, ◌*◌, Bool, List, [], ◌∷◌, leb, ltb, ◌==◌, length, get_elem?}
use zkredit.Host.{Run, returned, failed, panicked, ◌>>=◌, ◌>>◌, assert, expect, slice}

-- The host's functions on points and scalars, which trap on bytes that are no point of the curve.
pub record Curve : Type 0 where
  pub neg : List ℕ → List ℕ
  pub add : List ℕ → List ℕ → Run (List ℕ)
  -- a point and a scalar
  pub mul : List ℕ → List ℕ → Run (List ℕ)
  pub pairing_check : List (List ℕ) → List (List ℕ) → Run Bool

unfoldable pub g1_at : List ℕ → ℕ → Run (List ℕ)
g1_at src offset = slice offset 64 src

unfoldable pub g2_at : List ℕ → ℕ → Run (List ℕ)
g2_at src offset = slice offset 128 src

unfoldable pub fr_at : List ℕ → ℕ → Run (List ℕ)
fr_at src offset = slice offset 32 src

-- Of bytes, where `<<` and `|` are a product and a sum.
unfoldable pub read_u32_be : List ℕ → ℕ → Run ℕ
read_u32_be bytes offset = do
  a ← expect (get_elem? bytes offset)
  b ← expect (get_elem? bytes (offset + 1))
  c ← expect (get_elem? bytes (offset + 2))
  d ← expect (get_elem? bytes (offset + 3))
  returned (((a * 256 + b) * 256 + c) * 256 + d)

unfoldable pub read_u16_be : List ℕ → ℕ → Run ℕ
read_u16_be bytes offset = do
  a ← expect (get_elem? bytes offset)
  b ← expect (get_elem? bytes (offset + 1))
  returned (a * 256 + b)

unfoldable pub nth_public_input : List ℕ → ℕ → Run (List ℕ)
nth_public_input proof i = do
  n_pub ← read_u16_be proof 256
  assert (ltb i n_pub) >> slice (258 + 32 * i) 32 proof

module _ (curve : Curve) where
  unfoldable pub add_term : List ℕ → List ℕ → List ℕ → Run (List ℕ)
  add_term vk_x ic input = do term ← curve.mul ic input; curve.add vk_x term

  -- The loop over the public inputs, from the `i`-th on; `left` of them are left.
  unfoldable pub add_inputs : List ℕ → List ℕ → ℕ → ℕ → List ℕ → Run (List ℕ)
  add_inputs vk proof zero i vk_x = returned vk_x
  add_inputs vk proof (suc left) i vk_x = do
    ic ← g1_at vk (452 + 64 * (i + 1))
    input ← fr_at proof (258 + 32 * i)
    sum ← add_term vk_x ic input
    add_inputs vk proof left (i + 1) sum

  unfoldable pub verify_groth16 : List ℕ → List ℕ → Run Bool
  verify_groth16 vk proof = do
    _ ← assert (leb 452 (length vk))
    _ ← assert (leb 258 (length proof))
    alpha ← g1_at vk 0
    beta ← g2_at vk 64
    gamma ← g2_at vk 192
    delta ← g2_at vk 320
    n_ic ← read_u32_be vk 448
    n_pub ← read_u16_be proof 256
    _ ← assert (n_ic == n_pub + 1)
    _ ← assert (leb (452 + 64 * n_ic) (length vk))
    _ ← assert (leb (258 + 32 * n_pub) (length proof))
    a ← g1_at proof 0
    b ← g2_at proof 64
    c ← g1_at proof 192
    ic_0 ← g1_at vk 452
    vk_x ← add_inputs vk proof n_pub 0 ic_0
    curve.pairing_check (curve.neg a ∷ alpha ∷ vk_x ∷ c ∷ []) (b ∷ beta ∷ gamma ∷ delta ∷ [])
