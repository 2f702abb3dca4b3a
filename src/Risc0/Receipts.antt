-- ===== src/Risc0/Receipts.antt =====
-- A receipt is accepted by the equation of the pinned key on the parts of its seal.
use mathlib.Core.List.{reverse, reverse_aux}
use zkredit.Prelude.{
  ℕ, ◌≡◌, refl, ◌∙◌, List, [], ◌∷◌, ◌++◌, length, take, drop, arith, All, ◌+◌, length-take,
  length-drop, ◌==◌, false,
}
use zkredit.IdentityProof.{concat, count_bytes}
use zkredit.Groth16.{Curve, verify_groth16}
use zkredit.Groth16.Equation.{IsOfSize, Key, IsKey, Proof, IsProof, key_bytes, accepts}
use zkredit.Groth16.Refinement.{verify_groth16-accepts}
use zkredit.Risc0.Vk.{risc0_vk}
use zkredit.Risc0.{
  split_digest, claim_digest, tagged_struct, control_root, bn254_control_id, verify_seal,
  verify_receipt,
}

abbrev part : ℕ → ℕ → List ℕ
part offset size = take size (drop offset risc0_vk)

-- The parts of the key.
unfoldable pub risc0_key : Key
risc0_key = record {
  alpha = part 0 64;
  beta = part 64 128;
  gamma = part 192 128;
  delta = part 320 128;
  ic_0 = part 452 64;
  ics = part 516 64 ∷ part 580 64 ∷ part 644 64 ∷ part 708 64 ∷ part 772 64 ∷ [];
}

risc0_key-bytes : key_bytes risc0_key ≡ risc0_vk
unfolding risc0_key risc0_vk concat
risc0_key-bytes = refl

risc0_key-IsKey : IsKey risc0_key
unfolding risc0_key risc0_vk
risc0_key-IsKey = record {
  alpha_size = refl;
  beta_size = refl;
  gamma_size = refl;
  delta_size = refl;
  ic_0_size = refl;
  ics_size = (refl, (refl, (refl, (refl, (refl, tt)))));
  count_bound = omega arith;
}

-- The five public inputs that a run of an image with a journal must have.
unfoldable pub public_inputs : (List ℕ → List ℕ) → List ℕ → List ℕ → List (List ℕ)
public_inputs sha256 image_id journal =
    let (claim_0, claim_1) = split_digest (claim_digest sha256 image_id (sha256 journal)) in
    let (root_0, root_1) = split_digest control_root in
    root_0 ∷ root_1 ∷ claim_0 ∷ claim_1 ∷ reverse bn254_control_id ∷ []

reverse_aux_size : (xs ys : List ℕ) → length (reverse_aux xs ys) ≡ length xs + length ys
reverse_aux_size [] ys = omega arith
reverse_aux_size (x ∷ xs) ys = omega (arith, reverse_aux_size xs (x ∷ ys))

reverse_size : (xs : List ℕ) → length (reverse xs) ≡ length xs
reverse_size xs = omega (arith, reverse_aux_size xs [])

split_digest_sizes :
    (digest : List ℕ)
    → length digest ≡ 32
    → (length (split_digest digest).0 ≡ 32) × (length (split_digest digest).1 ≡ 32)
unfolding split_digest
split_digest_sizes digest h =
    let size = reverse_size digest in
    (
      omega (arith, size, length-drop 16 (reverse digest)),
      omega (arith, size, length-take 16 (reverse digest)),
    )

root_bytes : length control_root ≡ 32
unfolding control_root
root_bytes = refl

id_bytes : length (reverse bn254_control_id) ≡ 32
unfolding bn254_control_id
id_bytes = refl

vk_nonempty : (length risc0_vk == 0) ≡ false
unfolding risc0_vk
vk_nonempty = refl

risc0_key_count : length risc0_key.ics ≡ 5
unfolding risc0_key
risc0_key_count = refl

-- The receipt is that of a blob for the five public inputs.
sealed :
    (sha256 : List ℕ → List ℕ) (curve : Curve) (seal image_id journal : List ℕ)
    → verify_receipt sha256 curve seal image_id journal
      ≡ verify_groth16 curve risc0_vk
          (seal ++ (0 ∷ 5 ∷ concat (public_inputs sha256 image_id journal)))
unfolding verify_receipt verify_seal public_inputs
sealed sha256 curve seal image_id journal = rw vk_nonempty refl

sealed_bytes :
    (sha256 : List ℕ → List ℕ) (curve : Curve) (seal image_id journal : List ℕ)
    → verify_groth16 curve risc0_vk
        (seal ++ (0 ∷ 5 ∷ concat (public_inputs sha256 image_id journal)))
      ≡ verify_groth16 curve (key_bytes risc0_key) (
          seal
          ++ (count_bytes (length (public_inputs sha256 image_id journal))
              ++ concat (public_inputs sha256 image_id journal)))
unfolding public_inputs
sealed_bytes sha256 curve seal image_id journal = rw risc0_key-bytes refl

module _ (sha256 : List ℕ → List ℕ) (digests : (bytes : List ℕ) → length (sha256 bytes) ≡ 32) where
  claim_digest_size : (image_id digest : List ℕ) → length (claim_digest sha256 image_id digest) ≡ 32
  unfolding claim_digest tagged_struct
  claim_digest_size image_id digest = digests _

  public_inputs_sizes :
      (image_id journal : List ℕ) → All (IsOfSize 32) (public_inputs sha256 image_id journal)
  unfolding public_inputs
  public_inputs_sizes image_id journal =
      let (first, second) = split_digest_sizes control_root root_bytes in
      let (third, fourth) =
        split_digest_sizes (claim_digest sha256 image_id (sha256 journal))
          (claim_digest_size image_id (sha256 journal)) in
      (first, (second, (third, (fourth, (id_bytes, tt)))))

  public_inputs_count :
      (image_id journal : List ℕ) → length (public_inputs sha256 image_id journal) ≡ 5
  unfolding public_inputs
  public_inputs_count image_id journal = refl

  module _ (curve : Curve) where
    -- If the hash gives 32 bytes, then a seal of 64, 128 and 64 bytes for three points is accepted
    -- as a receipt of an image and a journal exactly as the pairing equation of the pinned key
    -- decides, on these points and five public inputs: the two halves of the control root, the two
    -- halves of the digest that claims that this image halted with this journal, and the control
    -- id in reverse.
    pub verify_receipt-accepts :
        (a b c image_id journal : List ℕ)
        → length a ≡ 64
        → length b ≡ 128
        → length c ≡ 64
        → verify_receipt sha256 curve (a ++ (b ++ c)) image_id journal
          ≡ accepts curve risc0_key
              (record { a = a; b = b; c = c; inputs = public_inputs sha256 image_id journal })
    verify_receipt-accepts a b c image_id journal ha hb hc =
        let p : Proof = record {
          a = a;
          b = b;
          c = c;
          inputs = public_inputs sha256 image_id journal;
        } in
        let five : length (public_inputs sha256 image_id journal) ≡ 5 =
          public_inputs_count image_id journal in
        let hp : IsProof p = record {
          a_size = ha;
          b_size = hb;
          c_size = hc;
          inputs_size = public_inputs_sizes image_id journal;
          count_bound = omega (arith, five);
        } in
        sealed sha256 curve (a ++ (b ++ c)) image_id journal
        ∙ sealed_bytes sha256 curve (a ++ (b ++ c)) image_id journal
        ∙ verify_groth16-accepts curve risc0_key p risc0_key-IsKey hp
        ∙ rw (five, risc0_key_count) refl
