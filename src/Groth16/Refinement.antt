-- ===== src/Groth16/Refinement.antt =====
-- The verifier decides the equation of the parts.
use mathlib.Core.List.{append_assoc}
use zkredit.Prelude.{
  ◌+◌, ◌*◌, ◌≡◌, refl, true, ◌++◌, length, length-append, arith, if◌then◌else◌, ◌==◌, leb, ==_iff,
  Bool-cases, inl, inr,
}
use zkredit.Host.{panicked}
use zkredit.IdentityProof.{count_bytes}
use zkredit.Groth16.{Curve, add_inputs, verify_groth16, g1_at, g2_at}
use zkredit.Groth16.Equation.{
  Key, IsKey, Proof, IsProof, key_bytes, proof_bytes_of, points_of, u32_bytes, combine, accepts,
  add_inputs-combine,
}
use zkredit.Groth16.Reads.{
  key_bytes-size, points_of-size, read_alpha, read_beta, read_gamma, read_delta, read_ic_0,
  read_count, front-size, proof_bytes_of-size, read_a, read_b, read_c, read_inputs_count,
}

module _ (curve : Curve) (key : Key) (p : Proof) (hk : IsKey key) (hp : IsProof p) where
  sum_of_inputs :
      length key.ics ≡ length p.inputs
      → add_inputs curve (key_bytes key) (proof_bytes_of p) (length p.inputs) 0 key.ic_0
        ≡ combine curve key.ic_0 key.ics p.inputs
  sum_of_inputs e =
      let front = points_of key ++ (u32_bytes (length key.ics + 1) ++ key.ic_0) in
      let pfront = (p.a ++ (p.b ++ p.c)) ++ count_bytes (length p.inputs) in
      let size = length-append (points_of key) (u32_bytes (length key.ics + 1) ++ key.ic_0) in
      let psize = length-append (p.a ++ (p.b ++ p.c)) (count_bytes (length p.inputs)) in
      add_inputs-combine curve (key_bytes key) (proof_bytes_of p) front pfront key.ics p.inputs 0
        key.ic_0 (simp append_assoc) (simp append_assoc)
        (omega (arith, size, points_of-size key hk, hk.ic_0_size))
        (omega (arith, psize, front-size p hp)) hk.ics_size hp.inputs_size e

  -- What the guards on the sizes compare.
  enough_key : leb 452 (length (key_bytes key)) ≡ true
  enough_key = let size = key_bytes-size key hk in ground arith

  enough_proof : leb 258 (length (proof_bytes_of p)) ≡ true
  enough_proof = let size = proof_bytes_of-size p hp in ground arith

  all_of_key : leb (452 + 64 * (length key.ics + 1)) (length (key_bytes key)) ≡ true
  all_of_key = let size = key_bytes-size key hk in ground arith

  all_of_proof : leb (258 + 32 * length p.inputs) (length (proof_bytes_of p)) ≡ true
  all_of_proof = let size = proof_bytes_of-size p hp in ground arith

  counts : (length key.ics + 1 == length p.inputs + 1) ≡ (length key.ics == length p.inputs)
  counts = ground arith

  -- On the bytes of a well-formed key and of a well-formed proof, of less than 2^32 points and
  -- 65536 inputs, the verifier decides the abstract equation of their parts, whatever the host
  -- answers, if the key has one point more than the proof has inputs, and panics otherwise.
  pub verify_groth16-accepts :
      verify_groth16 curve (key_bytes key) (proof_bytes_of p)
      ≡ (if length key.ics == length p.inputs then accepts curve key p else panicked)
  unfolding verify_groth16 accepts g1_at g2_at
  verify_groth16-accepts =
      rw
        (
          enough_key,
          enough_proof,
          read_alpha key hk,
          read_beta key hk,
          read_gamma key hk,
          read_delta key hk,
          read_count key hk,
          read_inputs_count p hp,
          counts,
        )
        (elim (Bool-cases (length key.ics == length p.inputs)) [
          | inl e ↦
              let same = (==_iff (length key.ics) (length p.inputs)).0 e in
              rw
                (
                  e,
                  all_of_key,
                  all_of_proof,
                  read_a p hp,
                  read_b p hp,
                  read_c p hp,
                  read_ic_0 key hk,
                  sum_of_inputs same,
                )
                refl
          | inr e ↦ rw e refl
        ])
