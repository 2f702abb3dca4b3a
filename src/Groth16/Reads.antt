-- ===== src/Groth16/Reads.antt =====
-- What the verifier reads of a key and of a proof.
use mathlib.Core.List.{append_assoc}
use zkredit.Prelude.{ℕ, ◌+◌, ◌*◌, ◌≡◌, ap, ◌++◌, length, length-append, arith}
use zkredit.Host.{returned, slice}
use zkredit.IdentityProof.{concat}
use zkredit.Groth16.Slices.{slice_first, slice_middle, get_skipped}
use zkredit.Groth16.{read_u32_be, read_u16_be}
use zkredit.Groth16.Equation.{
  Key, IsKey, Proof, IsProof, key_bytes, proof_bytes_of, u32_bytes, length-concat, points_of,
  tail_of, inputs_of,
}

module _ (key : Key) (h : IsKey key) where
  pub points_of-size : length (points_of key) ≡ 448
  points_of-size =
      let two = length-append key.gamma key.delta in
      let three = length-append key.beta (key.gamma ++ key.delta) in
      let four = length-append key.alpha (key.beta ++ (key.gamma ++ key.delta)) in
      omega (arith, two, three, four, h.alpha_size, h.beta_size, h.gamma_size, h.delta_size)

  pub key_bytes-size : length (key_bytes key) ≡ 452 + 64 * (length key.ics + 1)
  key_bytes-size =
      let rest = length-concat 64 key.ics h.ics_size in
      let points = points_of-size in
      let one = length-append key.ic_0 (concat key.ics) in
      let two =
        length-append (points_of key)
          (u32_bytes (length key.ics + 1) ++ (key.ic_0 ++ concat key.ics)) in
      omega (arith, rest, points, one, two, h.ic_0_size)

  pub read_alpha : slice 0 64 (key_bytes key) ≡ returned key.alpha
  read_alpha = rw append_assoc (
      slice_first key.alpha ((key.beta ++ (key.gamma ++ key.delta)) ++ tail_of key) 64 h.alpha_size)

  pub read_beta : slice 64 128 (key_bytes key) ≡ returned key.beta
  read_beta =
      let shape : key_bytes key
          ≡ key.alpha ++ (key.beta ++ ((key.gamma ++ key.delta) ++ tail_of key)) =
        simp append_assoc in
      rw shape (
        slice_middle key.alpha key.beta ((key.gamma ++ key.delta) ++ tail_of key) 64 128
          h.alpha_size h.beta_size)

  pub read_gamma : slice 192 128 (key_bytes key) ≡ returned key.gamma
  read_gamma =
      let shape : key_bytes key
          ≡ (key.alpha ++ key.beta) ++ (key.gamma ++ (key.delta ++ tail_of key)) =
        simp append_assoc in
      let front = length-append key.alpha key.beta in
      rw shape (
        slice_middle (key.alpha ++ key.beta) key.gamma (key.delta ++ tail_of key) 192 128
          (omega (arith, front, h.alpha_size, h.beta_size)) h.gamma_size)

  pub read_delta : slice 320 128 (key_bytes key) ≡ returned key.delta
  read_delta =
      let shape : key_bytes key
          ≡ (key.alpha ++ (key.beta ++ key.gamma)) ++ (key.delta ++ tail_of key) =
        simp append_assoc in
      let two = length-append key.beta key.gamma in
      let front = length-append key.alpha (key.beta ++ key.gamma) in
      rw shape (
        slice_middle (key.alpha ++ (key.beta ++ key.gamma)) key.delta (tail_of key) 320 128
          (omega (arith, two, front, h.alpha_size, h.beta_size, h.gamma_size)) h.delta_size)

  pub read_ic_0 : slice 452 64 (key_bytes key) ≡ returned key.ic_0
  read_ic_0 =
      let shape : key_bytes key
          ≡ (points_of key ++ u32_bytes (length key.ics + 1)) ++ (key.ic_0 ++ concat key.ics) =
        simp append_assoc in
      let front = length-append (points_of key) (u32_bytes (length key.ics + 1)) in
      rw shape (
        slice_middle (points_of key ++ u32_bytes (length key.ics + 1)) key.ic_0 (concat key.ics) 452
          64 (omega (arith, points_of-size, front)) h.ic_0_size)

  pub read_count : read_u32_be (key_bytes key) 448 ≡ returned (length key.ics + 1)
  unfolding read_u32_be
  read_count =
      let at = λ (i : ℕ). get_skipped (points_of key) (tail_of key) 448 i points_of-size in
      let bound = h.count_bound in rw (at 0, at 1, at 2, at 3) (ap returned (omega (arith, bound)))

module _ (p : Proof) (h : IsProof p) where
  pub front-size : length (p.a ++ (p.b ++ p.c)) ≡ 256
  front-size =
      let two = length-append p.b p.c in
      let three = length-append p.a (p.b ++ p.c) in
      omega (arith, two, three, h.a_size, h.b_size, h.c_size)

  pub proof_bytes_of-size : length (proof_bytes_of p) ≡ 258 + 32 * length p.inputs
  proof_bytes_of-size =
      let rest = length-concat 32 p.inputs h.inputs_size in
      let two = length-append (p.a ++ (p.b ++ p.c)) (inputs_of p) in
      let front = front-size in omega (arith, rest, front, two)

  pub read_a : slice 0 64 (proof_bytes_of p) ≡ returned p.a
  read_a = rw append_assoc (slice_first p.a ((p.b ++ p.c) ++ inputs_of p) 64 h.a_size)

  pub read_b : slice 64 128 (proof_bytes_of p) ≡ returned p.b
  read_b =
      let shape : proof_bytes_of p ≡ p.a ++ (p.b ++ (p.c ++ inputs_of p)) = simp append_assoc in
      rw shape (slice_middle p.a p.b (p.c ++ inputs_of p) 64 128 h.a_size h.b_size)

  pub read_c : slice 192 64 (proof_bytes_of p) ≡ returned p.c
  read_c =
      let shape : proof_bytes_of p ≡ (p.a ++ p.b) ++ (p.c ++ inputs_of p) = simp append_assoc in
      let front = length-append p.a p.b in
      rw shape (
        slice_middle (p.a ++ p.b) p.c (inputs_of p) 192 64
          (omega (arith, front, h.a_size, h.b_size)) h.c_size)

  pub read_inputs_count : read_u16_be (proof_bytes_of p) 256 ≡ returned (length p.inputs)
  unfolding read_u16_be
  read_inputs_count =
      let at = λ (i : ℕ). get_skipped (p.a ++ (p.b ++ p.c)) (inputs_of p) 256 i front-size in
      let bound = h.count_bound in rw (at 0, at 1) (ap returned (omega (arith, bound)))
