-- ===== src/Groth16/Equation.antt =====
-- A verification key and a proof as their parts, and the equation that the verifier decides of them.
use mathlib.Core.List.{append_assoc}
use zkredit.Prelude.{
  ℕ, suc, ◌+◌, ◌*◌, ◌/◌, ◌%◌, ◌<◌, ◌≡◌, refl, sym, ◌∙◌, Bool, List, [], ◌∷◌, ◌++◌, length,
  length-append, arith, All,
}
use zkredit.Host.{>>=-cong, Run, returned, slice, ◌>>=◌}
use zkredit.IdentityProof.{concat, count_bytes}
use zkredit.Groth16.Slices.{slice_middle}
use zkredit.Groth16.{Curve, add_term, g1_at, fr_at, add_inputs}

abbrev pub IsOfSize : ℕ → List ℕ → Type 0
IsOfSize size bytes = length bytes ≡ size

pub record Key : Type 0 where
  pub alpha : List ℕ
  pub beta : List ℕ
  pub gamma : List ℕ
  pub delta : List ℕ
  pub ic_0 : List ℕ
  -- one point for each public input
  pub ics : List (List ℕ)

pub record IsKey (key : Key) : Type 0 where
  pub alpha_size : IsOfSize 64 key.alpha
  pub beta_size : IsOfSize 128 key.beta
  pub gamma_size : IsOfSize 128 key.gamma
  pub delta_size : IsOfSize 128 key.delta
  pub ic_0_size : IsOfSize 64 key.ic_0
  pub ics_size : All (IsOfSize 64) key.ics
  pub count_bound : length key.ics + 1 < 4294967296

pub record Proof : Type 0 where
  pub a : List ℕ
  pub b : List ℕ
  pub c : List ℕ
  pub inputs : List (List ℕ)

pub record IsProof (p : Proof) : Type 0 where
  pub a_size : IsOfSize 64 p.a
  pub b_size : IsOfSize 128 p.b
  pub c_size : IsOfSize 64 p.c
  pub inputs_size : All (IsOfSize 32) p.inputs
  pub count_bound : length p.inputs < 65536

-- A number as 4 bytes, the high one first.
abbrev pub u32_bytes : ℕ → List ℕ
u32_bytes n = n / 16777216 % 256 ∷ n / 65536 % 256 ∷ n / 256 % 256 ∷ n % 256 ∷ []

abbrev pub points_of : Key → List ℕ
points_of key = key.alpha ++ (key.beta ++ (key.gamma ++ key.delta))

abbrev pub tail_of : Key → List ℕ
tail_of key = u32_bytes (length key.ics + 1) ++ (key.ic_0 ++ concat key.ics)

abbrev pub key_bytes : Key → List ℕ
key_bytes key = points_of key ++ tail_of key

abbrev pub inputs_of : Proof → List ℕ
inputs_of p = count_bytes (length p.inputs) ++ concat p.inputs

abbrev pub proof_bytes_of : Proof → List ℕ
proof_bytes_of p = (p.a ++ (p.b ++ p.c)) ++ inputs_of p

pub length-concat :
    (size : ℕ) (parts : List (List ℕ))
    → All (IsOfSize size) parts
    → length (concat parts) ≡ size * length parts
unfolding concat
length-concat size [] sizes = omega arith
length-concat size (part ∷ parts) (e, sizes) =
    let rest = length-concat size parts sizes in
    let joined = length-append part (concat parts) in
    let times : size * suc (length parts) ≡ size + size * length parts = omega arith in
    omega (arith, joined, rest, e, times)

module _ (curve : Curve) where
  -- The sum of ic_0 and of every public input times its point.
  unfoldable pub combine : List ℕ → List (List ℕ) → List (List ℕ) → Run (List ℕ)
  combine acc [] inputs = returned acc
  combine acc (ic ∷ ics) [] = returned acc
  combine acc (ic ∷ ics) (input ∷ inputs) = do
    sum ← add_term curve acc ic input
    combine sum ics inputs

  -- e(-a, b) e(alpha, beta) e(vk_x, gamma) e(c, delta) = 1
  unfoldable pub accepts : Key → Proof → Run Bool
  accepts key p = do
    vk_x ← combine key.ic_0 key.ics p.inputs
    curve.pairing_check (curve.neg p.a ∷ key.alpha ∷ vk_x ∷ p.c ∷ [])
        (p.b ∷ key.beta ∷ key.gamma ∷ key.delta ∷ [])

  add_inputs-step :
      (vk proof ic input : List ℕ) (left i : ℕ) (acc : List ℕ)
      → slice (452 + 64 * (i + 1)) 64 vk ≡ returned ic
      → slice (258 + 32 * i) 32 proof ≡ returned input
      → add_inputs curve vk proof (suc left) i acc
        ≡ add_term curve acc ic input >>= add_inputs curve vk proof left (i + 1)
  unfolding add_inputs g1_at fr_at
  add_inputs-step vk proof ic input left i acc e f = rw (e, f) refl

  -- What is in front of the points and of the inputs that are left.
  pub add_inputs-combine :
      (vk proof pre ppre : List ℕ) (ics inputs : List (List ℕ)) (i : ℕ) (acc : List ℕ)
      → vk ≡ pre ++ concat ics
      → proof ≡ ppre ++ concat inputs
      → length pre ≡ 452 + 64 * (i + 1)
      → length ppre ≡ 258 + 32 * i
      → All (IsOfSize 64) ics
      → All (IsOfSize 32) inputs
      → length ics ≡ length inputs
      → add_inputs curve vk proof (length inputs) i acc ≡ combine acc ics inputs
  unfolding combine concat add_inputs
  add_inputs-combine vk proof pre ppre [] [] i acc ev ep lv lp si sw n = refl
  add_inputs-combine vk proof pre ppre (ic ∷ ics) [] i acc ev ep lv lp si sw n = ground arith
  add_inputs-combine vk proof pre ppre [] (w ∷ inputs) i acc ev ep lv lp si sw n = ground arith
  add_inputs-combine vk proof pre ppre (ic ∷ ics) (w ∷ inputs) i acc ev ep lv lp (s, si) (t, sw) n =
      let point : slice (452 + 64 * (i + 1)) 64 vk ≡ returned ic =
        rw ev (slice_middle pre ic (concat ics) (452 + 64 * (i + 1)) 64 lv s) in
      let input : slice (258 + 32 * i) 32 proof ≡ returned w =
        rw ep (slice_middle ppre w (concat inputs) (258 + 32 * i) 32 lp t) in
      let next = λ (sum : List ℕ).
        add_inputs-combine vk proof (pre ++ ic) (ppre ++ w) ics inputs (i + 1) sum
          (ev ∙ sym (append_assoc pre ic (concat ics)))
          (ep ∙ sym (append_assoc ppre w (concat inputs)))
          (omega (arith, length-append pre ic, lv, s)) (omega (arith, length-append ppre w, lp, t))
          si sw (omega (arith, n)) in
      add_inputs-step vk proof ic w (length inputs) i acc point input
      ∙ >>=-cong (add_term curve acc ic w) (add_inputs curve vk proof (length inputs) (i + 1))
          (λ sum. combine sum ics inputs) next
