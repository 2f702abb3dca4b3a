-- ===== src/Risc0/Typed.antt =====
-- contracts/shared/src/risc0.rs: the types of a parsed journal, and the bytes it was parsed from.
use zkredit.Prelude.{
  ℕ, zero, suc, ◌+◌, ◌<◌, ◌≡◌, refl, inl, inr, Bool-cases, ◌==◌, some, List, [], ◌∷◌, ◌++◌, length,
  take, drop, arith, All, length-take, length-drop,
}
use zkredit.Bytes.{IsByte}
use zkredit.Groth16.Equation.{u32_bytes}
use zkredit.Risc0.{Journal, parse_journal, u32_be}
use zkredit.Risc0.Journals.{committed, IsCommitted}

module _ {A : Type 0} where
  take-drop : (n : ℕ) (xs : List A) → take n xs ++ drop n xs ≡ xs
  take-drop zero xs = refl
  take-drop (suc n) [] = refl
  take-drop (suc n) (x ∷ xs) = rw (take-drop n xs)

  take_whole : (n : ℕ) (xs : List A) → length xs ≡ n → take n xs ≡ xs
  take_whole zero [] h = refl
  take_whole zero (x ∷ xs) h = absurd (omega (arith, h))
  take_whole (suc n) [] h = refl
  take_whole (suc n) (x ∷ xs) h = rw (take_whole n xs (omega (arith, h)))

  -- Twice as many: the two halves.
  take_halves : (n : ℕ) (xs : List A) → length xs ≡ n + n → take n xs ++ take n (drop n xs) ≡ xs
  take_halves n xs h =
      rw (take_whole n (drop n xs) (omega (arith, length-drop n xs, h))) (take-drop n xs)

u32_bytes-u32_be :
    (a b c d : ℕ) (rest : List ℕ)
    → IsByte a
    → IsByte b
    → IsByte c
    → IsByte d
    → (u32_be (a ∷ b ∷ c ∷ d ∷ rest) < 4294967296)
      × (u32_bytes (u32_be (a ∷ b ∷ c ∷ d ∷ rest)) ≡ a ∷ b ∷ c ∷ d ∷ [])
u32_bytes-u32_be a b c d rest ha hb hc hd = (omega arith, ground arith)

some_injective : (i j : Journal) → some i ≡ some j → i ≡ j
some_injective i j h = cc

-- The journal of eight bytes and 64 more.
abbrev read_of : ℕ → ℕ → ℕ → ℕ → ℕ → ℕ → ℕ → ℕ → List ℕ → Journal
read_of a b c d e f g h rest = record {
  risk_bucket = u32_be (a ∷ b ∷ c ∷ d ∷ []);
  confidence = u32_be (e ∷ f ∷ g ∷ h ∷ []);
  identity_commitment = take 32 rest;
  distilled_model_hash = take 32 (drop 32 rest);
}

read_of-committed :
    (a b c d e f g h : ℕ) (rest : List ℕ)
    → All IsByte (a ∷ b ∷ c ∷ d ∷ e ∷ f ∷ g ∷ h ∷ [])
    → length rest ≡ 64
    → IsCommitted (read_of a b c d e f g h rest)
      × (committed (read_of a b c d e f g h rest) ≡ a ∷ b ∷ c ∷ d ∷ e ∷ f ∷ g ∷ h ∷ rest)
unfolding committed
read_of-committed a b c d e f g h rest (ha, (hb, (hc, (hd, (he, (hf, (hg, (hh, last)))))))) size =
    let (below, first) = u32_bytes-u32_be a b c d [] ha hb hc hd in
    let (below2, second) = u32_bytes-u32_be e f g h [] he hf hg hh in
    (
      record {
        bucket_bound = below;
        confidence_bound = below2;
        commitment_size = length-take 32 rest (omega (arith, size));
        hash_size = length-take 32 (drop 32 rest) (omega (arith, length-drop 32 rest, size));
      },
      cc (first, second, take_halves 32 rest size),
    )

-- What is parsed of any bytes has the types of the journal: the bucket and the confidence are
-- below 2^32, and the commitment and the model hash have 32 bytes; and the bytes are exactly those
-- that the guest commits for it, so that no two texts of bytes have the same journal.
pub parse_journal-IsCommitted :
    (bytes : List ℕ) (j : Journal)
    → All IsByte bytes
    → parse_journal bytes ≡ some j
    → IsCommitted j × (committed j ≡ bytes)
unfolding parse_journal
parse_journal-IsCommitted (a ∷ b ∷ c ∷ d ∷ e ∷ f ∷ g ∷ h ∷ rest) j
      (ha, (hb, (hc, (hd, (he, (hf, (hg, (hh, more)))))))) parsed =
    elim (Bool-cases (length (a ∷ b ∷ c ∷ d ∷ e ∷ f ∷ g ∷ h ∷ rest) == 72)) [
      | inl size ↦ rw (← (some_injective (read_of a b c d e f g h rest) j (rw size at parsed))) (
          read_of-committed a b c d e f g h rest (ha, (hb, (hc, (hd, (he, (hf, (hg, (hh, tt))))))))
            (ground (arith, size)))
      | inr other ↦ cc (rw other at parsed)
    ]
parse_journal-IsCommitted _ j bytes parsed = cc
