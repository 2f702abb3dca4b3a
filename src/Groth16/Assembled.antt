-- ===== src/Groth16/Assembled.antt =====
-- The blob that frontend/src/lib/zk/identity-proof.ts assembles, read by the contract.
use mathlib.Core.List.{append_assoc}
use zkredit.Prelude.{
  ℕ, ◌*◌, ◌<◌, ◌≤◌, zero, suc, Bool-cases, inl, inr, ◌≡◌, refl, sym, ap, ◌∙◌, List, [], ◌∷◌, ◌++◌,
  length, length-append, arith, All, some, none, get_elem?, map, ltb, String, if◌then◌else◌, ◌==◌,
}
use zkredit.Host.{returned, panicked, expect}
use zkredit.Bytes.{to_hex}
use zkredit.Effects.Sync.{ok, >>=-eq-ok}
use zkredit.IdentityProof.{
  first_signal, concat, count_bytes, to_be_32, signal_words, g1, g2, FullProof, proof_blob,
  assemble, IdentityProof,
}
use zkredit.IdentityProof.Words.{to_be_32-shape}
use zkredit.IdentityProof.Blob.{g1-shape, g2-shape, concat-blob}
use zkredit.Groth16.{Curve, nth_public_input, verify_groth16}
use zkredit.Groth16.Slices.{slice_skipped, slice_nth}
use zkredit.Groth16.Equation.{
  Proof, IsProof, proof_bytes_of, IsOfSize, Key, IsKey, key_bytes, accepts,
}
use zkredit.Groth16.Reads.{read_inputs_count, front-size}
use zkredit.Groth16.Refinement.{verify_groth16-accepts}

get_beyond {ℓ} : {A : Type ℓ} (xs : List A) (i : ℕ) → length xs ≤ i → get_elem? xs i ≡ none
get_beyond [] i beyond = refl
get_beyond (x ∷ xs) zero beyond = absurd (omega (arith, beyond))
get_beyond (x ∷ xs) (suc i) beyond = get_beyond xs i (omega (arith, beyond))

-- The contract reads the i-th input of a proof, and panics where there is none.
pub nth_public_input-inputs :
    (p : Proof)
    → IsProof p
    → (i : ℕ) → nth_public_input (proof_bytes_of p) i ≡ expect (get_elem? p.inputs i)
unfolding nth_public_input
nth_public_input-inputs p h i =
    let front = (p.a ++ (p.b ++ p.c)) ++ count_bytes (length p.inputs) in
    let size : length front ≡ 258 =
      let two = length-append (p.a ++ (p.b ++ p.c)) (count_bytes (length p.inputs)) in
      omega (arith, two, front-size p h) in
    let shape : proof_bytes_of p ≡ front ++ concat p.inputs = simp append_assoc in
    let skip = slice_skipped front (concat p.inputs) 258 (32 * i) 32 size in
    let word = slice_nth 32 p.inputs i h.inputs_size in
    elim (Bool-cases (ltb i (length p.inputs))) [
      | inl e ↦ rw (read_inputs_count p h, e, shape, skip) (word (ground arith))
      | inr e ↦ rw (read_inputs_count p h, e, get_beyond p.inputs i (ground arith)) refl
    ]

-- The words of the public signals.
words_of_signals :
    (signals : List String) (bytes : List ℕ)
    → signal_words signals ≡ ok bytes
    → (words : List (List ℕ)) × (bytes ≡ concat words)
      × All (IsOfSize 32) words
      × (map to_be_32 signals ≡ map ok words)
      × (length words ≡ length signals)
unfolding signal_words concat
words_of_signals [] bytes h = ([], ground arith, tt, refl, refl)
words_of_signals (s ∷ signals) bytes h =
    let (word, ew, h1) = >>=-eq-ok (to_be_32 s) _ h in
    let (rest, es, h2) = >>=-eq-ok (signal_words signals) _ h1 in
    let (words, joined, sizes, each, count) = words_of_signals signals rest es in
    let same : word ++ rest ≡ bytes = ground arith in
    (
      word ∷ words,
      sym same ∙ ap (λ r. word ++ r) joined,
      ((to_be_32-shape s word ew).0, sizes),
      rw (ew, each) refl,
      omega (arith, count),
    )

-- The parts of an assembled blob, as the source computes them.
pub record IsAssembled (f : FullProof) (p : Proof) : Type 0 where
  pub a_of : g1 f.pi_a ≡ ok p.a
  pub b_of : g2 f.pi_b ≡ ok p.b
  pub c_of : g1 f.pi_c ≡ ok p.c
  pub inputs_of_signals : map to_be_32 f.public_signals ≡ map ok p.inputs
  pub is_proof : IsProof p

proof_blob-parts :
    (f : FullProof) (blob : List ℕ)
    → length f.public_signals < 65536
    → proof_blob f ≡ ok blob
    → (p : Proof) × IsAssembled f p × (blob ≡ proof_bytes_of p)
unfolding proof_blob
proof_blob-parts f blob few h =
    let (a, ea, h1) = >>=-eq-ok (g1 f.pi_a) _ h in
    let (b, eb, h2) = >>=-eq-ok (g2 f.pi_b) _ h1 in
    let (c, ec, h3) = >>=-eq-ok (g1 f.pi_c) _ h2 in
    let (signals, es, h4) = >>=-eq-ok (signal_words f.public_signals) _ h3 in
    let (words, joined, sizes, each, count) = words_of_signals f.public_signals signals es in
    let whole : (a ++ (b ++ c)) ++ (count_bytes (length f.public_signals) ++ signals) ≡ blob =
      ground (arith, concat-blob a b c (count_bytes (length f.public_signals)) signals) in
    let bound : length words < 65536 = omega (arith, count, few) in
    (
      record { a = a; b = b; c = c; inputs = words },
      record {
        a_of = ea;
        b_of = eb;
        c_of = ec;
        inputs_of_signals = each;
        is_proof = record {
          a_size = (g1-shape f.pi_a a ea).0;
          b_size = (g2-shape f.pi_b b eb).0;
          c_size = (g1-shape f.pi_c c ec).0;
          inputs_size = sizes;
          count_bound = bound;
        };
      },
      sym whole ∙ rw (joined, count) refl,
    )

first_of_signals :
    (signals : List String) (words : List (List ℕ)) (commitment : String) (word : List ℕ)
    → first_signal signals ≡ ok commitment
    → to_be_32 commitment ≡ ok word
    → map to_be_32 signals ≡ map ok words
    → get_elem? words 0 ≡ some word
first_of_signals [] words commitment word ec ew each = ground arith
first_of_signals (s ∷ signals) [] commitment word ec ew each = ground arith
first_of_signals (s ∷ signals) (w ∷ words) commitment word ec ew each = ground arith

-- What the client assembles: the parts of its blob, and the word of the commitment.
pub record Assembled (f : FullProof) (r : IdentityProof) : Type 0 where
  pub proof : Proof
  pub parts : IsAssembled f proof
  pub bytes : r.proof_bytes ≡ proof_bytes_of proof
  pub word : List ℕ
  pub first : get_elem? proof.inputs 0 ≡ some word
  pub spelled : r.commitment_hex ≡ to_hex word

pub assemble-Assembled :
    (secret : String) (f : FullProof) (r : IdentityProof)
    → length f.public_signals < 65536
    → assemble secret f ≡ ok r
    → Assembled f r
unfolding assemble
assemble-Assembled secret f r few h =
    let (commitment, ec, h1) = >>=-eq-ok (first_signal f.public_signals) _ h in
    let (blob, eb, h2) = >>=-eq-ok (proof_blob f) _ h1 in
    let (word, ew, h3) = >>=-eq-ok (to_be_32 commitment) _ h2 in
    let (p, parts, same) = proof_blob-parts f blob few eb in
    let bytes : blob ≡ r.proof_bytes = ap (λ x. elim x [ ok q ↦ q.proof_bytes | _ ↦ [] ]) h3 in
    let text : to_hex word ≡ r.commitment_hex =
      ap (λ x. elim x [ ok q ↦ q.commitment_hex | _ ↦ to_hex word ]) h3 in
    record {
      proof = p;
      parts = parts;
      bytes = sym bytes ∙ same;
      word = word;
      first =
          first_of_signals f.public_signals p.inputs commitment word ec ew parts.inputs_of_signals;
      spelled = sym text;
    }

-- When the client assembles an identity proof with fewer than 65536 public signals, the contract
-- reads from its blob the points that g1 and g2 made and the words of the signals: with a well-
-- formed key it decides the pairing equation of exactly these if the key has one point for each
-- signal and panics otherwise, and its public input 0 is the word that the commitment text spells.
pub assemble-verified :
    (curve : Curve) (key : Key) (secret : String) (f : FullProof) (r : IdentityProof)
    → IsKey key
    → length f.public_signals < 65536
    → assemble secret f ≡ ok r
    → (p : Proof) × IsAssembled f p
      × (verify_groth16 curve (key_bytes key) r.proof_bytes
          ≡ (if length key.ics == length p.inputs then accepts curve key p else panicked))
      × (word : List ℕ) × (nth_public_input r.proof_bytes 0 ≡ returned word)
      × (r.commitment_hex ≡ to_hex word)
assemble-verified curve key secret f r hk few h =
    let a = assemble-Assembled secret f r few h in
    (
      a.proof,
      a.parts,
      rw a.bytes (verify_groth16-accepts curve key a.proof hk a.parts.is_proof),
      a.word,
      rw (a.bytes, nth_public_input-inputs a.proof a.parts.is_proof 0, a.first) refl,
      a.spelled,
    )
