-- ===== src/Risc0/Claims.antt =====
-- What the public inputs of a receipt are bound to, in terms of collisions of the hash.
use mathlib.Core.List.{reverse, reverse-reverse}
use zkredit.Prelude.{
  ℕ, zero, suc, ◌≡◌, ◌≢◌, ◌⊎◌, inl, inr, refl, sym, ap, ◌∙◌, List, [], ◌∷◌, ◌++◌, length, take,
  drop, take-append, drop-append, length-append, Bool-cases, arith, String,
}
use zkredit.IdentityProof.{concat}
use zkredit.Storage.{bytes_eq, equals}
use zkredit.Risc0.{split_digest, claim_digest, tagged_struct, zero_digest}
use zkredit.Risc0.Receipts.{public_inputs}

-- Two different texts of bytes with the same hash.
abbrev pub Collision : (List ℕ → List ℕ) → Type 0
Collision sha256 = (x y : List ℕ) × (x ≢ y) × (sha256 x ≡ sha256 y)

append_cancel : (a b c d : List ℕ) → length a ≡ length b → a ++ c ≡ b ++ d → (a ≡ b) × (c ≡ d)
append_cancel a b c d e h = (
  sym (take-append a c) ∙ ap (λ n. take n (a ++ c)) e ∙ ap (take (length b)) h ∙ take-append b d,
  sym (drop-append a c) ∙ ap (λ n. drop n (a ++ c)) e ∙ ap (drop (length b)) h ∙ drop-append b d,
)

take-drop : (n : ℕ) (xs : List ℕ) → take n xs ++ drop n xs ≡ xs
take-drop zero xs = refl
take-drop (suc n) [] = refl
take-drop (suc n) (x ∷ xs) = rw (take-drop n xs)

split_digest_halves :
    (d : List ℕ)
    → (drop 16 (split_digest d).0 ≡ drop 16 (reverse d))
      × (drop 16 (split_digest d).1 ≡ take 16 (reverse d))
unfolding split_digest
split_digest_halves d = (refl, refl)

split_digest_injective : (d e : List ℕ) → split_digest d ≡ split_digest e → d ≡ e
split_digest_injective d e h =
    let (low, high) = split_digest_halves d in
    let (low', high') = split_digest_halves e in
    let lows : drop 16 (reverse d) ≡ drop 16 (reverse e) =
      sym low ∙ ap (λ (p : List ℕ × List ℕ). drop 16 p.0) h ∙ low' in
    let highs : take 16 (reverse d) ≡ take 16 (reverse e) =
      sym high ∙ ap (λ (p : List ℕ × List ℕ). drop 16 p.1) h ∙ high' in
    let whole : reverse d ≡ reverse e =
      sym (take-drop 16 (reverse d)) ∙ rw (lows, highs) (take-drop 16 (reverse e)) in
    sym (reverse-reverse d) ∙ ap reverse whole ∙ reverse-reverse e

abbrev nth : List (List ℕ) → ℕ → List ℕ
nth [] i = []
nth (x ∷ xs) zero = x
nth (x ∷ xs) (suc i) = nth xs i

module _ (sha256 : List ℕ → List ℕ) where
  preimage : (x y : List ℕ) → sha256 x ≡ sha256 y → (x ≡ y) ⊎ Collision sha256
  preimage x y h = elim (Bool-cases (equals x y)) [
    | inl same ↦ inl ((bytes_eq.beq_iff x y).0 same)
    | inr differ ↦ inr (x, y, (λ e. ground (arith, bytes_eq.beq_iff x y)), h)
  ]

  -- Structures with one tag, one list of words and as many parts.
  parts_bound :
      (tag : String) (down down' : List (List ℕ)) (words : List ℕ)
      → length down ≡ length down'
      → length (concat down) ≡ length (concat down')
      → tagged_struct sha256 tag down words ≡ tagged_struct sha256 tag down' words
      → (concat down ≡ concat down') ⊎ Collision sha256
  unfolding tagged_struct
  parts_bound tag down down' words count size h = elim (preimage _ _ h) [
    | inr collision ↦ inr collision
    | inl e ↦
        let (_, rest) = append_cancel _ _ _ _ refl e in
        let (same, _) = append_cancel (concat down) (concat down') _ _ size rest in inl same
  ]

  output_bound :
      (d e : List ℕ)
      → length d ≡ length e
      → tagged_struct sha256 "risc0.Output" (d ∷ zero_digest ∷ []) []
        ≡ tagged_struct sha256 "risc0.Output" (e ∷ zero_digest ∷ []) []
      → (d ≡ e) ⊎ Collision sha256
  unfolding concat
  output_bound d e size h =
      let tail = zero_digest ++ [] in
      let sizes : length (d ++ tail) ≡ length (e ++ tail) =
        omega (arith, length-append d tail, length-append e tail, size) in
      elim (parts_bound "risc0.Output" (d ∷ zero_digest ∷ []) (e ∷ zero_digest ∷ []) [] refl sizes
        h) [ inr collision ↦ inr collision | inl same ↦ inl (append_cancel d e _ _ size same).0 ]

  receipt_bound :
      (image image' post o o' : List ℕ)
      → length image ≡ length image'
      → length o ≡ length o'
      → tagged_struct sha256 "risc0.ReceiptClaim" (zero_digest ∷ image ∷ post ∷ o ∷ []) (0 ∷ 0 ∷ [])
        ≡ tagged_struct sha256 "risc0.ReceiptClaim"
            (zero_digest ∷ image' ∷ post ∷ o' ∷ [])
            (0 ∷ 0 ∷ [])
      → ((image ≡ image') × (o ≡ o')) ⊎ Collision sha256
  unfolding concat
  receipt_bound image image' post o o' size osize h =
      let tail = λ (u : List ℕ). post ++ (u ++ []) in
      let sizes : length (zero_digest ++ (image ++ tail o))
          ≡ length (zero_digest ++ (image' ++ tail o')) =
        omega (
          arith,
          length-append image (tail o),
          length-append image' (tail o'),
          length-append post (o ++ []),
          length-append post (o' ++ []),
          length-append o [],
          length-append o' [],
          size,
          osize,
        ) in
      elim (parts_bound "risc0.ReceiptClaim" (zero_digest ∷ image ∷ post ∷ o ∷ [])
        (zero_digest ∷ image' ∷ post ∷ o' ∷ []) (0 ∷ 0 ∷ []) refl sizes h) [
          | inr collision ↦ inr collision
          | inl same ↦
              let (_, behind) = append_cancel zero_digest zero_digest _ _ refl same in
              let (images, rest) = append_cancel image image' _ _ size behind in
              let (_, last) = append_cancel post post _ _ refl rest in
              let (outputs, _) = append_cancel o o' _ _ osize last in inl (images, outputs)
        ]

  module _ (digests : (bytes : List ℕ) → length (sha256 bytes) ≡ 32) where
    tagged_size :
        (tag : String) (down : List (List ℕ)) (words : List ℕ)
        → length (tagged_struct sha256 tag down words) ≡ 32
    unfolding tagged_struct
    tagged_size tag down words = digests _

    claim_bound :
        (image image' j j' : List ℕ)
        → length image ≡ length image'
        → claim_digest sha256 image (sha256 j) ≡ claim_digest sha256 image' (sha256 j')
        → ((image ≡ image') × (j ≡ j')) ⊎ Collision sha256
    unfolding claim_digest
    claim_bound image image' j j' size h =
        let output =
          λ (d : List ℕ). tagged_struct sha256 "risc0.Output" (d ∷ zero_digest ∷ []) [] in
        let outputs : length (output (sha256 j)) ≡ length (output (sha256 j')) =
          tagged_size _ _ _ ∙ sym (tagged_size _ _ _) in
        elim (receipt_bound image image' _ (output (sha256 j)) (output (sha256 j')) size outputs
          h) [
            | inr collision ↦ inr collision
            | inl (images, same) ↦
                elim (output_bound (sha256 j) (sha256 j') (digests j ∙ sym (digests j')) same) [
                  | inr collision ↦ inr collision
                  | inl hashes ↦ elim (preimage j j' hashes) [
                    | inr collision ↦ inr collision
                    | inl journals ↦ inl (images, journals)
                  ]
                ]
          ]

    halves :
        (image image' j j' : List ℕ)
        → public_inputs sha256 image j ≡ public_inputs sha256 image' j'
        → split_digest (claim_digest sha256 image (sha256 j))
          ≡ split_digest (claim_digest sha256 image' (sha256 j'))
    unfolding public_inputs
    halves image image' j j' h = ap (λ inputs. (nth inputs 2, nth inputs 3)) h

    -- If the hash gives 32 bytes, and a journal with one image and another journal with another
    -- image as long have the same public inputs of a receipt, then the images and the journals are
    -- the same, or there are two different texts of bytes with one hash.
    pub public_inputs_bound :
        (image image' j j' : List ℕ)
        → length image ≡ length image'
        → public_inputs sha256 image j ≡ public_inputs sha256 image' j'
        → ((image ≡ image') × (j ≡ j')) ⊎ Collision sha256
    public_inputs_bound image image' j j' size h =
        claim_bound image image' j j' size (split_digest_injective _ _ (halves image image' j j' h))
