-- ===== src/WalletIdentity/Joining.antt =====
-- A wallet that registers with the proof that frontend/src/lib/zk/identity-proof.ts assembled.
use zkredit.Prelude.{
  ℕ, ◌+◌, ◌<◌, ◌≡◌, refl, sym, ap, ◌∙◌, String, true, none, some, List, [], ◌∷◌, length, map,
  get_elem?, arith,
}
use zkredit.Host.{returned}
use zkredit.Bytes.{to_hex}
use zkredit.Effects.Sync.{ok}
use zkredit.IdentityProof.{to_be_32, FullProof, IdentityProof, assemble}
use zkredit.Groth16.{verify_groth16, nth_public_input}
use zkredit.Groth16.Equation.{Key, IsKey, Proof, key_bytes, accepts}
use zkredit.Groth16.Refinement.{verify_groth16-accepts}
use zkredit.Groth16.Assembled.{IsAssembled, Assembled, assemble-Assembled, nth_public_input-inputs}
use zkredit.Storage.{find, put, bytes_eq, address_eq}
use zkredit.WalletIdentity.{Host, State, register_wallet, check_proof, addr_to_fr}
use zkredit.WalletIdentity.Calls.{count_of}

-- Two signals are two words, and the second is that of the wallet.
second :
    (commitment bound : String) (words : List (List ℕ)) (word : List ℕ)
    → map to_be_32 (commitment ∷ bound ∷ []) ≡ map ok words
    → to_be_32 bound ≡ ok word
    → (length words ≡ 2) × (get_elem? words 1 ≡ some word)
second commitment bound [] word each e = absurd (ground arith)
second commitment bound (v ∷ []) word each e = absurd (ground arith)
second commitment bound (v ∷ w ∷ []) word each e = ground arith
second commitment bound (v ∷ w ∷ x ∷ words) word each e = absurd (ground arith)

module _ (host : Host) (key : Key) (hk : IsKey key) where
  check_proof-passes :
      (wallet : String) (commitment bytes : List ℕ)
      → (verify_groth16 host.curve (key_bytes key) bytes ≡ returned true)
      → (nth_public_input bytes 0 ≡ returned commitment)
      → (nth_public_input bytes 1 ≡ returned (addr_to_fr host wallet))
      → check_proof host (some (key_bytes key)) wallet commitment bytes ≡ returned tt
  unfolding check_proof
  check_proof-passes wallet commitment bytes valid zeroth first =
      rw (valid, zeroth, first)
        (ground (
          arith,
          bytes_eq.beq_iff commitment commitment,
          bytes_eq.beq_iff (addr_to_fr host wallet) (addr_to_fr host wallet),
        ))

  -- With the parts of the blob at hand.
  verified_join :
      (commitment bound wallet : String) (f : FullProof) (r : IdentityProof) (s : State)
      (a : Assembled f r)
      → f.public_signals ≡ commitment ∷ bound ∷ []
      → to_be_32 bound ≡ ok (addr_to_fr host wallet)
      → length key.ics ≡ 2
      → accepts host.curve key a.proof ≡ returned true
      → s.identity_vk ≡ some (key_bytes key)
      → host.authorized wallet ≡ true
      → find wallet s.wallet_commitments ≡ none
      → count_of a.word s < 4294967295
      → register_wallet host wallet a.word r.proof_bytes s
        ≡ returned (record s {
          wallet_commitments = put wallet a.word s.wallet_commitments;
          member_counts = put a.word (count_of a.word s + 1) s.member_counts;
        })
  unfolding register_wallet
  verified_join commitment bound wallet f r s a signals of_wallet two valid vk may new small =
      let each : map to_be_32 (commitment ∷ bound ∷ []) ≡ map ok a.proof.inputs =
        ap (map to_be_32) (sym signals) ∙ a.parts.inputs_of_signals in
      let (count, next) =
        second commitment bound a.proof.inputs (addr_to_fr host wallet) each of_wallet in
      let h = a.parts.is_proof in
      let verified : verify_groth16 host.curve (key_bytes key) r.proof_bytes ≡ returned true =
        rw (a.bytes, verify_groth16-accepts host.curve key a.proof hk h, two, count) valid in
      let zeroth : nth_public_input r.proof_bytes 0 ≡ returned a.word =
        rw (a.bytes, nth_public_input-inputs a.proof h 0, a.first) refl in
      let first : nth_public_input r.proof_bytes 1 ≡ returned (addr_to_fr host wallet) =
        rw (a.bytes, nth_public_input-inputs a.proof h 1, next) refl in
      let passed = check_proof-passes wallet a.word r.proof_bytes verified zeroth first in
      rw (may, vk, passed, new) (ground (arith, small))

  -- When the client assembles an identity proof with two public signals, of which the second is
  -- converted to the contract's element of the wallet, and the pairing equation of the parts of
  -- its blob holds for the stored well-formed key with two points for inputs, then a wallet in no
  -- group that authorises the call registers with that blob and the word that the commitment text
  -- spells, as long as member counts are below 2^32 - 1: the wallet is stored with this
  -- commitment, and its group counts one member more.
  pub register_wallet-assembled :
      (secret commitment bound wallet : String) (f : FullProof) (r : IdentityProof) (s : State)
      → f.public_signals ≡ commitment ∷ bound ∷ []
      → assemble secret f ≡ ok r
      → to_be_32 bound ≡ ok (addr_to_fr host wallet)
      → length key.ics ≡ 2
      → ((p : Proof) → IsAssembled f p → accepts host.curve key p ≡ returned true)
      → s.identity_vk ≡ some (key_bytes key)
      → host.authorized wallet ≡ true
      → find wallet s.wallet_commitments ≡ none
      → ((c : List ℕ) → count_of c s < 4294967295)
      → (word : List ℕ) × (r.commitment_hex ≡ to_hex word)
        × (register_wallet host wallet word r.proof_bytes s
            ≡ returned (record s {
              wallet_commitments = put wallet word s.wallet_commitments;
              member_counts = put word (count_of word s + 1) s.member_counts;
            }))
  register_wallet-assembled secret commitment bound wallet f r s signals made of_wallet two valid vk
        may new small =
      let few : length f.public_signals < 65536 = rw signals (omega arith) in
      let a = assemble-Assembled secret f r few made in
      (
        a.word,
        a.spelled,
        verified_join commitment bound wallet f r s a signals of_wallet two (valid a.proof a.parts)
            vk may new (small a.word),
      )
