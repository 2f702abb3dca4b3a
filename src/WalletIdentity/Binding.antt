-- ===== src/WalletIdentity/Binding.antt =====
-- The element of a wallet: addrToFieldElement of frontend/src/lib/zk/identity-proof.ts and addr_to_fr
-- of the contract, and the registration with a proof that the client has made for a wallet.
use mathlib.Core.List.{foldl}
use zkredit.Prelude.{
  ℕ, ◌+◌, ◌*◌, ◌%◌, ◌<◌, ◌≡◌, refl, sym, ap, ◌∙◌, String, true, none, some, List, [], ◌∷◌, length,
  arith, All,
}
use zkredit.Bytes.{IsByte, to_hex}
use zkredit.Host.{returned}
use zkredit.Effects.Sync.{Result, ok}
use zkredit.Effects.Io.{Io, returns, await, sync, ◌>>=◌}
use zkredit.Effects.Safe.{bind-eq-ok}
use zkredit.IdentityProof.{
  to_be_32, from_be, push_byte, addr_to_field_element, bn254_r, FullProof, IdentityProof, assemble,
}
use zkredit.IdentityProof.Words.{IsWord, to_be_32-show}
use zkredit.IdentityProof.Proving.{Prover, prove_identity}
use zkredit.Groth16.Equation.{Key, IsKey, Proof, key_bytes, accepts}
use zkredit.Groth16.Assembled.{IsAssembled}
use zkredit.Storage.{find, put, bytes_eq, address_eq}
use zkredit.WalletIdentity.{Host, State, register_wallet, addr_to_fr}
use zkredit.WalletIdentity.Calls.{count_of}
use zkredit.WalletIdentity.Joining.{register_wallet-assembled}

-- Bytes behind two numbers, with one value: the numbers are the same, and the bytes are.
fold_injective :
    (m n : ℕ) (xs ys : List ℕ)
    → length xs ≡ length ys
    → All IsByte xs
    → All IsByte ys
    → foldl push_byte m xs ≡ foldl push_byte n ys
    → (m ≡ n) × (xs ≡ ys)
fold_injective m n [] [] size hx hy e = (e, refl)
fold_injective m n [] (y ∷ ys) size hx hy e = absurd (omega arith)
fold_injective m n (x ∷ xs) [] size hx hy e = absurd (omega arith)
fold_injective m n (x ∷ xs) (y ∷ ys) size (bx, hx) (by, hy) e =
    let (next, rest) = fold_injective (m * 256 + x) (n * 256 + y) xs ys (omega arith) hx hy e in
    let same : x ≡ y = omega (arith, next, bx, by) in
    (omega (arith, next, bx, by), rw (same, rest) refl)

-- A number has one word.
IsWord-unique : (n : ℕ) (xs ys : List ℕ) → IsWord n xs → IsWord n ys → xs ≡ ys
unfolding from_be
IsWord-unique n xs ys a b =
    (fold_injective 0 0 xs ys (a.size ∙ sym b.size) a.bytes_only b.bytes_only
      (a.value ∙ sym b.value)).1

-- `Fr::from_bytes(…).to_bytes()`: the value of the bytes modulo the order, as 32 bytes.
abbrev pub Reduces : Host → Type 0
Reduces host = (bytes : List ℕ) → IsWord (from_be bytes % bn254_r) (host.reduced bytes)

element-addr_to_fr :
    (host : Host) (wallet : String)
    → Reduces host
    → to_be_32 (addr_to_field_element (host.sha256 wallet)) ≡ ok (addr_to_fr host wallet)
unfolding addr_to_field_element addr_to_fr
element-addr_to_fr host wallet reduces =
    let n = from_be (host.sha256 wallet) % bn254_r in
    let (bytes, e, word) = to_be_32-show n (omega arith) in
    e
    ∙ ap ok (
        IsWord-unique n bytes (host.reduced (host.sha256 wallet)) word
          (reduces (host.sha256 wallet)))

module _ {W : Type 0} (prover : Prover W) (host : Host) (key : Key) (hk : IsKey key) where
  -- When the browser's digest of a wallet is the contract's SHA-256 of it, the contract's host
  -- reduces every digest modulo the order to its 32 bytes, and the prover answers with two public
  -- signals, of which the second is the element of the wallet that it was given, then what
  -- `proveIdentity` returns for the wallet registers it: if the pairing equation of the parts of
  -- its blob holds for the stored well-formed key with two points for inputs, the wallet is in no
  -- group and authorises the call, and member counts are below 2^32 - 1, the call returns, with
  -- the word that the commitment text spells; the wallet is stored with it, and its group counts
  -- one member more. So the elements that the client and the contract compute of a wallet agree,
  -- byte for byte.
  pub register_wallet-proved :
      (secret commitment wallet : String) (f : FullProof) (r : IdentityProof) (s : State)
      (w w' w'' : W)
      → Reduces host
      → prover.sha_256 wallet (prover.import_snarkjs w).1 ≡ (returns (host.sha256 wallet), w')
      → prover.full_prove secret (addr_to_field_element (host.sha256 wallet)) w' ≡ (returns f, w'')
      → f.public_signals ≡ commitment ∷ addr_to_field_element (host.sha256 wallet) ∷ []
      → prove_identity prover wallet (some secret) w ≡ (ok r, w'')
      → length key.ics ≡ 2
      → ((p : Proof) → IsAssembled f p → accepts host.curve key p ≡ returned true)
      → s.identity_vk ≡ some (key_bytes key)
      → host.authorized wallet ≡ true
      → find wallet s.wallet_commitments ≡ none
      → ((c : List ℕ) → count_of c s < 4294967295)
      → (word : List ℕ) × (r.commitment_hex ≡ to_hex word)
        × (register_wallet host wallet word r.proof_bytes s
            ≡ returned (record s {
              wallet_commitments = put wallet word s.wallet_commitments;
              member_counts = put word (count_of word s + 1) s.member_counts;
            }))
  unfolding prove_identity
  register_wallet-proved secret commitment wallet f r s w w' w'' reduces hashed proved signals made
        two valid vk may new small =
      let rest : String → Io W IdentityProof = λ secret.
        (await (prover.sha_256 wallet) >>= λ digest.
        await (prover.full_prove secret (addr_to_field_element digest)) >>= λ proof.
        sync (assemble secret proof)) in
      let (_, _, loaded) =
        bind-eq-ok (await prover.import_snarkjs) (λ _. rest secret) w r
          (ap (λ (p : Result IdentityProof × W). p.0) made) in
      let answered : (assemble secret f, w'') ≡ (ok r, w'') =
        rw (hashed, proved) at (sym loaded ∙ made) in
      let element = element-addr_to_fr host wallet reduces in
      register_wallet-assembled host key hk secret commitment
        (addr_to_field_element (host.sha256 wallet)) wallet f r s signals
        (ap (λ (p : Result IdentityProof × W). p.0) answered) element two valid vk may new small
