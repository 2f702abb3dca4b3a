-- ===== src/IdentityProof/Proving.antt =====
-- `proveIdentity` with what it asks of others: randomness and SHA-256 of the Web Crypto API, and the
-- prover of snarkjs. The proof is serialised behind the answer of the prover.
use zkredit.Prelude.{ℕ, String, Option, none, some, List}
use zkredit.Effects.Io.{Io, Reply, ◌>>=◌, pure, await, sync}
use zkredit.IdentityProof.{
  FullProof, IdentityProof, assemble, random_field_element, addr_to_field_element,
}

pub record Prover (W : Type 0) : Type 0 where
  -- `import('snarkjs')`, which loads a file
  pub import_snarkjs : W → Reply (Unit {0}) × W
  -- `crypto.getRandomValues`, of so many bytes
  pub random_bytes : ℕ → W → Reply (List ℕ) × W
  -- `crypto.subtle.digest('SHA-256', …)` of a text in UTF-8
  pub sha_256 : String → W → Reply (List ℕ) × W
  -- `groth16.fullProve` on `secret` and `wallet`
  pub full_prove : String → String → W → Reply FullProof × W

module _ {W : Type 0} (prover : Prover W) where
  -- `secretDec ?? randomFieldElement()`
  abbrev pub secret_or_random : Option String → Io W String
  secret_or_random (some secret) = pure secret
  secret_or_random none =
      await (prover.random_bytes 31) >>= λ bytes. pure (random_field_element bytes)

  unfoldable pub prove_identity : String → Option String → Io W IdentityProof
  prove_identity wallet_address secret_dec = do
    snarkjs ← await prover.import_snarkjs
    secret ← secret_or_random secret_dec
    digest ← await (prover.sha_256 wallet_address)
    proof ← await (prover.full_prove secret (addr_to_field_element digest))
    sync (assemble secret proof)
