-- ===== src/Deployment/Revoked.antt =====
-- An attestor that the administrator has revoked attests no more.
use zkredit.Prelude.{ℕ, ◌≡◌, ◌≢◌, refl, Bool, false, List, String, eq_refl}
use zkredit.Host.{
  returned, failed, unauthorized_attestor, >>=-eq-returned, assert, expect, returned_transport,
}
use zkredit.Storage.{find, address_eq}
use zkredit.Storage.Laws.{find-put}
use zkredit.AttestorRegistry.{revoke, is_attestor}
use zkredit.AttestorRegistry
use zkredit.WalletIdentity.{AttestationData}
use zkredit.RiskAttestation.{
  require_attestor, attest_with_risc0, attest_with_hash, attest_with_proof, newer, not_attested,
}
use zkredit.RiskAttestation
use zkredit.Deployment.{Addresses, System, Ledger, IsWired, risk_host}

revoke-is_attestor :
    (authorized : String → Bool) (attestor : String) (r r' : AttestorRegistry.State)
    → revoke authorized attestor r ≡ returned r'
    → is_attestor attestor r' ≡ false
unfolding revoke is_attestor
revoke-is_attestor authorized attestor r r' h =
    let (admin, e, h1) = >>=-eq-returned (expect r.admin) _ h in
    let (_, may, h2) = >>=-eq-returned (assert (authorized admin)) _ h1 in
    returned_transport (λ u. AttestorRegistry.unwrap_or_false (find attestor u.attestors) ≡ false)
      h2 (rw (find-put attestor attestor false r.attestors, eq_refl attestor) refl)

module _ (at : Addresses) (ledger : Ledger) (sys : System) (wired : IsWired at sys)
    (a : AttestationData) (gone : is_attestor a.attestor sys.registry ≡ false) where
  refused :
      require_attestor (risk_host at ledger sys) a.attestor sys.risk ≡ failed unauthorized_attestor
  unfolding require_attestor risk_host
  refused = rw (wired.to_registry, eq_refl at.registry, gone) refl

  hash_refused :
      (wallet : String) (t : RiskAttestation.State)
      → attest_with_hash (risk_host at ledger sys) wallet a sys.risk ≢ returned t
  unfolding attest_with_hash
  hash_refused wallet t h =
      let host = risk_host at ledger sys in
      let (_, may, h1) = >>=-eq-returned (assert (host.authorized wallet)) _ h in
      let (_, new, h2) = >>=-eq-returned (not_attested (find wallet sys.risk.attestations)) _ h1 in
      let (_, known, h3) = >>=-eq-returned (require_attestor host a.attestor sys.risk) _ h2 in
      cc (refused)

  proof_refused :
      (wallet : String) (proof : List ℕ) (t : RiskAttestation.State)
      → attest_with_proof (risk_host at ledger sys) wallet a proof sys.risk ≢ returned t
  unfolding attest_with_proof
  proof_refused wallet proof t h =
      let host = risk_host at ledger sys in
      let (_, may, h1) = >>=-eq-returned (assert (host.authorized wallet)) _ h in
      let (_, new, h2) = >>=-eq-returned (not_attested (find wallet sys.risk.attestations)) _ h1 in
      let (_, known, h3) = >>=-eq-returned (require_attestor host a.attestor sys.risk) _ h2 in
      cc (refused)

  receipt_refused :
      (wallet : String) (seal journal : List ℕ) (t : RiskAttestation.State)
      → attest_with_risc0 (risk_host at ledger sys) wallet a seal journal sys.risk ≢ returned t
  unfolding attest_with_risc0
  receipt_refused wallet seal journal t h =
      let host = risk_host at ledger sys in
      let (_, may, h1) = >>=-eq-returned (assert (host.authorized wallet)) _ h in
      let (_, new, h2) =
        >>=-eq-returned (newer a.issued_at (find wallet sys.risk.attestations)) _ h1 in
      let (_, known, h3) = >>=-eq-returned (require_attestor host a.attestor sys.risk) _ h2 in
      cc (refused)

-- With the contracts wired to one another, once the registry has carried out the revocation of an
-- attestor, no attestation that names it returns: by a hash, by a proof, or by a receipt.
pub revoke-refuses :
    (at : Addresses) (ledger : Ledger) (sys : System) (authorized : String → Bool)
    (r : AttestorRegistry.State) (a : AttestationData) (wallet : String)
    (seal journal proof : List ℕ) (t : RiskAttestation.State)
    → IsWired at sys
    → revoke authorized a.attestor r ≡ returned sys.registry
    → (attest_with_hash (risk_host at ledger sys) wallet a sys.risk ≢ returned t)
      × (attest_with_proof (risk_host at ledger sys) wallet a proof sys.risk ≢ returned t)
      × (attest_with_risc0 (risk_host at ledger sys) wallet a seal journal sys.risk ≢ returned t)
revoke-refuses at ledger sys authorized r a wallet seal journal proof t wired revoked =
    let gone = revoke-is_attestor authorized a.attestor r sys.registry revoked in
    (
      hash_refused at ledger sys wired a gone wallet t,
      proof_refused at ledger sys wired a gone wallet proof t,
      receipt_refused at ledger sys wired a gone wallet seal journal t,
    )
