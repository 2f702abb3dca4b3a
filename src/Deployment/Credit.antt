-- ===== src/Deployment/Credit.antt =====
-- Who gets credit from the deployed contracts: groups share one score, and one human has one group.
use zkredit.Prelude.{
  ℕ, ◌≤◌, ◌≡◌, refl, sym, ap, ◌∙◌, true, Option, some, none, List, String, arith, eq_refl, false,
  Bool-cases, inl, inr,
}
use zkredit.Host.{returned, returned_transport, >>=-eq-returned}
use zkredit.Storage.{Table, equals, find, put, bytes_eq, address_eq}
use zkredit.Storage.Laws.{find-put}
use zkredit.WalletIdentity.{AttestationData, bind_kyc, get_group_attestation, is_kyc_verified}
use zkredit.WalletIdentity.Reachable.{IsConsistent}
use zkredit.WalletIdentity
use zkredit.RiskAttestation.{get_attestation}
use zkredit.MockLendingPool.{pool_terms, terms_from_bucket}
use zkredit.MockLendingPool.Terms.{get_loan_terms-answered}
use zkredit.Deployment.{
  Addresses, System, Ledger, IsWired, IsMember, risk_host, pool_host, loan_terms,
}

module _ (at : Addresses) (ledger : Ledger) (sys : System) (wired : IsWired at sys) where
  -- A member's attestation is that of its group.
  group_attestation :
      (wallet : String) (c : List ℕ) (group : AttestationData)
      → IsMember sys wallet c
      → get_group_attestation c sys.identity ≡ some group
      → get_attestation (risk_host at ledger sys) wallet sys.risk ≡ returned (some group)
  unfolding get_attestation risk_host
  group_attestation wallet c group (own, found, carries) scored =
      rw (found, carries, wired.to_identity, eq_refl at.identity, scored) refl

  pub group_terms :
      (wallet : String) (c : List ℕ) (group : AttestationData)
      → IsMember sys wallet c
      → get_group_attestation c sys.identity ≡ some group
      → loan_terms at ledger sys wallet ≡ returned (pool_terms ledger.timestamp (some group))
  unfolding pool_host
  group_terms wallet c group member scored =
      get_loan_terms-answered (pool_host at ledger sys) wallet at.risk sys.pool (some group)
        wired.to_risk (rw (eq_refl at.risk) (group_attestation wallet c group member scored))

  -- With the contracts wired to one another, two wallets whose own attestations carry the
  -- commitment of one group that has a score are offered the same terms, whatever their own
  -- attestations say: changing to another wallet of the group gains nothing.
  pub group_shares_terms :
      (wallet wallet' : String) (c : List ℕ) (group : AttestationData)
      → IsMember sys wallet c
      → IsMember sys wallet' c
      → get_group_attestation c sys.identity ≡ some group
      → loan_terms at ledger sys wallet ≡ loan_terms at ledger sys wallet'
  group_shares_terms wallet wallet' c group member member' scored =
      group_terms wallet c group member scored ∙ sym (group_terms wallet' c group member' scored)

-- What a group's score is once its KYC is bound.
scored_group :
    (c : List ℕ) (a : AttestationData) (t : WalletIdentity.State)
    → (b : AttestationData)
    → (record b { kyc_verified = true }) ≡ (record a { kyc_verified = true })
    → find c t.identity_attestations ≡ some b
    → is_kyc_verified c t ≡ true
    → get_group_attestation c t ≡ some (record a { kyc_verified = true })
unfolding get_group_attestation
scored_group c a t b same found verified = rw (found, verified) (ap some same)

find-put_self :
    {V : Type 0} (c : List ℕ) (v : V) (t : Table (List ℕ) V) → find c (put c v t) ≡ some v
find-put_self c v t = find-put c c v t ∙ rw ((bytes_eq.beq_iff c c).1 refl) refl

verified_group :
    (c : List ℕ) (s : WalletIdentity.State)
    → WalletIdentity.unwrap_or (find c s.kyc_verified) false ≡ true
    → is_kyc_verified c s ≡ true
unfolding is_kyc_verified
verified_group c s h = h

bind_new-scored :
    (c n : List ℕ) (a : AttestationData) (s t : WalletIdentity.State) (o : Option (List ℕ))
    → IsConsistent s
    → find n s.nullifier_commitments ≡ o
    → find c s.identity_attestations ≡ some a
    → WalletIdentity.bind_new c n o s ≡ returned t
    → get_group_attestation c t ≡ some (record a { kyc_verified = true })
bind_new-scored c n a s t (some bound) v e found h = elim (Bool-cases (equals bound c)) [
  | inl same ↦
      let is : find n s.nullifier_commitments ≡ some c =
        e ∙ ap some ((bytes_eq.beq_iff bound c).0 same) in
      returned_transport (λ u. get_group_attestation c u ≡ some (record a { kyc_verified = true }))
        (rw same at h)
        (scored_group c a s a refl found (verified_group c s ((v.bound c).1 (n, is))))
  | inr other ↦ absurd (ground arith)
]
bind_new-scored c n a s t none v e found h =
    returned_transport (λ u. get_group_attestation c u ≡ some (record a { kyc_verified = true })) h
      (scored_group c a _ (record a { kyc_verified = true }) refl marked (verified_group c _ bound))
  where
    marked :
        find c
          (WalletIdentity.mark_stored c (find c s.identity_attestations) s.identity_attestations)
        ≡ some (record a { kyc_verified = true })
    marked = rw found (find-put_self c (record a { kyc_verified = true }) s.identity_attestations)

    bound : WalletIdentity.unwrap_or (find c (put c true s.kyc_verified)) false ≡ true
    bound = rw (find-put_self c true s.kyc_verified) refl

unlocked :
    (now : ℕ) (a : AttestationData)
    → now ≤ a.expires_at
    → pool_terms now (some (record a { kyc_verified = true })) ≡ terms_from_bucket a
unfolding terms_from_bucket
unlocked now a fresh = ground arith

-- With the contracts wired to one another and the identity contract in a consistent state: if a
-- call binds a KYC nullifier to a group, then after it the pool offers every wallet whose own
-- attestation carries the group's commitment the terms of the bucket that the group was scored
-- with, as long as that score has not expired.
pub bind_kyc_unlocks :
    (at : Addresses) (ledger : Ledger) (sys : System) (host : WalletIdentity.Host)
    (attestor wallet : String) (c n : List ℕ) (group : AttestationData) (t : WalletIdentity.State)
    → IsWired at sys
    → IsConsistent sys.identity
    → IsMember sys wallet c
    → find c sys.identity.identity_attestations ≡ some group
    → ledger.timestamp ≤ group.expires_at
    → bind_kyc host attestor c n sys.identity ≡ returned t
    → loan_terms at ledger (record sys { identity = t }) wallet ≡ returned (terms_from_bucket group)
unfolding bind_kyc
bind_kyc_unlocks at ledger sys host attestor wallet c n group t wired v member found fresh h =
    let (_, may, h1) =
      >>=-eq-returned (WalletIdentity.require_registered_attestor host attestor sys.identity) _ h in
    let scored =
      bind_new-scored c n group sys.identity t (find n sys.identity.nullifier_commitments) v refl
        found h1 in
    let wired' : IsWired at (record sys { identity = t }) = record {
      to_registry = wired.to_registry;
      to_identity = wired.to_identity;
      to_risk = wired.to_risk;
    } in
    group_terms at ledger (record sys { identity = t }) wired' wallet c
      (record group { kyc_verified = true }) member scored
    ∙ ap returned (unlocked ledger.timestamp group fresh)
