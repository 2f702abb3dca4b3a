-- ===== src/RiskAttestation/Reachable.antt =====
-- The states that calls of the contract lead to. A call that fails or panics leaves the storage as
-- it was, so a step is a call that returns.
use zkredit.Prelude.{
  ℕ, ◌<◌, ◌≡◌, ◌⊎◌, inl, inr, refl, ◌∙◌, true, some, List, String, arith, if◌then◌else◌, Bool-cases,
}
use zkredit.Host.{returned}
use zkredit.Storage.{equals, find, address_eq}
use zkredit.Storage.Laws.{find-put}
use zkredit.Groth16.{Curve}
use zkredit.WalletIdentity.{AttestationData}
use zkredit.RiskAttestation.{Host, State, constructor, write_attestation}
use zkredit.RiskAttestation.Calls.{
  Call, run_call, IsNewer, IsAttestor, Grounds, on_word, on_proof, on_receipt, Change,
  wires_registry, wires_identity, stores_image, stores_key, attests,
}
use zkredit.RiskAttestation.Changes.{run_call-Change}

-- Every call meets a host of its own, with the same hash and the same curve.
pub data Reach (sha256 : List ℕ → List ℕ) (curve : Curve) (s : State) : State → Type 0 where
  here : Reach sha256 curve s s
  after :
      {t u : State}
      → Reach sha256 curve s t
      → (host : Host) (call : Call) → host.sha256 ≡ sha256
      → host.curve ≡ curve
      → run_call host call t ≡ returned u
      → Reach sha256 curve s u

-- The same record, or a newer one that a receipt proves.
abbrev pub Replaces : AttestationData → AttestationData → Type 0
Replaces a b = (b ≡ a) ⊎ ((a.issued_at < b.issued_at) × (b.zk_verified ≡ true))

-- What becomes of a record of a wallet.
abbrev pub Keeps : String → AttestationData → State → Type 0
Keeps wallet a t = (b : AttestationData) × (find wallet t.attestations ≡ some b) × Replaces a b

Replaces-trans : (a b c : AttestationData) → Replaces a b → Replaces b c → Replaces a c
Replaces-trans a b c (inl e) (inl f) = inl (f ∙ e)
Replaces-trans a b c (inl e) (inr (lt, proved)) = inr (rw (← e) lt, proved)
Replaces-trans a b c (inr (lt, proved)) (inl f) = inr (rw f lt, rw f proved)
Replaces-trans a b c (inr (lt, proved)) (inr (lt', proved')) = inr (omega arith, proved')

Grounds-Replaces :
    {host : Host} {s : State} {wallet : String} {b : AttestationData} (a : AttestationData)
    → find wallet s.attestations ≡ some a
    → Grounds host s wallet b
    → Replaces a b
Grounds-Replaces a e (on_word new plain) = absurd cc
Grounds-Replaces a e (on_proof vk proof new key valid flag) = absurd cc
Grounds-Replaces {b = b} a e (on_receipt given seal image bytes journal new set valid parsed is) =
    let later : IsNewer b.issued_at (some a) = rw e at new in inr (later, rw is refl)

-- What is found behind a write.
found_written :
    (wallet other : String) (b : AttestationData) (s : State)
    → find wallet (write_attestation other b s).attestations
      ≡ (if equals wallet other then some b else find wallet s.attestations)
unfolding write_attestation
found_written wallet other b s = find-put wallet other b s.attestations

Change-Keeps :
    {host : Host} {s t : State} (wallet : String) (a : AttestationData)
    → Change host s t
    → find wallet s.attestations ≡ some a
    → Keeps wallet a t
Change-Keeps wallet a (wires_registry id may) e = (a, e, inl refl)
Change-Keeps wallet a (wires_identity id may) e = (a, e, inl refl)
Change-Keeps wallet a (stores_image id may) e = (a, e, inl refl)
Change-Keeps wallet a (stores_key model vk may) e = (a, e, inl refl)
Change-Keeps {s = s} wallet a (attests other b may known grounds) e =
    elim (Bool-cases (equals wallet other)) [
      | inl same ↦
          let is : wallet ≡ other = (address_eq.beq_iff wallet other).0 same in
          let old : find other s.attestations ≡ some a = rw (← is) e in
          (b, found_written wallet other b s ∙ rw same refl, Grounds-Replaces a old grounds)
      | inr differ ↦ (a, found_written wallet other b s ∙ rw differ e, inl refl)
    ]

-- Once a wallet has an attestation, then after any further calls, each with a host of its own, it
-- has the same one, or one that is issued strictly later and marked as verified: none is removed,
-- and an older one never comes back.
pub Reach-Keeps :
    (sha256 : List ℕ → List ℕ) (curve : Curve) {s t : State} (wallet : String) (a : AttestationData)
    → Reach sha256 curve s t
    → find wallet s.attestations ≡ some a
    → Keeps wallet a t
Reach-Keeps sha256 curve wallet a here e = (a, e, inl refl)
Reach-Keeps sha256 curve wallet a (after before host call hs hc h) e =
    let (b, found, kept) = Reach-Keeps sha256 curve wallet a before e in
    let (c, found', kept') = Change-Keeps wallet b (run_call-Change host _ call h) found in
    (c, found', Replaces-trans a b c kept kept')

module _ (sha256 : List ℕ → List ℕ) (curve : Curve) (admin : String) where
  -- An earlier state in which the record was written for the wallet, on grounds that it had then.
  abbrev pub IsWritten : String → AttestationData → State → Type 0
  IsWritten wallet a t =
      (r : State) × (host : Host) × Reach sha256 curve (constructor admin) r
      × Reach sha256 curve (write_attestation wallet a r) t
      × (host.sha256 ≡ sha256)
      × (host.curve ≡ curve)
      × (host.authorized wallet ≡ true)
      × IsAttestor host r a.attestor
      × Grounds host r wallet a

  abbrev pub IsBacked : State → Type 0
  IsBacked t =
      (wallet : String) (a : AttestationData)
      → find wallet t.attestations ≡ some a
      → IsWritten wallet a t

  abbrev Leads : State → State → Type 0
  Leads t u = (v : State) → Reach sha256 curve v t → Reach sha256 curve v u
