-- ===== src/Contracts/Attestations.antt =====
-- `parseAttestationData` of risk-attestation.ts against the struct that the contract holds.
use zkredit.Prelude.{ℕ, ◌≡◌, refl, String, Bool, Option, none, some, List, [], ◌∷◌, All}
use zkredit.Prelude.Int.{pos}
use zkredit.Bytes.{IsByte, to_hex, from_hex}
use zkredit.Bytes.RoundTrip.{from_hex-to_hex}
use zkredit.BigInt.Laws.{big_int-show}
use zkredit.Effects.Browser.{Native, null, bool, num, big, text, raw, Retval, struct}
use zkredit.Effects.Sync.{ok}
use zkredit.Contracts.{
  whole, Runtime, AttestationData, get_field, commitment_of, parse_attestation_data,
}

-- The contract's own struct, `AttestationData` of contracts/shared.
pub record Attested : Type 0 where
  pub wallet : String
  pub risk_bucket : ℕ
  pub confidence : ℕ
  pub full_model_hash : List ℕ
  pub distilled_model_hash : List ℕ
  pub proof_or_hash : List ℕ
  pub zk_verified : Bool
  pub attestor : String
  pub issued_at : ℕ
  pub expires_at : ℕ
  pub kyc_verified : Bool
  pub identity_commitment : Option (List ℕ)

abbrev pub optional : Option (List ℕ) → Native
optional none = null
optional (some bs) = raw bs

-- Its native form: 32-bit numbers are numbers, 64-bit ones bigints, addresses texts.
abbrev pub to_native : Attested → Retval
to_native a = struct (
    ("attestor", text a.attestor)
    ∷ ("confidence", num a.confidence)
    ∷ ("distilled_model_hash", raw a.distilled_model_hash)
    ∷ ("expires_at", big a.expires_at)
    ∷ ("full_model_hash", raw a.full_model_hash)
    ∷ ("identity_commitment", optional a.identity_commitment)
    ∷ ("issued_at", big a.issued_at)
    ∷ ("kyc_verified", bool a.kyc_verified)
    ∷ ("proof_or_hash", raw a.proof_or_hash)
    ∷ ("risk_bucket", num a.risk_bucket)
    ∷ ("wallet", text a.wallet)
    ∷ ("zk_verified", bool a.zk_verified)
    ∷ [])

abbrev pub AllBytes : Option (List ℕ) → Type 0
AllBytes none = Unit {0}
AllBytes (some bs) = All IsByte bs

pub record IsAttested (a : Attested) : Type 0 where
  pub full : All IsByte a.full_model_hash
  pub distilled : All IsByte a.distilled_model_hash
  pub proof : All IsByte a.proof_or_hash
  pub commitment : AllBytes a.identity_commitment

-- A text is the commitment, or both are missing.
abbrev pub Commits : Option String → Option (List ℕ) → Type 0
Commits none none = Unit {0}
Commits (some hex) (some bs) = from_hex hex ≡ some bs
Commits _ _ = ⊥

-- What the client shows is what the contract holds.
pub record Shows (d : AttestationData) (a : Attested) : Type 0 where
  pub wallet : d.wallet ≡ a.wallet
  pub risk_bucket : d.risk_bucket ≡ whole a.risk_bucket
  pub confidence : d.confidence ≡ whole a.confidence
  pub full_model_hash : from_hex d.full_model_hash ≡ some a.full_model_hash
  pub distilled_model_hash : from_hex d.distilled_model_hash ≡ some a.distilled_model_hash
  pub proof_or_hash : from_hex d.proof_or_hash ≡ some a.proof_or_hash
  pub zk_verified : d.zk_verified ≡ a.zk_verified
  pub attestor : d.attestor ≡ a.attestor
  pub issued_at : d.issued_at ≡ pos a.issued_at
  pub expires_at : d.expires_at ≡ pos a.expires_at
  pub kyc_verified : d.kyc_verified ≡ a.kyc_verified
  pub identity_commitment : Commits d.identity_commitment a.identity_commitment

module _ (runtime : Runtime) where
  commitment_of-optional :
      (o : Option (List ℕ))
      → AllBytes o
      → (hex : Option String) × (commitment_of runtime (optional o) ≡ ok hex) × Commits hex o
  unfolding commitment_of
  commitment_of-optional none h = (none, refl, tt)
  commitment_of-optional (some bs) h = (some (to_hex bs), refl, from_hex-to_hex bs h)

  -- The native form of an attestation of the contract, whose hashes consist of bytes, is parsed
  -- without an error, and what is parsed shows the attestation: the same texts, flags and numbers,
  -- and hexadecimal texts that decode to the same hashes and commitment.
  pub parse_attestation_data-to_native :
      (a : Attested)
      → IsAttested a
      → (d : AttestationData) × (parse_attestation_data runtime (to_native a) ≡ ok d) × Shows d a
  unfolding parse_attestation_data get_field
  parse_attestation_data-to_native a h =
      let (hex, e, commits) = commitment_of-optional a.identity_commitment h.commitment in
      (
        record {
          wallet = a.wallet;
          risk_bucket = whole a.risk_bucket;
          confidence = whole a.confidence;
          full_model_hash = to_hex a.full_model_hash;
          distilled_model_hash = to_hex a.distilled_model_hash;
          proof_or_hash = to_hex a.proof_or_hash;
          zk_verified = a.zk_verified;
          attestor = a.attestor;
          issued_at = pos a.issued_at;
          expires_at = pos a.expires_at;
          kyc_verified = a.kyc_verified;
          identity_commitment = hex;
        },
        rw (big_int-show a.issued_at, big_int-show a.expires_at, e) refl,
        record {
          wallet = refl;
          risk_bucket = refl;
          confidence = refl;
          full_model_hash = from_hex-to_hex a.full_model_hash h.full;
          distilled_model_hash = from_hex-to_hex a.distilled_model_hash h.distilled;
          proof_or_hash = from_hex-to_hex a.proof_or_hash h.proof;
          zk_verified = refl;
          attestor = refl;
          issued_at = refl;
          expires_at = refl;
          kyc_verified = refl;
          identity_commitment = commits;
        },
      )
