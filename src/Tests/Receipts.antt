-- ===== src/Tests/Receipts.antt =====
-- Theorems at concrete inputs: receipts and their journals.
use zkredit.Prelude.{ℕ, zero, suc, All, ◌≡◌, ◌⊎◌, refl, some, List, [], ◌∷◌, ◌++◌, arith}
use zkredit.Storage.{bytes_eq, address_eq}
use zkredit.Groth16.Equation.{accepts}
use zkredit.Risc0.{Journal, verify_receipt, parse_journal}
use zkredit.Risc0.Receipts.{public_inputs, risc0_key, verify_receipt-accepts}
use zkredit.Risc0.Claims.{Collision, public_inputs_bound}
use zkredit.Bytes.{IsByte}
use zkredit.Risc0.Typed.{parse_journal-IsCommitted}
use zkredit.Risc0.Journals.{IsCommitted, committed, parse_journal-committed}
use zkredit.Tests.Groups.{zeros, test_curve}

-- Every text of bytes has the same hash.
abbrev pub flat_hash : List ℕ → List ℕ
flat_hash bytes = zeros 32

verify_receipt-accepts_example :
    verify_receipt flat_hash test_curve (zeros 64 ++ (zeros 128 ++ zeros 64)) (zeros 32) (1 ∷ [])
    ≡ accepts test_curve risc0_key (record {
      a = zeros 64;
      b = zeros 128;
      c = zeros 64;
      inputs = public_inputs flat_hash (zeros 32) (1 ∷ []);
    })
verify_receipt-accepts_example =
    verify_receipt-accepts flat_hash (λ bytes. refl) test_curve (zeros 64) (zeros 128) (zeros 64)
      (zeros 32) (1 ∷ []) refl refl refl

public_inputs_bound_example :
    ((zeros 32 ≡ zeros 32) × (◌≡◌ {A = List ℕ} (1 ∷ []) (1 ∷ []))) ⊎ Collision flat_hash
public_inputs_bound_example =
    public_inputs_bound flat_hash (λ bytes. refl) (zeros 32) (zeros 32) (1 ∷ []) (1 ∷ []) refl refl

abbrev pub some_journal : Journal
some_journal = record {
  risk_bucket = 4;
  confidence = 4251;
  identity_commitment = zeros 31 ++ (7 ∷ []);
  distilled_model_hash = zeros 32;
}

parse_journal-committed_example : parse_journal (committed some_journal) ≡ some some_journal
parse_journal-committed_example = parse_journal-committed some_journal (record {
  bucket_bound = omega arith;
  confidence_bound = omega arith;
  commitment_size = refl;
  hash_size = refl;
})

abbrev pub zeros-All : (n : ℕ) → All IsByte (zeros n)
zeros-All zero = tt
zeros-All (suc n) = (omega arith, zeros-All n)

abbrev pub journal_bytes : List ℕ
journal_bytes = 0 ∷ 0 ∷ 0 ∷ 2 ∷ 0 ∷ 0 ∷ 0 ∷ 9 ∷ zeros 64

abbrev pub read_journal : Journal
read_journal = record {
  risk_bucket = 2;
  confidence = 9;
  identity_commitment = zeros 32;
  distilled_model_hash = zeros 32;
}

read_bytes : parse_journal journal_bytes ≡ some read_journal
unfolding parse_journal
read_bytes = refl

parse_journal-IsCommitted_example :
    IsCommitted read_journal × (committed read_journal ≡ journal_bytes)
parse_journal-IsCommitted_example =
    parse_journal-IsCommitted journal_bytes read_journal
      (
        omega arith,
        (
          omega arith,
          (
            omega arith,
            (omega arith, (omega arith, (omega arith, (omega arith, (omega arith, zeros-All 64))))),
          ),
        ),
      )
      read_bytes
