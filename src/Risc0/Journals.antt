-- ===== src/Risc0/Journals.antt =====
-- ml/risc0/methods/guest/src/main.rs: the journal that the guest commits, and the contract's reading.
use zkredit.Prelude.{
  ℕ, ◌<◌, ◌≡◌, refl, some, List, [], ◌∷◌, ◌++◌, length, take, drop, arith, take-append, drop-append,
  length-append,
}
use zkredit.Risc0.{Journal, parse_journal}
use zkredit.Groth16.Equation.{u32_bytes}

-- The model's prediction and hash are those of the crate that the guest is built with.
unfoldable pub committed : Journal → List ℕ
committed j =
    u32_bytes j.risk_bucket
    ++ (u32_bytes j.confidence ++ (j.identity_commitment ++ j.distilled_model_hash))

pub record IsCommitted (j : Journal) : Type 0 where
  pub bucket_bound : j.risk_bucket < 4294967296
  pub confidence_bound : j.confidence < 4294967296
  pub commitment_size : length j.identity_commitment ≡ 32
  pub hash_size : length j.distilled_model_hash ≡ 32

take_exactly : (xs ys : List ℕ) (n : ℕ) → length xs ≡ n → take n (xs ++ ys) ≡ xs
take_exactly xs ys n e = rw (← e) (take-append xs ys)

drop_exactly : (xs ys : List ℕ) (n : ℕ) → length xs ≡ n → drop n (xs ++ ys) ≡ ys
drop_exactly xs ys n e = rw (← e) (drop-append xs ys)

take_all : (xs : List ℕ) → take (length xs) xs ≡ xs
take_all [] = refl
take_all (x ∷ xs) = rw (take_all xs)

committed_parts :
    (j : Journal)
    → IsCommitted j
    → (take 32 (j.identity_commitment ++ j.distilled_model_hash) ≡ j.identity_commitment)
      × (take 32 (drop 32 (j.identity_commitment ++ j.distilled_model_hash))
          ≡ j.distilled_model_hash)
committed_parts j h = (
  take_exactly j.identity_commitment j.distilled_model_hash 32 h.commitment_size,
  rw (drop_exactly j.identity_commitment j.distilled_model_hash 32 h.commitment_size)
      (rw (← h.hash_size) (take_all j.distilled_model_hash)),
)

-- What the guest commits is read back by the contract as the same four values, if the two numbers
-- are below 2^32 and the two texts of bytes have 32 of them.
pub parse_journal-committed : (j : Journal) → IsCommitted j → parse_journal (committed j) ≡ some j
unfolding parse_journal committed
parse_journal-committed j h =
    let size = length-append j.identity_commitment j.distilled_model_hash in
    let (commitment, hash) = committed_parts j h in ground (arith, size, commitment, hash)
