-- ===== src/Api/Addresses.antt =====
-- What counts as a Stellar address.
use zkredit.Prelude.{
  ℕ, ◌≡◌, ◌↔◌, refl, ap, drop, String, true, List, [], ◌∷◌, length, All, units, trim, arith,
}
use zkredit.Api.{is_base_32, all_base_32, is_account_id, is_valid_stellar_address}

abbrev head_or_zero : List ℕ → ℕ
head_or_zero [] = 0
head_or_zero (c ∷ cs) = c

all_base_32_iff : (cs : List ℕ) → (all_base_32 cs ≡ true) ↔ All (λ c. is_base_32 c ≡ true) cs
all_base_32_iff [] = (λ _. tt, λ _. refl)
all_base_32_iff (c ∷ cs) = let (there, back) = all_base_32_iff cs in ground arith

is_account_id_iff :
    (us : List ℕ)
    → (is_account_id us ≡ true)
      ↔ ((cs : List ℕ) × (us ≡ 71 ∷ cs) × (length us ≡ 56) × All (λ c. is_base_32 c ≡ true) cs)
unfolding is_account_id
is_account_id_iff [] = (λ h. cc, λ (cs, e, size, digits). cc)
is_account_id_iff (c ∷ cs) = (
  λ h.
      let digits : all_base_32 cs ≡ true = ground arith in
      let first : c ≡ 71 = ground arith in
      (cs, ap (λ c. c ∷ cs) first, ground arith, (all_base_32_iff cs).0 digits),
  λ (ds, e, size, digits).
      let same : cs ≡ ds = ap (drop 1) e in
      let first : c ≡ 71 = ap head_or_zero e in
      let all : all_base_32 cs ≡ true = rw same ((all_base_32_iff ds).1 digits) in
      rw (first, all) (ground arith),
)

-- An address is valid exactly when the trimmed text has 56 units, the first of them a G and all
-- others base-32 digits.
pub is_valid_stellar_address_iff :
    (address : String)
    → (is_valid_stellar_address address ≡ true) ↔ (
        (cs : List ℕ) × (units (trim address) ≡ 71 ∷ cs)
        × (length (units (trim address)) ≡ 56)
        × All (λ c. is_base_32 c ≡ true) cs)
unfolding is_valid_stellar_address
is_valid_stellar_address_iff address = is_account_id_iff (units (trim address))
