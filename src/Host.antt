-- ===== src/Host.antt =====
-- What a call of a Soroban contract does (contracts/shared/src/lib.rs): return, fail with an error of
-- the contract, or panic.
use mathlib.Core.Path.{subst}
use zkredit.Prelude.{
  ℕ, ◌+◌, ◌≡◌, Bool, Option, none, some, List, leb, length, take, drop, if◌then◌else◌, refl, ap,
}

-- `Error` of contracts/shared/src/lib.rs, as far as the contracts return it.
pub data Error : Type 0 where
  attestation_not_found attestor_not_registered unauthorized_attestor invalid_proof : Error
  already_in_group commitment_conflict nullifier_already_bound : Error
  already_attested invalid_inputs risc0_image_not_set stale_attestation : Error

pub data Run {ℓ} (A : Type ℓ) : Type ℓ where
  returned : A → Run A
  failed : Error → Run A
  panicked : Run A

infixl 5 ◌>>=◌ ◌>>◌
abbrev pub ◌>>=◌ {ℓ κ} : {A : Type ℓ} {B : Type κ} → Run A → (A → Run B) → Run B
panicked >>= f = panicked
failed e >>= f = failed e
returned a >>= f = f a

pub >>=-cong {ℓ κ} :
    {A : Type ℓ} {B : Type κ} (m : Run A) (f g : A → Run B)
    → ((a : A) → f a ≡ g a)
    → m >>= f ≡ m >>= g
>>=-cong panicked f g same = refl
>>=-cong (failed e) f g same = refl
>>=-cong (returned a) f g same = same a

-- A call that returns has returned at every step.
pub >>=-eq-returned {ℓ κ} :
    {A : Type ℓ} {B : Type κ} (m : Run A) (f : A → Run B) {b : B}
    → m >>= f ≡ returned b
    → (a : A) × (m ≡ returned a) × (f a ≡ returned b)
>>=-eq-returned panicked f h = absurd (cc)
>>=-eq-returned (failed e) f h = absurd (cc)
>>=-eq-returned (returned a) f h = (a, refl, h)

pub returned_transport {ℓ κ} :
    {A : Type ℓ} (P : A → Type κ) {a b : A} → returned a ≡ returned b → P a → P b
returned_transport {A = A} P {a} h p = subst P (ap (value_or a) h) p
  where
    value_or : A → Run A → A
    value_or d (returned x) = x
    value_or d (failed e) = d
    value_or d panicked = d

abbrev pub ◌>>◌ {κ} : {B : Type κ} → Run (Unit {0}) → Run B → Run B
m >> k = m >>= λ _. k

-- `assert!`, `require_auth`
abbrev pub assert : Bool → Run (Unit {0})
assert b = if b then returned tt else panicked

-- `if … { return Err(e) }`
abbrev pub refuse_if : Bool → Error → Run (Unit {0})
refuse_if b e = if b then failed e else returned tt

-- `bytes.get(i).expect(…)`
abbrev pub expect {ℓ} : {A : Type ℓ} → Option A → Run A
expect none = panicked
expect (some a) = returned a

-- `bytes.slice(offset..offset + size)`
unfoldable pub slice : ℕ → ℕ → List ℕ → Run (List ℕ)
slice offset size src =
    if leb (offset + size) (length src) then returned (take size (drop offset src)) else panicked
