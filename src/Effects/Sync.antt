-- ===== src/Effects/Sync.antt =====
-- Results of functions that may throw.
use zkredit.Prelude.{◌≡◌, refl, ◌⊎◌, inl, inr}
use zkredit.Effects.Errors.{Exception}

-- `pending`: the fuel of a polling loop ran out while the loop still waited.
pub data Result {ℓ} (A : Type ℓ) : Type ℓ where
  ok : A → Result A
  thrown : Exception → Result A
  pending : Result A

infixl 5 ◌>>=◌
abbrev pub ◌>>=◌ {ℓ κ} : {A : Type ℓ} {B : Type κ} → Result A → (A → Result B) → Result B
ok a >>= f = f a
thrown e >>= f = thrown e
pending >>= f = pending

module _ {ℓ κ} {A : Type ℓ} {B : Type κ} where
  -- What is bound returned, if the whole returns.
  pub >>=-eq-ok :
      (r : Result A) (next : A → Result B) {out : B}
      → r >>= next ≡ ok out
      → (v : A) × (r ≡ ok v) × (next v ≡ ok out)
  >>=-eq-ok pending next e = cc
  >>=-eq-ok (thrown x) next e = cc
  >>=-eq-ok (ok v) next e = (v, refl, e)

pub Result-cases {ℓ} :
    {A : Type ℓ} (r : Result A)
    → ((a : A) × (r ≡ ok a)) ⊎ (((e : Exception) × (r ≡ thrown e)) ⊎ (r ≡ pending))
Result-cases (ok a) = inl (a, refl)
Result-cases (thrown e) = inr (inl (e, refl))
Result-cases pending = inr (inr refl)
