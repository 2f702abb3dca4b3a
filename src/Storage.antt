-- ===== src/Storage.antt =====
-- The storage of a Soroban contract, one table for each kind of key. Laws proves what it keeps.
pub mod Laws
use zkredit.Prelude.{
  ℕ, suc, ◌≡◌, ◌↔◌, refl, Bool, true, false, ◌&&◌, Option, none, some, List, [], ◌∷◌, String,
  if◌then◌else◌, ◌==◌, ==_iff, str_eq, eq_iff, arith,
}

pub record Eq (A : Type 0) : Type 0 where
  pub beq : A → A → Bool
  pub beq_iff : (a b : A) → (beq a b ≡ true) ↔ (a ≡ b)

abbrev bytes_beq : List ℕ → List ℕ → Bool
bytes_beq [] [] = true
bytes_beq [] (y ∷ ys) = false
bytes_beq (x ∷ xs) [] = false
bytes_beq (x ∷ xs) (y ∷ ys) = x == y && bytes_beq xs ys

pub bytes_beq_iff : (xs ys : List ℕ) → (bytes_beq xs ys ≡ true) ↔ (xs ≡ ys)
bytes_beq_iff [] [] = ground arith
bytes_beq_iff [] (y ∷ ys) = ground arith
bytes_beq_iff (x ∷ xs) [] = ground arith
bytes_beq_iff (x ∷ xs) (y ∷ ys) = ground (arith, bytes_beq_iff xs ys)

instance abbrev pub bytes_eq : Eq (List ℕ)
bytes_eq = record { beq = bytes_beq; beq_iff = bytes_beq_iff }

instance abbrev pub address_eq : Eq String
address_eq = record { beq = str_eq; beq_iff = eq_iff }

abbrev pub equals : {A : Type 0} ⦃e : Eq A⦄ → A → A → Bool
equals ⦃e⦄ = e.beq

abbrev pub Table : Type 0 → Type 0 → Type 0
Table K V = List (K × V)

module _ {K V : Type 0} ⦃e : Eq K⦄ where
  -- `get`
  unfoldable pub find : K → Table K V → Option V
  find k [] = none
  find k ((j, v) ∷ t) = let rest = find k t in if equals k j then some v else rest

  -- `set`
  unfoldable pub put : K → V → Table K V → Table K V
  put k v [] = (k, v) ∷ []
  put k v ((j, w) ∷ t) = let rest = put k v t in if equals k j then (k, v) ∷ t else (j, w) ∷ rest

  -- `remove`
  unfoldable pub remove : K → Table K V → Table K V
  remove k [] = []
  remove k ((j, w) ∷ t) = let rest = remove k t in if equals k j then rest else (j, w) ∷ rest

  -- No key has two entries.
  abbrev pub Unique : Table K V → Type 0
  Unique [] = Unit
  Unique ((k, v) ∷ t) = (find k t ≡ none) × Unique t

-- The number of entries with a value.
unfoldable pub tally : {K V : Type 0} ⦃e : Eq V⦄ → V → Table K V → ℕ
tally c [] = 0
tally c ((k, v) ∷ t) = let rest = tally c t in if equals v c then suc rest else rest
