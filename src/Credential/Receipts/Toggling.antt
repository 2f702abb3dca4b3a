-- ===== src/Credential/Receipts/Toggling.antt =====
-- The list of open receipts as the set that it stands for.
use zkredit.Prelude.{
  ℕ, ◌==◌, ◌≡◌, refl, true, false, not, List, [], ◌∷◌, ◌++◌, arith, if◌then◌else◌, Bool-cases, inl,
  inr,
}
use zkredit.Credential.Receipts.{has, delete, toggle}

abbrev pub IsSetList : List ℕ → Type 0
IsSetList [] = Unit
IsSetList (i ∷ set) = (has i set ≡ false) × IsSetList set

has-delete : (i j : ℕ) (set : List ℕ) → has j (delete i set) ≡ (if i == j then false else has j set)
unfolding delete
has-delete i j [] = ground arith
has-delete i j (k ∷ set) = ground (arith, has-delete i j set)

has-add : (i j : ℕ) (set : List ℕ) → has j (set ++ (i ∷ [])) ≡ (if i == j then true else has j set)
has-add i j [] = ground arith
has-add i j (k ∷ set) = ground (arith, has-add i j set)

delete-IsSetList : (i : ℕ) (set : List ℕ) → IsSetList set → IsSetList (delete i set)
unfolding delete
delete-IsSetList i [] h = tt
delete-IsSetList i (k ∷ set) (fresh, h) =
    ground (arith, delete-IsSetList i set h, has-delete i k set)

add-IsSetList :
    (i : ℕ) (set : List ℕ) → has i set ≡ false → IsSetList set → IsSetList (set ++ (i ∷ []))
add-IsSetList i [] new h = (refl, tt)
add-IsSetList i (k ∷ set) new (fresh, h) = ground (arith, add-IsSetList i set, has-add i k set)

-- Toggling a receipt in a list without repetitions gives a list without repetitions that stands
-- for the same set, except that the receipt is in it exactly when it was not.
pub toggle-flips :
    (i : ℕ) (opened : List ℕ)
    → IsSetList opened
    → IsSetList (toggle i opened)
      × ((j : ℕ) → has j (toggle i opened) ≡ (if i == j then not (has j opened) else has j opened))
unfolding toggle
toggle-flips i opened h = elim (Bool-cases (has i opened)) [
  | inl member ↦ rw member (delete-IsSetList i opened h, λ j. ground (arith, has-delete i j opened))
  | inr absent ↦
      rw absent (add-IsSetList i opened absent h, λ j. ground (arith, has-add i j opened))
]
