-- ===== src/OnChainAttest/Reveal.antt =====
-- frontend/src/components/attestation/RevealStepper.tsx: the four steps and how far they are.
use zkredit.Prelude.{
  ℕ, ◌+◌, ◌==◌, ◌<>◌, ltb, String, Bool, true, false, Option, none, some, List, [], ◌∷◌, show,
  length, get_elem?, units, if◌then◌else◌,
}

unfoldable pub steps : List (String × String)
steps =
    ("Read", "reads public history & scores")
    ∷ ("Prove", "distilled model, in zero-knowledge")
    ∷ ("Sign", "wallet co-signs the envelope")
    ∷ ("Verify", "contract verifies the receipt")
    ∷ []

-- `FILL`
abbrev fills : List ℕ
fills = 12 ∷ 42 ∷ 72 ∷ 88 ∷ []

-- The fill of the track in percent; `none` is a step that `FILL` does not have.
unfoldable pub fill : Option ℕ → Bool → Option ℕ
fill active_index true = some 100
fill none false = some 0
fill (some i) false = get_elem? fills i

abbrev pub is_before : ℕ → Option ℕ → Bool
is_before i none = false
is_before i (some n) = ltb i n

abbrev pub is_at : ℕ → Option ℕ → Bool
is_at i none = false
is_at i (some n) = n == i

pub data Mark : Type 0 where
  active finished ahead : Mark

-- A node that is active is not shown as done.
unfoldable pub mark : Option ℕ → Bool → ℕ → Mark
mark active_index true i = finished
mark active_index false i =
    if is_at i active_index then active else if is_before i active_index then finished else ahead

-- `String(i + 1).padStart(2, "0")`
unfoldable pub number_of : ℕ → String
number_of i = if ltb (length (units (show (i + 1)))) 2 then "0" <> show (i + 1) else show (i + 1)
