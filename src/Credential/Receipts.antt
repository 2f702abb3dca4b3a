-- ===== src/Credential/Receipts.antt =====
-- frontend/src/components/attestation/ModelReceipts.tsx: which receipts are open, what they list, and
-- the names of features.
pub mod Toggling
use zkredit.Prelude.{
  ℕ, ◌+◌, ◌-◌, ◌==◌, leb, String, Bool, true, false, not, ◌&&◌, ◌||◌, Option, none, some, List, [],
  ◌∷◌, ◌++◌, any, take, units, is_prefix, drop, if◌then◌else◌,
}
use zkredit.Effects.Json.{Json, property, truthy?}

abbrev pub has : ℕ → List ℕ → Bool
has i set = any (λ j. i == j) set

-- `next.delete(i)`
unfoldable pub delete : ℕ → List ℕ → List ℕ
delete i [] = []
delete i (j ∷ set) = let rest = delete i set in if i == j then rest else j ∷ rest

-- The set of open receipts, in the order of their insertion.
unfoldable pub first_open : List ℕ
first_open = 0 ∷ 1 ∷ []

unfoldable pub toggle : ℕ → List ℕ → List ℕ
toggle i opened = if has i opened then delete i opened else opened ++ (i ∷ [])

-- `\w`
abbrev is_word : ℕ → Bool
is_word c =
    leb b'A' c && leb c b'Z' || leb b'a' c && leb c b'z' || leb b'0' c && leb c b'9' || c == b'_'

abbrev to_upper : ℕ → ℕ
to_upper c = if leb b'a' c && leb c b'z' then c - 32 else c

-- `replace(/_/g, " ")`
unfoldable pub without_underscores : List ℕ → List ℕ
without_underscores [] = []
without_underscores (c ∷ cs) = (if c == b'_' then b' ' else c) ∷ without_underscores cs

-- `replace(/\b\w/g, …)`: the flag says whether a word character stands in front.
unfoldable pub capitalised : Bool → List ℕ → List ℕ
capitalised inside [] = []
capitalised inside (c ∷ cs) = (if inside then c else to_upper c) ∷ capitalised (is_word c) cs

abbrev starts_word : List ℕ → Bool
starts_word [] = false
starts_word (c ∷ cs) = is_word c

-- `replace(/\bApr\b/, "APR")`: the first occurrence as a word of its own.
unfoldable pub upper_apr : Bool → List ℕ → List ℕ
upper_apr inside [] = []
upper_apr inside (c ∷ cs) =
    let rest = upper_apr (is_word c) cs in
    if not inside && is_prefix (units "Apr") (c ∷ cs) && not (starts_word (drop 2 cs))
    then units "APR" ++ drop 2 cs
    else c ∷ rest

unfoldable pub pretty : List ℕ → List ℕ
pretty name = upper_apr false (capitalised false (without_underscores name))

-- `(topFeatures ?? []).slice(0, 5)`
unfoldable pub feats : {A : Type 0} → Option (List A) → List A
feats none = []
feats (some top_features) = take 5 top_features

-- The state of the provenance.
pub record Provenance : Type 0 where
  pub model : Option Json
  pub model_error : Bool

-- What the request for the model's information leads to, unless the receipts are gone.
unfoldable pub on_model : Bool → Json → Provenance → Provenance
on_model cancelled m s = if cancelled then s else record s { model = some m }

unfoldable pub on_model_error : Bool → Provenance → Provenance
on_model_error cancelled s = if cancelled then s else record s { model_error = true }

abbrev pub Row : Type 0
Row = String × Option Json

unfoldable pub provenance_text : Provenance → Option String
provenance_text s =
    if s.model_error then some "Model info is unavailable right now" else loading s.model
  where
    loading : Option Json → Option String
    loading none = some "Loading model info…"
    loading (some m) = none

unfoldable pub provenance_rows : Json → List Row
provenance_rows model =
    ("Full model hash", property "full_model_hash" model)
    ∷ ("Distilled (ZK target)", property "distilled_model_hash" model)
    ∷ ("Proof system", property "proving_system" model)
    ∷ (
      "On-chain verify",
      some (
          Json.str (
            if truthy? (property "zk_verified_capability" model)
            then "enabled ✓"
            else "hash-anchored")),
    )
    ∷ []
