-- ===== src/TryAttestation/Results.antt =====
-- The results of frontend/src/components/TryAttestation.tsx. What `toFixed`, `toLocaleString` and a
-- product with 100 print of a number of the API is a parameter.

use Prim.Native.Char.{code}
use zkredit.Prelude.{
  ℕ, zero, suc, ◌+◌, ◌*◌, ◌==◌, ◌<◌, ◌≡◌, ◌<>◌, refl, String, Bool, true, false, Option, none, some,
  List, [], ◌∷◌, ◌++◌, if◌then◌else◌, arith,
}
use zkredit.Effects.Json.{Json, Items, nil, cons, Fields, property, lookup, truthy?}
use zkredit.TryAttestation.{AttestationResponse}
use zkredit.TryAttestation.Page.{buckets, risk_color, marker_left}

pub record Numbers : Type 0 where
  -- `value.toFixed(digits)`
  pub to_fixed : ℕ → Option Json → String
  -- `value.toLocaleString(undefined, { maximumFractionDigits: 2 })`
  pub to_locale : Json → String
  -- `(value * 100).toFixed(1)`
  pub percent : Option Json → String
  -- `(value / 100).toFixed(2)`
  pub hundredths : Option Json → String
  -- `new Date(value).toLocaleString()`
  pub local_date : Option Json → String
  -- `String(value)`
  pub to_string : Option Json → String

unfoldable pub feature_labels : List (String × String)
feature_labels =
    ("num_operations", "Total operations")
    ∷ ("account_age_days", "Account age (days)")
    ∷ ("recency_days", "Recency of activity (days)")
    ∷ ("distinct_assets", "Distinct assets")
    ∷ ("distinct_trustlines", "Trustlines")
    ∷ ("distinct_send", "Distinct senders")
    ∷ ("distinct_recv", "Distinct recipients")
    ∷ ("failed_ratio", "Failed transaction ratio")
    ∷ ("sent_amt", "Sent volume")
    ∷ ("recv_amt", "Received volume")
    ∷ []

-- A list, or the line that stands where it is empty.
pub data Section (A : Type 0) : Type 0 where
  line : String → Section A
  entries : List A → Section A

abbrev labels : Items → List (Option Json)
labels nil = []
labels (cons rc more) = property "label" rc ∷ labels more

unfoldable pub reason_section : Items → Section (Option Json)
reason_section nil = line "No notable risk signals for this wallet."
reason_section (cons rc more) = entries (labels (cons rc more))

pub record FeatureRow : Type 0 where
  pub name : Option Json
  pub value : String
  pub contribution : String

module _ (numbers : Numbers) where
  abbrev feature_rows : Items → List FeatureRow
  feature_rows nil = []
  feature_rows (cons f more) =
      record {
        name = property "name" f;
        value = numbers.to_fixed 3 (property "value" f);
        contribution = numbers.to_fixed 3 (property "contribution" f);
      }
      ∷ feature_rows more

  unfoldable pub feature_section : Items → Section FeatureRow
  feature_section nil = line "No feature contributions returned."
  feature_section (cons f more) = entries (feature_rows (cons f more))

  abbrev summary_row : String → Option Json → List (String × String)
  summary_row label none = []
  summary_row label (some v) = (label, numbers.to_locale v) ∷ []

  -- `FEATURE_LABELS.filter(([key]) => key in features.summary)`
  abbrev summary_from : List (String × String) → Fields → List (String × String)
  summary_from [] summary = []
  summary_from ((key, label) ∷ more) summary =
      summary_row label (lookup key summary) ++ summary_from more summary

  abbrev summary_of : Option Fields → List (String × String)
  summary_of none = []
  summary_of (some summary) = summary_from feature_labels summary

  -- The line of the answer that is missing, and the rows of the one that is there.
  unfoldable pub feature_summary : Bool → Option Fields → Option String × List (String × String)
  feature_summary unavailable summary = (
    if unavailable then some "Feature summary unavailable for this wallet." else none,
    summary_of summary,
  )

-- `RISK_COLORS[name] ?? "#888"`
abbrev color_or_grey : Option String → String
color_or_grey none = "#888"
color_or_grey (some color) = color

pub record Summary : Type 0 where
  pub color : String
  pub name : Option String
  pub score : Option Json
  pub confidence : String
  pub proof_badge : String
  pub zk_badge : String
  pub address : Option Json

unfoldable pub proof_badge_of : Option Json → String
proof_badge_of generated = if truthy? generated then "proof generated" else "hash-anchored fallback"

unfoldable pub zk_badge_of : Option Json → String
zk_badge_of verified = if truthy? verified then "ZK-verified on-chain" else "not verified on-chain"

abbrev name_color : Option Json → Option String
name_color (some (Json.str name)) = risk_color name
name_color _ = none

-- `name.replace("_", " ")`, of the first one
unfoldable pub replace_first : String → String
replace_first String.[] = String.[]
replace_first (String.◌∷◌ c t) =
    let rest = replace_first t in if code c == 95 then " " <> t else String.◌∷◌ c rest

abbrev name_text : Option Json → Option String
name_text (some (Json.str name)) = some (replace_first name)
name_text _ = none

unfoldable pub summary_card : Numbers → AttestationResponse → Summary
summary_card numbers a = record {
  color = color_or_grey (name_color a.risk_bucket_name);
  name = name_text a.risk_bucket_name;
  score = a.credit_score;
  confidence = numbers.percent a.confidence <> "% confidence";
  proof_badge = proof_badge_of a.proof_generated;
  zk_badge = zk_badge_of a.zk_verified;
  address = a.stellar_address;
}

-- The segments of the gauge, and whether each is lit.
abbrev lit_from : ℕ → ℕ → List String → List Bool
lit_from bucket i [] = []
lit_from bucket i (b ∷ more) = (i == bucket) ∷ lit_from bucket (suc i) more

unfoldable pub segments : ℕ → List Bool
segments bucket = lit_from bucket 0 buckets

abbrev lit : List Bool → ℕ
lit [] = 0
lit (true ∷ more) = suc (lit more)
lit (false ∷ more) = lit more

-- One segment is lit for each of the five buckets, and the marker stands inside it.
segments-lit :
    (bucket : ℕ)
    → bucket < 5
    → (lit (segments bucket) ≡ 1)
      × (20 * bucket < marker_left bucket)
      × (marker_left bucket < 20 * bucket + 20)
unfolding segments buckets marker_left
segments-lit zero h = (refl, omega arith, omega arith)
segments-lit (suc zero) h = (refl, omega arith, omega arith)
segments-lit (suc (suc zero)) h = (refl, omega arith, omega arith)
segments-lit (suc (suc (suc zero))) h = (refl, omega arith, omega arith)
segments-lit (suc (suc (suc (suc zero)))) h = (refl, omega arith, omega arith)
segments-lit (suc (suc (suc (suc (suc n))))) h = absurd (omega arith)
