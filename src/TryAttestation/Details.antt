-- ===== src/TryAttestation/Details.antt =====
-- The rows of "Proof & attestation details" in frontend/src/components/TryAttestation.tsx: values of
-- the attestation, of its stored record, and of the model's information. The last two may be missing.
use zkredit.Prelude.{◌<>◌, String, Option, none, some, List, [], ◌∷◌, ◌++◌, if◌then◌else◌}
use zkredit.Effects.Json.{Json, str, property, truthy?}
use zkredit.TryAttestation.{AttestationResponse}
use zkredit.TryAttestation.Results.{Numbers}

-- `a ?? fallback`
abbrev nullish : Option Json → Option Json → Option Json
nullish none fallback = fallback
nullish (some Json.null) fallback = fallback
nullish (some v) fallback = some v

-- `answer?.name ?? fallback`
abbrev read : String → Option Json → Option Json → Option Json
read name none fallback = fallback
read name (some r) fallback = nullish (property name r) fallback

abbrev dash : Option Json
dash = some (str "—")

unfoldable pub confidence_text : Numbers → Option Json → Option Json
confidence_text numbers none = dash
confidence_text numbers (some r) =
    some (str (numbers.hundredths (property "confidence_bps" r) <> "%"))

unfoldable pub dimension_text : Numbers → Option Json → Option Json
dimension_text numbers none = dash
dimension_text numbers (some model) =
    some (str (numbers.to_string (property "feature_dimension" model)))

unfoldable pub fidelity_text : Numbers → Option Json → Option Json
fidelity_text numbers none = dash
fidelity_text numbers (some model) = some (
    str (
      numbers.percent (property "distilled_exact_fidelity" model)
      <> "% exact, "
      <> numbers.percent (property "distilled_within_one_fidelity" model)
      <> "% within ±1 bucket"))

-- Shown when there is one.
unfoldable pub submission_row : Option Json → List (String × Option Json)
submission_row none = []
submission_row (some r) =
    if truthy? (property "submission_detail" r)
    then ("Submission detail", property "submission_detail" r) ∷ []
    else []

unfoldable pub detail_rows :
    Numbers → AttestationResponse → Option Json → Option Json → List (String × Option Json)
detail_rows numbers a stored model_info =
    (("Proof hash", a.proof_hash)
      ∷ ("Transaction hash", read "tx_hash" stored (nullish a.tx_hash (some (str "pending"))))
      ∷ ("Attestor", read "attestor" stored dash)
      ∷ ("Created", some (str (numbers.local_date (read "created_at" stored a.created_at))))
      ∷ ("Stored confidence", confidence_text numbers stored)
      ∷ ("Submission mode", read "submission_mode" stored dash)
      ∷ ("Full model hash", a.full_model_hash)
      ∷ ("Distilled model hash", a.distilled_model_hash)
      ∷ ("Feature schema", a.feature_schema_version)
      ∷ ("Feature dimension", dimension_text numbers model_info)
      ∷ ("Distilled fidelity", fidelity_text numbers model_info)
      ∷ ("Proving system", read "proving_system" model_info dash)
      ∷ [])
    ++ submission_row stored
