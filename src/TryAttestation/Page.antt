-- ===== src/TryAttestation/Page.antt =====
-- What frontend/src/components/TryAttestation.tsx shows: the form, the steps, an error, or the
-- results.
use zkredit.Prelude.{
  ℕ, suc, ◌+◌, ◌*◌, ◌==◌, ltb, String, Bool, true, false, not, Option, none, some, List, [], ◌∷◌,
  str_eq, if◌then◌else◌,
}
use zkredit.View.{Shown, button}
use zkredit.TryAttestation.{State, Phase, idle, loading, done, failed, AttestationResponse}

pub data Action : Type 0 where
  submits : Action

unfoldable pub buckets : List String
buckets = "VERY_LOW" ∷ "LOW" ∷ "MEDIUM" ∷ "HIGH" ∷ "VERY_HIGH" ∷ []

abbrev colors : List (String × String)
colors =
    ("VERY_LOW", "#22c55e")
    ∷ ("LOW", "#84cc16")
    ∷ ("MEDIUM", "#eab308")
    ∷ ("HIGH", "#f97316")
    ∷ ("VERY_HIGH", "#ef4444")
    ∷ []

abbrev look_up : String → List (String × String) → Option String
look_up name [] = none
look_up name ((key, color) ∷ more) =
    let rest = look_up name more in if str_eq name key then some color else rest

-- `RISK_COLORS[name]`
unfoldable pub risk_color : String → Option String
risk_color name = look_up name colors

unfoldable pub step_labels : List String
step_labels =
    "Fetching wallet history from Horizon" ∷ "Extracting behavioral features"
    ∷ "Running the risk model" ∷ "Generating the attestation proof" ∷ "Submitting the attestation"
    ∷ []

pub data Mark : Type 0 where
  passed current ahead : Mark

-- The dot of a step in `LoadingSteps`.
unfoldable pub step_mark : ℕ → ℕ → Mark
step_mark step i = if ltb i step then passed else if i == step then current else ahead

-- `(bucket + 0.5) * (100 / BUCKETS.length)` in percent
unfoldable pub marker_left : ℕ → ℕ
marker_left bucket = bucket * 20 + 10

abbrev marks_from : ℕ → ℕ → List String → List Mark
marks_from step i [] = []
marks_from step i (label ∷ labels) = step_mark step i ∷ marks_from step (suc i) labels

pub data Below : Type 0 where
  nothing : Below
  loading_steps : List Mark → Below
  -- with a button that runs it again
  error_panel : String → Below
  results : AttestationResponse → Below

abbrev of_result : Option AttestationResponse → Below
of_result none = nothing
of_result (some a) = results a

-- What stands under the form.
unfoldable pub below : State → Below
below s = in_phase s.phase
  where
    in_phase : Phase → Below
    in_phase idle = nothing
    in_phase loading = loading_steps (marks_from s.step 0 step_labels)
    in_phase failed = error_panel s.error_message
    in_phase done = of_result s.attestation

abbrev is_loading : Phase → Bool
is_loading loading = true
is_loading _ = false

unfoldable pub form : State → List (Shown Action)
form s =
    button submits (not (is_loading s.phase))
      (if is_loading s.phase then "Working…" else "Request attestation")
    ∷ []
