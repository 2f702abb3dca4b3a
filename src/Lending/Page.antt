-- ===== src/Lending/Page.antt =====
-- What frontend/src/pages/Lending.tsx shows: the lookup, the two cards of terms, and the loan.
use zkredit.Prelude.{
  ℕ, ◌<>◌, String, Bool, true, false, not, ◌||◌, Option, none, some, List, [], ◌∷◌, ◌++◌, trim,
  str_eq, get_elem?, if◌then◌else◌,
}
use zkredit.Prelude.Int.{ℤ}
use zkredit.Contracts.{AttestationData, LoanOffer, Number, whole, default_terms}
use zkredit.View.{Shown, text, field, button, when, if_text}
use zkredit.Credential.{risk_bucket_labels}
use zkredit.Lending.{State, can_borrow}

pub data Action : Type 0 where
  looks_up connects executes : Action

-- How numbers are printed: `(n / 100).toFixed(digits)`, and `Number(n).toLocaleString()`.
pub record Formats : Type 0 where
  pub hundredths : ℕ → Number → String
  pub locale : ℤ → String

abbrev label_of : Number → Option String
label_of (whole bucket) = get_elem? risk_bucket_labels bucket
label_of _ = none

-- `attestation` is `undefined`, null or an attestation.
abbrev bucket_label : Option (Option AttestationData) → Option String
bucket_label (some (some a)) = label_of a.risk_bucket
bucket_label _ = none

abbrev marks_of : Option (Option AttestationData) → List (Shown Action)
marks_of (some (some a)) =
    when (not a.zk_verified) (text "(+2% unverified)" ∷ [])
    ++ when a.kyc_verified (text "KYC verified" ∷ [])
marks_of _ = []

abbrev pub or_default : Option LoanOffer → LoanOffer
or_default none = default_terms
or_default (some terms) = terms

abbrev is_prompt : Option LoanOffer → Option (Option AttestationData) → Bool
is_prompt none (some a) = true
is_prompt _ _ = false

abbrev has_address : Option String → Bool
has_address none = false
has_address (some a) = not (str_eq a "")

abbrev message_line : Option String → (String → String) → List (Shown Action)
message_line m f = when (has_address m) (if_text m λ t. text (f t) ∷ [])

module _ (formats : Formats) where
  abbrev term_rows : LoanOffer → List (Shown Action)
  term_rows terms =
      field "Collateral ratio" (formats.hundredths 0 terms.collateral_ratio_basis_points <> "%")
      ∷ field "APR" (formats.hundredths 1 terms.apr_basis_points <> "%")
      ∷ field "Max principal" (formats.locale terms.max_principal <> " XLM")
      ∷ []

  -- Terms that are missing after a lookup are asked for; before it, the default ones are shown.
  unfoldable pub terms_card :
      String → Option LoanOffer → Option (Option AttestationData) → List (Shown Action)
  terms_card title terms attestation =
      if is_prompt terms attestation
      then text title ∷ text "Enter an address or connect your wallet to fetch terms." ∷ []
      else text title
          ∷ (if_text (bucket_label attestation)
              λ label. field "Risk bucket" label ∷ marks_of attestation)
        ++ term_rows (or_default terms)

  unfoldable pub borrow_card : State → List (Shown Action)
  borrow_card s =
      text "Borrow"
        ∷ button executes (not s.executing) (if s.executing then "Executing…" else "Execute loan")
        ∷ (message_line s.tx_hash λ hash. "Loan executed — tx " <> hash)
      ++ message_line s.exec_error λ e. e

  unfoldable pub page : State → List (Shown Action)
  page s =
      button looks_up (not (s.loading || str_eq (trim s.address) ""))
          (if s.loading then "Loading…" else "Fetch terms")
        ∷ button connects true
            (if has_address s.connected_address then "Reconnect" else "Connect wallet")
        ∷ (message_line s.error λ e. e)
      ++ (terms_card "Before attestation" (some default_terms) none
          ++ (terms_card "After attestation" s.terms s.attestation
              ++ when (can_borrow s) (borrow_card s)))
