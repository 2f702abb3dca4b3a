-- ===== src/Identity/Page.antt =====
-- What frontend/src/pages/Identity.tsx shows: the ring, the trail, a row for each stage, and the
-- linked wallets.
use zkredit.Prelude.{
  lower_case, ℕ, zero, suc, ◌==◌, ◌<>◌, ltb, String, Bool, true, false, not, ◌&&◌, Option, none,
  some, List, [], ◌∷◌, ◌++◌, units, str_eq, if◌then◌else◌,
}
use zkredit.Effects.Json.{Json, property}
use zkredit.IdentityProof.{IdentityProof}
use zkredit.View.{spaced, Shown, text, cut, field, button, if_text, shortened}
use zkredit.Identity.{
  State, KycState, Busy, linking, leaving, StageState, finished, active, locked, stage_state,
  status_tone, commitment_of, has_text,
}

pub data Action : Type 0 where
  connects generates downloads_backup links leaves starts_verification refreshes_status : Action
  refreshes_wallets : Action
  copies : String → Action

unfoldable pub stage_labels : List String
stage_labels = "Connect wallet" ∷ "Create identity" ∷ "Link wallet" ∷ "Verify identity" ∷ []

-- `stageDone.filter(Boolean).length`
unfoldable pub done_count : List Bool → ℕ
done_count [] = 0
done_count (true ∷ more) = suc (done_count more)
done_count (false ∷ more) = done_count more

-- `TRAIL_FILL[activeStage] ?? 0`, and 100 when all is done
unfoldable pub trail_fill : Option ℕ → ℕ
trail_fill none = 100
trail_fill (some zero) = 12
trail_fill (some (suc zero)) = 42
trail_fill (some (suc (suc zero))) = 72
trail_fill (some (suc (suc (suc zero)))) = 92
trail_fill (some n) = 0

-- The marks of a stage in the trail: done, and active.
unfoldable pub trail_mark : Option ℕ → ℕ → Bool × Bool
trail_mark none i = (true, false)
trail_mark (some n) i = (ltb i n, i == n)

-- The line under the ring, and the one below it.
unfoldable pub ring_texts : Option ℕ → String × String
ring_texts none = (
  "Your identity is fully verified",
  "Every linked wallet now carries verified status and the lending discount.",
)
ring_texts (some zero) = ("Next: connect wallet", "Connect a wallet to get started.")
ring_texts (some (suc zero)) = ("Next: create identity", "Create your identity to continue.")
ring_texts (some (suc (suc zero))) =
    ("Next: link wallet", "Link your wallet to unlock verification.")
ring_texts (some n) = ("Next: verify identity", "Verify with Didit to unlock the lending discount.")

-- `Boolean(text)` of what may be missing, for `{text && …}`
abbrev pub when_text : Option String → (String → List (Shown Action)) → List (Shown Action)
when_text o f = if has_text o then if_text o f else []

abbrev pub inline_error : Option String → List (Shown Action)
inline_error e = when_text e λ message. text message ∷ []

abbrev pub row_of : String → String → List (Shown Action)
row_of label value =
    field label value ∷ button (copies value) true ("Copy " <> lower_case label) ∷ []

abbrev pub is_idle : Option Busy → Bool
is_idle none = true
is_idle (some b) = false

-- Stage 0
unfoldable pub connect_row : StageState → State → List (Shown Action)
connect_row finished s = text "Wallet connected" ∷ (if_text s.address λ a. text a ∷ [])
connect_row active s =
    text "Step 1 of 4"
    ∷ text "Connect your wallet"
    ∷ text "Freighter signs your proof without sharing your keys."
    ∷ button connects true "Connect Freighter"
    ∷ inline_error s.connect_error
connect_row locked s = text "Connect wallet" ∷ []

abbrev pub created : IdentityProof → List (Shown Action)
created identity =
    text "Identity created"
    ∷ cut (shortened 10 8 (units identity.commitment_hex))
    ∷ field "Identity commitment" identity.commitment_hex
    ∷ button (copies identity.commitment_hex) true "Copy identity commitment"
    ∷ text
        "Anyone with this secret controls your identity group. Back it up now; ZKredit cannot recover it."
    ∷ text identity.secret_dec
    ∷ button (copies identity.secret_dec) true "Copy secret"
    ∷ button downloads_backup true "Download backup"
    ∷ []

abbrev pub if_created : Option IdentityProof → List (Shown Action)
if_created none = []
if_created (some identity) = created identity

-- Stage 1; a finished one shows nothing without an identity.
unfoldable pub create_row : StageState → State → List (Shown Action)
create_row finished s = if_created s.identity
create_row active s =
    text "Step 2 of 4"
    ∷ text "Create your identity"
    ∷ text "Creates a private secret and a proof of it, right in your browser."
    ∷ button generates (not s.generating)
        (if s.generating then "Generating proof…" else "Create identity")
    ∷ inline_error s.gen_error
create_row locked s = text "Create identity" ∷ text "Connect your wallet to continue" ∷ []

abbrev pub warning : Option String → List (Shown Action)
warning w = when_text w λ message.
    text ("Wallet linked on-chain, but backend membership recording failed: " <> message) ∷ []

abbrev busy_label : Option Busy → String × String
busy_label (some linking) = ("Linking…", "Leave group")
busy_label (some leaving) = ("Link wallet", "Leaving…")
busy_label none = ("Link wallet", "Leave group")

-- Stage 2
unfoldable pub link_row : StageState → State → List (Shown Action)
link_row finished s =
    text "Wallet linked"
      ∷ text "Registered on-chain to your identity"
      ∷ (when_text s.link_tx_hash λ hash. row_of "Transaction" hash)
    ++ (warning s.membership_warning
        ++ (button leaves (is_idle s.link_busy) (busy_label s.link_busy).1
            ∷ inline_error s.link_error))
link_row active s =
    text "Step 3 of 4"
    ∷ text "Link your wallet"
    ∷ text "Registers this wallet to your identity, on-chain."
    ∷ button links (is_idle s.link_busy) (busy_label s.link_busy).0
    ∷ (warning s.membership_warning ++ inline_error s.link_error)
link_row locked s = text "Link wallet" ∷ text "Create your identity to continue" ∷ []

abbrev pub if_string : Option Json → (String → List (Shown Action)) → List (Shown Action)
if_string (some (Json.str t)) f = f t
if_string _ f = []

-- `status.status` is a text; on anything else `replace` would be a TypeError.
abbrev pub badge : Option Json → List (Shown Action)
badge none = []
badge (some status) = if_string (property "status" status) λ t. text (spaced t) ∷ []

-- `KycActiveCard`
unfoldable pub kyc_card : State → KycState → List (Shown Action)
kyc_card s kyc =
    text "Step 4 of 4" ∷ text "Verify your identity" ∷ badge kyc.status
    ++ ((if kyc.polling then text "polling" ∷ [] else [])
        ++ (text (status_tone kyc.status).detail
            ∷ button starts_verification (has_text (commitment_of s.identity) && not kyc.starting)
                (if kyc.starting then "Starting…" else "Start verification with Didit")
            ∷ button refreshes_status true "Refresh status"
            ∷ text "One human, one identity"
            ∷ text "One real-world identity can only verify once, even across commitments."
            ∷ inline_error kyc.error))

abbrev pub bind_row : Option Json → List (Shown Action)
bind_row none = []
bind_row (some status) =
    if_string (property "bind_tx_hash" status)
      λ hash. if str_eq hash "" then [] else row_of "Bind transaction" hash

-- Stage 3
unfoldable pub verify_row : StageState → State → KycState → List (Shown Action)
verify_row finished s kyc =
    text "Identity verified" ∷ text "KYC verified · lending discount active" ∷ bind_row kyc.status
verify_row active s kyc = kyc_card s kyc
verify_row locked s kyc = text "Verify identity" ∷ text "Link your wallet to continue" ∷ []

unfoldable pub rows : List Bool → State → KycState → List (Shown Action)
rows stages s kyc =
    connect_row (stage_state stages 0) s
    ++ (create_row (stage_state stages 1) s
        ++ (link_row (stage_state stages 2) s ++ verify_row (stage_state stages 3) s kyc))
