-- ===== src/OnChainAttest/Page.antt =====
-- What frontend/src/components/OnChainAttest.tsx shows: the wallet, the button, the steps, and an
-- error or the credential.
use zkredit.Prelude.{
  ℕ, String, Bool, true, false, not, Option, none, some, List, [], ◌∷◌, ◌++◌, take, units, str_eq,
  if◌then◌else◌,
}
use zkredit.Contracts.{AttestationData}
use zkredit.View.{Shown, text, cut, button, slice_last}
use zkredit.OnChainAttest.{
  State, Phase, connecting, done, failed, ErrorState, is_busy, request_label, stepper_state,
}
use zkredit.OnChainAttest.Reveal.{Mark, mark}

pub data Action : Type 0 where
  connects attests : Action

abbrev pub is_connecting : Phase → Bool
is_connecting connecting = true
is_connecting _ = false

abbrev pub is_done : Phase → Bool
is_done done = true
is_done _ = false

-- `wallet.slice(0, 4)…wallet.slice(-4)`
unfoldable pub wallet_label : List ℕ → List ℕ
wallet_label wallet = take 4 wallet ++ (0x2026 ∷ slice_last 4 wallet)

unfoldable pub without_wallet : Phase → List (Shown Action)
without_wallet phase =
    text "Connect Freighter to begin"
    ∷ text "A one-time signature proves you control the wallet, no keys are shared"
    ∷ button connects (not (is_connecting phase))
        (if is_connecting phase then "Connecting…" else "Connect Freighter")
    ∷ []

-- The network is named without a look at the configuration.
unfoldable pub with_wallet : String → Phase → List (Shown Action)
with_wallet wallet phase =
    text "Wallet connected"
    ∷ text "Ready to issue an attestation for this address"
    ∷ cut (wallet_label (units wallet))
    ∷ text "Mainnet"
    ∷ text "Freighter detected"
    ∷ text "Unlocked"
    ∷ text "Network: Mainnet"
    ∷ text "The process"
    ∷ text "Four steps, then a credential"
    ∷ button attests (not (is_busy phase)) (request_label phase)
    ∷ []

abbrev pub has_wallet : Option String → Option String
has_wallet none = none
has_wallet (some w) = if str_eq w "" then none else some w

abbrev pub wallet_panel : Option String → Phase → List (Shown Action)
wallet_panel none phase = without_wallet phase
wallet_panel (some w) phase = with_wallet w phase

abbrev pub if_failed : Phase → Option ErrorState → Option ErrorState
if_failed failed error = error
if_failed _ error = none

abbrev pub if_done : Phase → Option AttestationData → Option AttestationData
if_done done a = a
if_done _ a = none

-- The marks of the four steps, which are shown with a wallet.
unfoldable pub step_marks : Phase → List Mark
step_marks phase =
    let at = (stepper_state phase).active_index in
    mark at (is_done phase) 0
    ∷ mark at (is_done phase) 1
    ∷ mark at (is_done phase) 2
    ∷ mark at (is_done phase) 3
    ∷ []

abbrev pub marks_with : Option String → Phase → List Mark
marks_with none phase = []
marks_with (some w) phase = step_marks phase

pub record Page : Type 0 where
  pub panel : List (Shown Action)
  pub marks : List Mark
  pub error : Option ErrorState
  pub credential : Option AttestationData

unfoldable pub page : State → Page
page s = record {
  panel = wallet_panel (has_wallet s.wallet) s.phase;
  marks = marks_with (has_wallet s.wallet) s.phase;
  error = if_failed s.phase s.error;
  credential = if_done s.phase s.attestation;
}
