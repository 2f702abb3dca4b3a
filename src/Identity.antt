-- ===== src/Identity.antt =====
-- frontend/src/pages/Identity.tsx: the wizard's state, its stages, and the texts of a KYC status.
pub mod Flow
pub mod Kyc
pub mod KycSteps
pub mod KycEvents
pub mod KycSound
pub mod KycStale
pub mod Page
pub mod Linked
pub mod Copying
pub mod Offers
pub mod Stages
pub mod Linking
pub mod Ends
use zkredit.Prelude.{
  ℕ, zero, suc, ◌==◌, ◌<>◌, ltb, String, Bool, true, false, not, ◌&&◌, ◌||◌, Option, none, some,
  List, [], ◌∷◌, str_eq, if◌then◌else◌, units, is_infix,
}
use zkredit.Effects.Json.{Json, str, arr, Items, nil, cons, property, truthy?, equals_text}
use zkredit.IdentityProof.{IdentityProof}

-- `linkBusy`
pub data Busy : Type 0 where
  linking leaving : Busy

pub record State : Type 0 where
  pub identity : Option IdentityProof
  pub generating : Bool
  pub gen_error : Option String
  pub address : Option String
  pub connect_error : Option String
  -- `result.members` as the API sent it
  pub linked_wallets : Option Json
  pub linked_error : Option String
  pub link_busy : Option Busy
  pub link_tx_hash : Option String
  pub link_error : Option String
  pub membership_warning : Option String

-- The state of `useKycStatus`; `interval` is the commitment that the running timer asks about.
pub record KycState : Type 0 where
  pub status : Option Json
  pub starting : Bool
  pub polling : Bool
  pub error : Option String
  pub interval : Option String

pub data StageState : Type 0 where
  finished active locked : StageState

abbrev pub commitment_of : Option IdentityProof → Option String
commitment_of none = none
commitment_of (some identity) = some identity.commitment_hex

-- `Boolean(text)`
abbrev pub has_text : Option String → Bool
has_text none = false
has_text (some t) = not (str_eq t "")

-- `members?.includes(address)`, of an array or a text; what else the API may send holds nothing.
abbrev pub has_item : String → Items → Bool
has_item address nil = false
has_item address (cons j more) = equals_text (some j) address || has_item address more

abbrev pub includes : String → Option Json → Bool
includes address (some (arr items)) = has_item address items
includes address (some (str text)) = is_infix (units address) (units text)
includes address _ = false

unfoldable pub is_linked : State → Bool
is_linked s = elim s.address [
  | none ↦ false
  | some address ↦ not (str_eq address "") && includes address s.linked_wallets
]

abbrev pub is_true : Option Json → Bool
is_true (some (Json.bool b)) = b
is_true _ = false

abbrev pub kyc_verified : Option Json → Bool
kyc_verified none = false
kyc_verified (some status) = is_true (property "kyc_verified" status)

abbrev has_identity : Option IdentityProof → Bool
has_identity none = false
has_identity (some identity) = true

unfoldable pub stage_done : State → KycState → List Bool
stage_done s kyc =
    has_text s.address ∷ has_identity s.identity ∷ is_linked s ∷ kyc_verified kyc.status ∷ []

-- `stageDone.findIndex((d) => !d)`; `none` is -1, all stages are done.
abbrev pub later : Option ℕ → Option ℕ
later none = none
later (some n) = some (suc n)

unfoldable pub active_stage : List Bool → Option ℕ
active_stage [] = none
active_stage (d ∷ more) = if d then later (active_stage more) else some 0

abbrev pub state_at : Option ℕ → ℕ → StageState
state_at none i = finished
state_at (some n) i = if ltb i n then finished else if i == n then active else locked

unfoldable pub stage_state : List Bool → ℕ → StageState
stage_state stages i = state_at (active_stage stages) i

-- The file of `downloadBackup`.
unfoldable pub backup_text : IdentityProof → String
backup_text identity =
    "ZKredit identity secret. Keep this safe and private.\n"
    <> "Anyone with this value controls your identity group.\n\n" <> "secret (decimal): "
    <> identity.secret_dec <> "\n" <> "commitment: " <> identity.commitment_hex <> "\n"

pub record Tone : Type 0 where
  pub badge : String
  pub detail : String

abbrev tone : String → String → Tone
tone badge detail = record { badge = badge; detail = detail }

unfoldable pub status_tone : Option Json → Tone
status_tone none = tone "bg-white/8 text-fog" "Start a hosted identity check when you are ready."
status_tone (some status) =
    if truthy? (property "kyc_verified" status)
    then tone "bg-teal-bright/15 text-teal-bright"
        "Verified and bound on-chain. Every linked wallet inherits it."
    else if equals_text (property "status" status) "pending"
    then tone "bg-white/8 text-fog" "Verification is in progress."
    else if equals_text (property "status" status) "in_review"
    then tone "bg-[#E9CE9E]/15 text-[#E9CE9E]" "Your documents are under review."
    else if equals_text (property "status" status) "approved"
    then tone "bg-haze-pink/15 text-haze-pink" "Approved. Waiting on the on-chain bind to finish."
    else if equals_text (property "status" status) "declined"
    then tone "bg-red-500/15 text-red-300"
        "Verification was declined. Start a new session to retry."
    else if equals_text (property "status" status) "abandoned"
    then tone "bg-red-500/15 text-red-300"
        "Verification wasn't completed. Start a new session to continue."
    else tone "bg-white/8 text-fog" "No active verification session."

-- Does `refreshOnce` ask again later?
unfoldable pub should_poll : Json → Bool
should_poll next =
    equals_text (property "status" next) "pending"
    || equals_text (property "status" next) "in_review"
    || equals_text (property "status" next) "approved"
      && not (truthy? (property "kyc_verified" next))
