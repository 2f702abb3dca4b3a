-- ===== src/WalletPage.antt =====
-- frontend/src/pages/Wallet.tsx and components/Badges.tsx: the attestation of the wallet in the
-- address bar. Several lookups may be in flight, since the effect does not cancel an earlier one.
pub mod Lookups
use zkredit.Prelude.{
  ℕ, ◌+◌, ◌*◌, ◌≡◌, ◌<>◌, ltb, String, Bool, true, false, not, ◌&&◌, Option, none, some, List, [],
  ◌∷◌, ◌++◌, get_elem?, take, units, str_eq, if◌then◌else◌,
}
use zkredit.Effects.Errors.{Exception}
use zkredit.Contracts.{AttestationData}
use zkredit.Credential.{or, risk_bucket_labels, risk_bucket_colors}

pub record State : Type 0 where
  pub attestation : Option AttestationData
  pub loading : Bool
  pub error : Option String
  -- the addresses whose lookups are in flight
  pub requests : List String

pub data Reply : Type 0 where
  found : Option AttestationData → Reply
  failed : Exception → Reply

unfoldable pub initial : State
initial = record { attestation = none; loading = true; error = none; requests = [] }

abbrev pub look_up : String → State → State
look_up address s = record s { loading = true; error = none; requests = address ∷ s.requests }

-- The effect on a new address.
unfoldable pub on_address : Option String → State → State
on_address none s = s
on_address (some address) s = if str_eq address "" then s else look_up address s

-- A reply to a request that is no longer among those in flight. `string_of` is `String(e)`.
unfoldable pub on_reply : (Exception → String) → Reply → State → State
on_reply string_of (found a) s = record s { attestation = a; loading = false }
on_reply string_of (failed e) s = record s { error = some (string_of e); loading = false }

pub data Step (string_of : Exception → String) : State → State → Type 0 where
  changes : (s : State) (address : Option String) → Step string_of s (on_address address s)
  replies :
      (s : State) (front back : List String) (address : String) (reply : Reply)
      → s.requests ≡ front ++ (address ∷ back)
      → Step string_of s (on_reply string_of reply (record s { requests = front ++ back }))

-- Which of the page's parts are shown.
pub record Parts : Type 0 where
  pub loading_line : Bool
  pub error_line : Option String
  pub none_line : Bool
  pub card : Option AttestationData

abbrev pub is_none : {A : Type 0} → Option A → Bool
is_none none = true
is_none (some a) = false

abbrev pub has_message : Option String → Bool
has_message none = false
has_message (some e) = not (str_eq e "")

unfoldable pub parts : State → Parts
parts s = record {
  loading_line = s.loading;
  error_line = if has_message s.error then s.error else none;
  none_line = not s.loading && not (has_message s.error) && is_none s.attestation;
  card = s.attestation;
}

-- `RiskBadge` and `RiskBucketCard`: the label and the colour of a bucket.
unfoldable pub risk_badge : ℕ → String × String
risk_badge bucket = (
  or (get_elem? risk_bucket_labels bucket) "UNKNOWN",
  or (get_elem? risk_bucket_colors bucket) "#6b7280",
)

unfoldable pub zk_badge : Bool → String
zk_badge verified = if verified then "ZK-verified" else "hash-anchored"

unfoldable pub proof_type : Bool → String
proof_type zk_verified =
    if zk_verified then "Groth16 on-chain proof" else "Hash-anchored (optimistic)"

-- `isExpired`, where `now` is `Date.now()`
unfoldable pub is_expired : ℕ → ℕ → Bool
is_expired expires_at now = ltb (expires_at * 1000) now

-- `proofOrHash.slice(0, 16)` and `identityCommitment.slice(0, 12)`, with their ellipses
unfoldable pub cut_at : ℕ → List ℕ → List ℕ
cut_at n value = take n value ++ (0x2026 ∷ [])
