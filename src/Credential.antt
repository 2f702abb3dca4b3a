-- ===== src/Credential.antt =====
-- frontend/src/components/attestation/AttestCredential.tsx and ModelReceipts.tsx: the card of a
-- finished attestation and the receipts below it. Values are lists of UTF-16 code units.
pub mod Bars
pub mod Receipts
use zkredit.Prelude.{
  ℕ, ◌+◌, ◌-◌, ◌*◌, ◌/◌, ◌==◌, ◌<>◌, String, Bool, true, false, not, ◌||◌, Option, none, some, List,
  [], ◌∷◌, get_elem?, take, show, str_eq, units, starts_with, if◌then◌else◌,
}
use zkredit.View.{shortened, spaced}

-- `RISK_BUCKET_LABELS` and `RISK_BUCKET_COLORS` of lib/contracts/types.ts
unfoldable pub risk_bucket_labels : List String
risk_bucket_labels = "VERY_LOW" ∷ "LOW" ∷ "MEDIUM" ∷ "HIGH" ∷ "VERY_HIGH" ∷ []

unfoldable pub risk_bucket_colors : List String
risk_bucket_colors = "#22c55e" ∷ "#84cc16" ∷ "#eab308" ∷ "#f97316" ∷ "#ef4444" ∷ []

-- `a ?? b`
abbrev pub or : {A : Type 0} → Option A → A → A
or none b = b
or (some a) b = a

unfoldable pub short : List ℕ → ℕ → ℕ → List ℕ
short [] head tail = units "-"
short addr head tail = shortened head tail addr

-- `daysUntil`, for times below 2^53 ms, which are exact; `now` is `Date.now()`. Behind
-- the expiry the difference is 0, as `Math.max(0, …)` makes it.
unfoldable pub days_until : ℕ → ℕ → ℕ
days_until expires_at now = (expires_at * 1000 - now + 43200000) / 86400000

-- `isoDate`, where `to_iso` is `new Date(ms).toISOString()`, and `none` its RangeError.
unfoldable pub iso_date : (ℕ → Option (List ℕ)) → ℕ → Option (List ℕ)
iso_date to_iso unix_seconds =
    if unix_seconds == 0 then some (units "-") else first_ten (to_iso (unix_seconds * 1000))
  where
    first_ten : Option (List ℕ) → Option (List ℕ)
    first_ten none = none
    first_ten (some date) = some (take 10 date)

unfoldable pub stellar_expert_network : String → String
stellar_expert_network passphrase =
    if starts_with passphrase "Public Global Stellar Network" then "public" else "testnet"

-- The properties of the card.
pub record Card : Type 0 where
  pub credit_score : Option ℕ
  pub risk_bucket : ℕ
  pub risk_bucket_name : Option String
  pub zk_verified : Bool
  pub proof_hash : List ℕ
  pub attestor : List ℕ
  pub full_model_hash : List ℕ
  pub distilled_model_hash : List ℕ
  pub issued_at : ℕ
  pub expires_at : ℕ
  pub tx_hash : Option String

unfoldable pub bucket_color : Card → String
bucket_color card = or (get_elem? risk_bucket_colors card.risk_bucket) "#7FEBD9"

unfoldable pub bucket_name : Card → String
bucket_name card =
    spaced (or card.risk_bucket_name (or (get_elem? risk_bucket_labels card.risk_bucket) "UNKNOWN"))

-- The link to the transaction, or a dash.
unfoldable pub explorer : String → Card → String
explorer passphrase card = link_to card.tx_hash
  where
    link_to : Option String → String
    link_to none = "-"
    link_to (some hash) =
        if str_eq hash ""
        then "-"
        else "https://stellar.expert/explorer/"
          <> stellar_expert_network passphrase
          <> "/tx/"
          <> hash

-- The figure on the front: the score, or the name of the bucket.
unfoldable pub headline : Card → String × String
headline card = of_score card.credit_score
  where
    of_score : Option ℕ → String × String
    of_score none = ("Risk standing", bucket_name card)
    of_score (some score) = ("Credit score · off-chain, display only", show score)

unfoldable pub seal : Bool → String × String
seal zk_verified = if zk_verified then ("✓", "ZK-verified") else ("⌘", "hash-anchored")

unfoldable pub front_fields : String → ℕ → Card → List (String × List ℕ)
front_fields passphrase now card =
    ("Proof hash", short card.proof_hash 6 4)
    ∷ ("Attestor", short card.attestor 4 4)
    ∷ ("Expires", units ("in " <> show (days_until card.expires_at now) <> " days"))
    ∷ ("On-chain", units (explorer passphrase card))
    ∷ []

abbrev or_dash : List ℕ → List ℕ
or_dash [] = units "-"
or_dash value = value

unfoldable pub back_fields : Card → List (String × List ℕ)
back_fields card =
    ("Distilled model · ZK target", or_dash card.distilled_model_hash)
    ∷ ("Full model hash", short card.full_model_hash 8 6)
    ∷ []

-- Enter and the space bar turn the card, and nothing else is done with them.
unfoldable pub on_key : String → Bool → Bool
on_key key flipped = if str_eq key "Enter" || str_eq key " " then not flipped else flipped
