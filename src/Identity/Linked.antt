-- ===== src/Identity/Linked.antt =====
-- The list of linked wallets in frontend/src/pages/Identity.tsx: `members` is an array, as the type of
-- the answer says.
use zkredit.Prelude.{
  ℕ, suc, ◌<>◌, ◌≡◌, refl, String, Bool, true, false, Option, none, some, List, [], ◌∷◌, show,
  str_eq, any,
}
use zkredit.Effects.Json.{Json, Items, nil, cons, arr, equals_text}
use zkredit.View.{Shown, button}
use zkredit.Identity.{State, is_linked, has_item}
use zkredit.Identity.Page.{Action, refreshes_wallets, inline_error}

-- `members.length`
unfoldable pub count_items : Items → ℕ
count_items nil = 0
count_items (cons j more) = suc (count_items more)

-- A wallet, and whether it is marked as this one.
pub record Row : Type 0 where
  pub member : Json
  pub is_this : Bool

-- `member === address`
abbrev pub is_same : Json → Option String → Bool
is_same member none = false
is_same member (some address) = equals_text (some member) address

unfoldable pub member_rows : Option String → Items → List Row
member_rows address nil = []
member_rows address (cons j more) =
    record { member = j; is_this = is_same j address } ∷ member_rows address more

pub record LinkedWallets : Type 0 where
  pub heading : String
  pub refresh : Shown Action
  pub error : List (Shown Action)
  pub rows : List Row
  -- in place of rows
  pub empty_line : Option String

abbrev heading_of : Option Items → String
heading_of none = "Linked wallets"
heading_of (some members) = "Linked wallets · " <> show (count_items members)

abbrev rows_of : Option String → Option Items → List Row
rows_of address none = []
rows_of address (some members) = member_rows address members

abbrev line_of : Option Items → Option String
line_of (some (cons j more)) = none
line_of _ = some "No wallets linked yet."

unfoldable pub linked_wallets : Option Items → Option String → Option String → LinkedWallets
linked_wallets members error address = record {
  heading = heading_of members;
  refresh = button refreshes_wallets true "Refresh";
  error = inline_error error;
  rows = rows_of address members;
  empty_line = line_of members;
}

any_is_this :
    (address : String) (members : Items)
    → any (λ r. r.is_this) (member_rows (some address) members) ≡ has_item address members
unfolding member_rows
any_is_this address nil = refl
any_is_this address (cons j more) = rw (any_is_this address more) refl

-- The mark of the connected wallet is in the list exactly when the wizard counts it as linked.
rows-is_linked :
    (s : State) (address : String) (members : Items) (error : Option String)
    → s.address ≡ some address
    → str_eq address "" ≡ false
    → s.linked_wallets ≡ some (arr members)
    → any (λ r. r.is_this) (linked_wallets (some members) error s.address).rows ≡ is_linked s
unfolding linked_wallets is_linked
rows-is_linked s address members error shown named listed =
    rw (shown, named, listed) (any_is_this address members)
