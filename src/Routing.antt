-- ===== src/Routing.antt =====
-- frontend/src/App.tsx, lib/navigation.ts and components/Nav.tsx: which page is shown at a path, what
-- the application keeps between pages, and where its links lead.
pub mod Home
use zkredit.Prelude.{
  ltb, ℕ, ◌≡◌, refl, String, Bool, false, not, Option, none, some, List, [], ◌∷◌, ◌++◌, starts_with,
  if◌then◌else◌,
}

abbrev pub landing_path : String
landing_path = "/"

abbrev pub attestation_path : String
attestation_path = "/attestation"

abbrev pub identity_path : String
identity_path = "/identity"

pub data SiteRoute : Type 0 where
  landing attestation identity : SiteRoute

unfoldable pub get_site_route : String → SiteRoute
get_site_route pathname =
    if starts_with pathname identity_path
    then identity
    else if starts_with pathname attestation_path
    then attestation
    else landing

-- What `App` keeps.
pub record State : Type 0 where
  pub route : SiteRoute
  pub wallet_address : Option String

unfoldable pub opened : String → State
opened pathname = record { route = get_site_route pathname; wallet_address = none }

-- `popstate`, with the path of the window.
unfoldable pub on_pop : String → State → State
on_pop pathname s = record s { route = get_site_route pathname }

-- `onWalletConnected`
unfoldable pub on_wallet_connected : String → State → State
on_wallet_connected address s = record s { wallet_address = some address }

pub data Page : Type 0 where
  landing_page identity_page : Page
  attestation_page : Option String → Page

unfoldable pub main : State → Page
main s = at s.route
  where
    at : SiteRoute → Page
    at attestation = attestation_page s.wallet_address
    at identity = identity_page
    at landing = landing_page

-- What stands in place of a page that is being loaded: `LandingPage` is not loaded by itself.
unfoldable pub fallback : SiteRoute → Option (String × String)
fallback landing = none
fallback identity =
    some ("Loading identity route", "Preparing the identity, wallet-linking, and KYC flow.")
fallback attestation =
    some ("Loading attestation route", "Preparing the wallet attestation flow and contract client.")

pub record NavState : Type 0 where
  pub scrolled : Bool
  -- the menu of small screens
  pub menu_open : Bool

-- The position is in whole pixels.
unfoldable pub on_scroll : ℕ → NavState → NavState
on_scroll scroll_y s = record s { scrolled = ltb 24 scroll_y }

unfoldable pub toggle_menu : NavState → NavState
toggle_menu s = record s { menu_open = not s.menu_open }

unfoldable pub close_menu : NavState → NavState
close_menu s = record s { menu_open = false }

unfoldable pub landing_links : List (String × String)
landing_links =
    ("What we do", "/#about")
    ∷ ("How it works", "/#how")
    ∷ ("What's proven", "/#proven")
    ∷ ("Use cases", "/#use-cases")
    ∷ ("Create Identity", identity_path)
    ∷ []

-- The link that the landing page has besides.
unfoldable pub call_to_action : SiteRoute → List (String × String)
call_to_action landing = ("Request attestation", attestation_path) ∷ []
call_to_action _ = []

-- The network is named on the other pages.
unfoldable pub network_pill : SiteRoute → Option String
network_pill landing = none
network_pill _ = some "Stellar Mainnet"

-- The links of the menu, which is shown while it is open.
unfoldable pub menu_links : SiteRoute → NavState → List (String × String)
menu_links route s = if s.menu_open then landing_links ++ call_to_action route else []

-- The links, by the page that they open: every page can be reached from the landing page.
links_routes :
    (get_site_route attestation_path ≡ attestation)
    × (get_site_route identity_path ≡ identity)
    × (get_site_route landing_path ≡ landing)
unfolding get_site_route
links_routes = (refl, refl, refl)
