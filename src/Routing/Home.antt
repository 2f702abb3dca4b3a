-- ===== src/Routing/Home.antt =====
-- frontend/src/pages/Home.tsx, the search for a wallet, and components/ErrorBoundary.tsx.

use Prim.Native.String.append.{cons}
use zkredit.Prelude.{
  ◌<>◌, ◌≡◌, refl, ap, ◌∙◌, String, Bool, true, Option, none, some, str_eq, trim, if◌then◌else◌,
  inl, inr, Bool-cases,
}
use zkredit.Routing.{landing, get_site_route}

-- The text of the field.
pub record State : Type 0 where
  pub address : String

unfoldable pub on_change : String → State → State
on_change value s = record s { address = value }

unfoldable pub wallet_path : String → String
wallet_path address = "/wallet/" <> address

-- `handleSubmit`: where it navigates to, if anywhere.
unfoldable pub handle_submit : State → Option String
handle_submit s = if str_eq (trim s.address) "" then none else some (wallet_path (trim s.address))

-- `hasError`
pub record Boundary : Type 0 where
  pub has_error : Bool

-- `getDerivedStateFromError`
unfoldable pub caught : Boundary → Boundary
caught b = record b { has_error = true }

unfoldable pub render : {A : Type 0} → A → A → Boundary → A
render fallback children b = if b.has_error then fallback else children

wallet_path_shape :
    (address : String) → wallet_path address ≡ String.◌∷◌ "/" (String.◌∷◌ "w" ("allet/" <> address))
unfolding wallet_path
wallet_path_shape address =
    (λ i. cons "/" "wallet/" address i) ∙ ap (String.◌∷◌ "/") (λ i. cons "w" "allet/" address i)

get_site_route-wallet_path : (address : String) → get_site_route (wallet_path address) ≡ landing
unfolding get_site_route
get_site_route-wallet_path address = rw (wallet_path_shape address) refl

-- Wherever the search leads, the application shows the landing page.
get_site_route-handle_submit :
    (s : State) (path : String) → handle_submit s ≡ some path → get_site_route path ≡ landing
unfolding handle_submit
get_site_route-handle_submit s path h = elim (Bool-cases (str_eq (trim s.address) "")) [
  | inl empty ↦ cc (rw empty at h)
  | inr given ↦ rw (← (same (rw given at h))) (get_site_route-wallet_path (trim s.address))
]
  where
    same : some (wallet_path (trim s.address)) ≡ some path → wallet_path (trim s.address) ≡ path
    same e = cc
