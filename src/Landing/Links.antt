-- ===== src/Landing/Links.antt =====
-- Where the links of frontend/src lead: App.tsx and components Nav.tsx, Hero.tsx, HowItWorks.tsx and
-- Footer.tsx, by the ids of the sections that the pages have.

use Prim.Native.Char.{code}
use zkredit.Prelude.{
  ◌==◌, ◌<>◌, ◌≡◌, refl, String, Bool, true, Option, none, some, List, [], ◌∷◌, ◌++◌, ◌||◌, ◌&&◌,
  map, any, str_eq, starts_with, if◌then◌else◌,
}
use zkredit.Landing.{pipeline_steps}
use zkredit.Routing.{
  SiteRoute, landing, attestation, identity, get_site_route, landing_path, attestation_path,
  identity_path, landing_links, call_to_action,
}

abbrev docs_url : String
docs_url = "https://zkredit-docs.vercel.app"

abbrev github_url : String
github_url = "https://github.com/ishitab02/ZKredit"

abbrev x_url : String
x_url = "https://x.com/Zkred_it"

unfoldable pub network_links : List (String × String)
network_links = ("GitHub", github_url) ∷ ("Docs", docs_url) ∷ ("X", x_url) ∷ []

unfoldable pub socials : List (String × String)
socials = ("GitHub", github_url) ∷ ("X", x_url) ∷ []

-- `prefix` of the footer
unfoldable pub prefix : SiteRoute → String
prefix landing = ""
prefix _ = landing_path

unfoldable pub product_links : SiteRoute → List (String × String)
product_links route =
    ("How it works", prefix route <> "#how")
    ∷ ("What's proven", prefix route <> "#proven")
    ∷ ("Use cases", prefix route <> "#use-cases")
    ∷ []

-- The brand, and "Back to top".
unfoldable pub home_link : SiteRoute → String
home_link landing = "#top"
home_link _ = landing_path

-- The section that only the landing page has.
unfoldable pub contact_links : SiteRoute → List (String × String)
contact_links landing = ("Get started", attestation_path) ∷ ("Read the docs", docs_url) ∷ []
contact_links _ = []

-- In the order of the page.
unfoldable pub footer_links : SiteRoute → List (String × String)
footer_links route =
    contact_links route
    ++ (("ZKredit — home", home_link route) ∷ socials
        ++ (product_links route ++ (network_links ++ (("Back to top", home_link route) ∷ []))))

unfoldable pub nav_links : SiteRoute → List (String × String)
nav_links route = ("ZKredit — home", landing_path) ∷ landing_links ++ call_to_action route

unfoldable pub hero_links : List (String × String)
hero_links = ("Request attestation", attestation_path) ∷ ("See how it works", "#how") ∷ []

-- Of the credential on the attestation page, see `explorer` of Credential.
unfoldable pub content_links : SiteRoute → List (String × String)
content_links landing = hero_links
content_links _ = []

-- All links that a page has, but for those of the steps.
unfoldable pub site_links : SiteRoute → List (String × String)
site_links route =
    ("Skip to content", "#main") ∷ nav_links route ++ (content_links route ++ footer_links route)

-- The links of the steps of HowItWorks.
unfoldable pub step_links : List (String × String)
step_links = map (λ s. (s.cta, "#cta")) pipeline_steps

-- The ids of a page's elements: `main`, and on the landing page those of Hero, WhatWeDo, HowItWorks,
-- WhatsProven, UseCases and of the footer's section.
unfoldable pub section_ids : SiteRoute → List String
section_ids landing = "main" ∷ "top" ∷ "about" ∷ "how" ∷ "proven" ∷ "use-cases" ∷ "contact" ∷ []
section_ids _ = "main" ∷ []

-- What an address names: another site, a place on the same page, or a path with a fragment.
pub data Place : Type 0 where
  outside : Place
  same_page : Option String → Place
  inside : String → Option String → Place

abbrev cut : String → String × Option String
cut String.[] = ("", none)
cut (String.◌∷◌ c s) =
    let rest = cut s in if code c == b'#' then ("", some s) else (String.◌∷◌ c rest.0, rest.1)

-- An address as the browser resolves it: one without a path of its own stays on the page.
unfoldable pub resolve : String → Place
resolve href =
    if starts_with href "http"
    then outside
    else if str_eq (cut href).0 ""
    then same_page (cut href).1
    else inside (cut href).0 (cut href).1

abbrev pub has_section : SiteRoute → Option String → Bool
has_section route none = true
has_section route (some id) = any (λ known. str_eq known id) (section_ids route)

abbrev pub is_known : String → Bool
is_known path =
    str_eq path landing_path || str_eq path attestation_path || str_eq path identity_path

-- From the page of a route: the path is that of a page, which has the section.
unfoldable pub leads : SiteRoute → Place → Bool
leads route outside = true
leads route (same_page id) = has_section route id
leads route (inside path id) = is_known path && has_section (get_site_route path) id

-- The links of some that lead nowhere.
unfoldable pub dead_links : SiteRoute → List (String × String) → List (String × String)
dead_links route [] = []
dead_links route (l ∷ more) =
    let rest = dead_links route more in if leads route (resolve l.1) then rest else l ∷ rest

-- At every path, every link of the navigation and of the footer that are shown there, and of the
-- first section where that is the landing page, leads to another site, to a section that the page
-- has, or to the path of a page and a section that it has; but of the links of the four steps, all
-- lead to a section that the landing page does not have.
pub dead_links-steps :
    (pathname : String)
    → (dead_links (get_site_route pathname) (site_links (get_site_route pathname)) ≡ [])
      × (dead_links landing step_links ≡ step_links)
unfolding dead_links leads resolve site_links step_links section_ids nav_links content_links
    footer_links hero_links contact_links home_link socials product_links prefix network_links
    landing_links call_to_action get_site_route pipeline_steps
dead_links-steps pathname = (none_dead (get_site_route pathname), refl)
  where
    none_dead : (route : SiteRoute) → dead_links route (site_links route) ≡ []
    none_dead landing = refl
    none_dead attestation = refl
    none_dead identity = refl
