-- ===== src/Docs/Pages.antt =====
-- docs-site/src/pages/DocPage.tsx with its components: the page at a path, the links to its
-- neighbours, and the sidebar. A path is what stands behind the `/` of the splat route.
use zkredit.Prelude.{◌<>◌, String, Option, none, some, List, [], ◌∷◌, ◌++◌, str_eq, if◌then◌else◌}
use zkredit.Docs.{DocPage, DocSection, sections, get_page, get_adjacent_pages, default_slug}

pub record Link : Type 0 where
  pub to : String
  pub label : String

abbrev pub link_to : DocPage → Link
link_to p = record { to = "/" <> p.slug; label = p.title }

-- Both neighbours of PageNav, none of them where there is no such page.
unfoldable pub page_nav : Option DocPage → Option DocPage → List Link
page_nav none none = []
page_nav (some prev) none = link_to prev ∷ []
page_nav none (some next) = link_to next ∷ []
page_nav (some prev) (some next) = link_to prev ∷ link_to next ∷ []

pub data View : Type 0 where
  -- `<Navigate to replace />`
  redirect : String → View
  -- the window's title, the page, and the links under it
  article : String → DocPage → List Link → View

-- `params["*"] || DEFAULT_SLUG`
unfoldable pub slug_of : Option String → String
slug_of none = default_slug
slug_of (some splat) = if str_eq splat "" then default_slug else splat

unfoldable pub at_page : Option DocPage → View
at_page none = redirect ("/" <> default_slug)
at_page (some page) =
    let adjacent = get_adjacent_pages page.slug in
    article (page.title <> " - ZKredit Docs") page (page_nav adjacent.prev adjacent.next)

unfoldable pub doc_page : Option String → View
doc_page splat = at_page (get_page (slug_of splat))

abbrev pub pages_of : List DocPage → List Link
pages_of [] = []
pages_of (p ∷ more) = link_to p ∷ pages_of more

-- The links of all sections.
abbrev pub links_of : List DocSection → List Link
links_of [] = []
links_of (s ∷ more) = pages_of s.pages ++ links_of more

unfoldable pub sidebar : List Link
sidebar = links_of sections
