-- ===== src/Docs/Visits.antt =====
-- Following the links of the documentation.
use zkredit.Prelude.{
  ℕ, zero, suc, ◌<>◌, ◌≡◌, refl, sym, ap, any, ◌∙◌, String, false, Option, none, some, List, [],
  ◌∷◌, str_eq, get_elem?, All,
}
use zkredit.Docs.{
  DocPage, sections, all_pages, get_page, get_adjacent_pages, default_slug, find_index, adjacent_in,
  around, before,
}
use zkredit.Docs.Order.{get_page-slug, any-false}
use zkredit.Docs.Pages.{
  Link, link_to, page_nav, View, redirect, article, slug_of, at_page, doc_page, sidebar, pages_of,
}

-- A page is shown at the path, with its title for the link.
abbrev pub Leads : Link → Type 0
Leads l =
    (slug : String) × (page : DocPage) × (title : String) × (links : List Link) × (l.to
      ≡ "/" <> slug)
    × (doc_page (some slug) ≡ article title page links)
    × (l.label ≡ page.title)

-- What a visit ends at: a page, at once or behind one redirect, of which every link leads to a page.
abbrev pub Settles : View → Type 0
Settles (article title page links) = All Leads links
Settles (redirect to) =
    (slug title : String) × (page : DocPage) × (links : List Link) × (to ≡ "/" <> slug)
    × (doc_page (some slug) ≡ article title page links)
    × All Leads links

no_empty_slug : any (λ p. str_eq p.slug "") all_pages ≡ false
unfolding all_pages sections
no_empty_slug = refl

doc_page-slug :
    (n : ℕ) (p : DocPage)
    → get_elem? all_pages n ≡ some p
    → doc_page (some p.slug) ≡ at_page (some p)
unfolding doc_page slug_of
doc_page-slug n p e =
    rw (any-false (λ q. str_eq q.slug "") all_pages n p no_empty_slug e)
      (ap at_page (get_page-slug n p e))

link_to-Leads : (n : ℕ) (p : DocPage) → get_elem? all_pages n ≡ some p → Leads (link_to p)
unfolding at_page
link_to-Leads n p e = (p.slug, p, _, _, refl, doc_page-slug n p e, refl)

-- What stands next to an index is a page.
before-Leads : (n : ℕ) (p : DocPage) → before all_pages n ≡ some p → Leads (link_to p)
before-Leads zero p e = absurd cc
before-Leads (suc n) p e = link_to-Leads n p e

page_nav-Leads :
    (prev next : Option DocPage)
    → ((p : DocPage) → prev ≡ some p → Leads (link_to p))
    → ((p : DocPage) → next ≡ some p → Leads (link_to p))
    → All Leads (page_nav prev next)
unfolding page_nav
page_nav-Leads none none l r = tt
page_nav-Leads (some p) none l r = (l p refl, tt)
page_nav-Leads none (some q) l r = (r q refl, tt)
page_nav-Leads (some p) (some q) l r = (l p refl, (r q refl, tt))

around-Leads :
    (o : Option ℕ) → All Leads (page_nav (around all_pages o).prev (around all_pages o).next)
around-Leads none = page_nav-Leads none none (λ p e. absurd cc) (λ p e. absurd cc)
around-Leads (some n) =
    page_nav-Leads (before all_pages n) (get_elem? all_pages (suc n)) (before-Leads n)
      (link_to-Leads (suc n))

article-Leads :
    (slug : String)
    → All Leads (page_nav (get_adjacent_pages slug).prev (get_adjacent_pages slug).next)
unfolding get_adjacent_pages adjacent_in
article-Leads slug = around-Leads (find_index slug all_pages)

default_page : (p : DocPage) × (get_elem? all_pages 0 ≡ some p) × (p.slug ≡ default_slug)
unfolding all_pages sections
default_page = (_, refl, refl)

at_page-Settles : (o : Option DocPage) → Settles (at_page o)
unfolding at_page
at_page-Settles none =
    let (p, e, is) = default_page in
    (
      default_slug,
      _,
      p,
      _,
      refl,
      ap (λ s. doc_page (some s)) (sym is) ∙ doc_page-slug 0 p e,
      article-Leads p.slug,
    )
at_page-Settles (some page) = article-Leads page.slug

all_Leads :
    (pages : List DocPage)
    → ((n : ℕ) (p : DocPage) → get_elem? pages n ≡ some p → Leads (link_to p))
    → All Leads (pages_of pages)
all_Leads [] h = tt
all_Leads (p ∷ pages) h = (h 0 p refl, all_Leads pages (λ n. h (suc n)))

sidebar_is : sidebar ≡ pages_of all_pages
unfolding sidebar all_pages sections
sidebar_is = refl

sidebar-Leads : All Leads sidebar
sidebar-Leads = rw sidebar_is (all_Leads all_pages link_to-Leads)

-- At every path the documentation shows a page, or redirects once to one; all its links to
-- neighbours, and all links of the sidebar, lead to a page that is shown with the title of the
-- link.
pub doc_page-Settles : (splat : Option String) → Settles (doc_page splat) × All Leads sidebar
unfolding doc_page
doc_page-Settles splat = (at_page-Settles (get_page (slug_of splat)), sidebar-Leads)
