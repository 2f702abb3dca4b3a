-- ===== src/Docs/Order.antt =====
-- The order of the pages in docs-site/src/lib/nav.ts, and the lookups by slug.
use zkredit.Prelude.{
  ℕ, zero, suc, ◌≡◌, ◌↔◌, refl, Bool, true, false, not, ◌&&◌, some, List, [], ◌∷◌, str_eq, eq_refl,
  get_elem?, any, arith,
}
use zkredit.Docs.{
  DocPage, sections, all_pages, find_page, get_page, find_index, adjacent_in, get_adjacent_pages,
}

abbrev IsFirst : DocPage → List DocPage → ℕ → Type 0
IsFirst p pages n = find_index p.slug pages ≡ some n

-- No slug occurs twice.
abbrev has_distinct_slugs : List DocPage → Bool
has_distinct_slugs [] = true
has_distinct_slugs (p ∷ more) =
    not (any (λ q. str_eq p.slug q.slug) more) && has_distinct_slugs more

pub any-false :
    (f : DocPage → Bool) (pages : List DocPage) (n : ℕ) (q : DocPage)
    → any f pages ≡ false
    → get_elem? pages n ≡ some q
    → f q ≡ false
any-false f [] n q h e = cc
any-false f (p ∷ more) zero q h e = ground arith
any-false f (p ∷ more) (suc n) q h e = any-false f more n q (ground arith) e

find_index-get_elem? :
    (pages : List DocPage) (n : ℕ) (q : DocPage)
    → has_distinct_slugs pages ≡ true
    → get_elem? pages n ≡ some q
    → IsFirst q pages n
unfolding find_index
find_index-get_elem? [] n q h e = cc
find_index-get_elem? (p ∷ more) zero q h e = ground (arith, eq_refl p.slug)
find_index-get_elem? (p ∷ more) (suc n) q h e =
    let other = any-false (λ q. str_eq p.slug q.slug) more n q (ground arith) e in
    rw (other, find_index-get_elem? more n q (ground arith) e)

find_page-get_elem? :
    (pages : List DocPage) (n : ℕ) (q : DocPage)
    → has_distinct_slugs pages ≡ true
    → get_elem? pages n ≡ some q
    → find_page q.slug pages ≡ some q
unfolding find_page
find_page-get_elem? [] n q h e = cc
find_page-get_elem? (p ∷ more) zero q h e = ground (arith, eq_refl p.slug)
find_page-get_elem? (p ∷ more) (suc n) q h e =
    let other = any-false (λ q. str_eq p.slug q.slug) more n q (ground arith) e in
    rw (other, find_page-get_elem? more n q (ground arith) e)

module _ (pages : List DocPage) (distinct : has_distinct_slugs pages ≡ true) where
  next-prev :
      (i : ℕ) (p q : DocPage)
      → get_elem? pages i ≡ some p
      → (adjacent_in pages p.slug).next ≡ some q
      → (adjacent_in pages q.slug).prev ≡ some p
  unfolding adjacent_in
  next-prev i p q at_i h =
      let found = find_index-get_elem? pages i p distinct at_i in
      let at_next : get_elem? pages (suc i) ≡ some q = rw found at h in
      rw (find_index-get_elem? pages (suc i) q distinct at_next) at_i

  prev-next :
      (j : ℕ) (p q : DocPage)
      → get_elem? pages j ≡ some q
      → (adjacent_in pages q.slug).prev ≡ some p
      → (adjacent_in pages p.slug).next ≡ some q
  unfolding adjacent_in
  prev-next zero p q at_j h = cc (rw (find_index-get_elem? pages zero q distinct at_j) at h)
  prev-next (suc i) p q at_j h =
      let at_i : get_elem? pages i ≡ some p =
        rw (find_index-get_elem? pages (suc i) q distinct at_j) at h in
      rw (find_index-get_elem? pages i p distinct at_i) at_j

all_pages-distinct : has_distinct_slugs all_pages ≡ true
unfolding all_pages sections
all_pages-distinct = refl

-- Every page is found under its own slug.
pub get_page-slug :
    (n : ℕ) (p : DocPage) → get_elem? all_pages n ≡ some p → get_page p.slug ≡ some p
unfolding get_page
get_page-slug n p h = find_page-get_elem? all_pages n p all_pages-distinct h

-- Of two pages of the documentation, the second is the next one of the first exactly when the
-- first is the previous one of the second.
pub get_adjacent_pages-inverse :
    (i j : ℕ) (p q : DocPage)
    → get_elem? all_pages i ≡ some p
    → get_elem? all_pages j ≡ some q
    → ((get_adjacent_pages p.slug).next ≡ some q) ↔ ((get_adjacent_pages q.slug).prev ≡ some p)
unfolding get_adjacent_pages
get_adjacent_pages-inverse i j p q at_i at_j = (
  next-prev all_pages all_pages-distinct i p q at_i,
  prev-next all_pages all_pages-distinct j p q at_j,
)
