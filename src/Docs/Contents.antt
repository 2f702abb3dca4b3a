-- ===== src/Docs/Contents.antt =====
-- docs-site/src/components/TableOfContents.tsx: the headings of a page, and the one that is marked.
use zkredit.Prelude.{
  ℕ, ◌==◌, ◌<>◌, ◌≡◌, ◌⊎◌, inl, inr, refl, String, Bool, true, false, Option, none, some, List, [],
  ◌∷◌, str_eq, if◌then◌else◌, All,
}

-- An element of the page: an `h2` or an `h3`.
pub record Node : Type 0 where
  pub id : String
  pub text_content : Option String
  pub is_h2 : Bool

pub record Heading : Type 0 where
  pub id : String
  pub text : String
  pub level : ℕ

pub record State : Type 0 where
  pub headings : List Heading
  pub active_id : String

abbrev text_or_empty : Option String → String
text_or_empty none = ""
text_or_empty (some t) = t

unfoldable pub heading : Node → Heading
heading n = record {
  id = n.id;
  text = text_or_empty n.text_content;
  level = if n.is_h2 then 2 else 3;
}

abbrev headings_of : List Node → List Heading
headings_of [] = []
headings_of (n ∷ more) = heading n ∷ headings_of more

-- The effect of another page.
unfoldable pub on_page : List Node → State → State
on_page nodes s = record { headings = headings_of nodes; active_id = "" }

-- The observer's entries, each with the id of its element: the first that intersects is marked.
abbrev first_seen : String → List (String × Bool) → String
first_seen active [] = active
first_seen active ((id, seen) ∷ more) = if seen then id else first_seen active more

unfoldable pub on_entries : List (String × Bool) → State → State
on_entries observed s = record s { active_id = first_seen s.active_id observed }

pub record Line : Type 0 where
  pub href : String
  pub text : String
  pub is_active : Bool
  -- of the second level of headings
  pub is_indented : Bool

abbrev lines_of : String → List Heading → List Line
lines_of active [] = []
lines_of active (h ∷ more) =
    record {
      href = "#" <> h.id;
      text = h.text;
      is_active = str_eq active h.id;
      is_indented = h.level == 3;
    }
    ∷ lines_of active more

-- Nothing is shown of a page without headings.
unfoldable pub contents : State → Option (List Line)
contents s = shown s.headings
  where
    shown : List Heading → Option (List Line)
    shown [] = none
    shown (h ∷ more) = some (lines_of s.active_id (h ∷ more))

-- The id of one of the headings.
abbrev pub IsIn : String → List Heading → Type 0
IsIn id [] = ⊥
IsIn id (h ∷ more) = (id ≡ h.id) ⊎ IsIn id more

-- The observer changes together with the headings: only elements of these are observed.
pub data Step (s : State) : State → Type 0 where
  opens : (nodes : List Node) → Step s (on_page nodes s)
  sees :
      (observed : List (String × Bool))
      → All (λ e. IsIn e.0 s.headings) observed
      → Step s (on_entries observed s)

pub data Reach : State → Type 0 where
  mounted : Reach (record { headings = []; active_id = "" })
  next : {s t : State} → Reach s → Step s t → Reach t

abbrev IsCurrent : State → Type 0
IsCurrent s = (s.active_id ≡ "") ⊎ IsIn s.active_id s.headings

first_seen-IsIn :
    (headings : List Heading) (active : String) (observed : List (String × Bool))
    → All (λ e. IsIn e.0 headings) observed
    → (active ≡ "") ⊎ IsIn active headings
    → (first_seen active observed ≡ "") ⊎ IsIn (first_seen active observed) headings
first_seen-IsIn headings active [] h v = v
first_seen-IsIn headings active ((id, true) ∷ more) (here, h) v = inr here
first_seen-IsIn headings active ((id, false) ∷ more) (here, h) v =
    first_seen-IsIn headings active more h v

-- What is marked is a heading of the page that is shown, or nothing.
Reach-IsCurrent : {s : State} → Reach s → IsCurrent s
unfolding on_page on_entries
Reach-IsCurrent mounted = inl refl
Reach-IsCurrent (next r (opens nodes)) = inl refl
Reach-IsCurrent (next {s = s} r (sees observed h)) =
    first_seen-IsIn s.headings s.active_id observed h (Reach-IsCurrent r)
