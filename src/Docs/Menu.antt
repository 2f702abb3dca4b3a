-- ===== src/Docs/Menu.antt =====
-- The menu of small screens in docs-site/src/App.tsx, with components/Header.tsx and Sidebar.tsx.
use zkredit.Prelude.{Bool, false, not, Option, none, some, List, String, if◌then◌else◌}
use zkredit.Docs.Pages.{Link, sidebar}

-- What is clicked: the button of the header, what lies around the menu, the menu itself, or one of its
-- links.
pub data Click : Type 0 where
  menu_button backdrop panel : Click
  menu_link : Link → Click

-- `menuOpen`: a click on the menu is kept from what lies around it, and a link closes the menu.
unfoldable pub on_click : Click → Bool → Bool
on_click menu_button menu_open = not menu_open
on_click backdrop menu_open = false
on_click panel menu_open = menu_open
on_click (menu_link l) menu_open = false

unfoldable pub menu : Bool → Option (List Link)
menu menu_open = if menu_open then some sidebar else none

-- `aria-label` of the button
unfoldable pub button_label : Bool → String
button_label menu_open = if menu_open then "Close menu" else "Open menu"
