-- ===== src/Landing/Panels.antt =====
-- The marks that follow the scrolling in frontend/src/components/HowItWorks.tsx and WhatWeDo.tsx: an
-- event has the position, in millionths of the way, and marks the nearest of the panels or rows.
use zkredit.Prelude.{
  ℕ, ◌+◌, ◌-◌, ◌*◌, ◌/◌, ◌==◌, ◌≤◌, ◌≡◌, refl, Bool, true, ◌&&◌, List, [], ◌∷◌, length, leb, any,
  if◌then◌else◌, arith, Bool-cases, inl, inr,
}
use zkredit.Landing.{pipeline_steps, capabilities}

-- `Math.round`, to the nearest, and up in the middle
unfoldable pub rounded : ℕ → ℕ
rounded millionths = (millionths + 500000) / 1000000

-- `Math.min(last, Math.max(0, Math.round(v * last)))`
unfoldable pub active_at : ℕ → ℕ → ℕ
active_at last v = let index = rounded (v * last) in if leb last index then last else index

-- `PANELS - 1`, with the introduction before the steps
unfoldable pub last_panel : ℕ
last_panel = length pipeline_steps

-- `CAPABILITIES.length - 1`
unfoldable pub last_row : ℕ
last_row = length capabilities - 1

-- The step behind the introduction, or the row, that an index marks.
unfoldable pub step_is_active : ℕ → ℕ → Bool
step_is_active active index = active == index + 1

unfoldable pub row_is_active : ℕ → ℕ → Bool
row_is_active active index = active == index

-- What of a step is shown: the text and its link behind the title, while the pointer is on its panel.
unfoldable pub is_revealed : Bool → Bool → Bool
is_revealed hovered active = hovered && active

-- The marks that a scroll leads to, event by event.
unfoldable pub marks : ℕ → List ℕ → List ℕ
marks last [] = []
marks last (v ∷ more) = active_at last v ∷ marks last more

-- The position behind the events.
abbrev pub final : ℕ → List ℕ → ℕ
final v [] = v
final v (w ∷ more) = final w more

-- From each event to the next, at most the way from one panel to its neighbour.
abbrev pub IsSlow : ℕ → ℕ → List ℕ → Type 0
IsSlow last v [] = Unit
IsSlow last v (w ∷ more) = (w * last ≤ v * last + 1000000) × IsSlow last w more

active_at-le : (last v : ℕ) → active_at last v ≤ last
unfolding active_at
active_at-le last v = ground arith

active_at-step :
    (last v w : ℕ) → w * last ≤ v * last + 1000000 → active_at last w ≤ active_at last v + 1
unfolding active_at rounded
active_at-step last v w h = ground arith

-- When a scroll takes at most the way from one panel to its neighbour from each event to the next,
-- downwards, every panel or row from the mark at its first position to the mark at its last is
-- marked at one of its events.
pub marks-IsWhole :
    (last v i : ℕ) (events : List ℕ)
    → IsSlow last v events
    → active_at last v ≤ i
    → i ≤ active_at last (final v events)
    → any (λ j. j == i) (marks last (v ∷ events)) ≡ true
unfolding marks
marks-IsWhole last v i [] slow above below = ground arith
marks-IsWhole last v i (w ∷ more) (near, slow) above below =
    elim (Bool-cases (active_at last v == i)) [
      | inl here ↦ ground arith
      | inr ahead ↦
          let rest =
            marks-IsWhole last w i more slow
              (let one = active_at-step last v w near in ground (arith, one)) below in
          ground (arith, rest)
    ]

-- A single event from the top to the bottom marks no row between.
jump : marks last_row (0 ∷ 1000000 ∷ []) ≡ 0 ∷ 5 ∷ []
unfolding marks last_row active_at rounded capabilities
jump = refl
