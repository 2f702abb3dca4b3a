-- ===== src/View/Truncation.antt =====
-- A shortened text keeps both ends.
use zkredit.Prelude.{
  ℕ, ◌+◌, ◌-◌, ◌≤◌, ◌≡◌, List, ◌∷◌, length, take, arith, length-append, length-take, length-drop,
}
use zkredit.View.{slice_last, shortened}

length-slice_last : (n : ℕ) (xs : List ℕ) → 1 ≤ n → n ≤ length xs → length (slice_last n xs) ≡ n
unfolding slice_last
length-slice_last n xs pos h = ground (arith, length-drop (length xs - n) xs)

-- A shortened text is not longer than before, nor than its two ends with the mark between them.
pub shortened-size :
    (head tail : ℕ) (value : List ℕ)
    → 1 ≤ tail
    → (length (shortened head tail value) ≤ head + tail + 1)
      × (length (shortened head tail value) ≤ length value)
unfolding shortened
shortened-size head tail value pos = ground (
  arith,
  length-take head value,
  length-slice_last tail value pos,
  length-append (take head value) (0x2026 ∷ slice_last tail value),
)
