-- ===== src/View.antt =====
-- What a page of the client shows, in its order, without its layout: texts, labelled values, and
-- buttons with what they call.
pub mod Truncation
use Prim.Native.String
use Prim.Native.Char.{code}
use zkredit.Prelude.{
  ◌<>◌, ℕ, ◌+◌, ◌-◌, ◌==◌, leb, String, Bool, true, false, ◌&&◌, ◌||◌, Option, none, some, List, [],
  ◌∷◌, ◌++◌, length, take, drop, if◌then◌else◌,
}

pub data Shown (A : Type 0) : Type 0 where
  text : String → Shown A
  -- in code units
  cut : List ℕ → Shown A
  field : String → String → Shown A
  -- what it calls, whether it is enabled, and its label
  button : A → Bool → String → Shown A

-- `{message && …}`
abbrev pub if_text : {A : Type 0} → Option String → (String → List (Shown A)) → List (Shown A)
if_text none f = []
if_text (some t) f = f t

-- The calls of the buttons that are enabled.
unfoldable pub offered : {A : Type 0} → List (Shown A) → List A
offered [] = []
offered (text t ∷ shown) = offered shown
offered (cut t ∷ shown) = offered shown
offered (field k v ∷ shown) = offered shown
offered (button a true label ∷ shown) = a ∷ offered shown
offered (button a false label ∷ shown) = offered shown

-- `value.slice(-n)`, on code units
unfoldable pub slice_last : ℕ → List ℕ → List ℕ
slice_last n value = if n == 0 then value else drop (length value - n) value

-- A text with an ellipsis in its middle, where it is longer than the two ends.
unfoldable pub shortened : ℕ → ℕ → List ℕ → List ℕ
shortened head tail value =
    if leb (length value) (head + tail + 1)
    then value
    else take head value ++ (0x2026 ∷ slice_last tail value)

-- `t.replace(/_/g, ' ')`
unfoldable pub spaced : String → String
spaced String.[] = String.[]
spaced (String.◌∷◌ c t) =
    let rest = spaced t in if code c == 95 then " " <> rest else String.◌∷◌ c rest

-- `{b && …}`
abbrev pub when : {A : Type 0} → Bool → List (Shown A) → List (Shown A)
when true shown = shown
when false shown = []
