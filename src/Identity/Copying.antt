-- ===== src/Identity/Copying.antt =====
-- The copy buttons of frontend/src/pages/Identity.tsx, as events in any order: a text is written to
-- the clipboard or is not, and a timer that an earlier copy has set runs off.
use zkredit.Prelude.{ℕ, ◌+◌, ◌-◌, ◌≤◌, ◌≡◌, ◌≢◌, Bool, true, false, arith}

pub record State : Type 0 where
  -- the tick is shown in place of the icon
  pub copied : Bool
  -- timers that have not run off
  pub timers : ℕ

unfoldable pub initial : State
initial = record { copied = false; timers = 0 }

unfoldable pub on_written : State → State
on_written s = record { copied = true; timers = s.timers + 1 }

-- The error is caught, and nothing is done.
unfoldable pub on_refused : State → State
on_refused s = s

unfoldable pub on_timer : State → State
on_timer s = record { copied = false; timers = s.timers - 1 }

pub data Step (s : State) : State → Type 0 where
  writes : Step s (on_written s)
  refuses : Step s (on_refused s)
  runs_off : 1 ≤ s.timers → Step s (on_timer s)

pub data Reach (s : State) : State → Type 0 where
  here : Reach s s
  next : {t u : State} → Reach s t → Step t u → Reach s u

-- A tick has a timer that takes it away.
abbrev IsTimed : State → Type 0
IsTimed s = s.copied ≡ true → 1 ≤ s.timers

Step-IsTimed : {s t : State} → Step s t → IsTimed s → IsTimed t
unfolding on_written on_refused on_timer
Step-IsTimed writes v h = omega arith
Step-IsTimed refuses v h = v h
Step-IsTimed (runs_off some_left) v h = absurd cc

Reach-IsTimed : {s t : State} → Reach s t → IsTimed s → IsTimed t
Reach-IsTimed here v = v
Reach-IsTimed (next r st) v = Step-IsTimed st (Reach-IsTimed r v)

-- When no timer is left, the tick is gone.
no_tick_left : (s : State) → Reach initial s → s.timers ≡ 0 → s.copied ≢ true
unfolding initial
no_tick_left s r none_left ticked =
    let left = Reach-IsTimed r (λ h. absurd cc) ticked in omega (arith, left)
