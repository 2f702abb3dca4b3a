-- ===== src/Identity/KycEvents.antt =====
-- What holds of the KYC status of frontend/src/pages/Identity.tsx in any order of events.
use zkredit.Prelude.{
  ℕ, ◌+◌, ◌≡◌, refl, String, Bool, true, false, Option, none, some, List, [], ◌∷◌, ◌++◌, map, any,
  All, str_eq, arith, ◌⊎◌, inl, inr,
}
use zkredit.Effects.Json.{null, bool, num, str, arr, obj}
use zkredit.Identity.{KycState, should_poll}
use zkredit.Identity.Kyc.{stop_polling, on_answer, on_failure}
use zkredit.Identity.KycSteps.{
  Waiting, effect, ticked, refreshed, opening, started, Request, Page, Reply, answered, failed,
  truthy, settle, stopped, cancelled,
}

-- The page shows a commitment.
abbrev pub Shows : Option String → String → Type 0
Shows commitment c = (commitment ≡ some c) × (truthy (some c) ≡ true)

abbrev pub WasStarted : List String → String → Type 0
WasStarted history c = any (str_eq c) history ≡ true

-- A request that can still start the timer is about the commitment shown, or a verification was
-- started for what it is about.
abbrev pub IsKnownAs : Option String → List String → String → Waiting → Type 0
IsKnownAs commitment history c (effect false) = Shows commitment c
IsKnownAs commitment history c opening = WasStarted history c
IsKnownAs commitment history c started = WasStarted history c
IsKnownAs commitment history c w = Unit

abbrev pub IsKnown : Option String → List String → Request → Type 0
IsKnown commitment history r = IsKnownAs commitment history r.about r.waiting

abbrev pub IsTimer : Option String → List String → Option String → Type 0
IsTimer commitment history none = Unit
IsTimer commitment history (some c) = Shows commitment c ⊎ WasStarted history c

abbrev pub is_start : Waiting → ℕ
is_start opening = 1
is_start started = 1
is_start w = 0

unfoldable pub starts_of : List Request → ℕ
starts_of [] = 0
starts_of (r ∷ rs) = is_start r.waiting + starts_of rs

abbrev pub one_if : Bool → ℕ
one_if true = 1
one_if false = 0

pub record IsSound (p : Page) : Type 0 where
  pub known : All (IsKnown p.commitment p.history) p.requests
  pub timer : IsTimer p.commitment p.history p.kyc.interval
  pub one_start : starts_of p.requests ≡ one_if p.kyc.starting

pub starts_of-middle :
    (front back : List Request) (r : Request)
    → starts_of (front ++ (r ∷ back)) ≡ is_start r.waiting + starts_of (front ++ back)
unfolding starts_of
starts_of-middle [] back r = refl
starts_of-middle (x ∷ front) back r = omega (arith, starts_of-middle front back r)

is_start-stopped : (w : Waiting) → is_start (stopped w) ≡ is_start w
is_start-stopped (effect b) = refl
is_start-stopped ticked = refl
is_start-stopped refreshed = refl
is_start-stopped opening = refl
is_start-stopped started = refl

pub starts_of-cancelled : (rs : List Request) → starts_of (map cancelled rs) ≡ starts_of rs
unfolding starts_of
starts_of-cancelled [] = refl
starts_of-cancelled (r ∷ rs) = omega (arith, is_start-stopped r.waiting, starts_of-cancelled rs)

-- A request that is cancelled is known, whatever is shown.
pub known-stopped :
    (old new : Option String) (history : List String) (c : String) (w : Waiting)
    → IsKnownAs old history c w
    → IsKnownAs new history c (stopped w)
known-stopped old new history c (effect b) h = tt
known-stopped old new history c ticked h = tt
known-stopped old new history c refreshed h = tt
known-stopped old new history c opening h = h
known-stopped old new history c started h = h

-- Starting another verification forgets none.
pub known-cons :
    (commitment : Option String) (d : String) (history : List String) (c : String) (w : Waiting)
    → IsKnownAs commitment history c w
    → IsKnownAs commitment (d ∷ history) c w
known-cons commitment d history c (effect true) h = tt
known-cons commitment d history c (effect false) h = h
known-cons commitment d history c ticked h = tt
known-cons commitment d history c refreshed h = tt
known-cons commitment d history c opening h = ground arith
known-cons commitment d history c started h = ground arith

-- Nothing is known of an old effect where nothing was shown.
pub known-unshown :
    (old new : Option String) (history : List String) (c : String) (w : Waiting)
    → truthy old ≡ false
    → IsKnownAs old history c w
    → IsKnownAs new history c w
known-unshown old new history c (effect true) e h = tt
known-unshown old new history c (effect false) e (shown, full) = ground arith
known-unshown old new history c ticked e h = tt
known-unshown old new history c refreshed e h = tt
known-unshown old new history c opening e h = h
known-unshown old new history c started e h = h

pub IsTimer-unshown :
    (old new : Option String) (history : List String) (interval : Option String)
    → truthy old ≡ false
    → IsTimer old history interval
    → IsTimer new history interval
IsTimer-unshown old new history none e h = tt
IsTimer-unshown old new history (some c) e (inl (shown, full)) = ground arith
IsTimer-unshown old new history (some c) e (inr k) = inr k

pub IsTimer-cons :
    (commitment : Option String) (d : String) (history : List String) (interval : Option String)
    → IsTimer commitment history interval
    → IsTimer commitment (d ∷ history) interval
IsTimer-cons commitment d history none h = tt
IsTimer-cons commitment d history (some c) (inl shown) = inl shown
IsTimer-cons commitment d history (some c) (inr k) = inr (ground arith)

-- A reply stops the timer or leaves it, and leaves the mark of a starting verification.
abbrev pub IsSettled : KycState → KycState → Type 0
IsSettled s t = (t.starting ≡ s.starting) × ((t.interval ≡ none) ⊎ (t.interval ≡ s.interval))

on_answer-IsSettled : (again : Bool) (s : KycState) → IsSettled s (on_answer again s)
unfolding on_answer stop_polling
on_answer-IsSettled true s = (refl, inr refl)
on_answer-IsSettled false s = (refl, inl refl)

pub settle-IsSettled : (reply : Reply) (s : KycState) → IsSettled s (settle reply s).0
unfolding settle on_failure stop_polling
settle-IsSettled (failed e) s = (refl, inl refl)
settle-IsSettled (answered null) s = (refl, inl refl)
settle-IsSettled (answered (bool b)) s = on_answer-IsSettled (should_poll (bool b)) _
settle-IsSettled (answered (num n)) s = on_answer-IsSettled (should_poll (num n)) _
settle-IsSettled (answered (str t)) s = on_answer-IsSettled (should_poll (str t)) _
settle-IsSettled (answered (arr i)) s = on_answer-IsSettled (should_poll (arr i)) _
settle-IsSettled (answered (obj f)) s = on_answer-IsSettled (should_poll (obj f)) _
