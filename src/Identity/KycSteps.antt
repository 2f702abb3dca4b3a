-- ===== src/Identity/KycSteps.antt =====
-- `useKycStatus` of frontend/src/pages/Identity.tsx as its events: requests are in flight while the
-- commitment changes, the timer ticks and buttons are clicked, and replies come in any order.
-- Unmounting the page is not among the events.
use zkredit.Prelude.{
  ◌≡◌, ◌≢◌, String, Bool, true, false, not, ◌&&◌, Option, none, some, List, [], ◌∷◌, ◌++◌, map,
  if◌then◌else◌, str_eq,
}
use zkredit.Effects.Errors.{Exception, message_of}
use zkredit.Effects.Json.{Json, null}
use zkredit.Http.{plain}
use zkredit.Identity.{KycState, should_poll}
use zkredit.Identity.Kyc.{stop_polling, start_polling, on_answer, on_failure}

-- The code that awaits a request: the effect, which may have been cancelled, a tick, the refresh
-- button, and `startVerification` at its first and at its second `await`.
pub data Waiting : Type 0 where
  effect : Bool → Waiting
  ticked refreshed opening started : Waiting

pub record Request : Type 0 where
  pub about : String
  pub waiting : Waiting

pub record Page : Type 0 where
  pub kyc : KycState
  pub commitment : Option String
  pub requests : List Request
  -- the commitments that a verification was started for, which the page does not store
  pub history : List String

pub data Reply : Type 0 where
  answered : Json → Reply
  failed : Exception → Reply

abbrev pub truthy : Option String → Bool
truthy none = false
truthy (some c) = not (str_eq c "")

-- What `refreshOnce` does with a reply, and its result.
unfoldable pub settle : Reply → KycState → KycState × Bool
settle (failed e) s = (on_failure e s, false)
settle (answered null) s = (
  on_failure (plain "Cannot read properties of null (reading 'status')")
      (record s { status = some null }),
  false,
)
settle (answered next) s =
    (on_answer (should_poll next) (record s { status = some next }), should_poll next)

unfoldable pub ask_about : Waiting → String → Page → Page
ask_about waiting c p = record p { requests = record { about = c; waiting = waiting } ∷ p.requests }

unfoldable pub fail_start : Exception → KycState → KycState
fail_start e s = record s { error = some (message_of e); starting = false }

abbrev pub goes_on_polling : Bool → String → KycState → KycState
goes_on_polling true c s = start_polling c s
goes_on_polling false c s = s

-- `startVerification` behind `createKycSession`; the window that it opens is not modelled.
abbrev pub opened : String → Reply → Page → Page
opened c (failed e) p = record p { kyc = fail_start e p.kyc }
opened c (answered null) p = record p {
  kyc = fail_start (plain "Cannot read properties of null (reading 'url')") p.kyc;
}
opened c (answered session) p = ask_about started c p

-- What follows a reply to a request about `c`.
abbrev pub resume : Waiting → String → Reply → Page → Page
resume (effect cancelled) c reply p =
    let (s, again) = settle reply p.kyc in
    record p { kyc = goes_on_polling (again && not cancelled) c s }
resume ticked c reply p = record p { kyc = (settle reply p.kyc).0 }
resume refreshed c reply p = record p { kyc = (settle reply p.kyc).0 }
resume opening c reply p = opened c reply p
resume started c reply p = record p {
  kyc = record (start_polling c (settle reply p.kyc).0) { starting = false };
}

-- The request is no longer among those of the page.
unfoldable pub on_reply : Reply → Request → Page → Page
on_reply reply r p = resume r.waiting r.about reply p

abbrev pub stopped : Waiting → Waiting
stopped (effect cancelled) = effect true
stopped w = w

abbrev pub cancelled : Request → Request
cancelled r = record r { waiting = stopped r.waiting }

-- The clean-up of the effect, which an empty commitment has none of.
unfoldable pub clean_up : Page → Page
clean_up p =
    if truthy p.commitment
    then record p { kyc = stop_polling p.kyc; requests = map cancelled p.requests }
    else p

unfoldable pub run_effect : Option String → Page → Page
run_effect none p = record p { kyc = stop_polling (record p.kyc { status = none }) }
run_effect (some c) p =
    if str_eq c ""
    then record p { kyc = stop_polling (record p.kyc { status = none }) }
    else ask_about (effect false) c p

unfoldable pub change_commitment : Option String → Page → Page
change_commitment c p = run_effect c (record (clean_up p) { commitment = c })

unfoldable pub begin_start : String → Page → Page
begin_start c p =
    ask_about opening c
      (record p { kyc = record p.kyc { starting = true; error = none }; history = c ∷ p.history })

unfoldable pub begin_refresh : String → Page → Page
begin_refresh c p = ask_about refreshed c (record p { kyc = record p.kyc { error = none } })

pub data Step : Page → Page → Type 0 where
  changes : (p : Page) (c : Option String) → p.commitment ≢ c → Step p (change_commitment c p)
  ticks : (p : Page) (c : String) → p.kyc.interval ≡ some c → Step p (ask_about ticked c p)
  -- the button is disabled while a verification is starting
  starts :
      (p : Page) (c : String)
      → p.commitment ≡ some c
      → truthy (some c) ≡ true
      → p.kyc.starting ≡ false
      → Step p (begin_start c p)
  refreshes :
      (p : Page) (c : String)
      → p.commitment ≡ some c
      → truthy (some c) ≡ true
      → Step p (begin_refresh c p)
  replies :
      (p : Page) (front back : List Request) (r : Request) (reply : Reply)
      → p.requests ≡ front ++ (r ∷ back)
      → Step p (on_reply reply r (record p { requests = front ++ back }))

pub data Reach (p : Page) : Page → Type 0 where
  here : Reach p p
  next : {q r : Page} → Reach p q → Step q r → Reach p r

unfoldable pub mounted : KycState → Page
mounted s = record { kyc = s; commitment = none; requests = []; history = [] }
