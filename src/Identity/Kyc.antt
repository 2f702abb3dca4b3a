-- ===== src/Identity/Kyc.antt =====
-- `useKycStatus` of frontend/src/pages/Identity.tsx: asking for the KYC status, once or by a timer.
use zkredit.Prelude.{String, Bool, true, false, Option, none, some, if◌then◌else◌, str_eq}
use zkredit.Effects.Errors.{Exception, message_of}
use zkredit.Effects.Json.{Json, null, property}
use zkredit.Effects.Io.{Io, ◌>>=◌, ◌>>◌, pure, throw, modify, try_catch, finally}
use zkredit.Effects.Browser.{Http}
use zkredit.Effects.Lift.{update, lift_http}
use zkredit.Http.{plain, create_kyc_session, get_kyc_status}
use zkredit.Identity.{KycState, should_poll}

unfoldable pub stop_polling : KycState → KycState
stop_polling s = record s { interval = none; polling = false }

-- `startPolling`: a running timer is replaced.
unfoldable pub start_polling : String → KycState → KycState
start_polling commitment s = record s { interval = some commitment }

-- The state behind an answer.
unfoldable pub on_answer : Bool → KycState → KycState
on_answer true s = record s { polling = true }
on_answer false s = stop_polling s

unfoldable pub on_failure : Exception → KycState → KycState
on_failure e s = stop_polling (record s { error = some (message_of e) })

-- `next.status`, where the answer `null` is a TypeError.
abbrev asks_again : {W : Type 0} → Json → Io W Bool
asks_again null = throw (plain "Cannot read properties of null (reading 'status')")
asks_again next = pure (should_poll next)

-- `session.url`
abbrev url_of : {W : Type 0} → Json → Io W (Option Json)
url_of null = throw (plain "Cannot read properties of null (reading 'url')")
url_of session = pure (property "url" session)

module _ {W : Type 0} (http : Http W) (api_url : String) (open_window : Option Json → W → W) where
  abbrev set : (KycState → KycState) → Io (KycState × W) (Unit {0})
  set f = modify (update f)

  unfoldable pub ask : String → Io (KycState × W) Bool
  ask commitment = do
    next ← get_kyc_status (lift_http http) api_url commitment
    set (λ s. record s { status = some next })
    again ← asks_again next
    set (on_answer again)
    pure again

  -- It never throws; the result says whether to ask again.
  unfoldable pub refresh_once : String → Io (KycState × W) Bool
  refresh_once commitment = try_catch (ask commitment) (λ e. set (on_failure e) >> pure false)

  -- A tick of the timer.
  abbrev on_tick : Option String → Io (KycState × W) (Unit {0})
  on_tick none = pure tt
  on_tick (some commitment) = refresh_once commitment >>= λ _. pure tt

  unfoldable pub tick : Io (KycState × W) (Unit {0})
  tick (s, w) = on_tick s.interval (s, w)

  abbrev pub start_if : String → Bool → Io (KycState × W) (Unit {0})
  start_if commitment true = set (start_polling commitment)
  start_if commitment false = pure tt

  abbrev clear : KycState → KycState
  clear s = stop_polling (record s { status = none })

  -- The effect on a new commitment, where no later one cancels it.
  abbrev pub on_commitment : Option String → Io (KycState × W) (Unit {0})
  on_commitment none = set clear
  on_commitment (some commitment) =
      if str_eq commitment "" then set clear else refresh_once commitment >>= start_if commitment

  unfoldable pub open_session : String → Io (KycState × W) (Unit {0})
  open_session commitment = do
    session ← create_kyc_session (lift_http http) api_url commitment
    url ← url_of session
    modify (λ (s, w). (s, open_window url w))
    again ← refresh_once commitment
    set (start_polling commitment)

  abbrev pub start_verification : Option String → Io (KycState × W) (Unit {0})
  start_verification none = pure tt
  start_verification (some commitment) =
      if str_eq commitment ""
      then pure tt
      else set (λ s. record s { starting = true; error = none })
        >> finally
            (try_catch (open_session commitment)
              (λ e. set (λ s. record s { error = some (message_of e) })))
            (set (λ s. record s { starting = false }))

  abbrev pub refresh : Option String → Io (KycState × W) (Unit {0})
  refresh none = pure tt
  refresh (some commitment) =
      if str_eq commitment ""
      then pure tt
      else set (λ s. record s { error = none }) >> refresh_once commitment >>= λ _. pure tt
