-- ===== src/Attestor/Endings.antt =====
-- The errors of `prepareAttestation` of attestor.ts.
use zkredit.Prelude.{
  ℕ, zero, suc, String, Bool, true, false, Option, none, some, if◌then◌else◌, Bool-cases, inl, inr,
}
use zkredit.Effects.Json.{Json, null, bool, num, str, arr, obj, truthy?, lookup}
use zkredit.Effects.Sync.{Result, ok, thrown, pending}
use zkredit.Effects.Io.{Io, ◌>>=◌}
use zkredit.Effects.Browser.{Http, Clock}
use zkredit.Effects.Safe.{Outcome, Safe, IsPlain, safe_rules, Safe-bind}
use zkredit.Attestor.{
  Phase, PhaseMeta, is_queued_attestation, job_result, succeeded, looping, poll_again, poll_loop,
  start_prepare_attestation, get_attestation_job, prepare_attestation,
}

abbrev Plain {ℓ} : {A : Type ℓ} → Result A → Type 0
Plain r = Outcome IsPlain (Unit {0}) r

succeeded-Plain : (payload : Json) (result : Option Json) → Plain (succeeded payload result)
succeeded-Plain payload none = tt
succeeded-Plain payload (some null) = tt
succeeded-Plain payload (some (bool b)) = tt
succeeded-Plain payload (some (num n)) = tt
succeeded-Plain payload (some (str s)) = tt
succeeded-Plain payload (some (arr xs)) = tt
succeeded-Plain payload (some (obj fs)) = elim (Bool-cases (truthy? (lookup "partial_xdr" fs))) [
  | inl there ↦ rw there tt
  | inr missing ↦ rw missing tt
]

Plain-if : {A : Type 0} (b : Bool) (r q : Result A) → Plain r → Plain q → Plain (if b then r else q)
Plain-if true r q hr hq = hr
Plain-if false r q hr hq = hq

job_result-Plain : (payload : Json) → Plain (job_result payload)
unfolding job_result
job_result-Plain null = tt
job_result-Plain _ = search (Plain-if, succeeded-Plain) depth 8

is_queued_attestation-Plain : (r : Json) → Plain (is_queued_attestation r)
unfolding is_queued_attestation
is_queued_attestation-Plain null = tt
is_queued_attestation-Plain (bool b) = tt
is_queued_attestation-Plain (num n) = tt
is_queued_attestation-Plain (str s) = tt
is_queued_attestation-Plain (arr xs) = tt
is_queued_attestation-Plain (obj fs) = tt

module _ {W : Type 0} (http : Http W) (clock : Clock W) (api_url : String) where
  start_prepare_attestation-Safe :
      (wallet : String)
      → Safe IsPlain (Unit {0}) (start_prepare_attestation http clock api_url wallet)
  unfolding start_prepare_attestation
  start_prepare_attestation-Safe wallet = search safe_rules depth 9

  get_attestation_job-Safe :
      (job_id : String) → Safe IsPlain (Unit {0}) (get_attestation_job http clock api_url job_id)
  unfolding get_attestation_job
  get_attestation_job-Safe job_id = search (safe_rules, job_result-Plain) depth 9

  module _ (on_phase : Phase → PhaseMeta → W → W) where
    poll_again-Safe :
        (r : Json) → Safe IsPlain (Unit {0}) (poll_again http clock api_url on_phase r)
    unfolding poll_again
    poll_again-Safe r = search (safe_rules, get_attestation_job-Safe) depth 8

    looping-Plain :
        (b : Result Bool) (r : Json) (again : Io W Json)
        → Plain b
        → Safe IsPlain (Unit {0}) again
        → Safe IsPlain (Unit {0}) (looping http clock api_url on_phase b r again)
    looping-Plain (ok true) r again hb h = h
    looping-Plain (ok false) r again hb h = record { at = λ w. tt }
    looping-Plain (thrown e) r again hb h = record { at = λ w. hb }
    looping-Plain pending r again hb h = record { at = λ w. tt }

    poll_loop-Safe :
        (fuel : ℕ) (r : Json)
        → Safe IsPlain (Unit {0}) (poll_loop http clock api_url on_phase fuel r)
    unfolding poll_loop
    poll_loop-Safe zero r =
        looping-Plain (is_queued_attestation r) r (λ w. (pending, w))
          (is_queued_attestation-Plain r) (record { at = λ w. tt })
    poll_loop-Safe (suc fuel) r =
        looping-Plain (is_queued_attestation r) r
          (poll_again http clock api_url on_phase r >>= poll_loop http clock api_url on_phase fuel)
          (is_queued_attestation-Plain r)
          (Safe-bind (poll_again http clock api_url on_phase r)
            (poll_loop http clock api_url on_phase fuel) (poll_again-Safe r) (poll_loop-Safe fuel))

    -- What `prepareAttestation` throws is an instance of none of the client's error classes,
    -- whatever the API answers.
    pub prepare_attestation-Safe :
        (fuel : ℕ) (wallet : String)
        → Safe IsPlain (Unit {0}) (prepare_attestation http clock api_url on_phase fuel wallet)
    unfolding prepare_attestation
    prepare_attestation-Safe fuel wallet =
        search (safe_rules, start_prepare_attestation-Safe, poll_loop-Safe) depth 5
