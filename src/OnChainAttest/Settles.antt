-- ===== src/OnChainAttest/Settles.antt =====
-- How a request for an attestation ends: with a credential, with an error, or not at all.
use zkredit.Prelude.{ℕ, ◌≡◌, ◌≤◌, ◌⊎◌, inl, inr, refl, String, false, Option, none, some, str_eq}
use zkredit.Effects.Errors.{Exception}
use zkredit.Effects.Json.{Json}
use zkredit.Effects.Sync.{Result, Result-cases, ok, pending}
use zkredit.Effects.Io.{Io, ◌>>◌, modify}
use zkredit.Effects.Browser.{Http, Clock, Wallet, Chain}
use zkredit.Effects.Lift.{update, lift_http, lift_clock, lift_chain}
use zkredit.Effects.Safe.{Safe, IsPlain, safe_rules, bind-eq-ok, Safe-may_wait}
use zkredit.Freighter.{Network}
use zkredit.Attestor.{prepare_attestation}
use zkredit.Attestor.Endings.{prepare_attestation-Safe}
use zkredit.Rpc.Waiting.{Runs}
use zkredit.Rpc.Endings.{submit_cosigned_attestation-Safe}
use zkredit.Contracts.{Runtime, AttestationData}
use zkredit.OnChainAttest.Page.{page}
use zkredit.OnChainAttest.Reading.{IsRead, submit_and_read-IsRead}
use zkredit.Contracts.Endings.{get_attestation-Safe}
use zkredit.OnChainAttest.{creating_session, preparing, done, failed, State, describe_error}
use zkredit.OnChainAttest.Flow.{
  fail_with, reset, finish, handle_prepare_phase, set_prepare_meta, submit_and_read,
  complete_prepared_attestation, request_attestation, attest_for, guarded, attest, set_phase,
}
use zkredit.OnChainAttest.Titles.{describe_error-IsPlain}

-- The page shows an error with the general title, and no credential.
pub record IsFailed (s : State) : Type 0 where
  pub phase : s.phase ≡ failed
  pub error :
      (detail : String) × ((page s).error
        ≡ some (record { title = "Attestation failed"; detail = detail }))
  pub credential : (page s).credential ≡ none

pub IsFailed-fail_with : (e : Exception) (s : State) → IsPlain e → IsFailed (fail_with e s)
unfolding fail_with page
IsFailed-fail_with e s h = record {
  phase = refl;
  error = ((describe_error e).detail, rw (describe_error-IsPlain e h) refl);
  credential = refl;
}

module _ {W : Type 0} (clock : Clock W) (chain : Chain W) (runs : Runs clock chain) where
  pub Runs-lift : {S : Type 0} → Runs (lift_clock {S = S} clock) (lift_chain chain)
  Runs-lift = record {
    delayed = λ ms (s, w). runs.delayed ms w;
    sent = λ tx (s, w). runs.sent tx w;
    asked = λ hash (s, w). runs.asked hash w;
  }

module _ {W : Type 0} (runtime : Runtime) (network : Network) (http : Http W) (wallet : Wallet W)
    (clock : Clock W) (chain : Chain W) (api_url : String) (on_connected : String → W → W) where
  abbrev pub preparing_call : ℕ → String → Io (State × W) Json
  preparing_call polls address =
      prepare_attestation (lift_http http) (lift_clock clock) api_url
        (λ _ meta. update (handle_prepare_phase meta)) polls address

  -- The flow has reached its end with an answer of the service, the hash of a transaction that was
  -- made of it, and what was read of the contract: that is the credential, which the page shows
  -- without an error, or `null`.
  pub record IsDone (polls fuel : ℕ) (address : String) (s : State) : Type 0 where
    pub answer : Json
    pub att : Option AttestationData
    pub phase : s.phase ≡ done
    pub queue_state : s.queue_state ≡ none
    pub prepared : s.prepared ≡ some answer
    pub attestation : s.attestation ≡ att
    pub asked : (x : State × W) × ((preparing_call polls address x).0 ≡ ok answer)
    pub read : IsRead runtime network wallet clock chain fuel address answer att s
    pub credential : (page s).credential ≡ att
    pub error : (page s).error ≡ none

  abbrev IsFinal : ℕ → String → Json → State → Type 0
  IsFinal fuel address answer s =
      (att : Option AttestationData) × (s.phase ≡ done)
      × (s.queue_state ≡ none)
      × (s.prepared ≡ some answer)
      × (s.attestation ≡ att)
      × IsRead runtime network wallet clock chain fuel address answer att s
      × ((page s).credential ≡ att)
      × ((page s).error ≡ none)

  -- What the last update leaves.
  finish-IsFinal :
      (fuel : ℕ) (address : String) (answer : Json) (att : Option AttestationData) (s : State)
      → IsRead runtime network wallet clock chain fuel address answer att s
      → IsFinal fuel address answer (finish answer att s)
  unfolding finish page
  finish-IsFinal fuel address answer att s read = (att, refl, refl, refl, refl, read, refl, refl)

  complete-IsFinal :
      (fuel : ℕ) (address : String) (answer : Json) (x : State × W) (u : Unit {0})
      → (complete_prepared_attestation runtime network http wallet clock chain api_url on_connected
          fuel address answer x).0
        ≡ ok u
      → IsFinal fuel address answer
          (complete_prepared_attestation runtime network http wallet clock chain api_url
            on_connected fuel address answer x).1.0
  unfolding complete_prepared_attestation
  complete-IsFinal fuel address answer x u h =
      let (att, returned, final) =
        bind-eq-ok
          (submit_and_read runtime network http wallet clock chain api_url on_connected fuel address
            answer)
          (λ att. modify (update (finish answer att))) x u h in
      rw final (
        finish-IsFinal fuel address answer att _ (
          submit_and_read-IsRead runtime network wallet clock chain http api_url on_connected fuel
            address answer att x returned))

module _ {W : Type 0} (runtime : Runtime) (network : Network) (http : Http W) (wallet : Wallet W)
    (clock : Clock W) (chain : Chain W) (api_url : String) (on_connected : String → W → W)
    (runs : Runs clock chain) where
  submit_and_read-Safe :
      (fuel : ℕ) (address : String) (result : Json)
      → 21 ≤ fuel
      → Safe IsPlain ⊥ (
          submit_and_read runtime network http wallet clock chain api_url on_connected fuel address
            result)
  unfolding submit_and_read
  submit_and_read-Safe fuel address result h =
      let lifted = Runs-lift clock chain runs {S = State} in
      search (safe_rules, submit_cosigned_attestation-Safe, get_attestation-Safe) depth 12

  request_attestation-Safe :
      (polls fuel : ℕ) (address : String)
      → 21 ≤ fuel
      → Safe IsPlain (Unit {0}) (
          request_attestation runtime network http wallet clock chain api_url on_connected polls
            fuel address)
  unfolding request_attestation complete_prepared_attestation
  request_attestation-Safe polls fuel address h =
      let read : (result : Json)
          → Safe IsPlain (Unit {0}) (
              submit_and_read runtime network http wallet clock chain api_url on_connected fuel
                address result) =
        λ result.
          Safe-may_wait IsPlain
            (submit_and_read runtime network http wallet clock chain api_url on_connected fuel
              address result)
            (submit_and_read-Safe fuel address result h) in
      search (safe_rules, prepare_attestation-Safe, read) depth 12

  abbrev requested : ℕ → ℕ → String → Io (State × W) (Unit {0})
  requested = request_attestation runtime network http wallet clock chain api_url on_connected

  abbrev Done : ℕ → ℕ → String → State → Type 0
  Done = IsDone runtime network http wallet clock chain api_url on_connected

  requested-IsDone :
      (polls fuel : ℕ) (address : String) (x : State × W) (u : Unit {0})
      → (requested polls fuel address x).0 ≡ ok u
      → Done polls fuel address (requested polls fuel address x).1.0
  unfolding request_attestation
  requested-IsDone polls fuel address (s, w) u h =
      let begun : State × W = (set_phase preparing (set_phase creating_session s), w) in
      let (answer, returned, final) =
        bind-eq-ok
          (preparing_call runtime network http wallet clock chain api_url on_connected polls
            address)
          (λ answer.
            modify (update (set_prepare_meta answer))
            >> complete_prepared_attestation runtime network http wallet clock chain api_url
                on_connected fuel address answer)
          begun u h in
      let (att, phase, queue, prepared, attestation, read, credential, error) =
        complete-IsFinal runtime network http wallet clock chain api_url on_connected fuel address
          answer _ u (rw final at h) in
      rw final (record {
        answer = answer;
        att = att;
        phase = phase;
        queue_state = queue;
        prepared = prepared;
        attestation = attestation;
        asked = (begun, returned);
        read = read;
        credential = credential;
        error = error;
      })

  abbrev pub Settled : ℕ → ℕ → String → Result (Unit {0}) × (State × W) → Type 0
  Settled polls fuel address r =
      (r.0 ≡ pending) ⊎ ((r.0 ≡ ok tt) × (Done polls fuel address r.1.0 ⊎ IsFailed r.1.0))

  attest_for-settles :
      (polls fuel : ℕ) (address : String) (s : State) (w : W)
      → 21 ≤ fuel
      → Settled polls fuel address (
          attest_for runtime network http wallet clock chain api_url on_connected polls fuel address
            (s, w))
  unfolding attest_for
  attest_for-settles polls fuel address s w h =
      let safe = (request_attestation-Safe polls fuel address h).at (reset s, w) in
      elim (Result-cases (requested polls fuel address (reset s, w)).0) [
        | inl (u, fine) ↦
            let shown = requested-IsDone polls fuel address (reset s, w) u fine in
            rw fine (inr (refl, inl shown))
        | inr (inl (x, broken)) ↦
            rw broken (inr (refl, inr (IsFailed-fail_with x _ (rw broken at safe))))
        | inr (inr never) ↦ rw never (inl refl)
      ]

  guarded-some :
      (polls fuel : ℕ) (o : Option String) (address : String) (x : State × W)
      → o ≡ some address
      → str_eq address "" ≡ false
      → guarded runtime network http wallet clock chain api_url on_connected polls fuel o x
        ≡ attest_for runtime network http wallet clock chain api_url on_connected polls fuel address
            x
  guarded-some polls fuel o address x e there = rw (e, there) refl

  -- With a wallet connected, with fuel of 21 at least for the wait on the chain, and with a clock
  -- that runs, `attest` either is still polling when its polling fuel is used up, or it returns.
  -- In the latter case one of two holds. Either the phase is done, no queue is left, the state has
  -- the answer that the preparation returned, the hash that the submission of its transaction
  -- returned, and what the read of the contract for the wallet returned, and this is what the page
  -- shows as its credential, without an error: the attestation that was read, or nothing where
  -- none was. Or the phase is error, and the page shows an error with the title "Attestation
  -- failed" and no credential.
  pub attest-settles :
      (polls fuel : ℕ) (s : State) (w : W) (address : String)
      → 21 ≤ fuel
      → s.wallet ≡ some address
      → str_eq address "" ≡ false
      → Settled polls fuel address
          (attest runtime network http wallet clock chain api_url on_connected polls fuel (s, w))
  unfolding attest
  attest-settles polls fuel s w address h e there =
      rw (guarded-some polls fuel s.wallet address (s, w) e there)
        (attest_for-settles polls fuel address s w h)
