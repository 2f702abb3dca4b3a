-- ===== src/TryAttestation/Messages.antt =====
-- How a preview ends, and what it says then.
use zkredit.Prelude.{ℕ, ◌≡◌, ◌⊎◌, inl, inr, refl, String, false}
use zkredit.Effects.Errors.{
  Exception, error, value, base_error, api_error, freighter_error, contract_rpc_error,
  attestation_prepare_error,
}
use zkredit.Effects.Json.{Json}
use zkredit.Effects.Sync.{Result, Result-cases, ok, pending}
use zkredit.Effects.Io.{Io, ◌>>=◌, modify}
use zkredit.Effects.Browser.{Http, Clock, Wallet}
use zkredit.Effects.Lift.{update}
use zkredit.Effects.Safe.{
  Safe, IsPlain, safe_rules, bind-eq-ok, Safe-any, Safe-try_catch, Safe-modify, Safe-bind,
}
use zkredit.Freighter.{Network}
use zkredit.Attestor.Endings.{prepare_attestation-Safe}
use zkredit.TryAttestation.{
  done, failed, State, error_message_of, general_message, last_step, begin, fail_with, end_run,
  settled, load_details, prepare_and_load, run_protected, run_attestation,
}

error_message_of-IsPlain : (e : Exception) → IsPlain e → error_message_of e ≡ general_message
unfolding error_message_of
error_message_of-IsPlain (error base_error kind message) h = refl
error_message_of-IsPlain (error api_error kind message) h = absurd h
error_message_of-IsPlain (error freighter_error kind message) h = absurd h
error_message_of-IsPlain (error contract_rpc_error kind message) h = absurd h
error_message_of-IsPlain (error attestation_prepare_error kind message) h = absurd h
error_message_of-IsPlain (value text) h = refl

-- A preview at its end: the timer is off, and there is a result or the general message.
pub record IsOver (s : State) : Type 0 where
  pub timer : s.timer ≡ false
  pub step : s.step ≡ last_step
  pub shown : (s.phase ≡ done) ⊎ ((s.phase ≡ failed) × (s.error_message ≡ general_message))

module _ {W : Type 0} (network : Network) (wallet : Wallet W) (http : Http W) (clock : Clock W)
    (api_url api_base : String) (encode_uri : String → String) (now : W → String)
    (on_connected : String → W → W) where
  abbrev protected : ℕ → String → Io (State × W) (Unit {0})
  protected = run_protected network wallet http clock api_url api_base encode_uri now on_connected

  settled-Safe :
      (m : Io (State × W) Json) (f : Json → State → State) (g : State → State)
      → Safe IsPlain
          (Unit {0})
          (settled network wallet http clock api_url api_base encode_uri now on_connected m f g)
  settled-Safe m f g =
      Safe-try_catch {P' = λ _. Unit {0}} (m >>= λ j. modify (update (f j)))
        (λ _. modify (update g)) (Safe-any (m >>= λ j. modify (update (f j))))
        (λ e h. Safe-modify (update g))

  load_details-Safe :
      (address : String)
      → Safe IsPlain (Unit {0}) (
          load_details network wallet http clock api_url api_base encode_uri now on_connected
            address)
  unfolding load_details
  load_details-Safe address = search (Safe-bind, settled-Safe) depth 6

  protected-Safe :
      (polls : ℕ) (address : String) → Safe IsPlain (Unit {0}) (protected polls address)
  unfolding run_protected prepare_and_load
  protected-Safe polls address =
      search (safe_rules, prepare_attestation-Safe, load_details-Safe) depth 8

  abbrev pub Ended : Result (Unit {0}) × (State × W) → Type 0
  Ended r = (r.0 ≡ pending) ⊎ ((r.0 ≡ ok tt) × IsOver r.1.0)

  protected-done :
      (polls : ℕ) (address : String) (x : State × W) (u : Unit {0})
      → (protected polls address x).0 ≡ ok u
      → (protected polls address x).1.0.phase ≡ done
  unfolding run_protected
  protected-done polls address x u h =
      let (_, _, final) =
        bind-eq-ok
          (prepare_and_load network wallet http clock api_url api_base encode_uri now on_connected
            polls address)
          (λ _. modify (update (λ (s : State). record s { phase = done }))) x u h in
      rw final refl

  -- A preview either is still polling when its polling fuel is used up, or it returns with the
  -- timer off and the last step shown, and then its phase is done, or it has failed with the
  -- message "Something went wrong generating this attestation.".
  pub run_attestation-ends :
      (polls : ℕ) (address : String) (s : State) (w : W)
      → Ended (
          run_attestation network wallet http clock api_url api_base encode_uri now on_connected
            polls address
            (s, w))
  unfolding run_attestation end_run fail_with
  run_attestation-ends polls address s w =
      let safe = (protected-Safe polls address).at (begin s, w) in
      elim (Result-cases (protected polls address (begin s, w)).0) [
        | inl (u, fine) ↦
            let shown = protected-done polls address (begin s, w) u fine in
            rw fine (inr (refl, record { timer = refl; step = refl; shown = inl shown }))
        | inr (inl (x, broken)) ↦ rw broken (
            inr (
              refl,
              record {
                timer = refl;
                step = refl;
                shown = inr (refl, error_message_of-IsPlain x (rw broken at safe));
              },
            ))
        | inr (inr never) ↦ rw never (inl refl)
      ]
