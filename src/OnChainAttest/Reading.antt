-- ===== src/OnChainAttest/Reading.antt =====
-- The submission and the read of the contract in OnChainAttest.tsx: what they leave in the state.
use zkredit.Prelude.{ℕ, ◌≡◌, refl, String, Option, some}
use zkredit.Effects.Json.{Json, property, text_of}
use zkredit.Effects.Sync.{ok}
use zkredit.Effects.Io.{Io, ◌>>◌, modify}
use zkredit.Effects.Browser.{Http, Clock, Wallet, Chain, Simulation, simulation_error, no_result}
use zkredit.Effects.Lift.{update, lift_clock, lift_chain, lift_wallet}
use zkredit.Effects.Safe.{bind-eq-ok}
use zkredit.Effects.Steady.{Steady, steady_rules}
use zkredit.Freighter.{Network}
use zkredit.Rpc.{simulate_contract_call, simulated, submit_cosigned_attestation}
use zkredit.Contracts.{Runtime, AttestationData}
use zkredit.Contracts.Client.{get_attestation}
use zkredit.OnChainAttest.{State, signing, submitting, reading}
use zkredit.OnChainAttest.Flow.{set_phase, set_tx_hash, submit_and_read}

module _ {W : Type 0} (runtime : Runtime) (network : Network) (wallet : Wallet W) (clock : Clock W)
    (chain : Chain W) where
  -- The calls of the flow, with the page's state beside their world.
  abbrev pub submitting_call : ℕ → String → Json → Io (State × W) String
  submitting_call fuel address result =
      submit_cosigned_attestation network (lift_wallet wallet) (lift_clock clock) (lift_chain chain)
        fuel (text_of (property "partial_xdr" result)) address

  abbrev pub reading_call : String → Io (State × W) (Option AttestationData)
  reading_call address =
      get_attestation runtime network (lift_wallet wallet) (lift_clock clock) (lift_chain chain)
        address

  module _ (I : State → Type 0) where
    simulated-Steady : (sim : Simulation) → Steady I (simulated {W = State × W} sim)
    simulated-Steady (simulation_error text) = record { at = λ s w h. h }
    simulated-Steady no_result = record { at = λ s w h. h }
    simulated-Steady (Simulation.result v) = record { at = λ s w h. h }

    reading_call-Steady : (address : String) → Steady I (reading_call address)
    unfolding get_attestation simulate_contract_call
    reading_call-Steady address = search (steady_rules, simulated-Steady) depth 10

  -- What is left behind a submission and a read that return.
  abbrev pub IsRead : ℕ → String → Json → Option AttestationData → State → Type 0
  IsRead fuel address result att s =
      (hash : String) × (x : State × W) × (y : State × W) × (s.tx_hash ≡ some hash)
      × ((submitting_call fuel address result x).0 ≡ ok hash)
      × ((reading_call address y).0 ≡ ok att)

  module _ (http : Http W) (api_url : String) (on_connected : String → W → W) where
    pub submit_and_read-IsRead :
        (fuel : ℕ) (address : String) (result : Json) (att : Option AttestationData) (x : State × W)
        → (submit_and_read runtime network http wallet clock chain api_url on_connected fuel address
            result x).0
          ≡ ok att
        → IsRead fuel address result att
            (submit_and_read runtime network http wallet clock chain api_url on_connected fuel
              address result x).1.0
    unfolding submit_and_read
    submit_and_read-IsRead fuel address result att (s, w) h =
        let begun : State × W = (set_phase submitting (set_phase signing s), w) in
        let (hash, sent, final) =
          bind-eq-ok (submitting_call fuel address result)
            (λ hash.
              modify (update (set_tx_hash hash))
              >> (modify (update (set_phase reading)) >> reading_call address))
            begun att h in
        let (t, u) = (submitting_call fuel address result begun).1 in
        let there : State × W = (set_phase reading (set_tx_hash hash t), u) in
        let kept =
          (reading_call-Steady (λ r. r.tx_hash ≡ some hash) address).at there.0 there.1 refl in
        rw final (hash, begun, there, kept, sent, (rw final at h))
