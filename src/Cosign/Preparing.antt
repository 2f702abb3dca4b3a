-- ===== src/Cosign/Preparing.antt =====
-- What frontend/scripts/cosign-attest.mjs submits: the transaction of the file, with what its
-- simulation has recorded signed.
use zkredit.Prelude.{◌≡◌, refl, sym, ap, ◌∙◌, String, Option, List, All}
use zkredit.Effects.Browser.{Clock}
use zkredit.Effects.Sync.{ok}
use zkredit.Effects.Io.{returns, await, call, sync}
use zkredit.Effects.Safe.{bind-answers, settle-ok, ok-injective}
use zkredit.Bytes.{IsByte}
use zkredit.Cosign.{
  Keypair, Sdk, Shell, Simulated, simulated, simulation_error, Discovery, discover, or_none,
  discovered_of, checked_simulation, sign_entries, authorized, assembled, cosigned,
}
use zkredit.Cosign.Signing.{HasBytes, AllSigned, sign_entries-AllSigned}

module _ {W : Type 0} (shell : Shell W) (sdk : Sdk W) (clock : Clock W) where
  -- What the simulation of the file's transaction has recorded.
  abbrev pub IsDiscovered : String → Discovery sdk → Type 0
  IsDiscovered text found =
      (recording_tx : sdk.Tx) × (auth : Option (List sdk.Entry)) × (w : W) × (sdk.parse_envelope
          text
        ≡ returns found.envelope)
      × (sdk.from_envelope found.envelope ≡ returns recording_tx)
      × ((sdk.simulate_transaction recording_tx w).0 ≡ returns (simulated auth))
      × (or_none auth ≡ found.discovered)

  abbrev pub IsAssembled : Keypair → sdk.Envelope → sdk.Tx → Type 0
  IsAssembled source envelope tx =
      (bound_tx : sdk.Tx) × (prepared : sdk.Tx) × (sim : Simulated sdk.Entry) × (sdk.from_envelope
          envelope
        ≡ returns bound_tx)
      × (sdk.assemble_transaction bound_tx sim ≡ returns prepared)
      × (tx ≡ sdk.sign source prepared)

  assembled-IsAssembled :
      (source cosigner : Keypair) (envelope : sdk.Envelope) (tx : sdk.Tx) (w : W)
      → (assembled shell sdk clock source cosigner envelope w).0 ≡ ok tx
      → IsAssembled source envelope tx
  unfolding assembled
  assembled-IsAssembled source cosigner envelope tx w h =
      bind-answers (call (sdk.from_envelope envelope)) _ w tx h (λ bound_tx u built h1.
        bind-answers (await (sdk.simulate_transaction bound_tx)) _ u tx h1 (λ answer v answered h2.
          bind-answers (sync (checked_simulation shell sdk clock answer)) _ v tx h2
            (λ sim x checked h3.
              bind-answers (call (sdk.assemble_transaction bound_tx sim)) _ x tx h3
                (λ prepared y joined h4. (
                  bound_tx,
                  prepared,
                  sim,
                  settle-ok (sdk.from_envelope envelope) bound_tx built,
                  settle-ok (sdk.assemble_transaction bound_tx sim) prepared joined,
                  sym (ok-injective (sdk.sign source prepared) tx h4),
                )))))

  discovered_of-simulated :
      (answer : Simulated sdk.Entry) (entries : List sdk.Entry)
      → discovered_of shell sdk clock answer ≡ ok entries
      → (auth : Option (List sdk.Entry)) × (answer ≡ simulated auth) × (or_none auth ≡ entries)
  unfolding discovered_of
  discovered_of-simulated (simulation_error e) entries h = cc
  discovered_of-simulated (simulated auth) entries h =
      (auth, refl, ok-injective (or_none auth) entries h)

  discover-IsDiscovered :
      (text : String) (found : Discovery sdk) (w : W)
      → (discover shell sdk clock text w).0 ≡ ok found
      → IsDiscovered text found
  unfolding discover
  discover-IsDiscovered text found w h =
      bind-answers (call (sdk.parse_envelope text)) _ w found h (λ envelope w1 parsed h1.
        bind-answers (call (sdk.invoke_op envelope)) _ w1 found h1 (λ op w2 called h2.
          bind-answers (await sdk.get_latest_ledger) _ w2 found h2 (λ sequence w3 latest h3.
            bind-answers (call (sdk.from_envelope envelope)) _ w3 found h3 (λ tx w4 recorded h4.
              bind-answers (await (sdk.simulate_transaction tx)) _ w4 found h4
                (λ answer w5 answered h5.
                  bind-answers (sync (discovered_of shell sdk clock answer)) _ w5 found h5
                    (λ discovered w6 checked h6.
                      let (auth, same, listed) =
                        discovered_of-simulated answer discovered checked in
                      rw (← (ok-injective _ found h6)) (
                        tx,
                        auth,
                        w4,
                        settle-ok (sdk.parse_envelope text) envelope parsed,
                        settle-ok (sdk.from_envelope envelope) tx recorded,
                        settle-ok (sdk.simulate_transaction tx w4).0 answer answered
                            ∙ ap returns same,
                        listed,
                      )))))))

  -- The transaction is the one of the file, with the authorizations of its simulation signed, and is
  -- signed by the source as it was assembled.
  abbrev pub IsCosigned : Keypair → Keypair → String → sdk.Tx → Type 0
  IsCosigned source cosigner text tx =
      (found : Discovery sdk) × (entries : List sdk.Entry) × (w : W) × IsDiscovered text found
      × AllSigned shell sdk clock source cosigner found.valid_until found.discovered entries
      × IsAssembled source (authorized shell sdk clock source cosigner entries found.envelope w) tx

  pub cosigned-IsCosigned :
      (source cosigner : Keypair)
      → HasBytes sdk
      → All IsByte cosigner.raw_public_key
      → (text : String) (tx : sdk.Tx) (w : W)
      → (cosigned shell sdk clock source cosigner text w).0 ≡ ok tx
      → IsCosigned source cosigner text tx
  unfolding cosigned
  cosigned-IsCosigned source cosigner bytes raw_key text tx w h =
      bind-answers (discover shell sdk clock text) _ w tx h (λ found u recorded h1.
        bind-answers
          (sign_entries shell sdk clock source cosigner found.valid_until found.discovered) _ u tx
          h1
          (λ entries v all_signed h2. (
            found,
            entries,
            v,
            discover-IsDiscovered text found w recorded,
            sign_entries-AllSigned shell sdk clock source cosigner bytes raw_key found.valid_until
                found.discovered entries u all_signed,
            assembled-IsAssembled source cosigner
                (authorized shell sdk clock source cosigner entries found.envelope v) tx v h2,
          )))
