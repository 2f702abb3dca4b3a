-- ===== src/Identity/Ends.antt =====
-- How `link` of frontend/src/pages/Identity.tsx ends.
use zkredit.Prelude.{ℕ, ◌≡◌, ◌⊎◌, ◌≤◌, inl, inr, refl, String, none, some}
use zkredit.Effects.Errors.{message_of}
use zkredit.Effects.Sync.{Result-cases, ok}
use zkredit.Effects.Io.{Io, ◌>>=◌, modify}
use zkredit.Effects.Browser.{Http, Clock, Wallet, Chain}
use zkredit.Effects.Lift.{update, lift_wallet, lift_clock, lift_chain}
use zkredit.Effects.Safe.{Safe, IsPlain, safe_rules, bind-eq-ok, Safe-returns}
use zkredit.Freighter.{Network}
use zkredit.IdentityProof.{IdentityProof}
use zkredit.IdentityProof.Proving.{Prover}
use zkredit.Rpc.Waiting.{Runs}
use zkredit.Contracts.{Runtime}
use zkredit.Contracts.Client.{register_wallet}
use zkredit.Contracts.Endings.{register_wallet-Safe}
use zkredit.OnChainAttest.Settles.{Runs-lift}
use zkredit.Identity.{State}
use zkredit.Identity.Flow.{begin_link, set_hash, record_link, register_and_record, link_for}
use zkredit.Identity.Linking.{record_link-keeps, record_link-Safe}

-- A link that is over: a hash, or the message of an error.
pub record IsOver (s : State) : Type 0 where
  pub link_busy : s.link_busy ≡ none
  pub shown :
      ((hash : String) × (s.link_tx_hash ≡ some hash)) ⊎ ((m : String) × (s.link_error ≡ some m))

module _ {W : Type 0} (runtime : Runtime) (network : Network) (http : Http W) (wallet : Wallet W)
    (clock : Clock W) (chain : Chain W) (prover : Prover W) (api_url : String)
    (runs : Runs clock chain) where
  abbrev linked : ℕ → String → IdentityProof → Io (State × W) (Unit {0})
  linked = register_and_record runtime network http wallet clock chain prover api_url

  recorded-Safe :
      (address : String) (identity : IdentityProof)
      → Safe IsPlain ⊥
          (record_link runtime network http wallet clock chain prover api_url address identity)
  recorded-Safe address identity = record {
    at = λ x.
        let (u, e) =
          Safe-returns
            (record_link runtime network http wallet clock chain prover api_url address identity)
            (record_link-Safe runtime network http wallet clock chain prover api_url address
              identity)
            x in
        rw e tt;
  }

  linked-Safe :
      (fuel : ℕ) (address : String) (identity : IdentityProof)
      → 21 ≤ fuel
      → Safe IsPlain ⊥ (linked fuel address identity)
  unfolding register_and_record
  linked-Safe fuel address identity h =
      let lifted = Runs-lift clock chain runs {S = State} in
      search (safe_rules, register_wallet-Safe, recorded-Safe) depth 8

  linked-hash :
      (fuel : ℕ) (address : String) (identity : IdentityProof) (x : State × W) (u : Unit {0})
      → (linked fuel address identity x).0 ≡ ok u
      → (hash : String) × ((linked fuel address identity x).1.0.link_tx_hash ≡ some hash)
  unfolding register_and_record
  linked-hash fuel address identity x u h =
      let (hash, _, final) =
        bind-eq-ok
          (register_wallet runtime network (lift_wallet wallet) (lift_clock clock)
            (lift_chain chain) fuel address identity.commitment_hex identity.proof_bytes)
          (λ hash. modify (update (set_hash (some hash))) >>= λ _.
            record_link runtime network http wallet clock chain prover api_url address identity)
          x u h in
      let (_, kept, _) =
        record_link-keeps runtime network http wallet clock chain prover api_url address identity
          (set_hash (some hash)
            (register_wallet runtime network (lift_wallet wallet) (lift_clock clock)
              (lift_chain chain) fuel address identity.commitment_hex identity.proof_bytes x).1.0)
          (register_wallet runtime network (lift_wallet wallet) (lift_clock clock)
            (lift_chain chain) fuel address identity.commitment_hex identity.proof_bytes x).1.1 in
      (hash, rw final kept)

  -- With a clock that runs and fuel of 21 at least, linking a wallet returns, and then the page is
  -- not busy and shows a transaction hash or the message of an error.
  pub link_for-ends :
      (fuel : ℕ) (address : String) (identity : IdentityProof) (s : State) (w : W)
      → 21 ≤ fuel
      → ((link_for runtime network http wallet clock chain prover api_url fuel address identity
            (s, w)).0
          ≡ ok tt)
        × IsOver
            (link_for runtime network http wallet clock chain prover api_url fuel address identity
              (s, w)).1.0
  unfolding link_for
  link_for-ends fuel address identity s w h =
      let safe = (linked-Safe fuel address identity h).at (begin_link s, w) in
      elim (Result-cases (linked fuel address identity (begin_link s, w)).0) [
        | inl (u, fine) ↦
            let hash = linked-hash fuel address identity (begin_link s, w) u fine in
            rw fine (refl, record { link_busy = refl; shown = inl hash })
        | inr (inl (x, broken)) ↦
            rw broken (refl, record { link_busy = refl; shown = inr (message_of x, refl) })
        | inr (inr never) ↦ absurd (rw never at safe)
      ]
