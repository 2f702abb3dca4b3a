-- ===== src/OnChainAttest/Connecting.antt =====
-- How `connect` of OnChainAttest.tsx ends.
use zkredit.Prelude.{◌≡◌, ◌⊎◌, inl, inr, refl, String, none, some}
use zkredit.Effects.Sync.{Result-cases, ok}
use zkredit.Effects.Io.{Io, ◌>>=◌, modify}
use zkredit.Effects.Browser.{Http, Clock, Wallet, Chain}
use zkredit.Effects.Lift.{update, lift_wallet}
use zkredit.Effects.Safe.{Safe, IsPlain, safe_rules, bind-eq-ok}
use zkredit.Freighter.{Network, connect_freighter}
use zkredit.Freighter.Laws.{connect_freighter-Safe}
use zkredit.Contracts.{Runtime}
use zkredit.OnChainAttest.{idle, connecting, State}
use zkredit.OnChainAttest.Flow.{set_phase, set_error, notify, try_connect, connect}
use zkredit.OnChainAttest.Settles.{IsFailed, IsFailed-fail_with}

-- The wallet is there, and nothing is going on.
pub record IsConnected (s : State) : Type 0 where
  pub phase : s.phase ≡ idle
  pub wallet : (address : String) × (s.wallet ≡ some address)

module _ {W : Type 0} (runtime : Runtime) (network : Network) (http : Http W) (wallet : Wallet W)
    (clock : Clock W) (chain : Chain W) (api_url : String) (on_connected : String → W → W) where
  abbrev tried : Io (State × W) (Unit {0})
  tried = try_connect runtime network http wallet clock chain api_url on_connected

  tried-Safe : Safe IsPlain ⊥ tried
  unfolding try_connect
  tried-Safe = search (safe_rules, connect_freighter-Safe) depth 8

  tried-IsConnected :
      (x : State × W) (u : Unit {0}) → (tried x).0 ≡ ok u → IsConnected (tried x).1.0
  unfolding try_connect
  tried-IsConnected x u h =
      let (address, _, final) =
        bind-eq-ok (connect_freighter network (lift_wallet wallet))
          (λ address. modify (update (λ (s : State). record s { wallet = some address })) >>= λ _.
            (modify (notify runtime network http wallet clock chain api_url on_connected address)
              >>= λ _. modify (update (set_phase idle))))
          x u h in
      rw final (record { phase = refl; wallet = (address, refl) })

  -- `connect` returns for all answers of the extension, and then the page is idle with a wallet,
  -- or shows an error whose title is "Attestation failed".
  pub connect-settles :
      (s : State) (w : W)
      → ((connect runtime network http wallet clock chain api_url on_connected (s, w)).0 ≡ ok tt)
        × (IsConnected
              (connect runtime network http wallet clock chain api_url on_connected (s, w)).1.0
            ⊎ IsFailed
                (connect runtime network http wallet clock chain api_url on_connected (s, w)).1.0)
  unfolding connect
  connect-settles s w =
      let begun = set_phase connecting (set_error none s) in
      let safe = tried-Safe.at (begun, w) in
      elim (Result-cases (tried (begun, w)).0) [
        | inl (u, fine) ↦
            let there = tried-IsConnected (begun, w) u fine in rw fine (refl, inl there)
        | inr (inl (x, broken)) ↦ rw broken (refl, inr (IsFailed-fail_with x _ (rw broken at safe)))
        | inr (inr never) ↦ absurd (rw never at safe)
      ]
