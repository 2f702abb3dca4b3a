-- ===== src/Identity/Linking.antt =====
-- What the backend has to say in `link` of Identity.tsx, behind the link on the chain.
use zkredit.Prelude.{◌≡◌, refl, String, Option, none, some, str_eq}
use zkredit.Effects.Errors.{message_of}
use zkredit.Effects.Json.{Json, null}
use zkredit.Effects.Sync.{ok}
use zkredit.Effects.Io.{Io, ◌>>=◌, modify, pure}
use zkredit.Effects.Browser.{Http, Clock, Wallet, Chain, Request}
use zkredit.Effects.Lift.{update, lift_http}
use zkredit.Effects.Safe.{
  safe_rules, IsPlain, Safe, Safe-returns, Safe-try_catch, Safe-if, Safe-pure, Safe-bind,
  Safe-modify,
}
use zkredit.Effects.Steady.{Steady, steady_rules}
use zkredit.Freighter.{Network}
use zkredit.Http.{request_json, record_membership, get_group_members}
use zkredit.IdentityProof.{IdentityProof}
use zkredit.IdentityProof.Proving.{Prover}
use zkredit.Contracts.{Runtime}
use zkredit.Identity.{State}
use zkredit.Identity.Flow.{members_of, load_members, refresh_for, record_link, set_linked_error}

-- The hash of the link, and the error of the link.
abbrev pub HasLink : Option String → Option String → State → Type 0
HasLink hash e s = (s.link_tx_hash ≡ hash) × (s.link_error ≡ e)

module _ {W : Type 0} (http : Http W) (api_url : String) (hash e : Option String) where
  request_json-Steady :
      (label : String) (request : Request)
      → Steady (HasLink hash e) (request_json (lift_http {S = State} http) api_url label request)
  unfolding request_json
  request_json-Steady label request = search steady_rules depth 8

  members_of-Steady : (j : Json) → Steady (HasLink hash e) (members_of {W = State × W} j)
  members_of-Steady null = record { at = λ s w h. h }
  members_of-Steady _ = record { at = λ s w h. h }

module _ {W : Type 0} (http : Http W) (api_url : String) where
  request_json-Safe :
      (label : String) (request : Request)
      → Safe IsPlain ⊥ (request_json (lift_http {S = State} http) api_url label request)
  unfolding request_json
  request_json-Safe label request = search safe_rules depth 8

  members_of-Safe : (j : Json) → Safe IsPlain ⊥ (members_of {W = State × W} j)
  members_of-Safe null = record { at = λ w. tt }
  members_of-Safe _ = record { at = λ w. tt }

module _ {W : Type 0} (runtime : Runtime) (network : Network) (http : Http W) (wallet : Wallet W)
    (clock : Clock W) (chain : Chain W) (prover : Prover W) (api_url : String) where
  abbrev recorded : String → IdentityProof → Io (State × W) (Unit {0})
  recorded = record_link runtime network http wallet clock chain prover api_url

  module _ (hash e : Option String) where
    load_members-Steady :
        (commitment : String)
        → Steady
            (HasLink hash e)
            (load_members runtime network http wallet clock chain prover api_url commitment)
    unfolding load_members get_group_members
    load_members-Steady commitment =
        search (steady_rules, request_json-Steady, members_of-Steady) depth 8

    refresh_for-Steady :
        (commitment : Option String)
        → Steady
            (HasLink hash e)
            (refresh_for runtime network http wallet clock chain prover api_url commitment)
    refresh_for-Steady none = record { at = λ s w h. h }
    refresh_for-Steady (some commitment) = search (steady_rules, load_members-Steady) depth 8

    record_link-Steady :
        (address : String) (identity : IdentityProof)
        → Steady (HasLink hash e) (recorded address identity)
    unfolding record_link record_membership
    record_link-Steady address identity =
        search (steady_rules, request_json-Steady, refresh_for-Steady) depth 8

  load_members-Safe :
      (commitment : String)
      → Safe IsPlain ⊥
          (load_members runtime network http wallet clock chain prover api_url commitment)
  unfolding load_members get_group_members
  load_members-Safe commitment = search (safe_rules, request_json-Safe, members_of-Safe) depth 8

  refresh_for-Safe :
      (commitment : String)
      → Safe IsPlain ⊥
          (refresh_for runtime network http wallet clock chain prover api_url (some commitment))
  refresh_for-Safe commitment =
      let shown =
        Safe-try_catch {P = IsPlain} {P' = IsPlain}
          (load_members runtime network http wallet clock chain prover api_url commitment)
          (λ e. modify (update (set_linked_error (some (message_of e)))))
          (load_members-Safe commitment)
          (λ e h. Safe-modify (update (set_linked_error (some (message_of e))))) in
      Safe-if (str_eq commitment "") (pure tt) _ (λ _. Safe-pure tt)
        (λ _.
          Safe-bind (modify (update (set_linked_error none))) _
            (Safe-modify (update (set_linked_error none))) (λ _. shown))

  pub record_link-Safe :
      (address : String) (identity : IdentityProof) → Safe (λ _. ⊥) ⊥ (recorded address identity)
  unfolding record_link record_membership
  record_link-Safe address identity =
      Safe-try_catch {P' = IsPlain}
        (record_membership (lift_http http) api_url address identity.commitment_hex >>= λ _.
          refresh_for runtime network http wallet clock chain prover api_url
            (some identity.commitment_hex))
        (λ e.
          modify (update (λ (s : State). record s { membership_warning = some (message_of e) })))
        (search (safe_rules, request_json-Safe, refresh_for-Safe) depth 8)
        (λ e h.
          Safe-modify
            (update (λ (s : State). record s { membership_warning = some (message_of e) })))

  -- Recording a link with the backend returns, whatever the backend answers, and leaves the page's
  -- transaction hash and link error as they are.
  pub record_link-keeps :
      (address : String) (identity : IdentityProof) (s : State) (w : W)
      → let r = recorded address identity (s, w) in
        (r.0 ≡ ok tt) × (r.1.0.link_tx_hash ≡ s.link_tx_hash) × (r.1.0.link_error ≡ s.link_error)
  record_link-keeps address identity s w =
      let (_, returned) =
        Safe-returns (recorded address identity) (record_link-Safe address identity) (s, w) in
      let (hash, e) =
        (record_link-Steady s.link_tx_hash s.link_error address identity).at s w (refl, refl) in
      (returned, hash, e)
