-- ===== src/Identity/Flow.antt =====
-- The handlers of frontend/src/pages/Identity.tsx, on the page's state beside the world.
use zkredit.Prelude.{ℕ, String, true, false, Option, none, some, if◌then◌else◌, str_eq}
use zkredit.Effects.Errors.{message_of}
use zkredit.Effects.Json.{Json, null, property}
use zkredit.Effects.Io.{Io, ◌>>=◌, ◌>>◌, pure, throw, modify, try_catch, finally}
use zkredit.Effects.Browser.{Http, Clock, Wallet, Chain}
use zkredit.Effects.Lift.{beside, update, lift_http, lift_clock, lift_wallet, lift_chain}
use zkredit.Freighter.{Network, connect_freighter}
use zkredit.Http.{plain, get_group_members, record_membership}
use zkredit.IdentityProof.{IdentityProof}
use zkredit.IdentityProof.Proving.{Prover, prove_identity}
use zkredit.Contracts.{Runtime}
use zkredit.Contracts.Client.{register_wallet, leave_group}
use zkredit.Identity.{Busy, linking, leaving, State, commitment_of}

abbrev lift_prover : {S W : Type 0} → Prover W → Prover (S × W)
lift_prover prover = record {
  import_snarkjs = beside prover.import_snarkjs;
  random_bytes = λ n. beside (prover.random_bytes n);
  sha_256 = λ text. beside (prover.sha_256 text);
  full_prove = λ secret wallet. beside (prover.full_prove secret wallet);
}

abbrev pub set_linked : Option Json → State → State
set_linked members s = record s { linked_wallets = members }

abbrev pub set_linked_error : Option String → State → State
set_linked_error e s = record s { linked_error = e }

abbrev set_link_error : Option String → State → State
set_link_error e s = record s { link_error = e }

abbrev set_link_busy : Option Busy → State → State
set_link_busy busy s = record s { link_busy = busy }

abbrev pub set_hash : Option String → State → State
set_hash hash s = record s { link_tx_hash = hash }

-- What `link` resets, and what `leave` does.
unfoldable pub begin_link : State → State
begin_link s = record s {
  link_busy = some linking;
  link_error = none;
  link_tx_hash = none;
  membership_warning = none;
}

unfoldable pub begin_leave : State → State
begin_leave s = record s { link_busy = some leaving; link_error = none }

-- `result.members`, where the answer `null` is a TypeError.
abbrev pub members_of : {W : Type 0} → Json → Io W (Option Json)
members_of null = throw (plain "Cannot read properties of null (reading 'members')")
members_of result = pure (property "members" result)

module _ {W : Type 0} (runtime : Runtime) (network : Network) (http : Http W) (wallet : Wallet W)
    (clock : Clock W) (chain : Chain W) (prover : Prover W) (api_url : String) where
  abbrev set : (State → State) → Io (State × W) (Unit {0})
  set f = modify (update f)

  unfoldable pub load_members : String → Io (State × W) (Unit {0})
  load_members commitment = do
    result ← get_group_members (lift_http http) api_url commitment
    members ← members_of result
    set (set_linked members)

  -- The effect on a new commitment, where no later one cancels it.
  abbrev pub on_commitment : Option String → Io (State × W) (Unit {0})
  on_commitment none = set (set_linked none)
  on_commitment (some commitment) =
      if str_eq commitment ""
      then set (set_linked none)
      else try_catch (load_members commitment) (λ e. set (set_linked_error (some (message_of e))))

  abbrev pub refresh_for : Option String → Io (State × W) (Unit {0})
  refresh_for none = pure tt
  refresh_for (some commitment) =
      if str_eq commitment ""
      then pure tt
      else set (set_linked_error none)
        >> try_catch (load_members commitment) (λ e. set (set_linked_error (some (message_of e))))

  unfoldable pub refresh_linked_wallets : Io (State × W) (Unit {0})
  refresh_linked_wallets (s, w) = refresh_for (commitment_of s.identity) (s, w)

  unfoldable pub connect : Io (State × W) (Unit {0})
  connect =
      set (λ s. record s { connect_error = none })
      >> try_catch
          (connect_freighter network (lift_wallet wallet) >>= λ address.
            set (λ s. record s { address = some address }))
          (λ e. set (λ s. record s { connect_error = some (message_of e) }))

  abbrev generate_for : Option String → Io (State × W) (Unit {0})
  generate_for none = set (λ s. record s { gen_error = some "Connect your wallet first." })
  generate_for (some address) =
      if str_eq address ""
      then set (λ s. record s { gen_error = some "Connect your wallet first." })
      else set (λ s. record s { generating = true; gen_error = none })
        >> finally
            (try_catch
              (prove_identity (lift_prover prover) address none >>= λ identity.
                set (λ s. record s { identity = some identity }))
              (λ e. set (λ s. record s { gen_error = some (message_of e) })))
            (set (λ s. record s { generating = false }))

  unfoldable pub generate : Io (State × W) (Unit {0})
  generate (s, w) = generate_for s.address (s, w)

  -- The inner `try` of `link`: the link on the chain stands, whatever the backend answers.
  unfoldable pub record_link : String → IdentityProof → Io (State × W) (Unit {0})
  record_link address identity =
      try_catch
        (record_membership (lift_http http) api_url address identity.commitment_hex >>= λ _.
          refresh_for (some identity.commitment_hex))
        (λ e. set (λ s. record s { membership_warning = some (message_of e) }))

  unfoldable pub register_and_record : ℕ → String → IdentityProof → Io (State × W) (Unit {0})
  register_and_record fuel address identity = do
    hash ←
        register_wallet runtime network (lift_wallet wallet) (lift_clock clock) (lift_chain chain)
          fuel address identity.commitment_hex identity.proof_bytes
    set (set_hash (some hash))
    record_link address identity

  unfoldable pub link_for : ℕ → String → IdentityProof → Io (State × W) (Unit {0})
  link_for fuel address identity =
      set begin_link
      >> finally
          (try_catch (register_and_record fuel address identity)
            (λ e. set (set_link_error (some (message_of e)))))
          (set (set_link_busy none))

  abbrev pub linking_with : ℕ → Option String → Option IdentityProof → Io (State × W) (Unit {0})
  linking_with fuel (some address) (some identity) =
      if str_eq address "" then pure tt else link_for fuel address identity
  linking_with fuel _ _ = pure tt

  unfoldable pub link : ℕ → Io (State × W) (Unit {0})
  link fuel (s, w) = linking_with fuel s.address s.identity (s, w)

  unfoldable pub leave_and_refresh : ℕ → String → Option String → Io (State × W) (Unit {0})
  leave_and_refresh fuel address commitment = do
    hash ←
        leave_group runtime network (lift_wallet wallet) (lift_clock clock) (lift_chain chain) fuel
          address
    set (set_hash (some hash))
    refresh_for commitment

  unfoldable pub leave_for : ℕ → String → Option String → Io (State × W) (Unit {0})
  leave_for fuel address commitment =
      set begin_leave
      >> finally
          (try_catch (leave_and_refresh fuel address commitment)
            (λ e. set (set_link_error (some (message_of e)))))
          (set (set_link_busy none))

  abbrev pub leaving_with : ℕ → Option String → Option String → Io (State × W) (Unit {0})
  leaving_with fuel none commitment = pure tt
  leaving_with fuel (some address) commitment =
      if str_eq address "" then pure tt else leave_for fuel address commitment

  unfoldable pub leave : ℕ → Io (State × W) (Unit {0})
  leave fuel (s, w) = leaving_with fuel s.address (commitment_of s.identity) (s, w)
