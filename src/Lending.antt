-- ===== src/Lending.antt =====
-- frontend/src/pages/Lending.tsx: looking up loan terms, and borrowing.
pub mod Borrowing
pub mod Page
use zkredit.Prelude.{
  ℕ, String, Bool, true, false, not, ◌&&◌, Option, none, some, trim, str_eq, if◌then◌else◌,
}
use zkredit.Effects.Errors.{Exception, message_of}
use zkredit.Effects.Io.{Io, ◌>>=◌, ◌>>◌, pure, modify, try_catch, finally}
use zkredit.Effects.Browser.{Clock, Wallet, Chain}
use zkredit.Effects.Lift.{update, lift_clock, lift_wallet, lift_chain}
use zkredit.Freighter.{Network, connect_freighter}
use zkredit.Contracts.{Runtime, AttestationData, LoanOffer}
use zkredit.Contracts.Client.{get_loan_terms, get_attestation, execute_loan}

-- `attestation` is `undefined` (`none`) before the first lookup, then null or an attestation.
pub record State : Type 0 where
  pub address : String
  pub loading : Bool
  pub terms : Option LoanOffer
  pub attestation : Option (Option AttestationData)
  pub looked_up_address : Option String
  pub connected_address : Option String
  pub error : Option String
  pub executing : Bool
  pub tx_hash : Option String
  pub exec_error : Option String

abbrev pub is_some {ℓ} : {A : Type ℓ} → Option A → Bool
is_some none = false
is_some (some a) = true

abbrev pub same_text : Option String → Option String → Bool
same_text none none = true
same_text (some a) (some b) = str_eq a b
same_text _ _ = false

-- Borrowing is enabled for the connected wallet's own terms only.
unfoldable pub can_borrow : State → Bool
can_borrow s =
    is_some s.connected_address
    && same_text s.looked_up_address s.connected_address
    && is_some s.terms

unfoldable pub begin_lookup : State → State
begin_lookup s = record s { loading = true; error = none; tx_hash = none; exec_error = none }

unfoldable pub show_terms : String → Option LoanOffer → Option AttestationData → State → State
show_terms target terms attestation s = record s {
  terms = terms;
  attestation = some attestation;
  looked_up_address = some target;
}

unfoldable pub begin_execute : State → State
begin_execute s = record s { executing = true; exec_error = none; tx_hash = none }

abbrev pub set_error : Option String → State → State
set_error e s = record s { error = e }

module _ {W : Type 0} (runtime : Runtime) (network : Network) (wallet : Wallet W) (clock : Clock W)
    (chain : Chain W) where
  abbrev set : (State → State) → Io (State × W) (Unit {0})
  set f = modify (update f)

  -- The two reads are made at once there; they do not depend on each other.
  unfoldable pub read_terms : String → Io (State × W) (Unit {0})
  read_terms target = do
    terms ←
        get_loan_terms runtime network (lift_wallet wallet) (lift_clock clock) (lift_chain chain)
          target
    attestation ←
        get_attestation runtime network (lift_wallet wallet) (lift_clock clock) (lift_chain chain)
          target
    set (show_terms target terms attestation)

  unfoldable pub lookup_target : String → Io (State × W) (Unit {0})
  lookup_target target =
      set begin_lookup
      >> finally (try_catch (read_terms target) (λ e. set (set_error (some (message_of e)))))
          (set (λ s. record s { loading = false }))

  unfoldable pub lookup : String → Io (State × W) (Unit {0})
  lookup address = if str_eq (trim address) "" then pure tt else lookup_target (trim address)

  unfoldable pub connect : Io (State × W) (Unit {0})
  connect =
      set (set_error none)
      >> try_catch
          (do
            address ← connect_freighter network (lift_wallet wallet)
            set (λ s. record s { connected_address = some address; address = address })
            lookup address)
          (λ e. set (set_error (some (message_of e))))

  unfoldable pub execute_for : ℕ → String → Io (State × W) (Unit {0})
  execute_for fuel address =
      set begin_execute
      >> finally
          (try_catch
            (execute_loan runtime network (lift_wallet wallet) (lift_clock clock) (lift_chain chain)
                fuel address
              >>= λ hash. set (λ s. record s { tx_hash = some hash }))
            (λ e. set (λ s. record s { exec_error = some (message_of e) })))
          (set (λ s. record s { executing = false }))

  abbrev execute_with : ℕ → Option String → Io (State × W) (Unit {0})
  execute_with fuel none = pure tt
  execute_with fuel (some address) = if str_eq address "" then pure tt else execute_for fuel address

  unfoldable pub execute : ℕ → Io (State × W) (Unit {0})
  execute fuel (s, w) = execute_with fuel s.connected_address (s, w)
