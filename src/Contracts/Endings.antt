-- ===== src/Contracts/Endings.antt =====
-- How the calls of the contract clients can end, and the loan terms of mock-lending-pool.ts.
use zkredit.Prelude.{
  ℕ, ◌≤◌, ◌≡◌, ◌⊎◌, refl, String, true, false, Option, none, some, List, Bool-cases, inl, inr,
  length, ◌==◌,
}
use zkredit.Prelude.Int.{ℤ}
use zkredit.Bytes.{from_hex}
use zkredit.BigInt.{big_int, converted}
use zkredit.Effects.Browser.{
  Native, undefined, null, bool, num, big, text, raw, Retval, Chain, Clock, Wallet,
}
use zkredit.Effects.Sync.{Result, ok, thrown, pending, ◌>>=◌}
use zkredit.Effects.Io.{pure}
use zkredit.Effects.Safe.{
  Outcome, Safe, IsPlain, safe_rules, Safe-try_catch, Safe-pure, Safe-sync, Safe-returns,
}
use zkredit.Freighter.{Network}
use zkredit.Rpc.Waiting.{Runs}
use zkredit.Rpc.Endings.{simulate_contract_call-Safe, invoke_contract_call-Safe}
use zkredit.Contracts.{
  Runtime, LoanOffer, get_field, to_boolean, to_string, hex_of, commitment_of,
  parse_attestation_data, parsed, parse_terms, checked_commitment, commitment_sc_val, default_terms,
}
use zkredit.Contracts.Client.{
  is_lending_deployed, get_attestation, get_group_attestation, register_wallet, leave_group,
  terms_of, read_terms, terms_or_default, get_loan_terms, execute_loan,
}

abbrev Plain {ℓ} : {A : Type ℓ} → Result A → Type 0
Plain r = Outcome IsPlain ⊥ r

Plain-bind {ℓ κ} :
    {A : Type ℓ} {B : Type κ} (r : Result A) (f : A → Result B)
    → Plain r
    → ((a : A) → Plain (f a))
    → Plain (r >>= f)
Plain-bind (ok a) f h k = k a
Plain-bind (thrown e) f h k = h
Plain-bind pending f h k = h

converted-Plain : (t : String) (n : Option ℤ) → Plain (converted t n)
converted-Plain t none = tt
converted-Plain t (some n) = tt

big_int-Plain : (t : String) → Plain (big_int t)
unfolding big_int
big_int-Plain t = converted-Plain t _

checked_commitment-Plain : (bytes : Option (List ℕ)) → Plain (checked_commitment bytes)
checked_commitment-Plain none = tt
checked_commitment-Plain (some bs) = elim (Bool-cases (length bs == 32)) [
  | inl right ↦ rw right tt
  | inr wrong ↦ rw wrong tt
]

commitment_sc_val-Plain : (commitment : String) → Plain (commitment_sc_val commitment)
unfolding commitment_sc_val
commitment_sc_val-Plain commitment = checked_commitment-Plain (from_hex commitment)

module _ (runtime : Runtime) where
  hex_of-Plain : (v : Native) → Plain (hex_of runtime v)
  hex_of-Plain undefined = tt
  hex_of-Plain null = tt
  hex_of-Plain (bool b) = tt
  hex_of-Plain (num n) = tt
  hex_of-Plain (big n) = tt
  hex_of-Plain (text t) = tt
  hex_of-Plain (raw bs) = tt

  commitment_of-Plain : (v : Native) → Plain (commitment_of runtime v)
  unfolding commitment_of
  commitment_of-Plain v = elim (Bool-cases (to_boolean v)) [
    | inl there ↦ rw there (Plain-bind (hex_of runtime v) _ (hex_of-Plain v) (λ _. tt))
    | inr missing ↦ rw missing tt
  ]

  ruleset plain_rules =
      (Plain-bind, hex_of-Plain, commitment_of-Plain, big_int-Plain, commitment_sc_val-Plain)

  parse_attestation_data-Plain : (m : Retval) → Plain (parse_attestation_data runtime m)
  unfolding parse_attestation_data
  parse_attestation_data-Plain m = search plain_rules depth 14

  parsed-Plain : (m : Option Retval) → Plain (parsed runtime m)
  parsed-Plain none = tt
  parsed-Plain (some m) =
      Plain-bind (parse_attestation_data runtime m) _ (parse_attestation_data-Plain m) (λ _. tt)

  parse_terms-Plain : (m : Retval) → Plain (parse_terms runtime m)
  unfolding parse_terms
  parse_terms-Plain m =
      Plain-bind (big_int (to_string runtime (get_field "max_principal" m))) _
        (big_int-Plain (to_string runtime (get_field "max_principal" m))) (λ _. tt)

module _ {W : Type 0} (runtime : Runtime) (network : Network) (wallet : Wallet W) (clock : Clock W)
    (chain : Chain W) where
  pub get_attestation-Safe :
      (address : String)
      → Safe IsPlain ⊥ (get_attestation runtime network wallet clock chain address)
  unfolding get_attestation
  get_attestation-Safe address =
      search (safe_rules, simulate_contract_call-Safe, parsed-Plain) depth 8

  pub get_group_attestation-Safe :
      (commitment : String)
      → Safe IsPlain ⊥ (get_group_attestation runtime network wallet clock chain commitment)
  unfolding get_group_attestation
  get_group_attestation-Safe commitment =
      search (safe_rules, simulate_contract_call-Safe, parsed-Plain, commitment_sc_val-Plain) depth
        8

  terms_of-Safe :
      (m : Option Retval) → Safe IsPlain ⊥ (terms_of runtime network wallet clock chain m)
  terms_of-Safe none = Safe-pure default_terms
  terms_of-Safe (some m) = Safe-sync (parse_terms runtime m) (parse_terms-Plain runtime m)

  read_terms-Safe :
      (address : String) → Safe IsPlain ⊥ (read_terms runtime network wallet clock chain address)
  unfolding read_terms
  read_terms-Safe address = search (safe_rules, simulate_contract_call-Safe, terms_of-Safe) depth 8

  terms_or_default-Safe :
      (address : String)
      → Safe (λ _. ⊥) ⊥ (terms_or_default runtime network wallet clock chain address)
  unfolding terms_or_default
  terms_or_default-Safe address =
      Safe-try_catch {P' = IsPlain} (read_terms runtime network wallet clock chain address)
        (λ _. pure default_terms) (read_terms-Safe address) (λ e h. Safe-pure default_terms)

  -- The loan terms of a wallet are some terms if the lending pool is deployed, whatever the wallet
  -- and the server answer; if it is not, they are null and the world is left as it is.
  pub get_loan_terms-answers :
      (address : String) (w : W)
      → ((is_lending_deployed network ≡ true)
          × (terms : LoanOffer) × ((get_loan_terms runtime network wallet clock chain address w).0
              ≡ ok (some terms)))
        ⊎ ((is_lending_deployed network ≡ false)
            × (get_loan_terms runtime network wallet clock chain address w ≡ (ok none, w)))
  get_loan_terms-answers address w = elim (Bool-cases (is_lending_deployed network)) [
    | inl deployed ↦
        let (terms, e) =
          Safe-returns (terms_or_default runtime network wallet clock chain address)
            (terms_or_default-Safe address) w in
        inl (deployed, terms, unfold get_loan_terms in rw (deployed, e) refl)
    | inr missing ↦ inr (missing, unfold get_loan_terms in rw missing refl)
  ]

  module _ (runs : Runs clock chain) where
    pub register_wallet-Safe :
        (fuel : ℕ) (address commitment : String) (proof_bytes : List ℕ)
        → 21 ≤ fuel
        → Safe IsPlain ⊥
            (register_wallet runtime network wallet clock chain fuel address commitment proof_bytes)
    unfolding register_wallet
    register_wallet-Safe fuel address commitment proof_bytes h =
        search (safe_rules, invoke_contract_call-Safe, commitment_sc_val-Plain) depth 8

    pub leave_group-Safe :
        (fuel : ℕ) (address : String)
        → 21 ≤ fuel
        → Safe IsPlain ⊥ (leave_group runtime network wallet clock chain fuel address)
    unfolding leave_group
    leave_group-Safe fuel address h = search (safe_rules, invoke_contract_call-Safe) depth 8

    pub execute_loan-Safe :
        (fuel : ℕ) (address : String)
        → 21 ≤ fuel
        → Safe IsPlain ⊥ (execute_loan runtime network wallet clock chain fuel address)
    unfolding execute_loan
    execute_loan-Safe fuel address h = search (safe_rules, invoke_contract_call-Safe) depth 8
