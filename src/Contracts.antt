-- ===== src/Contracts.antt =====
-- frontend/src/lib/contracts: the values of types.ts, and how risk-attestation.ts, wallet-identity.ts
-- and mock-lending-pool.ts read and write what a Soroban contract returns and takes.
pub mod Client
pub mod Attestations
pub mod Membership
pub mod Endings
use zkredit.Prelude.{
  ℕ, ◌+◌, ◌==◌, String, Bool, true, false, not, Option, none, some, List, [], ◌∷◌, show, ◌<>◌,
  if◌then◌else◌, str_eq, length,
}
use zkredit.Prelude.Int.{ℤ, pos}
use zkredit.Bytes.{to_hex, from_hex}
use zkredit.BigInt.{big_int}
use zkredit.Effects.Errors.{Exception}
use zkredit.Effects.Sync.{Result, ok, thrown, pending, ◌>>=◌}
use zkredit.Effects.Browser.{
  Account, ScVal, bytes, Native, undefined, null, bool, num, big, text, raw, Retval, struct, native,
  Chain, Clock, Wallet,
}
use zkredit.Http.{plain}

-- A number of JavaScript, as far as it matters: `NaN`, a natural number, or another by its text.
pub data Number : Type 0 where
  nan : Number
  whole : ℕ → Number
  other : String → Number

-- The conversions of the JavaScript runtime that the clients use on values they do not expect.
pub record Runtime : Type 0 where
  -- `String(buffer)`
  pub buffer_text : List ℕ → String
  -- `Number(text)`
  pub number_of_text : String → Number
  -- the code units' `toString`, padded: `Array.from(text)` in `toHex`
  pub text_digits : String → String

pub record AttestationData : Type 0 where
  pub wallet : String
  pub risk_bucket : Number
  pub confidence : Number
  pub full_model_hash : String
  pub distilled_model_hash : String
  pub proof_or_hash : String
  pub zk_verified : Bool
  pub attestor : String
  pub issued_at : ℤ
  pub expires_at : ℤ
  pub kyc_verified : Bool
  pub identity_commitment : Option String

pub record LoanOffer : Type 0 where
  pub max_principal : ℤ
  pub collateral_ratio_basis_points : Number
  pub apr_basis_points : Number

-- `m.name`; no field is also what another value than a struct has.
unfoldable pub field_of : String → List (String × Native) → Native
field_of name [] = undefined
field_of name ((key, v) ∷ more) = if str_eq key name then v else field_of name more

unfoldable pub get_field : String → Retval → Native
unfolding field_of
get_field name (struct fields) = field_of name fields
get_field name (native v) = undefined

-- `result === null || result === undefined`
abbrev pub as_struct : Option Retval → Option Retval
as_struct none = none
as_struct (some (native null)) = none
as_struct (some (native undefined)) = none
as_struct (some v) = some v

-- `Boolean(x)`
abbrev pub to_boolean : Native → Bool
to_boolean undefined = false
to_boolean null = false
to_boolean (bool b) = b
to_boolean (num n) = not (n == 0)
to_boolean (big n) = not (n == 0)
to_boolean (text t) = not (str_eq t "")
to_boolean (raw bs) = true

module _ (runtime : Runtime) where
  -- `String(x)`
  abbrev pub to_string : Native → String
  to_string undefined = "undefined"
  to_string null = "null"
  to_string (bool true) = "true"
  to_string (bool false) = "false"
  to_string (num n) = show n
  to_string (big n) = show n
  to_string (text t) = t
  to_string (raw bs) = runtime.buffer_text bs

  -- `Number(x)`
  abbrev pub to_number : Native → Number
  to_number undefined = nan
  to_number null = whole 0
  to_number (bool true) = whole 1
  to_number (bool false) = whole 0
  to_number (num n) = whole n
  to_number (big n) = runtime.number_of_text (show n)
  to_number (text t) = runtime.number_of_text t
  to_number (raw bs) = runtime.number_of_text (runtime.buffer_text bs)

  -- `toHex(x as Uint8Array)`: what is no array is one without elements, or has no iterator.
  abbrev pub hex_of : Native → Result String
  hex_of undefined =
      thrown (plain "undefined is not iterable (cannot read property Symbol(Symbol.iterator))")
  hex_of null =
      thrown (plain "object null is not iterable (cannot read property Symbol(Symbol.iterator))")
  hex_of (bool b) = ok ""
  hex_of (num n) = ok ""
  hex_of (big n) = ok ""
  hex_of (text t) = ok (runtime.text_digits t)
  hex_of (raw bs) = ok (to_hex bs)

  -- `m.identity_commitment ? toHex(…) : null`
  unfoldable pub commitment_of : Native → Result (Option String)
  commitment_of v = if to_boolean v then (do hex ← hex_of v; ok (some hex)) else ok none

  unfoldable pub parse_attestation_data : Retval → Result AttestationData
  parse_attestation_data m = do
    full ← hex_of (get_field "full_model_hash" m)
    distilled ← hex_of (get_field "distilled_model_hash" m)
    proof ← hex_of (get_field "proof_or_hash" m)
    issued ← big_int (to_string (get_field "issued_at" m))
    expires ← big_int (to_string (get_field "expires_at" m))
    commitment ← commitment_of (get_field "identity_commitment" m)
    ok (record {
      wallet = to_string (get_field "wallet" m);
      risk_bucket = to_number (get_field "risk_bucket" m);
      confidence = to_number (get_field "confidence" m);
      full_model_hash = full;
      distilled_model_hash = distilled;
      proof_or_hash = proof;
      zk_verified = to_boolean (get_field "zk_verified" m);
      attestor = to_string (get_field "attestor" m);
      issued_at = issued;
      expires_at = expires;
      kyc_verified = to_boolean (get_field "kyc_verified" m);
      identity_commitment = commitment;
    })

  -- A result that is null, or a struct to parse.
  abbrev pub parsed : Option Retval → Result (Option AttestationData)
  parsed none = ok none
  parsed (some m) = do attestation ← parse_attestation_data m; ok (some attestation)

  unfoldable pub parse_terms : Retval → Result LoanOffer
  parse_terms m = do
    principal ← big_int (to_string (get_field "max_principal" m))
    ok (record {
      max_principal = principal;
      collateral_ratio_basis_points = to_number (get_field "collateral_ratio_basis_points" m);
      apr_basis_points = to_number (get_field "apr_basis_points" m);
    })

-- `commitmentScVal`
abbrev pub checked_commitment : Option (List ℕ) → Result ScVal
checked_commitment none = thrown (plain "hex string must have an even number of characters")
checked_commitment (some bs) =
    if length bs == 32
    then ok (bytes bs)
    else thrown (plain "commitment must be 32 bytes (64 hex chars)")

unfoldable pub commitment_sc_val : String → Result ScVal
commitment_sc_val commitment = checked_commitment (from_hex commitment)

abbrev pub default_terms : LoanOffer
default_terms = record {
  max_principal = pos 1000;
  collateral_ratio_basis_points = whole 15000;
  apr_basis_points = whole 1500;
}
