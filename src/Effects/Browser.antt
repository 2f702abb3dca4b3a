-- ===== src/Effects/Browser.antt =====
-- What the client asks of the world around it, as an interface: `fetch`, timers, the Freighter
-- extension and the Soroban RPC server. Nothing is assumed of an answer but its type.
use zkredit.Prelude.{ℕ, String, Bool, Option, List}
use zkredit.Effects.Errors.{Foreign}
use zkredit.Effects.Json.{Json}
use zkredit.Effects.Io.{Reply}

pub record Request : Type 0 where
  pub method : String
  pub path : String
  pub body : Option Json
  -- `credentials: 'include'`
  pub with_credentials : Bool

pub record Response : Type 0 where
  pub is_ok : Bool
  pub status : ℕ
  pub status_text : String
  pub json : Reply Json

-- The answers of @stellar/freighter-api, each with its optional `error`.
pub record Connection : Type 0 where
  pub error : Option Foreign
  pub is_connected : Bool

pub record NetworkDetails : Type 0 where
  pub error : Option Foreign
  pub network : String
  pub network_passphrase : String

pub record Allowed : Type 0 where
  pub error : Option Foreign
  pub is_allowed : Bool

pub record Access : Type 0 where
  pub error : Option Foreign
  pub address : String

pub record Signed : Type 0 where
  pub error : Option Foreign
  pub signed_tx_xdr : String

pub record Wallet (W : Type 0) : Type 0 where
  pub get_network : W → Reply NetworkDetails × W
  pub is_connected : W → Reply Connection × W
  pub is_allowed : W → Reply Allowed × W
  pub set_allowed : W → Reply Allowed × W
  pub request_access : W → Reply Access × W
  pub get_address : W → Reply Access × W
  -- the transaction's XDR, the passphrase and the address
  pub sign_transaction : String → String → String → W → Reply Signed × W

pub record Http (W : Type 0) : Type 0 where
  pub fetch : Request → W → Reply Response × W

-- `Date.now()`, and `setTimeout` as a promise, both in milliseconds.
pub record Clock (W : Type 0) : Type 0 where
  pub now : W → ℕ
  pub delay : ℕ → W → W

pub record Account : Type 0 where
  pub id : String
  pub sequence : String

-- Arguments of a contract call.
pub data ScVal : Type 0 where
  address : String → ScVal
  bytes : List ℕ → ScVal

-- A transaction with one contract call, as `TransactionBuilder` builds it.
pub record Transaction : Type 0 where
  pub source : Account
  pub fee : String
  pub network_passphrase : String
  pub contract_id : String
  pub method : String
  pub args : List ScVal
  pub timeout : ℕ

-- The answer to `sendTransaction`; `error_result` is the text that `JSON.stringify` makes of it.
pub record Sent : Type 0 where
  pub status : String
  pub hash : String
  pub error_result : String

-- `rpc.Api.GetTransactionStatus`
pub data TxStatus : Type 0 where
  not_found success failed : TxStatus

-- Native values that `scValToNative` returns.
pub data Native : Type 0 where
  undefined null : Native
  bool : Bool → Native
  num : ℕ → Native
  big : ℕ → Native
  text : String → Native
  raw : List ℕ → Native

-- A struct, by its field names, or another value.
pub data Retval : Type 0 where
  struct : List (String × Native) → Retval
  native : Native → Retval

pub data Simulation : Type 0 where
  simulation_error : String → Simulation
  no_result : Simulation
  result : Retval → Simulation

-- @stellar/stellar-sdk with a Soroban RPC server.
pub record Chain (W : Type 0) : Type 0 where
  pub get_account : String → W → Reply Account × W
  -- simulates, assembles, and gives the XDR of the prepared transaction
  pub prepare_transaction : Transaction → W → Reply String × W
  pub simulate_transaction : Transaction → W → Reply Simulation × W
  pub send_transaction : String → W → Reply Sent × W
  pub get_transaction : String → W → Reply TxStatus × W
  -- parses an XDR for a passphrase
  pub from_xdr : String → String → Reply String
  -- `new Address(text).toScVal()` and `new Contract(id)`
  pub to_address : String → Reply ScVal
  pub contract : String → Reply (Unit {0})
