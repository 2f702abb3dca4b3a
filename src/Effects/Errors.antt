-- ===== src/Effects/Errors.antt =====
-- Values that the client throws: the classes that `instanceof` distinguishes, and the `kind` that
-- freighter.ts, contracts/errors.ts and attestor.ts put on an error (all of frontend/src/lib).
use zkredit.Prelude.{◌<>◌, ℕ, String, str_eq, if◌then◌else◌}

-- `FreighterError['kind']`
pub data FreighterKind : Type 0 where
  extension_missing authorization_failed address_unavailable wrong_network sign_rejected unknown :
      FreighterKind

-- `ContractRpcError['kind']`
pub data RpcKind : Type 0 where
  source_account_unavailable submit_failed submit_timeout chain_failed : RpcKind

-- `AttestationPrepareError['kind']`
pub data PrepareKind : Type 0 where
  api_unreachable session_failed prepare_unavailable job_status_unavailable : PrepareKind
  job_failed rate_limited already_attested request_failed : PrepareKind

-- The class whose constructor made an error object.
pub data ErrorClass : Type 0 where
  base_error api_error freighter_error contract_rpc_error attestation_prepare_error : ErrorClass

-- The property that was set on an error object, if any.
pub data Kind : Type 0 where
  no_kind : Kind
  status : ℕ → Kind
  freighter : FreighterKind → Kind
  rpc : RpcKind → Kind
  prepare : PrepareKind → Kind

-- An error object, or another value, given by what `String` makes of it.
pub data Exception : Type 0 where
  error : ErrorClass → Kind → String → Exception
  value : String → Exception

-- What a third party throws: it has no access to the client's classes.
pub data Foreign : Type 0 where
  error_object : String → Foreign
  bare : String → Foreign

abbrev pub to_exception : Foreign → Exception
to_exception (error_object message) = error base_error no_kind message
to_exception (bare text) = value text

-- `String(e instanceof Error ? e.message : e)`
abbrev pub message_of : Exception → String
message_of (error c k message) = message
message_of (value text) = text

-- `String(e)`; no class of the client sets a `name`.
abbrev pub string_of : Exception → String
string_of (error c k message) = if str_eq message "" then "Error" else "Error: " <> message
string_of (value text) = text
