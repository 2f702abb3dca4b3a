-- ===== src/Cosign.antt =====
-- frontend/scripts/cosign-attest.mjs: signing the authorizations of an attestation for both of its
-- parties, submitting it, and waiting for its end. What it prints besides the link is left out.
pub mod Signing
pub mod Submitting
pub mod Preparing
pub mod Running
use zkredit.Prelude.{
  ℕ, zero, suc, ◌+◌, ◌/◌, ◌<>◌, String, true, false, Option, none, some, List, [], ◌∷◌, str_eq,
  trim, ◌||◌, if◌then◌else◌,
}
use zkredit.Effects.Errors.{Foreign, Exception, error, base_error, no_kind, to_exception}
use zkredit.Effects.Sync.{Result, ok, thrown, pending}
use zkredit.Effects.Io.{Io, Reply, ◌>>=◌, ◌>>◌, pure, throw, await, call, sync, modify, try_catch}
use zkredit.Effects.Browser.{Sent, TxStatus, not_found, success, failed, Clock}
use zkredit.Bytes.{to_hex}

pub record Keypair : Type 0 where
  pub public_key : String
  pub raw_public_key : List ℕ

-- Who an authorization is from: the source of the transaction, an account by the bytes of its key, or
-- an address that is no account, of which `accountId` throws.
pub data Credentials : Type 0 where
  from_source : Credentials
  from_account : List ℕ → Credentials
  from_other : Foreign → Credentials

pub data Simulated (Entry : Type 0) : Type 0 where
  simulation_error : String → Simulated Entry
  -- `result?.auth`
  simulated : Option (List Entry) → Simulated Entry

-- @stellar/stellar-sdk with the RPC server of the test network, and its passphrase.
pub record Sdk (W : Type 0) : Type 1 where
  pub Entry : Type 0
  pub Envelope : Type 0
  pub Tx : Type 0
  pub from_secret : String → Reply Keypair
  -- `TransactionEnvelope.fromXDR`
  pub parse_envelope : String → Reply Envelope
  -- the first operation calls a contract
  pub invoke_op : Envelope → Reply (Unit {0})
  pub set_auth : List Entry → Envelope → Envelope
  pub set_time_bounds : ℕ → ℕ → Envelope → Envelope
  -- `TransactionBuilder.fromXDR`
  pub from_envelope : Envelope → Reply Tx
  pub credentials : Entry → Credentials
  -- an entry, its signer, and the last ledger
  pub authorize_entry : Entry → Keypair → ℕ → W → Reply Entry × W
  pub get_latest_ledger : W → Reply ℕ × W
  pub simulate_transaction : Tx → W → Reply (Simulated Entry) × W
  pub assemble_transaction : Tx → Simulated Entry → Reply Tx
  pub sign : Keypair → Tx → Tx
  pub send_transaction : Tx → W → Reply Sent × W
  pub get_transaction : String → W → Reply TxStatus × W

-- `execFileSync` of `stellar keys secret`, and `readFileSync`.
pub record Shell (W : Type 0) : Type 0 where
  pub secret_of : String → W → Reply String × W
  pub read_file : String → W → Reply String × W

-- How the process ends: behind the printed link, or by `process.exit(1)`.
pub data Outcome : Type 0 where
  printed : String → Outcome
  exited : Outcome

-- The envelope of the file, the last ledger of a signature, and what has to be signed.
pub record Discovery {W : Type 0} (sdk : Sdk W) : Type 0 where
  pub envelope : sdk.Envelope
  pub valid_until : ℕ
  pub discovered : List sdk.Entry

abbrev pub failure : String → Exception
failure message = error base_error no_kind message

-- `?? []`
abbrev pub or_none : {A : Type 0} → Option (List A) → List A
or_none none = []
or_none (some entries) = entries

unfoldable pub tx_url : String → String
tx_url hash = "https://stellar.expert/explorer/testnet/tx/" <> hash

module _ {W : Type 0} (shell : Shell W) (sdk : Sdk W) (clock : Clock W) where
  unfoldable pub discovered_of : Simulated sdk.Entry → Result (List sdk.Entry)
  discovered_of (simulation_error e) = thrown (failure ("recording simulation failed: " <> e))
  discovered_of (simulated auth) = ok (or_none auth)

  unfoldable pub checked_simulation : Simulated sdk.Entry → Result (Simulated sdk.Entry)
  checked_simulation (simulation_error e) = thrown (failure ("simulation failed: " <> e))
  checked_simulation (simulated auth) = ok (simulated auth)

  -- A simulation that records who has to authorize the call.
  unfoldable pub discover : String → Io W (Discovery sdk)
  discover unsigned_xdr = do
    envelope ← call (sdk.parse_envelope unsigned_xdr)
    op ← call (sdk.invoke_op envelope)
    sequence ← await sdk.get_latest_ledger
    recording_tx ← call (sdk.from_envelope envelope)
    recording ← await (sdk.simulate_transaction recording_tx)
    discovered ← sync (discovered_of recording)
    pure (record { envelope = envelope; valid_until = sequence + 100; discovered = discovered })

  module _ (source cosigner : Keypair) where
    unfoldable pub signer_for : List ℕ → Keypair
    signer_for account =
        if str_eq (to_hex account) (to_hex cosigner.raw_public_key) then cosigner else source

    unfoldable pub sign_entry : ℕ → sdk.Entry → Io W sdk.Entry
    sign_entry valid_until entry = signed (sdk.credentials entry)
      where
        signed : Credentials → Io W sdk.Entry
        signed from_source = pure entry
        signed (from_account account) =
            await (sdk.authorize_entry entry (signer_for account) valid_until)
        signed (from_other e) = throw (to_exception e)

    unfoldable pub sign_entries : ℕ → List sdk.Entry → Io W (List sdk.Entry)
    sign_entries valid_until [] = pure []
    sign_entries valid_until (entry ∷ more) = do
      signed ← sign_entry valid_until entry
      rest ← sign_entries valid_until more
      pure (signed ∷ rest)

    -- The auth entries of the operation, and time bounds of five minutes from now.
    unfoldable pub authorized : List sdk.Entry → sdk.Envelope → W → sdk.Envelope
    authorized entries envelope w =
        sdk.set_time_bounds 0 (clock.now w / 1000 + 300) (sdk.set_auth entries envelope)

    unfoldable pub assembled : sdk.Envelope → Io W sdk.Tx
    assembled envelope = do
      tx ← call (sdk.from_envelope envelope)
      answer ← await (sdk.simulate_transaction tx)
      sim ← sync (checked_simulation answer)
      prepared ← call (sdk.assemble_transaction tx sim)
      pure (sdk.sign source prepared)

    unfoldable pub cosigned : String → Io W sdk.Tx
    cosigned unsigned_xdr = do
      found ← discover unsigned_xdr
      entries ← sign_entries found.valid_until found.discovered
      (λ w. assembled (authorized entries found.envelope w) w)

  -- `while (got.status === "NOT_FOUND")`
  unfoldable pub wait_for : ℕ → String → TxStatus → Io W TxStatus
  wait_for fuel hash success = pure success
  wait_for fuel hash failed = pure failed
  wait_for zero hash not_found = λ w. (pending, w)
  wait_for (suc fuel) hash not_found =
      modify (clock.delay 1500) >> (await (sdk.get_transaction hash) >>= wait_for fuel hash)

  unfoldable pub outcome_of : String → TxStatus → Outcome
  outcome_of hash success = printed (tx_url hash)
  outcome_of hash _ = exited

  unfoldable pub submitted : ℕ → sdk.Tx → Io W Outcome
  submitted fuel tx = do
    sent ← await (sdk.send_transaction tx)
    if str_eq sent.status "ERROR" then pure exited else do
      first ← await (sdk.get_transaction sent.hash)
      last ← wait_for fuel sent.hash first
      pure (outcome_of sent.hash last)

  unfoldable pub keypair_for : String → Io W Keypair
  keypair_for alias = do
    secret ← await (shell.secret_of alias)
    call (sdk.from_secret (trim secret))

  unfoldable pub main_for : ℕ → String → String → String → Io W Outcome
  main_for fuel xdr_path source_alias cosigner_alias = do
    source ← keypair_for source_alias
    cosigner ← keypair_for cosigner_alias
    text ← await (shell.read_file xdr_path)
    tx ← cosigned source cosigner (trim text)
    submitted fuel tx

  -- `!xdrPath || !sourceAlias || !cosignerAlias`: further arguments are not looked at.
  unfoldable pub main : ℕ → List String → Io W Outcome
  main fuel (xdr_path ∷ source_alias ∷ cosigner_alias ∷ more) =
      if str_eq xdr_path "" || str_eq source_alias "" || str_eq cosigner_alias ""
      then pure exited
      else main_for fuel xdr_path source_alias cosigner_alias
  main fuel _ = pure exited

  -- The process, with the `catch` of `main`.
  unfoldable pub run : ℕ → List String → Io W Outcome
  run fuel args = try_catch (main fuel args) (λ e. pure exited)
