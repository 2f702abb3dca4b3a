-- ===== src/Tests/World.antt =====
-- A world that is the time in milliseconds, and what it answers.
use zkredit.Prelude.{ℕ, ◌+◌, true, false, none, some, [], ◌∷◌, ltb, if◌then◌else◌, arith}
use zkredit.Effects.Json.{Json, str, obj, end, field}
use zkredit.Effects.Io.{returns}
use zkredit.Effects.Browser.{
  Response, Http, Clock, Wallet, Chain, address, not_found, success, result,
}
use zkredit.Freighter.{Network}
use zkredit.Rpc.Waiting.{Runs}
use zkredit.Contracts.{Runtime, nan}
use zkredit.Contracts.Attestations.{Attested, to_native}
use zkredit.OnChainAttest.{State, idle}

abbrev pub World : Type 0
World = ℕ

abbrev pub test_network : Network
test_network = record {
  rpc_url = "https://rpc";
  passphrase = "Public Global Stellar Network ; September 2015";
  risk_attestation = "CRISK";
  attestor_registry = "CREG";
  mock_lending_pool = "CPOOL";
  wallet_identity = "CWID";
}

abbrev pub test_runtime : Runtime
test_runtime = record { buffer_text = λ _. ""; number_of_text = λ _. nan; text_digits = λ _. "" }

abbrev pub test_clock : Clock World
test_clock = record { now = λ t. t; delay = λ ms t. t + ms }

abbrev pub test_wallet : Wallet World
test_wallet = record {
  get_network = λ t. (
    returns (record {
      error = none;
      network = "PUBLIC";
      network_passphrase = "Public Global Stellar Network ; September 2015";
    }),
    t,
  );
  is_connected = λ t. (returns (record { error = none; is_connected = true }), t);
  is_allowed = λ t. (returns (record { error = none; is_allowed = true }), t);
  set_allowed = λ t. (returns (record { error = none; is_allowed = true }), t);
  request_access = λ t. (returns (record { error = none; address = "GABC" }), t);
  get_address = λ t. (returns (record { error = none; address = "GABC" }), t);
  sign_transaction =
      λ tx passphrase from t. (returns (record { error = none; signed_tx_xdr = "signed" }), t);
}

abbrev pub test_attested : Attested
test_attested = record {
  wallet = "GABC";
  risk_bucket = 2;
  confidence = 8500;
  full_model_hash = 1 ∷ 171 ∷ [];
  distilled_model_hash = 2 ∷ [];
  proof_or_hash = 255 ∷ [];
  zk_verified = true;
  attestor = "GATT";
  issued_at = 1700000000;
  expires_at = 1800000000;
  kyc_verified = false;
  identity_commitment = some (7 ∷ []);
}

-- A transaction is found 3 seconds after the start of time.
abbrev pub test_chain : Chain World
test_chain = record {
  get_account = λ id t. (returns (record { id = id; sequence = "1" }), t);
  prepare_transaction = λ tx t. (returns "prepared", t);
  simulate_transaction = λ tx t. (returns (result (to_native test_attested)), t);
  send_transaction =
      λ tx t. (returns (record { status = "PENDING"; hash = "abcd"; error_result = "" }), t + 100);
  get_transaction = λ hash t. (returns (if ltb t 3000 then not_found else success), t + 10);
  from_xdr = λ xdr passphrase. returns xdr;
  to_address = λ a. returns (address a);
  contract = λ id. returns tt;
}

abbrev pub test_runs : Runs test_clock test_chain
test_runs = record {
  delayed = λ ms t. omega arith;
  sent = λ tx t. omega arith;
  asked = λ hash t. omega arith;
}

abbrev pub queued_job : Json
queued_job = obj (field "job_id" (str "j1") (field "status" (str "queued") end))

abbrev pub finished_fields : Json
finished_fields = obj (field "partial_xdr" (str "AAAA") end)

abbrev pub finished_job : Json
finished_job = obj (
    field "job_id" (str "j1")
      (field "status" (str "succeeded") (field "result" finished_fields end)))

abbrev pub json_answer : Json → Response
json_answer j = record { is_ok = true; status = 200; status_text = "OK"; json = returns j }

-- The job is queued at first, and finished from the second on.
abbrev pub test_http : Http World
test_http = record {
  fetch = λ request t.
      (returns (json_answer (if ltb t 1000 then queued_job else finished_job)), t + 10);
}

abbrev pub start : State
start = record {
  wallet = some "GABC";
  phase = idle;
  error = none;
  tx_hash = none;
  attestation = none;
  prepared = none;
  prepare_meta = none;
  queue_state = none;
  result_in = false;
}
