-- ===== src/Tests/Network.antt =====
-- Requests, polling and submissions: the theorems at concrete inputs.
use zkredit.Prelude.{◌≡◌, ◌≢◌, ◌↔◌, refl, false, none, arith, str_eq}
use zkredit.Effects.Json.{Json, str, end, field, Fields, lookup}
use zkredit.Effects.Sync.{ok, pending}
use zkredit.Effects.Io.{returns}
use zkredit.Effects.Browser.{Sent, not_found, Request}
use zkredit.Effects.Safe.{Safe, IsPlain}
use zkredit.Attestor.{job_result, Phase, PhaseMeta, prepare_attestation, start_prepare_attestation}
use zkredit.Attestor.Job.{IsFinished}
use zkredit.Attestor.Polling.{Found, prepare_attestation-returns_iff}
use zkredit.Rpc.{wait_loop, submit, submit_cosigned_attestation, invoke_contract_call}
use zkredit.Rpc.Waiting.{wait_loop-ends}
use zkredit.Rpc.Success.{submit-success, Seen}
use zkredit.Rpc.Endings.{submit_cosigned_attestation-Safe}
use zkredit.Tests.World.{
  World, test_network, test_clock, test_wallet, test_chain, test_runs, test_http, finished_job,
  queued_job,
}

abbrev no_phase : Phase → PhaseMeta → World → World
no_phase phase meta w = w

abbrev xdr_field : Fields
xdr_field = field "partial_xdr" (str "AAAA") end

finished_job-IsFinished : IsFinished finished_job xdr_field
unfolding lookup
finished_job-IsFinished = record { no_error = refl; status = refl; result = refl; signable = refl }

queued_job-kept : job_result queued_job ≡ ok queued_job
unfolding job_result lookup
queued_job-kept = refl

prepare_attestation-returns_iff_example :
    (prepare_attestation test_http test_clock "" no_phase 3 "GABC" 0 ≡ (ok finished_job, 9)) ↔ (
      (r : Json) × (u : World) × (start_prepare_attestation test_http test_clock "" "GABC" 0
        ≡ (ok r, u))
      × Found test_http test_clock "" no_phase 3 r u finished_job 9)
prepare_attestation-returns_iff_example =
    prepare_attestation-returns_iff test_http test_clock "" no_phase 3 "GABC" 0 finished_job 9

wait_loop-ends_example :
    (wait_loop test_network test_wallet test_clock test_chain 21 30000 "Transaction" "abcd"
      not_found 100).0
    ≢ pending
wait_loop-ends_example =
    wait_loop-ends test_network test_wallet test_clock test_chain "Transaction" "abcd" test_runs 21
      30000 not_found 100 (omega arith)

submitted :
    (submit test_network test_wallet test_clock test_chain 21 "Failed" "Transaction" "signed" 0).0
    ≡ ok "abcd"
unfolding submit
submitted = unfold zkredit.Rpc.await_status wait_loop in refl

submit-success_example :
    (sent : Sent) × ((test_chain.send_transaction "signed" 0).0 ≡ returns sent)
    × (str_eq sent.status "ERROR" ≡ false)
    × ("abcd" ≡ sent.hash)
    × Seen test_network test_wallet test_clock test_chain "abcd"
submit-success_example =
    submit-success test_network test_wallet test_clock test_chain 21 "Failed" "Transaction" "signed"
      "abcd" 0 submitted

submit_cosigned_attestation-Safe_example :
    Safe IsPlain ⊥
      (submit_cosigned_attestation test_network test_wallet test_clock test_chain 21 "AAAA" "GABC")
submit_cosigned_attestation-Safe_example =
    submit_cosigned_attestation-Safe test_network test_wallet test_clock test_chain test_runs 21
      "AAAA" "GABC" (omega arith)

abbrev status_request : Request
status_request = record {
  method = "GET";
  path = "/api/v1/kyc/status/ab";
  body = none;
  with_credentials = false;
}
