-- ===== src/Tests/Pages.antt =====
-- The pages: the theorems at concrete inputs.
use zkredit.Prelude.{String, false, none, some, [], All}
use zkredit.Effects.Io.{returns}
use zkredit.IdentityProof.{IdentityProof}
use zkredit.IdentityProof.Proving.{Prover}
use zkredit.Contracts.{default_terms}
use zkredit.Identity as Identity
use zkredit.Lending as Lending
use zkredit.Lending.{can_borrow, execute_for}
use zkredit.TryAttestation as TryAttestation
use zkredit.TryAttestation.{run_attestation}
use zkredit.TryAttestation.Messages.{Ended, run_attestation-ends}
use zkredit.Docs.{DocPage}
use zkredit.Docs.Pages.{doc_page, sidebar}
use zkredit.Docs.Visits.{Leads, Settles, doc_page-Settles}
use zkredit.Tests.World.{World, test_network, test_clock, test_wallet, test_http}

abbrev account : String
account = "GAAAAAAAAAAAAAAAAAAAAAAAAAAAAAAAAAAAAAAAAAAAAAAAAAAAAWHF"

abbrev test_prover : Prover World
test_prover = record {
  import_snarkjs = λ t. (returns tt, t);
  random_bytes = λ n t. (returns [], t);
  sha_256 = λ text t. (returns [], t);
  full_prove = λ secret wallet t.
      (returns (record { pi_a = []; pi_b = []; pi_c = []; public_signals = [] }), t);
}

abbrev pub linked_page : Identity.State
linked_page = record {
  identity = none;
  generating = false;
  gen_error = none;
  address = some "GABC";
  connect_error = none;
  linked_wallets = none;
  linked_error = none;
  link_busy = none;
  link_tx_hash = some "abcd";
  link_error = none;
  membership_warning = none;
}

abbrev some_identity : IdentityProof
some_identity = record { secret_dec = "5"; commitment_hex = "ab"; proof_bytes = [] }

abbrev lending_page : Lending.State
lending_page = record {
  address = "GABC";
  loading = false;
  terms = some default_terms;
  attestation = none;
  looked_up_address = some "GABC";
  connected_address = some "GABC";
  error = none;
  executing = false;
  tx_hash = none;
  exec_error = none;
}

abbrev preview_page : TryAttestation.State
preview_page = record {
  address = account;
  phase = TryAttestation.idle;
  step = 0;
  error_message = "";
  attestation = none;
  attestation_record = none;
  features = none;
  features_unavailable = false;
  model_info = none;
  timer = false;
}

run_attestation-ends_example :
    Ended test_network test_wallet test_http test_clock "" ""
      (λ t. t)
      (λ t. "now")
      (λ a t. t)
      (run_attestation test_network test_wallet test_http test_clock "" ""
        (λ t. t)
        (λ t. "now")
        (λ a t. t)
        3
        account
        (preview_page, 0))
run_attestation-ends_example =
    run_attestation-ends test_network test_wallet test_http test_clock "" "" (λ t. t) (λ t. "now")
      (λ a t. t) 3 account preview_page 0

abbrev page_of : String → String → String → String → DocPage
page_of slug title description content = record {
  slug = slug;
  title = title;
  description = description;
  content = content;
}

abbrev introduction : DocPage
introduction = page_of "get-started/introduction" "Introduction" "What ZKredit is" "introduction"

abbrev how_it_works : DocPage
how_it_works =
    page_of "get-started/how-it-works" "How It Works"
      "The four pieces that compose the system, end to end" "howItWorks"

doc_page-Settles_example : Settles (doc_page (some "guides/moved")) × All Leads sidebar
doc_page-Settles_example = doc_page-Settles (some "guides/moved")
