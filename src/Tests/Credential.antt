-- ===== src/Tests/Credential.antt =====
-- The contract clients and the attestation flow: the theorems at concrete inputs.
use zkredit.Prelude.{◌≡◌, refl, String, arith}
use zkredit.Effects.Sync.{ok}
use zkredit.Contracts.{AttestationData, parse_attestation_data}
use zkredit.Contracts.Attestations.{IsAttested, Shows, to_native, parse_attestation_data-to_native}
use zkredit.OnChainAttest.Flow.{attest}
use zkredit.OnChainAttest.Settles.{Settled, attest-settles}
use zkredit.Tests.World.{
  World, test_runtime, test_network, test_clock, test_wallet, test_chain, test_runs, test_http,
  test_attested, start,
}

test_attested-IsAttested : IsAttested test_attested
test_attested-IsAttested = record {
  full = (omega arith, (omega arith, tt));
  distilled = (omega arith, tt);
  proof = (omega arith, tt);
  commitment = (omega arith, tt);
}

parse_attestation_data-to_native_example :
    (d : AttestationData) × (parse_attestation_data test_runtime (to_native test_attested) ≡ ok d)
    × Shows d test_attested
parse_attestation_data-to_native_example =
    parse_attestation_data-to_native test_runtime test_attested test_attested-IsAttested

abbrev no_listener : String → World → World
no_listener address w = w

attest-settles_example :
    Settled test_runtime test_network test_http test_wallet test_clock test_chain "" no_listener
      test_runs 3 21 "GABC"
      (attest test_runtime test_network test_http test_wallet test_clock test_chain "" no_listener 3
        21
        (start, 0))
attest-settles_example =
    attest-settles test_runtime test_network test_http test_wallet test_clock test_chain ""
      no_listener test_runs 3 21 start 0 "GABC" (omega arith) refl refl
