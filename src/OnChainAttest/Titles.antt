-- ===== src/OnChainAttest/Titles.antt =====
-- What `describeError` of OnChainAttest.tsx says about errors.
use zkredit.Prelude.{◌≡◌, refl}
use zkredit.Effects.Errors.{
  Exception, error, value, base_error, api_error, freighter_error, contract_rpc_error,
  attestation_prepare_error,
}
use zkredit.Effects.Safe.{IsPlain}
use zkredit.OnChainAttest.{describe_error}

-- A plain error is described by the general title.
pub describe_error-IsPlain :
    (e : Exception) → IsPlain e → (describe_error e).title ≡ "Attestation failed"
unfolding describe_error
describe_error-IsPlain (error base_error kind message) h = refl
describe_error-IsPlain (error api_error kind message) h = absurd h
describe_error-IsPlain (error freighter_error kind message) h = absurd h
describe_error-IsPlain (error contract_rpc_error kind message) h = absurd h
describe_error-IsPlain (error attestation_prepare_error kind message) h = absurd h
describe_error-IsPlain (value text) h = refl
