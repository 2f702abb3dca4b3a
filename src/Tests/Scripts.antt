-- ===== src/Tests/Scripts.antt =====
-- Cosigning with an SDK that has two parties, and the links and marks of the landing page.
use zkredit.Prelude.{
  ℕ, suc, ◌*◌, trim, ◌==◌, ◌≡◌, refl, String, true, some, List, [], ◌∷◌, any, All, str_eq, arith,
  if◌then◌else◌, Bool-cases, inl, inr,
}
use zkredit.Bytes.{IsByte, to_hex}
use zkredit.Effects.Sync.{ok}
use zkredit.Effects.Io.{returns}
use zkredit.Effects.Browser.{TxStatus, not_found, success, Clock}
use zkredit.Cosign.{
  Keypair, Credentials, from_source, from_account, Sdk, Shell, simulated, printed, run, main,
  main_for, keypair_for, cosigned, discover, discovered_of, sign_entries, sign_entry, signer_for,
  assembled, checked_simulation, submitted, wait_for, outcome_of, tx_url, authorized,
}
use zkredit.Cosign.Signing.{HasBytes}
use zkredit.Cosign.Running.{IsDone, run-IsDone}
use zkredit.Landing.{capabilities}
use zkredit.Landing.Panels.{active_at, rounded, marks, last_row, marks-IsWhole}
use zkredit.Landing.Links.{dead_links, site_links, step_links, dead_links-steps}
use zkredit.Routing.{landing, get_site_route}

-- An authorization with the names of those who have signed it.
data Auth : Type 0 where
  of_envelope : Auth
  of_wallet of_attestor : List String → Auth

abbrev auth_credentials : Auth → Credentials
auth_credentials of_envelope = from_source
auth_credentials (of_wallet by) = from_account (1 ∷ [])
auth_credentials (of_attestor by) = from_account (7 ∷ [])

abbrev auth_signed : Auth → Keypair → Auth
auth_signed of_envelope k = of_envelope
auth_signed (of_wallet by) k = of_wallet (k.public_key ∷ by)
auth_signed (of_attestor by) k = of_attestor (k.public_key ∷ by)

abbrev key_of : String → List ℕ
key_of secret = if str_eq secret "ATTESTOR" then 7 ∷ [] else 1 ∷ []

abbrev keypair_of : String → Keypair
keypair_of secret = record { public_key = secret; raw_public_key = key_of secret }

-- The world counts the delays; the transaction is found behind two of them.
abbrev status_at : ℕ → TxStatus
status_at n = if n == 2 then success else not_found

abbrev test_sdk : Sdk ℕ
test_sdk = record {
  Entry = Auth;
  Envelope = List Auth;
  Tx = List Auth;
  from_secret = λ secret. returns (keypair_of secret);
  parse_envelope = λ text. returns [];
  invoke_op = λ envelope. returns tt;
  set_auth = λ entries envelope. entries;
  set_time_bounds = λ from until envelope. envelope;
  from_envelope = λ envelope. returns envelope;
  credentials = auth_credentials;
  authorize_entry = λ entry k valid_until w. (returns (auth_signed entry k), w);
  get_latest_ledger = λ w. (returns 1000, w);
  simulate_transaction =
      λ tx w. (returns (simulated (some (of_envelope ∷ of_wallet [] ∷ of_attestor [] ∷ []))), w);
  assemble_transaction = λ tx sim. returns tx;
  sign = λ k tx. tx;
  send_transaction =
      λ tx w. (returns (record { status = "PENDING"; hash = "c0ffee"; error_result = "" }), w);
  get_transaction = λ hash w. (returns (status_at w), w);
}

abbrev test_shell : Shell ℕ
test_shell = record {
  secret_of =
      λ alias w. (returns (if str_eq alias "attestor" then "ATTESTOR\n" else "WALLET\n"), w);
  read_file = λ path w. (returns "AAAA\n", w);
}

abbrev test_clock : Clock ℕ
test_clock = record { now = λ w. w * 1500; delay = λ ms w. suc w }

from_account-All :
    (known account : List ℕ)
    → All IsByte known
    → from_account known ≡ from_account account
    → All IsByte account
from_account-All known account h e = rw (← same) h
  where
    same : known ≡ account
    same = cc e

returns-All :
    (k l : Keypair)
    → All IsByte k.raw_public_key
    → returns k ≡ returns l
    → All IsByte l.raw_public_key
returns-All k l h e = rw (← same) h
  where
    same : k ≡ l
    same = cc e

key_of-All : (secret : String) → All IsByte (key_of secret)
key_of-All secret = elim (Bool-cases (str_eq secret "ATTESTOR")) [
  | inl e ↦ rw e (omega arith, tt)
  | inr e ↦ rw e (omega arith, tt)
]

account-All :
    (e : Auth) (account : List ℕ) → auth_credentials e ≡ from_account account → All IsByte account
account-All of_envelope account h = cc
account-All (of_wallet by) account h = from_account-All (1 ∷ []) account (omega arith, tt) h
account-All (of_attestor by) account h = from_account-All (7 ∷ []) account (omega arith, tt) h

test_sdk-HasBytes : HasBytes test_sdk
test_sdk-HasBytes = record {
  raw_key = λ secret k e. returns-All (keypair_of secret) k (key_of-All secret) e;
  account_key = account-All;
}

abbrev test_args : List String
test_args = "tx.xdr" ∷ "wallet" ∷ "attestor" ∷ []

abbrev test_url : String
test_url = "https://stellar.expert/explorer/testnet/tx/c0ffee"

run_prints : (run test_shell test_sdk test_clock 5 test_args 0).0 ≡ ok (printed test_url)
unfolding run main main_for keypair_for cosigned discover discovered_of sign_entries sign_entry
    signer_for assembled checked_simulation submitted wait_for outcome_of tx_url authorized to_hex
    trim
run_prints = refl

run-IsDone_example : IsDone test_shell test_sdk test_clock test_args test_url
run-IsDone_example =
    run-IsDone test_shell test_sdk test_clock test_sdk-HasBytes 5 test_args test_url 0 run_prints

marks-IsWhole_example :
    any (λ j. j == 3) (marks last_row (0 ∷ 150000 ∷ 340000 ∷ 500000 ∷ 610000 ∷ 800000 ∷ [])) ≡ true
unfolding active_at rounded last_row capabilities
marks-IsWhole_example =
    marks-IsWhole last_row 0 3 (150000 ∷ 340000 ∷ 500000 ∷ 610000 ∷ 800000 ∷ [])
      (omega arith, (omega arith, (omega arith, (omega arith, (omega arith, tt))))) (omega arith)
      (omega arith)

dead_links-steps_example :
    (dead_links (get_site_route "/attestation/new") (site_links (get_site_route "/attestation/new"))
      ≡ [])
    × (dead_links landing step_links ≡ step_links)
dead_links-steps_example = dead_links-steps "/attestation/new"
