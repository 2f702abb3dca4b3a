-- ===== src/Tests/Groups.antt =====
-- Theorems at concrete inputs: the contract of identity groups, its verifier, and the KYC status.
use zkredit.Prelude.{
  ◌%◌, ◌^◌, ◌<◌, ap, ◌++◌, ◌+◌, show, ℕ, zero, suc, ◌≡◌, refl, true, false, none, some, List, [],
  ◌∷◌, length, arith, if◌then◌else◌, ◌==◌,
}
use zkredit.Host.{◌>>=◌, Run, returned, failed, panicked, nullifier_already_bound}
use zkredit.Bytes.{to_hex}
use zkredit.WalletIdentity.Binding.{Reduces, register_wallet-proved}
use zkredit.IdentityProof.{from_be, bn254_r, addr_to_field_element, IdentityProof}
use zkredit.IdentityProof.Words.{to_be_32-show}
use zkredit.IdentityProof.Proving.{Prover, prove_identity}
use zkredit.Effects.Sync.{Result, ok}
use zkredit.Effects.Io.{returns}
use zkredit.Groth16.{Curve, add_term, verify_groth16, nth_public_input}
use zkredit.Groth16.Equation.{
  Key, IsKey, Proof, IsProof, key_bytes, proof_bytes_of, combine, accepts,
}
use zkredit.Groth16.Refinement.{verify_groth16-accepts}
use zkredit.Groth16.Assembled.{IsAssembled, assemble-verified}
use zkredit.Storage.{find, put, remove, bytes_eq, address_eq}
use zkredit.WalletIdentity.{
  Host, State, constructor, bind_kyc, set_attestor_registry, register_wallet, check_proof,
  require_registered_attestor, leave_group,
}
use zkredit.WalletIdentity.Calls.{
  Call, perform, count_of, Change, sets_attestor_registry, registers_wallet, binds_kyc,
  leaves_group,
}
use zkredit.WalletIdentity.Changes.{perform-Change}
use zkredit.WalletIdentity.Reachable.{
  Reach, here, after, IsConsistent, deployed-IsConsistent, bind_kyc_once,
}
use zkredit.Identity.{KycState}
use zkredit.Identity.KycSteps.{
  Page, starts, changes, mounted, Reach as PageReach, run_effect, ask_about, clean_up,
  here as at_start, next, change_commitment, begin_start,
}
use zkredit.Identity.KycEvents.{IsSound}
use zkredit.Identity.KycSound.{Reach-IsSound}
use zkredit.Tests.Encoding.{small_proof, small, small_assembled}

abbrev pub zeros : ℕ → List ℕ
zeros zero = []
zeros (suc n) = 0 ∷ zeros n

abbrev pub test_curve : Curve
test_curve = record {
  neg = λ a. a;
  add = λ a b. returned b;
  mul = λ a x. returned x;
  pairing_check = λ ps qs. returned (length ps == length qs);
}

abbrev small_key : Key
small_key = record {
  alpha = zeros 64;
  beta = zeros 128;
  gamma = zeros 128;
  delta = zeros 128;
  ic_0 = zeros 64;
  ics = zeros 64 ∷ zeros 64 ∷ [];
}

abbrev small_key-IsKey : IsKey small_key
small_key-IsKey = record {
  alpha_size = refl;
  beta_size = refl;
  gamma_size = refl;
  delta_size = refl;
  ic_0_size = refl;
  ics_size = (refl, (refl, tt));
  count_bound = omega arith;
}

abbrev small_points : Proof
small_points = record {
  a = zeros 64;
  b = zeros 128;
  c = zeros 64;
  inputs = zeros 32 ∷ zeros 32 ∷ [];
}

abbrev small_points-IsProof : IsProof small_points
small_points-IsProof = record {
  a_size = refl;
  b_size = refl;
  c_size = refl;
  inputs_size = (refl, (refl, tt));
  count_bound = omega arith;
}

verify_groth16-accepts_example :
    verify_groth16 test_curve (key_bytes small_key) (proof_bytes_of small_points)
    ≡ (if 2 == 2 then accepts test_curve small_key small_points else panicked)
verify_groth16-accepts_example =
    verify_groth16-accepts test_curve small_key small_points small_key-IsKey small_points-IsProof

assemble-verified_example :
    (p : Proof) × IsAssembled small_proof p
    × (verify_groth16 test_curve (key_bytes small_key) small.proof_bytes
        ≡ (if 2 == length p.inputs then accepts test_curve small_key p else panicked))
    × (word : List ℕ) × (nth_public_input small.proof_bytes 0 ≡ returned word)
    × (small.commitment_hex ≡ to_hex word)
assemble-verified_example =
    assemble-verified test_curve small_key "5" small_proof small small_key-IsKey (omega arith)
      small_assembled.1

-- Everyone has authorised everything, and every proof is accepted.
abbrev pub test_host : Host
test_host = record {
  authorized = λ a. true;
  is_attestor = λ registry a. true;
  sha256 = λ a. zeros 32;
  reduced = λ b. b;
  curve = test_curve;
}

abbrev pub value_or : State → Run State → State
value_or s (returned t) = t
value_or s (failed e) = s
value_or s panicked = s

abbrev performed : Call → State → State
performed call s = value_or s (perform test_host call s)

abbrev pub deployed : State
deployed = constructor "GADMIN"

abbrev wired : State
wired = performed (sets_attestor_registry "CREGISTRY") deployed

abbrev with_member : State
with_member = performed (registers_wallet "GA" (1 ∷ []) []) wired

abbrev with_kyc : State
with_kyc = performed (binds_kyc "GATTESTOR" (1 ∷ []) (7 ∷ [])) with_member

abbrev without_member : State
without_member = performed (leaves_group "GA") with_kyc

with_kyc-Reach : Reach deployed with_kyc
unfolding perform set_attestor_registry constructor register_wallet check_proof find put bind_kyc
    require_registered_attestor
with_kyc-Reach =
    after
      (after (after here test_host (sets_attestor_registry "CREGISTRY") refl) test_host
        (registers_wallet "GA" (1 ∷ []) []) refl)
      test_host (binds_kyc "GATTESTOR" (1 ∷ []) (7 ∷ [])) refl

deployed-IsConsistent_example : IsConsistent with_kyc
deployed-IsConsistent_example = deployed-IsConsistent "GADMIN" with_kyc with_kyc-Reach

perform-Change_example : Change test_host with_kyc without_member
unfolding perform leave_group find put remove bind_kyc require_registered_attestor register_wallet
    check_proof set_attestor_registry constructor
perform-Change_example = perform-Change test_host with_kyc (leaves_group "GA") refl

bind_kyc_once_example :
    (bind_kyc test_host "GATTESTOR" (2 ∷ []) (7 ∷ []) without_member
      ≡ failed nullifier_already_bound)
    × (bind_kyc test_host "GATTESTOR" (1 ∷ []) (7 ∷ []) without_member ≡ returned without_member)
unfolding perform leave_group find put remove bind_kyc require_registered_attestor register_wallet
    check_proof set_attestor_registry constructor
bind_kyc_once_example =
    bind_kyc_once with_kyc without_member test_host "GATTESTOR" (7 ∷ []) (1 ∷ []) (2 ∷ []) refl
      (after here test_host (leaves_group "GA") refl) (λ e. absurd cc) refl

abbrev no_kyc : KycState
no_kyc = record { status = none; starting = false; polling = false; error = none; interval = none }

-- The commitment is shown, and the effect asks for its status.
abbrev shown : Page
shown = change_commitment (some "aa") (mounted no_kyc)

shown-Reach : PageReach (mounted no_kyc) shown
unfolding change_commitment run_effect ask_about clean_up mounted
shown-Reach = next at_start (changes (mounted no_kyc) (some "aa") (λ e. absurd cc))

Reach-IsSound_example : IsSound (begin_start "aa" shown)
unfolding change_commitment run_effect ask_about clean_up mounted
Reach-IsSound_example =
    Reach-IsSound no_kyc (begin_start "aa" shown) refl refl
      (next shown-Reach (starts shown "aa" refl refl refl))

-- The wallet's element is the second signal of the small proof.
abbrev joining_host : Host
joining_host = record test_host { sha256 = λ a. zeros 31 ++ (10 ∷ []) }

abbrev with_key : State
with_key = record deployed { identity_vk = some (key_bytes small_key) }

accepts_all : (p : Proof) → accepts test_curve small_key p ≡ returned true
unfolding accepts combine add_term
accepts_all p = all_inputs p.inputs
  where
    all_inputs :
        (inputs : List (List ℕ))
        → (combine test_curve (zeros 64) small_key.ics inputs >>= λ x. returned true)
          ≡ returned true
    all_inputs [] = refl
    all_inputs (x ∷ []) = refl
    all_inputs (x ∷ y ∷ inputs) = refl

-- Every digest is reduced to its word.
reduced_word : (b : List ℕ) → from_be b % bn254_r < 2 ^ 256
reduced_word b = omega arith

abbrev binding_host : Host
binding_host = record joining_host {
  reduced = λ b. (to_be_32-show (from_be b % bn254_r) (reduced_word b)).0;
}

binding_host-Reduces : Reduces binding_host
binding_host-Reduces b = (to_be_32-show (from_be b % bn254_r) (reduced_word b)).2

abbrev test_prover : Prover (Unit {0})
test_prover = record {
  import_snarkjs = λ w. (returns tt, w);
  random_bytes = λ n w. (returns (zeros n), w);
  sha_256 = λ t w. (returns (zeros 31 ++ (10 ∷ [])), w);
  full_prove = λ secret wallet w. (returns small_proof, w);
}

ten : addr_to_field_element (zeros 31 ++ (10 ∷ [])) ≡ show 10
unfolding addr_to_field_element from_be
ten = refl

made : prove_identity test_prover "GA" (some "5") tt ≡ (ok small, tt)
unfolding prove_identity
made = ap (λ (a : Result IdentityProof). (a, tt)) small_assembled.1

register_wallet-proved_example :
    (word : List ℕ) × (small.commitment_hex ≡ to_hex word)
    × (register_wallet binding_host "GA" word small.proof_bytes with_key
        ≡ returned (record with_key {
          wallet_commitments = put "GA" word with_key.wallet_commitments;
          member_counts = put word (count_of word with_key + 1) with_key.member_counts;
        }))
unfolding find constructor
register_wallet-proved_example =
    register_wallet-proved test_prover binding_host small_key small_key-IsKey "5" (show 9) "GA"
      small_proof small with_key tt tt tt binding_host-Reduces refl refl (rw ten refl) made refl
      (λ p parts. accepts_all p) refl refl refl (λ c. omega arith)
