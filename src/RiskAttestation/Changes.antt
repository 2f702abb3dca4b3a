-- ===== src/RiskAttestation/Changes.antt =====
-- Every call that returns changes the storage in one of the ways of Calls.
use zkredit.Prelude.{ℕ, ◌≡◌, refl, Bool, true, false, not, Option, none, some, List, String, arith}
use zkredit.Host.{
  returned, >>=-eq-returned, assert, refuse_if, expect, returned_transport, invalid_proof,
  unauthorized_attestor, ◌>>=◌,
}
use zkredit.Storage.{find, bytes_eq, address_eq}
use zkredit.Groth16.{verify_groth16}
use zkredit.Risc0.{Journal, verify_receipt, parse_journal}
use zkredit.WalletIdentity.{AttestationData}
use zkredit.RiskAttestation.{
  Host, State, write_attestation, bind_journal, require_admin, require_attestor, registry_id,
  not_attested, newer, image_id_of, journal_of, verify_for_model, set_attestor_registry,
  set_wallet_identity, set_risc0_image_id, register_verification_key, attest_with_risc0,
  attest_with_hash, attest_with_proof,
}
use zkredit.RiskAttestation.Calls.{
  Call, run_call, IsAdmin, IsAttestor, IsNewer, Grounds, on_word, on_proof, on_receipt, Change,
  wires_registry, wires_identity, stores_image, stores_key, attests, sets_attestor_registry,
  sets_wallet_identity, sets_risc0_image_id, registers_verification_key, attests_with_risc0,
  attests_with_hash, attests_with_proof,
}

asserted : (b : Bool) {u : Unit {0}} → assert b ≡ returned u → b ≡ true
asserted b h = ground arith

first : (o : Option AttestationData) {u : Unit {0}} → not_attested o ≡ returned u → o ≡ none
first none h = refl
first (some existing) h = ground arith

newer-IsNewer :
    (issued_at : ℕ) (o : Option AttestationData) {u : Unit {0}}
    → newer issued_at o ≡ returned u
    → IsNewer issued_at o
newer-IsNewer issued_at none h = tt
newer-IsNewer issued_at (some existing) h = ground arith

registry_id-some : (o : Option String) {r : String} → registry_id o ≡ returned r → o ≡ some r
registry_id-some none h = absurd cc
registry_id-some (some r) h = ground arith

image_id_of-some : (o : Option (List ℕ)) {i : List ℕ} → image_id_of o ≡ returned i → o ≡ some i
image_id_of-some none h = absurd cc
image_id_of-some (some i) h = ground arith

journal_of-some : (o : Option Journal) {j : Journal} → journal_of o ≡ returned j → o ≡ some j
journal_of-some none h = absurd cc
journal_of-some (some j) h = ground arith

registered :
    (host : Host) (attestor : String) (s : State) {u : Unit {0}}
    → require_attestor host attestor s ≡ returned u
    → IsAttestor host s attestor
unfolding require_attestor
registered host attestor s h =
    let (registry, e, h1) = >>=-eq-returned (registry_id s.attestor_registry) _ h in
    let (listed, answered, h2) = >>=-eq-returned (host.is_attestor registry attestor) _ h1 in
    let (_, yes_listed, h3) = >>=-eq-returned (refuse_if (not listed) unauthorized_attestor) _ h2 in
    (registry, registry_id-some s.attestor_registry e, ground arith, asserted _ h3)

module _ (host : Host) (s : State) where
  require_admin-IsAdmin : {u : Unit {0}} → require_admin host s ≡ returned u → IsAdmin host s
  unfolding require_admin
  require_admin-IsAdmin h =
      let (admin, e, h1) = >>=-eq-returned (expect s.admin) _ h in
      (admin, ground arith, asserted _ h1)

  -- A call of the administrator's.
  by_admin :
      (next : State) {t : State}
      → (IsAdmin host s → Change host s next)
      → (require_admin host s >>= λ _. returned next) ≡ returned t
      → Change host s t
  by_admin next change h =
      let (_, may, h1) = >>=-eq-returned (require_admin host s) _ h in
      returned_transport (Change host s) h1 (change (require_admin-IsAdmin may))

  attest_with_hash-Change :
      (wallet : String) (a : AttestationData) {t : State}
      → attest_with_hash host wallet a s ≡ returned t
      → Change host s t
  unfolding attest_with_hash
  attest_with_hash-Change wallet a h =
      let (_, may, h1) = >>=-eq-returned (assert (host.authorized wallet)) _ h in
      let found = find wallet s.attestations in
      let (_, new, h2) = >>=-eq-returned (not_attested found) _ h1 in
      let (_, known, h3) = >>=-eq-returned (require_attestor host a.attestor s) _ h2 in
      returned_transport (Change host s) h3 (
        attests wallet (record a { zk_verified = false }) (asserted _ may)
          (registered host a.attestor s known) (on_word (first found new) refl))

  verify_for_model-Grounds :
      (wallet : String) (a : AttestationData) (o : Option (List ℕ)) (proof : List ℕ) {b : Bool}
      → find wallet s.attestations ≡ none
      → find a.distilled_model_hash s.verification_keys ≡ o
      → verify_for_model host o proof ≡ returned b
      → Grounds host s wallet (record a { zk_verified = b })
  unfolding verify_for_model
  verify_for_model-Grounds wallet a none proof new e h = on_word new (ground arith)
  verify_for_model-Grounds wallet a (some vk) proof {b} new e h =
      let (valid, answered, h1) = >>=-eq-returned (verify_groth16 host.curve vk proof) _ h in
      let (_, accepted, h2) = >>=-eq-returned (refuse_if (not valid) invalid_proof) _ h1 in
      on_proof vk proof new e (ground arith) (ground arith)

  attest_with_proof-Change :
      (wallet : String) (a : AttestationData) (proof : List ℕ) {t : State}
      → attest_with_proof host wallet a proof s ≡ returned t
      → Change host s t
  unfolding attest_with_proof
  attest_with_proof-Change wallet a proof h =
      let (_, may, h1) = >>=-eq-returned (assert (host.authorized wallet)) _ h in
      let found = find wallet s.attestations in
      let (_, new, h2) = >>=-eq-returned (not_attested found) _ h1 in
      let (_, known, h3) = >>=-eq-returned (require_attestor host a.attestor s) _ h2 in
      let vk = find a.distilled_model_hash s.verification_keys in
      let (b, verified, h4) = >>=-eq-returned (verify_for_model host vk proof) _ h3 in
      returned_transport (Change host s) h4 (
        attests wallet (record a { zk_verified = b }) (asserted _ may)
          (registered host a.attestor s known)
          (verify_for_model-Grounds wallet a vk proof (first found new) refl verified))

  receipt :
      (wallet : String) (a : AttestationData) (seal image bytes : List ℕ) (journal : Journal)
      → host.authorized wallet ≡ true
      → IsAttestor host s a.attestor
      → IsNewer a.issued_at (find wallet s.attestations)
      → s.risc0_image_id ≡ some image
      → verify_receipt host.sha256 host.curve seal image bytes ≡ returned true
      → parse_journal bytes ≡ some journal
      → Change host s (write_attestation wallet (bind_journal journal a) s)
  unfolding bind_journal
  receipt wallet a seal image bytes journal may known new set valid parsed =
      attests wallet (bind_journal journal a) may known
        (on_receipt a seal image bytes journal new set valid parsed refl)

  attest_with_risc0-Change :
      (wallet : String) (a : AttestationData) (seal bytes : List ℕ) {t : State}
      → attest_with_risc0 host wallet a seal bytes s ≡ returned t
      → Change host s t
  unfolding attest_with_risc0
  attest_with_risc0-Change wallet a seal bytes h =
      let (_, may, h1) = >>=-eq-returned (assert (host.authorized wallet)) _ h in
      let found = find wallet s.attestations in
      let (_, new, h2) = >>=-eq-returned (newer a.issued_at found) _ h1 in
      let (_, known, h3) = >>=-eq-returned (require_attestor host a.attestor s) _ h2 in
      let (image, set, h4) = >>=-eq-returned (image_id_of s.risc0_image_id) _ h3 in
      let (valid, answered, h5) =
        >>=-eq-returned (verify_receipt host.sha256 host.curve seal image bytes) _ h4 in
      let (_, accepted, h6) = >>=-eq-returned (refuse_if (not valid) invalid_proof) _ h5 in
      let (journal, parsed, h7) = >>=-eq-returned (journal_of (parse_journal bytes)) _ h6 in
      returned_transport (Change host s) h7 (
        receipt wallet a seal image bytes journal (asserted _ may)
          (registered host a.attestor s known) (newer-IsNewer a.issued_at found new)
          (image_id_of-some s.risc0_image_id set) (ground arith)
          (journal_of-some (parse_journal bytes) parsed))

  -- A call that returns changes the storage in one of the ways that Change lists, under the
  -- authority that it asks for: the administrator stores an address, an image or a key; or a
  -- wallet and a registered attestor, the one that the record names, have both authorised the
  -- call, and the record is written and published: as the wallet's first attestation, not marked
  -- as verified, or marked behind a proof that the key of its model accepts; or, newer than what
  -- it replaces, with the values of the journal of a receipt that is accepted for the stored
  -- image.
  pub run_call-Change :
      (call : Call) {t : State} → run_call host call s ≡ returned t → Change host s t
  unfolding run_call set_attestor_registry set_wallet_identity set_risc0_image_id
      register_verification_key
  run_call-Change (sets_attestor_registry id) h = by_admin _ (wires_registry id) h
  run_call-Change (sets_wallet_identity id) h = by_admin _ (wires_identity id) h
  run_call-Change (sets_risc0_image_id id) h = by_admin _ (stores_image id) h
  run_call-Change (registers_verification_key model vk) h = by_admin _ (stores_key model vk) h
  run_call-Change (attests_with_risc0 wallet a seal bytes) h =
      attest_with_risc0-Change wallet a seal bytes h
  run_call-Change (attests_with_hash wallet a) h = attest_with_hash-Change wallet a h
  run_call-Change (attests_with_proof wallet a proof) h = attest_with_proof-Change wallet a proof h
