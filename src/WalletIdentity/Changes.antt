-- ===== src/WalletIdentity/Changes.antt =====
-- Every call that returns changes the storage in one of the ways of Calls.
use zkredit.Prelude.{
  ℕ, ◌≡◌, refl, Bool, true, not, Option, none, some, List, String, arith, ltb, leb, ◌==◌,
  Bool-cases, inl, inr,
}
use zkredit.Host.{
  returned, >>=-eq-returned, assert, refuse_if, expect, attestation_not_found,
  unauthorized_attestor, returned_transport,
}
use zkredit.Storage.{find, bytes_eq, address_eq}
use zkredit.WalletIdentity.{
  Host, State, AttestationData, set_attestor_registry, set_identity_vk, register_wallet,
  update_group_score, bind_kyc, leave_group, unwrap_or, leave, bind_new, not_in_group,
  require_registered_attestor, registry_of, check_proof,
}
use zkredit.WalletIdentity.Calls.{
  Call, perform, IsAttestor, Change, stays, wires_registry, stores_vk, joins, scores, binds,
  last_leaves, leaves, count_of, sets_attestor_registry, sets_identity_vk, registers_wallet,
  updates_group_score, binds_kyc, leaves_group,
}

asserted : (b : Bool) {u : Unit {0}} → assert b ≡ returned u → b ≡ true
asserted b h = ground arith

absent :
    (commitment : List ℕ) (o : Option (List ℕ)) {u : Unit {0}}
    → not_in_group commitment o ≡ returned u
    → o ≡ none
absent commitment none h = refl
absent commitment (some current) h = ground arith

registry_of-some :
    (o : Option String) {registry : String} → registry_of o ≡ returned registry → o ≡ some registry
registry_of-some none h = absurd cc
registry_of-some (some registry) h = ground arith

registered :
    (host : Host) (attestor : String) (s : State) {u : Unit {0}}
    → require_registered_attestor host attestor s ≡ returned u
    → IsAttestor host s
unfolding require_registered_attestor
registered host attestor s h =
    let (registry, e, h1) = >>=-eq-returned (registry_of s.attestor_registry) _ h in
    let member = host.is_attestor registry attestor in
    let (_, listed, h2) = >>=-eq-returned (refuse_if (not member) unauthorized_attestor) _ h1 in
    (attestor, registry, registry_of-some s.attestor_registry e, ground arith, asserted _ h2)

module _ (host : Host) (s : State) where
  -- The calls of the administrator.
  set_attestor_registry-Change :
      (contract_id : String) {t : State}
      → set_attestor_registry host contract_id s ≡ returned t
      → Change host s t
  unfolding set_attestor_registry
  set_attestor_registry-Change contract_id h =
      let (admin, e, h1) = >>=-eq-returned (expect s.admin) _ h in
      let (_, may, h2) = >>=-eq-returned (assert (host.authorized admin)) _ h1 in
      returned_transport (Change host s) h2
        (wires_registry contract_id (admin, ground arith, asserted _ may))

  set_identity_vk-Change :
      (vk_bytes : List ℕ) {t : State}
      → set_identity_vk host vk_bytes s ≡ returned t
      → Change host s t
  unfolding set_identity_vk
  set_identity_vk-Change vk_bytes h =
      let (admin, e, h1) = >>=-eq-returned (expect s.admin) _ h in
      let (_, may, h2) = >>=-eq-returned (assert (host.authorized admin)) _ h1 in
      returned_transport (Change host s) h2
        (stores_vk vk_bytes (admin, ground arith, asserted _ may))

  register_wallet-Change :
      (wallet : String) (commitment proof : List ℕ) {t : State}
      → register_wallet host wallet commitment proof s ≡ returned t
      → Change host s t
  unfolding register_wallet
  register_wallet-Change wallet commitment proof h =
      let (_, may, h1) = >>=-eq-returned (assert (host.authorized wallet)) _ h in
      let (_, proved, h2) =
        >>=-eq-returned (check_proof host s.identity_vk wallet commitment proof) _ h1 in
      let found = find wallet s.wallet_commitments in
      let (_, new, h3) = >>=-eq-returned (not_in_group commitment found) _ h2 in
      let (_, small, h4) = >>=-eq-returned (assert (ltb (count_of commitment s) 4294967295)) _ h3 in
      returned_transport (Change host s) h4 (
        joins wallet commitment (asserted _ may, proof, proved) (absent commitment found new)
          (ground arith))

  update_group_score-Change :
      (attestor : String) (commitment : List ℕ) (a : AttestationData) {t : State}
      → update_group_score host attestor commitment a s ≡ returned t
      → Change host s t
  unfolding update_group_score
  update_group_score-Change attestor commitment a h =
      let (_, may, h1) = >>=-eq-returned (require_registered_attestor host attestor s) _ h in
      let (_, members, h2) =
        >>=-eq-returned (refuse_if (count_of commitment s == 0) attestation_not_found) _ h1 in
      returned_transport (Change host s) h2
        (scores commitment a (registered host attestor s may) (ground arith))

  bind_new-Change :
      (commitment nullifier : List ℕ) (o : Option (List ℕ)) {t : State}
      → IsAttestor host s
      → find nullifier s.nullifier_commitments ≡ o
      → bind_new commitment nullifier o s ≡ returned t
      → Change host s t
  bind_new-Change commitment nullifier (some bound) may e h =
      returned_transport (Change host s) (ground arith) (stays may)
  bind_new-Change commitment nullifier none may e h =
      returned_transport (Change host s) h (binds commitment nullifier may e)

  bind_kyc-Change :
      (attestor : String) (commitment nullifier : List ℕ) {t : State}
      → bind_kyc host attestor commitment nullifier s ≡ returned t
      → Change host s t
  unfolding bind_kyc
  bind_kyc-Change attestor commitment nullifier h =
      let (_, may, h1) = >>=-eq-returned (require_registered_attestor host attestor s) _ h in
      bind_new-Change commitment nullifier (find nullifier s.nullifier_commitments)
        (registered host attestor s may) refl h1

  leave-Change :
      (wallet : String) (o : Option (List ℕ)) {t : State}
      → host.authorized wallet ≡ true
      → find wallet s.wallet_commitments ≡ o
      → leave wallet o s ≡ returned t
      → Change host s t
  leave-Change wallet none may e h = absurd cc
  leave-Change wallet (some commitment) may e h =
      elim (Bool-cases (leb (unwrap_or (find commitment s.member_counts) 1) 1)) [
        | inl last ↦
            returned_transport (Change host s) (rw last at h)
              (last_leaves wallet commitment may e (ground arith))
        | inr more ↦
            returned_transport (Change host s) (rw more at h)
              (leaves wallet commitment may e (ground arith))
      ]

  leave_group-Change :
      (wallet : String) {t : State} → leave_group host wallet s ≡ returned t → Change host s t
  unfolding leave_group
  leave_group-Change wallet h =
      let (_, may, h1) = >>=-eq-returned (assert (host.authorized wallet)) _ h in
      leave-Change wallet (find wallet s.wallet_commitments) (asserted _ may) refl h1

  -- A call that returns changes the storage in one of the ways that Change lists, under the
  -- authority that it asks for: the administrator stores a key or a registry; a wallet that has
  -- authorised the call, is in no group and has a proof that is accepted for the stored key, if
  -- one is stored, joins one and is counted, without overflow; a registered attestor that has
  -- authorised the call scores a group with members, binds a nullifier that is not bound, or
  -- changes nothing; a wallet that has authorised the call leaves, and the last one takes the
  -- count and the score of its group away.
  pub perform-Change :
      (call : Call) {t : State} → perform host call s ≡ returned t → Change host s t
  unfolding perform
  perform-Change (sets_attestor_registry contract_id) h = set_attestor_registry-Change contract_id h
  perform-Change (sets_identity_vk vk_bytes) h = set_identity_vk-Change vk_bytes h
  perform-Change (registers_wallet wallet commitment proof) h =
      register_wallet-Change wallet commitment proof h
  perform-Change (updates_group_score attestor commitment a) h =
      update_group_score-Change attestor commitment a h
  perform-Change (binds_kyc attestor commitment nullifier) h =
      bind_kyc-Change attestor commitment nullifier h
  perform-Change (leaves_group wallet) h = leave_group-Change wallet h
