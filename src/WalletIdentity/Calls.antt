-- ===== src/WalletIdentity/Calls.antt =====
-- The calls that change the storage, and what a call may do to it and under which authority.
use zkredit.Prelude.{ℕ, ◌+◌, ◌-◌, ◌≤◌, ◌<◌, ◌≡◌, true, none, some, List, String}
use zkredit.Host.{Run, returned}
use zkredit.Storage.{find, put, remove, bytes_eq, address_eq}
use zkredit.WalletIdentity.{
  Host, State, AttestationData, set_attestor_registry, set_identity_vk, register_wallet,
  update_group_score, bind_kyc, leave_group, unwrap_or, mark_stored, check_proof,
}

-- The calls that change the state.
pub data Call : Type 0 where
  sets_attestor_registry : String → Call
  sets_identity_vk : List ℕ → Call
  registers_wallet : String → List ℕ → List ℕ → Call
  updates_group_score : String → List ℕ → AttestationData → Call
  binds_kyc : String → List ℕ → List ℕ → Call
  leaves_group : String → Call

unfoldable pub perform : Host → Call → State → Run State
perform host (sets_attestor_registry contract_id) s = set_attestor_registry host contract_id s
perform host (sets_identity_vk vk_bytes) s = set_identity_vk host vk_bytes s
perform host (registers_wallet wallet commitment proof) s =
    register_wallet host wallet commitment proof s
perform host (updates_group_score attestor commitment a) s =
    update_group_score host attestor commitment a s
perform host (binds_kyc attestor commitment nullifier) s =
    bind_kyc host attestor commitment nullifier s
perform host (leaves_group wallet) s = leave_group host wallet s

abbrev pub count_of : List ℕ → State → ℕ
count_of commitment s = unwrap_or (find commitment s.member_counts) 0

-- The administrator has authorised the call.
abbrev pub IsAdmin : Host → State → Type 0
IsAdmin host s = (admin : String) × (s.admin ≡ some admin) × (host.authorized admin ≡ true)

-- An attestor of the registry has.
abbrev pub IsAttestor : Host → State → Type 0
IsAttestor host s =
    (attestor registry : String) × (s.attestor_registry ≡ some registry)
    × (host.is_attestor registry attestor ≡ true)
    × (host.authorized attestor ≡ true)

-- A wallet has, and has proved that it knows the secret of the commitment, where this is asked.
abbrev pub IsProved : Host → State → String → List ℕ → Type 0
IsProved host s wallet commitment =
    (host.authorized wallet ≡ true)
    × (proof : List ℕ) × (check_proof host s.identity_vk wallet commitment proof ≡ returned tt)

pub data Change (host : Host) (s : State) : State → Type 0 where
  stays : IsAttestor host s → Change host s s
  wires_registry :
      (registry : String)
      → IsAdmin host s
      → Change host s (record s { attestor_registry = some registry })
  stores_vk : (vk : List ℕ) → IsAdmin host s → Change host s (record s { identity_vk = some vk })
  joins :
      (wallet : String) (commitment : List ℕ)
      → IsProved host s wallet commitment
      → find wallet s.wallet_commitments ≡ none
      → count_of commitment s < 4294967295
      → Change host s (record s {
        wallet_commitments = put wallet commitment s.wallet_commitments;
        member_counts = put commitment (count_of commitment s + 1) s.member_counts;
      })
  scores :
      (commitment : List ℕ) (a : AttestationData)
      → IsAttestor host s
      → 1 ≤ count_of commitment s
      → Change host s
          (record s { identity_attestations = put commitment a s.identity_attestations })
  binds :
      (commitment nullifier : List ℕ)
      → IsAttestor host s
      → find nullifier s.nullifier_commitments ≡ none
      → Change host s (record s {
        nullifier_commitments = put nullifier commitment s.nullifier_commitments;
        kyc_verified = put commitment true s.kyc_verified;
        identity_attestations =
            mark_stored commitment
              (find commitment s.identity_attestations)
              s.identity_attestations;
      })
  last_leaves :
      (wallet : String) (commitment : List ℕ)
      → host.authorized wallet ≡ true
      → find wallet s.wallet_commitments ≡ some commitment
      → unwrap_or (find commitment s.member_counts) 1 ≤ 1
      → Change host s (record s {
        wallet_commitments = remove wallet s.wallet_commitments;
        member_counts = remove commitment s.member_counts;
        identity_attestations = remove commitment s.identity_attestations;
      })
  leaves :
      (wallet : String) (commitment : List ℕ)
      → host.authorized wallet ≡ true
      → find wallet s.wallet_commitments ≡ some commitment
      → 2 ≤ unwrap_or (find commitment s.member_counts) 1
      → Change host s (record s {
        wallet_commitments = remove wallet s.wallet_commitments;
        member_counts =
            put commitment (unwrap_or (find commitment s.member_counts) 1 - 1) s.member_counts;
      })
