-- ===== src/WalletIdentity/Reachable.antt =====
-- The states that calls of the contract lead to. A call that fails or panics leaves the storage as
-- it was, so a step is a call that returns.
use zkredit.Prelude.{
  ℕ, ◌≤◌, ◌≡◌, ◌≢◌, refl, true, some, List, String, arith, Option-cases, inl, inr,
}
use zkredit.Host.{returned, failed, nullifier_already_bound}
use zkredit.Storage.{find, tally, bytes_eq}
use zkredit.Storage.Laws.{find-put}
use zkredit.WalletIdentity.{
  Host, State, constructor, mark_stored, bind_kyc, require_registered_attestor,
}
use zkredit.WalletIdentity.Invariant.{
  IsGrouped, IsBound, joined-IsGrouped, last_left-IsGrouped, one_left-IsGrouped, scored-IsGrouped,
  IsBound-put,
}
use zkredit.WalletIdentity.Calls.{
  Call, perform, Change, stays, wires_registry, stores_vk, joins, scores, binds, last_leaves,
  leaves,
}
use zkredit.WalletIdentity.Changes.{perform-Change}

-- Every call meets a host of its own.
pub data Reach (s : State) : State → Type 0 where
  here : Reach s s
  after :
      {t u : State}
      → Reach s t
      → (host : Host) (call : Call) → perform host call t ≡ returned u
      → Reach s u

pub record IsConsistent (s : State) : Type 0 where
  pub grouped : IsGrouped s.wallet_commitments s.member_counts s.identity_attestations
  pub bound : IsBound s.nullifier_commitments s.kyc_verified

constructor-IsConsistent : (admin : String) → IsConsistent (constructor admin)
unfolding constructor find tally
constructor-IsConsistent admin = record {
  grouped = record { one_group = tt; counted = λ c. refl; scored = λ c a h. absurd cc };
  bound = λ c. (λ h. absurd cc, λ (n, h). absurd cc);
}

mark_stored-IsGrouped :
    (commitment : List ℕ) (s : State)
    → IsConsistent s
    → IsGrouped s.wallet_commitments s.member_counts
        (mark_stored commitment (find commitment s.identity_attestations) s.identity_attestations)
mark_stored-IsGrouped commitment s v =
    elim (Option-cases (find commitment s.identity_attestations)) [
      | inl e ↦ rw e v.grouped
      | inr (a, e) ↦ rw e (
          scored-IsGrouped v.grouped "" commitment (record a { kyc_verified = true })
            (v.grouped.scored commitment a e))
    ]

Change-IsConsistent :
    {host : Host} {s t : State} → Change host s t → IsConsistent s → IsConsistent t
Change-IsConsistent (stays may) v = v
Change-IsConsistent (wires_registry registry may) v = record {
  grouped = v.grouped;
  bound = v.bound;
}
Change-IsConsistent (stores_vk vk may) v = record { grouped = v.grouped; bound = v.bound }
Change-IsConsistent (joins wallet commitment may new small) v = record {
  grouped = joined-IsGrouped v.grouped wallet commitment new;
  bound = v.bound;
}
Change-IsConsistent {s = s} (scores commitment a may members) v =
    let count : 1 ≤ tally commitment s.wallet_commitments =
      ground (arith, v.grouped.counted commitment) in
    record { grouped = scored-IsGrouped v.grouped "" commitment a count; bound = v.bound }
Change-IsConsistent {s = s} (binds commitment nullifier may new) v = record {
  grouped = mark_stored-IsGrouped commitment s v;
  bound = IsBound-put commitment nullifier s.nullifier_commitments s.kyc_verified v.bound new;
}
Change-IsConsistent (last_leaves wallet commitment may member last) v = record {
  grouped = last_left-IsGrouped v.grouped wallet commitment member last;
  bound = v.bound;
}
Change-IsConsistent (leaves wallet commitment may member more) v = record {
  grouped = one_left-IsGrouped v.grouped wallet commitment member more;
  bound = v.bound;
}

Reach-IsConsistent : {s t : State} → IsConsistent s → Reach s t → IsConsistent t
Reach-IsConsistent v here = v
Reach-IsConsistent v (after before host call h) =
    Change-IsConsistent (perform-Change host _ call h) (Reach-IsConsistent v before)

-- In every state that calls lead to from a deployed contract, each of them with authorisations, a
-- registry and a host of its own: no wallet has two entries; the stored member count of a group is
-- the number of wallets with its commitment, and none is stored for 0; a group with a score has a
-- member; and a group is marked as KYC-verified exactly when some nullifier is bound to it.
pub deployed-IsConsistent :
    (admin : String) (s : State) → Reach (constructor admin) s → IsConsistent s
deployed-IsConsistent admin s r = Reach-IsConsistent (constructor-IsConsistent admin) r

Change-bound :
    {host : Host} {s t : State} (n c : List ℕ)
    → Change host s t
    → find n s.nullifier_commitments ≡ some c
    → find n t.nullifier_commitments ≡ some c
Change-bound n c (stays may) e = e
Change-bound n c (wires_registry registry may) e = e
Change-bound n c (stores_vk vk may) e = e
Change-bound n c (joins wallet commitment may new small) e = e
Change-bound n c (scores commitment a may members) e = e
Change-bound {s = s} n c (binds commitment nullifier may new) e =
    ground
      (arith, find-put n nullifier commitment s.nullifier_commitments, bytes_eq.beq_iff n nullifier)
Change-bound n c (last_leaves wallet commitment may member last) e = e
Change-bound n c (leaves wallet commitment may member more) e = e

Reach-bound :
    {s t : State} (n c : List ℕ)
    → Reach s t
    → find n s.nullifier_commitments ≡ some c
    → find n t.nullifier_commitments ≡ some c
Reach-bound n c here e = e
Reach-bound n c (after before host call h) e =
    Change-bound n c (perform-Change host _ call h) (Reach-bound n c before e)

-- If a nullifier is bound to a commitment, then after any further calls a registered attestor that
-- authorises the call cannot bind it to another commitment (NullifierAlreadyBound), and binding it
-- to the same one returns the state unchanged.
pub bind_kyc_once :
    (s t : State) (host : Host) (attestor : String) (n c d : List ℕ)
    → find n s.nullifier_commitments ≡ some c
    → Reach s t
    → c ≢ d
    → require_registered_attestor host attestor t ≡ returned tt
    → (bind_kyc host attestor d n t ≡ failed nullifier_already_bound)
      × (bind_kyc host attestor c n t ≡ returned t)
unfolding bind_kyc
bind_kyc_once s t host attestor n c d e r differ may =
    let kept = Reach-bound n c r e in
    (
      rw (may, kept) (ground (arith, bytes_eq.beq_iff c d)),
      rw (may, kept) (ground (arith, bytes_eq.beq_iff c c)),
    )
