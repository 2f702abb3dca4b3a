-- ===== src/WalletIdentity/Invariant.antt =====
-- What the tables of the contract keep to: the member counts, the scores of groups and the nullifiers.
use zkredit.Prelude.{
  ℕ, zero, suc, ◌+◌, ◌-◌, ◌≤◌, ◌≡◌, ◌↔◌, Bool, true, false, Option, none, some, List, String, arith,
  Bool-cases, inl, inr,
}
use zkredit.Storage.{equals, Table, find, put, remove, Unique, tally, bytes_eq, address_eq}
use zkredit.Storage.Laws.{find-put, find-remove, put-Unique, remove-Unique, tally-put, tally-remove}
use zkredit.WalletIdentity.{unwrap_or, AttestationData}

-- A count of 0 is not stored.
abbrev pub positive : ℕ → Option ℕ
positive zero = none
positive (suc n) = some (suc n)

-- The wallets of each group are counted, and a group without members has no score.
pub record IsGrouped (wallets : Table String (List ℕ)) (counts : Table (List ℕ) ℕ)
    (scores : Table (List ℕ) AttestationData) : Type 0 where
  pub one_group : Unique wallets
  pub counted : (c : List ℕ) → find c counts ≡ positive (tally c wallets)
  pub scored : (c : List ℕ) (a : AttestationData) → find c scores ≡ some a → 1 ≤ tally c wallets

module _ {wallets : Table String (List ℕ)} {counts : Table (List ℕ) ℕ}
    {scores : Table (List ℕ) AttestationData} (v : IsGrouped wallets counts scores)
    (wallet : String) (commitment : List ℕ) where
  joined_counted :
      find wallet wallets ≡ none
      → (c : List ℕ)
      → find c (put commitment (unwrap_or (find commitment counts) 0 + 1) counts)
        ≡ positive (tally c (put wallet commitment wallets))
  joined_counted new c = ground (
    arith,
    find-put c commitment (unwrap_or (find commitment counts) 0 + 1) counts,
    tally-put c wallet commitment wallets,
    v.counted c,
    v.counted commitment,
    bytes_eq.beq_iff c commitment,
    bytes_eq.beq_iff commitment c,
  )

  pub joined-IsGrouped :
      find wallet wallets ≡ none
      → IsGrouped
          (put wallet commitment wallets)
          (put commitment (unwrap_or (find commitment counts) 0 + 1) counts)
          scores
  joined-IsGrouped new = record {
    one_group = put-Unique wallet commitment wallets v.one_group;
    counted = joined_counted new;
    scored = λ c a h. ground (arith, v.scored c a h, tally-put c wallet commitment wallets);
  }

  -- The last member takes the count and the score of the group away.
  pub last_left-IsGrouped :
      find wallet wallets ≡ some commitment
      → unwrap_or (find commitment counts) 1 ≤ 1
      → IsGrouped (remove wallet wallets) (remove commitment counts) (remove commitment scores)
  last_left-IsGrouped member last = record {
    one_group = remove-Unique wallet wallets v.one_group;
    counted = λ c. ground (
      arith,
      find-remove c commitment counts,
      v.counted c,
      v.counted commitment,
      tally-remove c wallet commitment wallets v.one_group member,
      tally-remove commitment wallet commitment wallets v.one_group member,
      bytes_eq.beq_iff c commitment,
      bytes_eq.beq_iff commitment c,
      bytes_eq.beq_iff commitment commitment,
    );
    scored = λ c a h. ground (
      arith,
      find-remove c commitment scores,
      v.scored c a,
      tally-remove c wallet commitment wallets v.one_group member,
      bytes_eq.beq_iff c commitment,
      bytes_eq.beq_iff commitment c,
    );
  }

  pub one_left-IsGrouped :
      find wallet wallets ≡ some commitment
      → suc 1 ≤ unwrap_or (find commitment counts) 1
      → IsGrouped
          (remove wallet wallets)
          (put commitment (unwrap_or (find commitment counts) 1 - 1) counts)
          scores
  one_left-IsGrouped member more = record {
    one_group = remove-Unique wallet wallets v.one_group;
    counted = λ c. ground (
      arith,
      find-put c commitment (unwrap_or (find commitment counts) 1 - 1) counts,
      v.counted c,
      v.counted commitment,
      tally-remove c wallet commitment wallets v.one_group member,
      tally-remove commitment wallet commitment wallets v.one_group member,
      bytes_eq.beq_iff c commitment,
      bytes_eq.beq_iff commitment c,
      bytes_eq.beq_iff commitment commitment,
    );
    scored = λ c a h. ground (
      arith,
      v.scored c a h,
      v.counted c,
      v.counted commitment,
      tally-remove c wallet commitment wallets v.one_group member,
      tally-remove commitment wallet commitment wallets v.one_group member,
      bytes_eq.beq_iff c commitment,
      bytes_eq.beq_iff commitment c,
      bytes_eq.beq_iff commitment commitment,
    );
  }

  pub scored-IsGrouped :
      (a : AttestationData)
      → 1 ≤ tally commitment wallets
      → IsGrouped wallets counts (put commitment a scores)
  scored-IsGrouped a members = record {
    one_group = v.one_group;
    counted = v.counted;
    scored = λ c b h.
        ground (arith, find-put c commitment a scores, v.scored c b, bytes_eq.beq_iff c commitment);
  }

-- A group is verified where, and only where, some nullifier is bound to it.
abbrev pub IsBound : Table (List ℕ) (List ℕ) → Table (List ℕ) Bool → Type 0
IsBound nullifiers verified =
    (c : List ℕ)
    → (unwrap_or (find c verified) false ≡ true) ↔ ((n : List ℕ) × (find n nullifiers ≡ some c))

pub IsBound-put :
    (commitment nullifier : List ℕ) (nullifiers : Table (List ℕ) (List ℕ))
    (verified : Table (List ℕ) Bool)
    → IsBound nullifiers verified
    → find nullifier nullifiers ≡ none
    → IsBound (put nullifier commitment nullifiers) (put commitment true verified)
IsBound-put commitment nullifier nullifiers verified v new c = (
  λ h. elim (Bool-cases (equals c commitment)) [
    | inl same ↦ (
      nullifier,
      ground (
        arith,
        find-put nullifier nullifier commitment nullifiers,
        bytes_eq.beq_iff nullifier nullifier,
        bytes_eq.beq_iff c commitment,
      ),
    )
    | inr other ↦
        let old : unwrap_or (find c verified) false ≡ true =
          ground (arith, find-put c commitment true verified) in
        let (n, bound) = (v c).0 old in
        (
          n,
          ground (arith, find-put n nullifier commitment nullifiers, bytes_eq.beq_iff n nullifier),
        )
  ],
  λ (n, h). elim (Bool-cases (equals n nullifier)) [
    | inl same ↦ ground (
      arith,
      find-put n nullifier commitment nullifiers,
      find-put c commitment true verified,
      bytes_eq.beq_iff c commitment,
    )
    | inr other ↦
        let old : find n nullifiers ≡ some c =
          ground (arith, find-put n nullifier commitment nullifiers) in
        let before = (v c).1 (n, old) in ground (arith, find-put c commitment true verified)
  ],
)
