-- ===== src/WalletPage/Lookups.antt =====
-- Lookups of the wallet page of frontend/src/pages/Wallet.tsx in any order.
use zkredit.Prelude.{
  ◌≡◌, refl, String, true, false, not, ◌&&◌, Option, none, some, List, [], ◌∷◌, ◌++◌, ◌⊎◌, inl, inr,
  if◌then◌else◌, str_eq, Bool-cases,
}
use zkredit.Effects.Errors.{Exception}
use zkredit.Contracts.{AttestationData}
use zkredit.WalletPage.{
  State, Reply, found, failed, initial, on_address, on_reply, Step, changes, replies, Parts, parts,
  has_message, is_none,
}

-- The states that lookups lead to.
pub data Reached (string_of : Exception → String) (s : State) : State → Type 0 where
  same : Reached string_of s s
  later : {t u : State} → Reached string_of s t → Step string_of t u → Reached string_of s u

abbrev pub IsAwaiting : State → Type 0
IsAwaiting s = (s.loading ≡ false) ⊎ ((a : String) × (rest : List String) × (s.requests ≡ a ∷ rest))

on_address-IsAwaiting : (o : Option String) (s : State) → IsAwaiting s → IsAwaiting (on_address o s)
unfolding on_address
on_address-IsAwaiting none s h = h
on_address-IsAwaiting (some address) s h = elim (Bool-cases (str_eq address "")) [
  | inl empty ↦ rw empty h
  | inr full ↦ rw full (inr (address, s.requests, refl))
]

on_reply-IsAwaiting :
    (string_of : Exception → String) (reply : Reply) (s : State)
    → IsAwaiting (on_reply string_of reply s)
unfolding on_reply
on_reply-IsAwaiting string_of (found a) s = inl refl
on_reply-IsAwaiting string_of (failed e) s = inl refl

Reached-IsAwaiting :
    {string_of : Exception → String} {s t : State}
    → IsAwaiting s
    → Reached string_of s t
    → IsAwaiting t
Reached-IsAwaiting h same = h
Reached-IsAwaiting h (later before (changes t o)) =
    on_address-IsAwaiting o t (Reached-IsAwaiting h before)
Reached-IsAwaiting {string_of = f} h (later before (replies t front back a reply e)) =
    on_reply-IsAwaiting f reply (record t { requests = front ++ back })

-- The loading line is gone, and an error, an attestation, or the line that there is none is shown;
-- the last one only without the others.
pub record IsSettled (p : Parts) : Type 0 where
  pub not_loading : p.loading_line ≡ false
  pub shown :
      ((e : String) × (p.error_line ≡ some e))
      ⊎ (((a : AttestationData) × (p.card ≡ some a))
          ⊎ ((p.none_line ≡ true) × (p.error_line ≡ none) × (p.card ≡ none)))

answered : (s : State) → s.requests ≡ [] → IsAwaiting s → s.loading ≡ false
answered s e (inl h) = h
answered s e (inr (a, rest, h)) = absurd cc

-- What is shown of an error and an attestation while nothing is loading.
abbrev Outcome : Option String → Option AttestationData → Type 0
Outcome error card =
    ((e : String) × ((if has_message error then error else none) ≡ some e))
    ⊎ (((a : AttestationData) × (card ≡ some a))
        ⊎ ((not (has_message error) && is_none card ≡ true)
            × ((if has_message error then error else none) ≡ none)
            × (card ≡ none)))

outcome : (error : Option String) (card : Option AttestationData) → Outcome error card
outcome none none = inr (inr (refl, refl, refl))
outcome error (some a) = inr (inl (a, refl))
outcome (some e) none = elim (Bool-cases (str_eq e "")) [
  | inl empty ↦ rw empty (inr (inr (refl, refl, refl)))
  | inr full ↦ inl (e, rw full refl)
]

parts-IsSettled : (s : State) → s.loading ≡ false → IsSettled (parts s)
unfolding parts
parts-IsSettled s h = record { not_loading = h; shown = rw h (outcome s.error s.attestation) }

-- From the lookup of a first address, in any order of further addresses and replies, once no
-- lookup is in flight the page is not loading, and it shows an error, an attestation, or, only
-- without both, the line that there is none.
pub lookups-settle :
    (string_of : Exception → String) (address : String) (s : State)
    → str_eq address "" ≡ false
    → Reached string_of (on_address (some address) initial) s
    → s.requests ≡ []
    → IsSettled (parts s)
unfolding on_address initial
lookups-settle string_of address s full r e =
    let start : IsAwaiting (on_address (some address) initial) =
      rw full (inr (address, [], refl)) in
    parts-IsSettled s (answered s e (Reached-IsAwaiting start r))
