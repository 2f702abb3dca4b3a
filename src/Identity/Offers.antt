-- ===== src/Identity/Offers.antt =====
-- The buttons that the wizard of frontend/src/pages/Identity.tsx offers.
use mathlib.Core.List.{append_assoc, append-nil}
use zkredit.Prelude.{
  ◌≡◌, refl, ap, String, Bool, true, false, not, ◌&&◌, Option, none, some, List, [], ◌∷◌, ◌++◌,
  str_eq, if◌then◌else◌, arith,
}
use zkredit.Effects.Json.{Json, property, null, bool, num, str, arr, obj}
use zkredit.IdentityProof.{IdentityProof}
use zkredit.View.{Shown, text, cut, field, button, if_text, offered}
use zkredit.Identity.{
  State, KycState, finished, active, locked, stage_state, active_stage, commitment_of, has_text,
}
use zkredit.Identity.Page.{
  Action, connects, generates, downloads_backup, links, leaves, starts_verification,
  refreshes_status, copies, connect_row, create_row, link_row, verify_row, rows, inline_error,
  when_text, warning, row_of, is_idle, badge, bind_row, kyc_card, if_string, if_created,
}

abbrev pub only_if : Bool → Action → List Action
only_if true a = a ∷ []
only_if false a = []

-- Of an identity that was created.
abbrev pub identity_offers : Option IdentityProof → List Action
identity_offers none = []
identity_offers (some identity) =
    copies identity.commitment_hex ∷ copies identity.secret_dec ∷ downloads_backup ∷ []

abbrev pub hash_offers : Option String → List Action
hash_offers none = []
hash_offers (some hash) = if str_eq hash "" then [] else copies hash ∷ []

-- Of a wallet that is linked.
abbrev pub link_offers : State → List Action
link_offers s = hash_offers s.link_tx_hash ++ only_if (is_idle s.link_busy) leaves

offered-append : (xs ys : List (Shown Action)) → offered (xs ++ ys) ≡ offered xs ++ offered ys
unfolding offered
offered-append [] ys = refl
offered-append (text t ∷ xs) ys = offered-append xs ys
offered-append (cut t ∷ xs) ys = offered-append xs ys
offered-append (field k v ∷ xs) ys = offered-append xs ys
offered-append (button a true l ∷ xs) ys = ap (λ more. a ∷ more) (offered-append xs ys)
offered-append (button a false l ∷ xs) ys = offered-append xs ys

offered-button :
    (a : Action) (b : Bool) (l : String) (xs : List (Shown Action))
    → offered (button a b l ∷ xs) ≡ only_if b a ++ offered xs
unfolding offered
offered-button a true l xs = refl
offered-button a false l xs = refl

offered-inline_error : (e : Option String) → offered (inline_error e) ≡ []
unfolding offered
offered-inline_error none = refl
offered-inline_error (some t) = ground arith

offered-warning : (w : Option String) → offered (warning w) ≡ []
unfolding offered
offered-warning none = refl
offered-warning (some t) = ground arith

offered-hash :
    (o : Option String) → offered (when_text o λ hash. row_of "Transaction" hash) ≡ hash_offers o
unfolding offered
offered-hash none = refl
offered-hash (some t) = ground arith

offered-created : (o : Option IdentityProof) → offered (if_created o) ≡ identity_offers o
unfolding offered
offered-created none = refl
offered-created (some identity) = refl

offered-badge : (o : Option Json) → offered (badge o) ≡ []
unfolding offered
offered-badge none = refl
offered-badge (some j) = ground arith

-- The hash of the transaction that bound the status on-chain, where the status names one.
abbrev text_of : Option Json → Option String
text_of (some (str t)) = some t
text_of _ = none

abbrev pub bind_hash : Option Json → Option String
bind_hash none = none
bind_hash (some status) = text_of (property "bind_tx_hash" status)

offered-text_of :
    (o : Option Json)
    → offered (if_string o λ hash. if str_eq hash "" then [] else row_of "Bind transaction" hash)
      ≡ hash_offers (text_of o)
unfolding offered
offered-text_of none = refl
offered-text_of (some null) = refl
offered-text_of (some (bool b)) = refl
offered-text_of (some (num n)) = refl
offered-text_of (some (str t)) = ground arith
offered-text_of (some (arr i)) = refl
offered-text_of (some (obj f)) = refl

offered-bind : (o : Option Json) → offered (bind_row o) ≡ hash_offers (bind_hash o)
unfolding offered
offered-bind none = refl
offered-bind (some j) = offered-text_of (property "bind_tx_hash" j)

-- Of the card of the KYC status.
abbrev pub kyc_offers : State → KycState → List Action
kyc_offers s kyc =
    only_if (has_text (commitment_of s.identity) && not kyc.starting) starts_verification
    ++ (refreshes_status ∷ [])

-- What is offered when the stages are done as the list says.
unfoldable pub expected : List Bool → State → KycState → List Action
expected (false ∷ more) s kyc = connects ∷ []
expected (true ∷ false ∷ more) s kyc = only_if (not s.generating) generates
expected (true ∷ true ∷ false ∷ more) s kyc =
    identity_offers s.identity ++ only_if (is_idle s.link_busy) links
expected (true ∷ true ∷ true ∷ false ∷ more) s kyc =
    identity_offers s.identity ++ (link_offers s ++ kyc_offers s kyc)
expected stages s kyc =
    identity_offers s.identity ++ (link_offers s ++ hash_offers (bind_hash kyc.status))

offered-text : (t : String) (xs : List (Shown Action)) → offered (text t ∷ xs) ≡ offered xs
unfolding offered
offered-text t xs = refl

offered-nil : offered {A = Action} [] ≡ []
unfolding offered
offered-nil = refl

offered-polling :
    (b : Bool) (t : String) → offered {A = Action} (if b then text t ∷ [] else []) ≡ []
unfolding offered
offered-polling true t = refl
offered-polling false t = refl

offered-address : (o : Option String) → offered {A = Action} (if_text o λ a. text a ∷ []) ≡ []
unfolding offered
offered-address none = refl
offered-address (some t) = refl

offered-link_row_locked : (s : State) → offered (link_row locked s) ≡ []
unfolding link_row offered
offered-link_row_locked s = refl

ruleset offers = (
  offered-address, offered-link_row_locked, offered-polling, offered-append, offered-text,
  offered-nil, offered-button, offered-hash, offered-warning, offered-inline_error, offered-created,
  offered-badge, offered-bind, append_assoc, append-nil,
)

offered-link_row : (s : State) → offered (link_row finished s) ≡ link_offers s
unfolding link_row
offered-link_row s = simp offers

offered-link_row_active :
    (s : State) → offered (link_row active s) ≡ only_if (is_idle s.link_busy) links
unfolding link_row
offered-link_row_active s = simp offers

offered-kyc_card : (s : State) (kyc : KycState) → offered (kyc_card s kyc) ≡ kyc_offers s kyc
unfolding kyc_card
offered-kyc_card s kyc = simp offers

-- The buttons that the wizard offers, for every combination of done stages: without a wallet only
-- Connect; then only Create identity, unless a proof is being made; with an identity its copies
-- and its backup, and Link wallet, unless a call is under way; with a linked wallet the copy of
-- its transaction, Leave group, unless a call is under way, and until the check is done Start
-- verification, unless one is starting or the commitment is empty, and Refresh status; and behind
-- the check the copy of the bind transaction.
pub rows-offers :
    (wallet created linked verified : Bool) (s : State) (kyc : KycState)
    → offered (rows (wallet ∷ created ∷ linked ∷ verified ∷ []) s kyc)
      ≡ expected (wallet ∷ created ∷ linked ∷ verified ∷ []) s kyc
unfolding rows stage_state active_stage connect_row create_row verify_row expected
rows-offers false c l v s kyc = simp offers
rows-offers true false l v s kyc = simp offers
rows-offers true true false v s kyc = simp (offers, offered-link_row_active)
rows-offers true true true false s kyc = simp (offers, offered-link_row, offered-kyc_card)
rows-offers true true true true s kyc = simp (offers, offered-link_row)
