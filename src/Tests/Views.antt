-- ===== src/Tests/Views.antt =====
-- What the pages show, at concrete states.
use zkredit.Prelude.{lower_case, ◌≡◌, refl, Bool, true, false, none, some, List, [], ◌∷◌}
use zkredit.Effects.Errors.{message_of}
use zkredit.Identity.{KycState}
use zkredit.Identity.Page.{rows}
use zkredit.Identity.Offers.{expected, rows-offers}
use zkredit.View.{offered}
use zkredit.OnChainAttest.{State, waiting}
use zkredit.OnChainAttest.Page.{page}
use zkredit.OnChainAttest.Shows.{IsFaithful, page-IsFaithful}
use zkredit.WalletPage.{initial, on_address, on_reply, found, parts, changes, replies, look_up}
use zkredit.WalletPage.Lookups.{same, later, IsSettled, lookups-settle}
use zkredit.Tests.Pages.{linked_page}

abbrev no_kyc : KycState
no_kyc = record { status = none; starting = false; polling = false; error = none; interval = none }

abbrev linking : List Bool
linking = true ∷ true ∷ false ∷ false ∷ []

rows-offers_example :
    offered (rows linking linked_page no_kyc) ≡ expected linking linked_page no_kyc
rows-offers_example = rows-offers true true false false linked_page no_kyc

abbrev waiting_page : State
waiting_page = record {
  wallet = some "GABC";
  phase = waiting;
  error = none;
  tx_hash = none;
  attestation = none;
  prepared = none;
  prepare_meta = none;
  queue_state = none;
  result_in = false;
}

page-IsFaithful_example : IsFaithful waiting_page (page waiting_page)
page-IsFaithful_example = page-IsFaithful waiting_page

-- Two lookups, the first of which is answered last.
abbrev twice : zkredit.WalletPage.State
twice = on_address (some "GB") (on_address (some "GA") initial)

abbrev after_second : zkredit.WalletPage.State
after_second = on_reply message_of (found none) (record twice { requests = "GA" ∷ [] })

abbrev after_first : zkredit.WalletPage.State
after_first = on_reply message_of (found none) (record after_second { requests = [] })

lookups-settle_example : IsSettled (parts after_first)
unfolding on_address initial on_reply
lookups-settle_example =
    lookups-settle message_of "GA" after_first refl
      (later
        (later (later same (changes (on_address (some "GA") initial) (some "GB")))
          (replies twice [] ("GA" ∷ []) "GB" (found none) refl))
        (replies after_second [] [] "GA" (found none) refl))
      refl

lower_case_runs : lower_case "Bind transaction" ≡ "bind transaction"
unfolding lower_case
lower_case_runs = refl
