-- ===== src/Identity/KycStale.antt =====
-- A reply about a commitment that is no longer shown.
use zkredit.Prelude.{Bool, true, false, List}
use zkredit.Effects.Json.{Json}
use zkredit.Identity.KycSteps.{Waiting, opening}

-- A request for a status, which is all but the one that opens a verification.
abbrev pub asks_status : Waiting → Bool
asks_status opening = false
asks_status _ = true
