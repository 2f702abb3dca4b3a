-- ===== src/AttestorRegistry.antt =====
-- contracts/attestor-registry/src/lib.rs: the addresses that may attest.
use zkredit.Prelude.{Bool, true, false, Option, none, some, [], String}
use zkredit.Host.{Run, returned, ◌>>=◌, assert, expect}
use zkredit.Storage.{Table, find, put, address_eq}

pub record State : Type 0 where
  pub admin : Option String
  pub attestors : Table String Bool

unfoldable pub constructor : String → State
constructor admin = record { admin = some admin; attestors = [] }

module _ (authorized : String → Bool) where
  unfoldable pub authorize : String → State → Run State
  authorize attestor s = do
    admin ← expect s.admin
    _ ← assert (authorized admin)
    returned (record s { attestors = put attestor true s.attestors })

  unfoldable pub revoke : String → State → Run State
  revoke attestor s = do
    admin ← expect s.admin
    _ ← assert (authorized admin)
    returned (record s { attestors = put attestor false s.attestors })

abbrev pub unwrap_or_false : Option Bool → Bool
unwrap_or_false none = false
unwrap_or_false (some b) = b

unfoldable pub is_attestor : String → State → Bool
is_attestor attestor s = unwrap_or_false (find attestor s.attestors)
