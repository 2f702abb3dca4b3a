-- ===== src/Lending/Borrowing.antt =====
-- When the page lets a wallet borrow, and how a loan request ends.
use zkredit.Prelude.{
  ℕ, ◌≤◌, ◌≡◌, ◌↔◌, ◌⊎◌, inl, inr, refl, ◌&&◌, String, true, false, Option, none, some, arith, ap,
  str_eq, eq_iff,
}
use zkredit.Effects.Errors.{message_of}
use zkredit.Effects.Sync.{Result-cases, ok}
use zkredit.Effects.Io.{Io}
use zkredit.Effects.Browser.{Clock, Wallet, Chain}
use zkredit.Effects.Lift.{lift_clock, lift_wallet, lift_chain}
use zkredit.Freighter.{Network}
use zkredit.Rpc.Waiting.{Runs}
use zkredit.OnChainAttest.Settles.{Runs-lift}
use zkredit.Contracts.{Runtime, LoanOffer}
use zkredit.Contracts.Client.{execute_loan}
use zkredit.Contracts.Endings.{execute_loan-Safe}
use zkredit.Lending.{State, can_borrow, is_some, same_text, begin_execute, execute_for}

borrow_iff :
    (c l : Option String) (t : Option LoanOffer)
    → (is_some c && same_text l c && is_some t ≡ true) ↔ (
        (address : String) × (terms : LoanOffer) × (c ≡ some address)
        × (l ≡ some address)
        × (t ≡ some terms))
borrow_iff none l t = (λ h. cc, λ (x, y, e1, e2, e3). cc)
borrow_iff (some a) none t = (λ h. cc, λ (x, y, e1, e2, e3). cc)
borrow_iff (some a) (some b) none = (λ h. ground arith, λ (x, y, e1, e2, e3). cc)
borrow_iff (some a) (some b) (some t) = (
  λ h. let same : b ≡ a = (eq_iff b a).0 (ground arith) in (a, t, refl, ap some same, refl),
  λ (x, y, e1, e2, e3).
      let same : str_eq b a ≡ true = (eq_iff b a).1 (ground arith) in rw same refl,
)

-- Borrowing is enabled exactly when a wallet is connected, the last lookup was for that wallet,
-- and terms are shown.
pub can_borrow_iff :
    (s : State)
    → (can_borrow s ≡ true) ↔ (
        (address : String) × (terms : LoanOffer) × (s.connected_address ≡ some address)
        × (s.looked_up_address ≡ some address)
        × (s.terms ≡ some terms))
unfolding can_borrow
can_borrow_iff s = borrow_iff s.connected_address s.looked_up_address s.terms

module _ {W : Type 0} (runtime : Runtime) (network : Network) (wallet : Wallet W) (clock : Clock W)
    (chain : Chain W) (runs : Runs clock chain) where
  -- The page's state behind a request that is over: a hash, or the message of an error.
  abbrev pub Shown : State → Type 0
  Shown s =
      (s.executing ≡ false)
      × (((hash : String) × (s.tx_hash ≡ some hash)) ⊎ ((m : String) × (s.exec_error ≡ some m)))

  abbrev borrow : ℕ → String → Io (State × W) String
  borrow = execute_loan runtime network (lift_wallet wallet) (lift_clock clock) (lift_chain chain)

  -- With a clock that runs and fuel of 21 at least, a loan request returns, and then the page is
  -- not executing and shows a transaction hash or the message of an error.
  pub execute_for-ends :
      (fuel : ℕ) (address : String) (s : State) (w : W)
      → 21 ≤ fuel
      → ((execute_for runtime network wallet clock chain fuel address (s, w)).0 ≡ ok tt)
        × Shown (execute_for runtime network wallet clock chain fuel address (s, w)).1.0
  unfolding execute_for
  execute_for-ends fuel address s w h =
      let safe =
        (execute_loan-Safe runtime network (lift_wallet wallet) (lift_clock clock)
            (lift_chain chain) (Runs-lift clock chain runs {S = State}) fuel address h).at
          (begin_execute s, w) in
      elim (Result-cases (borrow fuel address (begin_execute s, w)).0) [
        | inl (hash, fine) ↦ rw fine (refl, (refl, inl (hash, refl)))
        | inr (inl (x, broken)) ↦ rw broken (refl, (refl, inr (message_of x, refl)))
        | inr (inr never) ↦ absurd (rw never at safe)
      ]
