-- ===== src/Rpc/Success.antt =====
-- Submissions of contracts/rpc.ts that return a hash.
use zkredit.Prelude.{ℕ, ◌+◌, ◌≡◌, ◌∙◌, ap, String, false, str_eq, Bool-cases, inl, inr}
use zkredit.Effects.Sync.{ok}
use zkredit.Effects.Io.{returns}
use zkredit.Effects.Browser.{Sent, success, Chain, Clock, Wallet}
use zkredit.Freighter.{Network}
use zkredit.Rpc.{await_status, submit, poll_timeout_ms}
use zkredit.Rpc.Waiting.{wait_loop-success, Reply-cases}

module _ {W : Type 0} (network : Network) (wallet : Wallet W) (clock : Clock W)
    (chain : Chain W) where
  abbrev pub Seen : String → Type 0
  Seen hash = (u : W) × ((chain.get_transaction hash u).0 ≡ returns success)

  await_status-success :
      (fuel : ℕ) (label hash h : String) (w : W)
      → (await_status network wallet clock chain fuel label hash w).0 ≡ ok h
      → (h ≡ hash) × Seen hash
  unfolding await_status
  await_status-success fuel label hash h w e = elim (Reply-cases (chain.get_transaction hash w).0) [
    | inl (status, answered) ↦
        let (same, seen) =
          wait_loop-success network wallet clock chain label hash fuel
            (clock.now w + poll_timeout_ms) status (chain.get_transaction hash w).1 h
            (rw answered at e) in
        (same, elim seen [ inl now ↦ (w, answered ∙ ap returns now) | inr later ↦ later ])
    | inr (x, broken) ↦ cc (rw broken at e)
  ]

  -- If `submit` returns a hash, the server accepted the transaction with a status other than
  -- ERROR, the hash is the one it answered, and some query for that hash was answered with
  -- SUCCESS.
  pub submit-success :
      (fuel : ℕ) (failure label tx h : String) (w : W)
      → (submit network wallet clock chain fuel failure label tx w).0 ≡ ok h
      → (sent : Sent) × ((chain.send_transaction tx w).0 ≡ returns sent)
        × (str_eq sent.status "ERROR" ≡ false)
        × (h ≡ sent.hash)
        × Seen h
  unfolding submit
  submit-success fuel failure label tx h w e = elim (Reply-cases (chain.send_transaction tx w).0) [
    | inl (sent, answered) ↦ elim (Bool-cases (str_eq sent.status "ERROR")) [
      | inl refused ↦ cc (rw refused at (rw answered at e))
      | inr accepted ↦
          let (same, (u, seen)) =
            await_status-success fuel label sent.hash h (chain.send_transaction tx w).1
              (rw accepted at (rw answered at e)) in
          (sent, answered, accepted, same, (u, rw same seen))
    ]
    | inr (x, broken) ↦ cc (rw broken at e)
  ]
