-- ===== src/Rpc/Waiting.antt =====
-- The loop of contracts/rpc.ts that waits for a submitted transaction: its end, and its success.
use zkredit.Prelude.{
  ℕ, zero, suc, ◌+◌, ◌*◌, ◌≤◌, ◌<◌, ◌≡◌, ◌≢◌, ◌∙◌, ap, ◌⊎◌, inl, inr, refl, Bool-cases, String,
  true, false, arith, ltb,
}
use zkredit.Effects.Errors.{Foreign}
use zkredit.Effects.Sync.{ok, pending}
use zkredit.Effects.Io.{Io, Reply, returns, throws, continue, settle}
use zkredit.Effects.Browser.{TxStatus, not_found, success, failed, Chain, Clock, Wallet}
use zkredit.Freighter.{Network}
use zkredit.Rpc.{wait_loop, poll_interval_ms}

-- What is relied on of the clock: a timer of `ms` runs that long at least, and time does not go
-- back while a server answers.
pub record Runs {W : Type 0} (clock : Clock W) (chain : Chain W) : Type 0 where
  pub delayed : (ms : ℕ) (w : W) → clock.now w + ms ≤ clock.now (clock.delay ms w)
  pub sent : (tx : String) (w : W) → clock.now w ≤ clock.now (chain.send_transaction tx w).1
  pub asked : (hash : String) (w : W) → clock.now w ≤ clock.now (chain.get_transaction hash w).1

pub Reply-cases {ℓ} :
    {A : Type ℓ} (r : Reply A) → ((a : A) × (r ≡ returns a)) ⊎ ((e : Foreign) × (r ≡ throws e))
Reply-cases (returns a) = inl (a, refl)
Reply-cases (throws e) = inr (e, refl)

module _ {W : Type 0} (network : Network) (wallet : Wallet W) (clock : Clock W) (chain : Chain W)
    (label hash : String) where
  abbrev loop : ℕ → ℕ → TxStatus → Io W String
  loop fuel deadline = wait_loop network wallet clock chain fuel deadline label hash

  abbrev asked : W → Reply TxStatus × W
  asked w = chain.get_transaction hash (clock.delay poll_interval_ms w)

  pub wait_loop-step :
      (fuel deadline : ℕ) (w : W)
      → ltb deadline (clock.now w) ≡ false
      → loop (suc fuel) deadline not_found w
        ≡ continue (settle (asked w).0) (loop fuel deadline) (asked w).1
  unfolding wait_loop
  wait_loop-step fuel deadline w h = rw h

  wait_loop-late :
      (fuel deadline : ℕ) (w : W)
      → ltb deadline (clock.now w) ≡ true
      → (loop fuel deadline not_found w).0 ≢ pending
  unfolding wait_loop
  wait_loop-late zero deadline w h = rw h (λ e. cc)
  wait_loop-late (suc fuel) deadline w h = rw h (λ e. cc)

  wait_loop-done :
      (fuel deadline : ℕ) (status : TxStatus) (w : W)
      → status ≢ not_found
      → (loop fuel deadline status w).0 ≢ pending
  unfolding wait_loop
  wait_loop-done fuel deadline not_found w h e = absurd (h refl)
  wait_loop-done zero deadline _ w h e = cc
  wait_loop-done (suc fuel) deadline _ w h e = cc

  module _ (runs : Runs clock chain) where
    -- With a clock that runs, waiting for a transaction does not use up its fuel if the present
    -- time, plus the polling interval times the fuel, lies beyond the deadline.
    pub wait_loop-ends :
        (fuel deadline : ℕ) (status : TxStatus) (w : W)
        → deadline < clock.now w + poll_interval_ms * fuel
        → (loop fuel deadline status w).0 ≢ pending
    wait_loop-ends fuel deadline success w h p = wait_loop-done fuel deadline success w (λ e. cc) p
    wait_loop-ends fuel deadline failed w h p = wait_loop-done fuel deadline failed w (λ e. cc) p
    wait_loop-ends zero deadline not_found w h p = wait_loop-late zero deadline w (ground arith) p
    wait_loop-ends (suc fuel) deadline not_found w h e =
        elim (Bool-cases (ltb deadline (clock.now w))) [
          | inl late ↦ wait_loop-late (suc fuel) deadline w late e
          | inr early ↦
              let e' = rw (wait_loop-step fuel deadline w early) at e in
              elim (Reply-cases (asked w).0) [
                | inl (status, answered) ↦
                    wait_loop-ends fuel deadline status (asked w).1
                      (omega (
                        arith,
                        runs.delayed poll_interval_ms w,
                        runs.asked hash (clock.delay poll_interval_ms w),
                      ))
                      (rw answered at e')
                | inr (x, broken) ↦ cc (rw broken at e')
              ]
        ]

  abbrev SeenSuccess : Type 0
  SeenSuccess = (u : W) × ((chain.get_transaction hash u).0 ≡ returns success)

  -- A transaction is reported as done only when the chain said so.
  pub wait_loop-success :
      (fuel deadline : ℕ) (status : TxStatus) (w : W) (h : String)
      → (loop fuel deadline status w).0 ≡ ok h
      → (h ≡ hash) × ((status ≡ success) ⊎ SeenSuccess)
  wait_loop-success zero deadline success w h e = (unfold wait_loop in ground arith, inl refl)
  wait_loop-success (suc fuel) deadline success w h e = (unfold wait_loop in ground arith, inl refl)
  wait_loop-success zero deadline failed w h e = unfold wait_loop in cc
  wait_loop-success (suc fuel) deadline failed w h e = unfold wait_loop in cc
  wait_loop-success zero deadline not_found w h e = unfold wait_loop in ground arith
  wait_loop-success (suc fuel) deadline not_found w h e =
      elim (Bool-cases (ltb deadline (clock.now w))) [
        | inl late ↦ unfold wait_loop in ground arith
        | inr early ↦
            let e' = rw (wait_loop-step fuel deadline w early) at e in
            elim (Reply-cases (asked w).0) [
              | inl (status, answered) ↦
                  let (same, seen) =
                    wait_loop-success fuel deadline status (asked w).1 h (rw answered at e') in
                  (
                    same,
                    elim seen [
                      | inl now ↦ inr (clock.delay poll_interval_ms w, answered ∙ ap returns now)
                      | inr later ↦ inr later
                    ],
                  )
              | inr (x, broken) ↦ cc (rw broken at e')
            ]
      ]
