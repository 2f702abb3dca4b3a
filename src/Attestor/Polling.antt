-- ===== src/Attestor/Polling.antt =====
-- The polling loop of `prepareAttestation` of attestor.ts, as a sequence of rounds.
use zkredit.Prelude.{
  ℕ, zero, suc, ◌≤◌, ◌≡◌, ◌≢◌, ◌↔◌, ◌⊎◌, inl, inr, ap, true, false, String, arith,
}
use zkredit.Effects.Json.{Json}
use zkredit.Effects.Sync.{Result, Result-cases, ok}
use zkredit.Effects.Io.{Io, continue}
use zkredit.Effects.Browser.{Http, Clock}
use zkredit.Attestor.{
  Phase, PhaseMeta, is_queued_attestation, poll_again, poll_loop, start_prepare_attestation,
  prepare_attestation,
}

Queued-cases :
    (r : Json) → (is_queued_attestation r ≡ ok true) ⊎ (is_queued_attestation r ≢ ok true)
unfolding is_queued_attestation
Queued-cases r = ground arith

module _ {W : Type 0} (http : Http W) (clock : Clock W) (api_url : String)
    (on_phase : Phase → PhaseMeta → W → W) where
  abbrev again : Json → Io W Json
  again = poll_again http clock api_url on_phase

  -- `n` rounds lead from the answer `r` in the world `w` to the answer `j` in `v`: each answer
  -- before the last one is a queued job, and the last one is not.
  abbrev pub Polls : ℕ → Json → W → Json → W → Type 0
  Polls zero r w j v = (is_queued_attestation r ≡ ok false) × (r ≡ j) × (w ≡ v)
  Polls (suc n) r w j v =
      (r' : Json) × (w' : W) × (is_queued_attestation r ≡ ok true)
      × (again r w ≡ (ok r', w'))
      × Polls n r' w' j v

  -- The loop returns the first answer that is no queued job, if the fuel covers the rounds to it.
  poll_loop_complete :
      (fuel n : ℕ) (r : Json) (w : W) (j : Json) (v : W)
      → n ≤ fuel
      → Polls n r w j v
      → poll_loop http clock api_url on_phase fuel r w ≡ (ok j, v)
  unfolding poll_loop
  poll_loop_complete zero zero r w j v h (done, same, stop) = rw (done, same, stop)
  poll_loop_complete (suc fuel) zero r w j v h (done, same, stop) = rw (done, same, stop)
  poll_loop_complete zero (suc n) r w j v h p = absurd (omega arith)
  poll_loop_complete (suc fuel) (suc n) r w j v h (r', w', waits, asked, p) =
      rw (waits, asked) (poll_loop_complete fuel n r' w' j v (omega arith) p)

  -- One step of the loop on a queued answer.
  poll_loop-step :
      (fuel : ℕ) (r : Json) (w : W)
      → is_queued_attestation r ≡ ok true
      → poll_loop http clock api_url on_phase (suc fuel) r w
        ≡ continue (again r w).0 (poll_loop http clock api_url on_phase fuel) (again r w).1
  unfolding poll_loop
  poll_loop-step fuel r w waits = rw waits

  abbrev pub Found : ℕ → Json → W → Json → W → Type 0
  Found fuel r w j v = (n : ℕ) × (n ≤ fuel) × Polls n r w j v

  -- Outside of a queued answer the loop ends at once.
  poll_loop-stop :
      (fuel : ℕ) (r : Json) (w : W) (j : Json) (v : W)
      → is_queued_attestation r ≢ ok true
      → poll_loop http clock api_url on_phase fuel r w ≡ (ok j, v)
      → Polls 0 r w j v
  unfolding poll_loop
  poll_loop-stop zero r w j v h e = ground arith
  poll_loop-stop (suc fuel) r w j v h e = ground arith

  -- What the loop returns is the first answer that is no queued job.
  poll_loop_sound :
      (fuel : ℕ) (r : Json) (w : W) (j : Json) (v : W)
      → poll_loop http clock api_url on_phase fuel r w ≡ (ok j, v)
      → Found fuel r w j v
  poll_loop_sound zero r w j v h =
      (0, omega arith, poll_loop-stop zero r w j v (λ waits. unfold poll_loop in ground arith) h)
  poll_loop_sound (suc fuel) r w j v h = elim (Queued-cases r) [
    | inr stops ↦ (0, omega arith, poll_loop-stop (suc fuel) r w j v stops h)
    | inl waits ↦
        let e = rw (poll_loop-step fuel r w waits) at h in
        elim (Result-cases (again r w).0) [
          | inl (r', asked) ↦
              let (n, le, p) = poll_loop_sound fuel r' (again r w).1 j v (rw asked at e) in
              (suc n, omega arith, (r', (again r w).1, waits, λ i. (asked i, (again r w).1), p))
          | inr (inl (x, failed)) ↦ absurd (cc (ap (λ (x : Result Json × W). x.0) (rw failed at e)))
          | inr (inr never) ↦ absurd (cc (ap (λ (x : Result Json × W). x.0) (rw never at e)))
        ]
  ]

  -- `prepareAttestation` with polling fuel returns j in the world v exactly when the prepare
  -- request is answered and, after n rounds of polling, n at most the fuel, j in v is the first
  -- answer that is no queued job.
  pub prepare_attestation-returns_iff :
      (fuel : ℕ) (wallet : String) (w : W) (j : Json) (v : W)
      → (prepare_attestation http clock api_url on_phase fuel wallet w ≡ (ok j, v)) ↔ (
          (r : Json) × (u : W) × (start_prepare_attestation http clock api_url wallet w ≡ (ok r, u))
          × Found fuel r u j v)
  unfolding prepare_attestation
  prepare_attestation-returns_iff fuel wallet w j v = (
    λ h. elim (Result-cases (start_prepare_attestation http clock api_url wallet w).0) [
      | inl (r, started) ↦ (
        r,
        (start_prepare_attestation http clock api_url wallet w).1,
        λ i. (started i, (start_prepare_attestation http clock api_url wallet w).1),
        poll_loop_sound fuel r (start_prepare_attestation http clock api_url wallet w).1 j v
            (rw started at h),
      )
      | inr (inl (x, failed)) ↦ absurd (cc (ap (λ (x : Result Json × W). x.0) (rw failed at h)))
      | inr (inr never) ↦ absurd (cc (ap (λ (x : Result Json × W). x.0) (rw never at h)))
    ],
    λ (r, u, started, (n, le, p)). rw started (poll_loop_complete fuel n r u j v le p),
  )
