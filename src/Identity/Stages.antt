-- ===== src/Identity/Stages.antt =====
-- The stages of the wizard in Identity.tsx.
use zkredit.Prelude.{
  ℕ, zero, suc, ◌≡◌, ◌↔◌, refl, Bool, true, false, Option, none, some, List, [], ◌∷◌, take,
  get_elem?, All, arith,
}
use zkredit.Identity.{finished, active, active_stage, state_at, later, stage_state}

abbrev pub AllDone : List Bool → Type 0
AllDone = All (λ d. d ≡ true)

state_at-later : (o : Option ℕ) (i : ℕ) → state_at (later o) (suc i) ≡ state_at o i
state_at-later none i = refl
state_at-later (some n) i = ground arith

state_at-zero : (o : Option ℕ) → state_at (later o) 0 ≡ finished
state_at-zero none = refl
state_at-zero (some n) = ground arith

-- One more stage in front that is done moves all others by one.
stage_state-true :
    (stages : List Bool) (i : ℕ) → stage_state (true ∷ stages) (suc i) ≡ stage_state stages i
unfolding stage_state active_stage
stage_state-true stages i = state_at-later (active_stage stages) i

-- A stage of the wizard is shown as done exactly when it and all stages before it are done.
stage_state-finished_iff :
    (stages : List Bool) (i : ℕ) → (stage_state stages i ≡ finished) ↔ AllDone (take (suc i) stages)
stage_state-finished_iff [] i = (λ _. tt, λ _. unfold stage_state active_stage in refl)
stage_state-finished_iff (false ∷ stages) i = unfold stage_state active_stage in ground arith
stage_state-finished_iff (true ∷ stages) zero =
    (λ _. (refl, tt), λ _. unfold stage_state active_stage in state_at-zero (active_stage stages))
stage_state-finished_iff (true ∷ stages) (suc i) =
    rw (stage_state-true stages i) (
      let (there, back) = stage_state-finished_iff stages i in
      (λ h. (refl, there h), λ h. back h.1))

-- A stage of the wizard is the active one exactly when all stages before it are done and it is
-- not.
stage_state-active_iff :
    (stages : List Bool) (i : ℕ)
    → (stage_state stages i ≡ active)
      ↔ (AllDone (take i stages) × (get_elem? stages i ≡ some false))
stage_state-active_iff [] i = unfold stage_state active_stage in ground arith
stage_state-active_iff (false ∷ stages) zero = unfold stage_state active_stage in ground arith
stage_state-active_iff (false ∷ stages) (suc i) = unfold stage_state active_stage in ground arith
stage_state-active_iff (true ∷ stages) zero =
    unfold stage_state active_stage in ground (arith, state_at-zero (active_stage stages))
stage_state-active_iff (true ∷ stages) (suc i) = rw (stage_state-true stages i) (
    let (there, back) = stage_state-active_iff stages i in
    (λ h. ((refl, (there h).0), (there h).1), λ h. back (h.0.1, h.1)))
