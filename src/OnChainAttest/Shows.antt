-- ===== src/OnChainAttest/Shows.antt =====
-- What the page of frontend/src/components/OnChainAttest.tsx offers and marks in each phase.
use zkredit.Prelude.{
  ℕ, suc, ◌≡◌, refl, String, Bool, true, false, not, ◌&&◌, Option, none, some, List, [], ◌∷◌, ◌⊎◌,
  inl, inr, if◌then◌else◌,
}
use zkredit.Contracts.{AttestationData}
use zkredit.View.{offered}
use zkredit.OnChainAttest.{
  State, Phase, idle, connecting, creating_session, preparing, waiting, signing, submitting,
  reading, done, failed, ErrorState, is_busy, stepper_state,
}
use zkredit.OnChainAttest.Reveal.{Mark, active, finished, ahead, mark}
use zkredit.OnChainAttest.Page.{
  connects, attests, Page, page, with_wallet, without_wallet, has_wallet, if_failed, if_done,
  step_marks, is_connecting,
}

-- Finished steps, then at most one that is active, then the ones ahead.
abbrev only_ahead : List Mark → Bool
only_ahead [] = true
only_ahead (ahead ∷ marks) = only_ahead marks
only_ahead (m ∷ marks) = false

abbrev pub in_order : List Mark → Bool
in_order [] = true
in_order (finished ∷ marks) = in_order marks
in_order (active ∷ marks) = only_ahead marks
in_order (ahead ∷ marks) = only_ahead marks

abbrev pub active_count : List Mark → ℕ
active_count [] = 0
active_count (active ∷ marks) = suc (active_count marks)
active_count (m ∷ marks) = active_count marks

abbrev pub one_if : Bool → ℕ
one_if true = 1
one_if false = 0

-- A run of the attestation is on its way.
abbrev pub is_running : Phase → Bool
is_running phase = is_busy phase && not (is_connecting phase)

pub record IsFaithful (s : State) (p : Page) : Type 0 where
  pub connect_offered :
      has_wallet s.wallet ≡ none
      → offered p.panel ≡ (if is_connecting s.phase then [] else connects ∷ [])
  pub attest_offered :
      (w : String)
      → has_wallet s.wallet ≡ some w
      → (offered p.panel ≡ (if is_busy s.phase then [] else attests ∷ []))
        × (in_order p.marks ≡ true)
        × (active_count p.marks ≡ one_if (is_running s.phase))
  pub one_outcome : (p.error ≡ none) ⊎ (p.credential ≡ none)

offers_connect :
    (phase : Phase)
    → offered (without_wallet phase) ≡ (if is_connecting phase then [] else connects ∷ [])
unfolding without_wallet offered
offers_connect connecting = refl
offers_connect idle = refl
offers_connect creating_session = refl
offers_connect preparing = refl
offers_connect waiting = refl
offers_connect signing = refl
offers_connect submitting = refl
offers_connect reading = refl
offers_connect done = refl
offers_connect failed = refl

abbrev Marked : String → Phase → Type 0
Marked w phase =
    (offered (with_wallet w phase) ≡ (if is_busy phase then [] else attests ∷ []))
    × (in_order (step_marks phase) ≡ true)
    × (active_count (step_marks phase) ≡ one_if (is_running phase))

marked : (w : String) (phase : Phase) → Marked w phase
unfolding with_wallet offered step_marks stepper_state mark
marked w idle = (refl, refl, refl)
marked w connecting = (refl, refl, refl)
marked w creating_session = (refl, refl, refl)
marked w preparing = (refl, refl, refl)
marked w waiting = (refl, refl, refl)
marked w signing = (refl, refl, refl)
marked w submitting = (refl, refl, refl)
marked w reading = (refl, refl, refl)
marked w done = (refl, refl, refl)
marked w failed = (refl, refl, refl)

one_of :
    (phase : Phase) (e : Option ErrorState) (a : Option AttestationData)
    → (if_failed phase e ≡ none) ⊎ (if_done phase a ≡ none)
one_of failed e a = inr refl
one_of idle e a = inl refl
one_of connecting e a = inl refl
one_of creating_session e a = inl refl
one_of preparing e a = inl refl
one_of waiting e a = inl refl
one_of signing e a = inl refl
one_of submitting e a = inl refl
one_of reading e a = inl refl
one_of done e a = inl refl

-- In every state of the page: without a wallet it offers Connect, unless that is under way; with
-- one it offers the attestation exactly while nothing is under way, its steps are finished ones,
-- at most one active and then the ones ahead, and exactly one is active while a run is on its way,
-- none otherwise; and an error and a credential are never shown together.
pub page-IsFaithful : (s : State) → IsFaithful s (page s)
unfolding page
page-IsFaithful s = record {
  connect_offered = λ e. rw e (offers_connect s.phase);
  attest_offered = λ w e. rw e (marked w s.phase);
  one_outcome = one_of s.phase s.error s.attestation;
}
