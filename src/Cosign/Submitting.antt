-- ===== src/Cosign/Submitting.antt =====
-- What the end of frontend/scripts/cosign-attest.mjs says: when it prints the link of a transaction.
use zkredit.Prelude.{
  ℕ, zero, suc, ◌≡◌, refl, ap, ◌∙◌, ◌⊎◌, inl, inr, String, false, str_eq, Bool-cases,
}
use zkredit.Effects.Browser.{Clock, Sent, TxStatus, not_found, success, failed}
use zkredit.Effects.Sync.{ok}
use zkredit.Effects.Io.{returns, await, pure, ◌>>=◌}
use zkredit.Effects.Safe.{bind-answers, settle-ok, ok-injective}
use zkredit.Cosign.{Sdk, Shell, printed, tx_url, wait_for, outcome_of, submitted}

module _ {W : Type 0} (shell : Shell W) (sdk : Sdk W) (clock : Clock W) where
  abbrev pub IsFinal : String → Type 0
  IsFinal hash = (u : W) × ((sdk.get_transaction hash u).0 ≡ returns success)

  wait_for-success :
      (fuel : ℕ) (hash : String) (status : TxStatus) (w : W)
      → (wait_for shell sdk clock fuel hash status w).0 ≡ ok success
      → (status ≡ success) ⊎ IsFinal hash
  unfolding wait_for
  wait_for-success fuel hash success w h = inl refl
  wait_for-success fuel hash failed w h = cc
  wait_for-success zero hash not_found w h = cc
  wait_for-success (suc fuel) hash not_found w h =
      bind-answers (await (sdk.get_transaction hash)) (wait_for shell sdk clock fuel hash)
        (clock.delay 1500 w) success h
        (λ status u asked rest. elim (wait_for-success fuel hash status u rest) [
          | inl now ↦ inr (
            clock.delay 1500 w,
            settle-ok (sdk.get_transaction hash (clock.delay 1500 w)).0 status asked
                ∙ ap returns now,
          )
          | inr later ↦ inr later
        ])

  -- The server has taken the transaction, and some query for its hash was answered with SUCCESS.
  abbrev pub IsSubmitted : sdk.Tx → String → Type 0
  IsSubmitted tx url =
      (sent : Sent) × (w : W) × ((sdk.send_transaction tx w).0 ≡ returns sent)
      × (str_eq sent.status "ERROR" ≡ false)
      × (url ≡ tx_url sent.hash)
      × IsFinal sent.hash

  outcome_of-printed :
      (hash url : String) (status : TxStatus)
      → outcome_of shell sdk clock hash status ≡ printed url
      → (status ≡ success) × (url ≡ tx_url hash)
  unfolding outcome_of
  outcome_of-printed hash url success h = (refl, cc)
  outcome_of-printed hash url failed h = cc
  outcome_of-printed hash url not_found h = cc

  finally_seen :
      (fuel : ℕ) (hash url : String) (w : W)
      → ((await (sdk.get_transaction hash) >>= λ first.
            wait_for shell sdk clock fuel hash first >>= λ last.
            pure (outcome_of shell sdk clock hash last))
          w).0
        ≡ ok (printed url)
      → (url ≡ tx_url hash) × IsFinal hash
  finally_seen fuel hash url w h =
      bind-answers (await (sdk.get_transaction hash)) _ w (printed url) h (λ first u asked h1.
        bind-answers (wait_for shell sdk clock fuel hash first) _ u (printed url) h1
          (λ last v waited h2.
            let (done, same) = outcome_of-printed hash url last (ok-injective _ (printed url) h2) in
            (
              same,
              elim (wait_for-success fuel hash first u (waited ∙ ap ok done)) [
                | inl now ↦
                    (w, settle-ok (sdk.get_transaction hash w).0 first asked ∙ ap returns now)
                | inr later ↦ later
              ],
            )))

  pub submitted-printed :
      (fuel : ℕ) (tx : sdk.Tx) (url : String) (w : W)
      → (submitted shell sdk clock fuel tx w).0 ≡ ok (printed url)
      → IsSubmitted tx url
  unfolding submitted
  submitted-printed fuel tx url w h =
      bind-answers (await (sdk.send_transaction tx)) _ w (printed url) h (λ sent u taken h1.
        elim (Bool-cases (str_eq sent.status "ERROR")) [
          | inl refused ↦ cc (rw refused at h1)
          | inr accepted ↦
              let seen = finally_seen fuel sent.hash url u (rw accepted at h1) in
              (
                sent,
                w,
                settle-ok (sdk.send_transaction tx w).0 sent taken,
                accepted,
                seen.0,
                seen.1,
              )
        ])
