-- ===== src/Cosign/Running.antt =====
-- The whole of frontend/scripts/cosign-attest.mjs: what a printed link says.
use zkredit.Prelude.{ℕ, ◌≡◌, ◌∙◌, inl, inr, String, List, [], ◌∷◌, str_eq, Bool-cases, trim, ◌||◌}
use zkredit.Effects.Browser.{Clock}
use zkredit.Effects.Sync.{ok, Result-cases}
use zkredit.Effects.Io.{returns, await}
use zkredit.Effects.Safe.{bind-answers, settle-ok}
use zkredit.Cosign.{Keypair, Sdk, Shell, printed, cosigned, keypair_for, main_for, main, run}
use zkredit.Cosign.Signing.{HasBytes}
use zkredit.Cosign.Submitting.{IsSubmitted, submitted-printed}
use zkredit.Cosign.Preparing.{IsCosigned, cosigned-IsCosigned}

module _ {W : Type 0} (shell : Shell W) (sdk : Sdk W) (clock : Clock W) where
  -- The key pair of the secret that the shell has for an alias.
  abbrev pub IsKeypair : String → Keypair → Type 0
  IsKeypair alias k =
      (secret : String) × (w : W) × ((shell.secret_of alias w).0 ≡ returns secret)
      × (sdk.from_secret (trim secret) ≡ returns k)

  keypair_for-IsKeypair :
      (alias : String) (k : Keypair) (w : W)
      → (keypair_for shell sdk clock alias w).0 ≡ ok k
      → IsKeypair alias k
  unfolding keypair_for
  keypair_for-IsKeypair alias k w h =
      bind-answers (await (shell.secret_of alias)) _ w k h (λ secret u told h1. (
        secret,
        w,
        settle-ok (shell.secret_of alias w).0 secret told,
        settle-ok (sdk.from_secret (trim secret)) k h1,
      ))

  -- The parties of the three arguments, the text of the file, and the transaction that is submitted.
  abbrev pub IsDone : List String → String → Type 0
  IsDone (xdr_path ∷ source_alias ∷ cosigner_alias ∷ more) url =
      (source : Keypair) × (cosigner : Keypair) × (text : String) × (tx : sdk.Tx) × (w : W)
      × IsKeypair source_alias source
      × IsKeypair cosigner_alias cosigner
      × ((shell.read_file xdr_path w).0 ≡ returns text)
      × IsCosigned shell sdk clock source cosigner (trim text) tx
      × IsSubmitted shell sdk clock tx url
  IsDone _ url = ⊥

  module _ (bytes : HasBytes sdk) where
    main_for-IsDone :
        (fuel : ℕ) (xdr_path source_alias cosigner_alias url : String) (more : List String) (w : W)
        → (main_for shell sdk clock fuel xdr_path source_alias cosigner_alias w).0
          ≡ ok (printed url)
        → IsDone (xdr_path ∷ source_alias ∷ cosigner_alias ∷ more) url
    unfolding main_for
    main_for-IsDone fuel xdr_path source_alias cosigner_alias url more w h =
        bind-answers (keypair_for shell sdk clock source_alias) _ w (printed url) h
          (λ source w1 first h1.
            bind-answers (keypair_for shell sdk clock cosigner_alias) _ w1 (printed url) h1
              (λ cosigner w2 second h2.
                bind-answers (await (shell.read_file xdr_path)) _ w2 (printed url) h2
                  (λ text w3 read h3.
                    bind-answers (cosigned shell sdk clock source cosigner (trim text)) _ w3
                      (printed url) h3
                      (λ tx w4 made h4.
                        let keys = keypair_for-IsKeypair cosigner_alias cosigner w1 second in
                        (
                          source,
                          cosigner,
                          text,
                          tx,
                          w2,
                          keypair_for-IsKeypair source_alias source w first,
                          keys,
                          settle-ok (shell.read_file xdr_path w2).0 text read,
                          cosigned-IsCosigned shell sdk clock source cosigner bytes
                              (bytes.raw_key (trim keys.0) cosigner keys.3) (trim text) tx w3 made,
                          submitted-printed shell sdk clock fuel tx url w4 h4,
                        )))))

    main-IsDone :
        (fuel : ℕ) (args : List String) (url : String) (w : W)
        → (main shell sdk clock fuel args w).0 ≡ ok (printed url)
        → IsDone args url
    unfolding main
    main-IsDone fuel [] url w h = cc
    main-IsDone fuel (a ∷ []) url w h = cc
    main-IsDone fuel (a ∷ b ∷ []) url w h = cc
    main-IsDone fuel (a ∷ b ∷ c ∷ more) url w h =
        elim (Bool-cases (str_eq a "" || str_eq b "" || str_eq c "")) [
          | inl missing ↦ cc (rw missing at h)
          | inr given ↦ main_for-IsDone fuel a b c url more w (rw given at h)
        ]

    -- With an SDK whose keys are bytes, if the script prints the link of a transaction, then the
    -- parties are those of the secrets that the shell has for the second and third argument; what
    -- it sent is the envelope of the file with the authorizations that a simulation of it
    -- recorded, in their order: those of the source unchanged, those of the cosigner's key signed
    -- by the cosigner, and all others by the source; that was assembled and signed by the source;
    -- the server accepted it with a status other than ERROR; and some query for the hash of the
    -- link was answered with SUCCESS.
    pub run-IsDone :
        (fuel : ℕ) (args : List String) (url : String) (w : W)
        → (run shell sdk clock fuel args w).0 ≡ ok (printed url)
        → IsDone args url
    unfolding run
    run-IsDone fuel args url w h = elim (Result-cases (main shell sdk clock fuel args w).0) [
      | inl (outcome, e) ↦ main-IsDone fuel args url w (e ∙ (rw e at h))
      | inr (inl (x, e)) ↦ cc (rw e at h)
      | inr (inr e) ↦ cc (rw e at h)
    ]
