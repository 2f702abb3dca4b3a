-- ===== src/Cosign/Signing.antt =====
-- Who signs which authorization in frontend/scripts/cosign-attest.mjs.
use zkredit.Prelude.{
  ℕ, ◌≡◌, ◌≢◌, refl, sym, ap, ◌∙◌, ◌⊎◌, inl, inr, String, false, some, List, [], ◌∷◌, str_eq,
  eq_iff, eq_refl, All, Bool-cases,
}
use zkredit.Effects.Errors.{Foreign}
use zkredit.Effects.Sync.{ok}
use zkredit.Effects.Io.{returns}
use zkredit.Effects.Browser.{Clock}
use zkredit.Effects.Safe.{bind-answers, settle-ok, ok-injective}
use zkredit.Bytes.{IsByte, to_hex, from_hex}
use zkredit.Bytes.RoundTrip.{from_hex-to_hex}
use zkredit.Cosign.{
  Keypair, Credentials, from_source, from_account, from_other, Sdk, Shell, signer_for, sign_entry,
  sign_entries,
}

-- Documented of the SDK: keys are bytes.
pub record HasBytes {W : Type 0} (sdk : Sdk W) : Type 0 where
  pub raw_key :
      (secret : String) (k : Keypair)
      → sdk.from_secret secret ≡ returns k
      → All IsByte k.raw_public_key
  pub account_key :
      (e : sdk.Entry) (account : List ℕ)
      → sdk.credentials e ≡ from_account account
      → All IsByte account

to_hex-injective :
    (xs ys : List ℕ) → All IsByte xs → All IsByte ys → to_hex xs ≡ to_hex ys → xs ≡ ys
to_hex-injective xs ys hx hy e =
    some_eq (sym (from_hex-to_hex xs hx) ∙ ap from_hex e ∙ from_hex-to_hex ys hy)
  where
    some_eq : some xs ≡ some ys → xs ≡ ys
    some_eq h = cc

module _ {W : Type 0} (shell : Shell W) (sdk : Sdk W) (clock : Clock W)
    (source cosigner : Keypair) where
  -- The cosigner for its own key, and the source for every other.
  abbrev pub IsSigner : List ℕ → Keypair → Type 0
  IsSigner account signer =
      ((account ≡ cosigner.raw_public_key) × (signer ≡ cosigner))
      ⊎ ((account ≢ cosigner.raw_public_key) × (signer ≡ source))

  -- An authorization of the source stays, and one of an account is what the SDK signs of it.
  abbrev pub IsSigned : ℕ → sdk.Entry → sdk.Entry → Type 0
  IsSigned valid_until e s =
      ((sdk.credentials e ≡ from_source) × (s ≡ e))
      ⊎ ((account : List ℕ) × (signer : Keypair) × (w : W) × (sdk.credentials e
            ≡ from_account account)
          × IsSigner account signer
          × ((sdk.authorize_entry e signer valid_until w).0 ≡ returns s))

  abbrev pub AllSigned : ℕ → List sdk.Entry → List sdk.Entry → Type 0
  AllSigned valid_until [] [] = Unit
  AllSigned valid_until (e ∷ es) (s ∷ ss) = IsSigned valid_until e s × AllSigned valid_until es ss
  AllSigned valid_until _ _ = ⊥

  Credentials-cases :
      (c : Credentials)
      → (c ≡ from_source)
        ⊎ (((account : List ℕ) × (c ≡ from_account account)) ⊎ ((x : Foreign) × (c ≡ from_other x)))
  Credentials-cases from_source = inl refl
  Credentials-cases (from_account account) = inr (inl (account, refl))
  Credentials-cases (from_other x) = inr (inr (x, refl))

  module _ (bytes : HasBytes sdk) (raw_key : All IsByte cosigner.raw_public_key) where
    signer_for-IsSigner :
        (account : List ℕ)
        → All IsByte account
        → IsSigner account (signer_for shell sdk clock source cosigner account)
    unfolding signer_for
    signer_for-IsSigner account h =
        elim (Bool-cases (str_eq (to_hex account) (to_hex cosigner.raw_public_key))) [
          | inl same ↦ rw same (
              inl (
                to_hex-injective account cosigner.raw_public_key h raw_key
                    ((eq_iff (to_hex account) (to_hex cosigner.raw_public_key)).0 same),
                refl,
              ))
          | inr other ↦ rw other (inr ((λ e. differs e other), refl))
        ]
      where
        differs :
            account ≡ cosigner.raw_public_key
            → str_eq (to_hex account) (to_hex cosigner.raw_public_key) ≡ false
            → ⊥
        differs e other = cc (eq_refl (to_hex cosigner.raw_public_key))

    sign_entry-IsSigned :
        (valid_until : ℕ) (e s : sdk.Entry) (w : W)
        → (sign_entry shell sdk clock source cosigner valid_until e w).0 ≡ ok s
        → IsSigned valid_until e s
    unfolding sign_entry
    sign_entry-IsSigned valid_until e s w h = elim (Credentials-cases (sdk.credentials e)) [
      | inl by_source ↦ inl (by_source, cc (rw by_source at h))
      | inr (inl (account, named)) ↦
          let answer = rw named at h in
          let signer = signer_for shell sdk clock source cosigner account in
          inr (
            account,
            signer,
            w,
            named,
            signer_for-IsSigner account (bytes.account_key e account named),
            settle-ok (sdk.authorize_entry e signer valid_until w).0 s answer,
          )
      | inr (inr (x, named)) ↦ cc (rw named at h)
    ]

    pub sign_entries-AllSigned :
        (valid_until : ℕ) (es ss : List sdk.Entry) (w : W)
        → (sign_entries shell sdk clock source cosigner valid_until es w).0 ≡ ok ss
        → AllSigned valid_until es ss
    unfolding sign_entries
    sign_entries-AllSigned valid_until [] ss w h = rw (← (ok-injective [] ss h)) tt
    sign_entries-AllSigned valid_until (e ∷ es) ss w h =
        bind-answers (sign_entry shell sdk clock source cosigner valid_until e) _ w ss h
          (λ s u one h1.
            bind-answers (sign_entries shell sdk clock source cosigner valid_until es) _ u ss h1
              (λ rest v more h2. rw (← (ok-injective (s ∷ rest) ss h2)) (
                sign_entry-IsSigned valid_until e s w one,
                sign_entries-AllSigned valid_until es rest u more,
              )))
