-- ===== src/Effects/Safe.antt =====
-- What asynchronous functions can throw, and whether they can wait for ever: one rule for each way
-- to build a function.
use zkredit.Prelude.{◌≡◌, ◌≢◌, refl, sym, ap, ◌∙◌, inl, inr, Bool, true, false, if◌then◌else◌}
use zkredit.Effects.Errors.{
  Exception, error, value, base_error, api_error, freighter_error, contract_rpc_error,
  attestation_prepare_error, Foreign, error_object, bare, to_exception,
}
use zkredit.Effects.Sync.{Result, Result-cases, ok, thrown, pending}
use zkredit.Effects.Io.{
  Io, Reply, returns, throws, pure, throw, ◌>>=◌, try_catch, modify, await, await_or, call, sync,
  settle, continue, handle,
}

-- `P` holds of what is thrown, and `Q` holds if the fuel ran out.
abbrev pub Outcome {ℓ} : {A : Type ℓ} → (Exception → Type 0) → Type 0 → Result A → Type 0
Outcome P Q (ok a) = Unit {0}
Outcome P Q (thrown e) = P e
Outcome P Q pending = Q

pub record Safe {W A : Type 0} (P : Exception → Type 0) (Q : Type 0) (m : Io W A) : Type 0 where
  pub at : (w : W) → Outcome P Q (m w).0

module _ {A : Type 0} (P : Exception → Type 0) (Q : Type 0) where
  Outcome-settle : (r : Reply A) → ((e : Foreign) → P (to_exception e)) → Outcome P Q (settle r)
  Outcome-settle (returns a) h = tt
  Outcome-settle (throws e) h = h e

module _ {W A : Type 0} {P : Exception → Type 0} {Q : Type 0} where
  pub Safe-pure : (a : A) → Safe P Q (pure {W = W} a)
  Safe-pure a = record { at = λ w. tt }

  pub Safe-throw : (e : Exception) → P e → Safe P Q (throw {W = W} {A = A} e)
  Safe-throw e p = record { at = λ w. p }

  pub Safe-sync : (r : Result A) → Outcome P Q r → Safe P Q (sync {W = W} r)
  Safe-sync r h = record { at = λ w. h }

  pub Safe-if :
      (b : Bool) (m n : Io W A)
      → (b ≡ true → Safe P Q m)
      → (b ≡ false → Safe P Q n)
      → Safe P Q (if b then m else n)
  Safe-if true m n hm hn = hm refl
  Safe-if false m n hm hn = hn refl

  pub Safe-await :
      (op : W → Reply A × W) → ((e : Foreign) → P (to_exception e)) → Safe P Q (await op)
  Safe-await op h = record { at = λ w. Outcome-settle P Q (op w).0 h }

  pub Safe-call : (r : Reply A) → ((e : Foreign) → P (to_exception e)) → Safe P Q (call {W = W} r)
  Safe-call r h = record { at = λ w. Outcome-settle P Q r h }

module _ {W : Type 0} {P : Exception → Type 0} {Q : Type 0} where
  pub Safe-modify : (f : W → W) → Safe P Q (modify f)
  Safe-modify f = record { at = λ w. tt }

module _ {W A B : Type 0} {P : Exception → Type 0} {Q : Type 0} where
  Outcome-continue :
      (r : Result A) (f : A → Io W B) (w : W)
      → Outcome P Q r
      → ((a : A) → r ≡ ok a → Safe P Q (f a))
      → Outcome P Q (continue r f w).0
  Outcome-continue (ok a) f w h k = (k a refl).at w
  Outcome-continue (thrown e) f w h k = h
  Outcome-continue pending f w h k = h

  pub Safe-bind :
      (m : Io W A) (f : A → Io W B) → Safe P Q m → ((a : A) → Safe P Q (f a)) → Safe P Q (m >>= f)
  Safe-bind m f hm hf = record {
    at = λ w. Outcome-continue (m w).0 f (m w).1 (hm.at w) (λ a _. hf a);
  }

module _ {W A : Type 0} {P P' : Exception → Type 0} {Q : Type 0} where
  Outcome-handle :
      (r : Result A) (f : Exception → Io W A) (w : W)
      → Outcome P' Q r
      → ((e : Exception) → P' e → Safe P Q (f e))
      → Outcome P Q (handle r f w).0
  Outcome-handle (ok a) f w h k = tt
  Outcome-handle (thrown e) f w h k = (k e h).at w
  Outcome-handle pending f w h k = h

  -- What the protected part throws reaches only the handler.
  pub Safe-try_catch :
      (m : Io W A) (f : Exception → Io W A)
      → Safe P' Q m
      → ((e : Exception) → P' e → Safe P Q (f e))
      → Safe P Q (try_catch m f)
  Safe-try_catch m f hm hf = record { at = λ w. Outcome-handle (m w).0 f (m w).1 (hm.at w) hf }

Outcome-handle_all :
    {W A : Type 0} (P : Exception → Type 0) (Q : Type 0) (r : Reply A) (e : Exception) (w : W)
    → P e
    → Outcome P Q (handle (settle r) (λ _. throw {W = W} {A = A} e) w).0
Outcome-handle_all P Q (returns a) e w p = tt
Outcome-handle_all P Q (throws x) e w p = p

module _ {W A : Type 0} {P : Exception → Type 0} {Q : Type 0} where
  pub Safe-await_or :
      (e : Exception) (op : W → Reply A × W) → P e → Safe P Q (await_or {W = W} {A = A} e op)
  Safe-await_or e op p = record { at = λ w. Outcome-handle_all P Q (op w).0 e (op w).1 p }

-- No instance of a class of the client: what `new Error` makes, or another value.
abbrev pub IsPlain : Exception → Type 0
IsPlain (error base_error k message) = Unit {0}
IsPlain (error api_error k message) = ⊥
IsPlain (error freighter_error k message) = ⊥
IsPlain (error contract_rpc_error k message) = ⊥
IsPlain (error attestation_prepare_error k message) = ⊥
IsPlain (value text) = Unit {0}

pub to_exception-IsPlain : (e : Foreign) → IsPlain (to_exception e)
to_exception-IsPlain (error_object message) = tt
to_exception-IsPlain (bare text) = tt

-- A result that is not pending is safe also where waiting for ever is excluded.
pub Outcome-ends {ℓ} :
    {A : Type ℓ} (P : Exception → Type 0) (r : Result A)
    → Outcome P (Unit {0}) r
    → r ≢ pending
    → Outcome P ⊥ r
Outcome-ends P (ok a) h k = tt
Outcome-ends P (thrown e) h k = h
Outcome-ends P pending h k = k refl

Outcome-returns : {A : Type 0} (r : Result A) → Outcome (λ _. ⊥) ⊥ r → (a : A) × (r ≡ ok a)
Outcome-returns (ok a) h = (a, refl)
Outcome-returns (thrown e) h = absurd h
Outcome-returns pending h = absurd h

Outcome-may_wait :
    {A : Type 0} (P : Exception → Type 0) (r : Result A) → Outcome P ⊥ r → Outcome P (Unit {0}) r
Outcome-may_wait P (ok a) h = tt
Outcome-may_wait P (thrown e) h = h
Outcome-may_wait P pending h = tt

pub Safe-may_wait :
    {W A : Type 0} (P : Exception → Type 0) (m : Io W A) → Safe P ⊥ m → Safe P (Unit {0}) m
Safe-may_wait P m h = record { at = λ w. Outcome-may_wait P (m w).0 (h.at w) }

-- What throws nothing returns.
pub Safe-returns :
    {W A : Type 0} (m : Io W A) → Safe (λ _. ⊥) ⊥ m → (w : W) → (a : A) × ((m w).0 ≡ ok a)
Safe-returns m h w = Outcome-returns (m w).0 (h.at w)

-- A bind that returns has run both of its parts.
pub bind-eq-ok :
    {W A B : Type 0} (m : Io W A) (f : A → Io W B) (w : W) (b : B)
    → ((m >>= f) w).0 ≡ ok b
    → (a : A) × ((m w).0 ≡ ok a) × ((m >>= f) w ≡ f a (m w).1)
bind-eq-ok m f w b h = elim (Result-cases (m w).0) [
  | inl (a, e) ↦ (a, e, rw e refl)
  | inr (inl (x, e)) ↦ cc (rw e at h)
  | inr (inr e) ↦ cc (rw e at h)
]

-- The same, by the answers alone: the second part has run in some world.
pub bind-answers :
    {W A B : Type 0} (m : Io W A) (f : A → Io W B) (w : W) (b : B) {P : Type 0}
    → ((m >>= f) w).0 ≡ ok b
    → ((a : A) (u : W) → (m w).0 ≡ ok a → (f a u).0 ≡ ok b → P)
    → P
bind-answers m f w b h goal =
    let (a, e, same) = bind-eq-ok m f w b h in goal a (m w).1 e (sym (ap (λ r. r.0) same) ∙ h)

pub ok-injective : {A : Type 0} (a b : A) → ok a ≡ ok b → a ≡ b
ok-injective a b h = cc

pub settle-ok : {A : Type 0} (r : Reply A) (a : A) → settle r ≡ ok a → r ≡ returns a
settle-ok (returns b) a h = ap returns (ok-injective b a h)
settle-ok (throws x) a h = cc

Outcome-any : {A : Type 0} (r : Result A) → Outcome (λ _. Unit {0}) (Unit {0}) r
Outcome-any (ok a) = tt
Outcome-any (thrown e) = tt
Outcome-any pending = tt

pub Safe-any : {W A : Type 0} (m : Io W A) → Safe (λ _. Unit {0}) (Unit {0}) m
Safe-any m = record { at = λ w. Outcome-any (m w).0 }

pub ruleset safe_rules = (
  Safe-pure, Safe-throw, Safe-sync, Safe-if, Safe-await_or, Safe-await, Safe-call, Safe-bind,
  Safe-modify, to_exception-IsPlain,
)
