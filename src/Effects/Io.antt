-- ===== src/Effects/Io.antt =====
-- Asynchronous functions over a world `W`: each call returns a result and the world after it.
use zkredit.Effects.Sync.{Result, ok, thrown, pending}
use zkredit.Effects.Errors.{Exception, Foreign, to_exception}

abbrev pub Io : Type 0 → Type 0 → Type 0
Io W A = W → Result A × W

module _ {W : Type 0} where
  abbrev pub pure : {A : Type 0} → A → Io W A
  pure a w = (ok a, w)

  abbrev pub throw : {A : Type 0} → Exception → Io W A
  throw e w = (thrown e, w)

  abbrev pub continue : {A B : Type 0} → Result A → (A → Io W B) → Io W B
  continue (ok a) f w = f a w
  continue (thrown e) f w = (thrown e, w)
  continue pending f w = (pending, w)

  infixl 5 ◌>>=◌ ◌>>◌
  abbrev pub ◌>>=◌ : {A B : Type 0} → Io W A → (A → Io W B) → Io W B
  ◌>>=◌ m f w = continue (m w).0 f (m w).1

  abbrev pub ◌>>◌ : {B : Type 0} → Io W (Unit {0}) → Io W B → Io W B
  m >> k = m >>= λ _. k

  abbrev pub handle : {A : Type 0} → Result A → (Exception → Io W A) → Io W A
  handle (ok a) f w = (ok a, w)
  handle (thrown e) f w = f e w
  handle pending f w = (pending, w)

  -- `try { m } catch (e) { f(e) }`
  abbrev pub try_catch : {A : Type 0} → Io W A → (Exception → Io W A) → Io W A
  try_catch m f w = handle (m w).0 f (m w).1

  abbrev pub after : {A : Type 0} → Result A → Io W (Unit {0}) → Io W A
  after (ok a) f w = (f >> pure a) w
  after (thrown e) f w = (f >> throw e) w
  after pending f w = (pending, w)

  -- `try { m } finally { f }`
  abbrev pub finally : {A : Type 0} → Io W A → Io W (Unit {0}) → Io W A
  finally m f w = after (m w).0 f (m w).1

  -- A synchronous change of the world.
  abbrev pub modify : (W → W) → Io W (Unit {0})
  modify f w = (ok tt, f w)

-- What a call of a third party gives.
pub data Reply {ℓ} (A : Type ℓ) : Type ℓ where
  returns : A → Reply A
  throws : Foreign → Reply A

abbrev pub settle {ℓ} : {A : Type ℓ} → Reply A → Result A
settle (returns a) = ok a
settle (throws e) = thrown (to_exception e)

module _ {W : Type 0} where
  -- `await` on a third party's promise
  abbrev pub await : {A : Type 0} → (W → Reply A × W) → Io W A
  await op w = (settle (op w).0, (op w).1)

  -- The same with every rejection replaced: `try { await … } catch { throw e }`.
  abbrev pub await_or : {A : Type 0} → Exception → (W → Reply A × W) → Io W A
  await_or e op = try_catch (await op) (λ _. throw e)

  -- A call that needs no world.
  abbrev pub call : {A : Type 0} → Reply A → Io W A
  call r w = (settle r, w)

  -- A synchronous step that may throw.
  abbrev pub sync : {A : Type 0} → Result A → Io W A
  sync r w = (r, w)
