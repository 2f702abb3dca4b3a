-- ===== src/Effects/Steady.antt =====
-- Predicates on a component's state that an asynchronous function keeps, one rule for each way to
-- build it. A call of the world keeps every predicate.
use zkredit.Prelude.{Bool, true, false, if◌then◌else◌}
use zkredit.Effects.Errors.{Exception}
use zkredit.Effects.Sync.{Result, ok, thrown, pending}
use zkredit.Effects.Io.{
  Io, Reply, pure, throw, ◌>>=◌, try_catch, handle, continue, modify, await, call, sync,
}
use zkredit.Effects.Lift.{beside, update}

pub record Steady {S W A : Type 0} (I : S → Type 0) (m : Io (S × W) A) : Type 0 where
  pub at : (s : S) (w : W) → I s → I (m (s, w)).1.0

module _ {S W A : Type 0} {I : S → Type 0} where
  pub Steady-pure : (a : A) → Steady I (pure {W = S × W} a)
  Steady-pure a = record { at = λ s w h. h }

  pub Steady-throw : (e : Exception) → Steady I (throw {W = S × W} {A = A} e)
  Steady-throw e = record { at = λ s w h. h }

  pub Steady-call : (r : Reply A) → Steady I (call {W = S × W} r)
  Steady-call r = record { at = λ s w h. h }

  pub Steady-sync : (r : Result A) → Steady I (sync {W = S × W} r)
  Steady-sync r = record { at = λ s w h. h }

  pub Steady-await : (op : W → Reply A × W) → Steady I (await {W = S × W} (beside op))
  Steady-await op = record { at = λ s w h. h }

  pub Steady-if :
      (b : Bool) (m n : Io (S × W) A) → Steady I m → Steady I n → Steady I (if b then m else n)
  Steady-if true m n hm hn = hm
  Steady-if false m n hm hn = hn

module _ {S W : Type 0} {I : S → Type 0} where
  pub Steady-update :
      (f : S → S) → ((s : S) → I s → I (f s)) → Steady I (modify {W = S × W} (update f))
  Steady-update f k = record { at = λ s w h. k s h }

Steady-continue :
    {S W A B : Type 0} (I : S → Type 0) (r : Result A) (f : A → Io (S × W) B) (x : S × W)
    → I x.0
    → ((a : A) → Steady I (f a))
    → I (continue r f x).1.0
Steady-continue I (ok a) f x h k = (k a).at x.0 x.1 h
Steady-continue I (thrown e) f x h k = h
Steady-continue I pending f x h k = h

Steady-handle :
    {S W A : Type 0} (I : S → Type 0) (r : Result A) (f : Exception → Io (S × W) A) (x : S × W)
    → I x.0
    → ((e : Exception) → Steady I (f e))
    → I (handle r f x).1.0
Steady-handle I (ok a) f x h k = h
Steady-handle I (thrown e) f x h k = (k e).at x.0 x.1 h
Steady-handle I pending f x h k = h

module _ {S W A B : Type 0} {I : S → Type 0} where
  pub Steady-bind :
      (m : Io (S × W) A) (f : A → Io (S × W) B)
      → Steady I m
      → ((a : A) → Steady I (f a))
      → Steady I (m >>= f)
  Steady-bind m f hm hf = record {
    at = λ s w h. Steady-continue I (m (s, w)).0 f (m (s, w)).1 (hm.at s w h) hf;
  }

module _ {S W A : Type 0} {I : S → Type 0} where
  pub Steady-try_catch :
      (m : Io (S × W) A) (f : Exception → Io (S × W) A)
      → Steady I m
      → ((e : Exception) → Steady I (f e))
      → Steady I (try_catch m f)
  Steady-try_catch m f hm hf = record {
    at = λ s w h. Steady-handle I (m (s, w)).0 f (m (s, w)).1 (hm.at s w h) hf;
  }

pub ruleset steady_rules = (
  Steady-pure, Steady-throw, Steady-call, Steady-sync, Steady-await, Steady-if, Steady-update,
  Steady-bind, Steady-try_catch,
)
