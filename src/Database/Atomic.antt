-- ===== src/Database/Atomic.antt =====
-- Actions that leave a view of the state alone when they throw.
use recharge_plataform_api.Prelude.{◌≡◌, refl, sym, ◌∙◌, Bool, true, false, Option, none, some}
use recharge_plataform_api.Database.Actions.{
  Action, Result, ok, err, Error, throw_if, continue, handle_error, settle, transaction, try_catch,
  on_option, ◌>>=◌, ◌>>◌,
}
use recharge_plataform_api.Database.Frame.{Keeps}

pub record Atomic {S B A : Type 0} (view : S → B) (m : Action S A) : Type 0 where
  pub unchanged : (s : S) (e : Error) → (m s).0 ≡ err e → view (m s).1 ≡ view s

module _ {S B A C : Type 0} {view : S → B} where
  Atomic-continue :
      (f : A → Action S C) (before : B) (x : Result A × S) (e : Error)
      → view x.1 ≡ before
      → ((a : A) → Atomic view (f a))
      → (continue f x).0 ≡ err e
      → view (continue f x).1 ≡ before
  Atomic-continue f before (ok a, s) e kept k h = (k a).unchanged s e h ∙ kept
  Atomic-continue f before (err x, s) e kept k h = kept

  pub Atomic-bind :
      {m : Action S A} {f : A → Action S C}
      → Keeps view m
      → ((a : A) → Atomic view (f a))
      → Atomic view (m >>= f)
  Atomic-bind {m} {f} k after = record {
    unchanged = λ s e h. Atomic-continue f (view s) (m s) e (k.kept s) after h;
  }

  pub Atomic-then :
      {m : Action S A} {n : Action S C} → Keeps view m → Atomic view n → Atomic view (m >> n)
  Atomic-then {m} {n} k after = record {
    unchanged = λ s e h. Atomic-continue (λ _. n) (view s) (m s) e (k.kept s) (λ _. after) h;
  }

module _ {S B A C : Type 0} where
  Atomic-last :
      (view : S → B) (f : A → Action S C) (before : B) (x : Result A × S) (e : Error)
      → ((y : Error) → x.0 ≡ err y → view x.1 ≡ before)
      → ((a : A) → x.0 ≡ ok a → (c : C) × ((f a x.1).0 ≡ ok c))
      → (continue f x).0 ≡ err e
      → view (continue f x).1 ≡ before
  Atomic-last view f before (ok a, s) e kept k h = let (c, done) = k a refl in cc (sym done ∙ h)
  Atomic-last view f before (err y, s) e kept k h = kept y refl

  -- A last step that does not throw.
  pub Atomic-finish :
      {view : S → B} {m : Action S A} (f : A → Action S C)
      → Atomic view m
      → ((s : S) (a : A) → (m s).0 ≡ ok a → (c : C) × ((f a (m s).1).0 ≡ ok c))
      → Atomic view (m >>= f)
  Atomic-finish {view} {m} f a k = record {
    unchanged = λ s e h. Atomic-last view f (view s) (m s) e (a.unchanged s) (k s) h;
  }

module _ {S B A : Type 0} (view : S → B) where
  Atomic-handle :
      (f : Error → Action S A) (before : B) (x : Result A × S) (e : Error)
      → ((y : Error) → x.0 ≡ err y → view x.1 ≡ before)
      → ((y : Error) → Keeps view (f y))
      → (handle_error f x).0 ≡ err e
      → view (handle_error f x).1 ≡ before
  Atomic-handle f before (ok a, s) e kept k h = cc h
  Atomic-handle f before (err y, s) e kept k h = (k y).kept s ∙ kept y refl

  settled :
      (s : S) (x : Result A × S) (e : Error) → (settle s x).0 ≡ err e → view (settle s x).1 ≡ view s
  settled s (ok a, t) e h = cc h
  settled s (err y, t) e h = refl

module _ {S B A : Type 0} {view : S → B} where
  pub Atomic-try :
      {m : Action S A} {f : Error → Action S A}
      → Atomic view m
      → ((e : Error) → Keeps view (f e))
      → Atomic view (try_catch m f)
  Atomic-try {m} {f} a k = record {
    unchanged = λ s e h. Atomic-handle view f (view s) (m s) e (a.unchanged s) k h;
  }

  pub Atomic-transaction : (m : Action S A) → Atomic view (transaction m)
  Atomic-transaction m = record { unchanged = λ s e h. settled view s (m s) e h }

  pub Atomic-option :
      {C : Type 0} (n : Action S A) (f : C → Action S A) (o : Option C)
      → Atomic view n
      → ((c : C) → Atomic view (f c))
      → Atomic view (on_option n f o)
  Atomic-option n f none a k = a
  Atomic-option n f (some c) a k = k c

  -- An action that only computes its result.
  pub Keeps-reads : (r : S → Result A) → Keeps view (λ s. (r s, s))
  Keeps-reads r = record { kept = λ s. refl }

  pub Atomic-reads : (r : S → Result A) → Atomic view (λ s. (r s, s))
  Atomic-reads r = record { unchanged = λ s e h. refl }

module _ {S B : Type 0} {view : S → B} where
  pub Keeps-throw_if : (c : Bool) (e : Error) → Keeps view (throw_if c e)
  Keeps-throw_if true e = record { kept = λ s. refl }
  Keeps-throw_if false e = record { kept = λ s. refl }
