-- ===== src/Database/Frame.antt =====
-- What an action leaves alone: a view of the state is kept if it reads the same afterwards, whether
-- the action returns or throws. The rules follow the combinators, so that `search` proves actions.
use recharge_plataform_api.Prelude.{
  ℕ, ◌≡◌, refl, ◌∙◌, Bool, true, false, Option, none, some, if◌then◌else◌,
}
use recharge_plataform_api.Prisma.{Prisma}
use recharge_plataform_api.Database.Actions.{
  World, Action, Result, ok, err, Error, transaction, try_catch, settle, handle_error, continue,
  ◌>>=◌, ◌>>◌, when, on_option,
}
use recharge_plataform_api.Database.Calls.{update_row}

pub record Keeps {S B A : Type 0} (view : S → B) (m : Action S A) : Type 0 where
  pub kept : (s : S) → view (m s).1 ≡ view s

module _ {S B A C : Type 0} {view : S → B} where
  Keeps-continue :
      (f : A → Action S C) (before : B) (x : Result A × S)
      → view x.1 ≡ before
      → ((a : A) → Keeps view (f a))
      → view (continue f x).1 ≡ before
  Keeps-continue f before (ok a, s) h k = (k a).kept s ∙ h
  Keeps-continue f before (err e, s) h k = h

  pub Keeps-bind :
      {m : Action S A} {f : A → Action S C}
      → Keeps view m
      → ((a : A) → Keeps view (f a))
      → Keeps view (m >>= f)
  Keeps-bind {m} {f} h k = record { kept = λ s. Keeps-continue f (view s) (m s) (h.kept s) k }

  pub Keeps-then :
      {m : Action S A} {n : Action S C} → Keeps view m → Keeps view n → Keeps view (m >> n)
  Keeps-then {m} {n} h k = record {
    kept = λ s. Keeps-continue (λ _. n) (view s) (m s) (h.kept s) (λ _. k);
  }

keeps_settle :
    {S B A : Type 0} (view : S → B) (s : S) (x : Result A × S)
    → view x.1 ≡ view s
    → view (settle s x).1 ≡ view s
keeps_settle view s (ok a, s') h = h
keeps_settle view s (err e, s') h = refl

module _ {S B A : Type 0} {view : S → B} where
  Keeps-handle :
      (f : Error → Action S A) (before : B) (x : Result A × S)
      → view x.1 ≡ before
      → ((e : Error) → Keeps view (f e))
      → view (handle_error f x).1 ≡ before
  Keeps-handle f before (ok a, s) h k = h
  Keeps-handle f before (err e, s) h k = (k e).kept s ∙ h

  pub Keeps-try :
      {m : Action S A} {f : Error → Action S A}
      → Keeps view m
      → ((e : Error) → Keeps view (f e))
      → Keeps view (try_catch m f)
  Keeps-try {m} {f} h k = record { kept = λ s. Keeps-handle f (view s) (m s) (h.kept s) k }

  pub Keeps-transaction : {m : Action S A} → Keeps view m → Keeps view (transaction m)
  Keeps-transaction {m} h = record { kept = λ s. keeps_settle view s (m s) (h.kept s) }

  -- An action that only returns or throws.
  pub Keeps-result : (r : Result A) → Keeps view (λ s. (r, s))
  Keeps-result r = record { kept = λ s. refl }

  pub Keeps-if :
      (b : Bool) {m n : Action S A} → Keeps view m → Keeps view n → Keeps view (if b then m else n)
  Keeps-if true h k = h
  Keeps-if false h k = k

module _ {S B : Type 0} {view : S → B} where
  pub Keeps-when : (b : Bool) {m : Action S (Unit {0})} → Keeps view m → Keeps view (when b m)
  Keeps-when true h = record { kept = h.kept }
  Keeps-when false h = record { kept = λ s. refl }

-- A case on an optional value, with the state that it was read from.
pub keeps_option :
    {S B A C : Type 0} (view : S → B) (s : S) (n : Result C × S) (f : A → Result C × S)
    (o : Option A)
    → view n.1 ≡ view s
    → ((a : A) → view (f a).1 ≡ view s)
    → view (on_option n f o).1 ≡ view s
keeps_option view s n f none h k = h
keeps_option view s n f (some a) h k = k a

-- A case on an optional value that is read from the state.
pub Keeps-read :
    {S B A C : Type 0} {view : S → B} {n : Action S C} {f : A → Action S C} (o : S → Option A)
    → Keeps view n
    → ((a : A) → Keeps view (f a))
    → Keeps view (λ s. on_option (n s) (λ a. f a s) (o s))
Keeps-read {view = view} o h k = record {
  kept = λ s. keeps_option view s _ _ (o s) (h.kept s) (λ a. (k a).kept s);
}

-- An update of a table that the view does not read.
pub keeps_update_row :
    (P : Prisma) {B R : Type 0} (view : World P → B) (t : P.Table R) (put : P.Table R → World P)
    (id : ℕ) (f : R → R) (w : World P)
    → ((t' : P.Table R) → view (put t') ≡ view w)
    → view (update_row P t put id f w).1 ≡ view w
keeps_update_row P view t put id f w h =
    keeps_option view w _ _ (P.find_unique t id) refl (λ _. h _)

pub ruleset frame_rules = (
  Keeps-bind, Keeps-then, Keeps-try, Keeps-transaction, Keeps-result, Keeps-if, Keeps-when,
  Keeps-read,
)
