-- ===== src/Database/Ends.antt =====
-- What holds after an action that starts with checks, whether it returns or throws.
use recharge_plataform_api.Prelude.{◌≡◌, refl, subst, sym, Bool, true, false}
use recharge_plataform_api.Database.Actions.{
  Action, Result, ok, err, Error, throw_if, continue, handle_error, try_catch, ◌>>=◌, ◌>>◌,
}
use recharge_plataform_api.Database.Frame.{Keeps}

-- A property of the state after an action, from a given state. A check before the rest of an action
-- changes nothing, and the rest may use what it found.
pub record Ends {S A : Type 0} (Q : S → Type 0) (w : S) (m : Action S A) : Type 0 where
  pub ended : Q (m w).1

module _ {S A B : Type 0} {Q : S → Type 0} {w : S} where
  Ends-continue :
      (x : Result A × S) (f : A → Action S B)
      → x.1 ≡ w
      → Q w
      → ((a : A) → x.0 ≡ ok a → Ends Q w (f a))
      → Q (continue f x).1
  Ends-continue (ok a, v) f e q k = subst (λ u. Q (f a u).1) (sym e) ((k a refl).ended)
  Ends-continue (err x, v) f e q k = subst Q (sym e) q

  pub Ends-bind :
      {m : Action S A} {f : A → Action S B}
      → Keeps (λ v. v) m
      → Q w
      → ((a : A) → (m w).0 ≡ ok a → Ends Q w (f a))
      → Ends Q w (m >>= f)
  Ends-bind {m} {f} keeps q k = record { ended = Ends-continue (m w) f (keeps.kept w) q k }

  pub Ends-then :
      {m : Action S A} {n : Action S B}
      → Keeps (λ v. v) m
      → Q w
      → ((a : A) → (m w).0 ≡ ok a → Ends Q w n)
      → Ends Q w (m >> n)
  Ends-then {m} {n} keeps q k = record { ended = Ends-continue (m w) (λ _. n) (keeps.kept w) q k }

module _ {S A : Type 0} where
  Ends-handle :
      (Q : S → Type 0) (x : Result A × S) (h : Error → Action S A)
      → Q x.1
      → ((e : Error) → Keeps (λ v. v) (h e))
      → Q (handle_error h x).1
  Ends-handle Q (ok a, v) h q keeps = q
  Ends-handle Q (err e, v) h q keeps = subst Q (sym ((keeps e).kept v)) q

  pub Ends-try :
      {Q : S → Type 0} {w : S} {m : Action S A} {h : Error → Action S A}
      → Ends Q w m
      → ((e : Error) → Keeps (λ v. v) (h e))
      → Ends Q w (try_catch m h)
  Ends-try {Q} {w} {m} {h} e keeps = record { ended = Ends-handle Q (m w) h e.ended keeps }

-- An action that only computes its result.
pub reads : {S A : Type 0} (r : S → Result A) → Keeps (λ v. v) (λ (w : S). (r w, w))
reads r = record { kept = λ w. refl }

pub throw_if-reads : {S : Type 0} (c : Bool) (e : Error) → Keeps {S = S} (λ v. v) (throw_if c e)
throw_if-reads true e = record { kept = λ w. refl }
throw_if-reads false e = record { kept = λ w. refl }
