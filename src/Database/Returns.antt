-- ===== src/Database/Returns.antt =====
-- What holds of the result of an action and of the state it leaves, if it returns.
use recharge_plataform_api.Prelude.{◌≡◌, refl, subst, Bool, true, false}
use recharge_plataform_api.Database.Actions.{
  Action, Result, ok, err, Error, throw, throw_if, pure, continue, handle_error, try_catch, ◌>>=◌,
  ◌>>◌,
}

pub record Returns {S A : Type 0} (Q : A → S → Type 0) (w : S) (m : Action S A) : Type 0 where
  pub returned : (a : A) → (m w).0 ≡ ok a → Q a (m w).1

ok_injective : {A : Type 0} (a b : A) → ok a ≡ ok b → a ≡ b
ok_injective a b h = cc h

module _ {S A B : Type 0} {Q : B → S → Type 0} where
  Returns-continue :
      (x : Result A × S) (f : A → Action S B)
      → ((a : A) → x.0 ≡ ok a → Returns Q x.1 (f a))
      → (b : B) → (continue f x).0 ≡ ok b
      → Q b (continue f x).1
  Returns-continue (ok a, v) f k b h = (k a refl).returned b h
  Returns-continue (err e, v) f k b h = cc h

  pub Returns-bind :
      {w : S} (m : Action S A) {f : A → Action S B}
      → ((a : A) → (m w).0 ≡ ok a → Returns Q (m w).1 (f a))
      → Returns Q w (m >>= f)
  Returns-bind {w} m {f} k = record { returned = λ b h. Returns-continue (m w) f k b h }

  pub Returns-then :
      {w : S} (m : Action S A) {n : Action S B}
      → ((a : A) → (m w).0 ≡ ok a → Returns Q (m w).1 n)
      → Returns Q w (m >> n)
  Returns-then {w} m {n} k = record { returned = λ b h. Returns-continue (m w) (λ _. n) k b h }

module _ {S B : Type 0} {Q : B → S → Type 0} where
  pub Returns-pure : {w : S} (b : B) → Q b w → Returns Q w (pure b)
  Returns-pure {w} b q = record { returned = λ c h. subst (λ x. Q x w) (ok_injective b c h) q }

  -- After a check that has not thrown.
  pub Returns-throw_if :
      {w : S} {n : Action S B} (c : Bool) (e : Error)
      → (c ≡ false → Returns Q w n)
      → Returns Q w (throw_if c e >> n)
  Returns-throw_if true e k = record { returned = λ b h. cc h }
  Returns-throw_if false e k = record { returned = λ b h. (k refl).returned b h }

module _ {S B : Type 0} where
  Returns-handle :
      (Q : B → S → Type 0) (x : Result B × S) (g : Error → Error)
      → ((b : B) → x.0 ≡ ok b → Q b x.1)
      → (b : B) → (handle_error (λ e. throw (g e)) x).0 ≡ ok b
      → Q b (handle_error (λ e. throw (g e)) x).1
  Returns-handle Q (ok a, v) g k b h = k b h
  Returns-handle Q (err e, v) g k b h = cc h

module _ {S B : Type 0} {Q : B → S → Type 0} where
  -- A handler that throws another error.
  pub Returns-rethrow :
      {w : S} {m : Action S B} (g : Error → Error)
      → Returns Q w m
      → Returns Q w (try_catch m (λ e. throw (g e)))
  Returns-rethrow {w} {m} g r = record {
    returned = λ b h. Returns-handle Q (m w) g (λ a e. r.returned a e) b h;
  }
