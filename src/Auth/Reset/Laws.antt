-- ===== src/Auth/Reset/Laws.antt =====
-- The reset of a password from the request of a code to the next login.
use recharge_plataform_api.Prelude.{
  ℕ, ◌+◌, ◌*◌, ◌≤◌, ◌<◌, ◌≡◌, refl, arith, true, false, some, [], ◌∷◌, ltb, length,
}
use recharge_plataform_api.Prelude.Text.{Text, codes, text_eq_self}
use recharge_plataform_api.Prisma.{Prisma}
use recharge_plataform_api.Schema.{User, password_reset}
use recharge_plataform_api.Database.{World, Result, ok}
use recharge_plataform_api.Bigo.Service.{is_blank}
use recharge_plataform_api.Utils.Email.{normalize_email_required}
use recharge_plataform_api.Auth.Session.{
  Bcrypt, Jwt, Session, member_session, random_code, find_user, has_email,
}
use recharge_plataform_api.Auth.Code.{length-random_code}
use recharge_plataform_api.Auth.Login.{login}
use recharge_plataform_api.Auth.Lookup.{
  EmailsUnique, find_user-here, update_many-EmailsUnique, find-update_users,
}
use recharge_plataform_api.Email.{mail_sent}
use recharge_plataform_api.Auth.Reset.{
  with_reset_code, with_password, domain_of, forgot_password, reset_password, check_reset_code,
}

not_blank : (t : Text) → length t ≡ 6 → is_blank (some t) ≡ false
not_blank [] h = absurd (omega (arith, h))
not_blank (c ∷ cs) h = refl

in_time : (now later : ℕ) → later ≤ now + 10 * 60 * 1000 → ltb (now + 10 * 60 * 1000) later ≡ false
in_time now later h = ground arith

module _ (P : Prisma) where
  -- The user's table and outbox after a code was mailed.
  abbrev after_forgot : ℕ → ℕ → Text → ℕ → World P → World P
  after_forgot now random email store w = record w {
    users =
        P.update_many w.users (λ i u. has_email P email store u)
          (with_reset_code now (random_code random));
    outbox =
        record {
          to = email;
          subject = codes "Redefinição de Senha";
          html = password_reset (random_code random) (domain_of P store w);
        }
        ∷ w.outbox;
  }

  abbrev pub after_reset : Bcrypt → Text → Text → Text → ℕ → World P → World P
  after_reset bcrypt salt email password store w = record w {
    users =
        P.update_many w.users (λ i u. has_email P email store u)
          (with_password (bcrypt.hash salt password));
  }

  pub forgot_password_lem :
      (now random : ℕ) (email : Text) (store : ℕ) (w : World P) (id : ℕ) (u : User)
      → normalize_email_required email ≡ ok email
      → find_user P email store w ≡ some (id, u)
      → u.email_verified ≡ true
      → forgot_password P mail_sent now random email store w
        ≡ (ok tt, after_forgot now random email store w)
  unfolding forgot_password
  forgot_password_lem now random email store w id u form found verified = rw (form, found, verified)

  code_accepted :
      (now : ℕ) (code : Text) (expires : ℕ) (u : User) (w : World P)
      → u.reset_password_code ≡ some code
      → u.reset_password_expires ≡ some expires
      → is_blank (some code) ≡ false
      → ltb expires now ≡ false
      → check_reset_code P now code u w ≡ (ok tt, w)
  code_accepted now code expires u w has until full fresh =
      rw (has, until, full, text_eq_self code, fresh)

  pub login_lem :
      (jwt : Jwt) (bcrypt : Bcrypt) (now : ℕ) (email password : Text) (store : ℕ) (w : World P)
      (id : ℕ) (u : User)
      → normalize_email_required email ≡ ok email
      → find_user P email store w ≡ some (id, u)
      → u.email_verified ≡ true
      → bcrypt.compare password u.password ≡ true
      → login P jwt bcrypt now email password store w ≡ (ok (member_session jwt now id u), w)
  unfolding login
  login_lem jwt bcrypt now email password store w id u form found verified right =
      rw (form, found, verified, right)

  -- `email` and `store` as they stand in the user's row.
  module _ (bcrypt : Bcrypt) (jwt : Jwt) (w : World P) (id : ℕ) (u : User)
      (form : normalize_email_required u.email ≡ ok u.email) (unique : EmailsUnique P w.users)
      (there : P.find_unique w.users id ≡ some u) where
    found : find_user P u.email u.store_id w ≡ some (id, u)
    found = find_user-here P w id u u.email u.store_id unique there refl refl

    reset_password_lem :
        (salt : Text) (now : ℕ) (code password : Text) (expires : ℕ)
        → u.reset_password_code ≡ some code
        → u.reset_password_expires ≡ some expires
        → is_blank (some code) ≡ false
        → ltb expires now ≡ false
        → reset_password P jwt bcrypt salt now u.email code password password u.store_id w ≡ (
          ok (member_session jwt now id u),
          after_reset bcrypt salt u.email password u.store_id w,
        )
    unfolding reset_password
    reset_password_lem salt now code password expires has until full fresh =
        let w' : World P = after_reset bcrypt salt u.email password u.store_id w in
        let u' : User = with_password (bcrypt.hash salt password) u in
        let again : find_user P u.email u.store_id w' ≡ some (id, u') =
          find_user-here P w' id u' u.email u.store_id
            (update_many-EmailsUnique P w.users (λ i v. has_email P u.email u.store_id v)
              (with_password (bcrypt.hash salt password)) (λ v. (refl, refl)) unique)
            (find-update_users P w.users (with_password (bcrypt.hash salt password)) id u u.email
              u.store_id there refl refl)
            refl refl in
        rw
          (
            form,
            text_eq_self password,
            found,
            code_accepted now code expires u w has until full fresh,
          )
          (rw again)

  module _ (bcrypt : Bcrypt) (jwt : Jwt) (w : World P) (id : ℕ) (u : User)
      (form : normalize_email_required u.email ≡ ok u.email) (unique : EmailsUnique P w.users)
      (there : P.find_unique w.users id ≡ some u) where
    -- A verified user whose address is in normal form, and whose address and store no other user has,
    -- asks for a reset code and the mail is taken; within ten minutes the user enters the code with a
    -- new password, and at any later time logs in with it. All three calls return, the last two with a
    -- session of this user.
    pub forgot-reset-login :
        (now random : ℕ) (salt : Text) (later : ℕ) (password : Text) (at_last : ℕ)
        → random < 900000
        → u.email_verified ≡ true
        → later ≤ now + 10 * 60 * 1000
        → let forgotten : Result (Unit {0}) × World P =
            forgot_password P mail_sent now random u.email u.store_id w in
          let reset : Result Session × World P =
            reset_password P jwt bcrypt salt later u.email
              (random_code random)
              password
              password
              u.store_id
              forgotten.1 in
          let logged_in : Result Session × World P =
            login P jwt bcrypt at_last u.email password u.store_id reset.1 in
          (forgotten.0 ≡ ok tt)
          × (reset.0 ≡ ok (member_session jwt later id u))
          × (logged_in.0 ≡ ok (member_session jwt at_last id u))
    forgot-reset-login now random salt later password at_last small verified soon =
        let code : Text = random_code random in
        let f : User → User = with_reset_code now code in
        let g : User → User = with_password (bcrypt.hash salt password) in
        let w1 : World P = after_forgot now random u.email u.store_id w in
        let w2 : World P = after_reset bcrypt salt u.email password u.store_id w1 in
        let unique1 : EmailsUnique P w1.users =
          update_many-EmailsUnique P w.users (λ i v. has_email P u.email u.store_id v) f
            (λ v. (refl, refl)) unique in
        let there1 : P.find_unique w1.users id ≡ some (f u) =
          find-update_users P w.users f id u u.email u.store_id there refl refl in
        let there2 : P.find_unique w2.users id ≡ some (g (f u)) =
          find-update_users P w1.users g id (f u) u.email u.store_id there1 refl refl in
        let unique2 : EmailsUnique P w2.users =
          update_many-EmailsUnique P w1.users (λ i v. has_email P u.email u.store_id v) g
            (λ v. (refl, refl)) unique1 in
        let e1 : forgot_password P mail_sent now random u.email u.store_id w ≡ (ok tt, w1) =
          forgot_password_lem now random u.email u.store_id w id u form
            (find_user-here P w id u u.email u.store_id unique there refl refl) verified in
        let e2 : reset_password P jwt bcrypt salt later u.email code password password u.store_id w1
            ≡ (ok (member_session jwt later id u), w2) =
          reset_password_lem bcrypt jwt w1 id (f u) form unique1 there1 salt later code password
            (now + 10 * 60 * 1000) refl refl (not_blank code (length-random_code random small))
            (in_time now later soon) in
        let e3 : login P jwt bcrypt at_last u.email password u.store_id w2
            ≡ (ok (member_session jwt at_last id u), w2) =
          login_lem jwt bcrypt at_last u.email password u.store_id w2 id (g (f u)) form
            (find_user-here P w2 id (g (f u)) u.email u.store_id unique2 there2 refl refl) verified
            (bcrypt.compare-hash salt password) in
        rw (e1, e2, e3) (refl, refl, refl)
