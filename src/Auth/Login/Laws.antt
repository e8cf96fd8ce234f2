-- ===== src/Auth/Login/Laws.antt =====
-- Tokens: the refresh after a login, and whose data a refreshed admin session shows.
use recharge_plataform_api.Prelude.{
  ℕ, ◌+◌, ◌/◌, ◌<◌, ◌≡◌, Bool, true, false, ◌&&◌, refl, ap, ◌∙◌, none, some, Option, sym, inl, inr,
  Option-cases, Bool-cases, head?,
}
use recharge_plataform_api.Prelude.Text.{Text, text_eq, text_eq→eq}
use recharge_plataform_api.Prisma.{Prisma}
use recharge_plataform_api.Schema.{User, Store}
use recharge_plataform_api.Database.{World, ok, err, Error, on_option}
use recharge_plataform_api.Database.Returns.{Returns, Returns-bind, Returns-throw_if, Returns-pure}
use recharge_plataform_api.Database.Laws.{head-found}
use recharge_plataform_api.Utils.Email.{normalize_email_required, normalize_email_required_twice}
use recharge_plataform_api.Auth.Session.{
  Bcrypt, Jwt, Claims, Session, admin, profile_of, claims_of, find_user, member_session,
  open_session, refresh_lifetime, access_lifetime,
}
use recharge_plataform_api.Auth.Lookup.{find_user-found}
use recharge_plataform_api.Auth.Login.{
  login, admin_login, is_admin, refresh_access_token, is_admin_claim,
}

found_some :
    {A : Type 0} (e : Error) (o : Option A) (a : A) → on_option (err e) ok o ≡ ok a → o ≡ some a
found_some e none a h = cc h
found_some e (some b) a h = cc h

both_true : (a b : Bool) → (a && b) ≡ true → (a ≡ true) × (b ≡ true)
both_true true b h = (refl, h)
both_true false b h = cc h

module _ (P : Prisma) (jwt : Jwt) (bcrypt : Bcrypt) where
  -- What a login that returned has found.
  login_found :
      (now : ℕ) (email normalized password : Text) (store : ℕ) (w w' : World P) (s : Session)
      → normalize_email_required email ≡ ok normalized
      → login P jwt bcrypt now email password store w ≡ (ok s, w')
      → (e : ℕ × User) × (find_user P normalized store w ≡ some e)
        × (e.1.email_verified ≡ true)
        × (bcrypt.compare password e.1.password ≡ true)
        × (s ≡ member_session jwt now e.0 e.1)
  unfolding login
  login_found now email normalized password store w w' s form returned =
      elim (Option-cases (find_user P normalized store w)) [
        | inl none_there ↦ cc (rw (form, none_there) at returned)
        | inr (e, found) ↦ elim (Bool-cases e.1.email_verified) [
          | inr unverified ↦ cc (rw (form, found, unverified) at returned)
          | inl verified ↦ elim (Bool-cases (bcrypt.compare password e.1.password)) [
            | inr wrong ↦ cc (rw (form, found, verified, wrong) at returned)
            | inl right ↦
                (e, found, verified, right, cc (rw (form, found, verified, right) at returned))
          ]
        ]
      ]

  member_refreshed :
      (now later : ℕ) (id : ℕ) (u : User) (w : World P)
      → later / 1000 < now / 1000 + refresh_lifetime
      → refresh_access_token P jwt later (member_session jwt now id u).refresh_token w ≡ (
        ok (record (member_session jwt now id u) {
          access_token = jwt.sign later (claims_of id u) access_lifetime;
        }),
        w,
      )
  unfolding refresh_access_token
  member_refreshed now later id u w fresh =
      rw (jwt.verify-sign now (claims_of id u) refresh_lifetime later fresh)

  -- A login that returned was of a verified user with that address at that store, whose stored hash the
  -- password matches. For seven days its refresh token is accepted in every state, one in which the user is
  -- no longer verified or no longer there included: the refresh changes nothing, and returns the same
  -- session with an access token signed at that time.
  pub login-refresh :
      (now : ℕ) (email normalized password : Text) (store : ℕ) (w w' : World P) (s : Session)
      (later : ℕ) (w'' : World P)
      → normalize_email_required email ≡ ok normalized
      → login P jwt bcrypt now email password store w ≡ (ok s, w')
      → later / 1000 < now / 1000 + refresh_lifetime
      → (id : ℕ) × (u : User) × (P.find_unique w.users id ≡ some u)
        × (u.email ≡ normalized)
        × (u.store_id ≡ store)
        × (u.email_verified ≡ true)
        × (bcrypt.compare password u.password ≡ true)
        × (refresh_access_token P jwt later s.refresh_token w'' ≡ (
          ok (record s { access_token = jwt.sign later (claims_of id u) access_lifetime }),
          w'',
        ))
  login-refresh now email normalized password store w w' s later w'' form returned fresh =
      let (e, found, verified, right, same) =
        login_found now email normalized password store w w' s form returned in
      let (there, by, at) = find_user-found P w normalized store e found in
      (
        e.0,
        e.1,
        there,
        by,
        at,
        verified,
        right,
        rw same (member_refreshed now later e.0 e.1 w'' fresh),
      )

module _ (P : Prisma) (jwt : Jwt) where
  refresh_admin_first :
      (now : ℕ) (token email : Text) (claims : Claims) (e : ℕ × User) (store : Store) (w : World P)
      → jwt.verify now token ≡ some claims
      → is_admin_claim claims.role ≡ true
      → normalize_email_required claims.profile.email ≡ ok email
      → head? (P.find_many w.users (λ (u : User). text_eq u.email email)) ≡ some e
      → P.find_unique w.stores e.1.store_id ≡ some store
      → refresh_access_token P jwt now token w ≡ (
        ok (record {
          access_token = jwt.sign now claims access_lifetime;
          refresh_token = token;
          expires_in = 600;
          view = admin (profile_of e.0 e.1) (some e.1.store_id) store;
        }),
        w,
      )
  unfolding refresh_access_token
  refresh_admin_first now token email claims e store w valid by_admin form first at =
      rw (valid, by_admin, form, first) (rw at)

module _ (P : Prisma) (jwt : Jwt) (bcrypt : Bcrypt) where
  -- The tokens and the account that adminLogin answers with.
  abbrev pub admin_claims : ℕ × User → Claims
  admin_claims a = record {
    profile = profile_of a.0 a.1;
    store_id = a.1.store_id;
    role = some a.1.role;
  }

  -- What a session of adminLogin shows, given the users and the address of the login.
  abbrev IsAdminSession : ℕ → Text → P.Table User → Session → Type 0
  IsAdminSession now normalized users s =
      (a : ℕ × User) × (home : Store) × (P.find_unique users a.0 ≡ some a.1)
      × (a.1.email ≡ normalized)
      × (is_admin a.1.role ≡ true)
      × (s ≡ open_session jwt now (admin_claims a) (admin (profile_of a.0 a.1) none home))

  admin_session :
      (now : ℕ) (email normalized n : Text) (w v : World P) (e : Error) (a : ℕ × User)
      (home : Store)
      → normalize_email_required email ≡ ok normalized
      → normalize_email_required email ≡ ok n
      → on_option
          (err e)
          ok
          (head? (P.find_many w.users (λ u. text_eq u.email n && is_admin u.role)))
        ≡ ok a
      → IsAdminSession now normalized w.users
          (open_session jwt now (admin_claims a) (admin (profile_of a.0 a.1) none home))
  admin_session now email normalized n w v e a home form form' first =
      let same : n ≡ normalized = cc (sym form ∙ form') in
      let (there, passed) =
        head-found P w.users (λ u. text_eq u.email n && is_admin u.role) a
          (found_some e _ a first) in
      let (by, by_admin) = both_true _ _ passed in
      (a, home, there, text_eq→eq a.1.email n by ∙ same, by_admin, refl)

  admin_login-Returns :
      (now : ℕ) (email normalized password : Text) (w : World P)
      → normalize_email_required email ≡ ok normalized
      → Returns
          (λ s v. IsAdminSession now normalized w.users s)
          w
          (admin_login P jwt bcrypt now email password)
  unfolding admin_login
  admin_login-Returns now email normalized password w form =
      search (Returns-throw_if, Returns-bind, Returns-pure, admin_session) depth 20

  admin_login_found :
      (now : ℕ) (email normalized password : Text) (w w' : World P) (s : Session)
      → normalize_email_required email ≡ ok normalized
      → admin_login P jwt bcrypt now email password w ≡ (ok s, w')
      → IsAdminSession now normalized w.users s
  admin_login_found now email normalized password w w' s form returned =
      (admin_login-Returns now email normalized password w form).returned s (ap (λ r. r.0) returned)

  -- An adminLogin that returned shows an admin with the address. For seven days, in any state, the refresh
  -- with its token shows instead the account that a search by the address alone finds first there,
  -- with that account's store, though the new access token is signed for the admin who logged in.
  pub admin_login-refresh :
      (now : ℕ) (email normalized password : Text) (w w' : World P) (s : Session) (later : ℕ)
      (e : ℕ × User) (store : Store) (v : World P)
      → normalize_email_required email ≡ ok normalized
      → admin_login P jwt bcrypt now email password w ≡ (ok s, w')
      → later / 1000 < now / 1000 + refresh_lifetime
      → head? (P.find_many v.users (λ (u : User). text_eq u.email normalized)) ≡ some e
      → P.find_unique v.stores e.1.store_id ≡ some store
      → (a : ℕ × User) × (home : Store) × (P.find_unique w.users a.0 ≡ some a.1)
        × (a.1.email ≡ normalized)
        × (is_admin a.1.role ≡ true)
        × (s.view ≡ admin (profile_of a.0 a.1) none home)
        × (refresh_access_token P jwt later s.refresh_token v ≡ (
          ok (record {
            access_token = jwt.sign later (admin_claims a) access_lifetime;
            refresh_token = s.refresh_token;
            expires_in = 600;
            view = admin (profile_of e.0 e.1) (some e.1.store_id) store;
          }),
          v,
        ))
  admin_login-refresh now email normalized password w w' s later e store v form returned fresh first
        at =
      let (a, home, there, by, by_admin, same) =
        admin_login_found now email normalized password w w' s form returned in
      let valid : jwt.verify later s.refresh_token ≡ some (admin_claims a) =
        ap (λ x. jwt.verify later x.refresh_token) same
        ∙ jwt.verify-sign now (admin_claims a) refresh_lifetime later fresh in
      (
        a,
        home,
        there,
        by,
        by_admin,
        ap (λ x. x.view) same,
        refresh_admin_first P jwt later s.refresh_token normalized (admin_claims a) e store v valid
            by_admin
            (ap normalize_email_required by ∙ normalize_email_required_twice email normalized form)
            first at,
      )
