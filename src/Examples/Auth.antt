-- ===== src/Examples/Auth.antt =====
-- Examples of the accounts.
use recharge_plataform_api.Prelude.{ℕ, ◌≡◌, ◌⊎◌, refl, arith, true, Option, none, some, [], ◌∷◌}
use recharge_plataform_api.Prelude.Text.{codes}
use recharge_plataform_api.Prisma.Memory.{memory, row}
use recharge_plataform_api.Schema.{User, Store, plain_user, reseller_admin, cpf}
use recharge_plataform_api.Database.{World, Error, Result, ok, err}
use recharge_plataform_api.Utils.Email.{
  normalize_email_required, normalize_email, normal_form, lower, is_space,
  normalize_email_required_twice,
}
use recharge_plataform_api.Auth.Session.{
  open_session, member_session, random_code, Session, Claims, profile_of, claims_of,
  access_lifetime, admin,
}
use recharge_plataform_api.Auth.Lookup.{EmailsUnique}
use recharge_plataform_api.Auth.Login.{login, admin_login, is_admin, refresh_access_token}
use recharge_plataform_api.Auth.Login.Laws.{login-refresh, admin_login-refresh, admin_claims}
use recharge_plataform_api.Email.{mail_sent}
use recharge_plataform_api.Auth.Reset.{bad, forgot_password, reset_password, verify_code}
use recharge_plataform_api.Auth.Reset.Laws.{forgot-reset-login, after_reset}
use recharge_plataform_api.Auth.Reset.Codes.{reset-code_spent, verify_code-reset_password}
use recharge_plataform_api.Auth.Confirm.{with_email, check_change_code, confirm_email_change}
use recharge_plataform_api.Auth.Confirm.Laws.{
  confirm_email_change_any, confirm_email_change-EmailsUnique,
}
use recharge_plataform_api.Examples.Data.{shop, only_row}
use recharge_plataform_api.Examples.Tokens.{jwt, bcrypt}

abbrev pub ana : User
ana = record {
  name = codes "Ana";
  email = codes "ana@x.com";
  phone = codes "11";
  password = codes "old";
  document_type = cpf;
  document_value = codes "1";
  role = plain_user;
  created_at = 1000;
  store_id = 7;
  reset_password_code = some (codes "123456");
  reset_password_expires = some 600000;
  email_confirmation_code = some (codes "654321");
  email_verified = true;
  email_confirmation_expires = some 600000;
  role_changed_at = none;
  role_changed_by = none;
  recharge_bigo_id = none;
}

abbrev pub club : World memory
club = record shop {
  users = some ana ∷ [];
  stores =
      some (record {
        name = codes "S";
        email = none;
        domain = codes "s.com";
        bravive_api_token = none;
      })
      ∷ [];
}

ana_form : normalize_email_required (codes "ana@x.com") ≡ ok (codes "ana@x.com")
unfolding normalize_email_required normalize_email normal_form lower is_space
ana_form = refl

new_form : normalize_email_required (codes " B@x.com") ≡ ok (codes "b@x.com")
unfolding normalize_email_required normalize_email normal_form lower is_space
new_form = refl

other_form : normalize_email_required (codes "c@x.com") ≡ ok (codes "c@x.com")
unfolding normalize_email_required normalize_email normal_form lower is_space
other_form = refl

pub club_unique : EmailsUnique memory club.users
club_unique i j u v at_i at_j by at = ground (arith, only_row ana i u at_i, only_row ana j v at_j)

normalize_email_required_twice_example :
    normalize_email_required (codes "b@x.com") ≡ ok (codes "b@x.com")
normalize_email_required_twice_example =
    normalize_email_required_twice (codes " B@x.com") (codes "b@x.com") new_form

abbrev forgotten : Result (Unit {0}) × World memory
forgotten = forgot_password memory mail_sent 1000 4321 (codes "ana@x.com") 7 club

abbrev reset : Result Session × World memory
reset =
    reset_password memory jwt bcrypt [] 5000 (codes "ana@x.com") (random_code 4321) (codes "new")
      (codes "new") 7 forgotten.1

forgot-reset-login_example :
    (forgotten.0 ≡ ok tt)
    × (reset.0 ≡ ok (member_session jwt 5000 0 ana))
    × ((login memory jwt bcrypt 9000 (codes "ana@x.com") (codes "new") 7 reset.1).0
        ≡ ok (member_session jwt 9000 0 ana))
forgot-reset-login_example =
    forgot-reset-login memory bcrypt jwt club 0 ana ana_form club_unique refl 1000 4321 [] 5000
      (codes "new") 9000 (omega arith) refl (omega arith)

abbrev spent : World memory
spent = after_reset memory bcrypt [] (codes "ana@x.com") (codes "new") 7 club

reset_returned :
    reset_password memory jwt bcrypt [] 5000
      (codes "ana@x.com")
      (codes "123456")
      (codes "new")
      (codes "new")
      7
      club
    ≡ (ok (member_session jwt 5000 0 ana), spent)
unfolding reset_password normalize_email_required normalize_email normal_form lower is_space
reset_returned = refl

reset-code_spent_example :
    verify_code memory 6000 (codes "ana@x.com") (codes "123456") 7 spent
    ≡ (err (bad (codes "No reset code found or code has expired")), spent)
reset-code_spent_example =
    reset-code_spent memory jwt bcrypt [] (codes "new") (codes "ana@x.com") 7 5000 (codes "123456")
      club ana_form (member_session jwt 5000 0 ana) spent reset_returned 6000 (codes "123456")

verify_code-reset_password_example :
    ((x : Error) × (verify_code memory 5000 (codes "ana@x.com") (codes "999999") 7 club
        ≡ (err x, club))
      × (reset_password memory jwt bcrypt [] 5000
            (codes "ana@x.com")
            (codes "999999")
            (codes "new")
            (codes "new")
            7
            club
          ≡ (err x, club)))
    ⊎ ((s : Session) × (verify_code memory 5000 (codes "ana@x.com") (codes "999999") 7 club
          ≡ (ok tt, club))
        × (reset_password memory jwt bcrypt [] 5000
              (codes "ana@x.com")
              (codes "999999")
              (codes "new")
              (codes "new")
              7
              club
            ≡ (ok s, spent)))
verify_code-reset_password_example =
    verify_code-reset_password memory jwt bcrypt [] (codes "new") (codes "ana@x.com") 7 5000
      (codes "999999") club ana_form club_unique

abbrev moved : World memory
moved = record club { users = some (with_email (codes "b@x.com") ana) ∷ [] }

change_returned :
    confirm_email_change memory 5000 (codes "ana@x.com") (codes " B@x.com") (codes "654321") 7 club
    ≡ (ok tt, moved)
unfolding confirm_email_change check_change_code normalize_email_required normalize_email
    normal_form lower is_space
change_returned = refl

confirm_email_change_any_example :
    (e : ℕ × User) × (◌≡◌ {A = Option (ℕ × User)} (some (0, ana)) (some e))
    × (confirm_email_change memory 5000
          (codes "ana@x.com")
          (codes "c@x.com")
          (codes "654321")
          7
          club
        ≡ (
          ok tt,
          record club { users = memory.update club.users e.0 (with_email (codes "c@x.com")) },
        ))
confirm_email_change_any_example =
    confirm_email_change_any memory 5000 (codes "654321") (codes "ana@x.com") (codes "ana@x.com") 7
      ana_form (codes " B@x.com") (codes "b@x.com") (codes "c@x.com") (codes "c@x.com") club moved
      new_form change_returned other_form refl

confirm_email_change-EmailsUnique_example : EmailsUnique memory moved.users
confirm_email_change-EmailsUnique_example =
    confirm_email_change-EmailsUnique memory 5000 (codes "654321") (codes "ana@x.com")
      (codes "ana@x.com") 7 ana_form (codes " B@x.com") (codes "b@x.com") club moved new_form
      club_unique change_returned

login_returned :
    login memory jwt bcrypt 1000 (codes "ana@x.com") (codes "old") 7 club
    ≡ (ok (member_session jwt 1000 0 ana), club)
unfolding login normalize_email_required normalize_email normal_form lower is_space
login_returned = refl

login-refresh_example :
    (id : ℕ) × (u : User) × (row club.users id ≡ some u)
    × (u.email ≡ codes "ana@x.com")
    × (u.store_id ≡ 7)
    × (u.email_verified ≡ true)
    × (bcrypt.compare (codes "old") u.password ≡ true)
    × (refresh_access_token memory jwt 5000000 (member_session jwt 1000 0 ana).refresh_token moved
        ≡ (
          ok (record (member_session jwt 1000 0 ana) {
            access_token = jwt.sign 5000000 (claims_of id u) access_lifetime;
          }),
          moved,
        ))
login-refresh_example =
    login-refresh memory jwt bcrypt 1000 (codes "ana@x.com") (codes "ana@x.com") (codes "old") 7
      club club (member_session jwt 1000 0 ana) 5000000 moved ana_form login_returned (omega arith)

abbrev the_store : Store
the_store = record {
  name = codes "S";
  email = none;
  domain = codes "s.com";
  bravive_api_token = none;
}

-- A customer of one store and the admin of another, with the same address.
abbrev customer : User
customer = record ana { store_id = 0 }

abbrev boss : User
boss = record ana { role = reseller_admin; store_id = 0; name = codes "Eva" }

abbrev shared : World memory
shared = record club { users = some customer ∷ some boss ∷ [] }

abbrev boss_claims : Claims
boss_claims = record { profile = profile_of 1 boss; store_id = 0; role = some reseller_admin }

abbrev boss_session : Session
boss_session = open_session jwt 1000 boss_claims (admin (profile_of 1 boss) none the_store)

boss_logged_in :
    admin_login memory jwt bcrypt 1000 (codes "ana@x.com") (codes "old") shared
    ≡ (ok boss_session, shared)
unfolding admin_login normalize_email_required normalize_email normal_form lower is_space
boss_logged_in = refl

admin_login-refresh_example :
    (a : ℕ × User) × (home : Store) × (row shared.users a.0 ≡ some a.1)
    × (a.1.email ≡ codes "ana@x.com")
    × (is_admin a.1.role ≡ true)
    × (boss_session.view ≡ admin (profile_of a.0 a.1) none home)
    × (refresh_access_token memory jwt 5000 boss_session.refresh_token shared ≡ (
      ok (record {
        access_token = jwt.sign 5000 (admin_claims memory jwt bcrypt a) access_lifetime;
        refresh_token = boss_session.refresh_token;
        expires_in = 600;
        view = admin (profile_of 0 customer) (some 0) the_store;
      }),
      shared,
    ))
admin_login-refresh_example =
    admin_login-refresh memory jwt bcrypt 1000 (codes "ana@x.com") (codes "ana@x.com") (codes "old")
      shared shared boss_session 5000 (0, customer) the_store shared ana_form boss_logged_in
      (omega arith) refl refl
