-- ===== src/Examples/Accounts.antt =====
-- Examples of the administration of users.
use recharge_plataform_api.Prelude.{
  ◌≡◌, ◌⊎◌, ◌<◌, ◌≤◌, ℕ, refl, arith, true, false, none, some, List, [], ◌∷◌,
}
use recharge_plataform_api.Prelude.Text.{codes}
use recharge_plataform_api.Prisma.Memory.{memory, row}
use recharge_plataform_api.Schema.{User, Mail, password_reset, reseller_admin}
use recharge_plataform_api.Database.{World, ok}
use recharge_plataform_api.Email.{SendOutcome, mail_sent, mail_refused, mail_thrown}
use recharge_plataform_api.Order.Expiry.{check_and_expire_orders}
use recharge_plataform_api.Users.{send_email_with_retry, with_role, promote_to_admin}
use recharge_plataform_api.Users.Laws.{send_email_with_retry_lem, AdminsUnique}
use recharge_plataform_api.Users.Admins.{promote_to_admin-AdminsUnique}
use recharge_plataform_api.Users.Cleanup.{cleanup_unverified_users, expire_unpaid_orders}
use recharge_plataform_api.Users.Cleanup.Laws.{
  cleanup_unverified_users_lem, expire_unpaid-check_and_expire,
}
use recharge_plataform_api.Examples.Data.{shop, calendar, only_row}
use recharge_plataform_api.Examples.Auth.{ana, club, club_unique}

abbrev mail : Mail
mail = record {
  to = codes "ana@x.com";
  subject = codes "S";
  html = password_reset (codes "1") none;
}

abbrev outcomes : List SendOutcome
outcomes = mail_thrown (500, codes "network") ∷ mail_refused (429, codes "slow") ∷ mail_sent ∷ []

send_email_with_retry_example : send_email_with_retry memory 3 outcomes mail club ≡ (true, club)
send_email_with_retry_example = send_email_with_retry_lem memory outcomes mail club

abbrev promoted : World memory
promoted = record club { users = some (with_role reseller_admin 9 5000 ana) ∷ [] }

promote_returned : promote_to_admin memory [] 5000 0 7 9 club ≡ (ok tt, promoted)
unfolding promote_to_admin
promote_returned = refl

club_admins : AdminsUnique memory club.users
club_admins i j u v at_i at_j admin_u admin_v same =
    ground (arith, only_row ana i u at_i, only_row ana j v at_j)

promote_to_admin-AdminsUnique_example : AdminsUnique memory promoted.users
promote_to_admin-AdminsUnique_example =
    promote_to_admin-AdminsUnique memory [] 5000 0 7 9 club promoted club_unique club_admins
      promote_returned

abbrev waiting : User
waiting = record ana { email_verified = false }

abbrev unconfirmed : World memory
unconfirmed = record club { users = some waiting ∷ [] }

cleanup_unverified_users_example :
    ((waiting.email_verified ≡ false)
      × (t : ℕ) × (waiting.email_confirmation_expires ≡ some t)
      × (t < 900000)
      × (row (cleanup_unverified_users memory 900000 unconfirmed).users 0 ≡ none))
    ⊎ (((waiting.email_verified ≡ true)
          ⊎ (waiting.email_confirmation_expires ≡ none)
          ⊎ ((t : ℕ) × (waiting.email_confirmation_expires ≡ some t) × (900000 ≤ t)))
        × (row (cleanup_unverified_users memory 900000 unconfirmed).users 0 ≡ some waiting))
cleanup_unverified_users_example =
    cleanup_unverified_users_lem memory 900000 unconfirmed 0 waiting refl

expire_unpaid-check_and_expire_example :
    row (expire_unpaid_orders memory calendar 90000000 24 shop).orders 0
    ≡ row (check_and_expire_orders memory calendar none [] none 90000000 24 shop).1.orders 0
expire_unpaid-check_and_expire_example =
    expire_unpaid-check_and_expire memory calendar 90000000 24 shop 0
