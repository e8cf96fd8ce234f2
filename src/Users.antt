-- ===== src/Users.antt =====
-- `UserService` of src/user/user.service.ts: creating an account, mailing with retries, promoting and
-- demoting admins. The outcomes of the mails are given in the order of the attempts.
pub mod Cleanup
pub mod Laws
pub mod Admins
use recharge_plataform_api.Prelude.{
  ℕ, zero, suc, ◌+◌, ◌*◌, Bool, true, false, ◌&&◌, not, Option, none, some, List, [], ◌∷◌, ◌++◌,
  ◌==◌, head?, if◌then◌else◌,
}
use recharge_plataform_api.Prelude.Text.{Text, codes, text_eq}
use recharge_plataform_api.Prisma.{Prisma, PrismaCode, p2025}
use recharge_plataform_api.Schema.{
  User, UserRole, plain_user, reseller_admin, master_admin, IndividualType, Store, Mail,
  email_confirmation, account_created, admin_promotion, admin_demotion,
}
use recharge_plataform_api.Database.{
  World, Action, ok, err, Error, http_exception, prisma_error, bad_request, is_bad_request, pure,
  throw, throw_if, try_catch, on_option, update_row, ◌>>=◌, ◌>>◌,
}
use recharge_plataform_api.Utils.Email.{trim_start, trim_end}
use recharge_plataform_api.Email.{SendOutcome, mail_sent, mail_refused, mail_thrown, send_email}
use recharge_plataform_api.Auth.Session.{
  Bcrypt, Jwt, Session, member_session, random_code, find_user,
}
use recharge_plataform_api.Auth.Reset.{bad}

-- `CreateUserDto`
pub record CreateUserDto : Type 0 where
  pub name : Text
  pub email : Text
  pub phone : Text
  pub password : Text
  pub document_type : IndividualType
  pub document_value : Text
  pub store_id : ℕ

abbrev pub is_empty : Text → Bool
is_empty [] = true
is_empty (c ∷ cs) = false

-- `validateRequiredFields` on one field
abbrev pub require_field : {S : Type 0} → Text → Text → Action S (Unit {0})
require_field field value =
    throw_if (is_empty (trim_end (trim_start value)))
      (bad (codes "Field '" ++ (field ++ codes "' cannot be empty")))

-- Of a type and an id only the presence is checked, which their types give.
abbrev pub validate_fields : {S : Type 0} → CreateUserDto → Action S (Unit {0})
validate_fields dto = do
  require_field (codes "name") dto.name
  require_field (codes "email") dto.email
  require_field (codes "phone") dto.phone
  require_field (codes "password") dto.password
  require_field (codes "documentValue") dto.document_value

abbrev new_user : ℕ → Text → CreateUserDto → User
new_user now hashed dto = record {
  name = dto.name;
  email = dto.email;
  phone = dto.phone;
  password = hashed;
  document_type = dto.document_type;
  document_value = dto.document_value;
  role = plain_user;
  created_at = now;
  store_id = dto.store_id;
  reset_password_code = none;
  reset_password_expires = none;
  email_confirmation_code = none;
  email_verified = false;
  email_confirmation_expires = none;
  role_changed_at = none;
  role_changed_by = none;
  recharge_bigo_id = none;
}

-- With a code that is valid for a day, or verified at once.
abbrev pub unverified_user : ℕ → Text → Text → CreateUserDto → User
unverified_user now code hashed dto = record (new_user now hashed dto) {
  email_confirmation_code = some code;
  email_confirmation_expires = some (now + 24 * 60 * 60 * 1000);
}

abbrev pub verified_user : ℕ → Text → CreateUserDto → User
verified_user now hashed dto = record (new_user now hashed dto) { email_verified = true }

-- `if (error instanceof BadRequestException) throw error; throw new BadRequestException(text)`
abbrev pub rethrow_bad : {A S : Type 0} → Text → Error → Action S A
rethrow_bad text e = throw (if is_bad_request e then e else bad text)

abbrev pub is_reseller_admin : UserRole → Bool
is_reseller_admin reseller_admin = true
is_reseller_admin r = false

abbrev pub is_plain_user : UserRole → Bool
is_plain_user plain_user = true
is_plain_user r = false

abbrev pub with_role : UserRole → ℕ → ℕ → User → User
with_role role by now u = record u {
  role = role;
  role_changed_by = some by;
  role_changed_at = some now;
}

module _ (P : Prisma) where
  -- `sendEmailWithRetry` with the attempts left and the outcomes of the mails; a list that is shorter
  -- stands for mails that are taken from there on. The waits between the attempts change nothing.
  unfoldable pub send_email_with_retry : ℕ → List SendOutcome → Mail → World P → Bool × World P
  send_email_with_retry zero outcomes mail w = (false, w)
  send_email_with_retry (suc left) [] mail w = (true, (send_email P mail_sent mail w).1)
  send_email_with_retry (suc left) (mail_sent ∷ outcomes) mail w =
      (true, (send_email P mail_sent mail w).1)
  send_email_with_retry (suc left) (mail_refused e ∷ outcomes) mail w =
      (true, (send_email P (mail_refused e) mail w).1)
  send_email_with_retry (suc left) (mail_thrown e ∷ outcomes) mail w =
      send_email_with_retry left outcomes mail w

  -- A mail whose outcome the caller does not read.
  abbrev pub try_email : List SendOutcome → Mail → Action (World P) (Unit {0})
  try_email outcomes mail w = (ok tt, (send_email_with_retry 3 outcomes mail w).1)

  abbrev pub has_document : Text → ℕ → User → Bool
  has_document document store u = text_eq u.document_value document && u.store_id == store

  -- The two searches of `create`, each with its error.
  abbrev pub check_unused : CreateUserDto → Action (World P) (Unit {0})
  check_unused dto w =
      on_option
        (on_option (ok tt, w) (λ _. (err (bad (codes "User with this document already exists")), w))
          (head? (P.find_many w.users (has_document dto.document_value dto.store_id))))
        (λ _. (err (bad (codes "User with this email already exists")), w))
        (find_user P dto.email dto.store_id w)

  -- Both addresses and documents are unique per store, which was checked.
  abbrev pub insert_user : User → Action (World P) ℕ
  insert_user u w = let (id, t) = P.create w.users u in (ok id, record w { users = t })

  abbrev pub require_store : ℕ → Action (World P) Store
  require_store store w =
      (on_option (err (bad (codes "Store not found"))) ok (P.find_unique w.stores store), w)

  unfoldable pub create :
      Bcrypt → List SendOutcome → Text → ℕ → ℕ → CreateUserDto → Action (World P) ℕ
  create bcrypt outcomes salt now random dto =
      try_catch
        (do
          validate_fields dto
          check_unused dto
          let code : Text = random_code random
          id ← insert_user (unverified_user now code (bcrypt.hash salt dto.password) dto)
          store ← require_store dto.store_id
          try_email outcomes (record {
            to = dto.email;
            subject = codes "Confirm your registration";
            html = email_confirmation code dto.name store.domain dto.store_id;
          })
          pure id)
        (rethrow_bad (codes "Failed to create user"))

  unfoldable pub create_direct :
      Jwt → Bcrypt → List SendOutcome → Text → ℕ → CreateUserDto → Action (World P) Session
  create_direct jwt bcrypt outcomes salt now dto =
      try_catch
        (do
          validate_fields dto
          check_unused dto
          let u : User = verified_user now (bcrypt.hash salt dto.password) dto
          id ← insert_user u
          store ← require_store dto.store_id
          try_email outcomes (record {
            to = dto.email;
            subject = codes "Conta criada com sucesso";
            html = account_created dto.name dto.email store.domain;
          })
          pure (member_session jwt now id u))
        (rethrow_bad (codes "Failed to create user"))

  abbrev require_account : ℕ → Action (World P) User
  require_account id w =
      (on_option (err (bad (codes "User not found"))) ok (P.find_unique w.users id), w)

  -- `findFirst({ where: { email, role: RESELLER_ADMIN, storeId: { not } } })`
  abbrev pub is_admin_elsewhere : Text → ℕ → User → Bool
  is_admin_elsewhere email store u =
      text_eq u.email email && (is_reseller_admin u.role && not (u.store_id == store))

  abbrev check_no_other_admin : Text → ℕ → Action (World P) (Unit {0})
  check_no_other_admin email store w = (
    on_option (ok tt)
        (λ _. err (bad (codes "This email is already an administrator in another store")))
        (head? (P.find_many w.users (is_admin_elsewhere email store))),
    w,
  )

  abbrev set_role : ℕ → (User → User) → Action (World P) (Unit {0})
  set_role id f w = update_row P w.users (λ t. record w { users = t }) id f w

  -- `if (store)`: the mail is sent in the background.
  abbrev notify_role : List SendOutcome → Text → (Store → Mail) → ℕ → Action (World P) (Unit {0})
  notify_role outcomes email mail store w =
      on_option (ok tt, w) (λ s. try_email outcomes (mail s) w) (P.find_unique w.stores store)

  unfoldable pub promote_to_admin : List SendOutcome → ℕ → ℕ → ℕ → ℕ → Action (World P) (Unit {0})
  promote_to_admin outcomes now id store by =
      try_catch
        (do
          u ← require_account id
          throw_if (not (u.store_id == store))
              (bad (codes "Cannot promote users from different stores"))
          throw_if (not (is_plain_user u.role)) (bad (codes "User is already an admin"))
          check_no_other_admin u.email store
          set_role id (with_role reseller_admin by now)
          notify_role outcomes u.email
              (λ s. record {
                to = u.email;
                subject = codes "Você foi promovido a Administrador";
                html = admin_promotion u.name s.name now s.domain;
              })
              store)
        (rethrow_bad (codes "Failed to promote user"))

  unfoldable pub demote_to_user : List SendOutcome → ℕ → ℕ → ℕ → ℕ → Action (World P) (Unit {0})
  demote_to_user outcomes now id store by =
      try_catch
        (do
          throw_if (id == by) (bad (codes "Cannot demote yourself"))
          u ← require_account id
          throw_if (not (u.store_id == store))
              (bad (codes "Cannot demote users from different stores"))
          throw_if (not (is_reseller_admin u.role)) (bad (codes "User is not a reseller admin"))
          set_role id (with_role plain_user by now)
          notify_role outcomes u.email
              (λ s. record {
                to = u.email;
                subject = codes "Alteração de Permissões de Administrador";
                html = admin_demotion u.name s.name now s.domain;
              })
              store)
        (rethrow_bad (codes "Failed to demote user"))

  unfoldable pub validate_password : Bcrypt → ℕ → Text → World P → Bool
  validate_password bcrypt id password w =
      on_option false (λ (u : User). bcrypt.compare password u.password) (P.find_unique w.users id)

  abbrev is_missing : Error → Bool
  is_missing (prisma_error p2025 m) = true
  is_missing e = false

  unfoldable pub update_recharge_bigo_id : ℕ → Option Text → Action (World P) (Unit {0})
  update_recharge_bigo_id id recharge_bigo_id =
      try_catch (set_role id (λ u. record u { recharge_bigo_id = recharge_bigo_id })) (λ e. throw (
        bad (
          if is_missing e
          then codes "User not found"
          else codes "Failed to update recharge bigo id")))
