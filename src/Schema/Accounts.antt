-- ===== src/Schema/Accounts.antt =====
-- The rows of prisma/schema.prisma about accounts and stores, and the mails that are sent to them.
use recharge_plataform_api.Prelude.{ℕ, Bool, Option}
use recharge_plataform_api.Prelude.Text.{Text}

-- MASTER_ADMIN_4MIGA_USER, RESELLER_ADMIN_4MIGA_USER and USER
pub data UserRole : Type 0 where
  master_admin reseller_admin plain_user : UserRole

pub data IndividualType : Type 0 where
  cpf cnpj : IndividualType

pub record User : Type 0 where
  pub name : Text
  pub email : Text
  pub phone : Text
  pub password : Text
  pub document_type : IndividualType
  pub document_value : Text
  pub role : UserRole
  pub created_at : ℕ
  pub store_id : ℕ
  pub reset_password_code : Option Text
  pub reset_password_expires : Option ℕ
  pub email_confirmation_code : Option Text
  pub email_verified : Bool
  pub email_confirmation_expires : Option ℕ
  pub role_changed_at : Option ℕ
  pub role_changed_by : Option ℕ
  pub recharge_bigo_id : Option Text

pub record Store : Type 0 where
  pub name : Text
  pub email : Option Text
  pub domain : Text
  pub bravive_api_token : Option Text

pub record Package : Type 0 where
  pub name : Text
  pub amount_credits : ℕ
  pub img_card_url : Text
  pub product_id : ℕ
  pub store_id : ℕ

-- A way to pay for a package, with its price.
pub record PaymentMethod : Type 0 where
  pub name : Text
  pub price : ℕ
  pub package_id : ℕ

-- The templates of src/email/templates with what is put into them.
pub data Template : Type 0 where
  -- the code and the store's domain
  password_reset : Text → Option Text → Template
  -- the code, the user's name, the store's domain and id
  email_confirmation : Text → Text → Text → ℕ → Template
  email_change : Text → Option Text → Template
  -- the user's name and address, the store's domain
  account_created : Text → Text → Text → Template
  -- the user's name, the store's name, the instant and the store's domain
  admin_promotion admin_demotion : Text → Text → ℕ → Text → Template

pub record Mail : Type 0 where
  pub to : Text
  pub subject : Text
  pub html : Template
