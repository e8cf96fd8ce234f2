-- ===== src/Order/Request.antt =====
-- The whole of `create` of `order.service.ts`: its checks, its price, the search for a number and for a
-- recent order, the call of Bravive and the transaction, with the errors that it turns into others; and
-- `validateCouponByPackage`.
pub mod Laws
pub mod Placed
pub mod Price
use recharge_plataform_api.Prelude.{
  ℕ, ◌+◌, ◌*◌, ◌≤◌, ◌≡◌, Bool, true, false, ◌&&◌, ◌||◌, not, Option, none, some, List, [], ◌∷◌,
  ◌++◌, ◌==◌, map, keep, if◌then◌else◌, map_option,
}
use recharge_plataform_api.Prelude.Text.{Text, codes, text_eq, is_digit}
use recharge_plataform_api.Prisma.{Prisma, PrismaCode, p2002, p2025}
use recharge_plataform_api.Schema.{Order, User, Package, PaymentMethod, Store, RequestBody}
use recharge_plataform_api.Database.{
  World, Action, Result, ok, err, Error, http_exception, prisma_error, js_error, HttpKind,
  bad_request, forbidden, not_found, message_of, pure, throw, throw_if, try_catch, on_option, ◌>>=◌,
  ◌>>◌,
}
use recharge_plataform_api.Utils.Email.{lower, trim_start, trim_end}
use recharge_plataform_api.Users.{is_empty, require_field}
use recharge_plataform_api.Bigo.Request.{Exchange}
use recharge_plataform_api.Bigo.Service.{recharge_precheck, lift, is_blank}
use recharge_plataform_api.Order.Coupon.{Money, CouponCheck, refused, accepted, validate_coupon}
use recharge_plataform_api.Order.Number.{unique_order_number}
use recharge_plataform_api.Order.Recent.{PriceTest, recent_order}
use recharge_plataform_api.Order.Create.{BraviveResponse, OrderData, create_rows}

pub record CreateOrderDto : Type 0 where
  pub package_id : ℕ
  pub payment_method_id : ℕ
  pub user_id_for_recharge : Text
  pub coupon_title : Option Text
  pub price : ℕ

-- The body of the payment that Bravive is asked for; the amount is in cents.
pub record CreatePaymentDto : Type 0 where
  pub amount : ℕ
  pub currency : Text
  pub description : Text
  pub payer_name : Text
  pub payer_email : Text
  pub payer_phone : Text
  pub payer_document : Text

-- What is outside: the clock, the answers of Bigo and Bravive, the numbers that are generated, the
-- decryption of a token, and the floats: their comparison by a cent and their text.
pub record Surroundings : Type 0 where
  pub now : ℕ
  pub seqid : Text
  pub bigo : Exchange
  pub generate_order_number : ℕ → Text
  -- `none` if the token cannot be decrypted
  pub decrypt : Text → Option Text
  pub create_payment : CreatePaymentDto → Text → Result BraviveResponse
  pub money : Money
  pub prices : PriceTest
  pub number_text : ℕ → Text

abbrev pub bad_order : Text → Error
bad_order message = http_exception bad_request message

abbrev pub payment_failed : Text → Error
payment_failed reason = bad_order (codes "Payment processing failed: " ++ reason)

-- `text.replace(/\D/g, '')`
abbrev pub sanitize : Text → Text
sanitize t = keep is_digit t

abbrev pub is_pix : Text → Bool
is_pix name = text_eq (map lower name) (codes "pix")

-- A text with nothing but white space in it.
abbrev pub is_blank_text : Text → Bool
is_blank_text t = is_empty (trim_end (trim_start t))

abbrev pub precheck_body : Text → RequestBody
precheck_body bigo_id = record {
  recharge_bigoid = some bigo_id;
  bu_orderid = none;
  value = none;
  total_cost = none;
  currency = none;
  seqid = none;
}

-- The price to pay and the coupon.
abbrev pub priced : CouponCheck → Result (ℕ × Option ℕ)
priced (refused message) = err (bad_order message)
priced (accepted discount final coupon) = ok (final, some coupon)

-- The `catch` of `create`.
abbrev pub create_error : Error → Error
create_error (http_exception forbidden m) = http_exception forbidden m
create_error (http_exception not_found m) = http_exception not_found m
create_error (http_exception bad_request m) = http_exception bad_request m
create_error (http_exception HttpKind.unauthorized m) = http_exception HttpKind.unauthorized m
create_error (prisma_error p2002 m) = bad_order (codes "Order with this number already exists")
create_error (prisma_error p2025 m) = bad_order (codes "Database error while creating order: " ++ m)
create_error (js_error m) = js_error m

module _ (P : Prisma) (out : Surroundings) where
  abbrev read : {A : Type 0} → Error → (World P → Option A) → Action (World P) A
  read e o w = (on_option (err e) ok (o w), w)

  abbrev pub find_member : ℕ → ℕ → World P → Option User
  find_member user store w =
      on_option none (λ (u : User). if u.store_id == store then some u else none)
        (P.find_unique w.users user)

  abbrev pub find_method : ℕ → ℕ → World P → Option PaymentMethod
  find_method method pkg w =
      on_option none (λ (m : PaymentMethod). if m.package_id == pkg then some m else none)
        (P.find_unique w.payment_methods method)

  unfoldable pub precheck : Text → Action (World P) (Unit {0})
  precheck bigo_id =
      try_catch
        (do r ← recharge_precheck P (precheck_body bigo_id) none out.seqid out.bigo; pure tt)
        (λ e. throw (bad_order (codes "Invalid userId for recharge")))

  -- The price of the method, or what the coupon makes of it; an empty title is no coupon.
  unfoldable pub final_price : ℕ → Option Text → Text → ℕ → ℕ → Action (World P) (ℕ × Option ℕ)
  final_price price title bigo_id store user w = (
    if is_blank title
        then ok (price, none)
        else priced (
            validate_coupon P out.money (on_option [] (λ t. t) title) price store user
              (some bigo_id) out.now w),
    w,
  )

  -- `getBraviveToken`: a token that cannot be decrypted is used as it is.
  unfoldable pub get_bravive_token : ℕ → World P → Result (Option Text)
  get_bravive_token store w =
      on_option (err (bad_order (codes "Store not found")))
        (λ (s : Store). ok (
          if is_blank s.bravive_api_token
          then none
          else map_option (λ t. on_option t (λ d. d) (out.decrypt t)) s.bravive_api_token))
        (P.find_unique w.stores store)

  abbrev pub token_present : Option Text → Result Text
  token_present none = err (payment_failed (codes "Bravive token not configured"))
  token_present (some []) = err (payment_failed (codes "Bravive token not configured"))
  token_present (some (c ∷ cs)) = ok (c ∷ cs)

  abbrev pub payment_dto : Text → ℕ → User → Package → CreatePaymentDto
  payment_dto number price u pkg = record {
    amount = price;
    currency = codes "BRL";
    description = codes "Pedido " ++ (number ++ (codes " - " ++ pkg.name));
    payer_name = u.name;
    payer_email = u.email;
    payer_phone = sanitize u.phone;
    payer_document = sanitize u.document_value;
  }

  abbrev pub ask_bravive : CreatePaymentDto → Text → Result BraviveResponse → Result BraviveResponse
  ask_bravive dto token (ok r) = ok r
  ask_bravive dto token (err e) = err (payment_failed (message_of e))

  unfoldable pub pay_by_pix : Text → ℕ → ℕ → User → Package → Action (World P) BraviveResponse
  pay_by_pix number price store u pkg = do
    stored ← λ w. (get_bravive_token store w, w)
    token ← lift (token_present stored)
    throw_if (is_blank_text u.phone) (payment_failed (codes "User phone is required"))
    throw_if (is_blank_text u.document_value) (payment_failed (codes "User document is required"))
    let dto : CreatePaymentDto = payment_dto number price u pkg
    lift (ask_bravive dto token (out.create_payment dto token))

  -- The call of Bravive and the rows of a new order.
  unfoldable pub place_order :
      CreateOrderDto
      → ℕ
      → ℕ
      → User
      → Package
      → PaymentMethod
      → Text
      → ℕ
      → Option ℕ
      → Action (World P) ℕ
  place_order dto store user u pkg method number price coupon = do
    bravive ←
        (if is_pix method.name
          then (do r ← pay_by_pix number price store u pkg; pure (some r))
          else pure none)
    create_rows P out.now (record {
      order_number = number;
      price = price;
      base_price = method.price;
      store_id = store;
      user_id = user;
      package_id = dto.package_id;
      package_name = pkg.name;
      img_card_url = pkg.img_card_url;
      product_id = pkg.product_id;
      amount_credits = pkg.amount_credits;
      user_id_for_recharge = dto.user_id_for_recharge;
      payment_name = method.name;
      bravive = bravive;
      coupon = coupon;
    })

  -- The order is read again after the transaction.
  unfoldable pub place_and_read :
      CreateOrderDto
      → ℕ
      → ℕ
      → User
      → Package
      → PaymentMethod
      → Text
      → ℕ
      → Option ℕ
      → Action (World P) ℕ
  place_and_read dto store user u pkg method number price coupon = do
    id ← place_order dto store user u pkg method number price coupon
    o ←
        read (http_exception not_found (codes "Order not found after creation"))
          (λ w. P.find_unique w.orders id)
    pure id

  -- The loop on numbers never runs out of fuel; the error stands for that case.
  abbrev pub next_number : Action (World P) Text
  next_number w = (
    on_option (err (js_error [])) (λ r. r) (unique_order_number P out.generate_order_number w),
    w,
  )

  unfoldable pub create_checked : CreateOrderDto → ℕ → ℕ → Action (World P) ℕ
  create_checked dto store user = do
    u ←
        read (http_exception forbidden (codes "User does not belong to this store"))
          (find_member user store)
    pkg ←
        read (http_exception not_found (codes "Package not found"))
          (λ w. P.find_unique w.packages dto.package_id)
    throw_if (not (pkg.store_id == store))
        (bad_order (codes "Package does not belong to this store"))
    method ←
        read (http_exception not_found (codes "Payment method not available for this package"))
          (find_method dto.payment_method_id dto.package_id)
    precheck dto.user_id_for_recharge
    final ← final_price method.price dto.coupon_title dto.user_id_for_recharge store user
    throw_if (out.prices.price_differs final.0 dto.price) (
        bad_order (
          codes "Price mismatch: calculated price ("
          ++ (out.number_text final.0
              ++ (codes ") does not match provided price ("
                  ++ (out.number_text dto.price ++ codes ")")))))
    number ← next_number
    recent ← λ w. (
      ok (
          recent_order P out.prices user store dto.package_id dto.user_id_for_recharge final.1
            final.0 out.now w),
      w,
    )
    on_option (place_and_read dto store user u pkg method number final.0 final.1) (λ e. pure e.0)
        recent

  -- The id of the order that the caller gets.
  unfoldable pub create : CreateOrderDto → ℕ → ℕ → Action (World P) ℕ
  create dto store user = do
    require_field (codes "userIdForRecharge") dto.user_id_for_recharge
    try_catch (create_checked dto store user) (λ e. throw (create_error e))

  -- The price of the method of a package, with which a coupon is checked before the order is made; the
  -- database is only read.
  unfoldable pub validate_coupon_by_package :
      ℕ → ℕ → Text → ℕ → ℕ → Option Text → Action (World P) CouponCheck
  validate_coupon_by_package package_id method title store user bigo_id = do
    pkg ←
        read (http_exception not_found (codes "Package not found"))
          (λ w. P.find_unique w.packages package_id)
    throw_if (not (pkg.store_id == store))
        (bad_order (codes "Package does not belong to this store"))
    chosen ←
        read (http_exception not_found (codes "Payment method not available for this package"))
          (find_method method package_id)
    λ w. (ok (validate_coupon P out.money title chosen.price store user bigo_id out.now w), w)
