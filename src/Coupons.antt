-- ===== src/Coupons.antt =====
-- `CouponService` of src/coupon/coupon.service.ts: creating, changing and removing coupons, and the
-- featured ones. `some` of an expiry is the instant of a text that is not blank.
pub mod Laws
use recharge_plataform_api.Prelude.{
  ℕ, Bool, true, false, ◌&&◌, ◌||◌, not, Option, none, some, [], ◌∷◌, ◌==◌, ltb, length, head?,
  keep, List, if◌then◌else◌,
}
use recharge_plataform_api.Prelude.Int.{pos}
use recharge_plataform_api.Prelude.Text.{Text, codes, text_eq}
use recharge_plataform_api.Prisma.{Prisma}
use recharge_plataform_api.Schema.{Coupon, Influencer, FeaturedCoupon}
use recharge_plataform_api.Database.{
  World, Action, ok, err, Error, http_exception, bad_request, pure, throw_if, try_catch, on_option,
  update_coupon, ◌>>=◌, ◌>>◌,
}
use recharge_plataform_api.Utils.Email.{trim_start, trim_end}
use recharge_plataform_api.Order.Coupon.{is_coupon}
use recharge_plataform_api.Auth.Reset.{bad}
use recharge_plataform_api.Users.{is_empty, require_field, rethrow_bad}

-- A field of a partial DTO: undefined, null or a value.
pub data Field (A : Type 0) : Type 0 where
  undefined : Field A
  null : Field A
  value : A → Field A

abbrev pub has_value : {A : Type 0} → Field A → Bool
has_value undefined = false
has_value null = false
has_value (value a) = true

-- `!field` of a number: undefined, null or 0.
abbrev pub is_falsy : Field ℕ → Bool
is_falsy undefined = true
is_falsy null = true
is_falsy (value n) = n == 0

-- The column after `update({ data })`; an undefined field changes nothing.
abbrev pub apply_field : {A : Type 0} → Field A → Option A → Option A
apply_field undefined old = old
apply_field null old = none
apply_field (value a) old = some a

abbrev pub or_old : {A : Type 0} → Option A → A → A
or_old none old = old
or_old (some a) old = a

pub record CreateCouponDto : Type 0 where
  pub title : Text
  pub influencer_id : ℕ
  pub discount_percentage : Field ℕ
  pub discount_amount : Field ℕ
  pub expires_at : Option ℕ
  pub max_uses : Field ℕ
  pub min_order_amount : Field ℕ
  pub is_active : Option Bool
  pub is_first_purchase : Option Bool
  pub is_one_time_per_bigo_id : Option Bool

pub record UpdateCouponDto : Type 0 where
  pub title : Option Text
  pub influencer_id : Option ℕ
  pub discount_percentage : Field ℕ
  pub discount_amount : Field ℕ
  pub expires_at : Option ℕ
  pub max_uses : Field ℕ
  pub min_order_amount : Field ℕ
  pub is_active : Option Bool
  pub is_first_purchase : Option Bool
  pub is_one_time_per_bigo_id : Option Bool

-- A fixed discount above the minimum of the request; a minimum that is not given is no bound.
abbrev pub exceeds_minimum : Field ℕ → Field ℕ → Bool
exceeds_minimum (value amount) (value minimum) =
    not (amount == 0) && (not (minimum == 0) && ltb minimum amount)
exceeds_minimum undefined m = false
exceeds_minimum null m = false
exceeds_minimum (value amount) undefined = false
exceeds_minimum (value amount) null = false

abbrev pub check_minimum : {S : Type 0} → Field ℕ → Field ℕ → Action S (Unit {0})
check_minimum amount minimum =
    throw_if (exceeds_minimum amount minimum)
      (bad (codes "Fixed discount amount cannot be greater than minimum order amount"))

abbrev pub new_coupon : CreateCouponDto → ℕ → Coupon
new_coupon dto store = record {
  title = dto.title;
  discount_percentage = apply_field dto.discount_percentage none;
  discount_amount = apply_field dto.discount_amount none;
  expires_at = dto.expires_at;
  times_used = pos 0;
  total_sales_amount = pos 0;
  max_uses = apply_field dto.max_uses none;
  min_order_amount = apply_field dto.min_order_amount none;
  is_active = or_old dto.is_active true;
  store_id = store;
  influencer_id = dto.influencer_id;
  is_first_purchase = or_old dto.is_first_purchase false;
  is_one_time_per_bigo_id = or_old dto.is_one_time_per_bigo_id false;
  deleted_at = none;
}

-- The two assignments that switch between a percentage and an amount.
abbrev pub switched : Field ℕ → Field ℕ → Field ℕ
switched other own = if has_value other then null else own

abbrev pub changed_coupon : UpdateCouponDto → Coupon → Coupon
changed_coupon dto c = record c {
  title = or_old dto.title c.title;
  influencer_id = or_old dto.influencer_id c.influencer_id;
  discount_percentage =
      apply_field (switched dto.discount_amount dto.discount_percentage) c.discount_percentage;
  discount_amount =
      apply_field (switched dto.discount_percentage dto.discount_amount) c.discount_amount;
  expires_at = on_option c.expires_at (λ t. some t) dto.expires_at;
  max_uses = apply_field dto.max_uses c.max_uses;
  min_order_amount = apply_field dto.min_order_amount c.min_order_amount;
  is_active = or_old dto.is_active c.is_active;
  is_first_purchase = or_old dto.is_first_purchase c.is_first_purchase;
  is_one_time_per_bigo_id = or_old dto.is_one_time_per_bigo_id c.is_one_time_per_bigo_id;
}

abbrev pub as_deleted : ℕ → Coupon → Coupon
as_deleted now c = record c { deleted_at = some now }

abbrev pub title_taken : Error
title_taken = bad (codes "Coupon with this title already exists for this store")

module _ (P : Prisma) where
  -- `findFirst({ where: { id, storeId } })`
  abbrev pub check_influencer : ℕ → ℕ → Action (World P) (Unit {0})
  check_influencer influencer store w = (
    if on_option false (λ (i : Influencer). i.store_id == store)
          (P.find_unique w.influencers influencer)
        then ok tt
        else err (bad (codes "Influencer not found or does not belong to this store")),
    w,
  )

  -- A live coupon of the store with the title; `update` leaves the coupon itself out of the search, by
  -- its id, which the search returns with the row.
  abbrev pub check_title : Text → ℕ → Action (World P) (Unit {0})
  check_title title store w = (
    on_option (ok tt) (λ _. err title_taken)
        (head? (P.find_many w.coupons (is_coupon P title store))),
    w,
  )

  abbrev pub insert_coupon : Coupon → Action (World P) ℕ
  insert_coupon c w = let (id, t) = P.create w.coupons c in (ok id, record w { coupons = t })

  abbrev pub check_discount : CreateCouponDto → Action (World P) (Unit {0})
  check_discount dto = do
    throw_if (not (is_falsy dto.discount_percentage) && not (is_falsy dto.discount_amount))
        (bad (codes "Cannot have both discount percentage and amount"))
    throw_if (is_falsy dto.discount_percentage && is_falsy dto.discount_amount)
        (bad (codes "Must have either discount percentage or amount"))
    check_minimum dto.discount_amount dto.min_order_amount

  unfoldable pub create : CreateCouponDto → ℕ → Action (World P) ℕ
  create dto store =
      try_catch
        (do
          throw_if (is_empty (trim_end (trim_start dto.title)))
              (bad (codes "Coupon title is required and cannot be empty"))
          throw_if (ltb (length dto.title) 2)
              (bad (codes "Coupon title must be at least 2 characters long"))
          throw_if (ltb 20 (length dto.title))
              (bad (codes "Coupon title cannot exceed 20 characters"))
          λ w. (
            on_option (err (bad (codes "Store not found"))) (λ s. ok tt)
                (P.find_unique w.stores store),
            w,
          )
          check_influencer dto.influencer_id store
          check_title dto.title store
          check_discount dto
          insert_coupon (new_coupon dto store))
        (rethrow_bad (codes "Failed to create coupon"))

  -- Whatever it throws inside, a coupon that is missing or deleted is answered with one message.
  abbrev pub find_one : ℕ → Action (World P) Coupon
  find_one id w = (
    on_option (err (bad (codes "Failed to fetch coupon")))
        (λ (c : Coupon).
          on_option (ok c) (λ t. err (bad (codes "Failed to fetch coupon"))) c.deleted_at)
        (P.find_unique w.coupons id),
    w,
  )

  -- `id: { not: id }`
  abbrev pub check_other_title : Text → ℕ → ℕ → Action (World P) (Unit {0})
  check_other_title title store id w = (
    on_option (ok tt) (λ _. err title_taken)
        (head? (
          keep (λ (e : ℕ × Coupon). not (e.0 == id))
            (P.find_many w.coupons (is_coupon P title store)))),
    w,
  )

  abbrev pub check_optional_title : Option Text → ℕ → ℕ → Action (World P) (Unit {0})
  check_optional_title none store id w = (ok tt, w)
  check_optional_title (some t) store id w = check_other_title t store id w

  abbrev pub check_optional_influencer : Option ℕ → ℕ → Action (World P) (Unit {0})
  check_optional_influencer none store w = (ok tt, w)
  check_optional_influencer (some i) store w = check_influencer i store w

  abbrev pub validate_optional_title : Option Text → Action (World P) (Unit {0})
  validate_optional_title none w = (ok tt, w)
  validate_optional_title (some t) w = require_field (codes "title") t w

  -- The part of `update` after the coupon was found. A blank expiry, which is refused as an empty field,
  -- is not among the values of the DTO.
  unfoldable pub update_found : ℕ → UpdateCouponDto → Coupon → Action (World P) (Unit {0})
  update_found id dto c = do
    throw_if (has_value dto.discount_percentage && has_value dto.discount_amount)
        (bad (codes "Cannot have both discount percentage and amount"))
    check_minimum (switched dto.discount_percentage dto.discount_amount) dto.min_order_amount
    validate_optional_title dto.title
    check_optional_influencer dto.influencer_id c.store_id
    check_optional_title dto.title c.store_id id
    update_coupon P id (changed_coupon dto)

  unfoldable pub update : ℕ → UpdateCouponDto → Action (World P) (Unit {0})
  update id dto =
      try_catch (do c ← find_one id; update_found id dto c)
        (rethrow_bad (codes "Failed to update coupon"))

  unfoldable pub remove : ℕ → ℕ → Action (World P) (Unit {0})
  remove now id =
      try_catch (do c ← find_one id; update_coupon P id (as_deleted now))
        (rethrow_bad (codes "Failed to remove coupon"))

  unfoldable pub add_featured_coupon : ℕ → ℕ → Action (World P) ℕ
  add_featured_coupon store id =
      try_catch
        (do
          λ w. (
            if on_option false
                  (λ (c : Coupon). c.store_id == store && on_option true (λ t. false) c.deleted_at)
                  (P.find_unique w.coupons id)
                then ok tt
                else err (bad (codes "Coupon not found or does not belong to this store")),
            w,
          )
          λ w. (
            on_option (ok tt) (λ _. err (bad (codes "Coupon is already in the featured list")))
                (head?
                  (P.find_many w.featured_coupons (λ r. r.store_id == store && r.coupon_id == id))),
            w,
          )
          λ w.
              (let (n, t) =
                  P.create w.featured_coupons (record { coupon_id = id; store_id = store }) in
                (ok n, record w { featured_coupons = t })))
        (rethrow_bad (codes "Failed to add featured coupon"))

  -- `getFeaturedCoupons` and `findActiveByStore`, up to their order.
  unfoldable pub get_featured_coupons : ℕ → World P → List (ℕ × FeaturedCoupon)
  get_featured_coupons store w = P.find_many w.featured_coupons λ r.
      r.store_id == store
      && on_option false (λ (c : Coupon). on_option true (λ t. false) c.deleted_at)
          (P.find_unique w.coupons r.coupon_id)

  unfoldable pub find_active_by_store : ℕ → ℕ → World P → List (ℕ × Coupon)
  find_active_by_store now store w = P.find_many w.coupons λ c.
      c.store_id == store
      && (c.is_active
          && (on_option true (λ t. false) c.deleted_at
              && on_option true (λ t. ltb now t) c.expires_at))

-- The calls that write coupons.
pub data CouponCall : Type 0 where
  create_call : CreateCouponDto → ℕ → CouponCall
  update_call : ℕ → UpdateCouponDto → CouponCall
  remove_call : ℕ → ℕ → CouponCall

-- The state after a call, whether it returned or threw.
unfoldable pub perform : (P : Prisma) → CouponCall → World P → World P
perform P (create_call dto store) w = (create P dto store w).1
perform P (update_call id dto) w = (update P id dto w).1
perform P (remove_call now id) w = (remove P now id w).1
