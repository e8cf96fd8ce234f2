-- ===== src/Examples/Coupons.antt =====
-- Examples of the administration of coupons.
use recharge_plataform_api.Prelude.{arith, none, some}
use recharge_plataform_api.Prelude.Text.{codes}
use recharge_plataform_api.Prisma.Memory.{memory}
use recharge_plataform_api.Coupons.{UpdateCouponDto, undefined, null, value, perform, update_call}
use recharge_plataform_api.Coupons.Laws.{TitlesUnique, perform-TitlesUnique}
use recharge_plataform_api.Examples.Data.{shop, coupon, only_row}

-- From ten percent to a fixed amount, under a new title.
abbrev dto : UpdateCouponDto
dto = record {
  title = some (codes "FIVE");
  influencer_id = none;
  discount_percentage = undefined;
  discount_amount = value 500;
  expires_at = none;
  max_uses = null;
  min_order_amount = value 500;
  is_active = none;
  is_first_purchase = none;
  is_one_time_per_bigo_id = none;
}

shop_titles : TitlesUnique memory shop
shop_titles i j c d at_i at_j live_c live_d title here =
    ground (arith, only_row coupon i c at_i, only_row coupon j d at_j)

perform-TitlesUnique_example : TitlesUnique memory (perform memory (update_call 0 dto) shop)
perform-TitlesUnique_example = perform-TitlesUnique memory (update_call 0 dto) shop shop_titles
