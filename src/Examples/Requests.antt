-- ===== src/Examples/Requests.antt =====
-- Examples of a whole call of `create` of `order.service.ts`.
use recharge_plataform_api.Prelude.{◌≡◌, ◌+◌, refl, none, some, [], ◌∷◌}
use recharge_plataform_api.Prelude.Text.{codes}
use recharge_plataform_api.Prisma.Memory.{memory}
use recharge_plataform_api.Utils.Email.{lower, is_space}
use recharge_plataform_api.Database.{World, ok, err, js_error}
use recharge_plataform_api.Bigo.Request.{make_signed_request}
use recharge_plataform_api.Bigo.Service.{recharge_precheck}
use recharge_plataform_api.Order.Number.{unique_order_number, number_loop}
use recharge_plataform_api.Order.Recent.{recent_order}
use recharge_plataform_api.Order.Request.{
  Surroundings, CreateOrderDto, create, create_checked, precheck, final_price, get_bravive_token,
  pay_by_pix, place_order, place_and_read, payment_failed,
}
use recharge_plataform_api.Order.Request.Placed.{IsPlaced, create-IsPlaced}
use recharge_plataform_api.Order.Create.{create_rows}
use recharge_plataform_api.Order.Request.Laws.{create_refused, rows_of}
use recharge_plataform_api.Examples.Data.{answering, money}
use recharge_plataform_api.Examples.Create.{prices}
use recharge_plataform_api.Examples.Auth.{ana, club}

-- Bigo answers, Bravive does not.
abbrev around : Surroundings
around = record {
  now = 5000;
  seqid = codes "s9";
  bigo = answering;
  generate_order_number = λ n. codes "20240109";
  decrypt = λ t. none;
  create_payment = λ dto token. err (js_error (codes "timeout"));
  money = money;
  prices = prices;
  number_text = λ n. (n + 48) ∷ [];
}

-- A store that takes payments by PIX for one package.
abbrev opened : World memory
opened = record club {
  users = some (record ana { store_id = 0 }) ∷ [];
  stores =
      some (record {
        name = codes "S";
        email = none;
        domain = codes "s.com";
        bravive_api_token = some (codes "key");
      })
      ∷ [];
  packages =
      some (record {
        name = codes "60 diamonds";
        amount_credits = 60;
        img_card_url = codes "img";
        product_id = 5;
        store_id = 0;
      })
      ∷ [];
  payment_methods = some (record { name = codes "PIX"; price = 900; package_id = 0 }) ∷ [];
}

abbrev request : CreateOrderDto
request = record {
  package_id = 0;
  payment_method_id = 0;
  user_id_for_recharge = codes "u9";
  coupon_title = none;
  price = 900;
}

-- The call gets as far as Bravive, and the check of the recharge stays in the log.
abbrev after : World memory
after = (create memory around request 0 0 opened).1

failed : create memory around request 0 0 opened ≡ (err (payment_failed (codes "timeout")), after)
unfolding create create_checked precheck final_price get_bravive_token pay_by_pix place_order
    place_and_read recharge_precheck make_signed_request unique_order_number number_loop
    recent_order lower is_space
failed = refl

create_refused_example : rows_of memory around after ≡ rows_of memory around opened
create_refused_example =
    create_refused memory around request 0 0 opened after (payment_failed (codes "timeout")) failed

-- Bravive answers too.
abbrev answered : Surroundings
answered = record around {
  create_payment = λ dto token. ok (record {
    id = some (codes "b9");
    pix_qr_code = some (codes "qr");
    pix_code = some (codes "t");
  });
}

abbrev placed : World memory
placed = (create memory answered request 0 0 opened).1

order_id : create memory answered request 0 0 opened ≡ (ok 1, placed)
unfolding create create_checked precheck final_price get_bravive_token pay_by_pix place_order
    place_and_read create_rows recharge_precheck make_signed_request unique_order_number number_loop
    recent_order lower is_space
order_id = refl

create-IsPlaced_example : IsPlaced memory answered request 0 0 opened 1 placed
create-IsPlaced_example = create-IsPlaced memory answered request 0 0 1 opened placed order_id
