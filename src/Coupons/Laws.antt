-- ===== src/Coupons/Laws.antt =====
-- Titles stay unique among the coupons of a store that are not deleted.
use recharge_plataform_api.Prelude.{
  ℕ, ◌≡◌, refl, inl, inr, sym, ap, ◌∙◌, arith, Bool, true, false, not, Option, none, some, List, [],
  ◌∷◌, head?, keep, HasRow, ◌==◌, Option-cases, Bool-cases, ==_self,
}
use recharge_plataform_api.Prelude.Text.{Text, text_eq_self}
use recharge_plataform_api.Prisma.{Prisma}
use recharge_plataform_api.Schema.{Coupon}
use recharge_plataform_api.Database.{World, Result, ok, err, Error, on_option, update_coupon}
use recharge_plataform_api.Database.Laws.{head-none, row_after, row_created}
use recharge_plataform_api.Database.Ends.{
  Ends, Ends-bind, Ends-then, Ends-try, reads, throw_if-reads,
}
use recharge_plataform_api.Database.Frame.{Keeps, Keeps-then}
use recharge_plataform_api.Order.Coupon.{is_coupon}
use recharge_plataform_api.Coupons.{
  CreateCouponDto, UpdateCouponDto, new_coupon, changed_coupon, as_deleted, check_title,
  check_discount, check_optional_title, check_optional_influencer, validate_optional_title,
  insert_coupon, title_taken, find_one, or_old, update_found, create, update, remove, CouponCall,
  create_call, update_call, remove_call, perform,
}

none_found :
    {A : Type 0} (x : Error) (o : Option A)
    → ◌≡◌ {A = Result (Unit {0})} (on_option (ok tt) (λ _. err x) o) (ok tt)
    → o ≡ none
none_found x none h = refl
none_found x (some a) h = cc h

one_live :
    (e : Error) (o : Option Coupon) (c : Coupon)
    → on_option (err e) (λ (d : Coupon). on_option (ok d) (λ t. err e) d.deleted_at) o ≡ ok c
    → (o ≡ some c) × (c.deleted_at ≡ none)
one_live e none c h = cc h
one_live e (some d) c h = elim (Option-cases d.deleted_at) [
  | inr (t, gone) ↦ cc (rw gone at h)
  | inl live ↦
      let same : d ≡ c = cc (rw live at h) in
      (ap some same, ap (λ x. x.deleted_at) (sym same) ∙ live)
]

keep-none :
    {R : Type 0} (p : ℕ × R → Bool) (rows : List (ℕ × R)) (j : ℕ) (r : R)
    → head? (keep p rows) ≡ none
    → HasRow j r rows
    → p (j, r) ≡ false
keep-none p [] j r h m = absurd m
keep-none p ((i, s) ∷ rows) j r h m = elim (Bool-cases (p (i, s))) [
  | inl kept ↦ cc (rw kept at h)
  | inr dropped ↦ dropped_or_later dropped (keep-none p rows j r (rw dropped at h)) m
]
  where
    dropped_or_later :
        p (i, s) ≡ false
        → (HasRow j r rows → p (j, r) ≡ false)
        → HasRow j r ((i, s) ∷ rows)
        → p (j, r) ≡ false
    dropped_or_later dropped later (inl (here, same)) = rw (here, same) dropped
    dropped_or_later dropped later (inr m') = later m'

not_other : (j id : ℕ) → not (j == id) ≡ false → j ≡ id
not_other j id h = ground arith

module _ (P : Prisma) where
  -- No two live coupons of a store share a title.
  abbrev pub TitlesUnique : World P → Type 0
  TitlesUnique w =
      (i j : ℕ) (c d : Coupon)
      → P.find_unique w.coupons i ≡ some c
      → P.find_unique w.coupons j ≡ some d
      → c.deleted_at ≡ none
      → d.deleted_at ≡ none
      → c.title ≡ d.title
      → c.store_id ≡ d.store_id
      → i ≡ j

  is_coupon_of :
      (d : Coupon) (title : Text) (store : ℕ)
      → d.deleted_at ≡ none
      → d.title ≡ title
      → d.store_id ≡ store
      → is_coupon P title store d ≡ true
  is_coupon_of d title store live same here =
      rw (← same, text_eq_self d.title, ← here, live, ==_self) refl

  check_discount_reads : (dto : CreateCouponDto) → Keeps (λ v. v) (check_discount P dto)
  check_discount_reads dto = search (Keeps-then, throw_if-reads)

  insert_titles :
      (dto : CreateCouponDto) (store : ℕ) (w : World P)
      → head? (P.find_many w.coupons (is_coupon P dto.title store)) ≡ none
      → TitlesUnique w
      → Ends TitlesUnique w (insert_coupon P (new_coupon dto store))
  insert_titles dto store w free unique = record { ended = all_rows }
    where
      new : Coupon
      new = new_coupon dto store

      old_differs :
          (j : ℕ) (d : Coupon)
          → P.find_unique w.coupons j ≡ some d
          → d.deleted_at ≡ none
          → d.title ≡ dto.title
          → d.store_id ≡ store
          → ⊥
      old_differs j d at live title here =
          head-none P w.coupons (is_coupon P dto.title store) j d free at
            (is_coupon_of d dto.title store live title here)

      all_rows : TitlesUnique (record w { coupons = (P.create w.coupons new).1 })
      all_rows i j c d at_i at_j live_c live_d title here =
          elim (row_created P w.coupons new i c at_i) [
            | inl (new_i, ec) ↦ elim (row_created P w.coupons new j d at_j) [
              | inl (new_j, ed) ↦ new_i ∙ sym new_j
              | inr old_j ↦ absurd (
                  old_differs j d old_j live_d (sym title ∙ ap (λ x. x.title) ec)
                    (sym here ∙ ap (λ x. x.store_id) ec))
            ]
            | inr old_i ↦ elim (row_created P w.coupons new j d at_j) [
              | inl (new_j, ed) ↦ absurd (
                  old_differs i c old_i live_c (title ∙ ap (λ x. x.title) ed)
                    (here ∙ ap (λ x. x.store_id) ed))
              | inr old_j ↦ unique i j c d old_i old_j live_c live_d title here
            ]
          ]

  insert_after :
      (dto : CreateCouponDto) (store : ℕ) (w : World P) {a : Unit {0}}
      → (check_title P dto.title store w).0 ≡ ok a
      → TitlesUnique w
      → Ends TitlesUnique w (insert_coupon P (new_coupon dto store))
  insert_after dto store w free unique =
      insert_titles dto store w (none_found title_taken _ free) unique

  create_titles :
      (dto : CreateCouponDto) (store : ℕ) (w : World P)
      → TitlesUnique w
      → Ends TitlesUnique w (create P dto store)
  unfolding create
  create_titles dto store w unique =
      search (Ends-try, Ends-then, reads, throw_if-reads, check_discount_reads, insert_after) depth
        20

  -- A live coupon with the title and the store that an updated coupon gets is that coupon.
  same_title :
      (id : ℕ) (c : Coupon) (w : World P) (o : Option Text) {a : Unit {0}} (j : ℕ) (d : Coupon)
      → P.find_unique w.coupons id ≡ some c
      → c.deleted_at ≡ none
      → (check_optional_title P o c.store_id id w).0 ≡ ok a
      → TitlesUnique w
      → P.find_unique w.coupons j ≡ some d
      → d.deleted_at ≡ none
      → d.title ≡ or_old o c.title
      → d.store_id ≡ c.store_id
      → j ≡ id
  same_title id c w none j d there live checked unique at live_d title here =
      unique j id d c at there live_d live title here
  same_title id c w (some t) j d there live checked unique at live_d title here = not_other j id (
      keep-none (λ (e : ℕ × Coupon). not (e.0 == id))
        (P.find_many w.coupons (is_coupon P t c.store_id)) j d (none_found title_taken _ checked)
        (P.find_many_complete w.coupons (is_coupon P t c.store_id) j d at
          (is_coupon_of d t c.store_id live_d title here)))

  update_titles :
      (id : ℕ) (f : Coupon → Coupon) (c : Coupon) (w : World P)
      → P.find_unique w.coupons id ≡ some c
      → (f c).store_id ≡ c.store_id
      → ((j : ℕ) (d : Coupon)
          → P.find_unique w.coupons j ≡ some d
          → d.deleted_at ≡ none
          → (f c).deleted_at ≡ none
          → d.title ≡ (f c).title
          → d.store_id ≡ c.store_id
          → j ≡ id)
      → TitlesUnique w
      → TitlesUnique (record w { coupons = P.update w.coupons id f })
  update_titles id f c w there stays only unique i j a b at_i at_j live_a live_b title here =
      elim (row_after P w.coupons id f i a at_i) [
        | inl (here_i, (r, there_r, ea)) ↦ elim (row_after P w.coupons id f j b at_j) [
          | inl (here_j, other) ↦ here_i ∙ sym here_j
          | inr old_j ↦
              let e : a ≡ f c = cc there_r in
              here_i
              ∙ sym (
                  only j b old_j live_b (sym (ap (λ x. x.deleted_at) e) ∙ live_a)
                    (sym title ∙ ap (λ x. x.title) e) (sym here ∙ ap (λ x. x.store_id) e ∙ stays))
        ]
        | inr old_i ↦ elim (row_after P w.coupons id f j b at_j) [
          | inl (here_j, (r, there_r, eb)) ↦
              let e : b ≡ f c = cc there_r in
              only i a old_i live_a (sym (ap (λ x. x.deleted_at) e) ∙ live_b)
                (title ∙ ap (λ x. x.title) e) (here ∙ ap (λ x. x.store_id) e ∙ stays)
              ∙ sym here_j
          | inr old_j ↦ unique i j a b old_i old_j live_a live_b title here
        ]
      ]

  update_after :
      (id : ℕ) (dto : UpdateCouponDto) (c : Coupon) (w : World P) {a : Unit {0}}
      → (find_one P id w).0 ≡ ok c
      → (check_optional_title P dto.title c.store_id id w).0 ≡ ok a
      → TitlesUnique w
      → Ends TitlesUnique w (update_coupon P id (changed_coupon dto))
  update_after id dto c w found checked unique =
      let (there, live) = one_live _ (P.find_unique w.coupons id) c found in
      record {
        ended = rw there (
            update_titles id (changed_coupon dto) c w there refl
              (λ j d at live_d live' title here.
                same_title id c w dto.title j d there live checked unique at live_d title here)
              unique);
      }

  remove_after :
      (now id : ℕ) (c : Coupon) (w : World P)
      → (find_one P id w).0 ≡ ok c
      → TitlesUnique w
      → Ends TitlesUnique w (update_coupon P id (as_deleted now))
  remove_after now id c w found unique =
      let (there, live) = one_live _ (P.find_unique w.coupons id) c found in
      record {
        ended = rw there (
            update_titles id (as_deleted now) c w there refl
              (λ j d at live_d live' title here. cc live') unique);
      }

  optional_title :
      (o : Option Text) (store id : ℕ) → Keeps (λ v. v) (check_optional_title P o store id)
  optional_title none store id = record { kept = λ w. refl }
  optional_title (some t) store id = record { kept = λ w. refl }

  optional_influencer :
      (o : Option ℕ) (store : ℕ) → Keeps (λ v. v) (check_optional_influencer P o store)
  optional_influencer none store = record { kept = λ w. refl }
  optional_influencer (some i) store = record { kept = λ w. refl }

  valid_title : (o : Option Text) → Keeps (λ v. v) (validate_optional_title P o)
  valid_title none = record { kept = λ w. refl }
  valid_title (some t) = throw_if-reads _ _

  found-Ends :
      (id : ℕ) (dto : UpdateCouponDto) (c : Coupon) (w : World P)
      → (find_one P id w).0 ≡ ok c
      → TitlesUnique w
      → Ends TitlesUnique w (update_found P id dto c)
  unfolding update_found
  found-Ends id dto c w found unique =
      let written : (a : Unit {0})
          → (check_optional_title P dto.title c.store_id id w).0 ≡ ok a
          → Ends TitlesUnique w (update_coupon P id (changed_coupon dto)) =
        λ a checked. update_after id dto c w found checked unique in
      search (Ends-then, throw_if-reads, optional_title, optional_influencer, valid_title, written)
        depth 20

  update-Ends :
      (id : ℕ) (dto : UpdateCouponDto) (w : World P)
      → TitlesUnique w
      → Ends TitlesUnique w (update P id dto)
  unfolding update
  update-Ends id dto w unique = search (Ends-try, Ends-bind, reads, found-Ends) depth 12

  remove-Ends : (now id : ℕ) (w : World P) → TitlesUnique w → Ends TitlesUnique w (remove P now id)
  unfolding remove
  remove-Ends now id w unique = search (Ends-try, Ends-bind, reads, remove_after) depth 12

  -- Whatever the coupons service is called with to create, change or remove a coupon, and whether the
  -- call returns or throws, the titles of the coupons of a store that are not deleted stay unique.
  pub perform-TitlesUnique :
      (call : CouponCall) (w : World P) → TitlesUnique w → TitlesUnique (perform P call w)
  unfolding perform
  perform-TitlesUnique (create_call dto store) w unique = (create_titles dto store w unique).ended
  perform-TitlesUnique (update_call id dto) w unique = (update-Ends id dto w unique).ended
  perform-TitlesUnique (remove_call now id) w unique = (remove-Ends now id w unique).ended
