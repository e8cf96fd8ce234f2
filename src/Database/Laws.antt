-- ===== src/Database/Laws.antt =====
-- Reading a row after a call that changed a table.
use recharge_plataform_api.Prelude.{
  ℕ, Option, inr, Bool-cases, Option-cases, ◌⊎◌, sym, ==→eq, ◌≡◌, ◌≢◌, ◌∙◌, none, some, refl, inl,
  Bool, true, List, [], ◌∷◌, head?, HasRow, arith, ◌==◌, ap, map_option, ==_self, ==_ne,
}
use recharge_plataform_api.Prisma.{Prisma}

module _ (P : Prisma) {R : Type 0} where
  pub find-update_self :
      (t : P.Table R) (id : ℕ) (f : R → R) {r : R}
      → P.find_unique t id ≡ some r
      → P.find_unique (P.update t id f) id ≡ some (f r)
  find-update_self t id f found = P.find-update t id f id ∙ rw ==_self (ap (map_option f) found)

  pub find-update_ne :
      (t : P.Table R) (id : ℕ) (f : R → R) (j : ℕ)
      → id ≢ j
      → P.find_unique (P.update t id f) j ≡ P.find_unique t j
  find-update_ne t id f j ne = P.find-update t id f j ∙ rw (==_ne id j ne)

  pub find-create_self :
      (t : P.Table R) (r : R) → P.find_unique (P.create t r).1 (P.create t r).0 ≡ some r
  find-create_self t r = P.find-create t r (P.create t r).0 ∙ rw ==_self

  -- A new row takes no place of an old one.
  pub find-create_old :
      (t : P.Table R) (r : R) (j : ℕ) {old : R}
      → P.find_unique t j ≡ some old
      → P.find_unique (P.create t r).1 j ≡ some old
  find-create_old t r j found = ground (arith, P.find-create t r j, P.create_fresh t r)

  -- `findFirst` on a test that one row passes finds that row.
  pub head-find_many :
      (t : P.Table R) (test : R → Bool) (id : ℕ) (r : R)
      → P.find_unique t id ≡ some r
      → test r ≡ true
      → ((j : ℕ) (s : R) → P.find_unique t j ≡ some s → test s ≡ true → j ≡ id)
      → head? (P.find_many t test) ≡ some (id, r)
  head-find_many t test id r found passed unique =
      go (P.find_many t test) (P.find_many_complete t test id r found passed)
        (P.find_many_sound t test)
    where
      same_row :
          (j : ℕ) (s : R) → P.find_unique t j ≡ some s → j ≡ id → ◌≡◌ {A = ℕ × R} (j, s) (id, r)
      same_row j s there e = cc

      go :
          (rows : List (ℕ × R))
          → HasRow id r rows
          → ((i : ℕ) (s : R) → HasRow i s rows → (P.find_unique t i ≡ some s) × (test s ≡ true))
          → head? rows ≡ some (id, r)
      go [] h sound = absurd h
      go ((j, s) ∷ rows) h sound =
          let (there, ok) = sound j s (inl (refl, refl)) in
          ap some (same_row j s there (unique j s there ok))

  -- `findFirst` on a test that no row passes finds nothing.
  pub head-find_many_none :
      (t : P.Table R) (test : R → Bool)
      → ((j : ℕ) (s : R) → P.find_unique t j ≡ some s → test s ≡ true → ⊥)
      → head? (P.find_many t test) ≡ none
  head-find_many_none t test no_row = go (P.find_many t test) (P.find_many_sound t test)
    where
      go :
          (rows : List (ℕ × R))
          → ((i : ℕ) (s : R) → HasRow i s rows → (P.find_unique t i ≡ some s) × (test s ≡ true))
          → head? rows ≡ none
      go [] sound = refl
      go ((j, s) ∷ rows) sound =
          let (there, ok) = sound j s (inl (refl, refl)) in absurd (no_row j s there ok)

  -- A change of a row and its inverse leave every row as it was.
  pub update_back :
      (t : P.Table R) (id : ℕ) (f g : R → R) (j : ℕ)
      → ((r : R) → g (f r) ≡ r)
      → P.find_unique (P.update (P.update t id f) id g) j ≡ P.find_unique t j
  update_back t id f g j back = elim (Bool-cases (id == j)) [
    | inl here ↦ rw (P.find-update, here, P.find-update, here) (map_back (P.find_unique t j))
    | inr other ↦ rw (P.find-update, other, P.find-update, other)
  ]
    where
      map_back : (o : Option R) → map_option g (map_option f o) ≡ o
      map_back none = refl
      map_back (some r) = ap some (back r)

  -- `findFirst` finds a row that is there and passes.
  pub head-found :
      (t : P.Table R) (test : R → Bool) (e : ℕ × R)
      → head? (P.find_many t test) ≡ some e
      → (P.find_unique t e.0 ≡ some e.1) × (test e.1 ≡ true)
  head-found t test e h = P.find_many_sound t test e.0 e.1 (is_row (P.find_many t test) e h)
    where
      is_row : (rows : List (ℕ × R)) (e : ℕ × R) → head? rows ≡ some e → HasRow e.0 e.1 rows
      is_row [] e h = cc h
      is_row (d ∷ rows) e h =
          let same : e ≡ d = cc h in inl (ap (λ x. x.0) same, ap (λ x. x.1) same)

  -- Where `findFirst` finds nothing, no row passes the test.
  pub head-none :
      (t : P.Table R) (test : R → Bool) (j : ℕ) (s : R)
      → head? (P.find_many t test) ≡ none
      → P.find_unique t j ≡ some s
      → test s ≡ true
      → ⊥
  head-none t test j s nothing there passed =
      no_head (P.find_many t test) nothing (P.find_many_complete t test j s there passed)
    where
      no_head : (rows : List (ℕ × R)) → head? rows ≡ none → HasRow j s rows → ⊥
      no_head [] h m = m
      no_head (d ∷ rows) h m = cc h

  -- A row of a table after `update`: the changed one, or one that was there.
  pub row_after :
      (t : P.Table R) (id : ℕ) (f : R → R) (j : ℕ) (s : R)
      → P.find_unique (P.update t id f) j ≡ some s
      → ((j ≡ id) × ((r : R) × (P.find_unique t id ≡ some r) × (s ≡ f r)))
        ⊎ (P.find_unique t j ≡ some s)
  row_after t id f j s h = elim (Bool-cases (id == j)) [
    | inr other ↦ inr (ground (arith, P.find-update t id f j))
    | inl here ↦
        let same : j ≡ id = sym (==→eq id j here) in
        elim (Option-cases (P.find_unique t j)) [
          | inl gone ↦ inr (ground (arith, P.find-update t id f j))
          | inr (r, there) ↦
              inl (same, (r, rw (← same) there, ground (arith, P.find-update t id f j)))
        ]
  ]

  -- A row of a table after `create`: the new one, or one that was there.
  pub row_created :
      (t : P.Table R) (new : R) (j : ℕ) (s : R)
      → P.find_unique (P.create t new).1 j ≡ some s
      → ((j ≡ (P.create t new).0) × (s ≡ new)) ⊎ (P.find_unique t j ≡ some s)
  row_created t new j s h = elim (Bool-cases ((P.create t new).0 == j)) [
    | inl here ↦ inl (sym (==→eq (P.create t new).0 j here), ground (arith, P.find-create t new j))
    | inr other ↦ inr (ground (arith, P.find-create t new j))
  ]
