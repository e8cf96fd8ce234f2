-- ===== src/Prisma/Memory.antt =====
-- Tables in memory: the id of a row is its position, and a deleted row leaves its place empty. This
-- client shows that the laws of `Prisma` can be met; the examples run on it.
use recharge_plataform_api.Prelude.{
  ℕ, zero, suc, ◌+◌, ◌≡◌, refl, inl, inr, Bool, true, Option, none, some, List, [], ◌∷◌, arith,
  ◌==◌, if◌then◌else◌, length, map_option, HasRow, Distinct, keep_option, not, Bool-cases, ap, sym,
  subst,
}
use recharge_plataform_api.Prelude.Text.{codes}
use recharge_plataform_api.Prisma.Client.{Prisma, p2002, p2025, PrismaCode}

abbrev pub Rows : Type 0 → Type 0
Rows R = List (Option R)

shift : (k j : ℕ) → suc k + j ≡ k + suc j
shift k j = omega arith

from_zero : (i : ℕ) → 0 + i ≡ i
from_zero i = omega arith

module _ {R : Type 0} where
  abbrev pub row : Rows R → ℕ → Option R
  row [] i = none
  row (r ∷ rs) zero = r
  row (r ∷ rs) (suc i) = row rs i

  -- The rows that pass the test, the first of them at position `k`.
  abbrev pub select : ℕ → Rows R → (R → Bool) → List (ℕ × R)
  select k [] p = []
  select k (none ∷ rs) p = select (suc k) rs p
  select k (some r ∷ rs) p = let rest = select (suc k) rs p in if p r then (k, r) ∷ rest else rest

  abbrev pub modify : Rows R → ℕ → (R → R) → Rows R
  modify [] i f = []
  modify (r ∷ rs) zero f = map_option f r ∷ rs
  modify (r ∷ rs) (suc i) f = r ∷ modify rs i f

  abbrev pub modify_many : Rows R → (ℕ → R → Bool) → (R → R) → Rows R
  modify_many [] p f = []
  modify_many (r ∷ rs) p f =
      map_option (λ s. if p 0 s then f s else s) r ∷ modify_many rs (λ i. p (suc i)) f

  abbrev pub drop_rows : Rows R → (R → Bool) → Rows R
  drop_rows [] p = []
  drop_rows (r ∷ rs) p = keep_option (λ s. not (p s)) r ∷ drop_rows rs p

  abbrev pub append_row : Rows R → R → Rows R
  append_row [] r = some r ∷ []
  append_row (s ∷ rs) r = s ∷ append_row rs r

  pub row-modify :
      (t : Rows R) (i : ℕ) (f : R → R) (j : ℕ)
      → row (modify t i f) j ≡ (if i == j then map_option f (row t j) else row t j)
  row-modify [] i f j = ground arith
  row-modify (r ∷ t) zero f zero = refl
  row-modify (r ∷ t) zero f (suc j) = ground arith
  row-modify (r ∷ t) (suc i) f zero = ground arith
  row-modify (r ∷ t) (suc i) f (suc j) = ground (arith, row-modify t i f j)

  pub row-modify_many :
      (t : Rows R) (p : ℕ → R → Bool) (f : R → R) (j : ℕ)
      → row (modify_many t p f) j ≡ map_option (λ r. if p j r then f r else r) (row t j)
  row-modify_many [] p f j = refl
  row-modify_many (r ∷ t) p f zero = refl
  row-modify_many (r ∷ t) p f (suc j) = row-modify_many t (λ i. p (suc i)) f j

  pub row-drop_rows :
      (t : Rows R) (p : R → Bool) (j : ℕ)
      → row (drop_rows t p) j ≡ keep_option (λ r. not (p r)) (row t j)
  row-drop_rows [] p j = refl
  row-drop_rows (r ∷ t) p zero = refl
  row-drop_rows (r ∷ t) p (suc j) = row-drop_rows t p j

  pub row-length : (t : Rows R) → row t (length t) ≡ none
  row-length [] = refl
  row-length (r ∷ t) = row-length t

  pub row-append_row :
      (t : Rows R) (r : R) (j : ℕ)
      → row (append_row t r) j ≡ (if length t == j then some r else row t j)
  row-append_row [] r zero = refl
  row-append_row [] r (suc j) = ground arith
  row-append_row (s ∷ t) r zero = ground arith
  row-append_row (s ∷ t) r (suc j) = ground (arith, row-append_row t r j)

  -- The head of a selection is the row at `k`; the others come from the tail.
  select_sound_head :
      (k : ℕ) (s : R) (t : Rows R) (p : R → Bool) (i : ℕ) (r : R)
      → p s ≡ true
      → (HasRow i r (select (suc k) t p)
          → (j : ℕ) × (i ≡ suc k + j) × (row t j ≡ some r) × (p r ≡ true))
      → HasRow i r ((k, s) ∷ select (suc k) t p)
      → (j : ℕ) × (i ≡ k + j) × (row (some s ∷ t) j ≡ some r) × (p r ≡ true)
  select_sound_head k s t p i r passed rest (inl (e, same)) =
      (0, omega arith, ap some (sym same), rw same passed)
  select_sound_head k s t p i r passed rest (inr h) =
      let (j, e, found, ok) = rest h in (suc j, omega arith, found, ok)

  select_sound :
      (k : ℕ) (t : Rows R) (p : R → Bool) (i : ℕ) (r : R)
      → HasRow i r (select k t p)
      → (j : ℕ) × (i ≡ k + j) × (row t j ≡ some r) × (p r ≡ true)
  select_sound k [] p i r h = absurd h
  select_sound k (none ∷ t) p i r h =
      let (j, e, found, passed) = select_sound (suc k) t p i r h in
      (suc j, omega arith, found, passed)
  select_sound k (some s ∷ t) p i r h = elim (Bool-cases (p s)) [
    | inl passed ↦
        select_sound_head k s t p i r passed (select_sound (suc k) t p i r) (rw passed at h)
    | inr failed ↦
        let (j, e, found, passed) = select_sound (suc k) t p i r (rw failed at h) in
        (suc j, omega arith, found, passed)
  ]

  select_complete :
      (k : ℕ) (t : Rows R) (p : R → Bool) (j : ℕ) (r : R)
      → row t j ≡ some r
      → p r ≡ true
      → HasRow (k + j) r (select k t p)
  select_complete k [] p j r e q = absurd (cc)
  select_complete k (none ∷ t) p zero r e q = absurd (cc)
  select_complete k (some s ∷ t) p zero r e q =
      let same : s ≡ r = cc e in
      let passed : p s ≡ true = rw same q in rw passed (inl (omega arith, sym same))
  select_complete k (none ∷ t) p (suc j) r e q =
      subst (λ n. HasRow n r (select (suc k) t p)) (shift k j) (select_complete (suc k) t p j r e q)
  select_complete k (some s ∷ t) p (suc j) r e q =
      let found : HasRow (k + suc j) r (select (suc k) t p) =
        subst (λ n. HasRow n r (select (suc k) t p)) (shift k j)
          (select_complete (suc k) t p j r e q) in
      elim (Bool-cases (p s)) [ inl passed ↦ rw passed (inr found) | inr failed ↦ rw failed found ]

  pub select_zero_sound :
      (t : Rows R) (p : R → Bool) (i : ℕ) (r : R)
      → HasRow i r (select 0 t p)
      → (row t i ≡ some r) × (p r ≡ true)
  select_zero_sound t p i r h =
      let (j, e, found, passed) = select_sound 0 t p i r h in
      let same : i ≡ j = omega (arith, e) in (rw same found, passed)

  pub select-Distinct : (k : ℕ) (t : Rows R) (p : R → Bool) → Distinct (select k t p)
  select-Distinct k [] p = tt
  select-Distinct k (none ∷ t) p = select-Distinct (suc k) t p
  select-Distinct k (some s ∷ t) p = elim (Bool-cases (p s)) [
    | inl passed ↦ rw passed (
      λ r h. (let (j, e, rest, ok) = select_sound (suc k) t p k r h in absurd (omega (arith, e))),
      select-Distinct (suc k) t p,
    )
    | inr failed ↦ rw failed (select-Distinct (suc k) t p)
  ]

  pub select_zero_complete :
      (t : Rows R) (p : R → Bool) (i : ℕ) (r : R)
      → row t i ≡ some r
      → p r ≡ true
      → HasRow i r (select 0 t p)
  select_zero_complete t p i r e q =
      subst (λ n. HasRow n r (select 0 t p)) (from_zero i) (select_complete 0 t p i r e q)

abbrev message : PrismaCode → List ℕ
message p2002 = codes "Unique constraint failed"
message p2025 =
    codes "An operation failed because it depends on one or more records that were not found"

abbrev pub memory : Prisma
memory = record {
  Table = Rows;
  find_unique = row;
  find_many = select 0;
  update = modify;
  update_many = modify_many;
  create = λ t r. (length t, append_row t r);
  delete_many = drop_rows;
  error_message = message;
  find-update = row-modify;
  find-update_many = row-modify_many;
  create_fresh = λ t r. row-length t;
  find-create = row-append_row;
  find-delete_many = row-drop_rows;
  find_many_sound = select_zero_sound;
  find_many_complete = select_zero_complete;
  find_many_distinct = select-Distinct 0;
}
