-- ===== src/Prisma/Client.antt =====
-- The interface of the database client: tables, calls and their laws.
use recharge_plataform_api.Prelude.{
  ℕ, ◌≡◌, Bool, true, Option, none, some, List, ◌==◌, if◌then◌else◌, map_option, HasRow, Distinct,
  keep_option, not,
}
use recharge_plataform_api.Prelude.Text.{Text}

-- `PrismaClientKnownRequestError.code`: a unique constraint failed, a record to change is missing.
pub data PrismaCode : Type 0 where
  p2002 p2025 : PrismaCode

pub record Prisma : Type 1 where
  pub Table : Type 0 → Type 0
  -- `findUnique({ where: { id } })`
  pub find_unique : {R : Type 0} → Table R → ℕ → Option R
  -- `findMany({ where })`, each row with its id; `findFirst` is the head of it
  pub find_many : {R : Type 0} → Table R → (R → Bool) → List (ℕ × R)
  -- `update({ where: { id }, data })` on a row that is there
  pub update : {R : Type 0} → Table R → ℕ → (R → R) → Table R
  -- `updateMany({ where, data })`, with a test on the id and the row
  pub update_many : {R : Type 0} → Table R → (ℕ → R → Bool) → (R → R) → Table R
  -- `create({ data })`: the new id and the new table
  pub create : {R : Type 0} → Table R → R → ℕ × Table R
  -- `deleteMany({ where })`
  pub delete_many : {R : Type 0} → Table R → (R → Bool) → Table R
  pub error_message : PrismaCode → Text
  pub find-update :
      {R : Type 0} (t : Table R) (i : ℕ) (f : R → R) (j : ℕ)
      → find_unique (update t i f) j
        ≡ (if i == j then map_option f (find_unique t j) else find_unique t j)
  pub find-update_many :
      {R : Type 0} (t : Table R) (p : ℕ → R → Bool) (f : R → R) (j : ℕ)
      → find_unique (update_many t p f) j
        ≡ map_option (λ r. if p j r then f r else r) (find_unique t j)
  pub create_fresh : {R : Type 0} (t : Table R) (r : R) → find_unique t (create t r).0 ≡ none
  pub find-create :
      {R : Type 0} (t : Table R) (r : R) (j : ℕ)
      → find_unique (create t r).1 j ≡ (if (create t r).0 == j then some r else find_unique t j)
  -- `findMany` returns exactly the rows that pass the test.
  pub find_many_sound :
      {R : Type 0} (t : Table R) (p : R → Bool) (i : ℕ) (r : R)
      → HasRow i r (find_many t p)
      → (find_unique t i ≡ some r) × (p r ≡ true)
  pub find_many_complete :
      {R : Type 0} (t : Table R) (p : R → Bool) (i : ℕ) (r : R)
      → find_unique t i ≡ some r
      → p r ≡ true
      → HasRow i r (find_many t p)
  -- It returns no row twice.
  pub find_many_distinct : {R : Type 0} (t : Table R) (p : R → Bool) → Distinct (find_many t p)
  pub find-delete_many :
      {R : Type 0} (t : Table R) (p : R → Bool) (j : ℕ)
      → find_unique (delete_many t p) j ≡ keep_option (λ r. not (p r)) (find_unique t j)
