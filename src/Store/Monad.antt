-- ===== src/Store/Monad.antt =====
-- A service method: it reads and writes the database and returns or throws. What was written
-- before a throw stays written, unless the method runs inside `$transaction`.
use mark_solutions.Base.{Bool, Option, none, some, if◌then◌else◌}
use mark_solutions.Base.Int.{ℤ}
use mark_solutions.Store.Rows.{Db}

-- The exceptions: NestJS's, with the status that they stand for, Prisma's violation of a unique
-- index, and what the adapters of the outer systems throw.
pub data Error : Type 0 where
  bad_request : Error  -- 400
  insufficient_funds : ℤ → ℤ → Error  -- 402, with the balance and what is reserved
  not_found : Error  -- 404
  conflict : Error  -- 409
  unavailable : Error  -- 503
  p2002 : Error
  permanent : Error
  transient : Error

pub data Result {ℓ} (A : Type ℓ) : Type ℓ where
  ok : A → Result A
  err : Error → Result A

abbrev pub Action : Type 0 → Type 0
Action A = Db → Result A × Db

module _ {A : Type 0} where
  abbrev pub pure : A → Action A
  pure a db = (ok a, db)

  abbrev pub throw : Error → Action A
  throw e db = (err e, db)

  abbrev pub gets : (Db → A) → Action A
  gets f db = (ok (f db), db)

  abbrev pub or_throw : Option A → Error → Action A
  or_throw none e = throw e
  or_throw (some a) e = pure a

-- What follows a call that has ended: the rest of the block, or nothing after a throw.
abbrev pub then_gives : {A B : Type 0} → Result A × Db → (A → Action B) → Result B × Db
then_gives (ok a, db) f = f a db
then_gives (err e, db) f = (err e, db)

infixl 5 ◌>>=◌ ◌>>◌
abbrev pub ◌>>=◌ : {A B : Type 0} → Action A → (A → Action B) → Action B
◌>>=◌ m f db = then_gives (m db) f

abbrev pub ◌>>◌ : {A B : Type 0} → Action A → Action B → Action B
m >> k = m >>= λ _. k

abbrev pub throw_if : Bool → Error → Action (Unit {0})
throw_if c e db = (if c then err e else ok tt, db)

abbrev pub modify : (Db → Db) → Action (Unit {0})
modify f db = (ok tt, f db)

abbrev pub caught : {A : Type 0} → Result A × Db → (Error → Action A) → Result A × Db
caught (ok a, db) h = (ok a, db)
caught (err e, db) h = h e db

-- `try { m } catch (e) { h(e) }`
abbrev pub catch : {A : Type 0} → Action A → (Error → Action A) → Action A
catch m h db = caught (m db) h

abbrev pub committed : {A : Type 0} → Result A × Db → Db → Result A × Db
committed (ok a, after) before = (ok a, after)
committed (err e, after) before = (err e, before)

-- `prisma.$transaction(m)`: a throw undoes every write.
abbrev pub transaction : {A : Type 0} → Action A → Action A
transaction m db = committed (m db) db

-- `m.catch(() => {})`
abbrev pub swallow : {A : Type 0} → Action A → Action (Unit {0})
swallow m db = let (r, db') = m db in (ok tt, db')
