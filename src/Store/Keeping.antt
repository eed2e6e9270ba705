-- ===== src/Store/Keeping.antt =====
-- What an action keeps: a predicate of the database that holds before it holds after it, whether it
-- returns or throws. One rule for each way to build an action.
use mark_solutions.Base.{Bool, true, false, Option, none, some, if◌then◌else◌}
use mark_solutions.Store.Rows.{Db}
use mark_solutions.Store.Monad.{
  Error, Result, ok, err, Action, pure, throw, gets, or_throw, then_gives, ◌>>=◌, ◌>>◌, throw_if,
  modify, caught, catch, committed, transaction, swallow,
}

module _ (P : Db → Type 0) where
  pub record Keeps {A : Type 0} (m : Action A) : Type 0 where
    pub after : (db : Db) → P db → P (m db).1

  then_gives-Keeps :
      {A B : Type 0} (r : Result A × Db) (f : A → Action B)
      → P r.1
      → ((a : A) → Keeps (f a))
      → P (then_gives r f).1
  then_gives-Keeps (ok a, db) f h k = (k a).after db h
  then_gives-Keeps (err e, db) f h k = h

  pub bind-Keeps :
      {A B : Type 0} {m : Action A} {f : A → Action B}
      → Keeps m
      → ((a : A) → Keeps (f a))
      → Keeps (m >>= f)
  bind-Keeps {m = m} {f = f} h k = record {
    after = λ db p. then_gives-Keeps (m db) f (h.after db p) k;
  }

  pub seq-Keeps : {A B : Type 0} {m : Action A} {k : Action B} → Keeps m → Keeps k → Keeps (m >> k)
  seq-Keeps h k = bind-Keeps h (λ a. k)

  pub pure-Keeps : {A : Type 0} {a : A} → Keeps (pure a)
  pure-Keeps = record { after = λ db p. p }

  pub throw-Keeps : {A : Type 0} {e : Error} → Keeps (throw {A = A} e)
  throw-Keeps = record { after = λ db p. p }

  pub gets-Keeps : {A : Type 0} (f : Db → A) → Keeps (gets f)
  gets-Keeps f = record { after = λ db p. p }

  pub throw_if-Keeps : (c : Bool) (e : Error) → Keeps (throw_if c e)
  throw_if-Keeps c e = record { after = λ db p. p }

  pub or_throw-Keeps : {A : Type 0} (o : Option A) (e : Error) → Keeps (or_throw o e)
  or_throw-Keeps none e = throw-Keeps
  or_throw-Keeps (some a) e = pure-Keeps

  pub modify-Keeps : {f : Db → Db} → ((db : Db) → P db → P (f db)) → Keeps (modify f)
  modify-Keeps h = record { after = h }

  pub if-Keeps :
      {A : Type 0} (b : Bool) {m k : Action A} → Keeps m → Keeps k → Keeps (if b then m else k)
  if-Keeps true h k = h
  if-Keeps false h k = k

  pub swallow-Keeps : {A : Type 0} {m : Action A} → Keeps m → Keeps (swallow m)
  swallow-Keeps h = record { after = λ db p. h.after db p }

  pub option_Keeps :
      {A B : Type 0} (o : Option B) {m : Action A} {k : B → Action A}
      → Keeps m
      → ((b : B) → Keeps (k b))
      → Keeps (elim o [ none ↦ m | some b ↦ k b ])
  option_Keeps none h k = h
  option_Keeps (some b) h k = k b

  caught-Keeps :
      {A : Type 0} (r : Result A × Db) (h : Error → Action A)
      → P r.1
      → ((e : Error) → Keeps (h e))
      → P (caught r h).1
  caught-Keeps (ok a, db) h p k = p
  caught-Keeps (err e, db) h p k = (k e).after db p

  pub catch-Keeps :
      {A : Type 0} {m : Action A} {h : Error → Action A}
      → Keeps m
      → ((e : Error) → Keeps (h e))
      → Keeps (catch m h)
  catch-Keeps {m = m} {h = h} kept handled = record {
    after = λ db p. caught-Keeps (m db) h (kept.after db p) handled;
  }

  -- What an action keeps where it returns.
  abbrev pub IfOk : {A : Type 0} → Result A × Db → Type 0
  IfOk (ok a, db) = P db
  IfOk (err e, db) = Unit

  pub record Commits {A : Type 0} (m : Action A) : Type 0 where
    pub returned : (db : Db) → P db → IfOk (m db)

  then_gives-Commits :
      {A B : Type 0} (r : Result A × Db) (f : A → Action B)
      → IfOk r
      → ((a : A) → Commits (f a))
      → IfOk (then_gives r f)
  then_gives-Commits (ok a, db) f h k = (k a).returned db h
  then_gives-Commits (err e, db) f h k = tt

  pub bind-Commits :
      {A B : Type 0} {m : Action A} {f : A → Action B}
      → Commits m
      → ((a : A) → Commits (f a))
      → Commits (m >>= f)
  bind-Commits {m = m} {f = f} h k = record {
    returned = λ db p. then_gives-Commits (m db) f (h.returned db p) k;
  }

  pub after-IfOk : {A : Type 0} (r : Result A × Db) → P r.1 → IfOk r
  after-IfOk (ok a, db) p = p
  after-IfOk (err e, db) p = tt

  pub Keeps-Commits : {A : Type 0} {m : Action A} → Keeps m → Commits m
  Keeps-Commits {m = m} h = record { returned = λ db p. after-IfOk (m db) (h.after db p) }

  committed-Keeps :
      {A : Type 0} (r : Result A × Db) (db : Db) → P db → IfOk r → P (committed r db).1
  committed-Keeps (ok a, after) db p h = h
  committed-Keeps (err e, after) db p h = p

  pub transaction-Keeps : {A : Type 0} {m : Action A} → Commits m → Keeps (transaction m)
  transaction-Keeps {m = m} h = record {
    after = λ db p. committed-Keeps (m db) db p (h.returned db p);
  }

  pub ruleset keeping = (
    bind-Keeps, seq-Keeps, pure-Keeps, throw-Keeps, gets-Keeps, throw_if-Keeps, or_throw-Keeps,
    if-Keeps, option_Keeps, swallow-Keeps,
  )
