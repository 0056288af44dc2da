-- ===== src/Action.antt =====
-- A method of a service: it reads and changes the database and returns a value, raises an
-- `AppError`, or fails with another exception. What was written stays written after a raise.
use mcp_business_assistant.Prelude.{Bool, true, false, Option, none, some}
use mcp_business_assistant.Errors.{AppError, Result, ok, err, crash}
use mcp_business_assistant.Database.{Database}

abbrev pub Action : Type 0 → Type 0
Action A = Database → Result A × Database

module _ {A : Type 0} where
  abbrev pub pure : A → Action A
  pure a db = (ok a, db)

  abbrev pub raise : AppError → Action A
  raise e db = (err e, db)

  -- A value that was computed elsewhere.
  abbrev pub lift : Result A → Action A
  lift r db = (r, db)

  -- A value that must be there; another exception where it is not.
  abbrev pub or_crash : Option A → Action A
  or_crash none db = (crash, db)
  or_crash (some a) db = (ok a, db)

-- What follows an action, by how the action ended.
abbrev pub continue : {A B : Type 0} → (A → Action B) → Result A × Database → Result B × Database
continue f (ok a, db) = f a db
continue f (err e, db) = (err e, db)
continue f (crash, db) = (crash, db)

infixl 5 ◌>>=◌ ◌>>◌
abbrev pub ◌>>=◌ : {A B : Type 0} → Action A → (A → Action B) → Action B
◌>>=◌ m f db = continue f (m db)

abbrev pub ◌>>◌ : {A B : Type 0} → Action A → Action B → Action B
m >> k = m >>= λ _. k

abbrev pub modify : (Database → Database) → Action (Unit {0})
modify f db = (ok tt, f db)

abbrev pub gets : {A : Type 0} → (Database → A) → Action A
gets f db = (ok (f db), db)

-- `if test: raise e`
abbrev pub raise_if : Bool → AppError → Action (Unit {0})
raise_if true e db = (err e, db)
raise_if false e db = (ok tt, db)
