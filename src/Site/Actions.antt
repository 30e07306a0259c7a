-- ===== src/Site/Actions.antt =====
-- Actions: code that reads and writes the site and may raise. What was written before a raise
-- stays written, so the state comes back beside the error too.
use frappe_dsc.Base.{Bool, Option, none, some, if◌then◌else◌}
use frappe_dsc.Site.State.{Site, Db}
use frappe_dsc.Site.Errors.{Error}

pub data Result (A : Type 0) : Type 0 where
  ok : A → Result A
  err : Error → Result A

abbrev pub Action : Type 0 → Type 0
Action A = Site → Result A × Site

abbrev pub Done : Type 0
Done = Unit {0}

module _ {A : Type 0} where
  abbrev pub pure : A → Action A
  pure a s = (ok a, s)

  -- `raise`, `frappe.throw`
  abbrev pub raise : Error → Action A
  raise e s = (err e, s)

  -- A result of code that raises and changes nothing.
  abbrev pub lift : Result A → Action A
  lift r s = (r, s)

  abbrev pub gets : (Db → A) → Action A
  gets f s = (ok (f s.db), s)

  abbrev pub or_raise : Option A → Error → Action A
  or_raise none e s = (err e, s)
  or_raise (some a) e s = (ok a, s)

module _ {A B : Type 0} where
  infixl 5 ◌>>=◌ ◌>>◌
  abbrev pub continue : Result A → (A → Action B) → Action B
  continue (ok a) f s = f a s
  continue (err e) f s = (err e, s)

  abbrev pub ◌>>=◌ : Action A → (A → Action B) → Action B
  ◌>>=◌ m f s = let (r, s') = m s in continue r f s'

  abbrev pub ◌>>◌ : Action A → Action B → Action B
  m >> n = m >>= λ a. n

abbrev pub raise_if : Bool → Error → Action Done
raise_if c e s = (if c then err e else ok tt, s)

-- A write to the database, in the running transaction.
abbrev pub modify : (Db → Db) → Action Done
modify f s = (ok tt, record s { db = f s.db })

-- `frappe.db.commit()`
abbrev pub commit : Action Done
commit s = (ok tt, record s { durable = s.db })

abbrev pub when : Bool → Action Done → Action Done
when c m = if c then m else pure tt

module _ {A : Type 0} where
  abbrev pub handle : (Error → Action A) → Result A → Action A
  handle h (ok a) s = (ok a, s)
  handle h (err e) s = h e s

  -- `try: m except Exception as e: h e`
  abbrev pub try_except : Action A → (Error → Action A) → Action A
  try_except m h s = let (r, s') = m s in handle h r s'

  abbrev pub finish : Result A → Site → Site
  finish (ok a) s = record s { durable = s.db }
  finish (err e) s = record s { db = s.durable }

  -- A web request: Frappe commits when the handler returns, and rolls back when it raises.
  abbrev pub serve : Action A → Action A
  serve m s = let (r, s') = m s in (r, finish r s')
