-- ===== src/Store/Exec.antt =====
-- A service call: it reads and writes the session's rows, and returns or raises. What was written
-- before a raise stays pending in the session until the caller commits or rolls back.
use pos_pay.Base.{
  ℕ, ◌+◌, String, Bool, Option, none, some, if◌then◌else◌, List, [], ◌∷◌, ◌≡◌, refl, ap, sym, subst,
  ◌⊎◌, inl, inr,
}
use pos_pay.Store.Db.{Db}

pub data Error : Type 0 where
  account_not_found multiple_rows no_row integrity_error file_not_found date_underflow : Error
  token_expired token_invalid wrong_token_type access_revoked refresh_failed : Error
  no_adapter : String → Error
  row_field : String → Error

pub data Result (A : Type 0) : Type 0 where
  ok : A → Result A
  err : Error → Result A

abbrev pub Exec : Type 0 → Type 0
Exec A = Db → Result A × Db

module _ {A : Type 0} where
  abbrev pub pure : A → Exec A
  pure a db = (ok a, db)

  abbrev pub raise : Error → Exec A
  raise e db = (err e, db)

  abbrev pub gets : (Db → A) → Exec A
  gets f db = (ok (f db), db)

  -- A read of the tables that may raise.
  abbrev pub reads : (Db → Result A) → Exec A
  reads f db = (f db, db)

  abbrev pub or_raise : Option A → Error → Exec A
  or_raise none e = raise e
  or_raise (some a) e = pure a

  -- `scalar_one_or_none`
  abbrev pub one_or_none : List A → Result (Option A)
  one_or_none [] = ok none
  one_or_none (a ∷ []) = ok (some a)
  one_or_none (a ∷ b ∷ rest) = err multiple_rows

abbrev pub resume : {A B : Type 0} → (A → Exec B) → Result A → Exec B
resume f (ok a) = f a
resume f (err e) = raise e

infixl 5 ◌>>=◌ ◌>>◌
abbrev pub ◌>>=◌ : {A B : Type 0} → Exec A → (A → Exec B) → Exec B
◌>>=◌ m f db = resume f (m db).0 (m db).1

abbrev pub ◌>>◌ : {A B : Type 0} → Exec A → Exec B → Exec B
m >> k = m >>= λ _. k

abbrev pub raise_if : Bool → Error → Exec (Unit {0})
raise_if c e db = (if c then err e else ok tt, db)

abbrev pub modify : (Db → Db) → Exec (Unit {0})
modify f db = (ok tt, f db)

-- A read that may raise, followed by another.
abbrev pub and_then : {A B : Type 0} → Result A → (A → Result B) → Result B
and_then (ok a) f = f a
and_then (err e) f = err e

abbrev pub required : {A : Type 0} → Option A → Error → Result A
required none e = err e
required (some a) e = ok a

-- `new_uuid`: an id that no row has.
abbrev pub new_uuid : Exec ℕ
new_uuid db = (ok db.next_id, record db { next_id = db.next_id + 1 })

-- A session: the rows with what is pending, and the rows as last committed. The model cache is
-- the process's and is not rolled back.
pub record Session : Type 0 where
  pub db : Db
  pub saved : Db

abbrev pub commit : Session → Session
commit s = record s { saved = s.db }

abbrev pub rollback : Session → Session
rollback s = record s { db = record s.saved { model_cache = s.db.model_cache } }

abbrev pub end_transaction : {A : Type 0} → Result A → Session → Result A × Session
end_transaction (ok a) s = (ok a, commit s)
end_transaction (err e) s = (err e, rollback s)

-- The body of every bulk loop: one transaction for each row, a raise undoes that row alone.
abbrev pub in_transaction : {A : Type 0} → Exec A → Session → Result A × Session
in_transaction m s = end_transaction (m s.db).0 (record s { db = (m s.db).1 })

pub Result-cases :
    {A : Type 0} (r : Result A) → ((a : A) × (r ≡ ok a)) ⊎ ((e : Error) × (r ≡ err e))
Result-cases (ok a) = inl (a, refl)
Result-cases (err e) = inr (e, refl)

-- A query that finds a row finds that one alone.
pub one_or_none-one :
    {A : Type 0} (xs : List A) (a : A) → one_or_none xs ≡ ok (some a) → xs ≡ a ∷ []
one_or_none-one [] a h = cc
one_or_none-one (x ∷ []) a h = cc
one_or_none-one (x ∷ y ∷ xs) a h = cc

-- What a chain of reads that succeeds went through.
pub and_then-ok :
    {A B : Type 0} (r : Result A) (f : A → Result B) {b : B}
    → and_then r f ≡ ok b
    → (a : A) × ((r ≡ ok a) × (f a ≡ ok b))
and_then-ok (ok a) f h = (a, (refl, h))
and_then-ok (err e) f h = cc

pub required-ok : {A : Type 0} (o : Option A) (e : Error) {a : A} → required o e ≡ ok a → o ≡ some a
required-ok none e h = cc
required-ok (some x) e h = cc

-- A bind, once it is known how its first part ends.
module _ {A B : Type 0} (m : Exec A) (f : A → Exec B) (db : Db) where
  pub bind-ok : {a : A} → (m db).0 ≡ ok a → (m >>= f) db ≡ f a (m db).1
  bind-ok h = ap (λ r. resume f r (m db).1) h

  pub bind-err : {x : Error} → (m db).0 ≡ err x → (m >>= f) db ≡ (err x, (m db).1)
  bind-err h = ap (λ r. resume f r (m db).1) h

-- A relation on tables that both parts keep, whatever they return, is kept by the bind.
pub bind-frame :
    {A B : Type 0} (R : Db → Db → Type 0)
    → ((a b c : Db) → R a b → R b c → R a c)
    → (m : Exec A) (f : A → Exec B) (db : Db) → R db (m db).1
    → ((a : A) (db' : Db) → R db' (f a db').1)
    → R db ((m >>= f) db).1
bind-frame R trans m f db first next = elim (Result-cases (m db).0) [
  | inl (a, done) ↦
      subst (λ x. R db x.1) (sym (bind-ok m f db done))
        (trans db (m db).1 _ first (next a (m db).1))
  | inr (x, raised) ↦ subst (λ x. R db x.1) (sym (bind-err m f db raised)) first
]

-- What a call that returns went through.
pub bind-returns :
    {A B : Type 0} (m : Exec A) (f : A → Exec B) (db : Db) {b : B}
    → ((m >>= f) db).0 ≡ ok b
    → (a : A) × (((m db).0 ≡ ok a) × ((f a (m db).1).0 ≡ ok b))
bind-returns m f db h = elim (Result-cases (m db).0) [
  | inl (a, e) ↦ (a, (e, cc (h, bind-ok m f db e)))
  | inr (x, e) ↦ absurd (cc (h, bind-err m f db e))
]

pub bind-or_raise :
    {A B : Type 0} (o : Option A) (x : Error) (f : A → Exec B) (db : Db) {b : B}
    → ((or_raise o x >>= f) db).0 ≡ ok b
    → (a : A) × ((o ≡ some a) × ((f a db).0 ≡ ok b))
bind-or_raise none x f db h = cc
bind-or_raise (some a) x f db h = (a, (refl, h))

pub bind-reads :
    {A B : Type 0} (g : Db → Result A) (f : A → Exec B) (db : Db) {b : B}
    → ((reads g >>= f) db).0 ≡ ok b
    → (a : A) × ((g db ≡ ok a) × ((f a db).0 ≡ ok b))
bind-reads g f db h = bind-returns (reads g) f db h

pub ok-pair :
    {A B : Type 0} (a c : A) (b d : B) → ◌≡◌ {A = Result (A × B)} (ok (a, b)) (ok (c, d)) → a ≡ c
ok-pair a c b d h = cc
