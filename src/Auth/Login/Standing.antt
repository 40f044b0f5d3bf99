-- ===== src/Auth/Login/Standing.antt =====
-- auth/login_service.py: a user whose wrong passwords are counted.
use pos_pay.Base.{
  ℕ, String, Text, Bool, true, Option, List, [], ◌∷◌, select, update, str_eq, ◌==◌, ==-refl,
  if◌then◌else◌, ◌≡◌, refl, ap, ◌∙◌, arith,
}
use pos_pay.Store.Rows.{Tenant}
use pos_pay.Store.Db.{Db, User, NotificationType}
use pos_pay.Store.Exec.{ok}
use pos_pay.Notify.{effective_preference, notify_account_locked, queue}
use pos_pay.Auth.Login.{
  LoginEnv, locked, lock, count_failures, check_password, authenticate_password,
}

-- An assignment to columns that the query does not read.
select-update :
    (p q : User → Bool) (f : User → User) (us : List User)
    → ((u : User) → p (f u) ≡ p u)
    → select p (update q f us) ≡ update q f (select p us)
select-update p q f [] h = refl
select-update p q f (u ∷ us) h = ground (arith, h u, select-update p q f us h)

-- The one user with an e-mail address, after so many wrong passwords; the preference for the
-- notice of a lock can be read.
pub record Standing (email : String) (hashed : Text) (n : ℕ) (until : Option ℕ) (db : Db)
    : Type 0 where
  pub user : User
  pub one : select (λ u. str_eq u.email email) db.users ≡ user ∷ []
  pub active : user.is_active ≡ true
  pub password : user.hashed_password ≡ hashed
  pub failures : user.failed_login_attempts ≡ n
  pub lock : user.locked_until ≡ until
  pub channels : Bool × Bool
  pub readable : effective_preference user.id NotificationType.account_locked db ≡ ok channels

-- A tenant in which one can sign in.
pub record IsOpen (slug : String) (tenants : List Tenant) : Type 0 where
  pub tenant : Tenant
  pub one : select (λ t. str_eq t.slug slug) tenants ≡ tenant ∷ []
  pub active : tenant.is_active ≡ true

pub authenticate-check :
    (env : LoginEnv) (slug email : String) (password hashed : Text) (n : ℕ) (until : Option ℕ)
    (db : Db) (o : IsOpen slug db.tenants) (s : Standing email hashed n until db)
    → authenticate_password env slug email password db
      ≡ check_password env password o.tenant s.user db
unfolding authenticate_password
authenticate-check env slug email password hashed n until db o s =
    rw o.one (rw o.active (rw s.one (rw s.active refl)))

pub counted :
    (email : String) (hashed : Text) (n m : ℕ) (until until' : Option ℕ) (db : Db)
    (s : Standing email hashed n until db)
    → Standing email hashed m until' (count_failures s.user m until' db)
unfolding effective_preference
counted email hashed n m until until' db s = record {
  user = record s.user { failed_login_attempts = m; locked_until = until' };
  one =
      select-update (λ u. str_eq u.email email) (λ x. x.id == s.user.id)
        (λ x. record x { failed_login_attempts = m; locked_until = until' }) db.users (λ u. refl)
      ∙ ap
          (update (λ x. x.id == s.user.id)
            (λ x. record x { failed_login_attempts = m; locked_until = until' }))
          s.one
      ∙ ap
          (λ b.
            (if b
              then record s.user { failed_login_attempts = m; locked_until = until' }
              else s.user)
            ∷ [])
          (==-refl s.user.id);
  active = s.active;
  password = s.password;
  failures = refl;
  lock = refl;
  channels = s.channels;
  readable = s.readable;
}

-- The notice of a lock changes none of this.
pub locks :
    (email : String) (hashed : Text) (n m : ℕ) (until until' : Option ℕ) (db : Db)
    (s : Standing email hashed n until db)
    → ((lock s.user m until' db).0 ≡ ok locked)
      × (Standing email hashed m until' (lock s.user m until' db).1
          × ((lock s.user m until' db).1.tenants ≡ db.tenants))
unfolding notify_account_locked queue effective_preference
locks email hashed n m until until' db s =
    let c = counted email hashed n m until until' db s in
    rw s.readable (
      refl,
      (
        record {
          user = c.user;
          one = c.one;
          active = c.active;
          password = c.password;
          failures = c.failures;
          lock = c.lock;
          channels = c.channels;
          readable = c.readable;
        },
        refl,
      ),
    )
