-- ===== src/Auth/Login/Lockout.antt =====
-- auth/login_service.py: the lock after too many wrong passwords.
use pos_pay.Base.{
  ℕ, suc, ◌+◌, ◌*◌, ◌<◌, String, Text, true, false, none, some, List, [], ◌∷◌, ◌++◌, leb, length,
  All, ◌≡◌, refl, ap, sym, subst, ◌∙◌, arith,
}
use pos_pay.Store.Rows.{Tenant}
use pos_pay.Store.Db.{Db, User}
use pos_pay.Store.Exec.{ok}
use pos_pay.Auth.Login.{
  LoginEnv, locked, lock, verify_password, is_locked, count_failures, reject, check_password,
  authenticate_password,
}
use pos_pay.Auth.Login.Standing.{authenticate-check, counted, locks, Standing, IsOpen}

-- One attempt: when, where, and with which password.
pub record Attempt : Type 0 where
  pub env : LoginEnv
  pub slug : String
  pub password : Text

abbrev try : String → Attempt → Db → Db
try email a db = (authenticate_password a.env a.slug email a.password db).1

-- The tables after these attempts, each of them committed.
abbrev pub after_each : String → List Attempt → Db → Db
after_each email [] db = db
after_each email (a ∷ rest) db = after_each email rest (try email a db)

-- A wrong password for an open tenant, under the same threshold.
abbrev pub IsWrong : Text → ℕ → List Tenant → Attempt → Type 0
IsWrong hashed limit tenants a =
    (verify_password a.env a.password hashed ≡ false)
    × ((a.env.login_max_failed_attempts ≡ limit) × IsOpen a.slug tenants)

reject-reached :
    (env : LoginEnv) (u : User) (db : Db)
    → leb env.login_max_failed_attempts (suc u.failed_login_attempts) ≡ true
    → reject env u db
      ≡ lock u (suc u.failed_login_attempts) (some (env.now + env.login_lockout_minutes * 60)) db
unfolding reject
reject-reached env u db e = rw e refl

reject-below :
    (env : LoginEnv) (u : User) (db : Db)
    → leb env.login_max_failed_attempts (suc u.failed_login_attempts) ≡ false
    → (reject env u db).1 ≡ count_failures u (suc u.failed_login_attempts) u.locked_until db
unfolding reject
reject-below env u db e = rw e refl

-- A wrong password that is looked at is counted.
try-reject :
    (email : String) (hashed : Text) (n limit : ℕ) (db : Db) (a : Attempt)
    (s : Standing email hashed n none db)
    → IsWrong hashed limit db.tenants a
    → try email a db ≡ (reject a.env s.user db).1
unfolding check_password
try-reject email hashed n limit db a s w =
    let wrong = ap (verify_password a.env a.password) s.password ∙ w.0 in
    ap (λ r. r.1) (authenticate-check a.env a.slug email a.password hashed n none db w.1.1 s)
    ∙ rw s.lock (rw wrong refl)

-- One wrong password below the threshold.
try-below :
    (email : String) (hashed : Text) (n limit : ℕ) (db : Db) (a : Attempt)
    → Standing email hashed n none db
    → IsWrong hashed limit db.tenants a
    → suc n < limit
    → Standing email hashed (suc n) none (try email a db) × ((try email a db).tenants ≡ db.tenants)
try-below email hashed n limit db a s w below =
    let missed = reject-below a.env s.user db (ground (arith, w.1.0, s.failures, below)) in
    let same =
      try-reject email hashed n limit db a s w
      ∙ missed
      ∙ ap (λ k. count_failures s.user (suc k) s.user.locked_until db) s.failures
      ∙ ap (λ l. count_failures s.user (suc n) l db) s.lock in
    (
      subst (Standing email hashed (suc n) none) (sym same)
          (counted email hashed n (suc n) none none db s),
      ap (λ d. d.tenants) same,
    )

-- The wrong password that reaches it.
try-reached :
    (email : String) (hashed : Text) (n limit : ℕ) (db : Db) (a : Attempt)
    → Standing email hashed n none db
    → IsWrong hashed limit db.tenants a
    → suc n ≡ limit
    → Standing email hashed
        (suc n)
        (some (a.env.now + a.env.login_lockout_minutes * 60))
        (try email a db)
      × ((try email a db).tenants ≡ db.tenants)
try-reached email hashed n limit db a s w reached =
    let until = some (a.env.now + a.env.login_lockout_minutes * 60) in
    let missed = reject-reached a.env s.user db (ground (arith, w.1.0, s.failures, reached)) in
    let same =
      try-reject email hashed n limit db a s w
      ∙ ap (λ r. r.1) missed
      ∙ ap (λ k. (lock s.user (suc k) until db).1) s.failures in
    let after = locks email hashed n (suc n) none until db s in
    (
      subst (Standing email hashed (suc n) until) (sym same) after.1.0,
      ap (λ d. d.tenants) same ∙ after.1.1,
    )

attempts-Standing :
    (email : String) (hashed : Text) (n limit : ℕ) (db : Db) (before : List Attempt)
    (last : Attempt)
    → Standing email hashed n none db
    → All (IsWrong hashed limit db.tenants) (before ++ last ∷ [])
    → n + length before + 1 ≡ limit
    → Standing email hashed limit
        (some (last.env.now + last.env.login_lockout_minutes * 60))
        (after_each email (before ++ last ∷ []) db)
      × ((after_each email (before ++ last ∷ []) db).tenants ≡ db.tenants)
attempts-Standing email hashed n limit db [] last s w enough =
    let reached : suc n ≡ limit = omega (arith, enough) in
    let (locked_now, same) = try-reached email hashed n limit db last s w.0 reached in
    (
      subst
          (λ k.
            Standing email hashed k (some (last.env.now + last.env.login_lockout_minutes * 60))
              (try email last db))
          reached locked_now,
      same,
    )
attempts-Standing email hashed n limit db (a ∷ before) last s w enough =
    let (next, same) = try-below email hashed n limit db a s w.0 (omega (arith, enough)) in
    let (locked_now, same') =
      attempts-Standing email hashed (suc n) limit (try email a db) before last next
        (subst (λ ts. All (IsWrong hashed limit ts) (before ++ last ∷ [])) (sym same) w.1)
        (omega (arith, enough)) in
    (locked_now, same' ∙ same)

-- The lock: where wrong passwords in a row, in any active tenants, bring an active user's count of
-- failures from where it is to the threshold, the next sign-in at that address in an active
-- tenant, with whatever password, before the lock time has passed since the last of them, is told
-- that the account is locked, and changes nothing.
pub locked_after_max :
    (email : String) (hashed : Text) (n limit : ℕ) (db : Db) (before : List Attempt)
    (last : Attempt) (next : Attempt)
    → Standing email hashed n none db
    → All (IsWrong hashed limit db.tenants) (before ++ last ∷ [])
    → n + length before + 1 ≡ limit
    → IsOpen next.slug db.tenants
    → next.env.now < last.env.now + last.env.login_lockout_minutes * 60
    → authenticate_password next.env next.slug email next.password
        (after_each email (before ++ last ∷ []) db)
      ≡ (ok locked, after_each email (before ++ last ∷ []) db)
unfolding check_password
locked_after_max email hashed n limit db before last next s w enough known early =
    let (l, same) = attempts-Standing email hashed n limit db before last s w enough in
    let open_now = subst (IsOpen next.slug) (sym same) known in
    let still : is_locked next.env.now (some (last.env.now + last.env.login_lockout_minutes * 60))
        ≡ true =
      ground (arith, early) in
    authenticate-check next.env next.slug email next.password hashed limit _ _ open_now l
    ∙ rw l.lock (rw still refl)
