-- ===== src/Scoring/FollowUp.antt =====
-- What follows a new exception: it is scored, and its reviewers are told.
use pos_pay.Base.{map, ◌≡◌, refl, ◌∙◌, arith, inl, inr}
use pos_pay.Store.Rows.{ExceptionItem}
use pos_pay.Store.Db.{Db, Env}
use pos_pay.Store.Exec.{Exec, Result, ok, err, pure, ◌>>◌, bind-frame, Result-cases}
use pos_pay.Scoring.{score_exception}
use pos_pay.Scoring.Frame.{unscored, IsScored, score_exception-IsScored}
use pos_pay.Notify.{notify_exception_created}
use pos_pay.Notify.Frame.{OnlyNotifies, created-OnlyNotifies}

-- Scores, notifications and the cache of models are all that changes.
pub record IsFollowedUp (db db' : Db) : Type 0 where
  pub rest : db' ≡ record db {
    exceptions = db'.exceptions;
    notifications = db'.notifications;
    model_cache = db'.model_cache;
  }
  pub exceptions : map unscored db'.exceptions ≡ map unscored db.exceptions

IsFollowedUp-trans : (a b c : Db) → IsFollowedUp a b → IsFollowedUp b c → IsFollowedUp a c
IsFollowedUp-trans a b c h k = record {
  rest = ground (arith, h.rest, k.rest);
  exceptions = k.exceptions ∙ h.exceptions;
}

of_scored : {db db' : Db} → IsScored db db' → IsFollowedUp db db'
of_scored {db} {db'} h = record { rest = ground (arith, h.rest); exceptions = h.exceptions }

of_told : {db db' : Db} → OnlyNotifies db db' → IsFollowedUp db db'
of_told {db} {db'} h = record { rest = ground (arith, h); exceptions = ground (arith, h) }

pub follow_up-IsFollowedUp :
    {A : Type 0} (env : Env) (e : ExceptionItem) (a : A) (db : Db)
    → IsFollowedUp db ((score_exception env e >> (notify_exception_created e >> pure a)) db).1
follow_up-IsFollowedUp env e a db =
    bind-frame IsFollowedUp IsFollowedUp-trans (score_exception env e)
      (λ _. notify_exception_created e >> pure a) db (of_scored (score_exception-IsScored env e db))
      λ _ db'.
        bind-frame IsFollowedUp IsFollowedUp-trans (notify_exception_created e) (λ _. pure a) db'
          (of_told (created-OnlyNotifies e db')) λ _ db2. record { rest = refl; exceptions = refl }

-- How a call ends that scores and then tells: as the first of the two that raises, or with the
-- value given.
abbrev pub answer_after : {A B C : Type 0} → Result A → Result B → C → Result C
answer_after (err x) told c = err x
answer_after (ok a) (err x) c = err x
answer_after (ok a) (ok b) c = ok c

pub follow_up-answer :
    {A B C : Type 0} (m : Exec A) (n : Exec B) (c : C) (db : Db)
    → ((m >> (n >> pure c)) db).0 ≡ answer_after (m db).0 (n (m db).1).0 c
follow_up-answer m n c db = elim (Result-cases (m db).0) [
  | inr (x, raised) ↦ ground arith
  | inl (a, done) ↦ elim (Result-cases (n (m db).1).0) [
    | inr (x, raised) ↦ ground arith
    | inl (b, told) ↦ ground arith
  ]
]

-- It returns what it is given, where it returns.
pub follow_up-result :
    {A B C : Type 0} (m : Exec A) (n : Exec B) (c : C) (db : Db) {q : C}
    → ((m >> (n >> pure c)) db).0 ≡ ok q
    → q ≡ c
follow_up-result m n c db h = elim (Result-cases (m db).0) [
  | inr (x, raised) ↦ ground arith
  | inl (a, done) ↦ elim (Result-cases (n (m db).1).0) [
    | inr (x, raised) ↦ ground arith
    | inl (b, told) ↦ ground arith
  ]
]
