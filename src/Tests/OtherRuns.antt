-- ===== src/Tests/OtherRuns.antt =====
-- Scoped reads, a preference and the cache of models, on concrete tables.
use pos_pay.Base.{true, false, ◌≡◌, refl, some, List, [], ◌∷◌}
use pos_pay.Store.Rows.{ExceptionItem}
use pos_pay.Store.Db.{NotificationType}
use pos_pay.Store.Exec.{ok}
use pos_pay.Store.Scope.{Repository}
use pos_pay.Scoring.{verified_bytes, load_row}
use pos_pay.Scoring.Cache.{IsCoherent, load_transparent}
use pos_pay.Notify.{new_preference, set_preference}
use pos_pay.Tests.Data.{test_env, bank, pending_exception, shared_model}

-- The exceptions of two tenants: the caller is of the first one.
abbrev foreign : ExceptionItem
foreign = record pending_exception { id = 61; tenant_id = 2 }

abbrev mixed : List ExceptionItem
mixed = foreign ∷ pending_exception ∷ []

abbrev repo : Repository
repo = record { tenant_id = 1; customer_id = some 5 }

load_transparent_example :
    ((load_row test_env shared_model bank).0 ≡ verified_bytes test_env "models/v1" (some "5f"))
    × IsCoherent test_env shared_model (load_row test_env shared_model bank).1.model_cache
load_transparent_example =
    load_transparent test_env shared_model shared_model bank tt tt (λ _. refl)

-- The maker switches mail off for locked accounts: mail is still sent.
switched_off :
    (set_preference 70 NotificationType.account_locked false true bank).0
    ≡ ok (new_preference 70 NotificationType.account_locked false true)
unfolding set_preference
switched_off = refl
