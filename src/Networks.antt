-- ===== src/Networks.antt =====
-- networks/registry.py: the adapters by network code, as they are registered at start-up.
use pos_pay.Base.{String, Option, none, List, [], ◌∷◌, if◌then◌else◌, str_eq, find, ◌==◌}
use pos_pay.Store.Rows.{Uuid, ExceptionItem, AchTransaction}
use pos_pay.Store.Db.{Db, Env, Features}
use pos_pay.Store.Exec.{Result, ok, err, no_adapter}
use pos_pay.Check.Features.{build_check_features}
use pos_pay.Ach.Features.{build_ach_features}

-- `_ADAPTERS`: the two adapters differ in what the review code calls, `build_features` and
-- whether `load_source_item` returns an AchTransaction.
pub data Adapter : Type 0 where
  check ach : Adapter

unfoldable pub get_adapter : String → Result Adapter
get_adapter network_code =
    if str_eq network_code "check"
    then ok check
    else if str_eq network_code "ach"
    then ok ach
    else err (no_adapter network_code)

-- `sorted(_ADAPTERS)`
abbrev pub registered_codes : List String
registered_codes = "ach" ∷ "check" ∷ []

unfoldable pub build_features : Env → Adapter → ExceptionItem → Db → Result Features
build_features env check e db = build_check_features env e db
build_features env ach e db = build_ach_features e db

-- `load_source_item`, where its caller keeps the result only if it is an AchTransaction.
unfoldable pub load_ach_source_item : Adapter → Uuid → Db → Option AchTransaction
load_ach_source_item check i db = none
load_ach_source_item ach i db = find (λ t. t.id == i) db.transactions
