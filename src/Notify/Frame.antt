-- ===== src/Notify/Frame.antt =====
-- Notifying queues rows of its own table, and nothing else.
use pos_pay.Base.{List, [], ◌∷◌, ◌≡◌, refl, arith, inl, inr, Option}
use pos_pay.Store.Rows.{Uuid, ExceptionItem}
use pos_pay.Store.Db.{Db, User, NotificationType}
use pos_pay.Store.Exec.{Result-cases}
use pos_pay.Notify.{effective_preference, queue, queue_all, notify_exception_created}

abbrev pub OnlyNotifies : Db → Db → Type 0
OnlyNotifies db db' = db' ≡ record db { notifications = db'.notifications }

queue-OnlyNotifies :
    (tenant : Option Uuid) (u : User) (t : NotificationType) (i : Uuid) (db : Db)
    → OnlyNotifies db (queue tenant u t i db).1
unfolding queue
queue-OnlyNotifies tenant u t i db = elim (Result-cases (effective_preference u.id t db)) [
  | inl (b, e) ↦ ground arith
  | inr (x, e) ↦ ground arith
]

pub queue_all-OnlyNotifies :
    (tenant : Option Uuid) (t : NotificationType) (i : Uuid) (us : List User) (db : Db)
    → OnlyNotifies db (queue_all tenant t i us db).1
unfolding queue_all
queue_all-OnlyNotifies tenant t i [] db = refl
queue_all-OnlyNotifies tenant t i (u ∷ us) db = ground (
  arith,
  queue-OnlyNotifies tenant u t i db,
  queue_all-OnlyNotifies tenant t i us (queue tenant u t i db).1,
)

pub created-OnlyNotifies :
    (e : ExceptionItem) (db : Db) → OnlyNotifies db (notify_exception_created e db).1
unfolding notify_exception_created
created-OnlyNotifies e db = queue_all-OnlyNotifies _ _ _ _ db
