-- ===== src/Notify/Recipients.antt =====
-- Who is told: the users who hold the permission in the audience of the exception, and never the
-- maker of the recommendation that awaits approval.
use pos_pay.Base.{
  append_nil, append_assoc, All-append, All-Has-select, All-select_both, All-map, String, Bool,
  true, false, not, Option, none, some, List, [], ◌∷◌, ◌++◌, ◌≡◌, ◌≢◌, sym, ap, ◌∙◌, ◌==◌, inl, inr,
  arith, Option-cases, Bool-cases, All, Has, find, any, str_eq, same_id, when, ==→eq, ==-refl,
  find-passes,
}
use pos_pay.Store.Rows.{Uuid, ExceptionItem}
use pos_pay.Store.Db.{
  Db, TenantMembership, SecurityGroup, User, Notification, NotificationType, NotificationChannel,
}
use pos_pay.Store.Exec.{Result-cases, bind-frame}
use pos_pay.Notify.{
  in_audience, put_user, with_user, collect, recipients_for_permission, effective_preference,
  notice, sms_notices, queue, queue_all, notify_recommendation_awaiting_approval,
  notify_exception_created,
}

-- The notifications that a call adds, and what holds of their recipients.
abbrev pub Tells : (Uuid → Type 0) → Db → Db → Type 0
Tells P db db' =
    (added : List Notification) × (db'.notifications ≡ db.notifications ++ added)
    × All (λ n. P n.recipient_user_id) added

sms_to :
    (P : Uuid → Type 0) (tenant : Option Uuid) (u : User) (t : NotificationType) (i : Uuid)
    (b : Bool) (phone : Option String)
    → P u.id
    → All (λ n. P n.recipient_user_id) (sms_notices tenant u t i b phone)
sms_to P tenant u t i false phone h = tt
sms_to P tenant u t i true none h = tt
sms_to P tenant u t i true (some phone) h = elim (Bool-cases (str_eq phone "")) [
  | inl e ↦ rw e tt
  | inr e ↦ rw e (h, tt)
]

email_to :
    (P : Uuid → Type 0) (n : Notification) (b : Bool)
    → P n.recipient_user_id
    → All (λ n. P n.recipient_user_id) (when b n)
email_to P n true h = (h, tt)
email_to P n false h = tt

queue-Tells :
    (P : Uuid → Type 0) (tenant : Option Uuid) (t : NotificationType) (i : Uuid) (u : User)
    (db : Db)
    → P u.id
    → Tells P db (queue tenant u t i db).1
unfolding queue
queue-Tells P tenant t i u db h = elim (Result-cases (effective_preference u.id t db)) [
  | inr (x, raised) ↦ ([], ground (arith, append_nil db.notifications), tt)
  | inl (b, e) ↦ (
    when b.0 (notice tenant u t NotificationChannel.email u.email i)
        ++ sms_notices tenant u t i b.1 u.phone,
    ground arith,
    All-append _ _ _ (email_to P (notice tenant u t NotificationChannel.email u.email i) b.0 h)
        (sms_to P tenant u t i b.1 u.phone h),
  )
]

Tells-trans : (P : Uuid → Type 0) (a b c : Db) → Tells P a b → Tells P b c → Tells P a c
Tells-trans P a b c (xs, e, h) (ys, f, k) =
    (xs ++ ys, f ∙ ap (λ l. l ++ ys) e ∙ append_assoc a.notifications xs ys, All-append _ xs ys h k)

queue_all-Tells :
    (P : Uuid → Type 0) (tenant : Option Uuid) (t : NotificationType) (i : Uuid) (us : List User)
    (db : Db)
    → All (λ (u : User). P u.id) us
    → Tells P db (queue_all tenant t i us db).1
unfolding queue_all
queue_all-Tells P tenant t i [] db h = ([], sym (append_nil db.notifications), tt)
queue_all-Tells P tenant t i (u ∷ us) db h =
    bind-frame (Tells P) (Tells-trans P) (queue tenant u t i) (λ _. queue_all tenant t i us) db
      (queue-Tells P tenant t i u db h.0) λ _ db'. queue_all-Tells P tenant t i us db' h.1

-- A user who may act on the exception: it has a membership in the audience, of a group of the
-- permission.
abbrev pub IsReviewer : Uuid → String → Option Uuid → Db → Uuid → Type 0
IsReviewer tenant permission customer db i =
    (m : TenantMembership) × (g : SecurityGroup) × Has m db.memberships
    × (in_audience tenant customer m ≡ true)
    × (find (λ g. g.id == m.security_group_id) db.groups ≡ some g)
    × (any (str_eq permission) g.permissions ≡ true)
    × (m.user_id ≡ i)

All-put_user :
    (P : Uuid → Type 0) (u : User) (vs : List User)
    → P u.id
    → All (λ (v : User). P v.id) vs
    → All (λ (v : User). P v.id) (put_user u vs)
All-put_user P u [] h k = (h, tt)
All-put_user P u (v ∷ vs) h k = elim (Bool-cases (v.id == u.id)) [
  | inl e ↦ rw e (h, k.1)
  | inr e ↦ rw e (k.0, All-put_user P u vs h k.1)
]

All-with_user :
    (tenant : Uuid) (permission : String) (customer : Option Uuid) (db : Db) (m : TenantMembership)
    (vs : List User)
    → Has m db.memberships
    → in_audience tenant customer m ≡ true
    → All (λ (v : User). IsReviewer tenant permission customer db v.id) vs
    → All
        (λ (v : User). IsReviewer tenant permission customer db v.id)
        (with_user permission
          (find (λ g. g.id == m.security_group_id) db.groups)
          (find (λ u. u.id == m.user_id) db.users)
          vs)
All-with_user tenant permission customer db m vs there listens h =
    elim (Option-cases (find (λ g. g.id == m.security_group_id) db.groups)) [
      | inl missing ↦ rw missing h
      | inr (g, group) ↦ elim (Option-cases (find (λ u. u.id == m.user_id) db.users)) [
        | inl missing ↦ rw (group, missing) h
        | inr (u, found) ↦ elim (Bool-cases (any (str_eq permission) g.permissions)) [
          | inr lacks ↦ rw (group, found, lacks) h
          | inl holds ↦
              let same =
                ==→eq u.id m.user_id (find-passes (λ u. u.id == m.user_id) db.users found) in
              rw (group, found, holds)
                (All-put_user (IsReviewer tenant permission customer db) u vs
                  (m, g, there, listens, group, holds, sym same) h)
        ]
      ]
    ]

All-collect :
    (tenant : Uuid) (permission : String) (customer : Option Uuid) (db : Db)
    (ms : List TenantMembership) (vs : List User)
    → All
        (λ (m : TenantMembership). Has m db.memberships × (in_audience tenant customer m ≡ true))
        ms
    → All (λ (v : User). IsReviewer tenant permission customer db v.id) vs
    → All
        (λ (v : User). IsReviewer tenant permission customer db v.id)
        (collect db permission ms vs)
unfolding collect
All-collect tenant permission customer db [] vs k h = h
All-collect tenant permission customer db (m ∷ ms) vs k h =
    All-collect tenant permission customer db ms _ k.1
      (All-with_user tenant permission customer db m vs k.0.0 k.0.1 h)

recipients-IsReviewer :
    (tenant : Uuid) (permission : String) (customer : Option Uuid) (db : Db)
    → All
        (λ (v : User). IsReviewer tenant permission customer db v.id)
        (recipients_for_permission tenant permission customer db)
unfolding recipients_for_permission
recipients-IsReviewer tenant permission customer db =
    All-collect tenant permission customer db _ []
      (All-Has-select (in_audience tenant customer) db.memberships db.memberships (λ x h. h)) tt

not_same : (i : Uuid) (maker : Option Uuid) → not (same_id (some i) maker) ≡ true → maker ≢ some i
not_same i maker h e = ground (arith, ==-refl i)

-- A new exception is told to users who hold `exception:recommend` in its audience, and to no one
-- else.
pub created_recipients :
    (e : ExceptionItem) (db : Db)
    → Tells
        (IsReviewer e.tenant_id "exception:recommend" e.customer_id db)
        db
        (notify_exception_created e db).1
unfolding notify_exception_created
created_recipients e db =
    queue_all-Tells (IsReviewer e.tenant_id "exception:recommend" e.customer_id db) _ _ _ _ db
      (recipients-IsReviewer e.tenant_id "exception:recommend" e.customer_id db)

-- A recommendation that awaits approval is told to users who hold `exception:decide` in the
-- audience of its exception, to no one else, and never to the maker of the recommendation.
pub maker_not_told :
    (e : ExceptionItem) (db : Db)
    → Tells
        (λ i.
          IsReviewer e.tenant_id "exception:decide" e.customer_id db i
          × (e.recommended_by_user_id ≢ some i))
        db
        (notify_recommendation_awaiting_approval e db).1
unfolding notify_recommendation_awaiting_approval
maker_not_told e db =
    let who = recipients_for_permission e.tenant_id "exception:decide" e.customer_id db in
    let reviewers = recipients-IsReviewer e.tenant_id "exception:decide" e.customer_id db in
    queue_all-Tells _ _ _ _ _ db (
      All-map _ _ _ (λ u h. (h.0, not_same u.id e.recommended_by_user_id h.1))
        (All-select_both _ (λ (u : User). not (same_id (some u.id) e.recommended_by_user_id)) who
          reviewers))
