-- ===== src/Notify.antt =====
-- services/notification_service.py: who is told of an exception, and which rows are queued.
pub mod Recipients
pub mod Frame
pub mod Preferences
use pos_pay.Base.{
  ℕ, String, Bool, true, false, not, ◌&&◌, ◌||◌, Option, none, some, List, [], ◌∷◌, ◌++◌, ◌==◌,
  if◌then◌else◌, select, find, any, update, str_eq, same_id, is_some, is_none, when,
}
use pos_pay.Store.Rows.{Uuid, ExceptionItem}
use pos_pay.Store.Db.{
  Db, TenantMembership, SecurityGroup, User, Notification, NotificationType, NotificationChannel,
  NotificationPreference,
}
use pos_pay.Store.Exec.{
  Exec, Result, ok, err, pure, reads, modify, one_or_none, and_then, ◌>>=◌, ◌>>◌,
}

-- The scope filter: bank-wide staff always, a customer's own staff for that customer's items.
abbrev pub in_audience : Uuid → Option Uuid → TenantMembership → Bool
in_audience tenant_id customer_id m =
    m.tenant_id == tenant_id
    && (m.is_active && elim customer_id [
      | none ↦ is_none m.customer_id
      | some c ↦ same_id m.customer_id (some c) || is_none m.customer_id
    ])

-- `recipients[user.id] = user`: a dict keeps the place of the first entry.
abbrev pub put_user : User → List User → List User
put_user u [] = u ∷ []
put_user u (v ∷ vs) = if v.id == u.id then u ∷ vs else v ∷ put_user u vs

-- The joined group and user of a membership, where both rows exist.
abbrev pub with_user : String → Option SecurityGroup → Option User → List User → List User
with_user permission none user vs = vs
with_user permission (some group) none vs = vs
with_user permission (some group) (some u) vs =
    if any (str_eq permission) group.permissions then put_user u vs else vs

unfoldable pub collect : Db → String → List TenantMembership → List User → List User
collect db permission [] vs = vs
collect db permission (m ∷ ms) vs = collect db permission ms (
    with_user permission (find (λ g. g.id == m.security_group_id) db.groups)
      (find (λ u. u.id == m.user_id) db.users) vs)

unfoldable pub recipients_for_permission : Uuid → String → Option Uuid → Db → List User
recipients_for_permission tenant_id permission customer_id db =
    collect db permission (select (in_audience tenant_id customer_id) db.memberships) []

abbrev pub same_type : NotificationType → NotificationType → Bool
same_type NotificationType.exception_created NotificationType.exception_created = true
same_type NotificationType.recommendation_awaiting_approval
      NotificationType.recommendation_awaiting_approval =
    true
same_type NotificationType.account_locked NotificationType.account_locked = true
same_type NotificationType.account_unlocked NotificationType.account_unlocked = true
same_type NotificationType.exception_auto_decided NotificationType.exception_auto_decided = true
same_type NotificationType.password_changed NotificationType.password_changed = true
same_type _ _ = false

-- `_ALWAYS_EMAIL_TYPES`
abbrev pub is_always_email : NotificationType → Bool
is_always_email NotificationType.account_locked = true
is_always_email NotificationType.password_changed = true
is_always_email _ = false

abbrev email_enabled : NotificationType → Option NotificationPreference → Bool
email_enabled t none = true
email_enabled t (some pref) = is_always_email t || pref.email_enabled

abbrev sms_enabled : Option NotificationPreference → Bool
sms_enabled none = false
sms_enabled (some pref) = pref.sms_enabled

-- (email_enabled, sms_enabled)
unfoldable pub effective_preference : Uuid → NotificationType → Db → Result (Bool × Bool)
effective_preference user_id t db =
    and_then
      (one_or_none
        (select (λ p. p.user_id == user_id && same_type p.notification_type t) db.preferences))
      λ pref. ok (email_enabled t pref, sms_enabled pref)

abbrev pub notice :
    Option Uuid → User → NotificationType → NotificationChannel → String → Uuid → Notification
notice tenant_id u t channel destination resource_id = record {
  tenant_id = tenant_id;
  recipient_user_id = u.id;
  notification_type = t;
  channel = channel;
  destination = destination;
  resource_id = some resource_id;
}

-- `if sms_enabled and recipient.phone`
abbrev pub sms_notices :
    Option Uuid → User → NotificationType → Uuid → Bool → Option String → List Notification
sms_notices tenant_id u t resource_id false phone = []
sms_notices tenant_id u t resource_id true none = []
sms_notices tenant_id u t resource_id true (some phone) =
    if str_eq phone ""
    then []
    else notice tenant_id u t NotificationChannel.sms phone resource_id ∷ []

unfoldable pub queue : Option Uuid → User → NotificationType → Uuid → Exec (Unit {0})
queue tenant_id u t resource_id = do
  enabled ← reads (effective_preference u.id t)
  modify (λ db. record db {
    notifications =
        db.notifications
        ++ (when enabled.0 (notice tenant_id u t NotificationChannel.email u.email resource_id)
            ++ sms_notices tenant_id u t resource_id enabled.1 u.phone);
  })

unfoldable pub queue_all : Option Uuid → NotificationType → Uuid → List User → Exec (Unit {0})
queue_all tenant_id t resource_id [] = pure tt
queue_all tenant_id t resource_id (u ∷ us) = do
  queue tenant_id u t resource_id
  queue_all tenant_id t resource_id us

unfoldable pub notify_exception_created : ExceptionItem → Exec (Unit {0})
notify_exception_created e db =
    queue_all (some e.tenant_id) NotificationType.exception_created e.id
      (recipients_for_permission e.tenant_id "exception:recommend" e.customer_id db) db

-- The maker is passed over.
unfoldable pub notify_recommendation_awaiting_approval : ExceptionItem → Exec (Unit {0})
notify_recommendation_awaiting_approval e db =
    queue_all (some e.tenant_id) NotificationType.recommendation_awaiting_approval e.id
      (select (λ u. not (same_id (some u.id) e.recommended_by_user_id))
        (recipients_for_permission e.tenant_id "exception:decide" e.customer_id db))
      db

unfoldable pub notify_exception_auto_decided : ExceptionItem → Exec (Unit {0})
notify_exception_auto_decided e db =
    queue_all (some e.tenant_id) NotificationType.exception_auto_decided e.id
      (recipients_for_permission e.tenant_id "exception:decide" e.customer_id db) db

-- The notices on a user's own account: no tenant, and the user is the recipient.
unfoldable pub notify_account_locked : User → Exec (Unit {0})
notify_account_locked u = queue none u NotificationType.account_locked u.id

unfoldable pub notify_account_unlocked : User → Exec (Unit {0})
notify_account_unlocked u = queue none u NotificationType.account_unlocked u.id

unfoldable pub notify_password_changed : User → Exec (Unit {0})
notify_password_changed u = queue none u NotificationType.password_changed u.id

abbrev pub is_preference_for : Uuid → NotificationType → NotificationPreference → Bool
is_preference_for user_id t p = p.user_id == user_id && same_type p.notification_type t

abbrev pub new_preference : Uuid → NotificationType → Bool → Bool → NotificationPreference
new_preference user_id t email sms = record {
  user_id = user_id;
  notification_type = t;
  email_enabled = email;
  sms_enabled = sms;
}

-- The row that there is, changed, or a new one.
abbrev pub put_preference :
    Uuid
    → NotificationType
    → Bool
    → Bool
    → Option NotificationPreference
    → Exec NotificationPreference
put_preference user_id t email sms none = do
  modify
      (λ db. record db { preferences = db.preferences ++ new_preference user_id t email sms ∷ [] })
  pure (new_preference user_id t email sms)
put_preference user_id t email sms (some p) = do
  modify (λ db. record db {
    preferences =
        update (is_preference_for user_id t)
          (λ q. record q { email_enabled = email; sms_enabled = sms }) db.preferences;
  })
  pure (record p { email_enabled = email; sms_enabled = sms })

unfoldable pub set_preference : Uuid → NotificationType → Bool → Bool → Exec NotificationPreference
set_preference user_id t email sms = do
  found ← reads (λ db. one_or_none (select (is_preference_for user_id t) db.preferences))
  put_preference user_id t email sms found

-- `phone or None`
abbrev phone_or_none : Option String → Option String
phone_or_none none = none
phone_or_none (some phone) = if str_eq phone "" then none else some phone

unfoldable pub set_phone : User → Option String → Exec (Unit {0})
set_phone u phone = modify (λ db. record db {
  users = update (λ x. x.id == u.id) (λ x. record x { phone = phone_or_none phone }) db.users;
})
