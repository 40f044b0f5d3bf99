-- ===== src/Notify/Preferences.antt =====
-- A preference that is set is the one that takes effect, except that mail on an account's security
-- cannot be switched off.
use pos_pay.Base.{
  Bool, true, ◌||◌, Option, List, [], ◌∷◌, ◌++◌, ◌≡◌, refl, ap, ◌∙◌, ◌⊎◌, inl, inr, arith,
  Bool-cases, select, update, ==-refl,
}
use pos_pay.Store.Rows.{Uuid}
use pos_pay.Store.Db.{Db, NotificationType, NotificationPreference}
use pos_pay.Store.Exec.{ok, Result-cases, one_or_none}
use pos_pay.Notify.{
  is_always_email, same_type, is_preference_for, new_preference, set_preference,
  effective_preference,
}

same_type_refl : (t : NotificationType) → same_type t t ≡ true
same_type_refl NotificationType.exception_created = refl
same_type_refl NotificationType.recommendation_awaiting_approval = refl
same_type_refl NotificationType.account_locked = refl
same_type_refl NotificationType.account_unlocked = refl
same_type_refl NotificationType.exception_auto_decided = refl
same_type_refl NotificationType.password_changed = refl

new_is_for :
    (u : Uuid) (t : NotificationType) (email sms : Bool)
    → is_preference_for u t (new_preference u t email sms) ≡ true
new_is_for u t email sms = ground (arith, ==-refl u, same_type_refl t)

select-append_nil :
    (p : NotificationPreference → Bool) (ps : List NotificationPreference)
    (q : NotificationPreference)
    → select p ps ≡ []
    → p q ≡ true
    → select p (ps ++ q ∷ []) ≡ q ∷ []
select-append_nil p [] q h k = ground arith
select-append_nil p (x ∷ ps) q h k = elim (Bool-cases (p x)) [
  | inl e ↦ ground arith
  | inr e ↦ ground (arith, select-append_nil p ps q (rw e at h) k)
]

-- An assignment to the rows that a query keeps, which keeps them in the query.
abbrev map_rows :
    (NotificationPreference → NotificationPreference)
    → List NotificationPreference
    → List NotificationPreference
map_rows f [] = []
map_rows f (x ∷ xs) = f x ∷ map_rows f xs

select-update :
    (p : NotificationPreference → Bool) (f : NotificationPreference → NotificationPreference)
    (ps : List NotificationPreference)
    → ((x : NotificationPreference) → p (f x) ≡ p x)
    → select p (update p f ps) ≡ map_rows f (select p ps)
select-update p f [] h = refl
select-update p f (x ∷ ps) h = elim (Bool-cases (p x)) [
  | inl e ↦ ground (arith, h x, select-update p f ps h)
  | inr e ↦ ground (arith, select-update p f ps h)
]

effective_of_row :
    (u : Uuid) (t : NotificationType) (q : NotificationPreference) (db : Db)
    → select (is_preference_for u t) db.preferences ≡ q ∷ []
    → effective_preference u t db ≡ ok (is_always_email t || q.email_enabled, q.sms_enabled)
unfolding effective_preference
effective_of_row u t q db one = rw one

-- The rows of a query that returns one row or none.
one_or_none_rows :
    (xs : List NotificationPreference) {o : Option NotificationPreference}
    → one_or_none xs ≡ ok o
    → (xs ≡ []) ⊎ ((x : NotificationPreference) × (xs ≡ x ∷ []))
one_or_none_rows [] h = inl refl
one_or_none_rows (x ∷ []) h = inr (x, refl)
one_or_none_rows (x ∷ y ∷ xs) h = cc

-- What a query for the preference finds after it was set.
set_preference_row :
    (u : Uuid) (t : NotificationType) (email sms : Bool) (db : Db) {p : NotificationPreference}
    → (set_preference u t email sms db).0 ≡ ok p
    → (q : NotificationPreference) × (select
          (is_preference_for u t)
          (set_preference u t email sms db).1.preferences
        ≡ q ∷ [])
      × (q.email_enabled ≡ email)
      × (q.sms_enabled ≡ sms)
unfolding set_preference
set_preference_row u t email sms db h =
    let rows = select (is_preference_for u t) db.preferences in
    elim (Result-cases (one_or_none rows)) [
      | inr (x, raised) ↦ ground arith
      | inl (o, got) ↦ elim (one_or_none_rows rows got) [
        | inl nothing ↦ (
          new_preference u t email sms,
          ground (
            arith,
            select-append_nil (is_preference_for u t) db.preferences (new_preference u t email sms)
                nothing (new_is_for u t email sms),
          ),
          refl,
          refl,
        )
        | inr (x, one) ↦ (
          record x { email_enabled = email; sms_enabled = sms },
          ground (
            arith,
            select-update (is_preference_for u t)
                (λ q. record q { email_enabled = email; sms_enabled = sms }) db.preferences
                (λ q. refl),
          ),
          refl,
          refl,
        )
      ]
    ]

-- A notification preference that is set takes effect: where `set_preference` returns, the channels
-- in effect are those that were set, except that mail on a locked account or a changed password
-- stays on.
pub set_then_effective :
    (u : Uuid) (t : NotificationType) (email sms : Bool) (db : Db) {p : NotificationPreference}
    → (set_preference u t email sms db).0 ≡ ok p
    → effective_preference u t (set_preference u t email sms db).1
      ≡ ok (is_always_email t || email, sms)
set_then_effective u t email sms db h =
    let (q, one, mail, text) = set_preference_row u t email sms db h in
    effective_of_row u t q (set_preference u t email sms db).1 one
    ∙ ap (λ e. ok (is_always_email t || e, q.sms_enabled)) mail
    ∙ ap (λ b. ok (is_always_email t || email, b)) text
