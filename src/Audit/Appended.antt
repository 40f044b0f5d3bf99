-- ===== src/Audit/Appended.antt =====
-- services/audit_log_service.py: a log that is only appended to verifies.
use pos_pay.Base.{
  ℕ, suc, ◌<◌, Text, Bool, true, Option, none, some, List, [], ◌∷◌, ◌++◌, ◌==◌, ==-refl, select,
  text_eq, All, ◌≡◌, refl, ap, ◌∙◌, arith, Bool-cases, inl, inr,
}
use pos_pay.Store.Rows.{Uuid}
use pos_pay.Audit.{
  Action, AuditLogEntry, AuditLib, canonical_fields, insert_by_time, sort_into, list_in_chain_order,
  last_hash, new_entry, record_action, valid, same_hash, entry_valid, verify_from, verify_chain,
}

pub text_eq_refl : (s : Text) → text_eq s s ≡ true
text_eq_refl [] = refl
text_eq_refl (c ∷ s) = ground (arith, text_eq_refl s)

same_hash_refl : (h : Option Text) → same_hash h h ≡ true
same_hash_refl none = refl
same_hash_refl (some s) = text_eq_refl s

-- An entry later than all others comes last.
insert-last :
    (e : AuditLogEntry) (xs : List AuditLogEntry)
    → All (λ x. x.fields.occurred_at < e.fields.occurred_at) xs
    → insert_by_time e xs ≡ xs ++ e ∷ []
insert-last e [] later = refl
insert-last e (x ∷ xs) later = ground (arith, insert-last e xs later.1, later.0)

sort_into-append :
    (sorted es : List AuditLogEntry) (e : AuditLogEntry)
    → sort_into sorted (es ++ e ∷ []) ≡ insert_by_time e (sort_into sorted es)
sort_into-append sorted [] e = refl
sort_into-append sorted (x ∷ es) e = sort_into-append (insert_by_time x sorted) es e

select-append_own :
    (p : AuditLogEntry → Bool) (es : List AuditLogEntry) (e : AuditLogEntry)
    → p e ≡ true
    → select p (es ++ e ∷ []) ≡ select p es ++ e ∷ []
select-append_own p [] e own = ground (arith, own)
select-append_own p (x ∷ es) e own = ground (arith, select-append_own p es e own)

verify_from-append :
    (lib : AuditLib) (prev : Option Text) (index n : ℕ) (es : List AuditLogEntry)
    (e : AuditLogEntry)
    → verify_from lib prev index es ≡ valid n
    → entry_valid lib (last_hash prev es) e ≡ true
    → verify_from lib prev index (es ++ e ∷ []) ≡ valid (suc n)
unfolding verify_from
verify_from-append lib prev index n [] e h own = ground (arith, h, own)
verify_from-append lib prev index n (x ∷ es) e h own = elim (Bool-cases (entry_valid lib prev x)) [
  | inr bad ↦ absurd (cc (rw bad at h))
  | inl good ↦
      rw good (verify_from-append lib (some x.entry_hash) (suc index) n es e (rw good at h) own)
]

-- What is recorded verifies: where the library verifies its own signatures, the chain of a tenant
-- is valid, and an action is recorded later than every entry in it, the chain is valid again, with
-- one entry more.
pub recorded_verifies :
    (lib : AuditLib) (sign : Text → Text) (i tenant_id : Uuid) (a : Action)
    (log : List AuditLogEntry) (n : ℕ)
    → ((s : Text) → lib.verify s (sign s) ≡ true)
    → All (λ e. e.fields.occurred_at < a.occurred_at) (list_in_chain_order tenant_id log)
    → verify_chain lib tenant_id log ≡ valid n
    → verify_chain lib tenant_id (record_action lib sign i tenant_id a log) ≡ valid (suc n)
unfolding verify_chain record_action list_in_chain_order entry_valid
recorded_verifies lib sign i tenant_id a log n signs later h =
    let prev = last_hash none (list_in_chain_order tenant_id log) in
    let e = new_entry lib sign i tenant_id a prev in
    ap (verify_from lib none 0) (
      ap (sort_into [])
        (select-append_own (λ x. x.tenant_id == tenant_id) log e (==-refl tenant_id))
      ∙ sort_into-append [] (select (λ x. x.tenant_id == tenant_id) log) e
      ∙ insert-last e (list_in_chain_order tenant_id log) later)
    ∙ verify_from-append lib none 0 n (list_in_chain_order tenant_id log) e h
        (rw (same_hash_refl prev) (signs (canonical_fields lib a prev)))
