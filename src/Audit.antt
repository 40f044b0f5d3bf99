-- ===== src/Audit.antt =====
-- services/audit_log_service.py: the log of actions, each entry signed over its fields and the
-- signature of the entry before it.
pub mod Appended
pub mod Tampering
use pos_pay.Base.{
  ℕ, zero, suc, Text, Bool, true, false, not, ◌&&◌, Option, none, some, List, [], ◌∷◌, ◌++◌, ◌==◌,
  ltb, if◌then◌else◌, select, text_eq,
}
use pos_pay.Store.Rows.{Uuid}

-- The arguments of `record_action`, with the time at which it is called. The metadata is the JSON
-- text of the dict, nothing where there is none or it is empty.
pub record Action : Type 0 where
  pub occurred_at : ℕ
  pub actor_user_id : Option Uuid
  pub channel : Text
  pub action : Text
  pub summary : Text
  pub resource_type : Text
  pub resource_id : Option Uuid
  pub metadata : Option Text

-- domain/audit_log_entry.py
pub record AuditLogEntry : Type 0 where
  pub id : Uuid
  pub tenant_id : Uuid
  pub fields : Action
  pub prev_entry_hash : Option Text
  pub entry_hash : Text

-- What the code calls: `isoformat` of an instant in UTC, `str` of an id, and the check of a
-- signature under the public key.
pub record AuditLib : Type 0 where
  pub isoformat : ℕ → Text
  pub str_id : Uuid → Text
  pub verify : Text → Text → Bool

-- `_FIELD_SEPARATOR`
abbrev pub separator : ℕ
separator = 31

abbrev pub or_empty : Option Text → Text
or_empty none = []
or_empty (some s) = s

abbrev pub id_text : AuditLib → Option Uuid → Text
id_text lib none = []
id_text lib (some i) = lib.str_id i

-- `_FIELD_SEPARATOR.join(parts)`, of a last part and the others before it.
abbrev pub join_before : List Text → Text → Text
join_before [] final = final
join_before (p ∷ parts) final = p ++ separator ∷ join_before parts final

abbrev pub parts_of : AuditLib → Action → List Text
parts_of lib a =
    lib.isoformat a.occurred_at
    ∷ id_text lib a.actor_user_id
    ∷ a.channel
    ∷ a.action
    ∷ a.summary
    ∷ a.resource_type
    ∷ id_text lib a.resource_id
    ∷ or_empty a.metadata
    ∷ []

-- The source encodes this text in UTF-8; here that is part of what `sign` and `verify` do.
unfoldable pub canonical_fields : AuditLib → Action → Option Text → Text
canonical_fields lib a prev = join_before (parts_of lib a) (or_empty prev)

-- Oldest first; entries of one instant in the order in which they are stored.
abbrev pub insert_by_time : AuditLogEntry → List AuditLogEntry → List AuditLogEntry
insert_by_time e [] = e ∷ []
insert_by_time e (x ∷ xs) =
    let rest = insert_by_time e xs in
    if ltb e.fields.occurred_at x.fields.occurred_at then e ∷ x ∷ xs else x ∷ rest

abbrev pub sort_into : List AuditLogEntry → List AuditLogEntry → List AuditLogEntry
sort_into sorted [] = sorted
sort_into sorted (e ∷ es) = sort_into (insert_by_time e sorted) es

unfoldable pub list_in_chain_order : Uuid → List AuditLogEntry → List AuditLogEntry
list_in_chain_order tenant_id log = sort_into [] (select (λ e. e.tenant_id == tenant_id) log)

-- The hash of the last entry: `latest` is the newest.
abbrev pub last_hash : Option Text → List AuditLogEntry → Option Text
last_hash prev [] = prev
last_hash prev (e ∷ es) = last_hash (some e.entry_hash) es

abbrev pub new_entry : AuditLib → (Text → Text) → Uuid → Uuid → Action → Option Text → AuditLogEntry
new_entry lib sign i tenant_id a prev = record {
  id = i;
  tenant_id = tenant_id;
  fields = a;
  prev_entry_hash = prev;
  entry_hash = sign (canonical_fields lib a prev);
}

-- `sign` is the library's under the private key, at this call.
unfoldable pub record_action :
    AuditLib → (Text → Text) → Uuid → Uuid → Action → List AuditLogEntry → List AuditLogEntry
record_action lib sign i tenant_id a log =
    log
    ++ new_entry lib sign i tenant_id a (last_hash none (list_in_chain_order tenant_id log)) ∷ []

pub data ChainVerificationResult : Type 0 where
  valid : ℕ → ChainVerificationResult
  broken : ℕ → Uuid → ChainVerificationResult

abbrev pub same_hash : Option Text → Option Text → Bool
same_hash none none = true
same_hash (some s) (some t) = text_eq s t
same_hash _ _ = false

-- An entry is linked to the hash before it, and its own hash is a signature of its fields.
unfoldable pub entry_valid : AuditLib → Option Text → AuditLogEntry → Bool
entry_valid lib prev e =
    same_hash e.prev_entry_hash prev
    && lib.verify (canonical_fields lib e.fields e.prev_entry_hash) e.entry_hash

unfoldable pub verify_from :
    AuditLib → Option Text → ℕ → List AuditLogEntry → ChainVerificationResult
verify_from lib prev index [] = valid index
verify_from lib prev index (e ∷ es) =
    let rest = verify_from lib (some e.entry_hash) (suc index) es in
    if entry_valid lib prev e then rest else broken index e.id

unfoldable pub verify_chain : AuditLib → Uuid → List AuditLogEntry → ChainVerificationResult
verify_chain lib tenant_id log = verify_from lib none 0 (list_in_chain_order tenant_id log)
