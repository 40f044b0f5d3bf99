-- ===== src/Tests/AuditRuns.antt =====
-- The log of actions: an entry appended, and a chain that is accepted.
use pos_pay.Base.{
  Text, ◌&&◌, none, some, List, [], ◌∷◌, map, codes, text_eq, text_eq→eq, ◌≡◌, refl, sym, subst,
  ◌∙◌, arith,
}
use pos_pay.Audit.{
  Action, AuditLogEntry, AuditLib, canonical_fields, list_in_chain_order, new_entry, record_action,
  valid, entry_valid, verify_from, verify_chain,
}
use pos_pay.Audit.Appended.{text_eq_refl, recorded_verifies}
use pos_pay.Audit.Tampering.{IsSigning, after_separator, newest_first, signed, same_head_same_log}

-- A library whose signatures are the texts themselves.
abbrev plain_lib : AuditLib
plain_lib = record { isoformat = λ t. t ∷ []; str_id = λ i. i ∷ []; verify = text_eq }

abbrev voiding : Action
voiding = record {
  occurred_at = 1000;
  actor_user_id = some 70;
  channel = codes "web";
  action = codes "issued_item.void";
  summary = codes "Check 1001 voided";
  resource_type = codes "issued_item";
  resource_id = some 20;
  metadata = none;
}

abbrev one_entry : List AuditLogEntry
one_entry = record_action plain_lib (λ s. s) 300 1 voiding []

one_verifies : verify_chain plain_lib 1 one_entry ≡ valid 1
unfolding verify_chain verify_from entry_valid record_action list_in_chain_order canonical_fields
one_verifies = refl

recorded_verifies_example :
    verify_chain plain_lib 1
      (record_action plain_lib (λ s. s) 301 1 (record voiding { occurred_at = 1001 }) one_entry)
    ≡ valid 2
unfolding record_action list_in_chain_order
recorded_verifies_example =
    recorded_verifies plain_lib (λ s. s) 301 1 (record voiding { occurred_at = 1001 }) one_entry 1
      text_eq_refl (omega arith, tt) one_verifies

-- A library that accepts one signature of one text.
abbrev signed_text : Text
signed_text = canonical_fields plain_lib voiding none

abbrev one_signature : AuditLib
one_signature = record plain_lib {
  verify = λ s sig. text_eq s signed_text && text_eq sig (codes "3045");
}

one_signature-IsSigning : IsSigning one_signature
one_signature-IsSigning = record {
  one_text = λ s t sig h k.
      text_eq→eq s signed_text (ground arith) ∙ sym (text_eq→eq t signed_text (ground arith));
  not_empty = λ s. ground arith;
  plain = λ s sig h.
      subst (λ g. after_separator g ≡ none) (sym (text_eq→eq sig (codes "3045") (ground arith)))
        refl;
}

abbrev signed_log : List AuditLogEntry
signed_log = new_entry one_signature (λ s. codes "3045") 300 1 voiding none ∷ []

signed_log_verifies : verify_chain one_signature 1 signed_log ≡ valid 1
unfolding verify_chain verify_from entry_valid list_in_chain_order canonical_fields
signed_log_verifies = refl

-- The same log under another id of the row, which is not signed.
abbrev copied_log : List AuditLogEntry
copied_log = new_entry one_signature (λ s. codes "3045") 999 1 voiding none ∷ []

copied_log_verifies : verify_chain one_signature 1 copied_log ≡ valid 1
unfolding verify_chain verify_from entry_valid list_in_chain_order canonical_fields
copied_log_verifies = refl

same_head_same_log_example :
    map (signed one_signature) (newest_first (list_in_chain_order 1 signed_log))
    ≡ map (signed one_signature) (newest_first (list_in_chain_order 1 copied_log))
unfolding list_in_chain_order
same_head_same_log_example =
    same_head_same_log one_signature 1 signed_log copied_log 1 1 one_signature-IsSigning
      signed_log_verifies copied_log_verifies refl
