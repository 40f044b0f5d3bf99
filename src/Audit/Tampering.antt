-- ===== src/Audit/Tampering.antt =====
-- services/audit_log_service.py: what an accepted chain proves.
use pos_pay.Base.{
  ℕ, suc, Text, true, false, Option, none, some, List, [], ◌∷◌, ◌++◌, ◌==◌, map, if◌then◌else◌,
  text_eq→eq, ◌≡◌, ◌≢◌, refl, ap, sym, subst, ◌∙◌, arith, Bool-cases, inl, inr,
}
use pos_pay.Store.Rows.{Uuid}
use pos_pay.Audit.{
  AuditLogEntry, AuditLib, separator, or_empty, id_text, join_before, parts_of, canonical_fields,
  list_in_chain_order, last_hash, valid, same_hash, entry_valid, verify_from, verify_chain,
}

-- What stands after the last separator of a text.
abbrev later_or : Option Text → Option Text → Option Text
later_or none o = o
later_or (some t) o = some t

abbrev pub after_separator : Text → Option Text
after_separator [] = none
after_separator (c ∷ s) = later_or (after_separator s) (if c == separator then some s else none)

after_separator-append :
    (p s : Text) {t : Text} → after_separator s ≡ some t → after_separator (p ++ s) ≡ some t
after_separator-append [] s h = h
after_separator-append (c ∷ p) s h =
    ap (λ o. later_or o (if c == separator then some (p ++ s) else none))
      (after_separator-append p s h)

-- The last part of a joined text is what stands after its last separator.
after_separator-join_before :
    (p : Text) (parts : List Text) (final : Text)
    → after_separator final ≡ none
    → after_separator (join_before (p ∷ parts) final) ≡ some final
after_separator-join_before p [] final h =
    after_separator-append p (separator ∷ final) (ap (λ o. later_or o (some final)) h)
after_separator-join_before p (q ∷ parts) final h =
    after_separator-append p (separator ∷ join_before (q ∷ parts) final) (
      ap (λ o. later_or o (some (join_before (q ∷ parts) final)))
        (after_separator-join_before q parts final h))

-- What the theorem relies on: a signature verifies one text only, is not empty, and has no
-- separator in it, being hexadecimal.
pub record IsSigning (lib : AuditLib) : Type 0 where
  pub one_text : (s t sig : Text) → lib.verify s sig ≡ true → lib.verify t sig ≡ true → s ≡ t
  pub not_empty : (s : Text) → lib.verify s [] ≡ false
  pub plain : (s sig : Text) → lib.verify s sig ≡ true → after_separator sig ≡ none

-- An accepted chain, its newest entry first.
abbrev newest_hash : List AuditLogEntry → Option Text
newest_hash [] = none
newest_hash (e ∷ older) = some e.entry_hash

abbrev Linked : AuditLib → List AuditLogEntry → Type 0
Linked lib [] = Unit
Linked lib (e ∷ older) = (entry_valid lib (newest_hash older) e ≡ true) × Linked lib older

-- What was signed, and the signature.
abbrev pub signed : AuditLib → AuditLogEntry → Text × Text
signed lib e = (canonical_fields lib e.fields e.prev_entry_hash, e.entry_hash)

same_hash-eq : (g h : Option Text) → same_hash g h ≡ true → g ≡ h
same_hash-eq none none e = refl
same_hash-eq none (some t) e = cc
same_hash-eq (some s) none e = cc
same_hash-eq (some s) (some t) e = ap some (text_eq→eq s t e)

abbrev rev_onto : List AuditLogEntry → List AuditLogEntry → List AuditLogEntry
rev_onto done [] = done
rev_onto done (e ∷ es) = rev_onto (e ∷ done) es

abbrev pub newest_first : List AuditLogEntry → List AuditLogEntry
newest_first = rev_onto []

verify_from-Linked :
    (lib : AuditLib) (done es : List AuditLogEntry) (index n : ℕ)
    → verify_from lib (newest_hash done) index es ≡ valid n
    → Linked lib done
    → Linked lib (rev_onto done es)
unfolding verify_from
verify_from-Linked lib done [] index n h l = l
verify_from-Linked lib done (e ∷ es) index n h l =
    elim (Bool-cases (entry_valid lib (newest_hash done) e)) [
      | inr bad ↦ absurd (cc (rw bad at h))
      | inl good ↦ verify_from-Linked lib (e ∷ done) es (suc index) n (rw good at h) (good, l)
    ]

newest_hash-last_hash :
    (done es : List AuditLogEntry)
    → newest_hash (rev_onto done es) ≡ last_hash (newest_hash done) es
newest_hash-last_hash done [] = refl
newest_hash-last_hash done (e ∷ es) = newest_hash-last_hash (e ∷ done) es

some-eq : (s t : Text) → ◌≡◌ {A = Option Text} (some s) (some t) → s ≡ t
some-eq s t e = cc

module _ (lib : AuditLib) (s : IsSigning lib) where
  -- The link and the signature of an entry that is accepted.
  link_of :
      (prev : Option Text) (e : AuditLogEntry)
      → entry_valid lib prev e ≡ true
      → (e.prev_entry_hash ≡ prev)
        × (lib.verify (canonical_fields lib e.fields e.prev_entry_hash) e.entry_hash ≡ true)
  unfolding entry_valid
  link_of prev e h = (same_hash-eq e.prev_entry_hash prev (ground arith), ground arith)

  plain_newest :
      (older : List AuditLogEntry)
      → Linked lib older
      → after_separator (or_empty (newest_hash older)) ≡ none
  plain_newest [] l = refl
  plain_newest (e ∷ older) l = s.plain _ e.entry_hash (link_of (newest_hash older) e l.0).1

  no_empty :
      (e : AuditLogEntry) (older : List AuditLogEntry) → Linked lib (e ∷ older) → e.entry_hash ≢ []
  no_empty e older l empty =
      let ok = (link_of (newest_hash older) e l.0).1 in
      let text = canonical_fields lib e.fields e.prev_entry_hash in
      cc (s.not_empty text, subst (λ h. lib.verify text h ≡ true) empty ok)

  same_newest :
      (xs ys : List AuditLogEntry)
      → Linked lib xs
      → Linked lib ys
      → or_empty (newest_hash xs) ≡ or_empty (newest_hash ys)
      → newest_hash xs ≡ newest_hash ys
  same_newest [] [] l k e = refl
  same_newest [] (y ∷ ys) l k e = absurd (no_empty y ys k (sym e))
  same_newest (x ∷ xs) [] l k e = absurd (no_empty x xs l e)
  same_newest (x ∷ xs) (y ∷ ys) l k e = ap some e

  -- The hash before an entry can be read off what was signed.
  previous :
      (e : AuditLogEntry) (older : List AuditLogEntry)
      → Linked lib (e ∷ older)
      → after_separator (canonical_fields lib e.fields e.prev_entry_hash)
        ≡ some (or_empty (newest_hash older))
  unfolding canonical_fields
  previous e older l =
      let linked = (link_of (newest_hash older) e l.0).0 in
      subst
        (λ p.
          after_separator (join_before (parts_of lib e.fields) (or_empty p))
          ≡ some (or_empty (newest_hash older)))
        (sym linked)
        (after_separator-join_before (lib.isoformat e.fields.occurred_at)
          (id_text lib e.fields.actor_user_id
            ∷ e.fields.channel
            ∷ e.fields.action
            ∷ e.fields.summary
            ∷ e.fields.resource_type
            ∷ id_text lib e.fields.resource_id
            ∷ or_empty e.fields.metadata
            ∷ [])
          (or_empty (newest_hash older)) (plain_newest older l.1))

  same_chain :
      (xs ys : List AuditLogEntry)
      → Linked lib xs
      → Linked lib ys
      → newest_hash xs ≡ newest_hash ys
      → map (signed lib) xs ≡ map (signed lib) ys
  same_chain [] [] l k e = refl
  same_chain [] (y ∷ ys) l k e = cc
  same_chain (x ∷ xs) [] l k e = cc
  same_chain (x ∷ xs) (y ∷ ys) l k e =
      let hash : x.entry_hash ≡ y.entry_hash = cc in
      let x_signed = (link_of (newest_hash xs) x l.0).1 in
      let y_signed = (link_of (newest_hash ys) y k.0).1 in
      let text =
        s.one_text _ _ y.entry_hash
          (subst (λ h. lib.verify (canonical_fields lib x.fields x.prev_entry_hash) h ≡ true) hash
            x_signed)
          y_signed in
      let before : or_empty (newest_hash xs) ≡ or_empty (newest_hash ys) =
        some-eq _ _ (sym (previous x xs l) ∙ ap after_separator text ∙ previous y ys k) in
      let rest = same_chain xs ys l.1 k.1 (same_newest xs ys l.1 k.1 before) in
      ap (λ t. (t, x.entry_hash) ∷ map (signed lib) xs) text
      ∙ ap (λ h. (canonical_fields lib y.fields y.prev_entry_hash, h) ∷ map (signed lib) xs) hash
      ∙ ap (λ l. signed lib y ∷ l) rest

-- The newest hash fixes the log: where a signature verifies one text only, is not empty and holds
-- no separator, two logs of a tenant that both verify and have the same newest hash hold, in the
-- same order, the same signed texts under the same signatures.
pub same_head_same_log :
    (lib : AuditLib) (tenant_id : Uuid) (log log' : List AuditLogEntry) (n m : ℕ)
    → IsSigning lib
    → verify_chain lib tenant_id log ≡ valid n
    → verify_chain lib tenant_id log' ≡ valid m
    → last_hash none (list_in_chain_order tenant_id log)
      ≡ last_hash none (list_in_chain_order tenant_id log')
    → map (signed lib) (newest_first (list_in_chain_order tenant_id log))
      ≡ map (signed lib) (newest_first (list_in_chain_order tenant_id log'))
unfolding verify_chain
same_head_same_log lib tenant_id log log' n m s h k same =
    let xs = list_in_chain_order tenant_id log in
    let ys = list_in_chain_order tenant_id log' in
    same_chain lib s (newest_first xs) (newest_first ys) (verify_from-Linked lib [] xs 0 n h tt)
      (verify_from-Linked lib [] ys 0 m k tt)
      (newest_hash-last_hash [] xs ∙ same ∙ sym (newest_hash-last_hash [] ys))
