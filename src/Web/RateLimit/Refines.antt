-- ===== src/Web/RateLimit/Refines.antt =====
-- web/rate_limit.py: the limiter lets through what the log lets through.
use pos_pay.Base.{
  ℕ, suc, ◌≤◌, String, Bool, true, false, List, [], ◌∷◌, ◌++◌, leb, if◌then◌else◌, select, ◌≡◌,
  refl, ap, sym, ◌∙◌, arith, Bool-cases, inl, inr,
}
use pos_pay.Web.RateLimit.{
  RateLimiter, Call, new_limiter, is_key, trim, sweep, is_stale, append_if, stale_after,
  sweep_every_n_calls, allowed, recorded, allow, let_through, sweep_when_due,
}
use pos_pay.Web.RateLimit.Log.{
  is_recent, times, log_allows, log_let_through, IsOrdered, Sorted, Follows, select_later,
  same_later, trim-select, stale_expired, times-append, Sorted-later, Sorted-trim, Sorted-append_if,
  select-append_now, logged, allowed-log_allows, is_key_refl, is_key-subst,
}

-- One call, on both sides.
same-append_if :
    (b : Bool) (now w : ℕ) (hs ks : List ℕ)
    → select (is_recent now w) hs ≡ select (is_recent now w) ks
    → select (is_recent now w) (append_if b now hs) ≡ select (is_recent now w) (append_if b now ks)
same-append_if true now w hs ks e =
    select-append_now now w hs ∙ ap (λ l. l ++ now ∷ []) e ∙ sym (select-append_now now w ks)
same-append_if false now w hs ks e = e

times-logged_own :
    (key bucket : String) (c : Call) (log : List Call) (b : Bool)
    → is_key c key bucket ≡ true
    → times key bucket (if b then log ++ c ∷ [] else log) ≡ append_if b c.now (times key bucket log)
times-logged_own key bucket c log true e =
    times-append key bucket log c ∙ ap (λ b. append_if b c.now (times key bucket log)) e
times-logged_own key bucket c log false e = refl

times-logged_other :
    (key bucket : String) (c : Call) (log : List Call) (b : Bool)
    → is_key c key bucket ≡ false
    → times key bucket (if b then log ++ c ∷ [] else log) ≡ times key bucket log
times-logged_other key bucket c log true e =
    times-append key bucket log c ∙ ap (λ b. append_if b c.now (times key bucket log)) e
times-logged_other key bucket c log false e = refl

module _ (window_of : String → ℕ) (t : ℕ) (c : Call) (l : RateLimiter) (log : List Call) where
  -- The hits that still count, for one key and bucket, after a call.
  abbrev SameAfter : String → String → Type 0
  SameAfter key bucket =
      select (is_recent c.now (window_of bucket)) ((recorded c l).hits key bucket)
      ≡ select (is_recent c.now (window_of bucket)) (times key bucket (logged c log))

  same-own :
      t ≤ c.now
      → c.window ≡ window_of c.bucket
      → Follows window_of t l log
      → SameAfter c.key c.bucket
  unfolding recorded
  same-own le own f =
      let w = window_of c.bucket in
      let hs = l.hits c.key c.bucket in
      ap
        (λ b.
          select (is_recent c.now w)
            (if b then append_if (allowed c l) c.now (trim c.now c.window hs) else hs))
        (is_key_refl c)
      ∙ ap (λ b. select (is_recent c.now w) (append_if b c.now (trim c.now c.window hs)))
          (allowed-log_allows window_of t c l log le own f)
      ∙ same-append_if (log_allows c log) c.now w _ _ (
          ap (λ v. select (is_recent c.now w) (trim c.now v hs)) own
          ∙ ap (select (is_recent c.now w)) (trim-select t c.now w hs (f.sorted c.key c.bucket))
          ∙ select_later c.now c.now w hs (omega arith)
          ∙ same_later t c.now w _ _ le (f.same c.key c.bucket))
      ∙ sym (
          ap (select (is_recent c.now w))
            (times-logged_own c.key c.bucket c log (log_allows c log) (is_key_refl c)))

  same-other :
      (key bucket : String)
      → t ≤ c.now
      → Follows window_of t l log
      → is_key c key bucket ≡ false
      → SameAfter key bucket
  unfolding recorded
  same-other key bucket le f other =
      let w = window_of bucket in
      ap
        (λ b. select (is_recent c.now w) (
          if b
          then append_if (allowed c l) c.now (trim c.now c.window (l.hits c.key c.bucket))
          else l.hits key bucket))
        other
      ∙ same_later t c.now w _ _ le (f.same key bucket)
      ∙ sym (
          ap (select (is_recent c.now w))
            (times-logged_other key bucket c log (log_allows c log) other))

  same_after :
      (key bucket : String)
      → t ≤ c.now
      → c.window ≡ window_of c.bucket
      → Follows window_of t l log
      → SameAfter key bucket
  same_after key bucket le own f = elim (Bool-cases (is_key c key bucket)) [
    | inr other ↦ same-other key bucket le f other
    | inl same ↦ is_key-subst SameAfter c key bucket same (same-own le own f)
  ]

  recorded-Sorted :
      (key bucket : String)
      → t ≤ c.now
      → Follows window_of t l log
      → Sorted c.now ((recorded c l).hits key bucket)
  unfolding recorded
  recorded-Sorted key bucket le f = elim (Bool-cases (is_key c key bucket)) [
    | inl e ↦ rw e (
        Sorted-append_if (allowed c l) c.now _
          (Sorted-trim t c.now c.window (l.hits c.key c.bucket) le (f.sorted c.key c.bucket)))
    | inr e ↦ rw e (Sorted-later t c.now (l.hits key bucket) le (f.sorted key bucket))
  ]

  recorded-Follows :
      t ≤ c.now
      → c.window ≡ window_of c.bucket
      → Follows window_of t l log
      → Follows window_of c.now (recorded c l) (logged c log)
  recorded-Follows le own f = record {
    sorted = λ key bucket. recorded-Sorted key bucket le f;
    same = λ key bucket. same_after key bucket le own f;
  }

-- The sweep drops nothing that counts.
sweep-Follows :
    (window_of : String → ℕ) (now : ℕ) (l : RateLimiter) (log : List Call)
    → ((bucket : String) → window_of bucket ≤ stale_after)
    → Follows window_of now l log
    → Follows window_of now (sweep_when_due now l) log
unfolding sweep
sweep-Follows window_of now l log short f =
    elim (Bool-cases (leb sweep_every_n_calls (suc l.calls_since_sweep))) [
      | inr e ↦ rw e (record { sorted = f.sorted; same = f.same })
      | inl e ↦ rw e (record {
        sorted = λ key bucket. elim (Bool-cases (is_stale now (l.hits key bucket))) [
          | inl stale ↦ rw stale tt
          | inr fresh ↦ rw fresh (f.sorted key bucket)
        ];
        same = λ key bucket. elim (Bool-cases (is_stale now (l.hits key bucket))) [
          | inl stale ↦ rw stale (
              sym (
                stale_expired now now (window_of bucket) (l.hits key bucket) (short bucket)
                  (f.sorted key bucket) stale)
              ∙ f.same key bucket)
          | inr fresh ↦ rw fresh (f.same key bucket)
        ];
      })
    ]

-- t
let_through-log :
    (window_of : String → ℕ) (t : ℕ) (calls : List Call) (l : RateLimiter) (log : List Call)
    → ((bucket : String) → window_of bucket ≤ stale_after)
    → IsOrdered window_of t calls
    → Follows window_of t l log
    → let_through calls l ≡ log_let_through calls log
unfolding let_through allow
let_through-log window_of t [] l log short ordered f = refl
let_through-log window_of t (c ∷ calls) l log short ordered f =
    let next = sweep_when_due c.now (recorded c l) in
    let rest = let_through-log window_of c.now calls next (logged c log) short ordered.1.1 (
      sweep-Follows window_of c.now (recorded c l) (logged c log) short
        (recorded-Follows window_of t c l log ordered.0 ordered.1.0 f)) in
    let same = allowed-log_allows window_of t c l log ordered.0 ordered.1.0 f in
    ap (λ b. if b then c ∷ let_through calls next else let_through calls next) same
    ∙ ap (λ r. if log_allows c log then c ∷ r else r) rest

new_limiter-Follows : (window_of : String → ℕ) → Follows window_of 0 new_limiter []
new_limiter-Follows window_of = record { sorted = λ key bucket. tt; same = λ key bucket. refl }

-- The limiter forgets nothing that counts: for calls in the order of the clock, each with its
-- bucket's own window, and windows no longer than what the sweep takes for stale, it lets through
-- the same calls as a log that keeps every call let through and looks for fewer than the limit of
-- the same key and bucket within the window.
pub limiter_refines_log :
    (window_of : String → ℕ) (calls : List Call)
    → ((bucket : String) → window_of bucket ≤ stale_after)
    → IsOrdered window_of 0 calls
    → let_through calls new_limiter ≡ log_let_through calls []
limiter_refines_log window_of calls short ordered =
    let_through-log window_of 0 calls new_limiter [] short ordered (new_limiter-Follows window_of)
