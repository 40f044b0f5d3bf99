-- ===== src/Web/RateLimit/Window.antt =====
-- web/rate_limit.py: how many calls are let through in one window.
use pos_pay.Base.{
  ℕ, suc, ◌≤◌, String, Bool, true, false, List, [], ◌∷◌, ◌++◌, length, select, All, subst, ◌≡◌, ap,
  sym, ◌∙◌, arith, Bool-cases, ◌<◌, ltb→lt, append_nil, append_assoc, length-append, inl, inr,
}
use pos_pay.Web.RateLimit.{Call, new_limiter, is_key, append_if, stale_after, let_through}
use pos_pay.Web.RateLimit.Log.{
  is_recent, times, log_allows, log_let_through, logged, IsOrdered, select_later, times-append,
  is_key_refl, is_key-subst, select-append_now,
}
use pos_pay.Web.RateLimit.Refines.{limiter_refines_log}

-- How many of these calls, for one key and bucket, still count.
abbrev pub recent_count : ℕ → ℕ → String → String → List Call → ℕ
recent_count now window key bucket log =
    length (select (is_recent now window) (times key bucket log))

length-select : (now w : ℕ) (hs : List ℕ) → length (select (is_recent now w) hs) ≤ length hs
length-select now w [] = omega arith
length-select now w (h ∷ hs) = ground (arith, length-select now w hs)

recent_count_later :
    (t now w : ℕ) (key bucket : String) (log : List Call)
    → t ≤ now
    → recent_count now w key bucket log ≤ recent_count t w key bucket log
recent_count_later t now w key bucket log le = omega (
  arith,
  ap length (select_later t now w (times key bucket log) le),
  length-select now w (select (is_recent t w) (times key bucket log)),
)

-- A call added to the log counts for its own key and bucket only.
recent_count_added :
    (w : ℕ) (key bucket : String) (log : List Call) (c : Call) (b : Bool)
    → is_key c key bucket ≡ b
    → recent_count c.now w key bucket (log ++ c ∷ [])
      ≡ length (select (is_recent c.now w) (append_if b c.now (times key bucket log)))
recent_count_added w key bucket log c b e =
    ap (λ hs. length (select (is_recent c.now w) hs))
      (times-append key bucket log c ∙ ap (λ b. append_if b c.now (times key bucket log)) e)

length-append_now :
    (now w : ℕ) (hs : List ℕ)
    → length (select (is_recent now w) (append_if true now hs))
      ≡ suc (length (select (is_recent now w) hs))
length-append_now now w hs =
    ap length (select-append_now now w hs)
    ∙ omega (arith, length-append (select (is_recent now w) hs) (now ∷ []))

-- The limiter keeps each bucket within its limit.
abbrev Within : (String → ℕ) → (String → ℕ) → ℕ → String → String → List Call → Type 0
Within window_of limit_of t key bucket log =
    recent_count t (window_of bucket) key bucket log ≤ limit_of bucket

module _ (window_of limit_of : String → ℕ) where
  added-Within :
      (c : Call) (log : List Call)
      → c.window ≡ window_of c.bucket
      → c.limit ≤ limit_of c.bucket
      → log_allows c log ≡ true
      → Within window_of limit_of c.now c.key c.bucket (log ++ c ∷ [])
  added-Within c log own limit let_in =
      let room =
        subst (λ w. recent_count c.now w c.key c.bucket log < c.limit) own (ltb→lt _ _ let_in) in
      omega (
        arith,
        recent_count_added (window_of c.bucket) c.key c.bucket log c true (is_key_refl c),
        length-append_now c.now (window_of c.bucket) (times c.key c.bucket log),
        room,
        limit,
      )

  module _ (key bucket : String) where
    -- One call more.
    logged-Within :
        (t : ℕ) (c : Call) (log : List Call)
        → t ≤ c.now
        → c.window ≡ window_of c.bucket
        → c.limit ≤ limit_of c.bucket
        → Within window_of limit_of t key bucket log
        → Within window_of limit_of c.now key bucket (logged c log)
    logged-Within t c log le own limit w =
        let later = recent_count_later t c.now (window_of bucket) key bucket log le in
        elim (Bool-cases (log_allows c log)) [
          | inr refused ↦ rw refused (omega (arith, later, w))
          | inl let_in ↦ rw let_in (elim (Bool-cases (is_key c key bucket)) [
            | inr other ↦ omega (
              arith,
              later,
              w,
              recent_count_added (window_of bucket) key bucket log c false other,
            )
            | inl same ↦
                is_key-subst (λ k b. Within window_of limit_of c.now k b (log ++ c ∷ [])) c key
                  bucket same (added-Within c log own limit let_in)
          ])
        ]

    log-Within :
        (t now : ℕ) (calls log : List Call)
        → IsOrdered window_of t calls
        → All (λ c. (c.limit ≤ limit_of c.bucket) × (c.now ≤ now)) calls
        → t ≤ now
        → Within window_of limit_of t key bucket log
        → Within window_of limit_of now key bucket (log ++ log_let_through calls log)
    log-Within t now [] log ordered asked le w =
        subst (Within window_of limit_of now key bucket) (sym (append_nil log))
          (omega (arith, recent_count_later t now (window_of bucket) key bucket log le, w))
    log-Within t now (c ∷ calls) log ordered asked le w =
        let rest =
          log-Within c.now now calls (logged c log) ordered.1.1 asked.1 asked.0.1
            (logged-Within t c log ordered.0 ordered.1.0 asked.0.0 w) in
        elim (Bool-cases (log_allows c log)) [
          | inr refused ↦ rw refused (rw refused at rest)
          | inl let_in ↦ rw let_in (
              subst (Within window_of limit_of now key bucket)
                (append_assoc log (c ∷ []) (log_let_through calls (log ++ c ∷ [])))
                (rw let_in at rest))
        ]

-- At most the limit in any window: for calls in the order of the clock, each with its bucket's own
-- window, no longer than what the sweep takes for stale, and no limit above the bucket's, the
-- calls let through for a key and a bucket that lie within the window before an instant, not
-- earlier than the last call, are at most the bucket's limit.
pub limiter_within_limit :
    (window_of limit_of : String → ℕ) (calls : List Call) (now : ℕ) (key bucket : String)
    → ((bucket : String) → window_of bucket ≤ stale_after)
    → IsOrdered window_of 0 calls
    → All (λ c. (c.limit ≤ limit_of c.bucket) × (c.now ≤ now)) calls
    → recent_count now (window_of bucket) key bucket (let_through calls new_limiter)
      ≤ limit_of bucket
limiter_within_limit window_of limit_of calls now key bucket short ordered asked =
    subst (λ log. recent_count now (window_of bucket) key bucket log ≤ limit_of bucket)
      (sym (limiter_refines_log window_of calls short ordered))
      (log-Within window_of limit_of key bucket 0 now calls [] ordered asked (omega arith)
        (omega arith))
