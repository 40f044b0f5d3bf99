-- ===== src/Web/RateLimit/Log.antt =====
-- web/rate_limit.py: the limiter against a log that forgets nothing.
use pos_pay.Base.{
  ℕ, ◌-◌, ◌≤◌, String, Bool, true, false, List, [], ◌∷◌, ◌++◌, ltb, leb, if◌then◌else◌, length,
  select, All, All-append, str_eq_refl, subst, eq_iff, ◌≡◌, refl, ap, sym, ◌∙◌, arith, Bool-cases,
  inl, inr,
}
use pos_pay.Web.RateLimit.{
  RateLimiter, Call, is_key, trim, is_stale, append_if, stale_after, allowed,
}

-- A hit that has not expired.
abbrev pub is_recent : ℕ → ℕ → ℕ → Bool
is_recent now window h = leb (now - h) window

-- The times of the calls for one key and bucket.
abbrev pub times : String → String → List Call → List ℕ
times key bucket [] = []
times key bucket (c ∷ log) =
    if is_key c key bucket then c.now ∷ times key bucket log else times key bucket log

-- The log lets a call through if it holds fewer than `limit` calls of its key and bucket in the
-- window before it.
abbrev pub log_allows : Call → List Call → Bool
log_allows c log =
    ltb (length (select (is_recent c.now c.window) (times c.key c.bucket log))) c.limit

-- The log after a call.
abbrev pub logged : Call → List Call → List Call
logged c log = if log_allows c log then log ++ c ∷ [] else log

abbrev pub log_let_through : List Call → List Call → List Call
log_let_through [] log = []
log_let_through (c ∷ calls) log =
    let rest = log_let_through calls (logged c log) in if log_allows c log then c ∷ rest else rest

-- The clock does not run backwards, and a bucket always asks for its own window, which is no longer
-- than what the sweep takes for stale.
abbrev pub IsOrdered : (String → ℕ) → ℕ → List Call → Type 0
IsOrdered window_of t [] = Unit
IsOrdered window_of t (c ∷ calls) =
    (t ≤ c.now) × ((c.window ≡ window_of c.bucket) × IsOrdered window_of c.now calls)

abbrev pub Sorted : ℕ → List ℕ → Type 0
Sorted t [] = Unit
Sorted t (h ∷ hs) = (h ≤ t) × (All (λ k. h ≤ k) hs × Sorted t hs)

-- What the limiter keeps, at time `t`, of a log.
pub record Follows (window_of : String → ℕ) (t : ℕ) (l : RateLimiter) (log : List Call)
    : Type 0 where
  pub sorted : (key bucket : String) → Sorted t (l.hits key bucket)
  pub same :
      (key bucket : String)
      → select (is_recent t (window_of bucket)) (l.hits key bucket)
        ≡ select (is_recent t (window_of bucket)) (times key bucket log)

-- What has expired stays expired.
pub select_later :
    (t now w : ℕ) (hs : List ℕ)
    → t ≤ now
    → select (is_recent now w) (select (is_recent t w) hs) ≡ select (is_recent now w) hs
select_later t now w [] le = refl
select_later t now w (h ∷ hs) le = ground (arith, select_later t now w hs le, le)

pub same_later :
    (t now w : ℕ) (hs ks : List ℕ)
    → t ≤ now
    → select (is_recent t w) hs ≡ select (is_recent t w) ks
    → select (is_recent now w) hs ≡ select (is_recent now w) ks
same_later t now w hs ks le e =
    sym (select_later t now w hs le) ∙ ap (select (is_recent now w)) e ∙ select_later t now w ks le

-- All of a list that is no older than a recent hit is recent.
recent-select :
    (h now w : ℕ) (hs : List ℕ)
    → is_recent now w h ≡ true
    → All (λ k. h ≤ k) hs
    → select (is_recent now w) hs ≡ hs
recent-select h now w [] e later = refl
recent-select h now w (k ∷ hs) e later =
    ground (arith, recent-select h now w hs e later.1, later.0, e)

pub trim-select :
    (t now w : ℕ) (hs : List ℕ) → Sorted t hs → trim now w hs ≡ select (is_recent now w) hs
unfolding trim
trim-select t now w [] s = refl
trim-select t now w (h ∷ hs) s = elim (Bool-cases (is_recent now w h)) [
  | inl e ↦ ground (arith, e, recent-select h now w hs e s.1.0)
  | inr e ↦ ground (arith, e, trim-select t now w hs s.1.1)
]

-- What the sweep drops has expired in every window.
pub stale_expired :
    (t now w : ℕ) (hs : List ℕ)
    → w ≤ stale_after
    → Sorted t hs
    → is_stale now hs ≡ true
    → select (is_recent now w) hs ≡ []
stale_expired t now w [] le s e = refl
stale_expired t now w (h ∷ []) le s e = ground (arith, le, e)
stale_expired t now w (h ∷ k ∷ hs) le s e =
    ground (arith, stale_expired t now w (k ∷ hs) le s.1.1 e, older k hs s.1.1 s.1.0.0 e)
  where
    older :
        (k : ℕ) (hs : List ℕ)
        → Sorted t (k ∷ hs)
        → h ≤ k
        → is_stale now (k ∷ hs) ≡ true
        → is_recent now w h ≡ false
    older k [] s hk e = ground (arith, le, e, hk)
    older k (j ∷ hs) s hk e = older j hs s.1.1 (ground (arith, hk, s.1.0.0)) e

pub Sorted-later : (t now : ℕ) (hs : List ℕ) → t ≤ now → Sorted t hs → Sorted now hs
Sorted-later t now [] le s = tt
Sorted-later t now (h ∷ hs) le s = (omega (arith, le, s.0), (s.1.0, Sorted-later t now hs le s.1.1))

pub Sorted-trim : (t now w : ℕ) (hs : List ℕ) → t ≤ now → Sorted t hs → Sorted now (trim now w hs)
unfolding trim
Sorted-trim t now w [] le s = tt
Sorted-trim t now w (h ∷ hs) le s = elim (Bool-cases (ltb w (now - h))) [
  | inl e ↦ rw e (Sorted-trim t now w hs le s.1.1)
  | inr e ↦ rw e (Sorted-later t now (h ∷ hs) le s)
]

pub times-append :
    (key bucket : String) (log : List Call) (c : Call)
    → times key bucket (log ++ c ∷ [])
      ≡ append_if (is_key c key bucket) c.now (times key bucket log)
times-append key bucket [] c = ground arith
times-append key bucket (x ∷ log) c = ground (arith, times-append key bucket log c)

pub select-append_now :
    (now w : ℕ) (hs : List ℕ)
    → select (is_recent now w) (hs ++ now ∷ []) ≡ select (is_recent now w) hs ++ now ∷ []
select-append_now now w [] = ground arith
select-append_now now w (h ∷ hs) = ground (arith, select-append_now now w hs)

Sorted-append_now : (now : ℕ) (hs : List ℕ) → Sorted now hs → Sorted now (hs ++ now ∷ [])
Sorted-append_now now [] s = (omega arith, (tt, tt))
Sorted-append_now now (h ∷ hs) s =
    (s.0, (All-append (λ k. h ≤ k) hs (now ∷ []) s.1.0 (s.0, tt), Sorted-append_now now hs s.1.1))

pub Sorted-append_if :
    (b : Bool) (now : ℕ) (hs : List ℕ) → Sorted now hs → Sorted now (append_if b now hs)
Sorted-append_if true now hs s = Sorted-append_now now hs s
Sorted-append_if false now hs s = s

pub is_key_refl : (c : Call) → is_key c c.key c.bucket ≡ true
is_key_refl c = ground (arith, str_eq_refl c.key, str_eq_refl c.bucket)

-- Both hold the same number of hits that count, so they answer alike.
pub allowed-log_allows :
    (window_of : String → ℕ) (t : ℕ) (c : Call) (l : RateLimiter) (log : List Call)
    → t ≤ c.now
    → c.window ≡ window_of c.bucket
    → Follows window_of t l log
    → allowed c l ≡ log_allows c log
unfolding allowed
allowed-log_allows window_of t c l log le own f =
    ap (λ hs. ltb (length hs) c.limit)
      (trim-select t c.now c.window (l.hits c.key c.bucket) (f.sorted c.key c.bucket)
        ∙ subst
            (λ w.
              select (is_recent c.now w) (l.hits c.key c.bucket)
              ≡ select (is_recent c.now w) (times c.key c.bucket log))
            (sym own) (same_later t c.now (window_of c.bucket) _ _ le (f.same c.key c.bucket)))

-- What holds of the call's own key and bucket holds of equal ones.
pub is_key-subst :
    (P : String → String → Type 0) (c : Call) (key bucket : String)
    → is_key c key bucket ≡ true
    → P c.key c.bucket
    → P key bucket
is_key-subst P c key bucket e p =
    let same_key = (eq_iff c.key key).0 (ground (arith, e)) in
    let same_bucket = (eq_iff c.bucket bucket).0 (ground (arith, e)) in
    subst (λ b. P key b) same_bucket (subst (λ k. P k c.bucket) same_key p)
