-- ===== src/Web/RateLimit.antt =====
-- web/rate_limit.py: the sliding-window limiter that every request passes. Times are counted in
-- microseconds of the monotonic clock, which each call takes as an argument.
pub mod Log
pub mod Refines
pub mod Window
use pos_pay.Base.{
  ℕ, suc, ◌-◌, String, Bool, true, false, ◌&&◌, List, [], ◌∷◌, ◌++◌, ltb, leb, if◌then◌else◌,
  length, str_eq,
}

-- `_hits`: no entry and an empty deque are the same to every reader.
pub record RateLimiter : Type 0 where
  pub hits : String → String → List ℕ
  pub calls_since_sweep : ℕ

abbrev pub new_limiter : RateLimiter
new_limiter = record { hits = λ key bucket. []; calls_since_sweep = 0 }

-- `_STALE_AFTER_SECONDS` and `_SWEEP_EVERY_N_CALLS`
abbrev pub stale_after : ℕ
stale_after = 300000000

abbrev pub sweep_every_n_calls : ℕ
sweep_every_n_calls = 500

-- The arguments of one call, with the time at which it comes.
pub record Call : Type 0 where
  pub now : ℕ
  pub key : String
  pub bucket : String
  pub limit : ℕ
  pub window : ℕ

abbrev pub is_key : Call → String → String → Bool
is_key c key bucket = str_eq c.key key && str_eq c.bucket bucket

-- Hits that have expired are popped from the left.
unfoldable pub trim : ℕ → ℕ → List ℕ → List ℕ
trim now window [] = []
trim now window (h ∷ hs) =
    let rest = trim now window hs in if ltb window (now - h) then rest else h ∷ hs

abbrev pub is_stale : ℕ → List ℕ → Bool
is_stale now [] = true
is_stale now (h ∷ []) = ltb stale_after (now - h)
is_stale now (h ∷ k ∷ hs) = is_stale now (k ∷ hs)

unfoldable pub sweep : ℕ → (String → String → List ℕ) → String → String → List ℕ
sweep now hits key bucket = if is_stale now (hits key bucket) then [] else hits key bucket

abbrev pub append_if : Bool → ℕ → List ℕ → List ℕ
append_if true now hs = hs ++ now ∷ []
append_if false now hs = hs

abbrev pub sweep_when_due : ℕ → RateLimiter → RateLimiter
sweep_when_due now l =
    if leb sweep_every_n_calls (suc l.calls_since_sweep)
    then record { hits = sweep now l.hits; calls_since_sweep = 0 }
    else record l { calls_since_sweep = suc l.calls_since_sweep }

-- Whether the hits that have not expired leave room for one more.
unfoldable pub allowed : Call → RateLimiter → Bool
allowed c l = ltb (length (trim c.now c.window (l.hits c.key c.bucket))) c.limit

unfoldable pub recorded : Call → RateLimiter → RateLimiter
recorded c l = record l {
  hits = λ key bucket.
      if is_key c key bucket
      then append_if (allowed c l) c.now (trim c.now c.window (l.hits c.key c.bucket))
      else l.hits key bucket;
}

unfoldable pub allow : Call → RateLimiter → Bool × RateLimiter
allow c l = (allowed c l, sweep_when_due c.now (recorded c l))

-- The calls of a sequence that are let through.
unfoldable pub let_through : List Call → RateLimiter → List Call
let_through [] l = []
let_through (c ∷ calls) l =
    let (ok, next) = allow c l in let rest = let_through calls next in if ok then c ∷ rest else rest
