-- ===== src/Tests/WebRuns.antt =====
-- The limiter, the address of a client behind one proxy, and a list of five rows in three pages.
use pos_pay.Base.{ℕ, ◌≡◌, ◌≤◌, refl, [], ◌∷◌, List, arith}
use pos_pay.Base.{◌++◌, some, codes}
use pos_pay.Web.ClientIp.{get_client_ip, hops_of}
use pos_pay.Web.ClientIp.Forged.{forged_ignored}
use pos_pay.Web.Pagination.Pages.{all_pages, pages_are_the_list}
use pos_pay.Web.RateLimit.{Call, new_limiter, trim, sweep, allowed, recorded, allow, let_through}
use pos_pay.Web.RateLimit.Log.{log_let_through}
use pos_pay.Web.RateLimit.Refines.{limiter_refines_log}
use pos_pay.Web.RateLimit.Window.{recent_count, limiter_within_limit}

abbrev request : Call
request = record { now = 0; key = "10.0.0.1"; bucket = "global"; limit = 2; window = 60000000 }

abbrev requests : List Call
requests =
    request
    ∷ record request { now = 1000000 }
    ∷ record request { now = 2000000 }
    ∷ record request { now = 61500000 }
    ∷ []

two_of_three :
    let_through requests new_limiter
    ≡ request ∷ record request { now = 1000000 } ∷ record request { now = 61500000 } ∷ []
unfolding let_through allow allowed recorded trim sweep
two_of_three = refl

limiter_refines_log_example : let_through requests new_limiter ≡ log_let_through requests []
limiter_refines_log_example =
    limiter_refines_log (λ bucket. 60000000) requests (λ bucket. omega arith)
      (omega arith, (refl, (omega arith, (refl, (omega arith, (refl, (omega arith, (refl, tt))))))))

limiter_within_limit_example :
    recent_count 61500000 60000000 "10.0.0.1" "global" (let_through requests new_limiter) ≤ 2
limiter_within_limit_example =
    limiter_within_limit (λ bucket. 60000000) (λ bucket. 2) requests 61500000 "10.0.0.1" "global"
      (λ bucket. omega arith)
      (omega arith, (refl, (omega arith, (refl, (omega arith, (refl, (omega arith, (refl, tt))))))))
      (
        (omega arith, omega arith),
        (
          (omega arith, omega arith),
          ((omega arith, omega arith), ((omega arith, omega arith), tt)),
        ),
      )

-- The client claims to be 10.0.0.1; the proxy saw 203.0.113.7.
forged_ignored_example :
    get_client_ip 1 (some (codes "10.0.0.1" ++ codes ", 203.0.113.7")) (some (codes "192.0.2.1"))
    ≡ some (codes "203.0.113.7")
unfolding hops_of
forged_ignored_example =
    forged_ignored 1 (codes "10.0.0.1") (codes " 203.0.113.7") (some (codes "192.0.2.1"))
      (omega arith) (omega arith)

abbrev five_rows : List ℕ
five_rows = 1 ∷ 2 ∷ 3 ∷ 4 ∷ 5 ∷ []

pages_are_the_list_example : all_pages 3 2 five_rows ≡ five_rows
pages_are_the_list_example = pages_are_the_list 2 five_rows (omega arith)
