-- ===== src/Auth/Limits/Cleanup.antt =====
-- The entries of the rate limiter of internal/application/auth_middleware.go that a cleanup may drop.
use hotel_reviews_microservi.Base.{
  ◌+◌, ◌*◌, ◌≤◌, ◌<◌, ◌≡◌, refl, ◌⊎◌, false, List, [], ◌∷◌, arith, Time,
}
use hotel_reviews_microservi.Auth.Config.{AuthMiddlewareConfig}
use hotel_reviews_microservi.Auth.Limits.{RateLimit, new_limit, check_limit}
use hotel_reviews_microservi.Auth.Limits.Window.{entry_decisions}

-- Entries that decide alike: they differ at most in the last request, and in the end of a block that
-- is over.
pub record Alike (l k : RateLimit) : Type 0 where
  pub count : l.request_count ≡ k.request_count
  pub reset : l.last_reset ≡ k.last_reset
  pub burst : l.burst_used ≡ k.burst_used
  pub block : l.blocked ≡ k.blocked
  pub until : (l.blocked ≡ false) ⊎ (l.blocked_until ≡ k.blocked_until)

check_limit-Alike :
    (config : AuthMiddlewareConfig) (now : Time) (l k : RateLimit)
    → Alike l k
    → ((check_limit config now l).1 ≡ (check_limit config now k).1)
      × Alike (check_limit config now l).0 (check_limit config now k).0
unfolding check_limit
check_limit-Alike config now l k a = ground (arith, a.until)

pub entry_decisions-Alike :
    (config : AuthMiddlewareConfig) (l k : RateLimit) (ts : List Time)
    → Alike l k
    → entry_decisions config l ts ≡ entry_decisions config k ts
unfolding entry_decisions
entry_decisions-Alike config l k [] a = refl
entry_decisions-Alike config l k (now ∷ ts) a =
    let (e, a') = check_limit-Alike config now l k a in
    ground (
      arith,
      entry_decisions-Alike config (check_limit config now l).0 (check_limit config now k).0 ts a',
    )

-- What is true of every entry.
pub record IsSound (config : AuthMiddlewareConfig) (clock : Time) (l : RateLimit) : Type 0 where
  pub window : l.last_reset ≤ l.last_request
  pub past : l.last_request ≤ clock
  pub short : l.blocked_until ≤ l.last_request + 2 * config.rate_limit_window

pub check_limit-IsSound :
    (config : AuthMiddlewareConfig) (clock now : Time) (l : RateLimit)
    → 0 < config.rate_limit_requests + config.rate_limit_burst
    → clock ≤ now
    → IsSound config clock l
    → IsSound config now (check_limit config now l).0
unfolding check_limit
check_limit-IsSound config clock now l p c s = ground arith

-- An entry that the cleanup drops starts its window again at the next request.
pub dropped-Alike :
    (config : AuthMiddlewareConfig) (now t : Time) (clock : Time) (l : RateLimit)
    → IsSound config clock l
    → l.last_request + 2 * config.rate_limit_window < now
    → now ≤ t
    → ((check_limit config t l).1 ≡ (check_limit config t (new_limit t)).1)
      × Alike (check_limit config t l).0 (check_limit config t (new_limit t)).0
unfolding check_limit
dropped-Alike config now t clock l s d h = ground arith
