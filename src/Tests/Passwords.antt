-- ===== src/Tests/Passwords.antt =====
-- hysteria/auth_service.py, `PasswordWorkLimiter`: a limiter of three attempts in all, two of a source.
use hy.Prelude.{◌≤◌, ◌≡◌, refl, List, [], ◌∷◌, arith, some, none}
use hy.Limiter.{Config, Limiter, init, release}
use hy.Limiter.Bounds.{Call, acquires, releases, run, IsBounded, init-run-IsBounded}
use hy.Limiter.Rate.{Within, total_grants, try_acquire_rate, release_twice}

abbrev config : Config
config = record {
  window = 60;
  per_source_burst = 2;
  global_burst = 3;
  max_sources = 2;
  max_concurrent = 2;
}

abbrev limiter : Limiter
limiter = record { config = config; global_attempts = []; sources = []; permits = 2; leases = [] }

abbrev calls : List Call
calls =
    acquires "10.0.0.1" none 100
    ∷ releases 0
    ∷ acquires "10.0.0.2" (some 130) 110
    ∷ acquires "10.0.0.3" none 120
    ∷ []

within : Within 100 60 calls
within =
    (ground arith, ground arith, (ground arith, ground arith, (ground arith, ground arith, tt)))

try_acquire_rate_example : total_grants limiter calls ≤ 3
try_acquire_rate_example = try_acquire_rate 100 limiter calls within

init-run-IsBounded_example : IsBounded (run limiter calls)
unfolding init
init-run-IsBounded_example = init-run-IsBounded config limiter calls refl

release_twice_example : release (release (run limiter calls) 0) 0 ≡ release (run limiter calls) 0
release_twice_example = release_twice (run limiter calls) 0
