-- ===== src/Server/RateLimit/Tests.antt =====
-- A flood, and an instance of its theorem.
use web_inspector.Prelude.{List, [], arith, refl, ◌∷◌, ◌≡◌, ◌≤◌, string_eq}
use web_inspector.Prelude.Dict.{insert, lookup}
use web_inspector.Server.RateLimit.{Event, RateLimiter, allow, allowed, request, sweep, sweeping}
use web_inspector.Server.RateLimit.Flood.{flood_is_bounded}

abbrev two_per_minute : RateLimiter
two_per_minute = record { window = 60; limit = 2; hits = [] }

abbrev flood : List Event
flood =
    request 1 "10.0.0.1"
    ∷ request 2 "10.0.0.2"
    ∷ sweeping 3
    ∷ request 4 "10.0.0.1"
    ∷ request 5 "10.0.0.1"
    ∷ []

two_are_allowed : allowed two_per_minute "10.0.0.1" flood ≡ 2
unfolding allowed allow sweep lookup insert
two_are_allowed = refl

-- A window of the address that ended before the flood
abbrev window_over : RateLimiter
window_over = record {
  window = 60;
  limit = 2;
  hits = ("10.0.0.1", record { count = 9; reset_at = 99 }) ∷ [];
}

abbrev later_flood : List Event
later_flood =
    request 101 "10.0.0.1" ∷ request 102 "10.0.0.2" ∷ sweeping 103 ∷ request 104 "10.0.0.1" ∷ []

two_of_the_next_window : allowed window_over "10.0.0.1" (request 100 "10.0.0.1" ∷ later_flood) ≡ 2
unfolding allowed allow sweep lookup insert
two_of_the_next_window = refl

flood_is_bounded_example : allowed window_over "10.0.0.1" (request 100 "10.0.0.1" ∷ later_flood) ≤ 2
unfolding lookup
flood_is_bounded_example =
    flood_is_bounded window_over "10.0.0.1" 100 later_flood (omega arith)
      (omega arith, (omega arith, (omega arith, (omega arith, tt))))
