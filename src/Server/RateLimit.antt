-- ===== src/Server/RateLimit.antt =====
-- control-plane/server/rate-limit.mjs: requests per key in a fixed window. The time of a call is an
-- argument.
pub mod Flood
mod Tests
use web_inspector.Prelude.{
  Bool, List, String, [], false, filter_by, if◌then◌else◌, leb, ltb, none, not, some, suc, true, ℕ,
  ◌&&◌, ◌+◌, ◌==◌, ◌∷◌, Option, string_eq,
}
use web_inspector.Prelude.Dict.{Dict, insert, lookup}

pub record Hits : Type 0 where
  pub count : ℕ
  pub reset_at : ℕ

pub record RateLimiter : Type 0 where
  pub window : ℕ
  pub limit : ℕ
  pub hits : Dict String Hits

-- The branch of `allow` that opens a window.
abbrev pub open_window : RateLimiter → ℕ → String → RateLimiter × Bool
open_window l now key =
    (record l { hits = insert key (record { count = 1; reset_at = now + l.window }) l.hits }, true)

-- `allow(key)`, given what `hits.get(String(key))` answers.
abbrev pub allow_with : RateLimiter → ℕ → String → Option Hits → RateLimiter × Bool
allow_with l now key none = open_window l now key
allow_with l now key (some rec) =
    if ltb rec.reset_at now
    then open_window l now key
    else if leb l.limit rec.count
    then (l, false)
    else (record l { hits = insert key (record rec { count = suc rec.count }) l.hits }, true)

-- `allow(key)`
unfoldable pub allow : RateLimiter → ℕ → String → RateLimiter × Bool
allow l now key = allow_with l now key (lookup key l.hits)

-- `sweep(now)`
unfoldable pub sweep : RateLimiter → ℕ → RateLimiter
sweep l now = record l { hits = filter_by (λ e. not (ltb e.1.reset_at now)) l.hits }

pub data Event : Type 0 where
  request : (now : ℕ) (key : String) → Event
  sweeping : (now : ℕ) → Event

abbrev pub time_of : Event → ℕ
time_of (request now key) = now
time_of (sweeping now) = now

-- How many requests for a key are allowed.
unfoldable pub allowed : RateLimiter → String → List Event → ℕ
unfolding sweep allow
allowed l key [] = 0
allowed l key (request now k ∷ es) =
    let (l', ok) = allow l now k in
    let rest = allowed l' key es in if ok && k == key then suc rest else rest
allowed l key (sweeping now ∷ es) = allowed (sweep l now) key es
