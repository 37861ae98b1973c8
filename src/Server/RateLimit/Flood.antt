-- ===== src/Server/RateLimit/Flood.antt =====
-- rate-limit.mjs: what a flood of requests can get.
use web_inspector.Prelude.{
  All, List, String, [], arith, filter_by, ltb, max, none, not, some, ℕ, ◌+◌, ◌∷◌, ◌≡◌, ◌≤◌, Bool,
  false, if_cases, if◌then◌else◌, leb, refl, suc, true, ◌==◌, ◌≢◌, Bool-cases, Option, ap, inl, inr,
  ◌&&◌, ◌∙◌, eq_iff, subst, sym, ◌<◌, string_eq,
}
use web_inspector.Prelude.Dict.{Dict, lookup, insert, lookup-insert_ne, lookup-insert_self}
use web_inspector.Server.RateLimit.{
  Event, Hits, RateLimiter, allowed, request, sweep, sweeping, time_of, allow, allow_with,
  open_window,
}

lookup-sweep :
    (hits : Dict String Hits) (now : ℕ) (key : String) (rec : Hits)
    → lookup key hits ≡ some rec
    → now ≤ rec.reset_at
    → lookup key (filter_by (λ (e : String × Hits). not (ltb e.1.reset_at now)) hits) ≡ some rec
unfolding lookup
lookup-sweep [] now key rec e h = absurd (ground arith)
lookup-sweep ((k, r) ∷ hits) now key rec e h = ground (arith, lookup-sweep hits now key rec)

-- What a request for another key keeps.
Keeps : RateLimiter → String → RateLimiter × Bool → Type 0
Keeps l key r = (lookup key r.0.hits ≡ lookup key l.hits) × (r.0.limit ≡ l.limit)

allow_with-Keeps :
    (l : RateLimiter) (now : ℕ) (k key : String) (o : Option Hits)
    → k ≢ key
    → Keeps l key (allow_with l now k o)
unfolding Keeps
allow_with-Keeps l now k key none ne =
    (lookup-insert_ne k key (record { count = 1; reset_at = now + l.window }) l.hits ne, refl)
allow_with-Keeps l now k key (some rec) ne =
    if_cases (Keeps l key) (ltb rec.reset_at now)
      (λ _.
        (lookup-insert_ne k key (record { count = 1; reset_at = now + l.window }) l.hits ne, refl))
      (λ _.
        if_cases (Keeps l key) (leb l.limit rec.count) (λ _. (refl, refl))
          (λ _. (lookup-insert_ne k key (record rec { count = suc rec.count }) l.hits ne, refl)))

-- A request that is counted in its window.
abbrev counted : RateLimiter → String → Hits → RateLimiter
counted l key rec = record l { hits = insert key (record rec { count = suc rec.count }) l.hits }

allow_open :
    (l : RateLimiter) (now : ℕ) (key : String) (rec : Hits)
    → lookup key l.hits ≡ some rec
    → now ≤ rec.reset_at
    → allow l now key ≡ (if leb l.limit rec.count then (l, false) else (counted l key rec, true))
unfolding allow
allow_open l now key rec e h =
    ap (allow_with l now key) e
    ∙ if_cases
        (λ (x : RateLimiter × Bool).
          x ≡ (if leb l.limit rec.count then (l, false) else (counted l key rec, true)))
        (ltb rec.reset_at now) (λ late. absurd (ground arith)) (λ _. refl)

-- What a request adds to the requests that are allowed after it.
abbrev tally : Bool → RateLimiter × Bool → (RateLimiter → ℕ) → ℕ
tally hit r after = let rest = after r.0 in if r.1 && hit then suc rest else rest

allowed-request :
    (l : RateLimiter) (key k : String) (now : ℕ) (es : List Event)
    → allowed l key (request now k ∷ es)
      ≡ tally (k == key) (allow l now k) (λ l'. allowed l' key es)
unfolding allowed
allowed-request l key k now es = refl

-- The tally of a request for another key.
unmatched :
    (hit ok : Bool) (count rest limit limit' : ℕ)
    → hit ≡ false
    → limit ≡ limit'
    → count + rest ≤ max count limit
    → count + (if ok && hit then suc rest else rest) ≤ max count limit'
unmatched hit ok count rest limit limit' miss same bound = ground arith

-- From an open window on, as long as it lasts.
allowed_in_window :
    (l : RateLimiter) (key : String) (rec : Hits) (es : List Event)
    → lookup key l.hits ≡ some rec
    → All (λ e. time_of e ≤ rec.reset_at) es
    → rec.count + allowed l key es ≤ max rec.count l.limit
unfolding allowed allow sweep Keeps
allowed_in_window l key rec [] e h = omega arith
allowed_in_window l key rec (request now k ∷ es) e h =
    let Bound : RateLimiter × Bool → Type 0 =
      λ r. rec.count + tally (k == key) r (λ l'. allowed l' key es) ≤ max rec.count l.limit in
    let more = record rec { count = suc rec.count } in
    elim (Bool-cases (k == key)) [
      | inl same ↦
          let stays = allowed_in_window l key rec es e h.1 in
          let grows =
            allowed_in_window (counted l key rec) key more es (lookup-insert_self key more l.hits)
              h.1 in
          subst Bound
            (sym (ap (allow l now) ((eq_iff k key).0 same) ∙ allow_open l now key rec e h.0))
            (if_cases Bound (leb l.limit rec.count) (λ full. ground (arith, same, stays))
              (λ room. ground (arith, same, grows, room)))
      | inr differs ↦
          let kept =
            allow_with-Keeps l now k key (lookup k l.hits)
              (λ same. absurd (ground (arith, differs, (eq_iff k key).1 same))) in
          let after = allowed_in_window (allow l now k).0 key rec es (kept.0 ∙ e) h.1 in
          unmatched (k == key) (allow l now k).1 rec.count (allowed (allow l now k).0 key es)
            (allow l now k).0.limit l.limit differs kept.1 after
    ]
allowed_in_window l key rec (sweeping now ∷ es) e h =
    allowed_in_window (sweep l now) key rec es (lookup-sweep l.hits now key rec e h.0) h.1

-- The key has no window, or one that is over.
abbrev pub OpensWith : ℕ → Option Hits → Type 0
OpensWith now none = Unit
OpensWith now (some rec) = rec.reset_at < now

abbrev pub Opens : RateLimiter → String → ℕ → Type 0
Opens l key now = OpensWith now (lookup key l.hits)

opened :
    (l : RateLimiter) (key : String) (now : ℕ) (o : Option Hits)
    → OpensWith now o
    → allow_with l now key o ≡ open_window l now key
opened l key now none h = refl
opened l key now (some rec) h =
    if_cases (λ (r : RateLimiter × Bool). r ≡ open_window l now key) (ltb rec.reset_at now)
      (λ _. refl) (λ early. absurd (ground (arith, early, h)))

-- Of the requests for a key from the one that opens its window, because it has none or the last one is
-- over, to the end of the window, no more than `max` are allowed, or one if `max` is 0, whatever requests
-- for other keys and sweeps come between.
pub flood_is_bounded :
    (l : RateLimiter) (key : String) (now : ℕ) (es : List Event)
    → Opens l key now
    → All (λ e. time_of e ≤ now + l.window) es
    → allowed l key (request now key ∷ es) ≤ max 1 l.limit
unfolding allow
flood_is_bounded l key now es opens h =
    let first : Hits = record { count = 1; reset_at = now + l.window } in
    let l' = (open_window l now key).0 in
    let bound = allowed_in_window l' key first es (lookup-insert_self key first l.hits) h in
    subst (λ n. n ≤ max 1 l.limit)
      (sym (
        allowed-request l key key now es
        ∙ ap (λ r. tally (key == key) r (λ m. allowed m key es))
            (opened l key now (lookup key l.hits) opens)))
      (ground (arith, bound, (eq_iff key key).1 refl))
