-- ===== src/Supervisor/Router/Once.antt =====
-- commands/index.mjs: a command is executed once, however often and whenever it is delivered.
use web_inspector.Prelude.{
  Bool, List, Option, String, [], arith, eq_iff, false, if_cases, if◌then◌else◌, none, option_cases,
  refl, some, suc, ℕ, ◌==◌, ◌||◌, ◌∷◌, ◌≡◌, ◌≤◌, string_eq,
}
use web_inspector.Prelude.Dict.{lookup, lookup-delete, lookup-insert}
use web_inspector.Contracts.Commands.{ResultStatus, Verb, failed, in_progress, succeeded}
use web_inspector.Supervisor.Router.{
  Event, Router, begin, deliver, deliver_event, dispatch, finish, fresh, is_open, is_settled,
  progress_event, settle, settle_event, step, steps,
}

-- How often a command was executed.
unfoldable pub times : String → List String → ℕ
times id [] = 0
times id (x ∷ xs) = let rest = times id xs in if x == id then suc rest else rest

-- Whether a status keeps a command from being executed.
abbrev pub holds_back : Option ResultStatus → Bool
holds_back none = false
holds_back (some prior) = is_settled prior || is_open prior

pub record Inv (r : Router) : Type 0 where
  pub once : (id : String) → times id r.dispatched ≤ 1
  pub known : (id : String) → holds_back (lookup id r.seen) ≡ false → times id r.dispatched ≡ 0
  pub open_calls :
      (id : String) (verb : Verb)
      → lookup id r.running ≡ some verb
      → lookup id r.seen ≡ some in_progress

begin-Inv :
    (r : Router) (id : String) (verb : Verb)
    → holds_back (lookup id r.seen) ≡ false
    → Inv r
    → Inv (begin r id verb)
unfolding begin times
begin-Inv r id verb new inv = record {
  once = λ k. ground (arith, eq_iff id k, inv.once k, inv.known id new);
  known = λ k h. ground (arith, eq_iff id k, lookup-insert id k in_progress r.seen, inv.known k);
  open_calls = λ k v h. ground (
    arith,
    eq_iff id k,
    lookup-insert id k in_progress r.seen,
    lookup-insert id k verb r.running,
    inv.open_calls k v,
  );
}

deliver-Inv : (r : Router) (id : String) (verb : Verb) → Inv r → Inv (deliver r id verb)
unfolding deliver
deliver-Inv r id verb inv =
    option_cases Inv (lookup id r.seen) (λ e. begin-Inv r id verb (ground arith) inv)
      (λ prior e.
        if_cases Inv (is_settled prior)
          (λ _. record { once = inv.once; known = inv.known; open_calls = inv.open_calls })
          (λ unsettled.
            if_cases Inv (is_open prior) (λ _. inv)
              (λ closed. begin-Inv r id verb (ground arith) inv)))

finish-Inv :
    (r : Router) (id : String) (verb : Verb) (ok : Bool) → Inv r → Inv (finish r id verb ok)
unfolding finish
finish-Inv r id verb ok inv =
    let status = if dispatch verb ok then succeeded else failed in
    record {
      once = inv.once;
      known = λ k h. ground (arith, eq_iff id k, lookup-insert id k status r.seen, inv.known k);
      open_calls = λ k v h. ground (
        arith,
        eq_iff id k,
        lookup-insert id k status r.seen,
        lookup-delete id k r.running,
        inv.open_calls k v,
      );
    }

pub step-Inv : (r : Router) (e : Event) → Inv r → Inv (step r e)
unfolding step settle
step-Inv r (deliver_event id verb) inv = deliver-Inv r id verb inv
step-Inv r (progress_event id) inv =
    option_cases Inv (lookup id r.running) (λ _. inv)
      (λ verb e. record { once = inv.once; known = inv.known; open_calls = inv.open_calls })
step-Inv r (settle_event id ok) inv =
    option_cases Inv (lookup id r.running) (λ _. inv) (λ verb e. finish-Inv r id verb ok inv)

pub steps-Inv : (r : Router) (es : List Event) → Inv r → Inv (steps r es)
unfolding steps
steps-Inv r [] inv = inv
steps-Inv r (e ∷ es) inv = steps-Inv (step r e) es (step-Inv r e inv)

pub fresh-Inv : Inv fresh
unfolding times lookup
fresh-Inv = record { once = λ id. omega arith; known = λ id h. refl; open_calls = λ id v h. cc }

-- Whatever is delivered, in whatever order and however often, while handlers report progress and
-- return or throw at any time, no command is executed twice.
pub executed_once : (es : List Event) (id : String) → times id (steps fresh es).dispatched ≤ 1
executed_once es id = (steps-Inv fresh es fresh-Inv).once id
