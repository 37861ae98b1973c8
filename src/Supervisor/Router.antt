-- ===== src/Supervisor/Router.antt =====
-- control-plane-agent/commands/index.mjs: the command router. `running` holds the calls of
-- `dispatch` whose promise is open, `dispatched` the ids of all calls that were made, and `sent` the
-- results that were reported, newest first. What a handler does is the caller's.
pub mod Once
pub mod Replays
mod Tests
use web_inspector.Prelude.{
  Bool, List, String, [], false, if◌then◌else◌, none, some, true, ◌∷◌, string_eq,
}
use web_inspector.Prelude.Dict.{Dict, delete, insert, lookup}
use web_inspector.Contracts.Commands.{
  ResultStatus, Verb, accepted, failed, in_progress, other_verb, ping, rejected, succeeded,
}

pub record Router : Type 0 where
  pub seen : Dict String ResultStatus
  pub running : Dict String Verb
  pub dispatched : List String
  pub sent : List (String × ResultStatus)

abbrev pub fresh : Router
fresh = record { seen = []; running = []; dispatched = []; sent = [] }

-- `report(commandId, status)`
abbrev pub report : Router → String → ResultStatus → Router
report r id status = record r { sent = (id, status) ∷ r.sent }

-- `["succeeded", "failed", "rejected"].includes(prior)`
abbrev pub is_settled : ResultStatus → Bool
is_settled succeeded = true
is_settled failed = true
is_settled rejected = true
is_settled _ = false

-- `prior === "in_progress"`
abbrev pub is_open : ResultStatus → Bool
is_open in_progress = true
is_open _ = false

-- `handle` from `seen.set(commandId, "in_progress")` up to the call of `dispatch`.
unfoldable pub begin : Router → String → Verb → Router
begin r id verb = record r {
  seen = insert id in_progress r.seen;
  running = insert id verb r.running;
  dispatched = id ∷ r.dispatched;
  sent = (id, accepted) ∷ r.sent;
}

-- `handle(envelope)` up to the call of `dispatch`.
unfoldable pub deliver : Router → String → Verb → Router
deliver r id verb = elim (lookup id r.seen) [
  | none ↦ begin r id verb
  | some prior ↦
      if is_settled prior then report r id prior else if is_open prior then r else begin r id verb
]

-- Whether `dispatch(verb, ctx)` returns, given whether the handler that it calls does.
unfoldable pub dispatch : Verb → Bool → Bool
dispatch (other_verb name) ok = false
dispatch ping ok = true
dispatch _ ok = ok

-- `handle` once `dispatch` has returned or thrown.
unfoldable pub finish : Router → String → Verb → Bool → Router
unfolding dispatch
finish r id verb ok =
    let status = if dispatch verb ok then succeeded else failed in
    record r {
      seen = insert id status r.seen;
      running = delete id r.running;
      sent = (id, status) ∷ r.sent;
    }

unfoldable pub settle : Router → String → Bool → Router
settle r id ok = elim (lookup id r.running) [ none ↦ r | some verb ↦ finish r id verb ok ]

-- What happens to a router, in any order: a command arrives, again or for the first time; a handler
-- of an open call reports progress; an open call returns or throws.
pub data Event : Type 0 where
  deliver_event : (id : String) → Verb → Event
  progress_event : (id : String) → Event
  settle_event : (id : String) → (ok : Bool) → Event

unfoldable pub step : Router → Event → Router
step r (deliver_event id verb) = deliver r id verb
step r (progress_event id) = elim (lookup id r.running) [
  | none ↦ r
  | some verb ↦ report r id in_progress
]
step r (settle_event id ok) = settle r id ok

unfoldable pub steps : Router → List Event → Router
steps r [] = r
steps r (e ∷ es) = steps (step r e) es
